-- ===== src/Program/Life.antt =====
-- The life of the running program, from `main` on.
use petracache.Server.Connection.Answers.{Backing}
use petracache.Base.{Bytes, Bool, Option, false, none, not, some, true, ℕ, ◌≡◌}
use petracache.Program.{
  Result, ok, Listener, Config, Itoa, BytesMut, Memchr, Prometheus, Semaphore, HealthServer,
  RocksDb, Program,
}
use petracache.Program.Launch.{thread_of}
use petracache.Crates.Semaphore.{IsSemaphore}
use petracache.Crates.Prometheus.{IsPrometheus}
use petracache.Server.Listener.Limit.{Inv}
use petracache.Server.Listener.History.{HasHistory}
use petracache.Server.Cache.History.{History}
use petracache.Server.Listener.Entries.{IsEntry}

-- The health server of a program whose token is in this state.
abbrev pub health_at : Bool → Bool → Option HealthServer
health_at false token = none
health_at true token = some (record { ready = true; running = not token })

module _ {r : RocksDb} (s : Semaphore) (laws : IsSemaphore s) (p : Prometheus)
    (known : IsPrometheus p) ⦃m : Memchr⦄ ⦃b : BytesMut⦄ ⦃i : Itoa⦄ (g : Backing r) where
  -- The permits and the gauge are right, some history explains the database, the accept loop is
  -- left and the health server told to stop by a signal alone, and its thread is as it was started.
  record IsKept (bind_health : Bytes → Result (Unit {0}) Bytes) (config : Config)
      (t : Program r s p) : Type 0 where
    limit : (early : ℕ) × Inv r s laws config.server.max_connections early t.listener
    told : (history : History) × HasHistory s g history t.listener
    accepts_on : t.listener.is_accepting ≡ false → t.listener.is_cancelled ≡ true
    health : t.health ≡ health_at config.metrics.enabled t.listener.is_cancelled
    health_thread :
        t.health_thread ≡ thread_of bind_health config.metrics.enabled config.metrics.listen_addr

  -- Every entry of the database is one of a cache.
  pub HasEntries : r.Db → Type 0
  HasEntries d = (key bytes : Bytes) → r.get d key ≡ ok (some bytes) → IsEntry key bytes

  -- The permits and the gauge are right, the entries of the database are those of a cache, the
  -- accept loop is left and the health server told to stop by a signal alone, and its thread goes
  -- on to its loop exactly if its address was bound.
  pub record IsSound (bind_health : Bytes → Result (Unit {0}) Bytes) (config : Config)
      (t : Program r s p) : Type 0 where
    pub limit : (early : ℕ) × Inv r s laws config.server.max_connections early t.listener
    pub entries : HasEntries t.listener.server.storage.db
    pub accepts_on : t.listener.is_accepting ≡ false → t.listener.is_cancelled ≡ true
    pub health : t.health ≡ health_at config.metrics.enabled t.listener.is_cancelled
    pub health_thread :
        t.health_thread ≡ thread_of bind_health config.metrics.enabled config.metrics.listen_addr
