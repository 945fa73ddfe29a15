-- ===== src/Program/Launch.antt =====
-- What a start of the program gives.
use petracache.Base.{
  Bool, Bytes, Option, [], arith, false, if◌then◌else◌, none, refl, some, true, ◌<◌, ◌≡◌, ◌≤◌,
}
use petracache.Config.{Config}
use petracache.Error.{StorageError}
use petracache.Health
use petracache.Health.{HealthServer, set_ready}
use petracache.Outcome.{Outcome, returned, panicked}
use petracache.Result.{Result, ok, err}
use petracache.Crates.Memchr.{Memchr}
use petracache.Crates.RocksDb.{RocksDb}
use petracache.Crates.BytesMut.{BytesMut}
use petracache.Crates.Itoa.{Itoa}
use petracache.Crates.Semaphore.{Semaphore, IsSemaphore, max_permits}
use petracache.Storage.Rocks.{RocksStorage}
use petracache.Storage.Rocks.Open.{Opener, open_storage}
use petracache.Server.Listener.Limit.{Inv, new_within, new_panics_iff}
use native.Mathlib.Decide.{dec_lt}
use petracache.Crates.Prometheus.{Prometheus, IsPrometheus}
use petracache.Metrics.Registry
use petracache.Metrics.Registry.{Metrics}
use petracache.Metrics.Registry.Steps.{Returns}
use petracache.Metrics.Registry.Names.{metric_names, new-Returns}
use petracache.Program.{Program, launch, with_storage, ready, run_health}

-- A health server that says ready and has not been told to stop, if the configuration enables one.
abbrev pub health_of : Bool → Option HealthServer
health_of true = some (record { ready = true; running = true })
health_of false = none

-- Its thread, which has bound its address or ended with an error.
abbrev pub thread_of :
    (Bytes → Result (Unit {0}) Bytes) → Bool → Bytes → Option (Result (Unit {0}) Bytes)
thread_of bind_health true address = some (bind_health address)
thread_of bind_health false address = none

module _ (r : RocksDb) (s : Semaphore) (laws : IsSemaphore s) (p : Prometheus)
    (known : IsPrometheus p) ⦃m : Memchr⦄ ⦃b : BytesMut⦄ ⦃i : Itoa⦄ where
  -- How a start ends: with an error if the storage is not opened, in a panic if the configured limit
  -- is more than a semaphore takes, and else with a listener that has all its permits.
  abbrev pub Launched :
      (Bytes → Result (Unit {0}) Bytes)
      → Config
      → Result (RocksStorage r) (StorageError r.Error)
      → Outcome (Result (Program r s p) Bytes)
      → Type 0
  Launched bind_health config (err e) (returned (err message)) = Unit
  Launched bind_health config (err e) (returned (ok t)) = ⊥
  Launched bind_health config (err e) panicked = ⊥
  Launched bind_health config (ok storage) panicked = max_permits < config.server.max_connections
  Launched bind_health config (ok storage) (returned (err message)) = ⊥
  Launched bind_health config (ok storage) (returned (ok t)) =
      (config.server.max_connections ≤ max_permits)
      × (t.health ≡ health_of config.metrics.enabled)
      × (t.health_thread ≡ thread_of bind_health config.metrics.enabled config.metrics.listen_addr)
      × (t.listener.is_cancelled ≡ false)
      × (t.listener.connections ≡ [])
      × (t.listener.is_accepting ≡ true)
      × (t.listener.server ≡ record { storage = storage; metrics = [] })
      × (p.names t.metrics.registry ≡ metric_names)
      × Inv r s laws config.server.max_connections 0 t.listener

  made_metrics :
      (o : Outcome (Metrics p))
      → Returns (λ (m : Metrics p). p.names m.registry ≡ metric_names) o
      → (m : Metrics p) × (o ≡ returned m) × (p.names m.registry ≡ metric_names)
  made_metrics (returned m) h = (m, refl, h)
  made_metrics panicked h = absurd h

  ready_health : (t : Bool) → ready r s p (if t then some Health.new else none) ≡ health_of t
  unfolding Health.new set_ready
  ready_health true = refl
  ready_health false = refl

  run_thread :
      (bind_health : Bytes → Result (Unit {0}) Bytes) (enabled : Bool) (address : Bytes)
      → run_health r s p bind_health (record { enabled = enabled; listen_addr = address })
        ≡ thread_of bind_health enabled address
  unfolding run_health
  run_thread bind_health true address = refl
  run_thread bind_health false address = refl

  with_storage-Launched :
      (bind_health : Bytes → Result (Unit {0}) Bytes) (config : Config)
      (o : Result (RocksStorage r) (StorageError r.Error))
      → Launched bind_health config o (with_storage r s p bind_health config o)
  unfolding with_storage
  with_storage-Launched bind_health config (err e) = tt
  with_storage-Launched bind_health config (ok storage) =
      let (metrics, new_metrics, named) = made_metrics (Registry.new p) (new-Returns p known) in
      rw (new_metrics, with_storage)
        (elim (dec_lt max_permits config.server.max_connections) [
          | yes beyond ↦ rw ((new_panics_iff r s laws config.server storage).1 beyond) beyond
          | no within ↦
              let (l, made, v, idle, on, live, kept) =
                new_within r s laws config.server storage (omega arith) in
              rw made (
                omega arith,
                ready_health config.metrics.enabled,
                run_thread bind_health config.metrics.enabled config.metrics.listen_addr,
                live,
                idle,
                on,
                kept,
                named,
                v,
              )
        ])

  -- A start ends with an error exactly when the storage is not opened; in a panic exactly when it
  -- is opened and the configured limit is more than a semaphore takes; and else with a listener
  -- over that storage that accepts, has no connection and all its permits, with all metrics
  -- registered, and, if and only if the configuration enables it, with a health server whose
  -- thread was started, and ended at once if its address was not bound; the semaphore and the
  -- metrics crate follow their laws.
  pub launch-Launched :
      (o : Opener r) (bind_health : Bytes → Result (Unit {0}) Bytes) (config : Config)
      → Launched bind_health config
          (open_storage r o 0 0 config.storage)
          (launch r s p o bind_health config)
  unfolding launch with_storage
  launch-Launched o bind_health config =
      with_storage-Launched bind_health config (open_storage r o 0 0 config.storage)
