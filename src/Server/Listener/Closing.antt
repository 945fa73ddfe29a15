-- ===== src/Server/Listener/Closing.antt =====
-- The listener once it has been told to shut down.
use petracache.Base.{Option, [], false, length, none, refl, some, true, ℕ, ◌≡◌, ◌≤◌}
use petracache.Server.Connection.{cancelled}
use petracache.Server.Listener.{Reach, admit, handle_new_connection, Listener}
use petracache.Crates.Semaphore.{Semaphore}
use petracache.Crates.RocksDb.{RocksDb}
use petracache.Crates.Memchr.{Memchr}
use petracache.Crates.BytesMut.{BytesMut}
use petracache.Crates.Itoa.{Itoa}

module _ (r : RocksDb) (s : Semaphore) ⦃m : Memchr⦄ ⦃b : BytesMut⦄ ⦃i : Itoa⦄ where
  -- A connection that comes does not change whether the listener accepts.
  pub handle_new_connection-is_accepting :
      (l : Listener r s) → (handle_new_connection r s l).is_accepting ≡ l.is_accepting
  unfolding handle_new_connection admit
  handle_new_connection-is_accepting l = go (s.try_acquire l.connection_semaphore)
    where
      go : (o : Option s.Permits) → (admit r s l o).is_accepting ≡ l.is_accepting
      go none = refl
      go (some permits) = refl

  -- It has seen its token cancelled and left its loop, and it has no more connections than these.
  pub record IsClosed (most : ℕ) (l : Listener r s) : Type 0 where
    pub cancelled : l.is_cancelled ≡ true
    pub off : l.is_accepting ≡ false
    pub few : length l.connections ≤ most

  -- A run that no quit or error ends a connection of, to a listener without connections and with
  -- the store as it was.
  abbrev pub Drains : Listener r s → Type 0
  Drains l =
      (drained : Listener r s) × Reach r s l 0 drained
      × (drained.connections ≡ [])
      × (drained.server.storage ≡ l.server.storage)
