-- ===== src/Program/Started.antt =====
-- What the program's start comes to, by what the system gives it.
use petracache.Base.{Bytes, Option, none, some, suc, zero, ℕ, ◌<◌, ◌≡◌, ◌≤◌, ◌⊎◌}
use petracache.Program.{
  worker_threads, Outcome, petra_cache_message, returned, open_storage, ok, err, load_config,
  StorageError, RocksStorage, Config, PetraCacheError, Program, System, Start, serves, exits,
  aborts,
}
use petracache.Outcome.{returned, Outcome}
use petracache.Program.Launch.{Launched}
use petracache.Crates.RocksDb.{RocksDb}
use petracache.Crates.Semaphore.{max_permits, IsSemaphore, Semaphore}
use petracache.Crates.Prometheus.{IsPrometheus, Prometheus}
use petracache.Crates.Memchr.{Memchr}
use petracache.Crates.BytesMut.{BytesMut}
use petracache.Crates.Itoa.{Itoa}

-- The number of threads that a configured number stands for: 0 leaves it to the runtime.
abbrev pub threads_of : ℕ → Option ℕ
threads_of zero = none
threads_of (suc n) = some (suc n)

module _ (r : RocksDb) (s : Semaphore) (laws : IsSemaphore s) (p : Prometheus)
    (known : IsPrometheus p) ⦃m : Memchr⦄ ⦃b : BytesMut⦄ ⦃i : Itoa⦄ where
  -- The configuration was loaded, and the runtime was built with its number of threads.
  abbrev pub IsBuilt : System r → Config → Type 0
  IsBuilt system config =
      (load_config {E = r.Error} {Io = system.reader.IoError} system.reader system.env
          system.argument
        ≡ ok config)
      × (system.build (threads_of config.server.worker_threads) ≡ ok tt)

  -- The configuration was not loaded, or the runtime not built.
  abbrev pub IsMisconfigured : System r → Bytes → Type 0
  IsMisconfigured system message =
      ((e : PetraCacheError r.Error system.reader.IoError) × (load_config system.reader system.env
            system.argument
          ≡ err e)
        × (message ≡ petra_cache_message r.show_error system.reader.show_io e))
      ⊎ ((config : Config) × (load_config {E = r.Error} {Io = system.reader.IoError} system.reader
              system.env system.argument
            ≡ ok config)
          × (system.build (threads_of config.server.worker_threads) ≡ err message))

  -- The storage was not opened.
  abbrev pub IsUnopened : System r → Type 0
  IsUnopened system =
      (config : Config) × IsBuilt system config
      × (e : StorageError r.Error) × (open_storage r system.opener 0 0 config.storage ≡ err e)

  -- The start is as these say.
  abbrev pub Starts : System r → Start r s p → Type 0
  Starts system (serves t) =
      (config : Config) × (storage : RocksStorage r) × IsBuilt system config
      × (open_storage r system.opener 0 0 config.storage ≡ ok storage)
      × Launched r s laws p known system.bind_health config (ok storage) (returned (ok t))
      × (system.bind config.server.listen_addr ≡ ok tt)
  Starts system (exits (ok u)) =
      (config : Config) × (storage : RocksStorage r) × (e : Bytes) × IsBuilt system config
      × (open_storage r system.opener 0 0 config.storage ≡ ok storage)
      × (config.server.max_connections ≤ max_permits)
      × (system.bind config.server.listen_addr ≡ err e)
  Starts system (exits (err message)) = IsMisconfigured system message ⊎ IsUnopened system
  Starts system aborts =
      (config : Config) × (storage : RocksStorage r) × IsBuilt system config
      × (open_storage r system.opener 0 0 config.storage ≡ ok storage)
      × (max_permits < config.server.max_connections)
