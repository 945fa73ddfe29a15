-- ===== src/Program.antt =====
-- src/main.rs: how the program starts and how it shuts down. The log and the runtime are the
-- libraries'; a task is started by what it does.
pub mod Launch
pub mod Started
pub mod Life
use petracache.Base.{
  ==-refl, ==_iff, All, All-append, All-drop, All-take, Bool, Bool-cases, Bytes, IsByte, IsBytes,
  Lacks, List, Option, Option-cases, [], ap, append-nil, append_assoc, arith, bytes_cases, bytes_eq,
  bytes_eq_iff, bytes_eq_refl, bytes_eq→eq, codes, drop, drop-append_length, drop-append_of_le,
  drop-drop, every, false, get_elem?, get_elem?-append_left, get_elem?-append_length, get_elem?-lt,
  get_elem?-none, get_elem?-some, if_cases, if◌then◌else◌, inl, inr, is_empty, leb, length,
  length-append, length-drop, length-take, le→ltb-false, ltb, ltb-false→le, ltb→lt, lt→ltb, min,
  none, not, refl, some, suc, sym, take, take-append-drop, take-append_length, take-append_of_le,
  true, zero, ℕ, ◌%◌, ◌&&◌, ◌*◌, ◌++◌, ◌+◌, ◌-◌, ◌/◌, ◌<◌, ◌==◌, ◌^◌, ◌||◌, ◌↔◌, ◌∙◌, ◌∷◌, ◌≡◌, ◌≢◌,
  ◌≤◌, ◌⊎◌,
}
use petracache.Config.{Config, MetricsConfig, ServerConfig, ConfigReader, from_env, from_file}
use petracache.Error.{StorageError, PetraCacheError, storage_message, petra_cache_message}
use petracache.Health
use petracache.Health.{HealthServer, set_ready, stop}
use petracache.Outcome.{Outcome, returned, panicked, ◌>>=◌}
use petracache.Result.{Result, ok, err}
use petracache.Crates.Memchr.{Memchr}
use petracache.Crates.RocksDb.{RocksDb}
use petracache.Crates.BytesMut.{BytesMut}
use petracache.Crates.Itoa.{Itoa}
use petracache.Crates.Semaphore.{Semaphore}
use petracache.Crates.Prometheus.{Prometheus}
use petracache.Metrics.Registry
use petracache.Metrics.Registry.{Metrics}
use petracache.Storage.Rocks.{RocksStorage}
use petracache.Storage.Rocks.Open.{Opener, open_storage}
use petracache.Server.Listener
use petracache.Server.Listener.{Listener}

-- A file named by the first argument, or else the environment.
unfoldable pub load_config :
    {E Io : Type 0}
    → ConfigReader
    → (Bytes → Option Bytes)
    → Option Bytes
    → Result Config (PetraCacheError E Io)
load_config reader env none = ok (from_env env)
load_config reader env (some path) = from_file reader path

-- The number of threads that the runtime is told to start; none for its own choice.
unfoldable pub worker_threads : ServerConfig → Option ℕ
worker_threads config = if ltb 0 config.worker_threads then some config.worker_threads else none

-- What `main` takes from the system: the first argument and the environment, the reader of files,
-- the database, the builder of the runtime, the bind of the listener's address, the parse of the
-- address included, and the bind of the health server's, with `set_nonblocking`, each with the
-- words of its error.
pub record System (r : RocksDb) : Type 1 where
  pub argument : Option Bytes
  pub env : Bytes → Option Bytes
  pub reader : ConfigReader
  pub opener : Opener r
  pub build : Option ℕ → Result (Unit {0}) Bytes
  pub bind : Bytes → Result (Unit {0}) Bytes
  pub bind_health : Bytes → Result (Unit {0}) Bytes

module _ (r : RocksDb) (s : Semaphore) (p : Prometheus) ⦃m : Memchr⦄ ⦃b : BytesMut⦄ ⦃i : Itoa⦄ where
  -- What runs: the registered metrics, the health server's flags, if it is enabled, what its thread
  -- comes to, and the listener, which has the token.
  pub record Program : Type 0 where
    pub metrics : Metrics p
    pub health : Option HealthServer
    pub health_thread : Option (Result (Unit {0}) Bytes)
    pub listener : Listener r s

  abbrev pub ready : Option HealthServer → Option HealthServer
  ready none = none
  ready (some h) = some (set_ready true h)

  -- The thread that runs the health server, if it is enabled: `ok` where its address is bound, so
  -- that it goes on to its loop, and the error that it logs before it ends where it is not.
  unfoldable pub run_health :
      (Bytes → Result (Unit {0}) Bytes) → MetricsConfig → Option (Result (Unit {0}) Bytes)
  run_health bind_health config =
      if config.enabled then some (bind_health config.listen_addr) else none

  with_storage :
      (Bytes → Result (Unit {0}) Bytes)
      → Config
      → Result (RocksStorage r) (StorageError r.Error)
      → Outcome (Result Program Bytes)
  unfolding run_health
  with_storage bind_health config (err e) =
      returned (err (codes "Failed to open RocksDB: " ++ storage_message r.show_error e))
  with_storage bind_health config (ok storage) = do
    metrics ← Registry.new p
    let health = if config.metrics.enabled then some Health.new else none
    listener ← Listener.new r s config.server storage
    returned (
        ok (record {
          metrics = metrics;
          health = ready health;
          health_thread = run_health bind_health config.metrics;
          listener = listener;
        }))

  -- `async_main` up to the run of the server. The two global counters begin at 0.
  unfoldable pub launch :
      Opener r → (Bytes → Result (Unit {0}) Bytes) → Config → Outcome (Result Program Bytes)
  unfolding with_storage
  launch o bind_health config =
      with_storage bind_health config (open_storage r o 0 0 config.storage)

  abbrev stopped : Option HealthServer → Option HealthServer
  stopped none = none
  stopped (some h) = some (stop h)

  -- The task that a signal wakes: it cancels the token and stops the health server.
  unfoldable pub on_signal : Program → Program
  on_signal t = record t {
    listener = record t.listener { is_cancelled = true };
    health = stopped t.health;
  }

  -- What a start comes to: the accept loop, the return of `main`, or a panic.
  pub data Start : Type 0 where
    serves : Program → Start
    exits : Result (Unit {0}) Bytes → Start
    aborts : Start

  -- `server.run()` up to its loop. An error is logged, and `async_main` returns `Ok`.
  pub bound : Program → Result (Unit {0}) Bytes → Start
  bound t (ok u) = serves t
  bound t (err e) = exits (ok tt)

  -- `async_main` up to the accept loop.
  pub async_main : System r → Config → Start
  unfolding bound
  async_main system config = elim (launch system.opener system.bind_health config) [
    | panicked ↦ aborts
    | returned (err message) ↦ exits (err message)
    | returned (ok t) ↦ bound t (system.bind config.server.listen_addr)
  ]

  unfoldable pub main : System r → Start
  unfolding async_main
  main system =
      elim (load_config {E = r.Error} {Io = system.reader.IoError} system.reader system.env
        system.argument) [
          | err e ↦ exits (err (petra_cache_message r.show_error system.reader.show_io e))
          | ok config ↦ elim (system.build (worker_threads config.server)) [
            | err e ↦ exits (err e)
            | ok u ↦ async_main system config
          ]
        ]

  -- A step of the running program: a signal, or a step of the listener and its connections. The
  -- token is cancelled by the signal's task alone.
  pub data Turn (t : Program) : Program → Type 0 where
    signalled : t.listener.is_cancelled ≡ false → Turn t (on_signal t)
    listens :
        {n : ℕ} {l : Listener r s}
        → Listener.Step r s t.listener n l
        → l.is_cancelled ≡ t.listener.is_cancelled
        → Turn t (record t { listener = l })

  -- What the program comes to.
  pub data Turns (from : Program) : Program → Type 0 where
    begun : Turns from from
    turned : {t t' : Program} → Turns from t → Turn t t' → Turns from t'
