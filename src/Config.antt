-- ===== src/Config.antt =====
-- src/config.rs: the configuration, its defaults, and how it is read from the environment or a file.
-- A string and a path are their bytes; an `i32` is a whole number.
use petracache.Base.{
  Bool, Bytes, Option, [], bytes_eq, codes, false, none, some, true, ℕ, ◌*◌, ◌++◌, ◌||◌, ◌∷◌,
}
use petracache.Error.{PetraCacheError, config}
use petracache.Result.{Result, ok, err, ◌>>=◌}
use petracache.Rust.Integer.{max_u64, parse_uint}
use petracache.Rust.Split.{to_ascii_lowercase}

pub data ℤ : Type 0 where
  pos negsuc : ℕ → ℤ

pub record ServerConfig : Type 0 where
  pub listen_addr : Bytes
  pub max_connections : ℕ
  pub read_buffer_size : ℕ
  pub write_buffer_size : ℕ
  pub worker_threads : ℕ
  pub connection_timeout_secs : ℕ

unfoldable pub default_server : ServerConfig
default_server = record {
  listen_addr = codes "127.0.0.1:11211";
  max_connections = 10000;
  read_buffer_size = 8192;
  write_buffer_size = 8192;
  worker_threads = 0;
  connection_timeout_secs = 0;
}

pub record StorageConfig : Type 0 where
  pub db_path : Bytes
  pub block_cache_size : ℕ
  pub write_buffer_size : ℕ
  pub max_write_buffer_number : ℤ
  pub target_file_size_base : ℕ
  pub max_background_jobs : ℤ
  pub enable_compression : Bool
  pub enable_ttl_compaction : Bool
  pub rocksdb_log_level : Bytes
  pub rocksdb_max_log_file_size : ℕ
  pub rocksdb_keep_log_file_num : ℕ

unfoldable pub default_storage : StorageConfig
default_storage = record {
  db_path = codes "./data/rocksdb";
  block_cache_size = 1024 * 1024 * 1024;
  write_buffer_size = 64 * 1024 * 1024;
  max_write_buffer_number = pos 3;
  target_file_size_base = 64 * 1024 * 1024;
  max_background_jobs = pos 4;
  enable_compression = false;
  enable_ttl_compaction = true;
  rocksdb_log_level = codes "error";
  rocksdb_max_log_file_size = 10 * 1024 * 1024;
  rocksdb_keep_log_file_num = 5;
}

pub record MetricsConfig : Type 0 where
  pub enabled : Bool
  pub listen_addr : Bytes

unfoldable pub default_metrics : MetricsConfig
default_metrics = record { enabled = true; listen_addr = codes "127.0.0.1:9090" }

pub record Config : Type 0 where
  pub server : ServerConfig
  pub storage : StorageConfig
  pub metrics : MetricsConfig

-- The derived `Default`.
unfoldable pub default_config : Config
default_config = record {
  server = default_server;
  storage = default_storage;
  metrics = default_metrics;
}

-- `to_lowercase`, as far as a comparison with small ASCII letters other than k sees it: no other
-- character outside of ASCII has such letters alone for its small form.
unfoldable pub to_lowercase : Bytes → Bytes
to_lowercase [] = []
to_lowercase (c ∷ s) = to_ascii_lowercase c ∷ to_lowercase s

unfoldable pub is_enabled : Bytes → Bool
unfolding to_lowercase
is_enabled enabled = bytes_eq (to_lowercase enabled) (codes "true") || bytes_eq enabled (codes "1")

-- What one variable does, where it is set to a text.
set_listen_addr : Option Bytes → Config → Config
set_listen_addr none c = c
set_listen_addr (some addr) c = record c { server = record c.server { listen_addr = addr } }

set_parsed_connections : Option ℕ → Config → Config
set_parsed_connections none c = c
set_parsed_connections (some n) c = record c { server = record c.server { max_connections = n } }

set_max_connections : Option Bytes → Config → Config
unfolding set_parsed_connections
set_max_connections none c = c
set_max_connections (some max_conn) c = set_parsed_connections (parse_uint max_u64 max_conn) c

set_db_path : Option Bytes → Config → Config
set_db_path none c = c
set_db_path (some path) c = record c { storage = record c.storage { db_path = path } }

set_metrics_addr : Option Bytes → Config → Config
set_metrics_addr none c = c
set_metrics_addr (some addr) c = record c { metrics = record c.metrics { listen_addr = addr } }

set_metrics_enabled : Option Bytes → Config → Config
unfolding is_enabled
set_metrics_enabled none c = c
set_metrics_enabled (some enabled) c = record c {
  metrics = record c.metrics { enabled = is_enabled enabled };
}

-- `env` is `std::env::var`: none for a variable that is not set or not Unicode.
unfoldable pub from_env : (Bytes → Option Bytes) → Config
unfolding set_listen_addr set_max_connections set_db_path set_metrics_addr set_metrics_enabled
from_env env = set_metrics_enabled (env (codes "PETRACACHE_METRICS_ENABLED")) (
    set_metrics_addr (env (codes "PETRACACHE_METRICS_ADDR")) (
      set_db_path (env (codes "PETRACACHE_DB_PATH")) (
        set_max_connections (env (codes "PETRACACHE_MAX_CONNECTIONS"))
          (set_listen_addr (env (codes "PETRACACHE_LISTEN_ADDR")) default_config))))

-- The file system's read and the crate toml, with the words of their errors.
pub record ConfigReader : Type 1 where
  pub IoError : Type 0
  pub TomlError : Type 0
  pub read_to_string : Bytes → Result Bytes IoError
  pub from_str : Bytes → Result Config TomlError
  pub show_io : IoError → Bytes
  pub show_toml : TomlError → Bytes

abbrev map_err {ℓ} : {A : Type ℓ} {E F : Type 0} → (E → F) → Result A E → Result A F
map_err f (ok a) = ok a
map_err f (err e) = err (f e)

unfoldable pub from_file :
    {E Io : Type 0} → ConfigReader → Bytes → Result Config (PetraCacheError E Io)
from_file reader path =
    map_err (λ e. config (codes "Failed to read config file: " ++ reader.show_io e))
      (reader.read_to_string path)
    >>= λ contents.
        map_err (λ e. config (codes "Failed to parse config: " ++ reader.show_toml e))
          (reader.from_str contents)
