-- ===== src/Storage/Rocks/Open.antt =====
-- src/storage/rocks.rs: the opening of the database, and the figures that the store reports.
use petracache.Base.{
  Bool, Bytes, Option, bytes_eq, codes, false, if◌then◌else◌, none, some, true, ℕ, ◌*◌, ◌++◌,
}
use petracache.Config.{ℤ, StorageConfig, to_lowercase}
use petracache.Error.{StorageError, rocks_db, internal}
use petracache.Result.{Result, ok, err, ◌>>=◌}
use petracache.Crates.RocksDb.{RocksDb}
use petracache.Storage.Rocks.{RocksStorage}

pub data LogLevel : Type 0 where
  debug info warn error fatal header : LogLevel

unfoldable pub parse_log_level : Bytes → LogLevel
parse_log_level level =
    let s = to_lowercase level in
    if bytes_eq s (codes "debug")
    then debug
    else if bytes_eq s (codes "info")
    then info
    else if bytes_eq s (codes "warn")
    then warn
    else if bytes_eq s (codes "fatal")
    then fatal
    else if bytes_eq s (codes "header")
    then header
    else error

pub data CompressionType : Type 0 where
  lz4 uncompressed : CompressionType

pub data CompactionStyle : Type 0 where
  level_style : CompactionStyle

-- The settings of the tables; a filter's bits for a key are whole.
pub record BlockBasedOptions : Type 0 where
  pub lru_cache_size : ℕ
  pub bloom_bits : ℕ
  pub bloom_block_based : Bool
  pub cache_index_and_filter_blocks : Bool
  pub pin_l0_filter_and_index_blocks_in_cache : Bool
  pub block_size : ℕ

-- What the calls of `Options` set. The compaction filter is there or not.
pub record Options : Type 0 where
  pub create_if_missing : Bool
  pub max_background_jobs : ℤ
  pub write_buffer_size : ℕ
  pub max_write_buffer_number : ℤ
  pub target_file_size_base : ℕ
  pub compaction_style : CompactionStyle
  pub log_level : LogLevel
  pub max_log_file_size : ℕ
  pub keep_log_file_num : ℕ
  pub compression_type : CompressionType
  pub block_based_table_factory : BlockBasedOptions
  pub has_ttl_filter : Bool

unfoldable pub options : StorageConfig → Options
options c = record {
  create_if_missing = true;
  max_background_jobs = c.max_background_jobs;
  write_buffer_size = c.write_buffer_size;
  max_write_buffer_number = c.max_write_buffer_number;
  target_file_size_base = c.target_file_size_base;
  compaction_style = level_style;
  log_level = parse_log_level c.rocksdb_log_level;
  max_log_file_size = c.rocksdb_max_log_file_size;
  keep_log_file_num = c.rocksdb_keep_log_file_num;
  compression_type = if c.enable_compression then lz4 else uncompressed;
  block_based_table_factory = record {
    lru_cache_size = c.block_cache_size;
    bloom_bits = 10;
    bloom_block_based = false;
    cache_index_and_filter_blocks = true;
    pin_l0_filter_and_index_blocks_in_cache = true;
    block_size = 16 * 1024;
  };
  has_ttl_filter = c.enable_ttl_compaction;
}

pub record MemoryUsage : Type 0 where
  pub block_cache_usage : ℕ
  pub total : ℕ

pub record TtlStats : Type 0 where
  pub expired_removed : ℕ
  pub compaction_removed : ℕ

module _ (r : RocksDb) where
  -- The file system, `Path::parent`, and the calls that open a database and ask it for a property.
  pub record Opener : Type 1 where
    pub IoError : Type 0
    pub show_io : IoError → Bytes
    pub parent : Bytes → Option Bytes
    pub create_dir_all : Bytes → Result (Unit {0}) IoError
    pub open_db : Options → Bytes → Result r.Db r.Error
    pub property_int_value : r.Db → Bytes → Result (Option ℕ) r.Error

  -- The directory of the database is there.
  make_parent : (o : Opener) → Option Bytes → Result (Unit {0}) (StorageError r.Error)
  make_parent o none = ok tt
  make_parent o (some dir) = elim (o.create_dir_all dir) [
    | ok u ↦ ok tt
    | err e ↦ err (internal (codes "Failed to create directory: " ++ o.show_io e))
  ]

  opened : ℕ → ℕ → Result r.Db r.Error → Result (RocksStorage r) (StorageError r.Error)
  opened expired compacted (err e) = err (rocks_db e)
  opened expired compacted (ok db) =
      ok (record { db = db; expired_keys_removed = expired; ttl_compaction_removed = compacted })

  -- The two global counters stand as they are.
  unfoldable pub open_storage :
      Opener → ℕ → ℕ → StorageConfig → Result (RocksStorage r) (StorageError r.Error)
  unfolding make_parent opened
  open_storage o expired compacted c = make_parent o (o.parent c.db_path) >>= λ u.
      opened expired compacted (o.open_db (options c) c.db_path)

  usage_of : Result (Option ℕ) r.Error → ℕ
  usage_of (ok (some n)) = n
  usage_of _ = 0

  unfoldable pub memory_usage : Opener → RocksStorage r → MemoryUsage
  unfolding usage_of
  memory_usage o s =
      let block_cache_usage =
        usage_of (o.property_int_value s.db (codes "rocksdb.block-cache-usage")) in
      record { block_cache_usage = block_cache_usage; total = block_cache_usage }

  unfoldable pub ttl_stats : RocksStorage r → TtlStats
  ttl_stats s = record {
    expired_removed = s.expired_keys_removed;
    compaction_removed = s.ttl_compaction_removed;
  }
