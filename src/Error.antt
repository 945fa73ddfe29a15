-- ===== src/Error.antt =====
-- src/error.rs: the errors and their messages. A message is its bytes.
use petracache.Base.{◌++◌, Bytes, codes}

pub data ProtocolError : Type 0 where
  invalid_command invalid_key invalid_value : Bytes → ProtocolError
  invalid_flags invalid_exptime invalid_bytes_length invalid_numeric_value : ProtocolError
  key_too_long value_too_large unexpected_data incomplete_command : ProtocolError

-- The database's own error is a parameter.
pub data StorageError (E : Type 0) : Type 0 where
  rocks_db : E → StorageError E
  internal encoding decoding : Bytes → StorageError E
  not_found already_exists not_numeric numeric_overflow numeric_underflow : StorageError E

-- `to_string` of a `ProtocolError`.
unfoldable pub protocol_message : ProtocolError → Bytes
protocol_message (invalid_command s) = codes "Invalid command: " ++ s
protocol_message (invalid_key s) = codes "Invalid key: " ++ s
protocol_message (invalid_value s) = codes "Invalid value: " ++ s
protocol_message invalid_flags = codes "Invalid flags"
protocol_message invalid_exptime = codes "Invalid exptime"
protocol_message invalid_bytes_length = codes "Invalid bytes length"
protocol_message invalid_numeric_value = codes "Invalid numeric value"
protocol_message key_too_long = codes "Key too long (max 250 bytes)"
protocol_message value_too_large = codes "Value too large"
protocol_message unexpected_data = codes "Unexpected data"
protocol_message incomplete_command = codes "Incomplete command"

-- `to_string` of a `StorageError`, over the message of the database's error.
unfoldable pub storage_message : {E : Type 0} → (E → Bytes) → StorageError E → Bytes
storage_message show (rocks_db e) = codes "RocksDB error: " ++ show e
storage_message show (internal s) = codes "Internal error: " ++ s
storage_message show (encoding s) = codes "Value encoding error: " ++ s
storage_message show (decoding s) = codes "Value decoding error: " ++ s
storage_message show not_found = codes "Key not found"
storage_message show already_exists = codes "Key already exists"
storage_message show not_numeric = codes "Not a numeric value"
storage_message show numeric_overflow = codes "Numeric overflow"
storage_message show numeric_underflow = codes "Numeric underflow"

-- The error of the standard library's I/O is a parameter too.
pub data PetraCacheError (E Io : Type 0) : Type 0 where
  protocol : ProtocolError → PetraCacheError E Io
  storage : StorageError E → PetraCacheError E Io
  io : Io → PetraCacheError E Io
  config : Bytes → PetraCacheError E Io

-- `to_string` of a `PetraCacheError`.
unfoldable pub petra_cache_message :
    {E Io : Type 0} → (E → Bytes) → (Io → Bytes) → PetraCacheError E Io → Bytes
petra_cache_message show show_io (protocol e) = codes "Protocol error: " ++ protocol_message e
petra_cache_message show show_io (storage e) = codes "Storage error: " ++ storage_message show e
petra_cache_message show show_io (io e) = codes "IO error: " ++ show_io e
petra_cache_message show show_io (config s) = codes "Configuration error: " ++ s
