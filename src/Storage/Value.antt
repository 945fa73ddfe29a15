-- ===== src/Storage/Value.antt =====
-- src/storage/value.rs: stored values, their bytes and their expiry. A reading of the clock is an
-- argument. The proofs are in the modules below.
pub mod Codec
pub mod Expiry
pub mod Numeric
use petracache.Base.{
  ==-refl, ==_iff, All, All-append, Bool, Bool-cases, Bytes, IsByte, IsBytes, Lacks, List, Option,
  Option-cases, [], ap, append-nil, append_assoc, arith, bytes_eq, bytes_eq_refl, bytes_eq→eq,
  codes, drop, drop-append_length, drop-append_of_le, every, false, get_elem?,
  get_elem?-append_left, get_elem?-append_length, get_elem?-lt, get_elem?-none, get_elem?-some,
  if◌then◌else◌, inl, inr, is_empty, leb, length, length-append, length-drop, length-take,
  le→ltb-false, ltb, ltb-false→le, ltb→lt, lt→ltb, min, none, not, refl, some, suc, sym, take,
  take-append-drop, take-append_length, take-append_of_le, true, zero, ℕ, ◌%◌, ◌&&◌, ◌*◌, ◌++◌, ◌+◌,
  ◌-◌, ◌/◌, ◌<◌, ◌==◌, ◌^◌, ◌||◌, ◌↔◌, ◌∙◌, ◌∷◌, ◌≡◌, ◌≢◌, ◌≤◌, ◌⊎◌,
}
use petracache.Error.{StorageError, decoding, not_numeric}
use petracache.Result.{Result, ok, err, ok_or, and_then}
use petracache.Rust.Utf8.{from_utf8}
use petracache.Rust.Trim.{trim}
use petracache.Rust.Integer.{max_u64, parse_uint, to_string, to_le_bytes, from_le_bytes}

-- 30 days in seconds
abbrev pub max_relative_ttl : ℕ
max_relative_ttl = 2592000

pub record StoredValue : Type 0 where
  pub expire_at : ℕ
  pub flags : ℕ
  pub payload : Bytes

-- `SystemTime::now()` against the epoch: `none` is a clock set before it.
abbrev pub Reading : Type 0
Reading = Option ℕ

-- `current_timestamp`
abbrev pub current_timestamp : Reading → ℕ
current_timestamp none = 0
current_timestamp (some secs) = secs

saturating_add : ℕ → ℕ → ℕ
saturating_add a b = min (a + b) max_u64

unfoldable pub calculate_expire_at : Reading → ℕ → ℕ
unfolding saturating_add
calculate_expire_at now exptime =
    if exptime == 0
    then 0
    else if leb exptime max_relative_ttl
    then saturating_add (current_timestamp now) exptime
    else exptime

-- `StoredValue::new`
unfoldable pub new_value : Reading → ℕ → ℕ → Bytes → StoredValue
new_value now flags exptime payload = record {
  expire_at = calculate_expire_at now exptime;
  flags = flags;
  payload = payload;
}

-- `StoredValue::with_expire_at`
abbrev pub with_expire_at : ℕ → ℕ → Bytes → StoredValue
with_expire_at flags expire_at payload = record {
  expire_at = expire_at;
  flags = flags;
  payload = payload;
}

unfoldable pub encode : StoredValue → Bytes
encode v = to_le_bytes 8 v.expire_at ++ to_le_bytes 4 v.flags ++ v.payload

-- The two `try_into` of slices of fixed lengths cannot fail.
unfoldable pub decode : {E : Type 0} → Bytes → Result StoredValue (StorageError E)
decode bytes =
    if ltb (length bytes) 12
    then err (decoding (codes "Value too short to decode"))
    else ok (record {
      expire_at = from_le_bytes (take 8 bytes);
      flags = from_le_bytes (take 4 (drop 8 bytes));
      payload = drop 12 bytes;
    })

unfoldable pub is_expired : Reading → StoredValue → Bool
is_expired now v = if v.expire_at == 0 then false else leb v.expire_at (current_timestamp now)

unfoldable pub touch : Reading → ℕ → StoredValue → StoredValue
touch now exptime v = record v { expire_at = calculate_expire_at now exptime }

unfoldable pub as_u64 : {E : Type 0} → StoredValue → Result ℕ (StorageError E)
as_u64 v = ok_or not_numeric (and_then (from_utf8 v.payload) (λ s. parse_uint max_u64 (trim s)))

unfoldable pub set_numeric : ℕ → StoredValue → StoredValue
set_numeric n v = record v { payload = to_string n }
