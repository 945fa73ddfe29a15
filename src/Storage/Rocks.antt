-- ===== src/Storage/Rocks.antt =====
-- src/storage/rocks.rs: the store over the database. The two global counters are `AtomicU64`s. The
-- database is a parameter, and so is each reading of the clock. The proofs are in the modules below.
pub mod View
pub mod Ttl
pub mod Compaction
pub mod Removal
pub mod Open
pub mod Threads
use petracache.Base.{
  Bool, Bytes, List, Option, [], false, if◌then◌else◌, is_empty, leb, length, none, not, some, suc,
  take, true, ℕ, ◌%◌, ◌&&◌, ◌+◌, ◌==◌, ◌^◌, ◌∷◌,
}
use petracache.Error.{StorageError, rocks_db}
use petracache.Result.{Result, ok, err}
use petracache.Rust.Integer.{from_le_bytes}
use petracache.Crates.RocksDb.{RocksDb}
use petracache.Storage.Value.{StoredValue, Reading, current_timestamp, encode, decode, is_expired}

-- `fetch_add` of an `AtomicU64`.
abbrev pub fetch_add : ℕ → ℕ → ℕ
fetch_add counter n = (counter + n) % 2 ^ 64

pub data CompactionDecision : Type 0 where
  keep remove : CompactionDecision

-- The decision, and the count of removed entries behind it.
unfoldable pub ttl_compaction_filter : Reading → Bytes → ℕ → CompactionDecision × ℕ
ttl_compaction_filter now value removed =
    if leb 8 (length value)
    then (let expire_at = from_le_bytes (take 8 value) in
        if not (expire_at == 0) && leb expire_at (current_timestamp now)
        then (remove, fetch_add removed 1)
        else (keep, removed))
    else (keep, removed)

module _ (r : RocksDb) where
  pub record RocksStorage : Type 0 where
    pub db : r.Db
    pub expired_keys_removed : ℕ
    pub ttl_compaction_removed : ℕ

  -- What `get` does with the value read.
  unfoldable pub get_decoded :
      Reading
      → Bytes
      → RocksStorage
      → Result StoredValue (StorageError r.Error)
      → Result (Option StoredValue) (StorageError r.Error) × RocksStorage
  get_decoded now key s (err e) = (err e, s)
  get_decoded now key s (ok value) =
      if is_expired now value
      then (
        ok none,
        record s {
          db = (r.delete_opt s.db key).1;
          expired_keys_removed = fetch_add s.expired_keys_removed 1;
        },
      )
      else (ok (some value), s)

  unfoldable pub get_raw :
      Reading
      → Bytes
      → RocksStorage
      → Result (Option Bytes) r.Error
      → Result (Option StoredValue) (StorageError r.Error) × RocksStorage
  unfolding get_decoded
  get_raw now key s (err e) = (err (rocks_db e), s)
  get_raw now key s (ok none) = (ok none, s)
  get_raw now key s (ok (some bytes)) = get_decoded now key s (decode bytes)

  unfoldable pub get :
      Reading
      → RocksStorage
      → Bytes
      → Result (Option StoredValue) (StorageError r.Error) × RocksStorage
  unfolding get_raw
  get now s key = get_raw now key s (r.get s.db key)

  unfoldable pub set :
      RocksStorage → Bytes → StoredValue → Result (Unit {0}) (StorageError r.Error) × RocksStorage
  set s key value =
      let (outcome, db') = r.put_opt s.db key (encode value) in
      (elim outcome [ ok u ↦ ok tt | err e ↦ err (rocks_db e) ], record s { db = db' })

  unfoldable pub delete_found :
      RocksStorage → Bytes → Bool → Result Bool (StorageError r.Error) × RocksStorage
  delete_found s key existed =
      let (outcome, db') = r.delete_opt s.db key in
      (elim outcome [ ok u ↦ ok existed | err e ↦ err (rocks_db e) ], record s { db = db' })

  unfoldable pub delete_raw :
      RocksStorage
      → Bytes
      → Result (Option Bytes) r.Error
      → Result Bool (StorageError r.Error) × RocksStorage
  unfolding delete_found
  delete_raw s key (err e) = (err (rocks_db e), s)
  delete_raw s key (ok none) = delete_found s key false
  delete_raw s key (ok (some bytes)) = delete_found s key true

  unfoldable pub delete : RocksStorage → Bytes → Result Bool (StorageError r.Error) × RocksStorage
  unfolding delete_raw
  delete s key = delete_raw s key (r.get s.db key)

  -- The results and the expired keys, or the first error. The clock is read at each value anew:
  -- `clock i` is the reading at place `i`.
  abbrev pub Scanned : Type 0
  Scanned = Result (List (Bytes × Option StoredValue) × List Bytes) (StorageError r.Error)

  abbrev add_result : Bytes → Option StoredValue → Scanned → Scanned
  add_result key v (ok (results, expired)) = ok ((key, v) ∷ results, expired)
  add_result key v (err e) = err e

  abbrev add_expired : Bytes → Scanned → Scanned
  add_expired key (ok (results, expired)) = ok ((key, none) ∷ results, key ∷ expired)
  add_expired key (err e) = err e

  -- One round of the loop, over what the rounds behind it give.
  unfoldable pub scan_decoded :
      Reading → Bytes → Result StoredValue (StorageError r.Error) → Scanned → Scanned
  scan_decoded now key (err e) later = err e
  scan_decoded now key (ok value) later =
      if is_expired now value then add_expired key later else add_result key (some value) later

  unfoldable pub scan_raw : Reading → Bytes → Result (Option Bytes) r.Error → Scanned → Scanned
  unfolding scan_decoded
  scan_raw now key (err e) later = err (rocks_db e)
  scan_raw now key (ok none) later = add_result key none later
  scan_raw now key (ok (some bytes)) later = scan_decoded now key (decode bytes) later

  -- The loop over `keys.iter().zip(raw_results)`.
  unfoldable pub scan_results :
      (ℕ → Reading) → ℕ → List Bytes → List (Result (Option Bytes) r.Error) → Scanned
  unfolding scan_raw
  scan_results clock i [] raws = ok ([], [])
  scan_results clock i (key ∷ keys) [] = ok ([], [])
  scan_results clock i (key ∷ keys) (raw ∷ raws) =
      scan_raw (clock i) key raw (scan_results clock (suc i) keys raws)

  -- `let _ = self.db.delete_opt(..)` for each key.
  unfoldable pub delete_all : r.Db → List Bytes → r.Db
  delete_all d [] = d
  delete_all d (key ∷ keys) = delete_all (r.delete_opt d key).1 keys

  unfoldable pub finish_multi :
      RocksStorage
      → Scanned
      → Result (List (Bytes × Option StoredValue)) (StorageError r.Error) × RocksStorage
  unfolding delete_all
  finish_multi s (err e) = (err e, s)
  finish_multi s (ok (results, expired)) = (
    ok results,
    if is_empty expired then s else record s {
      db = delete_all s.db expired;
      expired_keys_removed = fetch_add s.expired_keys_removed (length expired);
    },
  )

  unfoldable pub get_multi :
      (ℕ → Reading)
      → RocksStorage
      → List Bytes
      → Result (List (Bytes × Option StoredValue)) (StorageError r.Error) × RocksStorage
  unfolding finish_multi scan_results
  get_multi clock s keys = finish_multi s (scan_results clock 0 keys (r.multi_get s.db keys))

  -- What becomes of an entry by the filter's decision.
  decided : RocksStorage → Bytes → CompactionDecision × ℕ → RocksStorage
  decided s key (keep, removed) = record s { ttl_compaction_removed = removed }
  decided s key (remove, removed) = record s {
    db = r.drop_entry s.db key;
    ttl_compaction_removed = removed;
  }

  compact_raw : Reading → RocksStorage → Bytes → Result (Option Bytes) r.Error → RocksStorage
  unfolding decided
  compact_raw now s key (err e) = s
  compact_raw now s key (ok none) = s
  compact_raw now s key (ok (some value)) =
      decided s key (ttl_compaction_filter now value s.ttl_compaction_removed)

  -- The database compacts the entry of a key, with the filter that it was opened with. A version of
  -- the entry that a later write hides is seen by no read, so this is the version that reads see.
  unfoldable pub compact_entry : Reading → RocksStorage → Bytes → RocksStorage
  unfolding compact_raw
  compact_entry now s key = compact_raw now s key (r.get s.db key)

  compact_entries : (ℕ → Reading) → ℕ → RocksStorage → List Bytes → RocksStorage
  unfolding compact_entry
  compact_entries clock i s [] = s
  compact_entries clock i s (key ∷ keys) =
      compact_entries clock (suc i) (compact_entry (clock i) s key) keys

  -- The compaction of the whole database, which was opened with the filter or without.
  unfoldable pub compact : Bool → (ℕ → Reading) → RocksStorage → RocksStorage
  unfolding compact_entries
  compact has_ttl_filter clock s =
      if has_ttl_filter then compact_entries clock 0 s (r.compact_range s.db) else s
