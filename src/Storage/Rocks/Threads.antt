-- ===== src/Storage/Rocks/Threads.antt =====
-- src/storage/rocks.rs: the calls of the store by several threads at once. A call is a sequence of
-- steps, each with one access of the database; the steps of the calls interleave.
pub mod Interleaving
pub mod Race
use petracache.Base.{
  Bool, Bytes, List, Option, [], false, if◌then◌else◌, is_empty, length, none, some, suc, true,
  zero, ℕ, ◌++◌, ◌∷◌, ◌≡◌,
}
use petracache.Error.{StorageError, rocks_db}
use petracache.Result.{Result, ok, err}
use petracache.Crates.RocksDb.{RocksDb}
use petracache.Storage.Value.{StoredValue, Reading, decode, is_expired}
use petracache.Storage.Rocks.{RocksStorage, set, delete_found, fetch_add, scan_results, Scanned}

module _ (r : RocksDb) where
  pub data Answer : Type 0 where
    got : Result (Option StoredValue) (StorageError r.Error) → Answer
    got_all : Result (List (Bytes × Option StoredValue)) (StorageError r.Error) → Answer
    was_set : Result (Unit {0}) (StorageError r.Error) → Answer
    was_deleted : Result Bool (StorageError r.Error) → Answer

  -- Where a call stands: before its first access; with these expired keys still to delete; with a
  -- delete whose read has been made; or behind its end.
  pub data Task : Type 0 where
    gets : Bytes → Task
    gets_all : List Bytes → Task
    sets : Bytes → StoredValue → Task
    deletes : Bytes → Task
    removes : List Bytes → Answer → Task
    deletes_found : Bytes → Bool → Task
    answered : Answer → Task

  counted : ℕ → RocksStorage r → RocksStorage r
  counted n s = record s { expired_keys_removed = fetch_add s.expired_keys_removed n }

  -- `get` behind its read.
  after_decode :
      Reading
      → Bytes
      → RocksStorage r
      → Result StoredValue (StorageError r.Error)
      → Task × RocksStorage r
  unfolding counted
  after_decode now key s (err e) = (answered (got (err e)), s)
  after_decode now key s (ok value) =
      if is_expired now value
      then (removes (key ∷ []) (got (ok none)), counted 1 s)
      else (answered (got (ok (some value))), s)

  after_get :
      Reading → Bytes → RocksStorage r → Result (Option Bytes) r.Error → Task × RocksStorage r
  unfolding after_decode
  after_get now key s (err e) = (answered (got (err (rocks_db e))), s)
  after_get now key s (ok none) = (answered (got (ok none)), s)
  after_get now key s (ok (some bytes)) = after_decode now key s (decode bytes)

  -- `get_multi` behind its loop.
  after_scan : RocksStorage r → Scanned r → Task × RocksStorage r
  unfolding counted
  after_scan s (err e) = (answered (got_all (err e)), s)
  after_scan s (ok (results, expired)) = (
    removes expired (got_all (ok results)),
    if is_empty expired then s else counted (length expired) s,
  )

  -- `delete` behind its read.
  after_found : Bytes → RocksStorage r → Result (Option Bytes) r.Error → Task × RocksStorage r
  after_found key s (err e) = (answered (was_deleted (err (rocks_db e))), s)
  after_found key s (ok none) = (deletes_found key false, s)
  after_found key s (ok (some bytes)) = (deletes_found key true, s)

  unfoldable pub step : (ℕ → Reading) → Task → RocksStorage r → Task × RocksStorage r
  unfolding after_get after_scan after_found delete_found
  step clock (gets key) s = after_get (clock 0) key s (r.get s.db key)
  step clock (gets_all keys) s = after_scan s (scan_results r clock 0 keys (r.multi_get s.db keys))
  step clock (sets key value) s =
      let (outcome, s') = set r s key value in (answered (was_set outcome), s')
  step clock (deletes key) s = after_found key s (r.get s.db key)
  step clock (removes [] a) s = (answered a, s)
  step clock (removes (key ∷ keys) a) s =
      (removes keys a, record s { db = (r.delete_opt s.db key).1 })
  step clock (deletes_found key existed) s =
      let (outcome, s') = delete_found r s key existed in (answered (was_deleted outcome), s')
  step clock (answered a) s = (answered a, s)

  -- The store and the calls under way, the latest first.
  pub record Threads : Type 0 where
    pub storage : RocksStorage r
    pub tasks : List Task

  -- The write of the step succeeds, if it has one.
  abbrev pub Succeeds : Task → RocksStorage r → Type 0
  Succeeds (sets key value) s = (set r s key value).0 ≡ ok tt
  Succeeds (removes (key ∷ keys) a) s = (r.delete_opt s.db key).0 ≡ ok tt
  Succeeds (deletes_found key existed) s = (r.delete_opt s.db key).0 ≡ ok tt
  Succeeds _ s = Unit

  -- A call begins, or one that is under way makes a step, at some reading of the clock.
  pub data Step (calls : Task → Type 0) (times : Reading → Type 0) (s : Threads)
      : Threads → Type 0 where
    begins : (t : Task) → calls t → Step calls times s (record s { tasks = t ∷ s.tasks })
    goes_on :
        (clock : ℕ → Reading) (before after : List Task) (t : Task)
        → ((i : ℕ) → times (clock i))
        → s.tasks ≡ before ++ t ∷ after
        → Succeeds t s.storage
        → Step calls times s (record s {
          storage = (step clock t s.storage).1;
          tasks = before ++ (step clock t s.storage).0 ∷ after;
        })

  pub data Reach (calls : Task → Type 0) (times : Reading → Type 0) (from : Threads)
      : Threads → Type 0 where
    here : Reach calls times from from
    next :
        {s s' : Threads}
        → Reach calls times from s
        → Step calls times s s'
        → Reach calls times from s'
