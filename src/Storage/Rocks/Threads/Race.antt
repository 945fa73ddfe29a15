-- ===== src/Storage/Rocks/Threads/Race.antt =====
-- A write between a read that sees an expired entry and the removal of that entry.
use petracache.Base.{Bytes, [], ap, none, refl, some, true, ℕ, ◌∙◌, ◌∷◌, ◌≡◌}
use petracache.Error.{StorageError}
use petracache.Result.{Result, ok}
use petracache.Crates.RocksDb.{RocksDb, IsMap}
use petracache.Storage.Value.{StoredValue, Reading, encode, is_expired}
use petracache.Storage.Value.Codec.{IsStored, decode-encode}
use petracache.Storage.Rocks.{delete_found, RocksStorage, get, set}
use petracache.Storage.Rocks.View.{view, view_raw, get-eq-view}
use petracache.Storage.Rocks.Threads.{
  deletes_found, deletes, answered, was_deleted, after_found, Answer, Task, gets, removes, got,
  step, after_get, after_decode, counted, Succeeds,
}

module _ (r : RocksDb) (laws : IsMap r) (key : Bytes) (v : StoredValue) (now : Reading)
    (s : RocksStorage r) where
  -- The read's first step.
  abbrev pub seen : Task r × RocksStorage r
  seen = step r (λ i. now) (gets key) s

  -- The write that comes between.
  abbrev pub overwritten : Result (Unit {0}) (StorageError r.Error) × RocksStorage r
  overwritten = set r seen.1 key v

  seen_late :
      (old : StoredValue)
      → IsStored old
      → r.get s.db key ≡ ok (some (encode old))
      → is_expired now old ≡ true
      → seen ≡ (removes (key ∷ []) (got (ok none)), counted r 1 s)
  unfolding step after_get after_decode
  seen_late old stored read late = rw (read, decode-encode {E = r.Error} old stored, late) refl

  get-step_removes :
      (clock : ℕ → Reading) (later : Reading) (t : Task r) (a : Answer r) (s' : RocksStorage r)
      → t ≡ removes (key ∷ []) a
      → Succeeds r t s'
      → (get r later (step r clock t s').1 key).0 ≡ ok none
  unfolding step view view_raw
  get-step_removes clock later t a s' e done = rw e (
      get-eq-view r later (record s' { db = (r.delete_opt s'.db key).1 }) key
      ∙ ap (view_raw r later) (laws.get-delete_self s'.db key (rw e at done)))

  -- Over a database that behaves as a map, where a get has read an entry that has expired, a set
  -- of the key that comes before its removal and succeeds is undone by that removal, if it
  -- succeeds: a get at any time then finds the key absent.
  pub get-step_lost :
      (old : StoredValue) (clock : ℕ → Reading) (later : Reading)
      → IsStored old
      → r.get s.db key ≡ ok (some (encode old))
      → is_expired now old ≡ true
      → overwritten.0 ≡ ok tt
      → Succeeds r seen.0 overwritten.1
      → (get r later (step r clock seen.0 overwritten.1).1 key).0 ≡ ok none
  get-step_lost old clock later stored read late done removed =
      get-step_removes clock later seen.0 (got (ok none)) overwritten.1
        (ap (λ o. o.0) (seen_late old stored read late)) removed

module _ (r : RocksDb) (laws : IsMap r) (clock : ℕ → Reading) (key : Bytes)
    (s : RocksStorage r) where
  -- Two deletes of the key, one read after the other; a read changes nothing.
  abbrev pub first_read : Task r × RocksStorage r
  first_read = step r clock (deletes key) s

  abbrev pub second_read : Task r × RocksStorage r
  second_read = step r clock (deletes key) first_read.1

  -- The removal of the one whose read came first, and then that of the other.
  abbrev pub first_removed : Task r × RocksStorage r
  first_removed = step r clock first_read.0 second_read.1

  abbrev pub second_removed : Task r × RocksStorage r
  second_removed = step r clock second_read.0 first_removed.1

  seen_there :
      (bytes : Bytes)
      → r.get s.db key ≡ ok (some bytes)
      → step r clock (deletes key) s ≡ (deletes_found key true, s)
  unfolding step after_found
  seen_there bytes there = rw there refl

  second_seen :
      (bytes : Bytes) → r.get s.db key ≡ ok (some bytes) → second_read ≡ (deletes_found key true, s)
  second_seen bytes there =
      ap (λ o. step r clock (deletes key) o.1) (seen_there bytes there) ∙ seen_there bytes there

  -- A delete behind a read that found the entry answers that it was there, and it is there no more.
  removed_true :
      (s' : RocksStorage r) (t : Task r)
      → t ≡ deletes_found key true
      → Succeeds r t s'
      → ((step r clock t s').0 ≡ answered (was_deleted (ok true)))
        × (r.get (step r clock t s').1.db key ≡ ok none)
  unfolding step delete_found
  removed_true s' t e done =
      rw e ((rw (rw e at done) refl), laws.get-delete_self s'.db key (rw e at done))

  -- Where two deletes of a key both read its entry before either removes it, over a database that
  -- behaves as a map and in which their removals succeed, both answer that they have deleted the
  -- entry, although it is there no more once the first of them has removed it.
  pub delete-step_twice :
      (bytes : Bytes)
      → r.get s.db key ≡ ok (some bytes)
      → Succeeds r first_read.0 second_read.1
      → Succeeds r second_read.0 first_removed.1
      → (first_removed.0 ≡ answered (was_deleted (ok true)))
        × (r.get first_removed.1.db key ≡ ok none)
        × (second_removed.0 ≡ answered (was_deleted (ok true)))
  delete-step_twice bytes there first second =
      let (told, gone) =
        removed_true second_read.1 first_read.0 (ap (λ o. o.0) (seen_there bytes there)) first in
      (
        told,
        gone,
        (removed_true first_removed.1 second_read.0 (ap (λ o. o.0) (second_seen bytes there))
            second).0,
      )
