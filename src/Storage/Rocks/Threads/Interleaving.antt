-- ===== src/Storage/Rocks/Threads/Interleaving.antt =====
-- Calls of the store that interleave.
use petracache.Base.{
  All-split_at, All-append, All, Bool-cases, Bytes, List, Option, [], ap, false, inl, inr, none,
  refl, some, suc, true, ℕ, ◌∙◌, ◌∷◌, ◌≡◌, ◌≢◌,
}
use mathlib.Core.List.{map}
use mathlib.Core.Path.{subst}
use petracache.Storage.Rocks.View.{get-eq-view}
use petracache.Storage.Rocks.Threads.{
  here, next, Reach, goes_on, begins, Step, Threads, Task, gets, gets_all, sets, deletes, removes,
  deletes_found, answered, step, after_get, after_scan, after_decode, after_found, counted,
  Succeeds,
}
use petracache.Error.{StorageError}
use petracache.Result.{Result, ok, err}
use petracache.Crates.RocksDb.{RocksDb, IsMap}
use petracache.Storage.Value.{StoredValue, Reading, encode, decode, is_expired}
use petracache.Storage.Value.Codec.{IsStored, decode-encode}
use petracache.Storage.Rocks.{
  RocksStorage, get, set, delete_found, scan_results, scan_raw, scan_decoded, Scanned,
}
use petracache.Storage.Rocks.Ttl.{view_of_bytes, put_succeeded, set-db}

module _ {r : RocksDb} where
  -- The call has no write of the key to make but by an expiry that it has yet to see.
  abbrev pub Spares : Bytes → Task r → Type 0
  Spares key (gets k) = Unit
  Spares key (gets_all ks) = Unit
  Spares key (sets k value) = k ≢ key
  Spares key (deletes k) = k ≢ key
  Spares key (removes ks a) = All (λ k. k ≢ key) ks
  Spares key (deletes_found k existed) = k ≢ key
  Spares key (answered a) = Unit

module _ (r : RocksDb) (laws : IsMap r) (key : Bytes) (v : StoredValue) (stored : IsStored v) where
  -- The database has the value.
  abbrev Has : RocksStorage r → Type 0
  Has s = r.get s.db key ≡ ok (some (encode v))

  -- The call spares the key, and the value is there.
  abbrev Kept : Task r × RocksStorage r → Type 0
  Kept (t, s) = Spares key t × Has s

  -- A value that counts as expired while this one does not is of another key.
  live_decoded :
      (k bytes : Bytes) (now : Reading) (w : StoredValue) (s : RocksStorage r)
      → Has s
      → is_expired now v ≡ false
      → r.get s.db k ≡ ok (some bytes)
      → ◌≡◌ {A = Result StoredValue (StorageError r.Error)} (decode bytes) (ok w)
      → is_expired now w ≡ true
      → k ≢ key
  live_decoded k bytes now w s has live read decoded late same =
      let back = decode-encode {E = r.Error} v stored in cc

  after_get-Kept :
      (now : Reading) (k : Bytes) (s : RocksStorage r) (raw : Result (Option Bytes) r.Error)
      → r.get s.db k ≡ raw
      → is_expired now v ≡ false
      → Has s
      → Kept (after_get r now k s raw)
  unfolding after_get after_decode counted
  after_get-Kept now k s (err e) read live has = (tt, has)
  after_get-Kept now k s (ok none) read live has = (tt, has)
  after_get-Kept now k s (ok (some bytes)) read live has = go (decode bytes) refl
    where
      go :
          (o : Result StoredValue (StorageError r.Error))
          → decode bytes ≡ o
          → Kept (after_decode r now k s o)
      go (err e) q = (tt, has)
      go (ok w) q = elim (Bool-cases (is_expired now w)) [
        | inl late ↦ rw late ((live_decoded k bytes now w s has live read q late, tt), has)
        | inr early ↦ rw early (tt, has)
      ]

  -- The keys that a batch of reads finds expired.
  SparesAll : Scanned r → Type 0
  SparesAll (err e) = Unit
  SparesAll (ok (results, expired)) = All (λ k. k ≢ key) expired

  scan_raw-SparesAll :
      (now : Reading) (k : Bytes) (s : RocksStorage r) (raw : Result (Option Bytes) r.Error)
      (later : Scanned r)
      → r.get s.db k ≡ raw
      → is_expired now v ≡ false
      → Has s
      → SparesAll later
      → SparesAll (scan_raw r now k raw later)
  unfolding scan_raw scan_decoded SparesAll
  scan_raw-SparesAll now k s (err e) later read live has h = tt
  scan_raw-SparesAll now k s (ok none) (err e) read live has h = tt
  scan_raw-SparesAll now k s (ok none) (ok (results, expired)) read live has h = h
  scan_raw-SparesAll now k s (ok (some bytes)) later read live has h =
      go (decode bytes) refl later h
    where
      go :
          (o : Result StoredValue (StorageError r.Error))
          → decode bytes ≡ o
          → (later : Scanned r) → SparesAll later
          → SparesAll (scan_decoded r now k o later)
      go (err e) q later h = tt
      go (ok w) q (err e) h = elim (Bool-cases (is_expired now w)) [
        | inl late ↦ rw late tt
        | inr early ↦ rw early tt
      ]
      go (ok w) q (ok (results, expired)) h = elim (Bool-cases (is_expired now w)) [
        | inl late ↦ rw late (live_decoded k bytes now w s has live read q late, h)
        | inr early ↦ rw early h
      ]

  scan_results-SparesAll :
      (clock : ℕ → Reading) (i : ℕ) (ks : List Bytes) (s : RocksStorage r)
      → ((j : ℕ) → is_expired (clock j) v ≡ false)
      → Has s
      → SparesAll (scan_results r clock i ks (map (r.get s.db) ks))
  unfolding scan_results SparesAll
  scan_results-SparesAll clock i [] s live has = tt
  scan_results-SparesAll clock i (k ∷ ks) s live has =
      scan_raw-SparesAll (clock i) k s (r.get s.db k)
        (scan_results r clock (suc i) ks (map (r.get s.db) ks)) refl (live i) has
        (scan_results-SparesAll clock (suc i) ks s live has)

  after_scan-Kept :
      (s : RocksStorage r) (found : Scanned r)
      → SparesAll found
      → Has s
      → Kept (after_scan r s found)
  unfolding after_scan counted SparesAll
  after_scan-Kept s (err e) h has = (tt, has)
  after_scan-Kept s (ok (results, [])) h has = (h, has)
  after_scan-Kept s (ok (results, k ∷ expired)) h has = (h, has)

  after_found-Kept :
      (k : Bytes) (s : RocksStorage r) (raw : Result (Option Bytes) r.Error)
      → k ≢ key
      → Has s
      → Kept (after_found r k s raw)
  unfolding after_found
  after_found-Kept k s (err e) ne has = (tt, has)
  after_found-Kept k s (ok none) ne has = (ne, has)
  after_found-Kept k s (ok (some bytes)) ne has = (ne, has)

  -- A step at a time at which the value has not expired, of a call that spares its key.
  step-Kept :
      (clock : ℕ → Reading) (t : Task r) (s : RocksStorage r)
      → ((i : ℕ) → is_expired (clock i) v ≡ false)
      → Succeeds r t s
      → Kept (t, s)
      → Kept (step r clock t s)
  unfolding step delete_found
  step-Kept clock (gets k) s live done (h, has) =
      after_get-Kept (clock 0) k s (r.get s.db k) refl (live 0) has
  step-Kept clock (gets_all ks) s live done (h, has) =
      rw (laws.multi_get_lem s.db ks)
        (after_scan-Kept s _ (scan_results-SparesAll clock 0 ks s live has) has)
  step-Kept clock (sets k value) s live done (h, has) = (
    tt,
    ap (λ d. r.get d key) (set-db r laws s k value)
        ∙ laws.get-put_ne s.db k key (encode value) (put_succeeded r laws s k value done) h
        ∙ has,
  )
  step-Kept clock (deletes k) s live done (h, has) = after_found-Kept k s (r.get s.db k) h has
  step-Kept clock (removes [] a) s live done (h, has) = (tt, has)
  step-Kept clock (removes (k ∷ ks) a) s live done ((h, hs), has) =
      (hs, laws.get-delete_ne s.db k key done h ∙ has)
  step-Kept clock (deletes_found k existed) s live done (h, has) =
      (tt, laws.get-delete_ne s.db k key done h ∙ has)
  step-Kept clock (answered a) s live done (h, has) = (tt, has)

  -- Every call under way spares the key, and the value is there.
  abbrev AllKept : Threads r → Type 0
  AllKept s = All (Spares key) s.tasks × Has s.storage

  -- The value has not expired.
  abbrev pub IsLive : Reading → Type 0
  IsLive now = is_expired now v ≡ false

  Step-AllKept : {s s' : Threads r} → Step r (Spares key) IsLive s s' → AllKept s → AllKept s'
  Step-AllKept (begins t h) (hs, has) = ((h, hs), has)
  Step-AllKept {s} (goes_on clock before after t live at done) (hs, has) =
      let (left, h, right) =
        All-split_at (Spares key) before after t (subst (All (Spares key)) at hs) in
      let (kept, still) = step-Kept clock t s.storage live done (h, has) in
      (All-append (Spares key) before (_ ∷ after) left (kept, right), still)

  Reach-AllKept : {s s' : Threads r} → AllKept s → Reach r (Spares key) IsLive s s' → AllKept s'
  Reach-AllKept h here = h
  Reach-AllKept h (next before one) = Step-AllKept one (Reach-AllKept h before)

  -- Over a database that behaves as a map, a value set with success while no call under way is
  -- about to write its key is what a get of the key returns after any steps of any calls, reads
  -- and batches of the key among them, that interleave, as long as no call sets or deletes the
  -- key, the writes made succeed, and every clock reading is before the deadline of the value.
  pub get-Reach_set :
      (s : Threads r) {s' : Threads r} (now : Reading)
      → (set r s.storage key v).0 ≡ ok tt
      → All (Spares key) s.tasks
      → Reach r (Spares key) IsLive (record s { storage = (set r s.storage key v).1 }) s'
      → IsLive now
      → (get r now s'.storage key).0 ≡ ok (some v)
  get-Reach_set s {s'} now done calm reach live =
      let (calm', has) =
        Reach-AllKept
          (
            calm,
            ap (λ d. r.get d key) (set-db r laws s.storage key v)
                ∙ laws.get-put_self s.storage.db key (encode v)
                    (put_succeeded r laws s.storage key v done),
          )
          reach in
      get-eq-view r now s'.storage key
      ∙ view_of_bytes r laws now s'.storage.db key v stored has
      ∙ rw live refl
