-- ===== src/Storage/Rocks/View.antt =====
-- What a read sees, as a function of the database and the clock, and that reads return it.
use petracache.Base.{
  Bytes, List, Option, [], ap, arith, if◌then◌else◌, none, refl, some, suc, ℕ, ◌∙◌, ◌∷◌, ◌≡◌,
}
use mathlib.Core.List.{map}
use petracache.Error.{StorageError, rocks_db}
use petracache.Result.{Result, ok, err}
use petracache.Crates.RocksDb.{RocksDb, IsMap}
use petracache.Storage.Value.{StoredValue, Reading, decode, is_expired}
use petracache.Storage.Rocks.{
  RocksStorage, get, get_raw, get_decoded, get_multi, scan_results, scan_raw, scan_decoded, Scanned,
  finish_multi,
}

module _ (r : RocksDb) where
  -- A value that has not expired.
  abbrev pub live : Reading → StoredValue → Option StoredValue
  live now v = if is_expired now v then none else some v

  unfoldable pub view_decoded :
      Reading
      → Result StoredValue (StorageError r.Error)
      → Result (Option StoredValue) (StorageError r.Error)
  view_decoded now (err e) = err e
  view_decoded now (ok v) = ok (live now v)

  unfoldable pub view_raw :
      Reading → Result (Option Bytes) r.Error → Result (Option StoredValue) (StorageError r.Error)
  unfolding view_decoded
  view_raw now (err e) = err (rocks_db e)
  view_raw now (ok none) = ok none
  view_raw now (ok (some bytes)) = view_decoded now (decode bytes)

  -- What a read of the key sees at this reading of the clock.
  unfoldable pub view : Reading → r.Db → Bytes → Result (Option StoredValue) (StorageError r.Error)
  unfolding view_raw
  view now d key = view_raw now (r.get d key)

  -- The results of reads in order, up to the first error.
  unfoldable pub add_view :
      Bytes
      → Result (Option StoredValue) (StorageError r.Error)
      → Result (List (Bytes × Option StoredValue)) (StorageError r.Error)
      → Result (List (Bytes × Option StoredValue)) (StorageError r.Error)
  add_view key (err e) later = err e
  add_view key (ok v) (err e) = err e
  add_view key (ok v) (ok results) = ok ((key, v) ∷ results)

  unfoldable pub views :
      (ℕ → Reading)
      → ℕ
      → r.Db
      → List Bytes
      → Result (List (Bytes × Option StoredValue)) (StorageError r.Error)
  unfolding add_view
  views clock i d [] = ok []
  views clock i d (key ∷ keys) = add_view key (view (clock i) d key) (views clock (suc i) d keys)

  get_raw-eq-view :
      (now : Reading) (key : Bytes) (s : RocksStorage r) (raw : Result (Option Bytes) r.Error)
      → (get_raw r now key s raw).0 ≡ view_raw now raw
  unfolding get_raw view_raw
  get_raw-eq-view now key s (err e) = refl
  get_raw-eq-view now key s (ok none) = refl
  get_raw-eq-view now key s (ok (some bytes)) = decoded (decode bytes)
    where
      decoded :
          (v : Result StoredValue (StorageError r.Error))
          → (get_decoded r now key s v).0 ≡ view_decoded now v
      decoded (err e) = refl
      decoded (ok v) = ground arith

  -- A read returns what its key's view is.
  pub get-eq-view :
      (now : Reading) (s : RocksStorage r) (key : Bytes) → (get r now s key).0 ≡ view now s.db key
  unfolding get view
  get-eq-view now s key = get_raw-eq-view now key s (r.get s.db key)

  results_of : Scanned r → Result (List (Bytes × Option StoredValue)) (StorageError r.Error)
  results_of (err e) = err e
  results_of (ok (results, expired)) = ok results

  finish-results :
      (s : RocksStorage r) (found : Scanned r) → (finish_multi r s found).0 ≡ results_of found
  unfolding finish_multi results_of
  finish-results s (err e) = refl
  finish-results s (ok (results, expired)) = refl

  scan_raw-results :
      (now : Reading) (key : Bytes) (raw : Result (Option Bytes) r.Error) (later : Scanned r)
      → results_of (scan_raw r now key raw later)
        ≡ add_view key (view_raw now raw) (results_of later)
  unfolding scan_raw view_raw add_view results_of
  scan_raw-results now key (err e) later = refl
  scan_raw-results now key (ok none) (err e) = refl
  scan_raw-results now key (ok none) (ok (results, expired)) = refl
  scan_raw-results now key (ok (some bytes)) later = decoded (decode bytes) later
    where
      decoded :
          (v : Result StoredValue (StorageError r.Error)) (later : Scanned r)
          → results_of (scan_decoded r now key v later)
            ≡ add_view key (view_decoded now v) (results_of later)
      decoded (err e) later = refl
      decoded (ok v) (err e) = ground arith
      decoded (ok v) (ok (results, expired)) = ground arith

  scan-results :
      (clock : ℕ → Reading) (i : ℕ) (d : r.Db) (keys : List Bytes)
      → results_of (scan_results r clock i keys (map (r.get d) keys)) ≡ views clock i d keys
  unfolding scan_results results_of views view
  scan-results clock i d [] = refl
  scan-results clock i d (key ∷ keys) =
      scan_raw-results (clock i) key (r.get d key)
        (scan_results r clock (suc i) keys (map (r.get d) keys))
      ∙ ap (add_view key (view_raw (clock i) (r.get d key))) (scan-results clock (suc i) d keys)

  -- Over a database that behaves as a map, the batched read returns, for each key in order, what
  -- a single read of that key would return from the same database, or the first error that such
  -- reads meet.
  pub get_multi-eq-views :
      IsMap r
      → (clock : ℕ → Reading) (s : RocksStorage r) (keys : List Bytes)
      → (get_multi r clock s keys).0 ≡ views clock 0 s.db keys
  unfolding get_multi
  get_multi-eq-views laws clock s keys =
      finish-results s (scan_results r clock 0 keys (r.multi_get s.db keys))
      ∙ ap (λ raws. results_of (scan_results r clock 0 keys raws)) (laws.multi_get_lem s.db keys)
      ∙ scan-results clock 0 s.db keys
