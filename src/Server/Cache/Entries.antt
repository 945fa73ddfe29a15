-- ===== src/Server/Cache/Entries.antt =====
-- The database of the store beside the entries of the cache.
use petracache.Base.{
  bytes_eq_refl, true, sym, Bool-cases, Bytes, List, Option, [], ap, arith, bytes_eq, bytes_eq→eq,
  false, if◌then◌else◌, inl, inr, is_empty, length, none, refl, some, suc, ℕ, ◌∙◌, ◌∷◌, ◌≡◌, ◌≢◌,
}
use mathlib.Core.List.{map}
use mathlib.Core.Path.{subst}
use petracache.Result.{ok}
use petracache.Crates.RocksDb.{RocksDb, IsMap, IsReliable}
use petracache.Storage.Value.{StoredValue, Reading, encode, is_expired}
use petracache.Storage.Value.Codec.{IsStored, decode-encode}
use petracache.Storage.Rocks
use petracache.Storage.Rocks.{
  fetch_add, RocksStorage, scan_results, scan_raw, scan_decoded, finish_multi, delete_all, get_raw,
  get_decoded,
}
use petracache.Storage.Rocks.View.{view_raw, view, views, add_view}
use petracache.Storage.Rocks.Ttl.{view_of_bytes}
use petracache.Server.Cache.{Cache, put, unexpired, is_late, lookup, late, erase}

bytes_differ : (s t : Bytes) → bytes_eq s t ≡ false → s ≢ t
bytes_differ s t h e = clash (sym (bytes_eq_refl s) ∙ ap (bytes_eq s) e ∙ h)
  where
    clash : true ≢ false
    clash q = cc

-- The bytes of an entry.
abbrev pub entry : Option StoredValue → Option Bytes
entry none = none
entry (some v) = some (encode v)

abbrev pub Fits : Option StoredValue → Type 0
Fits none = Unit
Fits (some v) = IsStored v

module _ (r : RocksDb) (laws : IsMap r) (reliable : IsReliable r) where
  -- The database has the entries of the cache.
  abbrev pub Holds : r.Db → Cache → Type 0
  Holds d m = (key : Bytes) → (r.get d key ≡ ok (entry (m key))) × Fits (m key)

  pub Holds-set :
      (d : r.Db) (m : Cache) (key : Bytes) (v : StoredValue)
      → IsStored v
      → Holds d m
      → Holds (r.put_opt d key (encode v)).1 (put key (some v) m)
  unfolding put
  Holds-set d m key v stored h other = elim (Bool-cases (bytes_eq key other)) [
    | inl same ↦ rw same (
      subst (λ k. r.get (r.put_opt d key (encode v)).1 k ≡ ok (some (encode v)))
          (bytes_eq→eq key other same)
          (laws.get-put_self d key (encode v) (reliable.put_succeeds d key (encode v))),
      stored,
    )
    | inr differs ↦ rw differs (
      laws.get-put_ne d key other (encode v) (reliable.put_succeeds d key (encode v))
            (bytes_differ key other differs)
          ∙ (h other).0,
      (h other).1,
    )
  ]

  pub Holds-delete :
      (d : r.Db) (m : Cache) (key : Bytes)
      → Holds d m
      → Holds (r.delete_opt d key).1 (put key none m)
  unfolding put
  Holds-delete d m key h other = elim (Bool-cases (bytes_eq key other)) [
    | inl same ↦ rw same (
      subst (λ k. r.get (r.delete_opt d key).1 k ≡ ok none) (bytes_eq→eq key other same)
          (laws.get-delete_self d key (reliable.delete_succeeds d key)),
      tt,
    )
    | inr differs ↦ rw differs (
      laws.get-delete_ne d key other (reliable.delete_succeeds d key)
            (bytes_differ key other differs)
          ∙ (h other).0,
      (h other).1,
    )
  ]

  Holds-erase :
      (d : r.Db) (m : Cache) (keys : List Bytes)
      → Holds d m
      → Holds (delete_all r d keys) (erase keys m)
  unfolding delete_all erase
  Holds-erase d m [] h = h
  Holds-erase d m (key ∷ keys) h =
      Holds-erase (r.delete_opt d key).1 (put key none m) keys (Holds-delete d m key h)

  view-eq-unexpired :
      (now : Reading) (d : r.Db) (m : Cache) (key : Bytes)
      → Holds d m
      → view r now d key ≡ ok (unexpired now (m key))
  unfolding view view_raw
  view-eq-unexpired now d m key h = go (m key) (h key).0 (h key).1
    where
      go :
          (o : Option StoredValue)
          → r.get d key ≡ ok (entry o)
          → Fits o
          → view r now d key ≡ ok (unexpired now o)
      go none e fits = rw e refl
      go (some v) e fits = view_of_bytes r laws now d key v fits e

  pub views-eq-lookup :
      (clock : ℕ → Reading) (i : ℕ) (d : r.Db) (m : Cache) (keys : List Bytes)
      → Holds d m
      → views r clock i d keys ≡ ok (lookup clock i m keys)
  unfolding views lookup add_view
  views-eq-lookup clock i d m [] h = refl
  views-eq-lookup clock i d m (key ∷ keys) h =
      rw (view-eq-unexpired (clock i) d m key h, views-eq-lookup clock (suc i) d m keys h) refl

  scan-eq-lookup :
      (clock : ℕ → Reading) (i : ℕ) (d : r.Db) (m : Cache) (keys : List Bytes)
      → Holds d m
      → scan_results r clock i keys (map (r.get d) keys)
        ≡ ok (lookup clock i m keys, late clock i m keys)
  unfolding scan_results scan_raw scan_decoded lookup late
  scan-eq-lookup clock i d m [] h = refl
  scan-eq-lookup clock i d m (key ∷ keys) h =
      rw (scan-eq-lookup clock (suc i) d m keys h) (go (m key) (h key).0 (h key).1)
    where
      go :
          (o : Option StoredValue)
          → r.get d key ≡ ok (entry o)
          → Fits o
          → scan_raw r
              (clock i)
              key
              (r.get d key)
              (ok (lookup clock (suc i) m keys, late clock (suc i) m keys))
            ≡ ok (
              (key, unexpired (clock i) o) ∷ lookup clock (suc i) m keys,
              (if is_late (clock i) o
                  then key ∷ late clock (suc i) m keys
                  else late clock (suc i) m keys),
            )
      go none e fits = rw e refl
      go (some v) e fits = rw (e, decode-encode {E = r.Error} v fits) (ground arith)

  -- A batch of reads leaves the cache without the keys found expired.
  pub get_multi-Holds :
      (clock : ℕ → Reading) (s : RocksStorage r) (m : Cache) (keys : List Bytes)
      → Holds s.db m
      → Holds (Rocks.get_multi r clock s keys).1.db (erase (late clock 0 m keys) m)
  unfolding Rocks.get_multi finish_multi
  get_multi-Holds clock s m keys h =
      rw (laws.multi_get_lem s.db keys, scan-eq-lookup clock 0 s.db m keys h)
        (go (late clock 0 m keys))
    where
      go :
          (expired : List Bytes)
          → Holds
              (if is_empty expired then s else record s {
                db = delete_all r s.db expired;
                expired_keys_removed = fetch_add s.expired_keys_removed (length expired);
              }).db
              (erase expired m)
      go [] = unfold erase in h
      go (key ∷ expired) = Holds-erase s.db m (key ∷ expired) h

  -- And so does a single read.
  pub get-Holds :
      (clock : ℕ → Reading) (s : RocksStorage r) (m : Cache) (key : Bytes)
      → Holds s.db m
      → Holds (Rocks.get r (clock 0) s key).1.db (erase (late clock 0 m (key ∷ [])) m)
  unfolding Rocks.get get_raw get_decoded late
  get-Holds clock s m key h = go (m key) (h key).0 (h key).1
    where
      go :
          (o : Option StoredValue)
          → r.get s.db key ≡ ok (entry o)
          → Fits o
          → Holds
              (get_raw r (clock 0) key s (r.get s.db key)).1.db
              (erase (if is_late (clock 0) o then key ∷ [] else []) m)
      go none e fits = rw e (unfold erase in h)
      go (some v) e fits =
          rw (e, decode-encode {E = r.Error} v fits)
            (elim (Bool-cases (is_expired (clock 0) v)) [
              | inl past ↦ rw past (unfold erase in Holds-delete s.db m key h)
              | inr early ↦ rw early (unfold erase in h)
            ])
