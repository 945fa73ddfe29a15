-- ===== src/Storage/Rocks/Ttl.antt =====
-- What reads see after a write, as time goes on.
use mathlib.Core.Path.{subst}
use petracache.Base.{
  Bool-cases, Bytes, Option, ap, arith, bytes_cases, if◌then◌else◌, inl, inr, none, refl, some, sym,
  ℕ, ◌+◌, ◌<◌, ◌^◌, ◌∙◌, ◌≡◌, ◌≢◌, ◌≤◌,
}
use petracache.Error.{StorageError, rocks_db}
use petracache.Result.{Result, ok, err}
use petracache.Rust.Integer.{max_u64}
use petracache.Crates.RocksDb.{RocksDb, IsMap}
use petracache.Storage.Value.{
  StoredValue, Reading, max_relative_ttl, new_value, calculate_expire_at, encode, decode,
  is_expired,
}
use petracache.Storage.Value.Codec.{IsStored, decode-encode}
use petracache.Storage.Value.Expiry.{deadline, past, is_expired-new_value, is_expired_mono}
use petracache.Storage.Rocks.{RocksStorage, get, get_raw, get_decoded, set}
use petracache.Storage.Rocks.View.{live, view, view_raw, view_decoded, get-eq-view}

new_value-IsStored :
    (t flags exptime : ℕ) (payload : Bytes)
    → t + max_relative_ttl ≤ max_u64
    → flags < 2 ^ 32
    → exptime < 2 ^ 64
    → IsStored (new_value (some t) flags exptime payload)
unfolding new_value calculate_expire_at
new_value-IsStored t flags exptime payload room hf ht = record {
  expire_at_u64 = ground arith;
  flags_u32 = hf;
}

module _ (r : RocksDb) (laws : IsMap r) where
  pub put_succeeded :
      (s : RocksStorage r) (key : Bytes) (v : StoredValue)
      → (set r s key v).0 ≡ ok tt
      → (r.put_opt s.db key (encode v)).0 ≡ ok tt
  unfolding set
  put_succeeded s key v h = go (r.put_opt s.db key (encode v)).0 h
    where
      go :
          (outcome : Result (Unit {0}) r.Error)
          → ◌≡◌ {A = Result (Unit {0}) (StorageError r.Error)}
              (elim outcome [ ok u ↦ ok tt | err e ↦ err (rocks_db e) ])
              (ok tt)
          → outcome ≡ ok tt
      go (ok u) q = refl
      go (err e) q = cc

  pub set-db :
      (s : RocksStorage r) (key : Bytes) (v : StoredValue)
      → (set r s key v).1.db ≡ (r.put_opt s.db key (encode v)).1
  unfolding set
  set-db s key v = refl

  pub view_of_bytes :
      (now : Reading) (d : r.Db) (key : Bytes) (v : StoredValue)
      → IsStored v
      → r.get d key ≡ ok (some (encode v))
      → view r now d key ≡ ok (live r now v)
  unfolding view view_raw view_decoded
  view_of_bytes now d key v h e = rw e (rw (decode-encode v h))

  -- After a write that succeeded, a read of the key returns the value until it expires.
  pub get-set_self :
      (s : RocksStorage r) (key : Bytes) (v : StoredValue) (now : Reading)
      → IsStored v
      → (set r s key v).0 ≡ ok tt
      → (get r now (set r s key v).1 key).0 ≡ ok (live r now v)
  get-set_self s key v now h done =
      get-eq-view r now (set r s key v).1 key
      ∙ ap (λ d. view r now d key) (set-db s key v)
      ∙ view_of_bytes now (r.put_opt s.db key (encode v)).1 key v h
          (laws.get-put_self s.db key (encode v) (put_succeeded s key v done))

  -- Over a database that behaves as a map, a write of one key that succeeded leaves what a read
  -- of another key returns.
  pub get-set_ne :
      (s : RocksStorage r) (key other : Bytes) (v : StoredValue) (now : Reading)
      → (set r s key v).0 ≡ ok tt
      → key ≢ other
      → (get r now (set r s key v).1 other).0 ≡ (get r now s other).0
  unfolding view
  get-set_ne s key other v now done ne =
      get-eq-view r now (set r s key v).1 other
      ∙ ap (λ d. view r now d other) (set-db s key v)
      ∙ ap (view_raw r now)
          (laws.get-put_ne s.db key other (encode v) (put_succeeded s key v done) ne)
      ∙ sym (get-eq-view r now s other)

  -- Over a database that behaves as a map, a set at the second t that succeeded is read at the
  -- second u as its flags and data if the deadline of its expiration time has not come, and as
  -- absent if it has; the clock at t leaves room for 30 days below the largest u64, and flags and
  -- expiration time fit their types.
  pub get-set_ttl :
      (s : RocksStorage r) (key payload : Bytes) (t u flags exptime : ℕ)
      → t + max_relative_ttl ≤ max_u64
      → flags < 2 ^ 32
      → exptime < 2 ^ 64
      → (set r s key (new_value (some t) flags exptime payload)).0 ≡ ok tt
      → (get r (some u) (set r s key (new_value (some t) flags exptime payload)).1 key).0
        ≡ ok (
            if past (deadline t exptime) u
            then none
            else some (new_value (some t) flags exptime payload))
  get-set_ttl s key payload t u flags exptime room hf ht done =
      let v = new_value (some t) flags exptime payload in
      get-set_self s key v (some u) (new_value-IsStored t flags exptime payload room hf ht) done
      ∙ ap (λ b. ok (if b then none else some v))
          (is_expired-new_value t u flags exptime payload room)

  -- The entry was removed, in the view of every key.
  view-delete :
      (now : Reading) (d : r.Db) (key other : Bytes)
      → (r.delete_opt d key).0 ≡ ok tt
      → view r now d key ≡ ok none
      → view r now (r.delete_opt d key).1 other ≡ view r now d other
  unfolding view
  view-delete now d key other done gone = elim (bytes_cases key other) [
    | inl same ↦
        subst (λ k. view_raw r now (r.get (r.delete_opt d key).1 k) ≡ view_raw r now (r.get d k))
          same (ap (view_raw r now) (laws.get-delete_self d key done) ∙ view_none ∙ sym gone)
    | inr ne ↦ ap (view_raw r now) (laws.get-delete_ne d key other done ne)
  ]
    where
      view_none : view_raw r now (ok none) ≡ ok none
      view_none = unfold view_raw in refl

  -- Over a database that behaves as a map, the lazy deletion of a read, if it succeeds, is seen
  -- by no later read of any key while the clock does not go back.
  pub view-get :
      (s : RocksStorage r) (key other : Bytes) (t u : ℕ)
      → t ≤ u
      → (r.delete_opt s.db key).0 ≡ ok tt
      → view r (some u) (get r (some t) s key).1.db other ≡ view r (some u) s.db other
  unfolding get get_raw
  view-get s key other t u le done = raw (r.get s.db key) refl
    where
      decoded :
          (v : Result StoredValue (StorageError r.Error)) (bytes : Bytes)
          → decode bytes ≡ v
          → r.get s.db key ≡ ok (some bytes)
          → view r (some u) (get_decoded r (some t) key s v).1.db other ≡ view r (some u) s.db other
      decoded (err e) bytes d q = refl
      decoded (ok v) bytes d q = elim (Bool-cases (is_expired (some t) v)) [
        | inl expired ↦ rw expired (
            view-delete (some u) s.db key other done (
              unfold view view_raw view_decoded in
              rw q (rw d (rw (is_expired_mono v t u le expired)))))
        | inr fresh ↦ rw fresh
      ]

      raw :
          (o : Result (Option Bytes) r.Error)
          → r.get s.db key ≡ o
          → view r (some u) (get_raw r (some t) key s o).1.db other ≡ view r (some u) s.db other
      raw (err e) q = refl
      raw (ok none) q = refl
      raw (ok (some bytes)) q = decoded (decode bytes) bytes refl q
