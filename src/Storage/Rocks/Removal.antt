-- ===== src/Storage/Rocks/Removal.antt =====
-- What a delete answers and what it leaves.
use petracache.Base.{Bool, Bytes, Option, ap, false, none, refl, some, sym, true, ◌∙◌, ◌≡◌, ◌≢◌}
use petracache.Error.{StorageError, rocks_db}
use petracache.Result.{Result, ok, err}
use petracache.Crates.RocksDb.{RocksDb, IsMap}
use petracache.Storage.Value.{Reading}
use petracache.Storage.Rocks.{RocksStorage, get, delete, delete_raw, delete_found}
use petracache.Storage.Rocks.View.{view, view_raw, get-eq-view}

-- Whether a read of the database has an entry, expired or not.
abbrev pub has_entry : {E : Type 0} → Result (Option Bytes) E → Bool
has_entry (ok (some bytes)) = true
has_entry _ = false

module _ (r : RocksDb) (laws : IsMap r) where
  Deletes :
      RocksStorage r → Bytes → Bool → Result Bool (StorageError r.Error) × RocksStorage r → Type 0
  Deletes s key existed o =
      o.0 ≡ ok existed
      → (existed ≡ has_entry (r.get s.db key))
        × ((now : Reading) → view r now o.1.db key ≡ ok none)
        × ((now : Reading) (other : Bytes)
            → key ≢ other
            → view r now o.1.db other ≡ view r now s.db other)

  found-Deletes :
      (s : RocksStorage r) (key : Bytes) (existed answer : Bool)
      → existed ≡ has_entry (r.get s.db key)
      → Deletes s key answer (delete_found r s key existed)
  unfolding Deletes delete_found view
  found-Deletes s key existed answer h = go (r.delete_opt s.db key).0 refl
    where
      go :
          (outcome : Result (Unit {0}) r.Error)
          → (r.delete_opt s.db key).0 ≡ outcome
          → ◌≡◌ {A = Result Bool (StorageError r.Error)}
              (elim outcome [ ok u ↦ ok existed | err e ↦ err (rocks_db e) ])
              (ok answer)
          → (answer ≡ has_entry (r.get s.db key))
            × ((now : Reading) → view_raw r now (r.get (r.delete_opt s.db key).1 key) ≡ ok none)
            × ((now : Reading) (other : Bytes)
                → key ≢ other
                → view_raw r now (r.get (r.delete_opt s.db key).1 other)
                  ≡ view_raw r now (r.get s.db other))
      go (ok u) done q = (
        same q,
        (λ now. ap (view_raw r now) (laws.get-delete_self s.db key done) ∙ unfold view_raw in refl),
        (λ now other ne. ap (view_raw r now) (laws.get-delete_ne s.db key other done ne)),
      )
        where
          same :
              ◌≡◌ {A = Result Bool (StorageError r.Error)} (ok existed) (ok answer)
              → answer ≡ has_entry (r.get s.db key)
          same q = cc
      go (err e) done q = cc

  views_reads :
      (s s' : RocksStorage r) (key : Bytes)
      → ((now : Reading) → view r now s'.db key ≡ ok none)
        × ((now : Reading) (other : Bytes)
            → key ≢ other
            → view r now s'.db other ≡ view r now s.db other)
      → ((now : Reading) → (get r now s' key).0 ≡ ok none)
        × ((now : Reading) (other : Bytes)
            → key ≢ other
            → (get r now s' other).0 ≡ (get r now s other).0)
  views_reads s s' key (gone, kept) = (
    (λ now. get-eq-view r now s' key ∙ gone now),
    (λ now other ne.
        get-eq-view r now s' other ∙ kept now other ne ∙ sym (get-eq-view r now s other)),
  )

  -- Over a database that behaves as a map, a delete that succeeds answers whether the database
  -- had an entry for the key, even one that has expired; behind it a read at any time finds the
  -- key absent and finds every other key as before.
  pub delete-Deletes :
      (s : RocksStorage r) (key : Bytes) (existed : Bool)
      → (delete r s key).0 ≡ ok existed
      → (existed ≡ has_entry (r.get s.db key))
        × ((now : Reading) → (get r now (delete r s key).1 key).0 ≡ ok none)
        × ((now : Reading) (other : Bytes)
            → key ≢ other
            → (get r now (delete r s key).1 other).0 ≡ (get r now s other).0)
  unfolding delete Deletes
  delete-Deletes s key existed h = raw (r.get s.db key) refl h
    where
      finish :
          (found answer : Bool)
          → found ≡ has_entry (r.get s.db key)
          → (delete_found r s key found).0 ≡ ok answer
          → (answer ≡ has_entry (r.get s.db key))
            × ((now : Reading) → (get r now (delete_found r s key found).1 key).0 ≡ ok none)
            × ((now : Reading) (other : Bytes)
                → key ≢ other
                → (get r now (delete_found r s key found).1 other).0 ≡ (get r now s other).0)
      finish found answer e h =
          let (same, gone, kept) = found-Deletes s key found answer e h in
          let (gone', kept') = views_reads s (delete_found r s key found).1 key (gone, kept) in
          (same, gone', kept')

      raw :
          (o : Result (Option Bytes) r.Error)
          → r.get s.db key ≡ o
          → (delete_raw r s key o).0 ≡ ok existed
          → (existed ≡ has_entry (r.get s.db key))
            × ((now : Reading) → (get r now (delete_raw r s key o).1 key).0 ≡ ok none)
            × ((now : Reading) (other : Bytes)
                → key ≢ other
                → (get r now (delete_raw r s key o).1 other).0 ≡ (get r now s other).0)
      raw (err e) q h = cc
      raw (ok none) q h = finish false existed (ap has_entry (sym q)) h
      raw (ok (some bytes)) q h = finish true existed (ap has_entry (sym q)) h
