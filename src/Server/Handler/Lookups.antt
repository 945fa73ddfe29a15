-- ===== src/Server/Handler/Lookups.antt =====
-- What a get adds to the counts of hits and misses.
use petracache.Base.{
  Bytes, List, Option, [], ap, arith, length, none, refl, some, suc, sym, ℕ, ◌+◌, ◌∙◌, ◌∷◌, ◌≡◌,
}
use mathlib.Core.Path.{subst}
use petracache.Error.{StorageError}
use petracache.Result.{Result, ok, err}
use petracache.Crates.RocksDb.{RocksDb, IsMap}
use petracache.Crates.BytesMut.{BytesMut}
use petracache.Crates.Itoa.{Itoa}
use petracache.Metrics.{hits, misses, cmd_get, get_hits, get_misses}
use petracache.Protocol.Command
use petracache.Protocol.Response
use petracache.Protocol.Response.{ResponseWriter}
use petracache.Storage.Value.{StoredValue, Reading}
use petracache.Storage.Rocks
use petracache.Storage.Rocks.View.{view, views, add_view, get-eq-view, get_multi-eq-views}
use petracache.Server.Handler.{
  Server, count, execute, handle_get, get_one, get_many, multi_key, write_results,
}

-- The results with a value.
unfoldable pub found : List (Bytes × Option StoredValue) → ℕ
found [] = 0
found ((key, none) ∷ results) = found results
found ((key, some v) ∷ results) = suc (found results)

-- The results without one.
unfoldable pub missing : List (Bytes × Option StoredValue) → ℕ
missing [] = 0
missing ((key, none) ∷ results) = suc (missing results)
missing ((key, some v) ∷ results) = missing results

found-missing :
    (results : List (Bytes × Option StoredValue)) → found results + missing results ≡ length results
unfolding found missing
found-missing [] = refl
found-missing ((key, none) ∷ results) = omega (arith, found-missing results)
found-missing ((key, some v) ∷ results) = omega (arith, found-missing results)

pub ok_injective : {A E : Type 0} {x y : A} → ◌≡◌ {A = Result A E} (ok x) (ok y) → x ≡ y
ok_injective h = cc

module _ (r : RocksDb) ⦃b : BytesMut⦄ ⦃i : Itoa⦄ where
  -- These results are counted between the servers.
  abbrev pub Counted : List (Bytes × Option StoredValue) → Server r → Server r → Type 0
  Counted results s t =
      (hits t.metrics ≡ hits s.metrics + found results)
      × (misses t.metrics ≡ misses s.metrics + missing results)

  write_results-Counted :
      (s : Server r) (w : ResponseWriter) (results : List (Bytes × Option StoredValue))
      → Counted results s (write_results r s w results).0
  unfolding write_results found missing hits misses
  write_results-Counted s w [] = (omega arith, omega arith)
  write_results-Counted s w ((key, none) ∷ results) =
      let (h, k) = write_results-Counted (count r s get_misses) w results in
      (omega (arith, h), omega (arith, k))
  write_results-Counted s w ((key, some v) ∷ results) =
      let (h, k) =
        write_results-Counted (count r s get_hits) (Response.value w key v.flags v.payload)
          results in
      (omega (arith, h), omega (arith, k))

  get_one-Counted :
      (key : Bytes) (s : Server r) (w : ResponseWriter)
      (o : Result (Option StoredValue) (StorageError r.Error))
      (results : List (Bytes × Option StoredValue))
      → add_view r key o (ok []) ≡ ok results
      → Counted results s (get_one r key s w o).0
  unfolding get_one add_view found missing hits misses
  get_one-Counted key s w (err e) results h = cc
  get_one-Counted key s w (ok none) results h =
      subst (λ l. Counted l s (count r s get_misses)) (ok_injective h) (omega arith, omega arith)
  get_one-Counted key s w (ok (some v)) results h =
      subst (λ l. Counted l s (count r s get_hits)) (ok_injective h) (omega arith, omega arith)

  get_many-Counted :
      (s : Server r) (w : ResponseWriter)
      (o : Result (List (Bytes × Option StoredValue)) (StorageError r.Error))
      (results : List (Bytes × Option StoredValue))
      → o ≡ ok results
      → Counted results s (get_many r s w o).0
  unfolding get_many
  get_many-Counted s w o results e = rw e (write_results-Counted s w results)

-- There is a result for each key.
length-views :
    (r : RocksDb) (clock : ℕ → Reading) (n : ℕ) (d : r.Db) (keys : List Bytes)
    (results : List (Bytes × Option StoredValue))
    → views r clock n d keys ≡ ok results
    → length results ≡ length keys
unfolding views add_view
length-views r clock n d [] results h = ap length (sym (ok_injective h))
length-views r clock n d (key ∷ keys) results h =
    go (view r (clock n) d key) (views r clock (suc n) d keys)
      (λ later e. length-views r clock (suc n) d keys later e) h
  where
    go :
        (o : Result (Option StoredValue) (StorageError r.Error))
        (later : Result (List (Bytes × Option StoredValue)) (StorageError r.Error))
        → ((rest : List (Bytes × Option StoredValue)) → later ≡ ok rest → length rest ≡ length keys)
        → add_view r key o later ≡ ok results
        → length results ≡ suc (length keys)
    go (err e) later on q = cc
    go (ok v) (err e) on q = cc
    go (ok v) (ok rest) on q = ap length (sym (ok_injective q)) ∙ ap suc (on rest refl)

module _ (r : RocksDb) (laws : IsMap r) ⦃b : BytesMut⦄ ⦃i : Itoa⦄ where
  handle_get-Counted :
      (clock : ℕ → Reading) (s : Server r) (keys : List Bytes) (w : ResponseWriter)
      (results : List (Bytes × Option StoredValue))
      → views r clock 0 s.storage.db keys ≡ ok results
      → Counted r results s (handle_get r clock s keys w).0
  unfolding handle_get multi_key views
  handle_get-Counted clock s [] w results h =
      get_many-Counted r (record s { storage = (Rocks.get_multi r clock s.storage []).1 }) w _
        results (get_multi-eq-views r laws clock s.storage [] ∙ h)
  handle_get-Counted clock s (key ∷ []) w results h =
      get_one-Counted r key (record s { storage = (Rocks.get r (clock 0) s.storage key).1 }) w _
        results (ap (λ o. add_view r key o (ok [])) (get-eq-view r (clock 0) s.storage key) ∙ h)
  handle_get-Counted clock s (key ∷ other ∷ keys) w results h =
      get_many-Counted r
        (record s { storage = (Rocks.get_multi r clock s.storage (key ∷ other ∷ keys)).1 }) w _
        results (get_multi-eq-views r laws clock s.storage (key ∷ other ∷ keys) ∙ h)

  -- Over a database that behaves as a map, a get whose reads succeed counts a hit for each key
  -- that is found and a miss for each that is not or has expired, which together are as many as
  -- its keys.
  pub execute_get-Counted :
      (clock : ℕ → Reading) (s : Server r) (keys : List Bytes) (w : ResponseWriter)
      (results : List (Bytes × Option StoredValue))
      → views r clock 0 s.storage.db keys ≡ ok results
      → Counted r results s (execute r clock s (Command.get keys) w).0
        × (found results + missing results ≡ length keys)
  unfolding execute hits misses
  execute_get-Counted clock s keys w results h = (
    handle_get-Counted clock (count r s cmd_get) keys w results h,
    found-missing results ∙ length-views r clock 0 s.storage.db keys results h,
  )
