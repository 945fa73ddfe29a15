-- ===== src/Server/Handler/CommandCalls.antt =====
-- The calls that count commands, hits and misses, for a command.
use petracache.Base.{
  Bool, Bytes, List, Option, [], ap, false, none, refl, some, true, ℕ, ◌∙◌, ◌∷◌, ◌≡◌,
}
use petracache.Storage.Rocks
use petracache.Protocol.Command
use petracache.Protocol.Response
use petracache.Server.Cache.{result_calls}
use petracache.Server.Handler.Lookups.{ok_injective}
use petracache.Crates.RocksDb.{IsMap, RocksDb}
use petracache.Crates.BytesMut.{BytesMut}
use petracache.Crates.Itoa.{Itoa}
use petracache.Server.Handler.{
  new_value, err, ok, StorageError, count, Result, StoredValue, Reading, multi_key, failed, get_one,
  delete_done, set_done, handle_set, handle_get, write_results, get_many, handle_delete, MetricCall,
  execute, Server,
}
use petracache.Metrics.{get_hits, cmd_get, get_misses, cmd_set, cmd_delete, inc, command_calls}
use petracache.Storage.Rocks.View.{get-eq-view, get_multi-eq-views, views, add_view}
use petracache.Protocol.Response.{ResponseWriter}

module _ (r : RocksDb) ⦃b : BytesMut⦄ ⦃i : Itoa⦄ where
  abbrev pub commands : Server r → List MetricCall
  commands s = command_calls s.metrics

  commands-write_results :
      (s : Server r) (w : ResponseWriter) (results : List (Bytes × Option StoredValue))
      → commands (write_results r s w results).0 ≡ result_calls results (commands s)
  unfolding write_results result_calls command_calls
  commands-write_results s w [] = refl
  commands-write_results s w ((key, none) ∷ results) =
      commands-write_results (count r s get_misses) w results
  commands-write_results s w ((key, some v) ∷ results) =
      commands-write_results (count r s get_hits) (Response.value w key v.flags v.payload) results

  commands-get_one :
      (key : Bytes) (s : Server r) (w : ResponseWriter)
      (o : Result (Option StoredValue) (StorageError r.Error))
      (results : List (Bytes × Option StoredValue))
      → add_view r key o (ok []) ≡ ok results
      → commands (get_one r key s w o).0 ≡ result_calls results (commands s)
  unfolding get_one add_view result_calls command_calls
  commands-get_one key s w (err e) results h = cc
  commands-get_one key s w (ok none) results h =
      ap (λ l. result_calls l (commands s)) (ok_injective h)
  commands-get_one key s w (ok (some v)) results h =
      ap (λ l. result_calls l (commands s)) (ok_injective h)

  commands-get_many :
      (s : Server r) (w : ResponseWriter)
      (o : Result (List (Bytes × Option StoredValue)) (StorageError r.Error))
      (results : List (Bytes × Option StoredValue))
      → o ≡ ok results
      → commands (get_many r s w o).0 ≡ result_calls results (commands s)
  unfolding get_many
  commands-get_many s w o results e = rw e (commands-write_results s w results)

  commands-set_done :
      (s : Server r) (w : ResponseWriter) (outcome : Result (Unit {0}) (StorageError r.Error))
      → commands (set_done r s w outcome).0 ≡ commands s
  unfolding set_done command_calls failed
  commands-set_done s w (ok u) = refl
  commands-set_done s w (err e) = refl

  commands-delete_done :
      (s : Server r) (w : ResponseWriter) (outcome : Result Bool (StorageError r.Error))
      → commands (delete_done r s w outcome).0 ≡ commands s
  unfolding delete_done command_calls failed
  commands-delete_done s w (ok true) = refl
  commands-delete_done s w (ok false) = refl
  commands-delete_done s w (err e) = refl

module _ (r : RocksDb) (laws : IsMap r) ⦃b : BytesMut⦄ ⦃i : Itoa⦄ where
  commands-handle_get :
      (clock : ℕ → Reading) (s : Server r) (keys : List Bytes) (w : ResponseWriter)
      (results : List (Bytes × Option StoredValue))
      → views r clock 0 s.storage.db keys ≡ ok results
      → commands r (handle_get r clock s keys w).0 ≡ result_calls results (commands r s)
  unfolding handle_get multi_key views
  commands-handle_get clock s [] w results h =
      commands-get_many r (record s { storage = (Rocks.get_multi r clock s.storage []).1 }) w _
        results (get_multi-eq-views r laws clock s.storage [] ∙ h)
  commands-handle_get clock s (key ∷ []) w results h =
      commands-get_one r key (record s { storage = (Rocks.get r (clock 0) s.storage key).1 }) w _
        results (ap (λ o. add_view r key o (ok [])) (get-eq-view r (clock 0) s.storage key) ∙ h)
  commands-handle_get clock s (key ∷ other ∷ keys) w results h =
      commands-get_many r
        (record s { storage = (Rocks.get_multi r clock s.storage (key ∷ other ∷ keys)).1 }) w _
        results (get_multi-eq-views r laws clock s.storage (key ∷ other ∷ keys) ∙ h)

  -- A get whose reads succeed counts itself and its results.
  pub commands-execute-get :
      (clock : ℕ → Reading) (s : Server r) (keys : List Bytes) (w : ResponseWriter)
      (results : List (Bytes × Option StoredValue))
      → views r clock 0 s.storage.db keys ≡ ok results
      → commands r (execute r clock s (Command.get keys) w).0
        ≡ result_calls results (inc cmd_get ∷ commands r s)
  unfolding execute command_calls
  commands-execute-get clock s keys w results h =
      commands-handle_get clock (count r s cmd_get) keys w results h

  pub commands-execute-set :
      (clock : ℕ → Reading) (s : Server r) (key : Bytes) (flags exptime : ℕ) (payload : Bytes)
      (noreply : Bool) (w : ResponseWriter)
      → commands r (execute r clock s (Command.set key flags exptime payload noreply) w).0
        ≡ inc cmd_set ∷ commands r s
  unfolding execute handle_set command_calls
  commands-execute-set clock s key flags exptime payload noreply w =
      let (outcome, storage') =
        Rocks.set r s.storage key (new_value (clock 0) flags exptime payload) in
      commands-set_done r (record (count r s cmd_set) { storage = storage' }) w outcome

  pub commands-execute-delete :
      (clock : ℕ → Reading) (s : Server r) (key : Bytes) (noreply : Bool) (w : ResponseWriter)
      → commands r (execute r clock s (Command.delete key noreply) w).0
        ≡ inc cmd_delete ∷ commands r s
  unfolding execute handle_delete command_calls
  commands-execute-delete clock s key noreply w =
      let (outcome, storage') = Rocks.delete r s.storage key in
      commands-delete_done r (record (count r s cmd_delete) { storage = storage' }) w outcome
