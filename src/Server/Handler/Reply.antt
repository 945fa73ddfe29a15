-- ===== src/Server/Handler/Reply.antt =====
-- The reply to a get, in terms of what its keys' reads see.
use petracache.Base.{
  Bytes, List, Option, [], ap, append-nil, append_assoc, codes, none, some, sym, ℕ, ◌++◌, ◌∙◌, ◌∷◌,
  ◌≡◌,
}
use petracache.Metrics.{get_misses, get_hits}
use petracache.Error.{StorageError, storage_message}
use petracache.Result.{Result, ok, err}
use petracache.Crates.RocksDb.{RocksDb, IsMap}
use petracache.Crates.BytesMut.{BytesMut, IsBuffer}
use petracache.Crates.Itoa.{Itoa}
use petracache.Protocol.Command
use petracache.Protocol.Response
use petracache.Protocol.Response.{ResponseWriter, buffer}
use petracache.Protocol.Response.Contents.{
  crlf, value_block, buffer-value, buffer-end, buffer-server_error,
}
use petracache.Storage.Value.{StoredValue, Reading}
use petracache.Storage.Rocks
use petracache.Storage.Rocks.View.{views, add_view, get-eq-view, get_multi-eq-views}
use petracache.Server.Handler.{
  Server, count, execute, handle_get, get_one, get_many, multi_key, write_results, failed,
}

-- The values found, in the order of the keys; a key without a value leaves nothing.
unfoldable pub render : List (Bytes × Option StoredValue) → Bytes
render [] = []
render ((key, none) ∷ results) = render results
render ((key, some v) ∷ results) = value_block key v.flags v.payload ++ render results

module _ (r : RocksDb) where
  -- The reply to the results of reads: the values and END, or the first error.
  unfoldable pub get_reply :
      Result (List (Bytes × Option StoredValue)) (StorageError r.Error) → Bytes
  get_reply (ok results) = render results ++ (codes "END" ++ crlf)
  get_reply (err e) = codes "SERVER_ERROR " ++ (storage_message r.show_error e ++ crlf)

module _ (r : RocksDb) (map_laws : IsMap r) ⦃b : BytesMut⦄ (laws : IsBuffer b) ⦃i : Itoa⦄ where
  buffer-write_results :
      (s : Server r) (w : ResponseWriter) (results : List (Bytes × Option StoredValue))
      → buffer (write_results r s w results).1 ≡ buffer w ++ render results
  unfolding write_results render
  buffer-write_results s w [] = sym (append-nil (buffer w))
  buffer-write_results s w ((key, none) ∷ results) =
      buffer-write_results (count r s get_misses) w results
  buffer-write_results s w ((key, some v) ∷ results) =
      buffer-write_results (count r s get_hits) (Response.value w key v.flags v.payload) results
      ∙ ap (λ t. t ++ render results) (buffer-value laws w key v.flags v.payload)
      ∙ append_assoc (buffer w) _ _

  buffer-get_many :
      (s : Server r) (w : ResponseWriter)
      (outcome : Result (List (Bytes × Option StoredValue)) (StorageError r.Error))
      → buffer (get_many r s w outcome).1 ≡ buffer w ++ get_reply r outcome
  unfolding get_many failed get_reply
  buffer-get_many s w (err e) = buffer-server_error laws w (storage_message r.show_error e)
  buffer-get_many s w (ok results) =
      buffer-end laws (write_results r s w results).1
      ∙ ap (λ t. t ++ (codes "END" ++ crlf)) (buffer-write_results s w results)
      ∙ append_assoc (buffer w) _ _

  buffer-get_one :
      (key : Bytes) (s : Server r) (w : ResponseWriter)
      (outcome : Result (Option StoredValue) (StorageError r.Error))
      → buffer (get_one r key s w outcome).1
        ≡ buffer w ++ get_reply r (add_view r key outcome (ok []))
  unfolding get_one failed get_reply add_view render
  buffer-get_one key s w (err e) = buffer-server_error laws w (storage_message r.show_error e)
  buffer-get_one key s w (ok none) = buffer-end laws w
  buffer-get_one key s w (ok (some v)) =
      buffer-end laws (Response.value w key v.flags v.payload)
      ∙ ap (λ t. t ++ (codes "END" ++ crlf)) (buffer-value laws w key v.flags v.payload)
      ∙ append_assoc (buffer w) _ _
      ∙ ap (λ t. buffer w ++ (t ++ (codes "END" ++ crlf))) (sym (append-nil _))

  buffer-multi_key :
      (clock : ℕ → Reading) (s : Server r) (keys : List Bytes) (w : ResponseWriter)
      → buffer (multi_key r clock s keys w).1
        ≡ buffer w ++ get_reply r (views r clock 0 s.storage.db keys)
  unfolding multi_key
  buffer-multi_key clock s keys w =
      buffer-get_many _ w (Rocks.get_multi r clock s.storage keys).0
      ∙ ap (λ o. buffer w ++ get_reply r o) (get_multi-eq-views r map_laws clock s.storage keys)

  buffer-handle_get :
      (clock : ℕ → Reading) (s : Server r) (keys : List Bytes) (w : ResponseWriter)
      → buffer (handle_get r clock s keys w).1
        ≡ buffer w ++ get_reply r (views r clock 0 s.storage.db keys)
  unfolding handle_get views
  buffer-handle_get clock s [] w = buffer-multi_key clock s [] w
  buffer-handle_get clock s (key ∷ []) w =
      buffer-get_one key _ w (Rocks.get r (clock 0) s.storage key).0
      ∙ ap (λ o. buffer w ++ get_reply r (add_view r key o (ok [])))
          (get-eq-view r (clock 0) s.storage key)
  buffer-handle_get clock s (key ∷ other ∷ keys) w = buffer-multi_key clock s (key ∷ other ∷ keys) w

  -- Over a database that behaves as a map and a buffer that follows its laws, the reply to a get,
  -- of one key or of several, is the values that reads of its keys see, in the order of the keys,
  -- and END; or the first error that such a read meets, and no value.
  pub buffer-execute_get :
      (clock : ℕ → Reading) (s : Server r) (keys : List Bytes) (w : ResponseWriter)
      → buffer (execute r clock s (Command.get keys) w).1
        ≡ buffer w ++ get_reply r (views r clock 0 s.storage.db keys)
  unfolding execute
  buffer-execute_get clock s keys w = buffer-handle_get clock _ keys w
