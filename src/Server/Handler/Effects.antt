-- ===== src/Server/Handler/Effects.antt =====
-- What a command leaves in the store, and what it replies, by what the store's own call gives.
use petracache.Base.{
  Bool, Bytes, List, Option, [], append_assoc, codes, false, length, none, refl, some, true, ℕ,
  ◌++◌, ◌∷◌, ◌≡◌, ◌≢◌,
}
use petracache.Metrics.{get_hits, get_misses}
use petracache.Error.{StorageError}
use petracache.Result.{Result, ok, err}
use petracache.Crates.RocksDb.{RocksDb}
use petracache.Crates.BytesMut.{BytesMut, IsBuffer}
use petracache.Crates.Itoa.{Itoa}
use petracache.Protocol.Command.{get, set, delete, version}
use petracache.Protocol.Response
use petracache.Protocol.Response.{ResponseWriter, buffer}
use petracache.Protocol.Response.Contents.{crlf, buffer-stored, buffer-not_found, buffer-deleted}
use petracache.Storage.Value.{StoredValue, Reading, new_value}
use petracache.Storage.Rocks
use petracache.Storage.Rocks.{RocksStorage, delete_raw, delete_found}
use petracache.Server.Handler.{
  Server, count, execute, handle_get, get_one, get_many, multi_key, write_results, failed, set_done,
  delete_done, handle_set, handle_delete, handle_version,
}

-- The reply to a delete that succeeds.
abbrev pub found_reply : Bool → Bytes
found_reply true = codes "DELETED" ++ crlf
found_reply false = codes "NOT_FOUND" ++ crlf

module _ (r : RocksDb) ⦃b : BytesMut⦄ ⦃i : Itoa⦄ where
  storage-get_one :
      (key : Bytes) (s : Server r) (w : ResponseWriter)
      (o : Result (Option StoredValue) (StorageError r.Error))
      → (get_one r key s w o).0.storage ≡ s.storage
  unfolding get_one failed
  storage-get_one key s w (err e) = refl
  storage-get_one key s w (ok none) = refl
  storage-get_one key s w (ok (some v)) = refl

  storage-write_results :
      (s : Server r) (w : ResponseWriter) (results : List (Bytes × Option StoredValue))
      → (write_results r s w results).0.storage ≡ s.storage
  unfolding write_results
  storage-write_results s w [] = refl
  storage-write_results s w ((key, none) ∷ results) =
      storage-write_results (count r s get_misses) w results
  storage-write_results s w ((key, some v) ∷ results) =
      storage-write_results (count r s get_hits) (Response.value w key v.flags v.payload) results

  storage-get_many :
      (s : Server r) (w : ResponseWriter)
      (o : Result (List (Bytes × Option StoredValue)) (StorageError r.Error))
      → (get_many r s w o).0.storage ≡ s.storage
  unfolding get_many failed
  storage-get_many s w (err e) = refl
  storage-get_many s w (ok results) = storage-write_results s w results

  pub storage-execute_get_one :
      (clock : ℕ → Reading) (s : Server r) (key : Bytes) (w : ResponseWriter)
      → (execute r clock s (get (key ∷ [])) w).0.storage ≡ (Rocks.get r (clock 0) s.storage key).1
  unfolding execute handle_get
  storage-execute_get_one clock s key w =
      storage-get_one key _ w (Rocks.get r (clock 0) s.storage key).0

  -- No key, or two or more.
  pub storage-execute_get_many :
      (clock : ℕ → Reading) (s : Server r) (keys : List Bytes) (w : ResponseWriter)
      → length keys ≢ 1
      → (execute r clock s (get keys) w).0.storage ≡ (Rocks.get_multi r clock s.storage keys).1
  unfolding execute handle_get multi_key
  storage-execute_get_many clock s [] w ne =
      storage-get_many _ w (Rocks.get_multi r clock s.storage []).0
  storage-execute_get_many clock s (key ∷ []) w ne = absurd (ne refl)
  storage-execute_get_many clock s (key ∷ other ∷ keys) w ne =
      storage-get_many _ w (Rocks.get_multi r clock s.storage (key ∷ other ∷ keys)).0

  storage-delete_done :
      (s : Server r) (w : ResponseWriter) (o : Result Bool (StorageError r.Error))
      → (delete_done r s w o).0.storage ≡ s.storage
  unfolding delete_done failed
  storage-delete_done s w (ok true) = refl
  storage-delete_done s w (ok false) = refl
  storage-delete_done s w (err e) = refl

  pub storage-execute-delete :
      (clock : ℕ → Reading) (s : Server r) (key : Bytes) (noreply : Bool) (w : ResponseWriter)
      → (execute r clock s (delete key noreply) w).0.storage ≡ (Rocks.delete r s.storage key).1
  unfolding execute handle_delete
  storage-execute-delete clock s key noreply w =
      storage-delete_done _ w (Rocks.delete r s.storage key).0

module _ (r : RocksDb) ⦃b : BytesMut⦄ (laws : IsBuffer b) ⦃i : Itoa⦄ where
  pub buffer-execute-set :
      (clock : ℕ → Reading) (s : Server r) (w : ResponseWriter) (key payload : Bytes)
      (flags exptime : ℕ) (noreply : Bool)
      → (Rocks.set r s.storage key (new_value (clock 0) flags exptime payload)).0 ≡ ok tt
      → buffer (execute r clock s (set key flags exptime payload noreply) w).1
        ≡ buffer w ++ (codes "STORED" ++ crlf)
  unfolding execute handle_set set_done
  buffer-execute-set clock s w key payload flags exptime noreply done =
      rw done (buffer-stored laws w)

  pub buffer-execute-delete :
      (clock : ℕ → Reading) (s : Server r) (w : ResponseWriter) (key : Bytes)
      (noreply existed : Bool)
      → (Rocks.delete r s.storage key).0 ≡ ok existed
      → buffer (execute r clock s (delete key noreply) w).1 ≡ buffer w ++ found_reply existed
  unfolding execute handle_delete delete_done
  buffer-execute-delete clock s w key noreply true done = rw done (buffer-deleted laws w)
  buffer-execute-delete clock s w key noreply false done = rw done (buffer-not_found laws w)

  pub buffer-execute-version :
      (clock : ℕ → Reading) (s : Server r) (w : ResponseWriter)
      → buffer (execute r clock s version w).1
        ≡ buffer w ++ (codes "VERSION petracache 0.1.0" ++ crlf)
  unfolding execute handle_version Response.version
  buffer-execute-version clock s w = simp (laws.contents-extend, append_assoc)
