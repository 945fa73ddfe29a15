-- ===== src/Server/Handler/SetGet.antt =====
-- A set and a later get, by their replies.
use petracache.Base.{
  Bool, Bytes, [], ap, append-nil, codes, false, if◌then◌else◌, none, refl, some, sym, true, ℕ,
  ◌++◌, ◌+◌, ◌<◌, ◌^◌, ◌∙◌, ◌∷◌, ◌≡◌, ◌≤◌,
}
use petracache.Error.{StorageError}
use petracache.Result.{Result, ok, err}
use petracache.Rust.Integer.{max_u64}
use petracache.Crates.RocksDb.{RocksDb, IsMap}
use petracache.Crates.BytesMut.{BytesMut, IsBuffer}
use petracache.Crates.Itoa.{Itoa}
use petracache.Protocol.Command.{get, set}
use petracache.Protocol.Response.{ResponseWriter, buffer}
use petracache.Protocol.Response.Contents.{crlf, value_block}
use petracache.Storage.Value.{Reading, max_relative_ttl, new_value}
use petracache.Storage.Value.Expiry.{deadline, past}
use petracache.Storage.Rocks
use petracache.Storage.Rocks.{RocksStorage}
use petracache.Storage.Rocks.View.{view, views, add_view, get-eq-view}
use petracache.Storage.Rocks.Ttl.{get-set_ttl}
use petracache.Server.Handler.{Server, execute, handle_set, set_done, failed}
use petracache.Server.Handler.Reply.{render, get_reply, buffer-execute_get}

module _ (r : RocksDb) ⦃b : BytesMut⦄ ⦃i : Itoa⦄ where
  storage-set_done :
      (s : Server r) (w : ResponseWriter) (o : Result (Unit {0}) (StorageError r.Error))
      → (set_done r s w o).0.storage ≡ s.storage
  unfolding set_done failed
  storage-set_done s w (ok u) = refl
  storage-set_done s w (err e) = refl

  -- A set leaves the storage that the store's own set leaves.
  pub storage-execute-set :
      (clock : ℕ → Reading) (s : Server r) (w : ResponseWriter) (key payload : Bytes)
      (flags exptime : ℕ) (noreply : Bool)
      → (execute r clock s (set key flags exptime payload noreply) w).0.storage
        ≡ (Rocks.set r s.storage key (new_value (clock 0) flags exptime payload)).1
  unfolding execute handle_set
  storage-execute-set clock s w key payload flags exptime noreply =
      storage-set_done _ w (Rocks.set r s.storage key (new_value (clock 0) flags exptime payload)).0

module _ (r : RocksDb) (map_laws : IsMap r) ⦃b : BytesMut⦄ (laws : IsBuffer b) ⦃i : Itoa⦄ where
  -- Over a database that behaves as a map, the value of a set at the second t that succeeded is
  -- what a get of its key at the second u replies, until the deadline of its expiration time;
  -- from then on the reply is END alone; the clock at t leaves room for 30 days below the largest
  -- u64, and flags and expiration time fit their types.
  pub get-execute-set :
      (s : Server r) (w w' : ResponseWriter) (key payload : Bytes) (t u flags exptime : ℕ)
      (noreply : Bool)
      → t + max_relative_ttl ≤ max_u64
      → flags < 2 ^ 32
      → exptime < 2 ^ 64
      → (Rocks.set r s.storage key (new_value (some t) flags exptime payload)).0 ≡ ok tt
      → buffer
          (execute r
            (λ k. some u)
            (execute r (λ k. some t) s (set key flags exptime payload noreply) w).0
            (get (key ∷ []))
            w').1
        ≡ buffer w'
          ++ ((if past (deadline t exptime) u then [] else value_block key flags payload)
              ++ (codes "END" ++ crlf))
  get-execute-set s w w' key payload t u flags exptime noreply room hf ht done =
      let v = new_value (some t) flags exptime payload in
      let s' = (execute r (λ k. some t) s (set key flags exptime payload noreply) w).0 in
      buffer-execute_get r map_laws laws (λ k. some u) s' (key ∷ []) w'
      ∙ ap (λ o. buffer w' ++ get_reply r o)
          (one_view s'
            ∙ ap (λ o. add_view r key o (ok []))
                (sym (get-eq-view r (some u) s'.storage key)
                  ∙ ap (λ storage. (Rocks.get r (some u) storage key).0)
                      (storage-execute-set r (λ k. some t) s w key payload flags exptime noreply)
                  ∙ get-set_ttl r map_laws s.storage key payload t u flags exptime room hf ht done))
      ∙ rendered (past (deadline t exptime) u)
    where
      one_view :
          (s' : Server r)
          → views r (λ k. some u) 0 s'.storage.db (key ∷ [])
            ≡ add_view r key (view r (some u) s'.storage.db key) (ok [])
      one_view s' = unfold views in refl

      rendered :
          (gone : Bool)
          → buffer w'
              ++ get_reply r (
                  add_view r key
                    (ok (if gone then none else some (new_value (some t) flags exptime payload)))
                    (ok []))
            ≡ buffer w'
              ++ ((if gone then [] else value_block key flags payload) ++ (codes "END" ++ crlf))
      rendered true = unfold get_reply render add_view in refl
      rendered false =
          unfold get_reply render add_view new_value in
          ap (λ block. buffer w' ++ (block ++ (codes "END" ++ crlf)))
            (append-nil (value_block key flags payload))
