-- ===== src/Server/Cache/Execution.antt =====
-- A command executed by the handlers, beside what the cache promises of it.
use petracache.Base.{
  append-nil, Bool, Bytes, List, Option, [], ap, arith, codes, false, none, refl, some, sym, true,
  ℕ, ◌++◌, ◌∙◌, ◌∷◌, ◌≡◌, ◌≤◌,
}
use mathlib.Core.Path.{subst}
use petracache.Result.{ok}
use petracache.Rust.Integer.{max_u32, max_u64}
use petracache.Crates.RocksDb.{RocksDb, IsMap, IsReliable}
use petracache.Crates.BytesMut.{BytesMut, IsBuffer}
use petracache.Crates.Itoa.{Itoa}
use petracache.Protocol.Command.{Command, get, set, delete, version, quit}
use petracache.Protocol.Response.{ResponseWriter, buffer}
use petracache.Protocol.Response.Contents.{crlf}
use petracache.Protocol.Parser.Sound.{IsWellFormed}
use petracache.Storage.Value.{StoredValue, Reading, encode, new_value, calculate_expire_at}
use petracache.Storage.Value.Codec.{IsStored}
use petracache.Storage.Rocks
use petracache.Storage.Rocks.{RocksStorage}
use petracache.Server.Handler.{Server, execute}
use petracache.Server.Handler.Effects.{
  storage-execute_get_one, storage-execute_get_many, storage-execute-delete, buffer-execute-set,
  buffer-execute-delete, buffer-execute-version, found_reply,
}
use petracache.Server.Handler.Reply.{render, get_reply, buffer-execute_get}
use petracache.Server.Handler.SetGet.{storage-execute-set}
use petracache.Server.Cache.{Cache, deleted, erase, late, lookup, behind, reply}
use petracache.Server.Cache.Entries.{
  entry, Holds, Holds-set, Holds-delete, views-eq-lookup, get_multi-Holds, get-Holds,
}

new_value-IsStored :
    (now : Reading) (flags exptime : ℕ) (payload : Bytes)
    → flags ≤ max_u32
    → exptime ≤ max_u64
    → IsStored (new_value now flags exptime payload)
unfolding new_value calculate_expire_at
new_value-IsStored now flags exptime payload hf ht = record {
  expire_at_u64 = ground arith;
  flags_u32 = omega arith;
}

module _ (r : RocksDb) (map_laws : IsMap r) (reliable : IsReliable r) ⦃b : BytesMut⦄
    (laws : IsBuffer b) ⦃i : Itoa⦄ where
  -- The reply was written, and the database has what the cache has behind the command.
  abbrev pub Executes :
      (ℕ → Reading) → Cache → Command → ResponseWriter → Server r × ResponseWriter → Type 0
  Executes clock m cmd w o =
      (buffer o.1 ≡ buffer w ++ reply clock m cmd)
      × Holds r map_laws reliable o.0.storage.db (behind clock m cmd)

  -- Equal stores hold the same.
  Holds-storage :
      (m : Cache) (s t : RocksStorage r)
      → s ≡ t
      → Holds r map_laws reliable t.db m
      → Holds r map_laws reliable s.db m
  Holds-storage m s t e h = subst (λ u. Holds r map_laws reliable u.db m) (sym e) h

  get-Executes :
      (clock : ℕ → Reading) (s : Server r) (m : Cache) (keys : List Bytes) (w : ResponseWriter)
      → Holds r map_laws reliable s.storage.db m
      → Holds r map_laws reliable
          (execute r clock s (get keys) w).0.storage.db
          (erase (late clock 0 m keys) m)
  get-Executes clock s m [] w h =
      Holds-storage _ _ _ (storage-execute_get_many r clock s [] w (λ e. omega arith))
        (get_multi-Holds r map_laws reliable clock s.storage m [] h)
  get-Executes clock s m (key ∷ []) w h =
      Holds-storage _ _ _ (storage-execute_get_one r clock s key w)
        (get-Holds r map_laws reliable clock s.storage m key h)
  get-Executes clock s m (key ∷ other ∷ keys) w h =
      Holds-storage _ _ _
        (storage-execute_get_many r clock s (key ∷ other ∷ keys) w (λ e. omega arith))
        (get_multi-Holds r map_laws reliable clock s.storage m (key ∷ other ∷ keys) h)

  set_succeeds :
      (s : RocksStorage r) (key : Bytes) (v : StoredValue) → (Rocks.set r s key v).0 ≡ ok tt
  unfolding Rocks.set
  set_succeeds s key v = rw (reliable.put_succeeds s.db key (encode v)) refl

  is_there : Option StoredValue → Bool
  is_there none = false
  is_there (some v) = true

  delete_succeeds :
      (s : RocksStorage r) (key : Bytes) (o : Option StoredValue)
      → r.get s.db key ≡ ok (entry o)
      → Rocks.delete r s key ≡ (ok (is_there o), record s { db = (r.delete_opt s.db key).1 })
  unfolding Rocks.delete Rocks.delete_raw Rocks.delete_found is_there
  delete_succeeds s key none e = rw (e, reliable.delete_succeeds s.db key) refl
  delete_succeeds s key (some v) e = rw (e, reliable.delete_succeeds s.db key) refl

  deleted_reply : (o : Option StoredValue) → found_reply (is_there o) ≡ deleted o
  unfolding is_there deleted
  deleted_reply none = refl
  deleted_reply (some v) = refl

  -- A well-formed command that is executed over a database that has the entries of a cache
  -- replies what the cache promises, and leaves a database that has the entries of the cache
  -- behind the command: with the expired entries that a get has met taken out, with the value of
  -- a set, or without the key of a delete; the database behaves as a map and its writes succeed,
  -- and the buffer follows its laws.
  pub execute-Executes :
      (clock : ℕ → Reading) (s : Server r) (m : Cache) (cmd : Command) (w : ResponseWriter)
      → IsWellFormed cmd
      → Holds r map_laws reliable s.storage.db m
      → Executes clock m cmd w (execute r clock s cmd w)
  unfolding reply behind
  execute-Executes clock s m (get keys) w formed h = (
    buffer-execute_get r map_laws laws clock s keys w
        ∙ ap (λ o. buffer w ++ get_reply r o)
            (views-eq-lookup r map_laws reliable clock 0 s.storage.db m keys h)
        ∙ rendered (lookup clock 0 m keys),
    get-Executes clock s m keys w h,
  )
    where
      rendered :
          (results : List (Bytes × Option StoredValue))
          → buffer w ++ get_reply r (ok results)
            ≡ buffer w ++ (render results ++ (codes "END" ++ crlf))
      rendered results = unfold get_reply in refl
  execute-Executes clock s m (set key flags exptime payload noreply) w (valid, hf, ht) h =
      let v = new_value (clock 0) flags exptime payload in
      (
        buffer-execute-set r laws clock s w key payload flags exptime noreply
            (set_succeeds s.storage key v),
        Holds-storage _ _ _ (storage-execute-set r clock s w key payload flags exptime noreply) (
            unfold Rocks.set in
            Holds-set r map_laws reliable s.storage.db m key v
              (new_value-IsStored (clock 0) flags exptime payload hf ht) h),
      )
  execute-Executes clock s m (delete key noreply) w formed h =
      let done = delete_succeeds s.storage key (m key) (h key).0 in
      (
        buffer-execute-delete r laws clock s w key noreply (is_there (m key)) (ap (λ o. o.0) done)
            ∙ ap (λ l. buffer w ++ l) (deleted_reply (m key)),
        Holds-storage _ _ _ (storage-execute-delete r clock s key noreply w ∙ ap (λ o. o.1) done)
            (Holds-delete r map_laws reliable s.storage.db m key h),
      )
  execute-Executes clock s m version w formed h =
      (buffer-execute-version r laws clock s w, unfold execute in h)
  execute-Executes clock s m quit w formed h =
      (unfold execute in sym (append-nil (buffer w)), unfold execute in h)
