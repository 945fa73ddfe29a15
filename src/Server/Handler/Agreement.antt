-- ===== src/Server/Handler/Agreement.antt =====
-- What a command does depends on the store alone, not on the metrics.
use petracache.Base.{Bool, Bytes, List, Option, [], false, none, refl, some, true, ℕ, ◌∷◌, ◌≡◌, ap}
use petracache.Error.{StorageError}
use petracache.Result.{Result, ok, err}
use petracache.Crates.RocksDb.{RocksDb}
use petracache.Crates.BytesMut.{BytesMut}
use petracache.Crates.Itoa.{Itoa}
use petracache.Metrics.{
  cmd_delete, cmd_set, cmd_get, besides_reads, inc, Metric, storage_errors, get_hits, get_misses,
}
use petracache.Protocol.Command.{Command, get, set, delete, version, quit}
use petracache.Protocol.Response
use petracache.Protocol.Response.{ResponseWriter}
use petracache.Storage.Value.{StoredValue, Reading, new_value}
use petracache.Storage.Rocks
use petracache.Server.Handler.{
  Server, count, execute, handle_get, get_one, get_many, multi_key, write_results, failed, set_done,
  delete_done, handle_set, handle_delete, handle_version,
}

module _ (r : RocksDb) ⦃b : BytesMut⦄ ⦃i : Itoa⦄ where
  -- The servers have the same store and the same metrics, but for the bytes read.
  unfoldable pub Agree : Server r → Server r → Type 0
  Agree s t = (s.storage ≡ t.storage) × (besides_reads s.metrics ≡ besides_reads t.metrics)

  -- The writers are the same too.
  unfoldable pub Agrees : Server r × ResponseWriter → Server r × ResponseWriter → Type 0
  unfolding Agree
  Agrees x y = Agree x.0 y.0 × (x.1 ≡ y.1)

  Agree-count : (s t : Server r) (k : Metric) → Agree s t → Agree (count r s k) (count r t k)
  unfolding Agree besides_reads
  Agree-count s t k (e, calls) = (e, ap (λ l. inc k ∷ l) calls)

  get_one-Agrees :
      (key : Bytes) (s t : Server r) (w : ResponseWriter)
      (outcome : Result (Option StoredValue) (StorageError r.Error))
      → Agree s t
      → Agrees (get_one r key s w outcome) (get_one r key t w outcome)
  unfolding get_one failed Agrees
  get_one-Agrees key s t w (err e) h = (Agree-count s t storage_errors h, refl)
  get_one-Agrees key s t w (ok none) h = (Agree-count s t get_misses h, refl)
  get_one-Agrees key s t w (ok (some v)) h = (Agree-count s t get_hits h, refl)

  write_results-Agrees :
      (s t : Server r) (w : ResponseWriter) (results : List (Bytes × Option StoredValue))
      → Agree s t
      → Agrees (write_results r s w results) (write_results r t w results)
  unfolding write_results Agrees
  write_results-Agrees s t w [] h = (h, refl)
  write_results-Agrees s t w ((key, none) ∷ results) h =
      write_results-Agrees (count r s get_misses) (count r t get_misses) w results
        (Agree-count s t get_misses h)
  write_results-Agrees s t w ((key, some v) ∷ results) h =
      write_results-Agrees (count r s get_hits) (count r t get_hits)
        (Response.value w key v.flags v.payload) results (Agree-count s t get_hits h)

  get_many-Agrees :
      (s t : Server r) (w : ResponseWriter)
      (outcome : Result (List (Bytes × Option StoredValue)) (StorageError r.Error))
      → Agree s t
      → Agrees (get_many r s w outcome) (get_many r t w outcome)
  unfolding get_many failed Agrees
  get_many-Agrees s t w (err e) h = (Agree-count s t storage_errors h, refl)
  get_many-Agrees s t w (ok results) h =
      let (same, written) = write_results-Agrees s t w results h in (same, ap Response.end written)

  multi_key-Agrees :
      (clock : ℕ → Reading) (s t : Server r) (keys : List Bytes) (w : ResponseWriter)
      → Agree s t
      → Agrees (multi_key r clock s keys w) (multi_key r clock t keys w)
  unfolding multi_key Agree
  multi_key-Agrees clock s t keys w (e, calls) =
      let o = Rocks.get_multi r clock t.storage keys in
      rw e (
        get_many-Agrees (record s { storage = o.1 }) (record t { storage = o.1 }) w o.0
          (refl, calls))

  handle_get-Agrees :
      (clock : ℕ → Reading) (s t : Server r) (keys : List Bytes) (w : ResponseWriter)
      → Agree s t
      → Agrees (handle_get r clock s keys w) (handle_get r clock t keys w)
  unfolding handle_get Agree
  handle_get-Agrees clock s t [] w h = multi_key-Agrees clock s t [] w h
  handle_get-Agrees clock s t (key ∷ []) w (e, calls) =
      let o = Rocks.get r (clock 0) t.storage key in
      rw e (
        get_one-Agrees key (record s { storage = o.1 }) (record t { storage = o.1 }) w o.0
          (refl, calls))
  handle_get-Agrees clock s t (key ∷ other ∷ keys) w h =
      multi_key-Agrees clock s t (key ∷ other ∷ keys) w h

  set_done-Agrees :
      (s t : Server r) (w : ResponseWriter) (outcome : Result (Unit {0}) (StorageError r.Error))
      → Agree s t
      → Agrees (set_done r s w outcome) (set_done r t w outcome)
  unfolding set_done failed Agrees
  set_done-Agrees s t w (ok u) h = (h, refl)
  set_done-Agrees s t w (err e) h = (Agree-count s t storage_errors h, refl)

  delete_done-Agrees :
      (s t : Server r) (w : ResponseWriter) (outcome : Result Bool (StorageError r.Error))
      → Agree s t
      → Agrees (delete_done r s w outcome) (delete_done r t w outcome)
  unfolding delete_done failed Agrees
  delete_done-Agrees s t w (ok true) h = (h, refl)
  delete_done-Agrees s t w (ok false) h = (h, refl)
  delete_done-Agrees s t w (err e) h = (Agree-count s t storage_errors h, refl)

  handle_set-Agrees :
      (now : Reading) (s t : Server r) (key : Bytes) (flags exptime : ℕ) (payload : Bytes)
      (w : ResponseWriter)
      → Agree s t
      → Agrees
          (handle_set r now s key flags exptime payload w)
          (handle_set r now t key flags exptime payload w)
  unfolding handle_set Agree
  handle_set-Agrees now s t key flags exptime payload w (e, calls) =
      let o = Rocks.set r t.storage key (new_value now flags exptime payload) in
      rw e (
        set_done-Agrees (record s { storage = o.1 }) (record t { storage = o.1 }) w o.0
          (refl, calls))

  handle_delete-Agrees :
      (s t : Server r) (key : Bytes) (w : ResponseWriter)
      → Agree s t
      → Agrees (handle_delete r s key w) (handle_delete r t key w)
  unfolding handle_delete Agree
  handle_delete-Agrees s t key w (e, calls) =
      let o = Rocks.delete r t.storage key in
      rw e (
        delete_done-Agrees (record s { storage = o.1 }) (record t { storage = o.1 }) w o.0
          (refl, calls))

  -- Servers that agree are taken by a command to servers that agree, with the same reply.
  pub execute-Agrees :
      (clock : ℕ → Reading) (s t : Server r) (cmd : Command) (w : ResponseWriter)
      → Agree s t
      → Agrees (execute r clock s cmd w) (execute r clock t cmd w)
  unfolding execute handle_version Agrees
  execute-Agrees clock s t (get keys) w h =
      handle_get-Agrees clock _ _ keys w (Agree-count s t cmd_get h)
  execute-Agrees clock s t (set key flags exptime payload noreply) w h =
      handle_set-Agrees (clock 0) _ _ key flags exptime payload w (Agree-count s t cmd_set h)
  execute-Agrees clock s t (delete key noreply) w h =
      handle_delete-Agrees _ _ key w (Agree-count s t cmd_delete h)
  execute-Agrees clock s t version w h = (h, refl)
  execute-Agrees clock s t quit w h = (h, refl)
