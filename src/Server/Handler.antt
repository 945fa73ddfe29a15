-- ===== src/Server/Handler.antt =====
-- src/server/handler.rs: the execution of a parsed command against the store. Each handler returns
-- the server behind the call and the writer. `clock i` is the reading of the clock at the place `i`
-- of the command's keys.
pub mod Reply
pub mod GaugeCalls
pub mod Agreement
pub mod SetGet
pub mod Effects
pub mod Lookups
pub mod CommandCalls
use petracache.Base.{Bool, Bytes, List, Option, [], codes, false, none, some, true, ℕ, ◌∷◌}
use petracache.Error.{StorageError, storage_message}
use petracache.Result.{Result, ok, err}
use petracache.Crates.RocksDb.{RocksDb}
use petracache.Crates.BytesMut.{BytesMut}
use petracache.Crates.Itoa.{Itoa}
use petracache.Metrics.{
  Metric, MetricCall, inc, cmd_get, cmd_set, cmd_delete, get_hits, get_misses, storage_errors,
}
use petracache.Protocol.Command.{Command, get, set, delete, version, quit}
use petracache.Protocol.Response
use petracache.Protocol.Response.{ResponseWriter}
use petracache.Storage.Value.{StoredValue, Reading, new_value}
use petracache.Storage.Rocks
use petracache.Storage.Rocks.{RocksStorage}

-- The name and the version of the package.
abbrev pub package_version : Bytes
package_version = codes "petracache 0.1.0"

module _ (r : RocksDb) ⦃b : BytesMut⦄ ⦃i : Itoa⦄ where
  pub record Server : Type 0 where
    pub storage : RocksStorage r
    pub metrics : List MetricCall

  abbrev pub count : Server → Metric → Server
  count s m = record s { metrics = inc m ∷ s.metrics }

  abbrev pub Handled : Type 0
  Handled = Server × ResponseWriter

  -- A storage error is counted and told to the client.
  failed : Server → ResponseWriter → StorageError r.Error → Handled
  failed s w e = (count s storage_errors, Response.server_error w (storage_message r.show_error e))

  handle_version : Server → ResponseWriter → Handled
  handle_version s w = (s, Response.version w package_version)

  -- The fast path of `handle_get`, for one key.
  get_one :
      Bytes → Server → ResponseWriter → Result (Option StoredValue) (StorageError r.Error) → Handled
  unfolding failed
  get_one key s w (err e) = failed s w e
  get_one key s w (ok none) = (count s get_misses, Response.end w)
  get_one key s w (ok (some v)) =
      (count s get_hits, Response.end (Response.value w key v.flags v.payload))

  -- `for (key, value_opt) in results`
  write_results : Server → ResponseWriter → List (Bytes × Option StoredValue) → Handled
  write_results s w [] = (s, w)
  write_results s w ((key, none) ∷ results) = write_results (count s get_misses) w results
  write_results s w ((key, some v) ∷ results) =
      write_results (count s get_hits) (Response.value w key v.flags v.payload) results

  get_many :
      Server
      → ResponseWriter
      → Result (List (Bytes × Option StoredValue)) (StorageError r.Error)
      → Handled
  unfolding failed write_results
  get_many s w (err e) = failed s w e
  get_many s w (ok results) = let (s', w') = write_results s w results in (s', Response.end w')

  multi_key : (ℕ → Reading) → Server → List Bytes → ResponseWriter → Handled
  unfolding get_many
  multi_key clock s keys w =
      let (outcome, storage') = Rocks.get_multi r clock s.storage keys in
      get_many (record s { storage = storage' }) w outcome

  handle_get : (ℕ → Reading) → Server → List Bytes → ResponseWriter → Handled
  unfolding get_one multi_key
  handle_get clock s (key ∷ []) w =
      let (outcome, storage') = Rocks.get r (clock 0) s.storage key in
      get_one key (record s { storage = storage' }) w outcome
  handle_get clock s [] w = multi_key clock s [] w
  handle_get clock s (key ∷ other ∷ keys) w = multi_key clock s (key ∷ other ∷ keys) w

  set_done : Server → ResponseWriter → Result (Unit {0}) (StorageError r.Error) → Handled
  unfolding failed
  set_done s w (ok u) = (s, Response.stored w)
  set_done s w (err e) = failed s w e

  handle_set : Reading → Server → Bytes → ℕ → ℕ → Bytes → ResponseWriter → Handled
  unfolding set_done
  handle_set now s key flags exptime payload w =
      let (outcome, storage') = Rocks.set r s.storage key (new_value now flags exptime payload) in
      set_done (record s { storage = storage' }) w outcome

  delete_done : Server → ResponseWriter → Result Bool (StorageError r.Error) → Handled
  unfolding failed
  delete_done s w (ok true) = (s, Response.deleted w)
  delete_done s w (ok false) = (s, Response.not_found w)
  delete_done s w (err e) = failed s w e

  handle_delete : Server → Bytes → ResponseWriter → Handled
  unfolding delete_done
  handle_delete s key w =
      let (outcome, storage') = Rocks.delete r s.storage key in
      delete_done (record s { storage = storage' }) w outcome

  unfoldable pub execute : (ℕ → Reading) → Server → Command → ResponseWriter → Handled
  unfolding handle_get handle_set handle_delete handle_version
  execute clock s (get keys) w = handle_get clock (count s cmd_get) keys w
  execute clock s (set key flags exptime payload noreply) w =
      handle_set (clock 0) (count s cmd_set) key flags exptime payload w
  execute clock s (delete key noreply) w = handle_delete (count s cmd_delete) key w
  execute clock s version w = handle_version s w
  execute clock s quit w = (s, w)
