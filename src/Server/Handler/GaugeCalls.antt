-- ===== src/Server/Handler/GaugeCalls.antt =====
-- No command touches the gauge of the active connections.
use petracache.Base.{Bool, Bytes, List, Option, [], false, none, refl, some, true, ℕ, ◌∷◌, ◌≡◌}
use petracache.Error.{StorageError}
use petracache.Result.{Result, ok, err}
use petracache.Crates.RocksDb.{RocksDb}
use petracache.Crates.BytesMut.{BytesMut}
use petracache.Crates.Itoa.{Itoa}
use petracache.Metrics.{MetricCall, gauge_calls, get_hits, get_misses}
use petracache.Protocol.Command.{Command, get, set, delete, version, quit}
use petracache.Protocol.Response
use petracache.Protocol.Response.{ResponseWriter}
use petracache.Storage.Value.{StoredValue, Reading, new_value}
use petracache.Storage.Rocks
use petracache.Server.Handler.{
  Server, count, execute, handle_get, get_one, get_many, multi_key, write_results, failed, set_done,
  delete_done, handle_set, handle_delete, handle_version,
}

module _ (r : RocksDb) ⦃b : BytesMut⦄ ⦃i : Itoa⦄ where
  abbrev pub gauge : Server r → List MetricCall
  gauge s = gauge_calls s.metrics

  gauge-get_one :
      (key : Bytes) (s : Server r) (w : ResponseWriter)
      (outcome : Result (Option StoredValue) (StorageError r.Error))
      → gauge (get_one r key s w outcome).0 ≡ gauge s
  unfolding get_one gauge_calls failed
  gauge-get_one key s w (err e) = refl
  gauge-get_one key s w (ok none) = refl
  gauge-get_one key s w (ok (some v)) = refl

  gauge-write_results :
      (s : Server r) (w : ResponseWriter) (results : List (Bytes × Option StoredValue))
      → gauge (write_results r s w results).0 ≡ gauge s
  unfolding write_results gauge_calls
  gauge-write_results s w [] = refl
  gauge-write_results s w ((key, none) ∷ results) =
      gauge-write_results (count r s get_misses) w results
  gauge-write_results s w ((key, some v) ∷ results) =
      gauge-write_results (count r s get_hits) (Response.value w key v.flags v.payload) results

  gauge-get_many :
      (s : Server r) (w : ResponseWriter)
      (outcome : Result (List (Bytes × Option StoredValue)) (StorageError r.Error))
      → gauge (get_many r s w outcome).0 ≡ gauge s
  unfolding get_many gauge_calls failed
  gauge-get_many s w (err e) = refl
  gauge-get_many s w (ok results) = gauge-write_results s w results

  gauge-handle_get :
      (clock : ℕ → Reading) (s : Server r) (keys : List Bytes) (w : ResponseWriter)
      → gauge (handle_get r clock s keys w).0 ≡ gauge s
  unfolding handle_get multi_key
  gauge-handle_get clock s [] w = gauge-get_many _ w (Rocks.get_multi r clock s.storage []).0
  gauge-handle_get clock s (key ∷ []) w =
      gauge-get_one key _ w (Rocks.get r (clock 0) s.storage key).0
  gauge-handle_get clock s (key ∷ other ∷ keys) w =
      gauge-get_many _ w (Rocks.get_multi r clock s.storage (key ∷ other ∷ keys)).0

  gauge-set_done :
      (s : Server r) (w : ResponseWriter) (outcome : Result (Unit {0}) (StorageError r.Error))
      → gauge (set_done r s w outcome).0 ≡ gauge s
  unfolding set_done gauge_calls failed
  gauge-set_done s w (ok u) = refl
  gauge-set_done s w (err e) = refl

  gauge-delete_done :
      (s : Server r) (w : ResponseWriter) (outcome : Result Bool (StorageError r.Error))
      → gauge (delete_done r s w outcome).0 ≡ gauge s
  unfolding delete_done gauge_calls failed
  gauge-delete_done s w (ok true) = refl
  gauge-delete_done s w (ok false) = refl
  gauge-delete_done s w (err e) = refl

  -- No command makes a call on the gauge.
  pub gauge-execute :
      (clock : ℕ → Reading) (s : Server r) (cmd : Command) (w : ResponseWriter)
      → gauge (execute r clock s cmd w).0 ≡ gauge s
  unfolding execute handle_set handle_delete handle_version gauge_calls
  gauge-execute clock s (get keys) w = gauge-handle_get clock _ keys w
  gauge-execute clock s (set key flags exptime payload noreply) w =
      gauge-set_done _ w (Rocks.set r s.storage key (new_value (clock 0) flags exptime payload)).0
  gauge-execute clock s (delete key noreply) w =
      gauge-delete_done _ w (Rocks.delete r s.storage key).0
  gauge-execute clock s version w = refl
  gauge-execute clock s quit w = refl
