-- ===== src/Metrics/Registry/Names.antt =====
-- The metrics are made and registered without a panic.
use petracache.Base.{ap, true, ◌∙◌, Bytes, List, [], bytes_eq, codes, refl, ◌∷◌, ◌≡◌}
use petracache.Result.{Result, ok}
use petracache.Crates.Prometheus.{IsNamed, Prometheus, IsPrometheus, is_new}
use petracache.Metrics.Registry.{Metrics, make, register_all, new}
use petracache.Metrics.Registry.Steps.{Returns, Returns-bind}
use petracache.Metrics.Registry.Made.{IsMade, make-IsMade}

abbrev pub metric_names : List Bytes
metric_names =
    codes "petracache_storage_errors_total"
    ∷ codes "petracache_protocol_errors_total"
    ∷ codes "petracache_cmd_latency_seconds"
    ∷ codes "petracache_bytes_written_total"
    ∷ codes "petracache_bytes_read_total"
    ∷ codes "petracache_rejected_connections_total"
    ∷ codes "petracache_connections_total"
    ∷ codes "petracache_active_connections"
    ∷ codes "petracache_get_misses_total"
    ∷ codes "petracache_get_hits_total"
    ∷ codes "petracache_cmd_flush_total"
    ∷ codes "petracache_cmd_touch_total"
    ∷ codes "petracache_cmd_decr_total"
    ∷ codes "petracache_cmd_incr_total"
    ∷ codes "petracache_cmd_delete_total"
    ∷ codes "petracache_cmd_replace_total"
    ∷ codes "petracache_cmd_add_total"
    ∷ codes "petracache_cmd_set_total"
    ∷ codes "petracache_cmd_get_total"
    ∷ []

-- A metric of a name that the registry does not hold is registered.
registered :
    {M R E : Type 0} (names : R → List Bytes) (register : R → M → Result R E) {name : Bytes} {m : M}
    {held : R} {taken : List Bytes}
    → IsNamed names register name m
    → names held ≡ taken
    → is_new name taken ≡ true
    → (now : R) × (register held m ≡ ok now) × (names now ≡ name ∷ taken)
registered names register {name} {held = held} named e fresh =
    let (now, done, grown) = named held (rw e fresh) in (now, done, grown ∙ ap (λ l. name ∷ l) e)

module _ (p : Prometheus) (laws : IsPrometheus p) where
  abbrev HasNames : p.Registry → Type 0
  HasNames held = p.names held ≡ metric_names

  register_all-HasNames : (m : Metrics p) → IsMade p laws m → Returns HasNames (register_all p m)
  unfolding register_all is_new bytes_eq
  register_all-HasNames m v =
      let (r0, e0, g0) =
        registered p.names p.register_counter v.cmd_get_named v.registry_empty refl in
      let (r1, e1, g1) = registered p.names p.register_counter v.cmd_set_named g0 refl in
      let (r2, e2, g2) = registered p.names p.register_counter v.cmd_add_named g1 refl in
      let (r3, e3, g3) = registered p.names p.register_counter v.cmd_replace_named g2 refl in
      let (r4, e4, g4) = registered p.names p.register_counter v.cmd_delete_named g3 refl in
      let (r5, e5, g5) = registered p.names p.register_counter v.cmd_incr_named g4 refl in
      let (r6, e6, g6) = registered p.names p.register_counter v.cmd_decr_named g5 refl in
      let (r7, e7, g7) = registered p.names p.register_counter v.cmd_touch_named g6 refl in
      let (r8, e8, g8) = registered p.names p.register_counter v.cmd_flush_named g7 refl in
      let (r9, e9, g9) = registered p.names p.register_counter v.get_hits_named g8 refl in
      let (r10, e10, g10) = registered p.names p.register_counter v.get_misses_named g9 refl in
      let (r11, e11, g11) =
        registered p.names p.register_gauge v.active_connections_named g10 refl in
      let (r12, e12, g12) =
        registered p.names p.register_counter v.total_connections_named g11 refl in
      let (r13, e13, g13) =
        registered p.names p.register_counter v.rejected_connections_named g12 refl in
      let (r14, e14, g14) = registered p.names p.register_counter v.bytes_read_named g13 refl in
      let (r15, e15, g15) = registered p.names p.register_counter v.bytes_written_named g14 refl in
      let (r16, e16, g16) = registered p.names p.register_histogram v.cmd_latency_named g15 refl in
      let (r17, e17, g17) =
        registered p.names p.register_counter v.protocol_errors_named g16 refl in
      let (r18, e18, g18) = registered p.names p.register_counter v.storage_errors_named g17 refl in
      rw (e0, e1, e2, e3, e4, e5, e6, e7, e8, e9, e10, e11, e12, e13, e14, e15, e16, e17, e18) g18

  abbrev HasMetricNames : Metrics p → Type 0
  HasMetricNames m = p.names m.registry ≡ metric_names

  -- None of the unwraps at the making and the registering of the metrics panics, and the registry
  -- then holds the nineteen names; the metrics crate follows its laws.
  pub new-Returns : Returns (λ (m : Metrics p). p.names m.registry ≡ metric_names) (new p)
  unfolding new
  new-Returns = Returns-bind (IsMade p laws) HasMetricNames (make p) _ (make-IsMade p laws) (λ m v.
      Returns-bind HasNames HasMetricNames (register_all p m) _ (register_all-HasNames m v)
        (λ held e. e))
