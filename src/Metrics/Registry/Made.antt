-- ===== src/Metrics/Registry/Made.antt =====
-- The metrics are made, each with its name.
use petracache.Base.{[], codes, refl, ◌≡◌}
use petracache.Crates.Prometheus.{Prometheus, IsPrometheus, IsNamed, is_metric_name, increasing}
use petracache.Metrics.Registry.{Metrics, latency_buckets, make}
use petracache.Metrics.Registry.Steps.{Returns}

module _ (p : Prometheus) (laws : IsPrometheus p) where
  -- Each metric has its name.
  pub record IsMade (m : Metrics p) : Type 0 where
    pub registry_empty : p.names m.registry ≡ []
    pub cmd_get_named :
        IsNamed p.names p.register_counter (codes "petracache_cmd_get_total") m.cmd_get
    pub cmd_set_named :
        IsNamed p.names p.register_counter (codes "petracache_cmd_set_total") m.cmd_set
    pub cmd_add_named :
        IsNamed p.names p.register_counter (codes "petracache_cmd_add_total") m.cmd_add
    pub cmd_replace_named :
        IsNamed p.names p.register_counter (codes "petracache_cmd_replace_total") m.cmd_replace
    pub cmd_delete_named :
        IsNamed p.names p.register_counter (codes "petracache_cmd_delete_total") m.cmd_delete
    pub cmd_incr_named :
        IsNamed p.names p.register_counter (codes "petracache_cmd_incr_total") m.cmd_incr
    pub cmd_decr_named :
        IsNamed p.names p.register_counter (codes "petracache_cmd_decr_total") m.cmd_decr
    pub cmd_touch_named :
        IsNamed p.names p.register_counter (codes "petracache_cmd_touch_total") m.cmd_touch
    pub cmd_flush_named :
        IsNamed p.names p.register_counter (codes "petracache_cmd_flush_total") m.cmd_flush
    pub get_hits_named :
        IsNamed p.names p.register_counter (codes "petracache_get_hits_total") m.get_hits
    pub get_misses_named :
        IsNamed p.names p.register_counter (codes "petracache_get_misses_total") m.get_misses
    pub active_connections_named :
        IsNamed p.names p.register_gauge
          (codes "petracache_active_connections")
          m.active_connections
    pub total_connections_named :
        IsNamed p.names p.register_counter
          (codes "petracache_connections_total")
          m.total_connections
    pub rejected_connections_named :
        IsNamed p.names p.register_counter
          (codes "petracache_rejected_connections_total")
          m.rejected_connections
    pub bytes_read_named :
        IsNamed p.names p.register_counter (codes "petracache_bytes_read_total") m.bytes_read
    pub bytes_written_named :
        IsNamed p.names p.register_counter (codes "petracache_bytes_written_total") m.bytes_written
    pub cmd_latency_named :
        IsNamed p.names p.register_histogram (codes "petracache_cmd_latency_seconds") m.cmd_latency
    pub protocol_errors_named :
        IsNamed p.names p.register_counter
          (codes "petracache_protocol_errors_total")
          m.protocol_errors
    pub storage_errors_named :
        IsNamed p.names p.register_counter
          (codes "petracache_storage_errors_total")
          m.storage_errors

  pub make-IsMade : Returns IsMade (make p)
  unfolding make is_metric_name increasing
  make-IsMade =
      let (m0, e0, n0) =
        laws.int_counter_lem (codes "petracache_cmd_get_total") (codes "Total GET commands") refl
          refl in
      let (m1, e1, n1) =
        laws.int_counter_lem (codes "petracache_cmd_set_total") (codes "Total SET commands") refl
          refl in
      let (m2, e2, n2) =
        laws.int_counter_lem (codes "petracache_cmd_add_total") (codes "Total ADD commands") refl
          refl in
      let (m3, e3, n3) =
        laws.int_counter_lem (codes "petracache_cmd_replace_total") (codes "Total REPLACE commands")
          refl refl in
      let (m4, e4, n4) =
        laws.int_counter_lem (codes "petracache_cmd_delete_total") (codes "Total DELETE commands")
          refl refl in
      let (m5, e5, n5) =
        laws.int_counter_lem (codes "petracache_cmd_incr_total") (codes "Total INCR commands") refl
          refl in
      let (m6, e6, n6) =
        laws.int_counter_lem (codes "petracache_cmd_decr_total") (codes "Total DECR commands") refl
          refl in
      let (m7, e7, n7) =
        laws.int_counter_lem (codes "petracache_cmd_touch_total") (codes "Total TOUCH commands")
          refl refl in
      let (m8, e8, n8) =
        laws.int_counter_lem (codes "petracache_cmd_flush_total") (codes "Total FLUSH_ALL commands")
          refl refl in
      let (m9, e9, n9) =
        laws.int_counter_lem (codes "petracache_get_hits_total") (codes "Total GET hits") refl
          refl in
      let (m10, e10, n10) =
        laws.int_counter_lem (codes "petracache_get_misses_total") (codes "Total GET misses") refl
          refl in
      let (m11, e11, n11) =
        laws.int_gauge_lem (codes "petracache_active_connections")
          (codes "Current active connections") refl refl in
      let (m12, e12, n12) =
        laws.int_counter_lem (codes "petracache_connections_total")
          (codes "Total connections accepted") refl refl in
      let (m13, e13, n13) =
        laws.int_counter_lem (codes "petracache_rejected_connections_total")
          (codes "Total connections rejected") refl refl in
      let (m14, e14, n14) =
        laws.int_counter_lem (codes "petracache_bytes_read_total") (codes "Total bytes read") refl
          refl in
      let (m15, e15, n15) =
        laws.int_counter_lem (codes "petracache_bytes_written_total") (codes "Total bytes written")
          refl refl in
      let (m16, e16, n16) =
        laws.histogram_lem (codes "petracache_cmd_latency_seconds")
          (codes "Command latency in seconds") latency_buckets refl refl refl in
      let (m17, e17, n17) =
        laws.int_counter_lem (codes "petracache_protocol_errors_total")
          (codes "Total protocol errors") refl refl in
      let (m18, e18, n18) =
        laws.int_counter_lem (codes "petracache_storage_errors_total")
          (codes "Total storage errors") refl refl in
      rw (e0, e1, e2, e3, e4, e5, e6, e7, e8, e9, e10, e11, e12, e13, e14, e15, e16, e17, e18)
        (search (laws.names-registry))
