-- ===== src/Metrics/Registry.antt =====
-- src/metrics.rs: `Metrics::new`, which makes the metrics and registers them, and `gather`.
pub mod Steps
pub mod Made
pub mod Names
use petracache.Base.{
  ==-refl, ==_iff, All, All-append, All-drop, All-take, Bool, Bool-cases, Bytes, IsByte, IsBytes,
  Lacks, List, Option, Option-cases, [], ap, append-nil, append_assoc, arith, bytes_cases, bytes_eq,
  bytes_eq_refl, bytes_eq→eq, codes, drop, drop-append_length, drop-append_of_le, drop-drop, every,
  false, get_elem?, get_elem?-append_left, get_elem?-append_length, get_elem?-lt, get_elem?-none,
  get_elem?-some, if_cases, if◌then◌else◌, inl, inr, is_empty, leb, length, length-append,
  length-drop, length-take, le→ltb-false, ltb, ltb-false→le, ltb→lt, lt→ltb, min, none, not, refl,
  some, suc, sym, take, take-append-drop, take-append_length, take-append_of_le, true, zero, ℕ, ◌%◌,
  ◌&&◌, ◌*◌, ◌++◌, ◌+◌, ◌-◌, ◌/◌, ◌<◌, ◌==◌, ◌^◌, ◌||◌, ◌↔◌, ◌∙◌, ◌∷◌, ◌≡◌, ◌≢◌, ◌≤◌, ◌⊎◌,
}
use petracache.Outcome.{Outcome, returned, panicked, ◌>>=◌, unwrap, unwrap_option}
use petracache.Result.{Result, ok, err}
use petracache.Rust.Utf8.{from_utf8}
use petracache.Rust.Integer.{to_string}
use petracache.Crates.Prometheus.{Prometheus}

-- Each bound is a number of tenths of a millisecond.
abbrev pub latency_buckets : List ℕ
latency_buckets = 1 ∷ 5 ∷ 10 ∷ 20 ∷ 50 ∷ 100 ∷ 250 ∷ 500 ∷ 1000 ∷ 2500 ∷ 5000 ∷ 10000 ∷ []

module _ (p : Prometheus) where
  pub record Metrics : Type 0 where
    pub registry : p.Registry
    pub cmd_get : p.IntCounter
    pub cmd_set : p.IntCounter
    pub cmd_add : p.IntCounter
    pub cmd_replace : p.IntCounter
    pub cmd_delete : p.IntCounter
    pub cmd_incr : p.IntCounter
    pub cmd_decr : p.IntCounter
    pub cmd_touch : p.IntCounter
    pub cmd_flush : p.IntCounter
    pub get_hits : p.IntCounter
    pub get_misses : p.IntCounter
    pub active_connections : p.IntGauge
    pub total_connections : p.IntCounter
    pub rejected_connections : p.IntCounter
    pub bytes_read : p.IntCounter
    pub bytes_written : p.IntCounter
    pub cmd_latency : p.Histogram
    pub protocol_errors : p.IntCounter
    pub storage_errors : p.IntCounter

  -- The metrics, before they are registered.
  unfoldable pub make : Outcome Metrics
  make = do
    cmd_get ← unwrap (p.int_counter (codes "petracache_cmd_get_total") (codes "Total GET commands"))
    cmd_set ← unwrap (p.int_counter (codes "petracache_cmd_set_total") (codes "Total SET commands"))
    cmd_add ← unwrap (p.int_counter (codes "petracache_cmd_add_total") (codes "Total ADD commands"))
    cmd_replace ←
        unwrap
          (p.int_counter (codes "petracache_cmd_replace_total") (codes "Total REPLACE commands"))
    cmd_delete ←
        unwrap (p.int_counter (codes "petracache_cmd_delete_total") (codes "Total DELETE commands"))
    cmd_incr ←
        unwrap (p.int_counter (codes "petracache_cmd_incr_total") (codes "Total INCR commands"))
    cmd_decr ←
        unwrap (p.int_counter (codes "petracache_cmd_decr_total") (codes "Total DECR commands"))
    cmd_touch ←
        unwrap (p.int_counter (codes "petracache_cmd_touch_total") (codes "Total TOUCH commands"))
    cmd_flush ←
        unwrap
          (p.int_counter (codes "petracache_cmd_flush_total") (codes "Total FLUSH_ALL commands"))
    get_hits ← unwrap (p.int_counter (codes "petracache_get_hits_total") (codes "Total GET hits"))
    get_misses ←
        unwrap (p.int_counter (codes "petracache_get_misses_total") (codes "Total GET misses"))
    active_connections ←
        unwrap
          (p.int_gauge (codes "petracache_active_connections") (codes "Current active connections"))
    total_connections ←
        unwrap (
          p.int_counter (codes "petracache_connections_total") (codes "Total connections accepted"))
    rejected_connections ← unwrap (
        p.int_counter (codes "petracache_rejected_connections_total")
          (codes "Total connections rejected"))
    bytes_read ←
        unwrap (p.int_counter (codes "petracache_bytes_read_total") (codes "Total bytes read"))
    bytes_written ←
        unwrap
          (p.int_counter (codes "petracache_bytes_written_total") (codes "Total bytes written"))
    cmd_latency ← unwrap (
        p.histogram (codes "petracache_cmd_latency_seconds") (codes "Command latency in seconds")
          latency_buckets)
    protocol_errors ←
        unwrap
          (p.int_counter (codes "petracache_protocol_errors_total") (codes "Total protocol errors"))
    storage_errors ←
        unwrap
          (p.int_counter (codes "petracache_storage_errors_total") (codes "Total storage errors"))
    returned (record {
      registry = p.registry;
      cmd_get = cmd_get;
      cmd_set = cmd_set;
      cmd_add = cmd_add;
      cmd_replace = cmd_replace;
      cmd_delete = cmd_delete;
      cmd_incr = cmd_incr;
      cmd_decr = cmd_decr;
      cmd_touch = cmd_touch;
      cmd_flush = cmd_flush;
      get_hits = get_hits;
      get_misses = get_misses;
      active_connections = active_connections;
      total_connections = total_connections;
      rejected_connections = rejected_connections;
      bytes_read = bytes_read;
      bytes_written = bytes_written;
      cmd_latency = cmd_latency;
      protocol_errors = protocol_errors;
      storage_errors = storage_errors;
    })

  unfoldable pub register_all : Metrics → Outcome p.Registry
  register_all m = do
    let held = m.registry
    held ← unwrap (p.register_counter held m.cmd_get)
    held ← unwrap (p.register_counter held m.cmd_set)
    held ← unwrap (p.register_counter held m.cmd_add)
    held ← unwrap (p.register_counter held m.cmd_replace)
    held ← unwrap (p.register_counter held m.cmd_delete)
    held ← unwrap (p.register_counter held m.cmd_incr)
    held ← unwrap (p.register_counter held m.cmd_decr)
    held ← unwrap (p.register_counter held m.cmd_touch)
    held ← unwrap (p.register_counter held m.cmd_flush)
    held ← unwrap (p.register_counter held m.get_hits)
    held ← unwrap (p.register_counter held m.get_misses)
    held ← unwrap (p.register_gauge held m.active_connections)
    held ← unwrap (p.register_counter held m.total_connections)
    held ← unwrap (p.register_counter held m.rejected_connections)
    held ← unwrap (p.register_counter held m.bytes_read)
    held ← unwrap (p.register_counter held m.bytes_written)
    held ← unwrap (p.register_histogram held m.cmd_latency)
    held ← unwrap (p.register_counter held m.protocol_errors)
    held ← unwrap (p.register_counter held m.storage_errors)
    returned held

  unfoldable pub new : Outcome Metrics
  unfolding make register_all
  new = do m ← make; registry ← register_all m; returned (record m { registry = registry })

  -- The block of a counter that is no metric of the registry.
  abbrev static_counter : Bytes → Bytes → ℕ → Bytes
  static_counter name help n =
      codes "\n# HELP "
      ++ (name
          ++ (codes " "
              ++ (help
                  ++ (codes "\n# TYPE "
                      ++ (name
                          ++ (codes " counter\n"
                              ++ (name ++ (codes " " ++ (to_string n ++ codes "\n")))))))))

  -- The registry's text and the store's two counters.
  unfoldable pub gather : Metrics → ℕ → ℕ → Outcome Bytes
  gather m expired_removed compaction_removed = do
    buffer ← unwrap (p.encode m.registry)
    output ← unwrap_option (from_utf8 buffer)
    returned (
        output
        ++ (static_counter (codes "petracache_expired_keys_removed_total")
              (codes "Keys removed by lazy expiration or background scan") expired_removed
            ++ static_counter (codes "petracache_ttl_compaction_removed_total")
                (codes "Keys removed by TTL compaction filter") compaction_removed))
