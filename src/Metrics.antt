-- ===== src/Metrics.antt =====
-- src/metrics.rs: the metrics, as the calls that the server makes on them, latest first. What the
-- crate prometheus does with a call is its own.
pub mod Registry
pub mod Counters
use petracache.Base.{
  ==-refl, ==_iff, All, All-append, All-drop, All-take, Bool, Bool-cases, Bytes, IsByte, IsBytes,
  Lacks, List, Option, Option-cases, [], ap, append-nil, append_assoc, arith, bytes_cases, bytes_eq,
  bytes_eq_iff, bytes_eq_refl, bytes_eq→eq, codes, drop, drop-append_length, drop-append_of_le,
  drop-drop, every, false, get_elem?, get_elem?-append_left, get_elem?-append_length, get_elem?-lt,
  get_elem?-none, get_elem?-some, if_cases, if◌then◌else◌, inl, inr, is_empty, leb, length,
  length-append, length-drop, length-take, le→ltb-false, ltb, ltb-false→le, ltb→lt, lt→ltb, min,
  none, not, refl, some, suc, sym, take, take-append-drop, take-append_length, take-append_of_le,
  true, zero, ℕ, ◌%◌, ◌&&◌, ◌*◌, ◌++◌, ◌+◌, ◌-◌, ◌/◌, ◌<◌, ◌==◌, ◌^◌, ◌||◌, ◌↔◌, ◌∙◌, ◌∷◌, ◌≡◌, ◌≢◌,
  ◌≤◌, ◌⊎◌,
}

pub data Metric : Type 0 where
  cmd_get cmd_set cmd_add cmd_replace cmd_delete cmd_incr cmd_decr cmd_touch cmd_flush : Metric
  get_hits get_misses : Metric
  active_connections total_connections rejected_connections : Metric
  bytes_read bytes_written : Metric
  protocol_errors storage_errors : Metric

pub data MetricCall : Type 0 where
  inc dec : Metric → MetricCall
  inc_by : Metric → ℕ → MetricCall

-- How often the gauge of the active connections was taken down.
unfoldable pub decrements : List MetricCall → ℕ
decrements [] = 0
decrements (dec active_connections ∷ calls) = suc (decrements calls)
decrements (dec _ ∷ calls) = decrements calls
decrements (inc m ∷ calls) = decrements calls
decrements (inc_by m n ∷ calls) = decrements calls

unfoldable pub increments : List MetricCall → ℕ
increments [] = 0
increments (inc active_connections ∷ calls) = suc (increments calls)
increments (inc _ ∷ calls) = increments calls
increments (dec m ∷ calls) = increments calls
increments (inc_by m n ∷ calls) = increments calls

-- The calls on that gauge alone.
unfoldable pub gauge_calls : List MetricCall → List MetricCall
gauge_calls [] = []
gauge_calls (dec active_connections ∷ calls) = dec active_connections ∷ gauge_calls calls
gauge_calls (dec _ ∷ calls) = gauge_calls calls
gauge_calls (inc active_connections ∷ calls) = inc active_connections ∷ gauge_calls calls
gauge_calls (inc _ ∷ calls) = gauge_calls calls
gauge_calls (inc_by m n ∷ calls) = gauge_calls calls

pub decrements-gauge_calls :
    (calls : List MetricCall) → decrements (gauge_calls calls) ≡ decrements calls
unfolding decrements gauge_calls
decrements-gauge_calls [] = refl
decrements-gauge_calls (dec m ∷ calls) = ground (arith, decrements-gauge_calls calls)
decrements-gauge_calls (inc m ∷ calls) = ground (arith, decrements-gauge_calls calls)
decrements-gauge_calls (inc_by m n ∷ calls) = decrements-gauge_calls calls

pub increments-gauge_calls :
    (calls : List MetricCall) → increments (gauge_calls calls) ≡ increments calls
unfolding increments gauge_calls
increments-gauge_calls [] = refl
increments-gauge_calls (dec m ∷ calls) = ground (arith, increments-gauge_calls calls)
increments-gauge_calls (inc m ∷ calls) = ground (arith, increments-gauge_calls calls)
increments-gauge_calls (inc_by m n ∷ calls) = increments-gauge_calls calls

-- The calls but those that count bytes read.
unfoldable pub besides_reads : List MetricCall → List MetricCall
besides_reads [] = []
besides_reads (inc_by bytes_read n ∷ calls) = besides_reads calls
besides_reads (inc_by m n ∷ calls) = inc_by m n ∷ besides_reads calls
besides_reads (inc m ∷ calls) = inc m ∷ besides_reads calls
besides_reads (dec m ∷ calls) = dec m ∷ besides_reads calls

-- The calls that count commands, hits and misses alone.
unfoldable pub command_calls : List MetricCall → List MetricCall
command_calls [] = []
command_calls (inc cmd_get ∷ calls) = inc cmd_get ∷ command_calls calls
command_calls (inc cmd_set ∷ calls) = inc cmd_set ∷ command_calls calls
command_calls (inc cmd_delete ∷ calls) = inc cmd_delete ∷ command_calls calls
command_calls (inc get_hits ∷ calls) = inc get_hits ∷ command_calls calls
command_calls (inc get_misses ∷ calls) = inc get_misses ∷ command_calls calls
command_calls (inc _ ∷ calls) = command_calls calls
command_calls (dec m ∷ calls) = command_calls calls
command_calls (inc_by m n ∷ calls) = command_calls calls

-- How many hits were counted.
unfoldable pub hits : List MetricCall → ℕ
hits [] = 0
hits (inc get_hits ∷ calls) = suc (hits calls)
hits (inc _ ∷ calls) = hits calls
hits (dec m ∷ calls) = hits calls
hits (inc_by m n ∷ calls) = hits calls

-- How many misses were counted.
unfoldable pub misses : List MetricCall → ℕ
misses [] = 0
misses (inc get_misses ∷ calls) = suc (misses calls)
misses (inc _ ∷ calls) = misses calls
misses (dec m ∷ calls) = misses calls
misses (inc_by m n ∷ calls) = misses calls
