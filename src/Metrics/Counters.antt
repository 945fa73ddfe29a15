-- ===== src/Metrics/Counters.antt =====
-- src/metrics.rs: `AtomicCounters`, six counters of 64 bits.
pub mod Order
use petracache.Base.{
  ==-refl, ==_iff, All, All-append, All-drop, All-take, Bool, Bool-cases, Bytes, IsByte, IsBytes,
  Lacks, List, Option, Option-cases, [], ap, append-nil, append_assoc, arith, bytes_cases, bytes_eq,
  bytes_eq_refl, bytes_eq→eq, codes, drop, drop-append_length, drop-append_of_le, drop-drop, every,
  false, get_elem?, get_elem?-append_left, get_elem?-append_length, get_elem?-lt, get_elem?-none,
  get_elem?-some, if_cases, if◌then◌else◌, inl, inr, is_empty, leb, length, length-append,
  length-drop, length-take, le→ltb-false, ltb, ltb-false→le, ltb→lt, lt→ltb, min, none, not, refl,
  some, suc, sym, take, take-append-drop, take-append_length, take-append_of_le, true, zero, ℕ, ◌%◌,
  ◌&&◌, ◌*◌, ◌++◌, ◌+◌, ◌-◌, ◌/◌, ◌<◌, ◌==◌, ◌^◌, ◌||◌, ◌↔◌, ◌∙◌, ◌∷◌, ◌≡◌, ◌≢◌, ◌≤◌, ◌⊎◌,
}
use petracache.Storage.Rocks.{fetch_add}

pub record AtomicCounters : Type 0 where
  pub cmd_get : ℕ
  pub cmd_set : ℕ
  pub get_hits : ℕ
  pub get_misses : ℕ
  pub bytes_read : ℕ
  pub bytes_written : ℕ

unfoldable pub new : AtomicCounters
new = record {
  cmd_get = 0;
  cmd_set = 0;
  get_hits = 0;
  get_misses = 0;
  bytes_read = 0;
  bytes_written = 0;
}

pub inc_cmd_get : AtomicCounters → AtomicCounters
inc_cmd_get c = record c { cmd_get = fetch_add c.cmd_get 1 }

pub inc_cmd_set : AtomicCounters → AtomicCounters
inc_cmd_set c = record c { cmd_set = fetch_add c.cmd_set 1 }

pub inc_get_hits : AtomicCounters → AtomicCounters
inc_get_hits c = record c { get_hits = fetch_add c.get_hits 1 }

pub inc_get_misses : AtomicCounters → AtomicCounters
inc_get_misses c = record c { get_misses = fetch_add c.get_misses 1 }

pub add_bytes_read : ℕ → AtomicCounters → AtomicCounters
add_bytes_read n c = record c { bytes_read = fetch_add c.bytes_read n }

pub add_bytes_written : ℕ → AtomicCounters → AtomicCounters
add_bytes_written n c = record c { bytes_written = fetch_add c.bytes_written n }

-- A call of a thread.
pub data Call : Type 0 where
  incs_cmd_get incs_cmd_set incs_get_hits incs_get_misses : Call
  adds_bytes_read adds_bytes_written : ℕ → Call

pub apply : Call → AtomicCounters → AtomicCounters
unfolding inc_cmd_get inc_cmd_set inc_get_hits inc_get_misses add_bytes_read add_bytes_written
apply incs_cmd_get c = inc_cmd_get c
apply incs_cmd_set c = inc_cmd_set c
apply incs_get_hits c = inc_get_hits c
apply incs_get_misses c = inc_get_misses c
apply (adds_bytes_read n) c = add_bytes_read n c
apply (adds_bytes_written n) c = add_bytes_written n c

-- The calls of all threads in the order in which they take effect.
unfoldable pub run : List Call → AtomicCounters → AtomicCounters
unfolding apply
run [] c = c
run (call ∷ calls) c = run calls (apply call c)
