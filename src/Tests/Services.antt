-- ===== src/Tests/Services.antt =====
-- Concrete values of the interfaces around the listener, the metrics and the start of the program.
use petracache.Base.{
  Bytes, List, [], arith, codes, false, if◌then◌else◌, is_empty, le→ltb-false, ltb, lt→ltb, none,
  not, refl, some, suc, true, zero, ℕ, ◌&&◌, ◌+◌, ◌∷◌, ◌≡◌,
}
use petracache.Outcome.{Outcome, returned, panicked}
use petracache.Result.{Result, ok, err}
use petracache.Rust.Utf8.{from_utf8}
use petracache.Crates.Semaphore.{Semaphore, IsSemaphore, max_permits}
use petracache.Crates.Prometheus.{Prometheus, IsPrometheus, is_metric_name, is_new, increasing}
use petracache.Storage.Rocks.Open.{Opener}
use petracache.Tests.Instances.{memory, no_entries}

abbrev make_permits : ℕ → Outcome ℕ
make_permits n = if ltb max_permits n then panicked else returned n

abbrev pub counting : Semaphore
counting = record {
  Permits = ℕ;
  available = λ n. n;
  create = make_permits;
  try_acquire = λ n. elim n [ zero ↦ none | suc k ↦ some k ];
  release = λ n. n + 1;
}

counting_acquired : (p q : ℕ) → counting.try_acquire p ≡ some q → p ≡ q + 1
counting_acquired zero q e = cc
counting_acquired (suc p) q e = ground arith

counting_refused : (p : ℕ) → counting.try_acquire p ≡ none → p ≡ 0
counting_refused zero e = refl
counting_refused (suc p) e = cc

pub counting-IsSemaphore : IsSemaphore counting
counting-IsSemaphore = record {
  create_within = λ n le. (n, rw (le→ltb-false max_permits n le), refl);
  create_beyond = λ n lt. rw (lt→ltb max_permits n lt);
  acquired = counting_acquired;
  refused = counting_refused;
  released = λ p. refl;
}

abbrev named : Bytes → Bytes → Result Bytes Bytes
named name help = if is_metric_name name && not (is_empty help) then ok name else err name

abbrev registered : List Bytes → Bytes → Result (List Bytes) Bytes
registered held name = if is_new name held then ok (name ∷ held) else err name

-- A registry that is its names.
abbrev pub by_name : Prometheus
by_name = record {
  IntCounter = Bytes;
  IntGauge = Bytes;
  Histogram = Bytes;
  Registry = List Bytes;
  Error = Bytes;
  int_counter = named;
  int_gauge = named;
  histogram = λ name help buckets. if increasing buckets then named name help else err name;
  registry = [];
  register_counter = registered;
  register_gauge = registered;
  register_histogram = registered;
  names = λ held. held;
  encode = λ held. ok (codes "metrics");
}

named_lem :
    (name help : Bytes)
    → is_metric_name name ≡ true
    → is_empty help ≡ false
    → named name help ≡ ok name
named_lem name help proper helpful = rw (proper, helpful)

registered_lem :
    (name : Bytes) (held : List Bytes)
    → is_new name held ≡ true
    → (now : List Bytes) × (registered held name ≡ ok now) × (now ≡ name ∷ held)
registered_lem name held fresh = (name ∷ held, rw fresh, refl)

pub by_name-IsPrometheus : IsPrometheus by_name
unfolding from_utf8
by_name-IsPrometheus = record {
  int_counter_lem = λ name help proper helpful.
      (name, named_lem name help proper helpful, (λ held fresh. registered_lem name held fresh));
  int_gauge_lem = λ name help proper helpful.
      (name, named_lem name help proper helpful, (λ held fresh. registered_lem name held fresh));
  histogram_lem = λ name help buckets proper helpful bounds. (
    name,
    rw bounds (named_lem name help proper helpful),
    (λ held fresh. registered_lem name held fresh),
  );
  names-registry = refl;
  encode_lem = λ held. (codes "metrics", refl, refl);
}

-- A file system on which every directory can be made.
abbrev pub opener : Opener memory
opener = record {
  IoError = Bytes;
  show_io = λ e. e;
  parent = λ path. some path;
  create_dir_all = λ path. ok tt;
  open_db = λ options path. ok no_entries;
  property_int_value = λ d name. ok none;
}
