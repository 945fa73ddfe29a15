-- ===== src/Crates/Prometheus.antt =====
-- The crate prometheus: metrics by name, a registry of them, and its text format.
use petracache.Base.{
  Bool, Bytes, List, [], bytes_eq, every, false, is_empty, leb, ltb, not, some, true, ℕ, ◌&&◌, ◌==◌,
  ◌||◌, ◌∷◌, ◌≡◌,
}
use petracache.Result.{Result, ok}
use petracache.Rust.Utf8.{from_utf8}

pub record Prometheus : Type 1 where
  pub IntCounter : Type 0
  pub IntGauge : Type 0
  pub Histogram : Type 0
  pub Registry : Type 0
  pub Error : Type 0
  -- name and help
  pub int_counter : Bytes → Bytes → Result IntCounter Error
  pub int_gauge : Bytes → Bytes → Result IntGauge Error
  -- name, help and upper bounds of the buckets, in units of a tenth of a millisecond
  pub histogram : Bytes → Bytes → List ℕ → Result Histogram Error
  pub registry : Registry
  pub register_counter : Registry → IntCounter → Result Registry Error
  pub register_gauge : Registry → IntGauge → Result Registry Error
  pub register_histogram : Registry → Histogram → Result Registry Error
  -- The names that a registry holds, latest first.
  pub names : Registry → List Bytes
  -- `TextEncoder::encode` of `gather`.
  pub encode : Registry → Result Bytes Error

is_name_start : ℕ → Bool
is_name_start c = (leb b'a' c && leb c b'z') || (leb b'A' c && leb c b'Z') || c == b'_' || c == b':'

is_name_byte : ℕ → Bool
unfolding is_name_start
is_name_byte c = is_name_start c || (leb b'0' c && leb c b'9')

-- The documented form of a metric's name.
unfoldable pub is_metric_name : Bytes → Bool
unfolding is_name_start is_name_byte
is_metric_name [] = false
is_metric_name (c ∷ s) = is_name_start c && every is_name_byte s

unfoldable pub increasing : List ℕ → Bool
increasing [] = true
increasing (a ∷ []) = true
increasing (a ∷ b ∷ s) = ltb a b && increasing (b ∷ s)

-- A name that is not among these.
unfoldable pub is_new : Bytes → List Bytes → Bool
is_new name [] = true
is_new name (other ∷ others) = not (bytes_eq name other) && is_new name others

-- A metric with this name: the registry accepts it where the name is new.
abbrev pub IsNamed : {M R E : Type 0} → (R → List Bytes) → (R → M → Result R E) → Bytes → M → Type 0
IsNamed {M} {R} {E} names register name m =
    (held : R)
    → is_new name (names held) ≡ true
    → (now : R) × (register held m ≡ ok now) × (names now ≡ name ∷ names held)

-- What the crate documents: a metric with a proper name and a help text is made, under that name; a
-- histogram's bounds increase; the registry begins empty; the text of the metrics is Unicode.
pub record IsPrometheus (p : Prometheus) : Type 0 where
  pub int_counter_lem :
      (name help : Bytes)
      → is_metric_name name ≡ true
      → is_empty help ≡ false
      → (m : p.IntCounter) × (p.int_counter name help ≡ ok m)
        × IsNamed p.names p.register_counter name m
  pub int_gauge_lem :
      (name help : Bytes)
      → is_metric_name name ≡ true
      → is_empty help ≡ false
      → (m : p.IntGauge) × (p.int_gauge name help ≡ ok m) × IsNamed p.names p.register_gauge name m
  pub histogram_lem :
      (name help : Bytes) (buckets : List ℕ)
      → is_metric_name name ≡ true
      → is_empty help ≡ false
      → increasing buckets ≡ true
      → (m : p.Histogram) × (p.histogram name help buckets ≡ ok m)
        × IsNamed p.names p.register_histogram name m
  pub names-registry : p.names p.registry ≡ []
  pub encode_lem :
      (held : p.Registry)
      → (text : Bytes) × (p.encode held ≡ ok text) × (from_utf8 text ≡ some text)
