-- ===== src/Rust/Integer/Decimal.antt =====
-- What `str::parse` accepts, and that it reads back what `to_string` writes.
use petracache.Base.{
  ℕ, zero, suc, ◌+◌, ◌-◌, ◌*◌, ◌/◌, ◌%◌, ◌<◌, ◌≤◌, ◌≡◌, ◌≢◌, inl, inr, refl, some, [], ◌∷◌, ◌++◌,
  arith, Bytes, All, All-append, ltb, ◌==◌, if◌then◌else◌, Bool-cases, ltb→lt, ltb-false→le,
}
use petracache.Rust.Utf8.{IsAscii}
use petracache.Rust.Integer.{scan, some_digits, parse_uint, decimal, to_string}

abbrev pub IsDigit : ℕ → Type 0
IsDigit c = (b'0' ≤ c) × (c ≤ b'9')

-- What the digits add to a number that stands in front of them, without a bound.
abbrev pub value : Bytes → ℕ → ℕ
value [] from = from
value (d ∷ digits) from = value digits (from * 10 + (d - b'0'))

-- The loop fails on a byte that is no digit and on a number above the largest one.
scan-value :
    (max : ℕ) (digits : Bytes) {from result : ℕ}
    → scan max digits from ≡ some result
    → from ≤ max
    → (result ≤ max) × (result ≡ value digits from) × All IsDigit digits
unfolding scan
scan-value max [] found le = ground arith
scan-value max (d ∷ digits) {from} {result} found le =
    ground (arith, scan-value max digits {from = from * 10 + (d - b'0')} {result = result})

value_mono : (digits : Bytes) (from : ℕ) → from ≤ value digits from
value_mono [] from = omega arith
value_mono (d ∷ digits) from = omega (arith, value_mono digits (from * 10 + (d - b'0')))

scan_accepts :
    (max : ℕ) (digits : Bytes) (from : ℕ)
    → value digits from ≤ max
    → All IsDigit digits
    → scan max digits from ≡ some (value digits from)
unfolding scan
scan_accepts max [] from le all = refl
scan_accepts max (d ∷ digits) from le (is_digit, all) =
    let next = from * 10 + (d - b'0') in
    ground (arith, value_mono digits next, scan_accepts max digits next le all)

-- The digits of an accepted text: the text itself, or what stands behind a leading plus.
unfoldable pub unsigned : Bytes → Bytes
unsigned [] = []
unsigned (c ∷ s) = if c == b'+' then s else c ∷ s

some_digits_sound :
    (max : ℕ) (s : Bytes) {r : ℕ}
    → some_digits max s ≡ some r
    → (s ≢ []) × All IsDigit s × (r ≡ value s 0) × (r ≤ max)
unfolding some_digits
some_digits_sound max [] h = cc
some_digits_sound max (c ∷ s) {r} h =
    let (le, exact, all) = scan-value max (c ∷ s) {from = 0} {result = r} h (omega arith) in
    ((λ p. cc), all, exact, le)

pub parse_uint_sound :
    (max : ℕ) (s : Bytes) {r : ℕ}
    → parse_uint max s ≡ some r
    → (unsigned s ≢ []) × All IsDigit (unsigned s) × (r ≡ value (unsigned s) 0) × (r ≤ max)
unfolding parse_uint unsigned
parse_uint_sound max [] h = cc
parse_uint_sound max (c ∷ s) {r} h = elim (Bool-cases (c == b'+')) [
  | inl plus ↦ rw plus (some_digits_sound max s (rw (plus) at h))
  | inr bare ↦ rw bare (some_digits_sound max (c ∷ s) (rw (bare) at h))
]

some_digits_complete :
    (max : ℕ) (s : Bytes)
    → s ≢ []
    → All IsDigit s
    → value s 0 ≤ max
    → some_digits max s ≡ some (value s 0)
unfolding some_digits
some_digits_complete max [] ne h fits = absurd (ne refl)
some_digits_complete max (c ∷ s) ne h fits = scan_accepts max (c ∷ s) 0 fits h

pub parse_uint_complete :
    (max : ℕ) (s : Bytes)
    → unsigned s ≢ []
    → All IsDigit (unsigned s)
    → value (unsigned s) 0 ≤ max
    → parse_uint max s ≡ some (value (unsigned s) 0)
unfolding parse_uint unsigned
parse_uint_complete max [] ne h fits = absurd (ne refl)
parse_uint_complete max (c ∷ s) ne h fits = elim (Bool-cases (c == b'+')) [
  | inl plus ↦ rw plus (some_digits_complete max s (rw plus at ne) (rw plus at h) (rw plus at fits))
  | inr bare ↦
      rw bare (some_digits_complete max (c ∷ s) (rw bare at ne) (rw bare at h) (rw bare at fits))
]

value-append : (s t : Bytes) (n : ℕ) → value (s ++ t) n ≡ value t (value s n)
value-append [] t n = refl
value-append (c ∷ s) t n = value-append s t (n * 10 + (c - b'0'))

decimal-IsDigit : (f n : ℕ) → All IsDigit (decimal f n)
unfolding decimal
decimal-IsDigit zero n = tt
decimal-IsDigit (suc f) n = elim (Bool-cases (ltb n 10)) [
  | inl small ↦ rw (small, decimal) (omega (arith, ltb→lt n 10 small))
  | inr large ↦
      rw (large, decimal)
        (All-append IsDigit (decimal f (n / 10)) _ (decimal-IsDigit f (n / 10)) (omega arith))
]

value-decimal : (f n : ℕ) → n < f → value (decimal f n) 0 ≡ n
unfolding decimal
value-decimal zero n h = absurd (omega arith)
value-decimal (suc f) n h = elim (Bool-cases (ltb n 10)) [
  | inl small ↦ rw (small, decimal) (omega arith)
  | inr large ↦
      rw (large, decimal)
        (rw (value-append (decimal f (n / 10)))
          (omega (arith, value-decimal f (n / 10), ltb-false→le n 10 large)))
]

decimal-ne-nil : (f n : ℕ) → decimal (suc f) n ≢ []
unfolding decimal
decimal-ne-nil f n = elim (Bool-cases (ltb n 10)) [
  | inl small ↦ rw (small, decimal) (λ p. cc)
  | inr large ↦ rw (large, decimal) (append-ne-nil (decimal f (n / 10)))
]
  where
    append-ne-nil : (s : Bytes) → (s ++ (b'0' + n % 10) ∷ []) ≢ []
    append-ne-nil [] p = cc
    append-ne-nil (c ∷ s) p = cc

-- A text of digits has no sign.
unsigned_digits : (s : Bytes) → All IsDigit s → unsigned s ≡ s
unfolding unsigned
unsigned_digits [] h = refl
unsigned_digits (c ∷ s) (hc, hs) = ground arith

pub to_string-IsDigit : (n : ℕ) → All IsDigit (to_string n)
unfolding to_string
to_string-IsDigit n = decimal-IsDigit (suc n) n

pub value-to_string : (n : ℕ) → value (to_string n) 0 ≡ n
unfolding to_string
value-to_string n = value-decimal (suc n) n (omega arith)

pub to_string-ne-nil : (n : ℕ) → to_string n ≢ []
unfolding to_string
to_string-ne-nil n = decimal-ne-nil n n

-- What `to_string` writes is read back, if it fits the type.
pub parse_uint-to_string : (max n : ℕ) → n ≤ max → parse_uint max (to_string n) ≡ some n
parse_uint-to_string max n h =
    let plain = unsigned_digits (to_string n) (to_string-IsDigit n) in
    let read =
      parse_uint_complete max (to_string n) (rw plain (to_string-ne-nil n))
        (rw plain (to_string-IsDigit n)) (rw (plain, value-to_string n) h) in
    rw (plain, value-to_string n) at read

pub digits-IsAscii : (s : Bytes) → All IsDigit s → IsAscii s
digits-IsAscii [] h = tt
digits-IsAscii (c ∷ s) (hc, hs) = (omega arith, digits-IsAscii s hs)
