-- ===== src/Crates/Memchr.antt =====
-- The crate memchr: a search for one byte.
use petracache.Base.{
  zero, refl, inr, sym, ◌∙◌, inl, take, arith, Option-cases, ◌++◌, Lacks, length, ℕ, suc, ◌<◌, ◌≡◌,
  ◌≢◌, Option, none, some, [], ◌∷◌, Bytes, get_elem?, ◌==◌, if◌then◌else◌,
}

-- `memchr::memchr(needle, haystack)` is the first place of the byte.
pub record Memchr : Type 0 where
  pub memchr : ℕ → Bytes → Option ℕ
  pub memchr_found : (c : ℕ) (s : Bytes) (i : ℕ) → memchr c s ≡ some i → get_elem? s i ≡ some c
  pub memchr_first :
      (c : ℕ) (s : Bytes) (i : ℕ) → memchr c s ≡ some i → (j : ℕ) → j < i → get_elem? s j ≢ some c
  pub memchr_absent : (c : ℕ) (s : Bytes) → memchr c s ≡ none → (j : ℕ) → get_elem? s j ≢ some c

-- The same search as a recursion.
unfoldable pub position : ℕ → Bytes → Option ℕ
position c [] = none
position c (b ∷ s) =
    let rest = position c s in
    if b == c then some 0 else elim rest [ none ↦ none | some i ↦ some (suc i) ]

position_unique :
    (c : ℕ) (s : Bytes) (i : ℕ)
    → get_elem? s i ≡ some c
    → ((j : ℕ) → j < i → get_elem? s j ≢ some c)
    → position c s ≡ some i
unfolding position
position_unique c [] i h first = cc
position_unique c (b ∷ s) zero h first = ground arith
position_unique c (b ∷ s) (suc i) h first =
    ground (arith, first 0, position_unique c s i h (λ j lt. first (suc j) (omega arith)))

position_absent : (c : ℕ) (s : Bytes) → ((j : ℕ) → get_elem? s j ≢ some c) → position c s ≡ none
unfolding position
position_absent c [] h = refl
position_absent c (b ∷ s) h = ground (arith, h 0, position_absent c s (λ j. h (suc j)))

-- The crate's search is that recursion.
pub memchr-eq-position : ⦃m : Memchr⦄ (c : ℕ) (s : Bytes) → m.memchr c s ≡ position c s
memchr-eq-position ⦃m⦄ c s = elim (Option-cases (m.memchr c s)) [
  | inl absent ↦ absent ∙ sym (position_absent c s (m.memchr_absent c s absent))
  | inr (i, found) ↦
      found ∙ sym (position_unique c s i (m.memchr_found c s i found) (m.memchr_first c s i found))
]

pub position_found :
    (c : ℕ) (s : Bytes) {i : ℕ}
    → position c s ≡ some i
    → (get_elem? s i ≡ some c) × (i < length s) × Lacks c (take i s)
unfolding position
position_found c [] h = cc
position_found c (b ∷ s) {i = zero} h = ground arith
position_found c (b ∷ s) {i = suc i} h = ground (arith, position_found c s {i = i})

pub position-append :
    (c : ℕ) (s t : Bytes) {i : ℕ} → position c s ≡ some i → position c (s ++ t) ≡ some i
unfolding position
position-append c [] t h = cc
position-append c (b ∷ s) t {i = zero} h = ground arith
position-append c (b ∷ s) t {i = suc i} h = ground (arith, position-append c s t {i = i})

pub position-append_Lacks :
    (c : ℕ) (s t : Bytes) → Lacks c s → position c (s ++ c ∷ t) ≡ some (length s)
unfolding position
position-append_Lacks c [] t h = ground arith
position-append_Lacks c (b ∷ s) t (hb, hs) = ground (arith, position-append_Lacks c s t hs)

-- The search as a value of the interface.
pub position_never : (c : ℕ) (s : Bytes) → position c s ≡ none → (j : ℕ) → get_elem? s j ≢ some c
unfolding position
position_never c [] h j e = cc
position_never c (b ∷ s) h zero e = ground arith
position_never c (b ∷ s) h (suc j) e = position_never c s (ground arith) j e

pub position_first :
    (c : ℕ) (s : Bytes) (i : ℕ) → position c s ≡ some i → (j : ℕ) → j < i → get_elem? s j ≢ some c
unfolding position
position_first c [] i h j lt e = cc
position_first c (b ∷ s) zero h j lt e = absurd (omega arith)
position_first c (b ∷ s) (suc i) h zero lt e = ground arith
position_first c (b ∷ s) (suc i) h (suc j) lt e =
    position_first c s i (ground arith) j (omega arith) e

abbrev pub first_place : Memchr
first_place = record {
  memchr = position;
  memchr_found = λ c s i h. (position_found c s h).0;
  memchr_first = position_first;
  memchr_absent = position_never;
}
