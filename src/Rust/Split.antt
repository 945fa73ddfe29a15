-- ===== src/Rust/Split.antt =====
-- `slice::split` at a byte, as the list of its parts, and `to_ascii_lowercase`.
use petracache.Base.{
  ℕ, ◌+◌, ◌≡◌, refl, ◌&&◌, List, [], ◌∷◌, ◌++◌, arith, Bytes, Lacks, All, codes, leb, ◌==◌,
  if◌then◌else◌,
}

-- Puts a byte in front of the first part.
abbrev pub push_first : ℕ → List Bytes → List Bytes
push_first c [] = (c ∷ []) ∷ []
push_first c (p ∷ ps) = (c ∷ p) ∷ ps

-- There is always a part.
unfoldable pub split : ℕ → Bytes → List Bytes
split sep [] = [] ∷ []
split sep (c ∷ s) = let parts = split sep s in if c == sep then [] ∷ parts else push_first c parts

unfoldable pub to_ascii_lowercase : ℕ → ℕ
to_ascii_lowercase c = if leb b'A' c && leb c b'Z' then c + 32 else c

split_test : split b' ' (codes "a  b ") ≡ codes "a" ∷ [] ∷ codes "b" ∷ [] ∷ []
unfolding split
split_test = refl

-- A part without the separator is cut off whole.
pub split-append_sep :
    (sep : ℕ) (p s : Bytes) → Lacks sep p → split sep (p ++ sep ∷ s) ≡ p ∷ split sep s
unfolding split
split-append_sep sep [] s h = ground arith
split-append_sep sep (c ∷ p) s h = ground (arith, split-append_sep sep p s)

pub split_single : (sep : ℕ) (p : Bytes) → Lacks sep p → split sep p ≡ p ∷ []
unfolding split
split_single sep [] h = refl
split_single sep (c ∷ p) h = ground (arith, split_single sep p)

-- A property of all bytes of the text holds of all bytes of each part.
pub All-split : (P : ℕ → Type 0) (sep : ℕ) (s : Bytes) → All P s → All (All P) (split sep s)
unfolding split
All-split P sep [] h = (tt, tt)
All-split P sep (c ∷ s) (hc, hs) = elim_parts (split sep s) (All-split P sep s hs)
  where
    elim_parts :
        (ps : List Bytes)
        → All (All P) ps
        → All (All P) (if c == sep then [] ∷ ps else push_first c ps)
    elim_parts [] h = ground arith
    elim_parts (p ∷ ps) (hp, hps) = ground arith
