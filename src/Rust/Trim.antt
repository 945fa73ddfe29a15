-- ===== src/Rust/Trim.antt =====
-- `str::trim`: white space by Unicode, cut off at both ends of the UTF-8 bytes.
pub mod Words
use petracache.Base.{
  All, All-append, Bool, Bytes, [], arith, drop, if◌then◌else◌, leb, length, refl, suc, zero, ℕ,
  ◌&&◌, ◌==◌, ◌||◌, ◌∷◌, ◌≡◌,
}
use mathlib.Core.List.{reverse, reverse-reverse, reverse-append}
use petracache.Rust.Integer.Decimal.{IsDigit}

-- White space of one, two and three bytes.
white_one : ℕ → Bool
white_one a = a == 0x20 || (leb 9 a && leb a 13)

white_two : ℕ → ℕ → Bool
white_two a b = a == 0xC2 && (b == 0x85 || b == 0xA0)

white_three : ℕ → ℕ → ℕ → Bool
white_three a b c =
    (a == 0xE1 && b == 0x9A && c == 0x80)
    || (a == 0xE2
        && b == 0x80
        && ((leb 0x80 c && leb c 0x8A) || c == 0xA8 || c == 0xA9 || c == 0xAF))
    || (a == 0xE2 && b == 0x81 && c == 0x9F)
    || (a == 0xE3 && b == 0x80 && c == 0x80)

-- How many bytes of white space stand in front.
front : Bytes → ℕ
front [] = 0
front (a ∷ []) = if white_one a then 1 else 0
front (a ∷ b ∷ []) = if white_one a then 1 else if white_two a b then 2 else 0
front (a ∷ b ∷ c ∷ s) =
    if white_one a then 1 else if white_two a b then 2 else if white_three a b c then 3 else 0

-- The same at the end, of the bytes in reverse.
back : Bytes → ℕ
back [] = 0
back (c ∷ []) = if white_one c then 1 else 0
back (c ∷ b ∷ []) = if white_one c then 1 else if white_two b c then 2 else 0
back (c ∷ b ∷ a ∷ s) =
    if white_one c then 1 else if white_two b c then 2 else if white_three a b c then 3 else 0

strip : (Bytes → ℕ) → ℕ → Bytes → Bytes
strip width zero s = s
strip width (suc f) s = elim (width s) [ zero ↦ s | suc n ↦ strip width f (drop (suc n) s) ]

unfoldable pub trim : Bytes → Bytes
unfolding strip front back white_one white_two white_three
trim s = let t = strip front (length s) s in reverse (strip back (length t) (reverse t))

front_digits : (s : Bytes) → All IsDigit s → front s ≡ 0
unfolding front white_one white_two white_three
front_digits [] h = refl
front_digits (a ∷ []) h = ground arith
front_digits (a ∷ b ∷ []) h = ground arith
front_digits (a ∷ b ∷ c ∷ s) h = ground arith

back_digits : (s : Bytes) → All IsDigit s → back s ≡ 0
unfolding back white_one white_two white_three
back_digits [] h = refl
back_digits (a ∷ []) h = ground arith
back_digits (a ∷ b ∷ []) h = ground arith
back_digits (a ∷ b ∷ c ∷ s) h = ground arith

strip_nothing : (width : Bytes → ℕ) (f : ℕ) (s : Bytes) → width s ≡ 0 → strip width f s ≡ s
unfolding strip
strip_nothing width zero s h = refl
strip_nothing width (suc f) s h = rw (h, strip)

All-reverse : (s : Bytes) → All IsDigit s → All IsDigit (reverse s)
All-reverse [] h = tt
All-reverse (c ∷ s) (hc, hs) =
    rw (reverse-append (c ∷ []) s)
      (All-append IsDigit (reverse s) (c ∷ []) (All-reverse s hs) (hc, tt))

-- A text of digits is left as it is.
pub trim_digits : (s : Bytes) → All IsDigit s → trim s ≡ s
unfolding trim
trim_digits s h =
    rw
      (
        strip_nothing front (length s) s (front_digits s h),
        strip_nothing back (length s) (reverse s) (back_digits (reverse s) (All-reverse s h)),
      )
      (reverse-reverse s)
