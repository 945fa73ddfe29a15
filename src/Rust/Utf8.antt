-- ===== src/Rust/Utf8.antt =====
-- `std::str::from_utf8` and `String::from_utf8_lossy`. A text is its UTF-8 bytes.
use petracache.Base.{
  ℕ, zero, suc, ◌<◌, ◌≡◌, refl, Bool, true, false, ◌&&◌, ◌||◌, Option, none, some, [], ◌∷◌, ◌++◌,
  arith, Bytes, All, length, take, drop, ltb, leb, ◌==◌, if◌then◌else◌, lt→ltb, All-append,
  All-take, All-drop,
}

-- What stands at the head of a byte string: a character of so many bytes, or so many bytes that
-- are the longest start of a character and are replaced together.
pub data Chunk : Type 0 where
  valid invalid : ℕ → Chunk

is_continuation : ℕ → Bool
is_continuation b = leb 0x80 b && leb b 0xBF

second_of_three : ℕ → ℕ → Bool
second_of_three a b =
    (a == 0xE0 && leb 0xA0 b && leb b 0xBF)
    || (leb 0xE1 a && leb a 0xEC && leb 0x80 b && leb b 0xBF)
    || (a == 0xED && leb 0x80 b && leb b 0x9F)
    || (leb 0xEE a && leb a 0xEF && leb 0x80 b && leb b 0xBF)

second_of_four : ℕ → ℕ → Bool
second_of_four a b =
    (a == 0xF0 && leb 0x90 b && leb b 0xBF)
    || (leb 0xF1 a && leb a 0xF3 && leb 0x80 b && leb b 0xBF)
    || (a == 0xF4 && leb 0x80 b && leb b 0x8F)

two_bytes : Bytes → Chunk
two_bytes [] = invalid 1
two_bytes (b ∷ s) = if is_continuation b then valid 2 else invalid 1

third_byte : Bytes → Chunk
third_byte [] = invalid 2
third_byte (c ∷ s) = if is_continuation c then valid 3 else invalid 2

three_bytes : ℕ → Bytes → Chunk
three_bytes a [] = invalid 1
three_bytes a (b ∷ s) = if second_of_three a b then third_byte s else invalid 1

fourth_byte : Bytes → Chunk
fourth_byte [] = invalid 3
fourth_byte (d ∷ s) = if is_continuation d then valid 4 else invalid 3

third_of_four : Bytes → Chunk
third_of_four [] = invalid 2
third_of_four (c ∷ s) = if is_continuation c then fourth_byte s else invalid 2

four_bytes : ℕ → Bytes → Chunk
four_bytes a [] = invalid 1
four_bytes a (b ∷ s) = if second_of_four a b then third_of_four s else invalid 1

-- The chunk that begins with the byte `a`, with the bytes behind it.
chunk : ℕ → Bytes → Chunk
unfolding is_continuation second_of_three second_of_four two_bytes three_bytes third_byte four_bytes
    third_of_four fourth_byte
chunk a s =
    if ltb a 0x80
    then valid 1
    else if leb 0xC2 a && leb a 0xDF
    then two_bytes s
    else if leb 0xE0 a && leb a 0xEF
    then three_bytes a s
    else if leb 0xF0 a && leb a 0xF4
    then four_bytes a s
    else invalid 1

-- U+FFFD
abbrev replacement : Bytes
replacement = 0xEF ∷ 0xBF ∷ 0xBD ∷ []

lossy : ℕ → Bytes → Bytes
lossy zero s = []
lossy (suc f) [] = []
lossy (suc f) (a ∷ s) = elim (chunk a s) [
  | valid n ↦ take n (a ∷ s) ++ lossy f (drop n (a ∷ s))
  | invalid n ↦ replacement ++ lossy f (drop n (a ∷ s))
]

-- The fuel is the length: each round takes a byte at least.
unfoldable pub from_utf8_lossy : Bytes → Bytes
unfolding lossy chunk
from_utf8_lossy s = lossy (length s) s

check_utf8 : ℕ → Bytes → Bool
check_utf8 zero s = true
check_utf8 (suc f) [] = true
check_utf8 (suc f) (a ∷ s) = elim (chunk a s) [
  | valid n ↦ check_utf8 f (drop n (a ∷ s))
  | invalid n ↦ false
]

unfoldable pub from_utf8 : Bytes → Option Bytes
unfolding check_utf8 chunk
from_utf8 s = if check_utf8 (length s) s then some s else none

abbrev pub IsAscii : Bytes → Type 0
IsAscii = All (λ b. b < 0x80)

chunk_ascii : (a : ℕ) (s : Bytes) → a < 0x80 → chunk a s ≡ valid 1
unfolding chunk
chunk_ascii a s h = rw (lt→ltb a 0x80 h)

lossy_ascii : (s : Bytes) → IsAscii s → lossy (length s) s ≡ s
unfolding lossy
lossy_ascii [] h = refl
lossy_ascii (a ∷ s) (ha, hs) = rw (chunk_ascii a s ha, lossy) (rw (lossy_ascii s hs))

check_utf8_ascii : (s : Bytes) → IsAscii s → check_utf8 (length s) s ≡ true
unfolding check_utf8
check_utf8_ascii [] h = refl
check_utf8_ascii (a ∷ s) (ha, hs) = rw (chunk_ascii a s ha, check_utf8) (check_utf8_ascii s hs)

-- An ASCII text is shown as it is.
pub from_utf8_lossy_ascii : (s : Bytes) → IsAscii s → from_utf8_lossy s ≡ s
unfolding from_utf8_lossy
from_utf8_lossy_ascii s h = lossy_ascii s h

pub from_utf8_ascii : (s : Bytes) → IsAscii s → from_utf8 s ≡ some s
unfolding from_utf8
from_utf8_ascii s h = rw (check_utf8_ascii s h)

-- An accepted text is the input.
pub from_utf8-some : (s : Bytes) {t : Bytes} → from_utf8 s ≡ some t → t ≡ s
unfolding from_utf8
from_utf8-some s h = ground arith

lossy-All : (P : ℕ → Type 0) → All P replacement → (f : ℕ) (s : Bytes) → All P s → All P (lossy f s)
unfolding lossy
lossy-All P marks zero s h = tt
lossy-All P marks (suc f) [] h = tt
lossy-All P marks (suc f) (a ∷ s) h =
    go (chunk a s) λ n. lossy-All P marks f (drop n (a ∷ s)) (All-drop P n (a ∷ s) h)
  where
    go :
        (k : Chunk)
        → ((n : ℕ) → All P (lossy f (drop n (a ∷ s))))
        → All P (elim k [
          | valid n ↦ take n (a ∷ s) ++ lossy f (drop n (a ∷ s))
          | invalid n ↦ replacement ++ lossy f (drop n (a ∷ s))
        ])
    go (valid n) on =
        All-append P (take n (a ∷ s)) (lossy f (drop n (a ∷ s))) (All-take P n (a ∷ s) h) (on n)
    go (invalid n) on = All-append P replacement (lossy f (drop n (a ∷ s))) marks (on n)

-- A property of the bytes of the text and of the replacement's is one of the text that is shown.
pub from_utf8_lossy-All :
    (P : ℕ → Type 0) (s : Bytes) → All P replacement → All P s → All P (from_utf8_lossy s)
unfolding from_utf8_lossy
from_utf8_lossy-All P s marks h = lossy-All P marks (length s) s h
