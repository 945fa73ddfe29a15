-- ===== src/Rust/Integer.antt =====
-- `str::parse` and `to_string` of the unsigned integers, and their little-endian bytes.
pub mod Decimal
pub mod ByteOrder
use petracache.Base.{
  ℕ, zero, suc, ◌+◌, ◌-◌, ◌*◌, ◌/◌, ◌%◌, ◌^◌, ◌<◌, ◌≤◌, ◌≡◌, refl, Bool, true, false, ◌||◌, Option,
  none, some, List, [], ◌∷◌, ◌++◌, arith, Bytes, All, length, codes, ltb, leb, ◌==◌, if◌then◌else◌,
}

abbrev pub max_u32 : ℕ
max_u32 = 2 ^ 32 - 1

abbrev pub max_u64 : ℕ
max_u64 = 2 ^ 64 - 1

-- `usize` has 64 bits.
abbrev pub usize_mod : ℕ
usize_mod = 2 ^ 64

-- The checked loop of `from_str_radix`: `none` on a byte that is no digit and on overflow.
unfoldable pub scan : ℕ → Bytes → ℕ → Option ℕ
scan max [] n = some n
scan max (c ∷ s) n =
    let rest = scan max s (n * 10 + (c - b'0')) in
    if ltb c b'0' || ltb b'9' c then none else if ltb max (n * 10 + (c - b'0')) then none else rest

some_digits : ℕ → Bytes → Option ℕ
some_digits max [] = none
some_digits max (c ∷ s) = scan max (c ∷ s) 0

-- `str::parse` at an unsigned type with this largest value; one leading `+` is accepted.
unfoldable pub parse_uint : ℕ → Bytes → Option ℕ
unfolding scan some_digits
parse_uint max [] = none
parse_uint max (c ∷ s) = if c == b'+' then some_digits max s else scan max (c ∷ s) 0

decimal : ℕ → ℕ → Bytes
decimal zero n = []
decimal (suc f) n = elim (ltb n 10) [
  | true ↦ (b'0' + n) ∷ []
  | false ↦ decimal f (n / 10) ++ (b'0' + n % 10) ∷ []
]

-- The fuel exceeds the number of digits.
unfoldable pub to_string : ℕ → Bytes
unfolding decimal
to_string n = decimal (suc n) n

-- `to_le_bytes` at a width of `w` bytes.
unfoldable pub to_le_bytes : ℕ → ℕ → Bytes
to_le_bytes zero n = []
to_le_bytes (suc w) n = (n % 256) ∷ to_le_bytes w (n / 256)

unfoldable pub from_le_bytes : Bytes → ℕ
from_le_bytes [] = 0
from_le_bytes (b ∷ s) = b + 256 * from_le_bytes s

-- The sum of two `usize` values in a release build, which wraps around.
abbrev pub add_usize : ℕ → ℕ → ℕ
add_usize a b = (a + b) % usize_mod

to_string_test : to_string 18446744073709551615 ≡ codes "18446744073709551615"
unfolding to_string
to_string_test = refl

parse_uint_test :
    (parse_uint max_u32 (codes "+042") ≡ some 42)
    × (parse_uint max_u32 (codes "4294967296") ≡ none)
    × (parse_uint max_u32 (codes "+") ≡ none)
    × (parse_uint max_u32 (codes "-1") ≡ none)
unfolding parse_uint
parse_uint_test = (refl, refl, refl, refl)
