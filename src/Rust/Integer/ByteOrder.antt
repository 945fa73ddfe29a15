-- ===== src/Rust/Integer/ByteOrder.antt =====
-- Little-endian bytes are read back.
use petracache.Base.{
  ℕ, zero, suc, ◌+◌, ◌*◌, ◌/◌, ◌%◌, ◌<◌, ◌≡◌, refl, [], ◌∷◌, arith, Bytes, IsBytes, length,
}
use petracache.Rust.Integer.{to_le_bytes, from_le_bytes}

pub length-to_le_bytes : (w n : ℕ) → length (to_le_bytes w n) ≡ w
unfolding to_le_bytes
length-to_le_bytes zero n = refl
length-to_le_bytes (suc w) n = omega (arith, length-to_le_bytes w (n / 256))

pub to_le_bytes-IsBytes : (w n : ℕ) → IsBytes (to_le_bytes w n)
unfolding to_le_bytes
to_le_bytes-IsBytes zero n = tt
to_le_bytes-IsBytes (suc w) n = (omega arith, to_le_bytes-IsBytes w (n / 256))

-- The largest number that `w` bytes hold, plus one.
abbrev pub capacity : ℕ → ℕ
capacity zero = 1
capacity (suc w) = 256 * capacity w

pub from_le_bytes-to_le_bytes : (w n : ℕ) → n < capacity w → from_le_bytes (to_le_bytes w n) ≡ n
unfolding from_le_bytes to_le_bytes
from_le_bytes-to_le_bytes zero n h = omega arith
from_le_bytes-to_le_bytes (suc w) n h =
    omega (arith, from_le_bytes-to_le_bytes w (n / 256) (omega arith))

pub from_le_bytes-lt : (s : Bytes) → IsBytes s → from_le_bytes s < capacity (length s)
unfolding from_le_bytes
from_le_bytes-lt [] h = omega arith
from_le_bytes-lt (b ∷ s) (hb, hs) = omega (arith, from_le_bytes-lt s hs)

pub to_le_bytes-from_le_bytes :
    (s : Bytes) → IsBytes s → to_le_bytes (length s) (from_le_bytes s) ≡ s
unfolding from_le_bytes to_le_bytes
to_le_bytes-from_le_bytes [] h = refl
to_le_bytes-from_le_bytes (b ∷ s) (hb, hs) =
    let n = from_le_bytes s in
    let low : (b + 256 * n) % 256 ≡ b = omega arith in
    let high : (b + 256 * n) / 256 ≡ n = omega arith in
    rw (low, high) (rw (to_le_bytes-from_le_bytes s hs))
