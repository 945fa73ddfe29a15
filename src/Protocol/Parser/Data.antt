-- ===== src/Protocol/Parser/Data.antt =====
-- The data block of a set command, in front of more bytes.
use petracache.Base.{
  Bool-cases, Bytes, arith, drop, drop-append_of_le, get_elem?-append_left, get_elem?-none, inl,
  inr, length, length-append, length-drop, le→ltb-false, ltb, ltb-false→le, take-append_of_le, ℕ,
  ◌++◌, ◌+◌, ◌-◌, ◌<◌, ◌^◌, ◌≡◌, ◌≤◌,
}
use native.Mathlib.Decide.{dec_lt}
use petracache.Outcome.{panicked, index, slice}
use petracache.Rust.Integer.{add_usize}
use petracache.Protocol.Parser.{SetLine, crlf_at, read_block}

-- No slice of bytes is as long as this.
abbrev pub max_slice : ℕ
max_slice = 2 ^ 63

index-append : (buf more : Bytes) (i : ℕ) → i < length buf → index (buf ++ more) i ≡ index buf i
index-append buf more i h = rw (get_elem?-append_left buf more i h, index)

crlf_at-append :
    (buf more : Bytes) (d : ℕ)
    → d + 2 ≤ length buf
    → length buf < max_slice
    → crlf_at (buf ++ more) d ≡ crlf_at buf d
unfolding crlf_at
crlf_at-append buf more d h fits =
    let small : add_usize d 1 ≡ d + 1 = omega arith in
    rw (small, index-append buf more d (omega arith), index-append buf more (d + 1) (omega arith))

-- An index that wraps around is out of bounds.
pub crlf_at_far : (buf : Bytes) (d : ℕ) → length buf ≤ d → crlf_at buf d ≡ panicked
unfolding crlf_at
crlf_at_far buf d h = rw (get_elem?-none buf d h, index)

slice-append :
    (buf more : Bytes) (start end : ℕ)
    → end ≤ length buf
    → slice (buf ++ more) start end ≡ slice buf start end
slice-append buf more start end h = elim (Bool-cases (ltb end start)) [
  | inl before ↦ rw before
  | inr ordered ↦
      let le = ltb-false→le end start ordered in
      rw (
        ordered,
        le→ltb-false (length buf) end h,
        le→ltb-false (length (buf ++ more)) end (omega (arith, length-append {0} buf more)),
        drop-append_of_le start buf more (omega arith),
        take-append_of_le (end - start) (drop start buf) more
            (omega (arith, length-drop {0} start buf)),
      )
]

-- A block whose end fits the buffer is read alike in front of more bytes; one whose end wraps
-- around lies behind every buffer.
pub read_block-append :
    (buf more : Bytes) (start d total : ℕ) (l : SetLine)
    → add_usize d 2 ≤ length buf
    → d < 2 ^ 64
    → length (buf ++ more) < max_slice
    → read_block (buf ++ more) start d total l ≡ read_block buf start d total l
unfolding read_block
read_block-append buf more start d total l le word fits =
    let longer = length-append {0} buf more in
    elim (dec_lt (d + 2) (2 ^ 64)) [
      | yes near ↦ rw (
        crlf_at-append buf more d (omega arith) (omega arith),
        slice-append buf more start d (omega arith),
      )
      | no far ↦ rw (crlf_at_far buf d (omega arith), crlf_at_far (buf ++ more) d (omega arith))
    ]
