-- ===== src/Protocol/Parser/Block.antt =====
-- The data block of a printed set is read back.
use petracache.Base.{
  Bytes, Lacks, ap, arith, drop, drop-append_length, get_elem?, get_elem?-append_length, length,
  length-append, some, take, take-append_length, ℕ, ◌++◌, ◌+◌, ◌-◌, ◌<◌, ◌∙◌, ◌∷◌, ◌≡◌,
}
use petracache.Rust.Integer.{add_usize}
use petracache.Protocol.Command.{set}
use petracache.Protocol.Parser.{complete, SetLine, find_crlf, set_data, read_block}
use petracache.Protocol.Parser.Overflow.{set_data_enough, read_block_read, crlf_at_cr}
use petracache.Protocol.Parser.Line.{find_crlf_sound}
use petracache.Crates.Memchr.{Memchr}
use petracache.Protocol.Parser.Data.{max_slice}
use petracache.Outcome.{returned}
use petracache.Protocol.Parser.Print.{crlf}

-- The data block of a printed set command, behind its line, is read.
module _ (pre payload rest : Bytes) (total : ℕ) (l : SetLine) where
  abbrev whole : Bytes
  whole = pre ++ (payload ++ b'\r' ∷ b'\n' ∷ rest)

  byte_behind :
      (i : ℕ)
      → get_elem? whole (length pre + (length payload + i)) ≡ get_elem? (b'\r' ∷ b'\n' ∷ rest) i
  byte_behind i =
      get_elem?-append_length pre (payload ++ b'\r' ∷ b'\n' ∷ rest) (length payload + i)
      ∙ get_elem?-append_length payload (b'\r' ∷ b'\n' ∷ rest) i

  payload_of_slice :
      take (length pre + length payload - length pre) (drop (length pre) whole) ≡ payload
  payload_of_slice =
      let width : length pre + length payload - length pre ≡ length payload = omega arith in
      rw (width, drop-append_length pre (payload ++ b'\r' ∷ b'\n' ∷ rest))
        (take-append_length payload (b'\r' ∷ b'\n' ∷ rest))

  length-whole : length whole ≡ length pre + (length payload + (2 + length rest))
  length-whole = omega (
    arith,
    length-append {0} pre (payload ++ b'\r' ∷ b'\n' ∷ rest),
    length-append {0} payload (b'\r' ∷ b'\n' ∷ rest),
  )

  read_printed :
      length whole < max_slice
      → read_block whole (length pre) (length pre + length payload) total l
        ≡ returned (complete (set l.key l.flags l.exptime payload l.noreply) total)
  read_printed fits =
      let d = length pre + length payload in
      let first : d ≡ length pre + (length payload + 0) = omega arith in
      let second : d + 1 ≡ length pre + (length payload + 1) = omega arith in
      let ends =
        crlf_at_cr whole d b'\n' (omega (arith, length-whole))
          (ap (get_elem? whole) first ∙ byte_behind 0)
          (ap (get_elem? whole) second ∙ byte_behind 1) in
      read_block_read whole (length pre) d total l ends (omega arith) (omega (arith, length-whole))
      ∙ ap (λ s. returned (complete (set l.key l.flags l.exptime s l.noreply) total))
          payload_of_slice

pub set_data_printed :
    ⦃m : Memchr⦄ (line payload rest buf : Bytes) (l : SetLine)
    → Lacks b'\r' line
    → buf ≡ (line ++ crlf) ++ (payload ++ b'\r' ∷ b'\n' ∷ rest)
    → find_crlf buf ≡ some (length line)
    → l.bytes ≡ length payload
    → length buf < max_slice
    → set_data buf (length line) l
      ≡ returned (
          complete
            (set l.key l.flags l.exptime payload l.noreply)
            (length line + 2 + length payload + 2))
set_data_printed line payload rest buf l lacks same found size fits =
    let (cr, lf, within, before) = find_crlf_sound buf found in
    let pre : length (line ++ crlf) ≡ length line + 2 =
      omega (arith, length-append {0} line crlf) in
    let long : length buf ≡ length (line ++ crlf) + (length payload + (2 + length rest)) =
      ap length same ∙ length-whole (line ++ crlf) payload rest 0 l in
    let d : add_usize (length line + 2) l.bytes ≡ length line + 2 + length payload = omega arith in
    let total : add_usize (length line + 2 + length payload) 2
        ≡ length line + 2 + length payload + 2 =
      omega arith in
    set_data_enough buf (length line) cr lf within before fits l (omega arith)
    ∙ rw (d, total)
        (rw (same, ← pre)
          (read_printed (line ++ crlf) payload rest (length (line ++ crlf) + length payload + 2) l
            (rw same at fits)))
