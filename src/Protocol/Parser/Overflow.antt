-- ===== src/Protocol/Parser/Overflow.antt =====
-- Data lengths that wrap around: a set line can make the parser panic.
use petracache.Base.{
  Bool, Bytes, Lacks, List, Option, [], ap, arith, codes, drop, false, get_elem?, get_elem?-some,
  inl, inr, length, le→ltb-false, lt→ltb, none, refl, some, suc, sym, take, true, zero, ℕ, ◌+◌, ◌-◌,
  ◌<◌, ◌==◌, ◌^◌, ◌↔◌, ◌∙◌, ◌∷◌, ◌≡◌, ◌≢◌, ◌≤◌, ◌⊎◌,
}
use native.Mathlib.Decide.{dec_lt, ℕ_discrete}
use petracache.Error.{unexpected_data}
use petracache.Protocol.Command.{set}
use petracache.Result.{ok}
use petracache.Outcome.{Outcome, returned, panicked, index}
use petracache.Crates.Memchr.{Memchr}
use petracache.Rust.Integer.{add_usize}
use petracache.Protocol.Parser.{
  ParseResult, need_more_data, complete, error, SetLine, find_crlf, crlf_at, read_block, set_data,
  set_line, parts_of, dispatch, parse,
}
use petracache.Protocol.Parser.Line.{find_crlf_sound, parse_found}
use petracache.Protocol.Parser.Sound.{set_line_sound}
use petracache.Protocol.Parser.Verb.{lowercase, dispatch_set, parse_set_ok}
use petracache.Protocol.Parser.Data.{max_slice, crlf_at_far}

-- The end of the data block, computed in 64 bits, falls on the end of the command line, or the end
-- of the command wraps around to 0 or 1.
abbrev pub Overflows : ℕ → ℕ → Type 0
Overflows line_end bytes =
    (bytes ≡ 2 ^ 64 - 2) ⊎ (line_end + bytes ≡ 2 ^ 64 - 4) ⊎ (line_end + bytes ≡ 2 ^ 64 - 3)

get_elem?-take : (s : Bytes) (n i : ℕ) → i < n → get_elem? (take n s) i ≡ get_elem? s i
get_elem?-take s zero i h = absurd (omega arith)
get_elem?-take [] (suc n) i h = refl
get_elem?-take (c ∷ s) (suc n) zero h = refl
get_elem?-take (c ∷ s) (suc n) (suc i) h = get_elem?-take s n i (omega arith)

Lacks-ne : (c : ℕ) (s : Bytes) (i a : ℕ) → Lacks c s → get_elem? s i ≡ some a → a ≢ c
Lacks-ne c [] i a h e = absurd (none_ne e)
  where
    none_ne : ◌≢◌ {A = Option ℕ} none (some a)
    none_ne q = cc
Lacks-ne c (b ∷ s) zero a (hb, hs) e = ground arith
Lacks-ne c (b ∷ s) (suc i) a (hb, hs) e = Lacks-ne c s i a hs e

crlf_at_other :
    (buf : Bytes) (d a : ℕ) → get_elem? buf d ≡ some a → a ≢ b'\r' → crlf_at buf d ≡ returned false
unfolding crlf_at
crlf_at_other buf d a h ne = rw (h, index) (ground arith)

pub crlf_at_cr :
    (buf : Bytes) (d a : ℕ)
    → d + 1 < 2 ^ 64
    → get_elem? buf d ≡ some b'\r'
    → get_elem? buf (d + 1) ≡ some a
    → crlf_at buf d ≡ returned (a == b'\n')
unfolding crlf_at
crlf_at_cr buf d a lt h k =
    let next_place : add_usize d 1 ≡ d + 1 = omega arith in
    rw (next_place, h, index) (rw (k, index))

-- Within the buffer the test of the line end gives an answer.
crlf_at_within :
    (buf : Bytes) (d : ℕ)
    → d + 2 ≤ length buf
    → length buf < max_slice
    → (ends : Bool) × (crlf_at buf d ≡ returned ends)
crlf_at_within buf d le fits =
    let (a, at_d) = get_elem?-some buf d (omega arith) in
    let (c, at_n) = get_elem?-some buf (d + 1) (omega arith) in
    elim (ℕ_discrete a b'\r') [
      | yes cr ↦ (c == b'\n', crlf_at_cr buf d c (omega arith) (at_d ∙ ap some cr) at_n)
      | no other ↦ (false, crlf_at_other buf d a at_d other)
    ]

module _ (buf : Bytes) (start d total : ℕ) (l : SetLine) where
  read_block_refused :
      crlf_at buf d ≡ returned false
      → read_block buf start d total l ≡ returned (error unexpected_data)
  unfolding read_block
  read_block_refused h = rw h

  read_block_backwards :
      crlf_at buf d ≡ returned true → d < start → read_block buf start d total l ≡ panicked
  unfolding read_block
  read_block_backwards h lt = rw (h, lt→ltb d start lt)

  pub read_block_read :
      crlf_at buf d ≡ returned true
      → start ≤ d
      → d ≤ length buf
      → read_block buf start d total l
        ≡ returned (
            complete
              (set l.key l.flags l.exptime (take (d - start) (drop start buf)) l.noreply)
              total)
  unfolding read_block
  read_block_read h le fits = rw (h, le→ltb-false d start le, le→ltb-false (length buf) d fits)

  read_block_far : length buf ≤ d → read_block buf start d total l ≡ panicked
  unfolding read_block
  read_block_far h = rw (crlf_at_far buf d h)

module _ (buf : Bytes) (e : ℕ) (cr : get_elem? buf e ≡ some b'\r')
    (lf : get_elem? buf (e + 1) ≡ some b'\n') (within : e + 2 ≤ length buf)
    (lacks : Lacks b'\r' (take e buf)) (fits : length buf < max_slice) where
  -- Up to the end of the command line no data block ends but at that line's own end.
  crlf_at_before : (d : ℕ) → d < e + 2 → d ≢ e → crlf_at buf d ≡ returned false
  crlf_at_before d lt ne = elim (dec_lt d e) [
    | yes before ↦
        let (a, at_d) = get_elem?-some buf d (omega arith) in
        crlf_at_other buf d a at_d
          (Lacks-ne b'\r' (take e buf) d a lacks (get_elem?-take buf e d before ∙ at_d))
    | no behind ↦
        let last : d ≡ e + 1 = omega arith in
        rw last (crlf_at_other buf (e + 1) b'\n' lf (omega arith))
  ]

  read_block_near :
      (d total : ℕ) (l : SetLine)
      → d ≢ e
      → d + 2 ≤ length buf
      → read_block buf (e + 2) d total l ≢ panicked
  read_block_near d total l ne le p = elim (dec_lt d (e + 2)) [
    | yes before ↦
        returned-ne-panicked _
          (sym (read_block_refused buf (e + 2) d total l (crlf_at_before d before ne)) ∙ p)
    | no behind ↦ go (crlf_at_within buf d le fits)
  ]
    where
      returned-ne-panicked : (x : ParseResult) → returned x ≢ panicked
      returned-ne-panicked x q = cc

      go : (ends : Bool) × (crlf_at buf d ≡ returned ends) → ⊥
      go (true, h) = elim (dec_lt d (e + 2)) [
        | yes before ↦
            returned-ne-panicked _
              (sym (read_block_refused buf (e + 2) d total l (crlf_at_before d before ne)) ∙ p)
        | no behind ↦
            returned-ne-panicked _
              (sym (read_block_read buf (e + 2) d total l h (omega arith) (omega arith)) ∙ p)
      ]
      go (false, h) = returned-ne-panicked _ (sym (read_block_refused buf (e + 2) d total l h) ∙ p)

  pub set_data_enough :
      (l : SetLine)
      → add_usize (e + 2 + l.bytes) 2 ≤ length buf
      → set_data buf e l
        ≡ read_block buf
            (e + 2)
            (add_usize (e + 2) l.bytes)
            (add_usize (add_usize (e + 2) l.bytes) 2)
            l
  unfolding set_data
  set_data_enough l le =
      let start : add_usize e 2 ≡ e + 2 = omega arith in
      let total : add_usize (add_usize (e + 2) l.bytes) 2 ≤ length buf = omega arith in
      rw (start, le→ltb-false (length buf) (add_usize (add_usize (e + 2) l.bytes) 2) total)

  set_data_short :
      (l : SetLine)
      → length buf < add_usize (e + 2 + l.bytes) 2
      → set_data buf e l ≡ returned need_more_data
  unfolding set_data
  set_data_short l lt =
      let start : add_usize e 2 ≡ e + 2 = omega arith in
      let total : length buf < add_usize (add_usize (e + 2) l.bytes) 2 = omega arith in
      rw (start, lt→ltb (length buf) (add_usize (add_usize (e + 2) l.bytes) 2) total)

  set_data_panics :
      (l : SetLine) → l.bytes < 2 ^ 64 → Overflows e l.bytes → set_data buf e l ≡ panicked
  set_data_panics l word (inl max) =
      let at_line_end : add_usize (e + 2) l.bytes ≡ e = omega arith in
      set_data_enough l (omega arith)
      ∙ rw at_line_end (
          read_block_backwards buf (e + 2) e (add_usize e 2) l
            (crlf_at_cr buf e b'\n' (omega arith) cr lf) (omega arith))
  set_data_panics l word (inr h) =
      let le : add_usize (e + 2 + l.bytes) 2 ≤ length buf = omega arith in
      set_data_enough l le ∙ read_block_far buf (e + 2) _ _ l (omega arith)

  set_data_panicked :
      (l : SetLine) → l.bytes < 2 ^ 64 → set_data buf e l ≡ panicked → Overflows e l.bytes
  set_data_panicked l word p = elim (dec_lt (length buf) (add_usize (e + 2 + l.bytes) 2)) [
    | yes short ↦ absurd (returned_ne (sym (set_data_short l short) ∙ p))
    | no enough ↦ elim (ℕ_discrete l.bytes (2 ^ 64 - 2)) [
      | yes max ↦ inl max
      | no other ↦ elim (ℕ_discrete (e + l.bytes) (2 ^ 64 - 4)) [
        | yes zero_ ↦ inr (inl zero_)
        | no more ↦ elim (ℕ_discrete (e + l.bytes) (2 ^ 64 - 3)) [
          | yes one ↦ inr (inr one)
          | no fine ↦ absurd (
              read_block_near (add_usize (e + 2) l.bytes) _ l (omega arith) (omega arith)
                (sym (set_data_enough l (omega arith)) ∙ p))
        ]
      ]
    ]
  ]
    where
      returned_ne : ◌≢◌ {A = Outcome ParseResult} (returned need_more_data) panicked
      returned_ne q = cc

module _ ⦃m : Memchr⦄ where
  -- In a buffer shorter than 2^63 bytes, the parse of a set line whose fields are read panics
  -- exactly when the data length is 2^64 - 2, or takes the sum with the length of the line to
  -- 2^64 - 4 or 2^64 - 3.
  pub parse_set_panics_iff :
      (buf : Bytes) (e : ℕ) (name : Bytes) (parts : List Bytes) (l : SetLine)
      → length buf < max_slice
      → find_crlf buf ≡ some e
      → parts_of buf e ≡ name ∷ parts
      → lowercase name ≡ codes "set"
      → set_line parts ≡ ok l
      → (parse buf ≡ panicked) ↔ Overflows e l.bytes
  parse_set_panics_iff buf e name parts l fits found split_ verb line =
      let (cr, lf, within, lacks) = find_crlf_sound buf found in
      let word : l.bytes < 2 ^ 64 = omega (arith, (set_line_sound parts l line).bytes_le) in
      let whole : parse buf ≡ set_data buf e l =
        parse_found buf found
        ∙ ap (λ ps. dispatch ps buf e) split_
        ∙ dispatch_set name parts buf e verb
        ∙ parse_set_ok parts buf e l line in
      (
        (λ p. set_data_panicked buf e cr lf within lacks fits l word (sym whole ∙ p)),
        (λ o. whole ∙ set_data_panics buf e cr lf within lacks fits l word o),
      )
