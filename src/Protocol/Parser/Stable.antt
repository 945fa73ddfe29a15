-- ===== src/Protocol/Parser/Stable.antt =====
-- What `parse` has decided, more bytes behind the buffer do not change.
use petracache.Base.{
  Bool-cases, Bytes, List, Option-cases, [], arith, inl, inr, length, length-append, le→ltb-false,
  ltb, ltb-false→le, refl, sym, take-append_of_le, ℕ, ◌++◌, ◌<◌, ◌∙◌, ◌∷◌, ◌≡◌, ◌≢◌, ◌≤◌,
}
use petracache.Error.{ProtocolError}
use petracache.Result.{Result, ok, err}
use petracache.Outcome.{Outcome, returned}
use petracache.Rust.Integer.{add_usize}
use petracache.Crates.Memchr.{Memchr}
use petracache.Protocol.Parser.{
  error, ProtocolError, ParseResult, need_more_data, SetLine, find_crlf, set_line, set_data,
  parse_set, dispatch, parts_of, parse,
}
use petracache.Protocol.Parser.Line.{find_crlf_sound, find_crlf-append, parse_found, parse_open}
use petracache.Protocol.Parser.Data.{max_slice, read_block-append}

-- The parse has ended: in a command, in an error or in a panic.
abbrev pub Decided : Outcome ParseResult → Type 0
Decided r = r ≢ returned need_more_data

module _ (buf more : Bytes) (line_end : ℕ) (fits : length (buf ++ more) < max_slice) where
  set_data-append :
      (l : SetLine)
      → Decided (set_data buf line_end l)
      → set_data (buf ++ more) line_end l ≡ set_data buf line_end l
  unfolding set_data
  set_data-append l decided =
      let d = add_usize (add_usize line_end 2) l.bytes in
      let total = add_usize d 2 in
      elim (Bool-cases (ltb (length buf) total)) [
        | inl short ↦ absurd (decided (rw short))
        | inr enough ↦
            let le = ltb-false→le (length buf) total enough in
            let still =
              le→ltb-false (length (buf ++ more)) total
                (omega (arith, length-append {0} buf more)) in
            rw (enough, still)
              (read_block-append buf more (add_usize line_end 2) d total l le (omega arith) fits)
      ]

  parse_set-append :
      (parts : List Bytes)
      → Decided (parse_set parts buf line_end)
      → parse_set parts (buf ++ more) line_end ≡ parse_set parts buf line_end
  unfolding parse_set
  parse_set-append parts = go (set_line parts)
    where
      go :
          (r : Result SetLine ProtocolError)
          → Decided (elim r [ err e ↦ returned (error e) | ok l ↦ set_data buf line_end l ])
          → ◌≡◌ {A = Outcome ParseResult}
              (elim r [ err e ↦ returned (error e) | ok l ↦ set_data (buf ++ more) line_end l ])
              (elim r [ err e ↦ returned (error e) | ok l ↦ set_data buf line_end l ])
      go (err e) decided = refl
      go (ok l) decided = set_data-append l decided

  dispatch-append :
      (parts : List Bytes)
      → Decided (dispatch parts buf line_end)
      → dispatch parts (buf ++ more) line_end ≡ dispatch parts buf line_end
  unfolding dispatch
  dispatch-append [] decided = refl
  dispatch-append (name ∷ parts) decided = ground (arith, parse_set-append parts)

  dispatch_line-append :
      line_end ≤ length buf
      → Decided (dispatch (parts_of buf line_end) buf line_end)
      → dispatch (parts_of (buf ++ more) line_end) (buf ++ more) line_end
        ≡ dispatch (parts_of buf line_end) buf line_end
  dispatch_line-append within decided =
      rw (take-append_of_le line_end buf more within)
        (dispatch-append (parts_of buf line_end) decided)

module _ ⦃m : Memchr⦄ where
  -- Once the parse has ended, in a command, an error or a panic, bytes that arrive later change
  -- nothing of the outcome, as long as the buffer is shorter than 2^63 bytes.
  pub parse-append :
      (buf more : Bytes)
      → length (buf ++ more) < max_slice
      → Decided (parse buf)
      → parse (buf ++ more) ≡ parse buf
  parse-append buf more fits decided = elim (Option-cases (find_crlf buf)) [
    | inl open_line ↦ absurd (decided (parse_open buf open_line))
    | inr (e, found) ↦
        let within : e ≤ length buf = omega (arith, (find_crlf_sound buf found).2) in
        parse_found (buf ++ more) (find_crlf-append buf more found)
        ∙ dispatch_line-append buf more e fits within (rw (parse_found buf found) at decided)
        ∙ sym (parse_found buf found)
  ]
