-- ===== src/Protocol/Parser/Bounds.antt =====
-- A parsed command takes bytes that the buffer has, two at least.
use mathlib.Core.Path.{subst}
use petracache.Base.{
  Bool, Bool-cases, Bytes, List, Option-cases, [], arith, codes, false, if_cases, if◌then◌else◌,
  inl, inr, is_empty, length, ltb, ltb-false→le, not, refl, sym, true, ℕ, ◌+◌, ◌<◌, ◌^◌, ◌∙◌, ◌∷◌,
  ◌≡◌, ◌≢◌, ◌≤◌,
}
use native.Mathlib.Decide.{dec_lt}
use petracache.Result.{Result, ok, err}
use petracache.Outcome.{Outcome, returned, panicked, slice, ◌>>=◌, >>=-eq-returned}
use petracache.Crates.Memchr.{Memchr}
use petracache.Rust.Integer.{add_usize}
use petracache.Error.{ProtocolError, unexpected_data}
use petracache.Protocol.Command.{Command, set, version, quit}
use petracache.Protocol.Parser.{
  ParseResult, complete, need_more_data, error, SetLine, find_crlf, crlf_at, read_block, set_line,
  set_data, parse_set, cmd_eq, dispatch, parts_of, parse,
}
use petracache.Protocol.Parser.Line.{find_crlf_sound, parse_found, parse_open}
use petracache.Protocol.Parser.Data.{max_slice, crlf_at_far}
use petracache.Protocol.Parser.Sound.{
  IsWellFormed, IsSetLine, set_line_sound, parse_get_sound, parse_delete_sound,
}

-- The command is well formed and its bytes are bytes of the buffer.
pub record IsTaken (buf : Bytes) (cmd : Command) (n : ℕ) : Type 0 where
  pub well_formed : IsWellFormed cmd
  pub some_bytes : 2 ≤ n
  pub within : n ≤ length buf

returned_complete :
    {c d : Command} {k n : ℕ}
    → ◌≡◌ {A = Outcome ParseResult} (returned (complete c k)) (returned (complete d n))
    → (c ≡ d) × (k ≡ n)
returned_complete h = (cc, cc)

module _ (P : Command → Type 0) (l : SetLine)
    (formed : (block : Bytes) → P (set l.key l.flags l.exptime block l.noreply)) where
  read_block_sound :
      (buf : Bytes) (start d total n : ℕ) (cmd : Command)
      → read_block buf start d total l ≡ returned (complete cmd n)
      → (n ≡ total) × P cmd × (crlf_at buf d ≢ panicked)
  unfolding read_block
  read_block_sound buf start d total n cmd h =
      let (ends, tested, later) = >>=-eq-returned (crlf_at buf d) _ h in go ends tested later
    where
      read : Outcome ParseResult
      read = slice buf start d >>= λ block.
          returned (complete (set l.key l.flags l.exptime block l.noreply) total)

      go :
          (ends : Bool)
          → crlf_at buf d ≡ returned ends
          → (if not ends then returned (error unexpected_data) else read)
            ≡ returned (complete cmd n)
          → (n ≡ total) × P cmd × (crlf_at buf d ≢ panicked)
      go false t q = cc
      go true t q =
          let (block, whole, same) = >>=-eq-returned (slice buf start d) _ q in
          let (c, k) = returned_complete same in (sym k, subst P c (formed block), (λ p. cc))

  pub set_data_bounds :
      (buf : Bytes) (e n : ℕ) (cmd : Command)
      → length buf < max_slice
      → set_data buf e l ≡ returned (complete cmd n)
      → P cmd × (2 ≤ n) × (n ≤ length buf)
  unfolding set_data
  set_data_bounds buf e n cmd fits h =
      let d = add_usize (add_usize e 2) l.bytes in
      let total = add_usize d 2 in
      elim (Bool-cases (ltb (length buf) total)) [
        | inl short ↦ absurd (returned_ne (rw short at h))
        | inr enough ↦
            let le = ltb-false→le (length buf) total enough in
            let (same, holds, tested) =
              read_block_sound buf (add_usize e 2) d total n cmd (rw enough at h) in
            elim (dec_lt (d + 2) (2 ^ 64)) [
              | yes near ↦ (holds, omega arith, omega arith)
              | no far ↦ absurd (tested (crlf_at_far buf d (omega arith)))
            ]
      ]
    where
      returned_ne :
          ◌≢◌ {A = Outcome ParseResult} (returned need_more_data) (returned (complete cmd n))
      returned_ne q = cc

set_data_sound :
    (buf : Bytes) (e n : ℕ) (l : SetLine) (cmd : Command)
    → length buf < max_slice
    → IsSetLine l
    → set_data buf e l ≡ returned (complete cmd n)
    → IsTaken buf cmd n
set_data_sound buf e n l cmd fits v h =
    let (formed, some_bytes, within) =
      set_data_bounds IsWellFormed l (λ block. (v.valid_key, v.flags_le, v.exptime_le)) buf e n cmd
        fits h in
    record { well_formed = formed; some_bytes = some_bytes; within = within }

parse_set_sound :
    (parts : List Bytes) (buf : Bytes) (e n : ℕ) (cmd : Command)
    → length buf < max_slice
    → parse_set parts buf e ≡ returned (complete cmd n)
    → IsTaken buf cmd n
unfolding parse_set
parse_set_sound parts buf e n cmd fits h = go (set_line parts) refl h
  where
    go :
        (r : Result SetLine ProtocolError)
        → set_line parts ≡ r
        → (elim r [ err x ↦ returned (error x) | ok l ↦ set_data buf e l ])
          ≡ returned (complete cmd n)
        → IsTaken buf cmd n
    go (err x) eq q = cc
    go (ok l) eq q = set_data_sound buf e n l cmd fits (set_line_sound parts l eq) q

module _ (buf : Bytes) (e n : ℕ) (cmd : Command) (within : e + 2 ≤ length buf) where
  taken : (n ≡ e + 2) × IsWellFormed cmd → IsTaken buf cmd n
  taken (place, formed) = record {
    well_formed = formed;
    some_bytes = omega arith;
    within = omega arith;
  }

  dispatch_sound :
      (parts : List Bytes)
      → length buf < max_slice
      → dispatch parts buf e ≡ returned (complete cmd n)
      → IsTaken buf cmd n
  unfolding dispatch
  dispatch_sound [] fits h = cc
  dispatch_sound (name ∷ parts) fits h =
      if_cases (is_empty name) h (λ q. cc)
        λ h1.
          if_cases (cmd_eq name (codes "get")) h1
            (λ q. taken (parse_get_sound parts (e + 2) n cmd (returned_injective q)))
            λ h2.
              if_cases (cmd_eq name (codes "set")) h2
                (λ q. parse_set_sound parts buf e n cmd fits q)
                λ h3.
                  if_cases (cmd_eq name (codes "delete")) h3
                    (λ q. taken (parse_delete_sound parts (e + 2) n cmd (returned_injective q)))
                    λ h4.
                      if_cases (cmd_eq name (codes "version")) h4 (λ q. bare version tt q)
                        λ h5.
                          if_cases (cmd_eq name (codes "quit")) h5 (λ q. bare quit tt q) (λ q. cc)
    where
      returned_injective :
          {x y : ParseResult} → ◌≡◌ {A = Outcome ParseResult} (returned x) (returned y) → x ≡ y
      returned_injective q = cc

      bare :
          (c : Command)
          → IsWellFormed c
          → ◌≡◌ {A = Outcome ParseResult}
              (returned (complete c (e + 2)))
              (returned (complete cmd n))
          → IsTaken buf cmd n
      bare c formed q =
          let (same, place) = returned_complete q in
          taken (sym place, subst IsWellFormed same formed)

module _ ⦃m : Memchr⦄ where
  -- A command that is parsed from a buffer shorter than 2^63 bytes has valid keys and numbers
  -- that fit their types, and it takes two bytes or more off the buffer and no more than the
  -- buffer holds.
  pub parse_sound :
      (buf : Bytes) (cmd : Command) (n : ℕ)
      → length buf < max_slice
      → parse buf ≡ returned (complete cmd n)
      → IsTaken buf cmd n
  parse_sound buf cmd n fits h = elim (Option-cases (find_crlf buf)) [
    | inl open_line ↦ absurd (returned_ne (sym (parse_open buf open_line) ∙ h))
    | inr (e, found) ↦
        dispatch_sound buf e n cmd (find_crlf_sound buf found).2 (parts_of buf e) fits
          (sym (parse_found buf found) ∙ h)
  ]
    where
      returned_ne :
          ◌≢◌ {A = Outcome ParseResult} (returned need_more_data) (returned (complete cmd n))
      returned_ne q = cc
