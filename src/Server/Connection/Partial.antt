-- ===== src/Server/Connection/Partial.antt =====
-- The part of a request that has come, and how the parse goes on when the rest comes.
use petracache.Base.{
  Bytes, Option, [], ap, append-nil, append_assoc, arith, drop, drop-append_length,
  drop-append_of_le, length, length-append, none, refl, some, sym, take, take-append-drop,
  take-append_length, take-append_of_le, ◌++◌, ◌<◌, ◌∙◌, ◌∷◌, ◌≡◌, ◌≤◌,
}
use petracache.Server.Connection.{parse_buffer}
use petracache.Outcome.{Outcome, returned, panicked}
use petracache.Result.{ok}
use petracache.Crates.Memchr.{Memchr}
use petracache.Protocol.Command.{Command}
use petracache.Protocol.Parser.{
  ParseResult, complete, need_more_data, error, PendingStorageCommand, parse,
  parse_storage_command_line,
}
use petracache.Protocol.Parser.Data.{max_slice}
use petracache.Protocol.Parser.Sound.{IsWellFormed}
use petracache.Protocol.Parser.Bounds.{parse_sound}
use petracache.Protocol.Parser.Stable.{Decided, parse-append}
use petracache.Protocol.Parser.Resume.{parse_storage_data-eq-parse}
use petracache.Protocol.Parser.Print.{print}
use petracache.Protocol.Parser.RoundTrip.{parse-print}

pub append-nil_left : (a f : Bytes) → a ++ f ≡ [] → a ≡ []
append-nil_left [] f e = refl
append-nil_left (x ∷ a) f e = cc

-- Two ways to part the same bytes.
pub parted :
    (a f p q : Bytes)
    → a ++ f ≡ p ++ q
    → length p ≤ length a
    → (a ≡ p ++ drop (length p) a) × (drop (length p) a ++ f ≡ q)
parted a f p q e le =
    let front : take (length p) a ≡ p =
      sym (take-append_of_le (length p) a f le) ∙ ap (take (length p)) e ∙ take-append_length p q in
    (
      sym (take-append-drop (length p) a) ∙ ap (λ s. s ++ drop (length p) a) front,
      sym (drop-append_of_le (length p) a f le) ∙ ap (drop (length p)) e ∙ drop-append_length p q,
    )

module _ ⦃m : Memchr⦄ where
  -- A part of a request that is short of its end is not decided.
  pub parse_short :
      (buf more after : Bytes) (cmd : Command)
      → buf ++ more ≡ print cmd ++ after
      → IsWellFormed cmd
      → length (print cmd ++ after) < max_slice
      → length buf < length (print cmd)
      → parse buf ≡ returned need_more_data
  parse_short buf more after cmd e formed fits short = go (parse buf) refl
    where
      whole : parse (buf ++ more) ≡ returned (complete cmd (length (print cmd)))
      whole = ap parse e ∙ parse-print after cmd formed fits

      early : Decided (parse buf) → ⊥
      early decided =
          let same = sym (parse-append buf more (rw e fits) decided) ∙ whole in
          let taken =
            parse_sound buf cmd (length (print cmd))
              (omega (arith, ap length e, length-append {0} buf more)) same in
          absurd (omega (arith, taken.within))

      go : (o : Outcome ParseResult) → parse buf ≡ o → parse buf ≡ returned need_more_data
      go panicked q = absurd (early (λ h. cc))
      go (returned (complete c n)) q = absurd (early (λ h. cc))
      go (returned (error x)) q = absurd (early (λ h. cc))
      go (returned need_more_data) q = q

  -- What waits for data is taken up as a parse of the whole buffer would.
  abbrev pub Resumes : Option PendingStorageCommand → Bytes → Type 0
  Resumes pending buf = (more : Bytes) → parse_buffer pending (buf ++ more) ≡ parse (buf ++ more)

  pub Resumes-none : (buf : Bytes) → Resumes none buf
  unfolding parse_buffer
  Resumes-none buf more = refl

  pub Resumes-append :
      (pending : Option PendingStorageCommand) (buf chunk : Bytes)
      → Resumes pending buf
      → Resumes pending (buf ++ chunk)
  Resumes-append pending buf chunk h more =
      ap (parse_buffer pending) (append_assoc buf chunk more)
      ∙ h (chunk ++ more)
      ∙ ap parse (sym (append_assoc buf chunk more))

  pub Resumes-here :
      (pending : Option PendingStorageCommand) (buf : Bytes)
      → Resumes pending buf
      → parse_buffer pending buf ≡ parse buf
  Resumes-here pending buf h =
      ap (parse_buffer pending) (sym (append-nil buf)) ∙ h [] ∙ ap parse (append-nil buf)

  pub Resumes-line :
      (p : PendingStorageCommand) (buf : Bytes)
      → parse_storage_command_line buf ≡ ok (some p)
      → Resumes (some p) buf
  unfolding parse_buffer
  Resumes-line p buf h more = parse_storage_data-eq-parse buf more p h
