-- ===== src/Protocol/Parser/Faults.antt =====
-- What a parse of any bytes gives.
use petracache.Base.{
  All, Bytes, List, Option-cases, [], arith, codes, false, if_both, if◌then◌else◌, inl, inr,
  is_empty, length, ltb, not, refl, some, sym, ℕ, ◌+◌, ◌∷◌, ◌≡◌,
}
use mathlib.Core.Path.{subst}
use petracache.Protocol.Parser.{
  parse_storage_data, noreply_among, find_crlf, parse, cmd_eq, delete, parse_storage_command_line,
  parse_delete, parse_get, PendingStorageCommand, Memchr, dispatch, need_more_data, rest, ok,
  crlf_at, error, err, SetLine, get_keys, read_block, Result, complete, set_line, ParseResult,
  parts_of, next_key, parse_set, set_data,
}
use petracache.Outcome.{panicked, ◌>>=◌, slice, returned, Outcome}
use petracache.Error.{invalid_command, ProtocolError}
use petracache.Rust.Utf8.{from_utf8_lossy}
use petracache.Result.{Refuses-elim}
use petracache.Protocol.Parser.Sound.{
  get_keys_sound, next_key_sound, set_line_sound, IsSetLine, IsWellFormed,
}
use petracache.Protocol.Command.{get, IsValidKey}
use petracache.Protocol.Parser.Resume.{parse_storage_data-eq-set_data, pending_set_line, fields_of}
use petracache.Protocol.Parser.Line.{find_crlf_sound, parse_found, parse_open}
use petracache.Protocol.Parser.Messages.{
  IsOneLine, AreWords, invalid_command-IsOneLine, shown_Lacks, next_key-Refuses, get_keys-Refuses,
  set_line-Refuses, parts_of-AreWords, fields_IsOneLine,
}

abbrev pub IsSound : ParseResult → Type 0
IsSound (complete cmd n) = IsWellFormed cmd
IsSound need_more_data = Unit
IsSound (error e) = IsOneLine e

-- What is returned, if there is no panic.
abbrev pub Gives : Outcome ParseResult → Type 0
Gives (returned o) = IsSound o
Gives panicked = Unit

Gives-bind :
    {A : Type 0} (o : Outcome A) (f : A → Outcome ParseResult)
    → ((a : A) → Gives (f a))
    → Gives (o >>= f)
Gives-bind (returned a) f h = h a
Gives-bind panicked f h = tt

set_data-Gives : (buf : Bytes) (e : ℕ) (l : SetLine) → IsSetLine l → Gives (set_data buf e l)
unfolding set_data read_block
set_data-Gives buf e l v = if_both Gives (ltb (length buf) _) tt (
    Gives-bind (crlf_at buf _) _ λ ends.
      if_both Gives (not ends) fields_IsOneLine.3
        (Gives-bind (slice buf _ _) _ λ block. (v.valid_key, v.flags_le, v.exptime_le)))

parse_set-Gives :
    (parts : List Bytes) (buf : Bytes) (e : ℕ) → AreWords parts → Gives (parse_set parts buf e)
unfolding parse_set
parse_set-Gives parts buf e h = go (set_line parts) refl
  where
    go :
        (o : Result SetLine ProtocolError)
        → set_line parts ≡ o
        → Gives (elim o [ err x ↦ returned (error x) | ok l ↦ set_data buf e l ])
    go (err x) eq = Refuses-elim IsOneLine (set_line parts) (set_line-Refuses parts h) eq
    go (ok l) eq = set_data-Gives buf e l (set_line_sound parts l eq)

parse_get-IsSound : (parts : List Bytes) (n : ℕ) → AreWords parts → IsSound (parse_get parts n)
unfolding parse_get
parse_get-IsSound parts n h = go (get_keys parts []) refl
  where
    some_keys :
        (keys : List Bytes)
        → All IsValidKey keys
        → IsSound (
            if is_empty keys
            then error (invalid_command (codes "get requires at least one key"))
            else complete (get keys) n)
    some_keys [] v = invalid_command-IsOneLine (codes "get requires at least one key") (omega arith)
    some_keys (key ∷ keys) v = ((λ e. cc), v)

    go :
        (o : Result (List Bytes) ProtocolError)
        → get_keys parts [] ≡ o
        → IsSound (elim o [
          | err e ↦ error e
          | ok keys ↦
              if is_empty keys
              then error (invalid_command (codes "get requires at least one key"))
              else complete (get keys) n
        ])
    go (err e) eq = Refuses-elim IsOneLine (get_keys parts []) (get_keys-Refuses parts [] h) eq
    go (ok keys) eq = some_keys keys (get_keys_sound parts [] tt eq)

parse_delete-IsSound :
    (parts : List Bytes) (n : ℕ) → AreWords parts → IsSound (parse_delete parts n)
unfolding parse_delete
parse_delete-IsSound parts n h = go (next_key (codes "delete requires a key") parts) refl
  where
    go :
        (o : Result Bytes ProtocolError)
        → next_key (codes "delete requires a key") parts ≡ o
        → IsSound (elim o [
          | err e ↦ error e
          | ok key ↦ complete (delete key (noreply_among (rest parts) false)) n
        ])
    go (err e) eq =
        Refuses-elim IsOneLine (next_key (codes "delete requires a key") parts)
          (next_key-Refuses (codes "delete requires a key") parts (omega arith) h) eq
    go (ok key) eq = next_key_sound (codes "delete requires a key") parts key eq

dispatch-Gives :
    (parts : List Bytes) (buf : Bytes) (e : ℕ) → AreWords parts → Gives (dispatch parts buf e)
unfolding dispatch
dispatch-Gives [] buf e h = invalid_command-IsOneLine (codes "empty command") (omega arith)
dispatch-Gives (name ∷ parts) buf e (h, hs) =
    if_both Gives (is_empty name) (invalid_command-IsOneLine (codes "empty command") (omega arith))
      (if_both Gives (cmd_eq name (codes "get")) (parse_get-IsSound parts (e + 2) hs) (
        if_both Gives (cmd_eq name (codes "set")) (parse_set-Gives parts buf e hs) (
          if_both Gives (cmd_eq name (codes "delete")) (parse_delete-IsSound parts (e + 2) hs) (
            if_both Gives (cmd_eq name (codes "version")) tt (
              if_both Gives (cmd_eq name (codes "quit")) tt
                (invalid_command-IsOneLine (from_utf8_lossy name) (shown_Lacks name h)))))))

module _ ⦃m : Memchr⦄ where
  -- Whatever the bytes of the buffer are, the parse asks for more bytes, panics, gives a command
  -- with valid keys and numbers that fit their types, or refuses with an error whose message has
  -- no carriage return, though it quotes what the client sent.
  pub parse-Gives : (buf : Bytes) → Gives (parse buf)
  parse-Gives buf = elim (Option-cases (find_crlf buf)) [
    | inl open_line ↦ subst Gives (sym (parse_open buf open_line)) tt
    | inr (e, found) ↦ subst Gives (sym (parse_found buf found)) (
        dispatch-Gives (parts_of buf e) buf e
          (parts_of-AreWords buf e (find_crlf_sound buf found).3))
  ]

  -- The fields of a set line that waits for its data fit their types.
  pub pending-IsSetLine :
      (buf : Bytes) (p : PendingStorageCommand)
      → parse_storage_command_line buf ≡ ok (some p)
      → IsSetLine (fields_of p)
  pending-IsSetLine buf p h =
      let (parts, line) = pending_set_line buf p h in set_line_sound parts (fields_of p) line

-- The same holds of a parse that resumes a set line whose fields fit their types.
pub parse_storage_data-Gives :
    (buf : Bytes) (p : PendingStorageCommand)
    → IsSetLine (fields_of p)
    → Gives (parse_storage_data buf p)
parse_storage_data-Gives buf p v =
    subst Gives (sym (parse_storage_data-eq-set_data buf p))
      (set_data-Gives buf p.command_line_end (fields_of p) v)
