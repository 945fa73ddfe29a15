-- ===== src/Protocol/Parser/Resume.antt =====
-- A set command whose data is late: the parse that resumes it agrees with a parse from the start.
use petracache.Base.{
  Bytes, List, Option, Option-cases, [], ap, arith, codes, inl, inr, length, none, refl, some, sym,
  take-append_of_le, true, ℕ, ◌++◌, ◌∙◌, ◌∷◌, ◌≡◌, ◌≢◌, ◌≤◌,
}
use petracache.Error.{ProtocolError}
use petracache.Result.{Result, ok, ◌>>=◌, >>=-assoc, >>=-eq-ok}
use petracache.Crates.Memchr.{Memchr}
use petracache.Protocol.Parser.{
  PendingStorageCommand, SetLine, find_crlf, set_line, set_data, dispatch, parts_of, parse,
  parse_storage_data, storage_fields, storage_parts, parse_storage_command_line, cmd_eq,
}
use petracache.Protocol.Parser.Line.{find_crlf_sound, find_crlf-append, parse_found}
use petracache.Protocol.Parser.Verb.{cmd_eq_sound, dispatch_set, parse_set_ok}
use petracache.Rust.Split.{split}

abbrev pub fields_of : PendingStorageCommand → SetLine
fields_of p = record {
  key = p.key;
  flags = p.flags;
  exptime = p.exptime;
  bytes = p.bytes;
  noreply = p.noreply;
}

-- The two copies of the data block's code agree.
pub parse_storage_data-eq-set_data :
    (buf : Bytes) (p : PendingStorageCommand)
    → parse_storage_data buf p ≡ set_data buf p.command_line_end (fields_of p)
unfolding parse_storage_data set_data
parse_storage_data-eq-set_data buf p = refl

pending_of : SetLine → ℕ → PendingStorageCommand
pending_of l line_end = record {
  key = l.key;
  flags = l.flags;
  exptime = l.exptime;
  bytes = l.bytes;
  noreply = l.noreply;
  command_line_end = line_end;
}

-- The two copies of the line's code agree.
storage_fields-eq-set_line :
    (parts : List Bytes) (line_end : ℕ)
    → storage_fields parts line_end ≡ (set_line parts >>= λ l. ok (some (pending_of l line_end)))
unfolding storage_fields set_line pending_of
storage_fields-eq-set_line parts line_end = simp >>=-assoc

pending_lines :
    (parts : List Bytes) (line_end : ℕ) (p : PendingStorageCommand)
    → storage_fields parts line_end ≡ ok (some p)
    → (set_line parts ≡ ok (fields_of p)) × (p.command_line_end ≡ line_end)
unfolding pending_of
pending_lines parts line_end p h =
    let (l, e, q) =
      >>=-eq-ok (set_line parts) (λ l. ok (some (pending_of l line_end)))
        (sym (storage_fields-eq-set_line parts line_end) ∙ h) in
    (ground arith, ground arith)

-- A line that leaves a pending command is a set line with these fields.
storage_parts_sound :
    (parts : List Bytes) (buf : Bytes) (line_end : ℕ) (p : PendingStorageCommand)
    → storage_parts parts line_end ≡ ok (some p)
    → (dispatch parts buf line_end ≡ set_data buf line_end (fields_of p))
      × (p.command_line_end ≡ line_end)
unfolding storage_parts
storage_parts_sound [] buf line_end p h = cc
storage_parts_sound (name ∷ parts) buf line_end p h =
    let is_set : cmd_eq name (codes "set") ≡ true = ground arith in
    let waits : storage_fields parts line_end ≡ ok (some p) = ground arith in
    let (line, place) = pending_lines parts line_end p waits in
    (
      dispatch_set name parts buf line_end (cmd_eq_sound name (codes "set") is_set)
          ∙ parse_set_ok parts buf line_end (fields_of p) line,
      place,
    )

set_line_of :
    (parts : List Bytes) (line_end : ℕ) (p : PendingStorageCommand)
    → storage_parts parts line_end ≡ ok (some p)
    → (words : List Bytes) × (set_line words ≡ ok (fields_of p))
unfolding storage_parts
set_line_of [] line_end p h = cc
set_line_of (name ∷ parts) line_end p h = (parts, (pending_lines parts line_end p (ground arith)).0)

nothing_pending :
    {p : PendingStorageCommand}
    → ◌≢◌ {A = Result (Option PendingStorageCommand) ProtocolError} (ok none) (ok (some p))
nothing_pending e = cc

module _ ⦃m : Memchr⦄ where
  storage_line_open :
      (buf : Bytes) → find_crlf buf ≡ none → parse_storage_command_line buf ≡ ok none
  unfolding parse_storage_command_line
  storage_line_open buf h = rw (h, parse_storage_command_line)

  storage_line_found :
      (buf : Bytes) {e : ℕ}
      → find_crlf buf ≡ some e
      → parse_storage_command_line buf ≡ storage_parts (parts_of buf e) e
  unfolding parse_storage_command_line
  storage_line_found buf h = rw (h, parse_storage_command_line)

  -- The set line whose fields a pending command has.
  pub pending_set_line :
      (buf : Bytes) (p : PendingStorageCommand)
      → parse_storage_command_line buf ≡ ok (some p)
      → (parts : List Bytes) × (set_line parts ≡ ok (fields_of p))
  pending_set_line buf p h = elim (Option-cases (find_crlf buf)) [
    | inl open_line ↦ absurd (nothing_pending (sym (storage_line_open buf open_line) ∙ h))
    | inr (e, found) ↦ set_line_of (parts_of buf e) e p (sym (storage_line_found buf found) ∙ h)
  ]

  -- A set that was left pending on a prefix of the buffer is completed, refused or kept waiting
  -- by parse_storage_data exactly as by a parse of the whole buffer.
  pub parse_storage_data-eq-parse :
      (buf more : Bytes) (p : PendingStorageCommand)
      → parse_storage_command_line buf ≡ ok (some p)
      → parse_storage_data (buf ++ more) p ≡ parse (buf ++ more)
  parse_storage_data-eq-parse buf more p h = elim (Option-cases (find_crlf buf)) [
    | inl open_line ↦ absurd (nothing_pending (sym (storage_line_open buf open_line) ∙ h))
    | inr (e, found) ↦
        let whole = buf ++ more in
        let within : e ≤ length buf = omega (arith, (find_crlf_sound buf found).2) in
        let line = take-append_of_le e buf more within in
        let (same, place) =
          storage_parts_sound (parts_of buf e) whole e p (sym (storage_line_found buf found) ∙ h) in
        parse_storage_data-eq-set_data whole p
        ∙ ap (λ k. set_data whole k (fields_of p)) place
        ∙ sym same
        ∙ ap (λ s. dispatch (split b' ' s) whole e) (sym line)
        ∙ sym (parse_found whole (find_crlf-append buf more found))
  ]
