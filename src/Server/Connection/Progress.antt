-- ===== src/Server/Connection/Progress.antt =====
-- The inner loop of a connection ends: each further round takes bytes off the buffer.
use petracache.Base.{
  Bool, Bytes, Option, ap, arith, false, if◌then◌else◌, length, length-append, length-drop, ltb,
  none, not, refl, some, suc, sym, true, zero, ℕ, ◌&&◌, ◌+◌, ◌-◌, ◌<◌, ◌∙◌, ◌≡◌, ◌≤◌,
}
use petracache.Error.{ProtocolError}
use petracache.Outcome.{Outcome, returned, panicked}
use petracache.Crates.Memchr.{Memchr}
use petracache.Crates.RocksDb.{RocksDb}
use petracache.Crates.BytesMut.{BytesMut, IsBuffer}
use petracache.Crates.Itoa.{Itoa}
use petracache.Protocol.Command.{Command, is_noreply}
use petracache.Protocol.Parser.Line.{find_crlf_sound}
use petracache.Protocol.Parser.{
  find_crlf, ParseResult, complete, need_more_data, error, PendingStorageCommand,
}
use petracache.Protocol.Parser.Data.{max_slice}
use petracache.Protocol.Parser.Resume.{parse_storage_data-eq-set_data, fields_of}
use petracache.Protocol.Parser.Bounds.{parse_sound, set_data_bounds}
use petracache.Protocol.Response
use petracache.Protocol.Response.{ResponseWriter}
use petracache.Storage.Value.{Reading}
use petracache.Server.Connection.{
  new_pending, skip_line, Session, Round, again, waiting, closed, write_failed, aborted, reply,
  send, after_write, is_quit, on_complete, on_error, on_result, parse_buffer, round, process,
  receive,
}

-- What either parser takes off the buffer is there, and is something.
parse_buffer_bounds :
    ⦃m : Memchr⦄ (pending : Option PendingStorageCommand) (buf : Bytes) (cmd : Command) (n : ℕ)
    → length buf < max_slice
    → parse_buffer pending buf ≡ returned (complete cmd n)
    → (2 ≤ n) × (n ≤ length buf)
unfolding parse_buffer
parse_buffer_bounds none buf cmd n fits h =
    let t = parse_sound buf cmd n fits h in (t.some_bytes, t.within)
parse_buffer_bounds (some p) buf cmd n fits h =
    let (u, some_bytes, within) =
      set_data_bounds (λ _. Unit {0}) (fields_of p) (λ _. tt) buf p.command_line_end n cmd fits
        (sym (parse_storage_data-eq-set_data buf p) ∙ h) in
    (some_bytes, within)

module _ (r : RocksDb) ⦃m : Memchr⦄ ⦃b : BytesMut⦄ (laws : IsBuffer b) ⦃i : Itoa⦄
    (clock : ℕ → ℕ → Reading) (accepts : ℕ → Bool) where
  abbrev pub unread : Session r → ℕ
  unread c = length (b.contents c.read_buf)

  -- What the round leaves in the buffer: less, if another round follows, and no more, if the loop
  -- waits for bytes.
  abbrev Shrinks : ℕ → Round r → Type 0
  Shrinks n (again c) = unread c < n
  Shrinks n (waiting c) = unread c ≤ n
  Shrinks n _ = Unit

  Shrinks-if :
      (n : ℕ) (t : Bool) (x y : Round r)
      → Shrinks n x
      → Shrinks n y
      → Shrinks n (if t then x else y)
  Shrinks-if n true x y hx hy = hx
  Shrinks-if n false x y hx hy = hy

  after_write-Shrinks :
      (should_quit : Bool) (c : Session r) (n : ℕ)
      → unread c < n
      → Shrinks n (after_write r should_quit c)
  unfolding after_write
  after_write-Shrinks should_quit c n lt = Shrinks-if n should_quit _ _ tt lt

  reply-Shrinks :
      (noreply should_quit : Bool) (c : Session r) (n : ℕ)
      → unread c < n
      → Shrinks n (reply r accepts noreply should_quit c)
  unfolding reply send
  reply-Shrinks noreply should_quit c n lt =
      Shrinks-if n (not noreply && not (Response.no_response c.response)) _ _
        (Shrinks-if n (accepts (length c.written)) _ _
          (after_write-Shrinks should_quit (send r c) n lt) tt)
        (after_write-Shrinks should_quit c n lt)

  on_complete-Shrinks :
      (c : Session r) (cmd : Command) (n : ℕ)
      → 2 ≤ n
      → n ≤ unread c
      → Shrinks (unread c) (on_complete r clock accepts c cmd n)
  unfolding on_complete
  on_complete-Shrinks c cmd n two le =
      let left : length (b.contents (b.advance c.read_buf n)) ≡ unread c - n =
        ap length (laws.contents-advance c.read_buf n le)
        ∙ length-drop {0} n (b.contents c.read_buf) in
      Shrinks-if (unread c) (ltb (unread c) n) _ _ tt
        (reply-Shrinks (is_noreply cmd) (is_quit cmd) _ (unread c) (omega arith))

  skip_line-unread : (buf : b.Buf) → length (b.contents (skip_line r buf)) ≤ length (b.contents buf)
  unfolding skip_line
  skip_line-unread buf = go (find_crlf (b.contents buf)) refl
    where
      go :
          (found : Option ℕ)
          → find_crlf (b.contents buf) ≡ found
          → length
              (b.contents (elim found [ none ↦ b.clear buf | some pos ↦ b.advance buf (pos + 2) ]))
            ≤ length (b.contents buf)
      go none eq = omega (arith, ap length (laws.contents-clear buf))
      go (some pos) eq =
          let (cr, lf, within, lacks) = find_crlf_sound (b.contents buf) eq in
          omega (
            arith,
            ap length (laws.contents-advance buf (pos + 2) within),
            length-drop {0} (pos + 2) (b.contents buf),
          )

  on_error-Shrinks :
      (c : Session r) (e : ProtocolError) → Shrinks (unread c) (on_error r accepts c e)
  unfolding on_error send
  on_error-Shrinks c e =
      Shrinks-if (unread c) (accepts (length c.written)) _ _ (skip_line-unread c.read_buf) tt

  new_pending-unread : (c : Session r) → unread (new_pending r c) ≡ unread c
  unfolding new_pending
  new_pending-unread c = ground arith

  round-Shrinks :
      (c : Session r) → unread c < max_slice → Shrinks (unread c) (round r clock accepts c)
  unfolding round on_result
  round-Shrinks c fits = go (parse_buffer c.pending_storage (b.contents c.read_buf)) refl
    where
      go :
          (o : Outcome ParseResult)
          → parse_buffer c.pending_storage (b.contents c.read_buf) ≡ o
          → Shrinks (unread c) (on_result r clock accepts c o)
      go panicked eq = tt
      go (returned (complete cmd n)) eq =
          let (two, le) =
            parse_buffer_bounds c.pending_storage (b.contents c.read_buf) cmd n fits eq in
          on_complete-Shrinks c cmd n two le
      go (returned need_more_data) eq = omega (arith, new_pending-unread c)
      go (returned (error e)) eq = on_error-Shrinks c e

  -- The loop has ended, and if it waits for more bytes, no more are in the buffer than before.
  unfoldable pub Leaves : ℕ → Option (Round r) → Type 0
  Leaves n none = ⊥
  Leaves n (some (again c)) = ⊥
  Leaves n (some (waiting c)) = unread c ≤ n
  Leaves n (some _) = Unit

  Leaves-mono : (k n : ℕ) (o : Option (Round r)) → k ≤ n → Leaves k o → Leaves n o
  unfolding Leaves
  Leaves-mono k n none le h = h
  Leaves-mono k n (some (again c)) le h = h
  Leaves-mono k n (some (waiting c)) le h = omega arith
  Leaves-mono k n (some (closed c)) le h = tt
  Leaves-mono k n (some (write_failed c)) le h = tt
  Leaves-mono k n (some aborted) le h = tt

  -- Fuel above the buffer's length is enough.
  process-Leaves :
      (f : ℕ) (c : Session r)
      → unread c < f
      → unread c < max_slice
      → Leaves (unread c) (process r clock accepts f c)
  unfolding process Leaves
  process-Leaves zero c lt fits = absurd (omega arith)
  process-Leaves (suc f) c lt fits =
      go (λ c' lt' fits'. process-Leaves f c' lt' fits') (round r clock accepts c)
        (round-Shrinks c fits)
    where
      go :
          ((c' : Session r)
            → unread c' < f
            → unread c' < max_slice
            → Leaves (unread c') (process r clock accepts f c'))
          → (o : Round r) → Shrinks (unread c) o
          → Leaves (unread c) (elim o [
            | again c' ↦ process r clock accepts f c'
            | waiting c' ↦ some (waiting c')
            | closed c' ↦ some (closed c')
            | write_failed c' ↦ some (write_failed c')
            | aborted ↦ some aborted
          ])
      go later (again c') smaller =
          Leaves-mono (unread c') (unread c) (process r clock accepts f c') (omega arith)
            (later c' (omega arith) (omega arith))
      go later (waiting c') smaller = smaller
      go later (closed c') smaller = tt
      go later (write_failed c') smaller = tt
      go later aborted smaller = tt

  -- When bytes arrive, the loop over the commands in the buffer ends, and leaves no more in the
  -- buffer than stood there with the new bytes, as long as that is no longer than a slice can be.
  pub receive-Leaves :
      (c : Session r) (bytes : Bytes)
      → unread c + length bytes < max_slice
      → Leaves (unread c + length bytes) (receive r clock accepts c bytes)
  unfolding receive
  receive-Leaves c bytes fits =
      let longer : length (b.contents (b.extend_from_slice c.read_buf bytes))
          ≡ unread c + length bytes =
        ap length (laws.contents-extend c.read_buf bytes)
        ∙ length-append {0} (b.contents c.read_buf) bytes in
      Leaves-mono (length (b.contents (b.extend_from_slice c.read_buf bytes)))
        (unread c + length bytes) _ (omega arith)
        (process-Leaves (length (b.contents (b.extend_from_slice c.read_buf bytes)) + 1) _
          (omega arith) (omega arith))
