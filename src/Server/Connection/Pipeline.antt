-- ===== src/Server/Connection/Pipeline.antt =====
-- Requests that arrive together.
use petracache.Base.{
  All, Bool, Bytes, List, Option, [], ap, arith, drop, drop-append_length, false, if◌then◌else◌,
  length, length-append, ltb, none, not, refl, some, suc, true, zero, ℕ, ◌&&◌, ◌++◌, ◌<◌, ◌∙◌, ◌∷◌,
  ◌≡◌, ◌≤◌,
}
use petracache.Crates.Memchr.{Memchr, memchr-eq-position, position}
use petracache.Crates.RocksDb.{RocksDb}
use petracache.Crates.BytesMut.{BytesMut, IsBuffer}
use petracache.Crates.Itoa.{Itoa}
use petracache.Metrics.{inc_by, bytes_read}
use petracache.Result.{ok}
use petracache.Protocol.Command.{Command, is_noreply}
use petracache.Protocol.Response
use petracache.Protocol.Parser.{find_crlf, parse, parse_storage_command_line}
use petracache.Protocol.Parser.Line.{parse_open}
use petracache.Protocol.Parser.Data.{max_slice}
use petracache.Protocol.Parser.Sound.{IsWellFormed}
use petracache.Protocol.Parser.Print.{print, join, words, crlf, block}
use petracache.Protocol.Parser.RoundTrip.{parse-print}
use petracache.Storage.Value.{Reading}
use petracache.Server.Connection.{
  Session, Round, again, waiting, closed, write_failed, aborted, call_metric, is_quit, parse_buffer,
  send, after_write, reply, on_complete, new_pending, on_result, round, process, receive,
}

-- The requests, one behind the other.
abbrev pub print_all : List Command → Bytes
print_all [] = []
print_all (cmd ∷ cmds) = print cmd ++ print_all cmds

pub length-print_all : (cmds : List Command) → length cmds ≤ length (print_all cmds)
unfolding print
length-print_all [] = omega arith
length-print_all (cmd ∷ cmds) = omega (
  arith,
  length-print_all cmds,
  length-append {0} (print cmd) (print_all cmds),
  length-append {0} (join (words cmd)) (crlf ++ block cmd),
)

module _ ⦃m : Memchr⦄ where
  pub empty_open : find_crlf [] ≡ none
  unfolding find_crlf position
  empty_open = rw (memchr-eq-position b'\r' [])

  pub empty_line : parse_storage_command_line [] ≡ ok none
  unfolding parse_storage_command_line
  empty_line = rw (empty_open, parse_storage_command_line)

module _ (r : RocksDb) ⦃m : Memchr⦄ ⦃b : BytesMut⦄ (laws : IsBuffer b) ⦃i : Itoa⦄
    (clock : ℕ → ℕ → Reading) (accepts : ℕ → Bool) where
  -- The commands executed in order, each with its bytes taken off the buffer and its reply written,
  -- until one ends the connection.
  unfoldable pub run_all : Session r → List Command → Round r
  run_all c [] = waiting c
  run_all c (cmd ∷ cmds) = elim (on_complete r clock accepts c cmd (length (print cmd))) [
    | again c' ↦ run_all c' cmds
    | waiting c' ↦ waiting c'
    | closed c' ↦ closed c'
    | write_failed c' ↦ write_failed c'
    | aborted ↦ aborted
  ]

  -- What another round starts with.
  abbrev pub After : Bytes → Round r → Type 0
  After rest (again c) = (b.contents c.read_buf ≡ rest) × (c.pending_storage ≡ none)
  After rest (waiting c) = ⊥
  After rest _ = Unit

  After-if :
      (rest : Bytes) (t : Bool) (x y : Round r)
      → After rest x
      → After rest y
      → After rest (if t then x else y)
  After-if rest true x y hx hy = hx
  After-if rest false x y hx hy = hy

  after_write-After :
      (rest : Bytes) (should_quit : Bool) (c : Session r)
      → b.contents c.read_buf ≡ rest
      → c.pending_storage ≡ none
      → After rest (after_write r should_quit c)
  unfolding after_write
  after_write-After rest should_quit c left p = After-if rest should_quit _ _ tt (left, p)

  reply-After :
      (rest : Bytes) (noreply should_quit : Bool) (c : Session r)
      → b.contents c.read_buf ≡ rest
      → c.pending_storage ≡ none
      → After rest (reply r accepts noreply should_quit c)
  unfolding reply send
  reply-After rest noreply should_quit c left p =
      After-if rest (not noreply && not (Response.no_response c.response)) _ _
        (After-if rest (accepts (length c.written)) _ _
          (after_write-After rest should_quit (send r c) left p) tt)
        (after_write-After rest should_quit c left p)

  pub on_complete-After :
      (c : Session r) (cmd : Command) (rest : Bytes)
      → b.contents c.read_buf ≡ print cmd ++ rest
      → After rest (on_complete r clock accepts c cmd (length (print cmd)))
  unfolding on_complete
  on_complete-After c cmd rest h =
      let n = length (print cmd) in
      let within : n ≤ length (b.contents c.read_buf) =
        omega (arith, ap length h, length-append {0} (print cmd) rest) in
      let left : b.contents (b.advance c.read_buf n) ≡ rest =
        laws.contents-advance c.read_buf n within
        ∙ ap (drop n) h
        ∙ drop-append_length (print cmd) rest in
      After-if rest (ltb (length (b.contents c.read_buf)) n) _ _ tt
        (reply-After rest (is_noreply cmd) (is_quit cmd) _ left refl)

  parse_fresh :
      (c : Session r) {buf : Bytes}
      → b.contents c.read_buf ≡ buf
      → c.pending_storage ≡ none
      → parse_buffer c.pending_storage (b.contents c.read_buf) ≡ parse buf
  unfolding parse_buffer
  parse_fresh c h p = ap (λ q. parse_buffer q (b.contents c.read_buf)) p ∙ ap parse h

  new_pending_empty :
      (c : Session r) → b.contents c.read_buf ≡ [] → c.pending_storage ≡ none → new_pending r c ≡ c
  unfolding new_pending
  new_pending_empty c h p = ground (arith, p, ap parse_storage_command_line h ∙ empty_line)

  round_empty :
      (c : Session r)
      → b.contents c.read_buf ≡ []
      → c.pending_storage ≡ none
      → round r clock accepts c ≡ waiting c
  unfolding round on_result
  round_empty c h p =
      ap (on_result r clock accepts c) (parse_fresh c h p ∙ parse_open [] empty_open)
      ∙ ap waiting (new_pending_empty c h p)

  round_request :
      (c : Session r) (cmd : Command) (rest : Bytes)
      → b.contents c.read_buf ≡ print cmd ++ rest
      → c.pending_storage ≡ none
      → IsWellFormed cmd
      → length (print cmd ++ rest) < max_slice
      → round r clock accepts c ≡ on_complete r clock accepts c cmd (length (print cmd))
  unfolding round on_result
  round_request c cmd rest h p formed fits =
      ap (on_result r clock accepts c) (parse_fresh c h p ∙ parse-print rest cmd formed fits)

  process-run_all :
      (f : ℕ) (c : Session r) (cmds : List Command)
      → b.contents c.read_buf ≡ print_all cmds
      → c.pending_storage ≡ none
      → All IsWellFormed cmds
      → length (print_all cmds) < max_slice
      → length cmds < f
      → process r clock accepts f c ≡ some (run_all c cmds)
  unfolding process run_all
  process-run_all zero c cmds h p formed fits lt = absurd (omega arith)
  process-run_all (suc f) c [] h p formed fits lt = rw (round_empty c h p, process)
  process-run_all (suc f) c (cmd ∷ cmds) h p (first, formed) fits lt =
      rw (round_request c cmd (print_all cmds) h p first fits, process)
        (go
          (λ c' h' p'.
            process-run_all f c' cmds h' p' formed
              (omega (arith, length-append {0} (print cmd) (print_all cmds))) (omega arith))
          (on_complete r clock accepts c cmd (length (print cmd)))
          (on_complete-After c cmd (print_all cmds) h))
    where
      go :
          ((c' : Session r)
            → b.contents c'.read_buf ≡ print_all cmds
            → c'.pending_storage ≡ none
            → process r clock accepts f c' ≡ some (run_all c' cmds))
          → (o : Round r) → After (print_all cmds) o
          → ◌≡◌ {A = Option (Round r)}
              (elim o [
                | again c' ↦ process r clock accepts f c'
                | waiting c' ↦ some (waiting c')
                | closed c' ↦ some (closed c')
                | write_failed c' ↦ some (write_failed c')
                | aborted ↦ some aborted
              ])
              (some (elim o [
                | again c' ↦ run_all c' cmds
                | waiting c' ↦ waiting c'
                | closed c' ↦ closed c'
                | write_failed c' ↦ write_failed c'
                | aborted ↦ aborted
              ]))
      go later (again c') (h', p') = later c' h' p'
      go later (waiting c') left = refl
      go later (closed c') left = refl
      go later (write_failed c') left = refl
      go later aborted left = refl

  -- What a session is when bytes have come.
  abbrev pub arrived : Session r → Bytes → Session r
  arrived c bytes =
      let c = call_metric r c (inc_by bytes_read (length bytes)) in
      record c { read_buf = b.extend_from_slice c.read_buf bytes }

  -- Bytes that complete what the buffer of an idle connection holds to well-formed requests.
  pub receive-run_all :
      (c : Session r) (bytes : Bytes) (cmds : List Command)
      → b.contents c.read_buf ++ bytes ≡ print_all cmds
      → c.pending_storage ≡ none
      → All IsWellFormed cmds
      → length (print_all cmds) < max_slice
      → receive r clock accepts c bytes ≡ some (run_all (arrived c bytes) cmds)
  unfolding receive
  receive-run_all c bytes cmds h p formed fits =
      let whole = laws.contents-extend c.read_buf bytes ∙ h in
      process-run_all _ (arrived c bytes) cmds whole p formed fits
        (omega (arith, ap length whole, length-print_all cmds))

  -- Well-formed requests that arrive together at a connection that waits with an empty buffer are
  -- executed in their order, each on the state that the one before has left and with its reply
  -- written, up to the first that ends the connection; if none does, the connection waits again;
  -- the buffer follows its laws and the requests are shorter than 2^63 bytes.
  pub receive-print_all :
      (c : Session r) (cmds : List Command)
      → b.contents c.read_buf ≡ []
      → c.pending_storage ≡ none
      → All IsWellFormed cmds
      → length (print_all cmds) < max_slice
      → receive r clock accepts c (print_all cmds)
        ≡ some (run_all (arrived c (print_all cmds)) cmds)
  receive-print_all c cmds h p formed fits =
      receive-run_all c (print_all cmds) cmds (ap (λ s. s ++ print_all cmds) h) p formed fits
