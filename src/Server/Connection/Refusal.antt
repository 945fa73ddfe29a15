-- ===== src/Server/Connection/Refusal.antt =====
-- A request line that is refused, and what stands behind it.
use petracache.Base.{
  All, Bool, Bytes, Lacks, List, [], ap, append_assoc, arith, drop, drop-append_length, length,
  length-append, none, refl, some, suc, sym, true, zero, ℕ, ◌++◌, ◌+◌, ◌<◌, ◌∙◌, ◌∷◌, ◌≡◌, ◌≤◌,
}
use petracache.Protocol.Response
use petracache.Protocol.Response.Contents.{crlf, buffer-client_error}
use petracache.Server.Cache.History.{error_line}
use petracache.Server.Connection.{
  protocol_errors, count, Command, error, returned, parse, find_crlf, waiting, process, on_result,
  round, receive, skip_line, on_error, send, parse_buffer, Session,
}
use petracache.Server.Connection.Pipeline.{run_all, arrived, print_all, receive-run_all}
use petracache.Crates.RocksDb.{RocksDb}
use petracache.Crates.Memchr.{Memchr}
use petracache.Crates.BytesMut.{IsBuffer, BytesMut}
use petracache.Crates.Itoa.{Itoa}
use petracache.Storage.Value.{Reading}
use petracache.Error.{protocol_message, ProtocolError}
use petracache.Protocol.Response.{buffer}
use petracache.Protocol.Parser.Data.{max_slice}
use petracache.Protocol.Parser.Line.{find_crlf-append_crlf}
use petracache.Protocol.Parser.Sound.{IsWellFormed}

drop_line : (line rest : Bytes) → drop (length line + 2) (line ++ b'\r' ∷ b'\n' ∷ rest) ≡ rest
drop_line line rest =
    ap (λ n. drop n (line ++ b'\r' ∷ b'\n' ∷ rest)) (sym (length-append {0} line crlf))
    ∙ ap (drop (length (line ++ crlf))) (sym (append_assoc line crlf rest))
    ∙ drop-append_length (line ++ crlf) rest

module _ (r : RocksDb) ⦃m : Memchr⦄ ⦃b : BytesMut⦄ (laws : IsBuffer b) ⦃i : Itoa⦄
    (clock : ℕ → ℕ → Reading) (accepts : ℕ → Bool) where
  -- The connection waits, with the error told, this left in its buffer, and the store as it was.
  pub record IsRefused (e : ProtocolError) (rest : Bytes) (c c' : Session r) : Type 0 where
    pub told : c'.written ≡ error_line e ∷ c.written
    pub unread : b.contents c'.read_buf ≡ rest
    pub idle : c'.pending_storage ≡ none
    pub nothing_left : buffer c'.response ≡ []
    pub storage : c'.server.storage ≡ c.server.storage
    pub executed : c'.executed ≡ c.executed

  -- The session behind the error's reply.
  abbrev refusing : Session r → ProtocolError → Session r
  refusing c e =
      let c = send r (record c {
        server = count r c.server protocol_errors;
        response = Response.client_error c.response (protocol_message e);
        read_buf = skip_line r c.read_buf;
        pending_storage = none;
      }) in
      record c { response = Response.clear c.response }

  on_error-IsRefused :
      (c : Session r) (line rest : Bytes) (e : ProtocolError)
      → b.contents c.read_buf ≡ line ++ b'\r' ∷ b'\n' ∷ rest
      → Lacks b'\r' line
      → buffer c.response ≡ []
      → accepts (length c.written) ≡ true
      → (c' : Session r) × (on_error r accepts c e ≡ waiting c') × IsRefused e rest c c'
  unfolding on_error send skip_line Response.take_buffer Response.clear
  on_error-IsRefused c line rest e whole lacks bare taken =
      let found : find_crlf (b.contents c.read_buf) ≡ some (length line) =
        ap find_crlf whole ∙ find_crlf-append_crlf line rest lacks in
      let within : length line + 2 ≤ length (b.contents c.read_buf) =
        omega (arith, ap length whole, length-append {0} line (b'\r' ∷ b'\n' ∷ rest)) in
      (
        refusing c e,
        rw taken refl,
        record {
          told =
              ap (λ s. s ∷ c.written)
                (buffer-client_error laws c.response (protocol_message e)
                  ∙ ap (λ s. s ++ error_line e) bare);
          unread =
              ap b.contents (skipped found)
              ∙ laws.contents-advance c.read_buf (length line + 2) within
              ∙ ap (drop (length line + 2)) whole
              ∙ drop_line line rest;
          idle = refl;
          nothing_left = laws.contents-clear b.default;
          storage = refl;
          executed = refl;
        },
      )
    where
      skipped :
          {pos : ℕ}
          → find_crlf (b.contents c.read_buf) ≡ some pos
          → skip_line r c.read_buf ≡ b.advance c.read_buf (pos + 2)
      skipped at = rw (at, skip_line)

  round-IsRefused :
      (c : Session r) (line rest : Bytes) (e : ProtocolError)
      → b.contents c.read_buf ≡ line ++ b'\r' ∷ b'\n' ∷ rest
      → Lacks b'\r' line
      → parse (line ++ b'\r' ∷ b'\n' ∷ rest) ≡ returned (error e)
      → c.pending_storage ≡ none
      → buffer c.response ≡ []
      → accepts (length c.written) ≡ true
      → (c' : Session r) × (round r clock accepts c ≡ waiting c') × IsRefused e rest c c'
  unfolding round on_result parse_buffer
  round-IsRefused c line rest e whole lacks parsed idle bare taken =
      let (c', same, refused) = on_error-IsRefused c line rest e whole lacks bare taken in
      let result =
        ap (λ q. parse_buffer q (b.contents c.read_buf)) idle ∙ ap parse whole ∙ parsed in
      (c', ap (on_result r clock accepts c) result ∙ same, refused)

  process_waiting :
      (f : ℕ) (c c' : Session r)
      → 0 < f
      → round r clock accepts c ≡ waiting c'
      → process r clock accepts f c ≡ some (waiting c')
  unfolding process
  process_waiting zero c c' some_fuel one = absurd (omega arith)
  process_waiting (suc f) c c' some_fuel one = rw (one, process)

  receive-IsRefused :
      (c : Session r) (line rest : Bytes) (e : ProtocolError)
      → b.contents c.read_buf ≡ []
      → c.pending_storage ≡ none
      → buffer c.response ≡ []
      → accepts (length c.written) ≡ true
      → Lacks b'\r' line
      → parse (line ++ b'\r' ∷ b'\n' ∷ rest) ≡ returned (error e)
      → (c' : Session r) × (receive r clock accepts c (line ++ b'\r' ∷ b'\n' ∷ rest)
          ≡ some (waiting c'))
        × IsRefused e rest c c'
  unfolding receive
  receive-IsRefused c line rest e empty idle bare taken lacks parsed =
      let bytes = line ++ b'\r' ∷ b'\n' ∷ rest in
      let d = arrived r laws clock accepts c bytes in
      let whole : b.contents d.read_buf ≡ bytes =
        laws.contents-extend c.read_buf bytes ∙ ap (λ s. s ++ bytes) empty in
      let (c', one, refused) = round-IsRefused d line rest e whole lacks parsed idle bare taken in
      (
        c',
        process_waiting _ d c' (omega arith) one,
        record {
          told = refused.told;
          unread = refused.unread;
          idle = refused.idle;
          nothing_left = refused.nothing_left;
          storage = refused.storage;
          executed = refused.executed;
        },
      )

  -- Where the buffer of an idle connection was empty, and the bytes that arrive are refused and
  -- have a line end, the connection writes one error line, changes nothing of the store, drops
  -- the first line alone and waits with what stands behind it unread, data of the refused request
  -- and further requests alike; when bytes arrive that complete this to well-formed requests, it
  -- executes them; the client takes the error line, the buffer follows its laws, and the requests
  -- are shorter than 2^63 bytes.
  pub receive-IsRefused_data :
      (c : Session r) (line rest bytes : Bytes) (e : ProtocolError) (cmds : List Command)
      → b.contents c.read_buf ≡ []
      → c.pending_storage ≡ none
      → buffer c.response ≡ []
      → accepts (length c.written) ≡ true
      → Lacks b'\r' line
      → parse (line ++ b'\r' ∷ b'\n' ∷ rest) ≡ returned (error e)
      → rest ++ bytes ≡ print_all cmds
      → All IsWellFormed cmds
      → length (print_all cmds) < max_slice
      → (c' : Session r) × (receive r clock accepts c (line ++ b'\r' ∷ b'\n' ∷ rest)
          ≡ some (waiting c'))
        × IsRefused e rest c c'
        × (receive r clock accepts c' bytes
            ≡ some (run_all r laws clock accepts (arrived r laws clock accepts c' bytes) cmds))
  receive-IsRefused_data c line rest bytes e cmds empty idle bare taken lacks parsed same formed
        short =
      let (c', one, refused) = receive-IsRefused c line rest e empty idle bare taken lacks parsed in
      (
        c',
        one,
        refused,
        receive-run_all r laws clock accepts c' bytes cmds
            (ap (λ s. s ++ bytes) refused.unread ∙ same) refused.idle formed short,
      )
