-- ===== src/Server/Connection/Matching.antt =====
-- Connections that differ in their buffers and in how often bytes were read alone.
use petracache.Base.{
  Bool, ap, false, if◌then◌else◌, length, le→ltb-false, not, refl, true, ℕ, ◌&&◌, ◌∙◌, ◌∷◌, ◌≡◌,
  ◌≤◌,
}
use petracache.Crates.Memchr.{Memchr}
use petracache.Crates.RocksDb.{RocksDb}
use petracache.Crates.BytesMut.{BytesMut}
use petracache.Crates.Itoa.{Itoa}
use petracache.Metrics.{inc_by, bytes_written, besides_reads}
use petracache.Protocol.Command.{Command, is_noreply}
use petracache.Protocol.Response
use petracache.Storage.Value.{Reading}
use petracache.Server.Handler.Agreement.{Agree, Agrees, execute-Agrees}
use petracache.Server.Connection.{
  Session, Round, again, waiting, closed, write_failed, aborted, End, listening, quitted, broken,
  crashed, is_quit, send, after_write, reply, on_complete,
}

module _ (r : RocksDb) ⦃m : Memchr⦄ ⦃b : BytesMut⦄ ⦃i : Itoa⦄ where
  pub record Matches (c d : Session r) : Type 0 where
    pub servers : Agree r c.server d.server
    pub responses : c.response ≡ d.response
    pub replies : c.written ≡ d.written
    pub commands : c.executed ≡ d.executed

  abbrev pub RoundMatches : Round r → Round r → Type 0
  RoundMatches (again c) (again d) = Matches c d
  RoundMatches (waiting c) (waiting d) = Matches c d
  RoundMatches (closed c) (closed d) = Matches c d
  RoundMatches (write_failed c) (write_failed d) = Matches c d
  RoundMatches aborted aborted = Unit
  RoundMatches _ _ = ⊥

  RoundMatches-if :
      (t t' : Bool) (x y x' y' : Round r)
      → t ≡ t'
      → RoundMatches x x'
      → RoundMatches y y'
      → RoundMatches (if t then x else y) (if t' then x' else y')
  RoundMatches-if true t' x y x' y' e hx hy = rw (← e) hx
  RoundMatches-if false t' x y x' y' e hx hy = rw (← e) hy

  send-Matches : (c d : Session r) → Matches c d → Matches (send r c) (send r d)
  unfolding send Agree besides_reads
  send-Matches c d h =
      let written = ap (λ w. (Response.take_buffer w).0) h.responses in
      record {
        servers = (
          h.servers.0,
          ap (λ buf. inc_by bytes_written (length buf) ∷ besides_reads c.server.metrics) written
              ∙ ap (λ l. inc_by bytes_written (length (Response.take_buffer d.response).0) ∷ l)
                  h.servers.1,
        );
        responses = ap (λ w. (Response.take_buffer w).1) h.responses;
        replies =
            ap (λ buf. buf ∷ c.written) written
            ∙ ap (λ l. (Response.take_buffer d.response).0 ∷ l) h.replies;
        commands = h.commands;
      }

  after_write-RoundMatches :
      (should_quit : Bool) (c d : Session r)
      → Matches c d
      → RoundMatches (after_write r should_quit c) (after_write r should_quit d)
  unfolding after_write
  after_write-RoundMatches should_quit c d h =
      let cleared : Matches (record c { response = Response.clear c.response })
          (record d { response = Response.clear d.response }) =
        record {
          servers = h.servers;
          responses = ap Response.clear h.responses;
          replies = h.replies;
          commands = h.commands;
        } in
      RoundMatches-if should_quit should_quit _ _ _ _ refl cleared cleared

  reply-RoundMatches :
      (accepts : ℕ → Bool) (noreply should_quit : Bool) (c d : Session r)
      → Matches c d
      → RoundMatches (reply r accepts noreply should_quit c) (reply r accepts noreply should_quit d)
  unfolding reply
  reply-RoundMatches accepts noreply should_quit c d h =
      RoundMatches-if (not noreply && not (Response.no_response c.response)) _ _ _ _ _
        (ap (λ w. not noreply && not (Response.no_response w)) h.responses)
        (RoundMatches-if (accepts (length c.written)) _ _ _ _ _
          (ap (λ l. accepts (length l)) h.replies)
          (after_write-RoundMatches should_quit (send r c) (send r d) (send-Matches c d h))
          (send-Matches c d h))
        (after_write-RoundMatches should_quit c d h)

  -- The same command takes connections that match to connections that match, or ends both alike.
  pub on_complete-RoundMatches :
      (clock : ℕ → ℕ → Reading) (accepts : ℕ → Bool) (c d : Session r) (cmd : Command) (n : ℕ)
      → Matches c d
      → n ≤ length (b.contents c.read_buf)
      → n ≤ length (b.contents d.read_buf)
      → RoundMatches (on_complete r clock accepts c cmd n) (on_complete r clock accepts d cmd n)
  unfolding on_complete Agrees
  on_complete-RoundMatches clock accepts c d cmd n h inside within =
      let (servers, responses) =
        execute-Agrees r (clock d.executed) c.server d.server cmd d.response h.servers in
      rw
        (
          le→ltb-false (length (b.contents c.read_buf)) n inside,
          le→ltb-false (length (b.contents d.read_buf)) n within,
          h.commands,
          h.responses,
        )
        (reply-RoundMatches accepts (is_noreply cmd) (is_quit cmd) _ _ (record {
          servers = servers;
          responses = responses;
          replies = h.replies;
          commands = refl;
        }))

  -- How a connection ends or waits, beside a round that does.
  abbrev pub EndMatches : End r → Round r → Type 0
  EndMatches (listening c) (waiting d) = Matches c d
  EndMatches (quitted c) (closed d) = Matches c d
  EndMatches (broken c) (write_failed d) = Matches c d
  EndMatches crashed aborted = Unit
  EndMatches _ _ = ⊥
