-- ===== src/Server/Connection/Answers/Rounds.antt =====
-- A round of the inner loop beside a history of the cache.
use petracache.Base.{
  Bool, Bool-cases, Bytes, Option, [], ap, false, if_both, if◌then◌else◌, inl, inr, is_empty,
  length, ltb, none, refl, some, sym, true, ℕ, ◌++◌, ◌+◌, ◌||◌, ◌∙◌, ◌∷◌, ◌≡◌,
}
use petracache.Protocol.Response
use petracache.Storage.Value.{Reading}
use petracache.Outcome.{panicked}
use mathlib.Core.Path.{subst}
use petracache.Protocol.Parser.{
  need_more_data, error, complete, ParseResult, parse_storage_command_line, PendingStorageCommand,
}
use petracache.Crates.RocksDb.{RocksDb}
use petracache.Server.Connection.{
  returned, is_quit, Outcome, on_result, round, is_noreply, reply, protocol_message, ProtocolError,
  on_error, Command, new_pending, send, on_complete, after_write, write_failed, Session,
  parse_buffer,
}
use petracache.Crates.Memchr.{Memchr}
use petracache.Protocol.Parser.Sound.{IsWellFormed}
use petracache.Protocol.Parser.Faults.{
  pending-IsSetLine, parse_storage_data-Gives, parse-Gives, Gives,
}
use petracache.Protocol.Parser.Messages.{IsOneLine}
use petracache.Crates.BytesMut.{BytesMut}
use petracache.Crates.Itoa.{Itoa}
use petracache.Server.Cache.History.{
  own, refused, error_line, reply_of, Happening, executes, cache_of, Answered, History,
}
use petracache.Protocol.Response.{buffer}
use petracache.Protocol.Response.Contents.{buffer-client_error}
use petracache.Server.Cache.Calls.{commands-execute}
use petracache.Server.Cache.{counts}
use petracache.Metrics.{command_calls}
use petracache.Server.Cache.Execution.{execute-Executes}
use petracache.Result.{ok, err, Result}
use petracache.Server.Connection.Answers.{
  Backing, IsPending, IsServed, Explained, Fits, Goes, RoundGoes, RoundGoes-later,
}

parse_buffer-Gives :
    ⦃m : Memchr⦄ (pending : Option PendingStorageCommand) (buf : Bytes)
    → IsPending pending
    → Gives (parse_buffer pending buf)
unfolding parse_buffer
parse_buffer-Gives none buf h = parse-Gives buf
parse_buffer-Gives (some p) buf h = parse_storage_data-Gives buf p h

module _ {r : RocksDb} ⦃m : Memchr⦄ ⦃b : BytesMut⦄ ⦃i : Itoa⦄ (g : Backing r)
    (clock : ℕ → ℕ → Reading) (accepts : ℕ → Bool) where
  after_write-Goes :
      (history : History) (should_quit : Bool) (c : Session r)
      → Explained g history c.server
      → IsPending c.pending_storage
      → Answered g.from c.executed history c.written
      → RoundGoes g history (after_write r should_quit c)
  unfolding after_write Response.clear
  after_write-Goes history should_quit c explained p told =
      let left = g.buffer_laws.contents-clear c.response.buf in
      let served : IsServed g history (record c { response = Response.clear c.response }) = record {
        nothing_left = left;
        pending = p;
        answered = told;
      } in
      if_both (RoundGoes g history) should_quit ([], (explained, served)) ([], (explained, served))

  send-Goes :
      (history : History) (should_quit : Bool) (c : Session r)
      → Explained g history c.server
      → IsPending c.pending_storage
      → Answered g.from c.executed history (buffer c.response ∷ c.written)
      → RoundGoes g history (
          if accepts (length c.written)
          then after_write r should_quit (send r c)
          else write_failed (send r c))
  unfolding send Response.take_buffer command_calls
  send-Goes history should_quit c explained p told =
      if_both (RoundGoes g history) (accepts (length c.written))
        (after_write-Goes history should_quit (send r c) explained p told)
        (
          [],
          (
            explained,
            record { nothing_left = g.buffer_laws.contents-default; pending = p; answered = told },
          ),
        )

  reply-Goes :
      (history : History) (noreply should_quit : Bool) (c : Session r)
      → Explained g history c.server
      → IsPending c.pending_storage
      → Answered g.from c.executed history (
          if noreply || is_empty (buffer c.response)
          then c.written
          else buffer c.response ∷ c.written)
      → RoundGoes g history (reply r accepts noreply should_quit c)
  unfolding reply Response.no_response
  reply-Goes history true should_quit c explained p told =
      after_write-Goes history should_quit c explained p told
  reply-Goes history false should_quit c explained p told =
      elim (Bool-cases (is_empty (buffer c.response))) [
        | inl silent ↦
            rw silent (after_write-Goes history should_quit c explained p (rw silent at told))
        | inr speaks ↦ rw speaks (send-Goes history should_quit c explained p (rw speaks at told))
      ]

  on_complete-Goes :
      (history : History) (c : Session r) (cmd : Command) (n : ℕ)
      → IsWellFormed cmd
      → Fits g history c
      → RoundGoes g history (on_complete r clock accepts c cmd n)
  unfolding on_complete
  on_complete-Goes history c cmd n formed (explained, served) =
      let x : Happening = executes (clock c.executed) cmd in
      let (replied, held) =
        execute-Executes r g.map_laws g.reliable g.buffer_laws (clock c.executed) c.server
          (cache_of g.from history) cmd c.response formed explained.holds in
      let text =
        replied
        ∙ ap (λ s. s ++ reply_of g.from (clock c.executed) cmd history) served.nothing_left in
      if_both (RoundGoes g history) (ltb (length (b.contents c.read_buf)) n) tt (
        RoundGoes-later g history (x ∷ []) _ (
          reply-Goes (x ∷ history) (is_noreply cmd) (is_quit cmd) _
            (record {
              formed = (formed, explained.formed);
              holds = held;
              counted =
                  commands-execute r g.map_laws g.reliable (clock c.executed) c.server
                    (cache_of g.from history) cmd c.response explained.holds
                  ∙ ap (counts (clock c.executed) (cache_of g.from history) cmd) explained.counted;
            })
            tt
            (subst
              (λ t.
                Answered g.from (c.executed + 1) (x ∷ history)
                  (if is_noreply cmd || is_empty t then c.written else t ∷ c.written))
              (sym text) (own (clock c.executed) cmd served.answered))))

  on_error-Goes :
      (history : History) (c : Session r) (e : ProtocolError)
      → IsOneLine e
      → Fits g history c
      → RoundGoes g history (on_error r accepts c e)
  unfolding command_calls on_error send Response.take_buffer Response.clear
  on_error-Goes history c e line (explained, served) =
      let text =
        buffer-client_error g.buffer_laws c.response (protocol_message e)
        ∙ ap (λ s. s ++ error_line e) served.nothing_left in
      let told =
        subst (λ t. Answered g.from c.executed history (t ∷ c.written)) (sym text)
          (refused e line served.answered) in
      if_both (RoundGoes g history) (accepts (length c.written))
        (
          [],
          (
            explained,
            record {
              nothing_left = g.buffer_laws.contents-clear b.default;
              pending = tt;
              answered = told;
            },
          ),
        )
        (
          [],
          (
            explained,
            record { nothing_left = g.buffer_laws.contents-default; pending = tt; answered = told },
          ),
        )

  new_pending-Goes :
      (history : History) (c : Session r) → Fits g history c → Goes g history (new_pending r c)
  unfolding new_pending
  new_pending-Goes history c (explained, served) = go c.pending_storage refl
    where
      line :
          (o : Result (Option PendingStorageCommand) ProtocolError)
          → parse_storage_command_line (b.contents c.read_buf) ≡ o
          → Goes g history (elim o [
            | err e ↦ c
            | ok none ↦ c
            | ok (some p) ↦ record c { pending_storage = some p }
          ])
      line (err e) eq = ([], (explained, served))
      line (ok none) eq = ([], (explained, served))
      line (ok (some p)) eq = (
        [],
        (
          explained,
          record {
            nothing_left = served.nothing_left;
            pending = pending-IsSetLine (b.contents c.read_buf) p eq;
            answered = served.answered;
          },
        ),
      )

      go :
          (o : Option PendingStorageCommand)
          → c.pending_storage ≡ o
          → Goes g history (elim o [
            | some p ↦ c
            | none ↦ elim (parse_storage_command_line (b.contents c.read_buf)) [
              | err e ↦ c
              | ok none ↦ c
              | ok (some p) ↦ record c { pending_storage = some p }
            ]
          ])
      go (some p) eq = ([], (explained, served))
      go none eq = line (parse_storage_command_line (b.contents c.read_buf)) refl

  on_result-Goes :
      (history : History) (c : Session r) (o : Outcome ParseResult)
      → Gives o
      → Fits g history c
      → RoundGoes g history (on_result r clock accepts c o)
  unfolding on_result
  on_result-Goes history c panicked given fits = tt
  on_result-Goes history c (returned (complete cmd n)) given fits =
      on_complete-Goes history c cmd n given fits
  on_result-Goes history c (returned need_more_data) given fits = new_pending-Goes history c fits
  on_result-Goes history c (returned (error e)) given fits = on_error-Goes history c e given fits

  pub round-Goes :
      (history : History) (c : Session r)
      → Fits g history c
      → RoundGoes g history (round r clock accepts c)
  unfolding round
  round-Goes history c fits =
      on_result-Goes history c (parse_buffer c.pending_storage (b.contents c.read_buf))
        (parse_buffer-Gives c.pending_storage (b.contents c.read_buf) fits.1.pending) fits
