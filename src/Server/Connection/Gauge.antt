-- ===== src/Server/Connection/Gauge.antt =====
-- The gauge of active connections over the life of a connection.
use mathlib.Core.Path.{subst}
use petracache.Base.{
  if_both, Bool, List, ap, arith, length, ltb, not, refl, suc, sym, ℕ, ◌&&◌, ◌∙◌, ◌∷◌, ◌≡◌,
}
use petracache.Error.{ProtocolError}
use petracache.Outcome.{Outcome, returned, panicked}
use petracache.Crates.Memchr.{Memchr}
use petracache.Crates.RocksDb.{RocksDb}
use petracache.Crates.BytesMut.{BytesMut}
use petracache.Crates.Itoa.{Itoa}
use petracache.Metrics.{
  MetricCall, dec, active_connections, gauge_calls, decrements, decrements-gauge_calls,
}
use petracache.Protocol.Command.{Command, is_noreply}
use petracache.Protocol.Parser.{ParseResult, complete, need_more_data, error}
use petracache.Protocol.Response
use petracache.Protocol.Response.{ResponseWriter}
use petracache.Storage.Value.{Reading}
use petracache.Server.Handler.GaugeCalls.{gauge, gauge-execute}
use petracache.Server.Connection.Induction.{IsRunInvariant, handle_induction}
use petracache.Server.Connection.{
  Event, Session, Round, again, waiting, closed, write_failed, aborted, reply, send, after_write,
  is_quit, new_pending, on_complete, on_error, on_result, round, handle, finish, End, finished,
  quitted, broken, listening, crashed, starved,
}

module _ (r : RocksDb) ⦃m : Memchr⦄ ⦃b : BytesMut⦄ ⦃i : Itoa⦄ (clock : ℕ → ℕ → Reading)
    (accepts : ℕ → Bool) where
  abbrev calls : Session r → List MetricCall
  calls c = gauge r c.server

  -- The round leaves the calls on the gauge at these.
  abbrev Keeps : List MetricCall → Round r → Type 0
  Keeps n (again c) = calls c ≡ n
  Keeps n (waiting c) = calls c ≡ n
  Keeps n (closed c) = calls c ≡ n
  Keeps n (write_failed c) = calls c ≡ n
  Keeps n aborted = Unit

  reply-Keeps :
      (n : List MetricCall) (noreply should_quit : Bool) (c : Session r)
      → calls c ≡ n
      → Keeps n (reply r accepts noreply should_quit c)
  unfolding reply send after_write gauge_calls
  reply-Keeps n noreply should_quit c h =
      if_both (Keeps n) (not noreply && not (Response.no_response c.response))
        (if_both (Keeps n) (accepts (length c.written)) (if_both (Keeps n) should_quit h h) h)
        (if_both (Keeps n) should_quit h h)

  on_complete-Keeps :
      (c : Session r) (cmd : Command) (n : ℕ)
      → Keeps (calls c) (on_complete r clock accepts c cmd n)
  unfolding on_complete
  on_complete-Keeps c cmd n =
      if_both (Keeps (calls c)) (ltb (length (b.contents c.read_buf)) n) tt (
        reply-Keeps (calls c) (is_noreply cmd) (is_quit cmd) _
          (gauge-execute r (clock c.executed) c.server cmd c.response))

  on_error-Keeps : (c : Session r) (e : ProtocolError) → Keeps (calls c) (on_error r accepts c e)
  unfolding on_error send gauge_calls
  on_error-Keeps c e = if_both (Keeps (calls c)) (accepts (length c.written)) refl refl

  new_pending-calls : (c : Session r) → calls (new_pending r c) ≡ calls c
  unfolding new_pending
  new_pending-calls c = ground arith

  on_result-Keeps :
      (c : Session r) (o : Outcome ParseResult) → Keeps (calls c) (on_result r clock accepts c o)
  unfolding on_result
  on_result-Keeps c panicked = tt
  on_result-Keeps c (returned (complete cmd n)) = on_complete-Keeps c cmd n
  on_result-Keeps c (returned need_more_data) = new_pending-calls c
  on_result-Keeps c (returned (error e)) = on_error-Keeps c e

  round-Keeps : (c : Session r) → Keeps (calls c) (round r clock accepts c)
  unfolding round
  round-Keeps c = on_result-Keeps c _

  -- The calls on the gauge at the end of a run that began with these.
  abbrev pub AddsCall : List MetricCall → End r → Type 0
  AddsCall n (finished c) = calls c ≡ dec active_connections ∷ n
  AddsCall n (quitted c) = calls c ≡ n
  AddsCall n (broken c) = calls c ≡ n
  AddsCall n (listening c) = calls c ≡ n
  AddsCall n _ = Unit

  is_kept :
      (n : List MetricCall)
      → IsRunInvariant r clock accepts (λ d. calls d ≡ n) (Keeps n) (AddsCall n)
  unfolding finish gauge_calls
  is_kept n = record {
    rounds = record {
      on_again = λ c k. k;
      on_round = λ c h. subst (λ l. Keeps l (round r clock accepts c)) h (round-Keeps c);
    };
    on_bytes = λ c bytes h. h;
    on_waiting = λ c k. k;
    on_listening = λ c h. h;
    on_finish = λ c h. ap (λ l. dec active_connections ∷ l) h;
    on_closed = λ c k. k;
    on_write_failed = λ c k. k;
    on_crashed = tt;
    on_starved = tt;
  }

  -- A run takes the gauge down when it leaves the loop, and makes no other call on it.
  pub handle-AddsCall :
      (c : Session r) (events : List Event) → AddsCall (calls c) (handle r clock accepts c events)
  handle-AddsCall c events =
      handle_induction r clock accepts (λ d. calls d ≡ calls c) (Keeps (calls c))
        (AddsCall (calls c)) (is_kept (calls c)) c events refl

  abbrev drops : Session r → ℕ
  drops c = decrements c.server.metrics

  -- How often the gauge was taken down when the connection has come to this end.
  abbrev pub GaugeAt : ℕ → End r → Type 0
  GaugeAt n (finished c) = drops c ≡ suc n
  GaugeAt n (quitted c) = drops c ≡ n
  GaugeAt n (broken c) = drops c ≡ n
  GaugeAt n (listening c) = drops c ≡ n
  GaugeAt n _ = Unit

  counted : (c' : Session r) {n : List MetricCall} → calls c' ≡ n → drops c' ≡ decrements n
  counted c' h = sym (decrements-gauge_calls c'.server.metrics) ∙ ap decrements h

  AddsCall-GaugeAt : (c : Session r) (o : End r) → AddsCall (calls c) o → GaugeAt (drops c) o
  unfolding decrements
  AddsCall-GaugeAt c (finished c') h =
      counted c' h ∙ ap suc (decrements-gauge_calls c.server.metrics)
  AddsCall-GaugeAt c (quitted c') h = counted c' h ∙ decrements-gauge_calls c.server.metrics
  AddsCall-GaugeAt c (broken c') h = counted c' h ∙ decrements-gauge_calls c.server.metrics
  AddsCall-GaugeAt c (listening c') h = counted c' h ∙ decrements-gauge_calls c.server.metrics
  AddsCall-GaugeAt c crashed h = tt
  AddsCall-GaugeAt c starved h = tt

  -- The gauge of active connections is taken down once when the loop of a connection is left at
  -- the end of the stream, a read error or a cancellation, and not at all when the client quits
  -- or a write fails.
  pub handle-GaugeAt :
      (c : Session r) (events : List Event) → GaugeAt (drops c) (handle r clock accepts c events)
  handle-GaugeAt c events =
      AddsCall-GaugeAt c (handle r clock accepts c events) (handle-AddsCall c events)
