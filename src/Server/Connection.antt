-- ===== src/Server/Connection.antt =====
-- src/server/connection.rs: one client's connection, as a function of what the network does. Each
-- call that the select loop waits for gives one `Event`; `accepts n` says whether the n-th write
-- succeeds; `clock n` has the readings of the clock during the n-th command.
pub mod Induction
pub mod Progress
pub mod Gauge
pub mod Service
pub mod Pipeline
pub mod Noreply
pub mod Replies
pub mod Matching
pub mod Partial
pub mod Midway
pub mod Onward
pub mod Chunks
pub mod Answers
pub mod Refusal
use petracache.Base.{
  Bool, Bytes, List, Option, [], false, if◌then◌else◌, length, ltb, none, not, some, suc, true,
  zero, ℕ, ◌&&◌, ◌+◌, ◌∷◌,
}
use petracache.Error.{ProtocolError, protocol_message}
use petracache.Result.{ok, err}
use petracache.Outcome.{Outcome, returned, panicked}
use petracache.Crates.Memchr.{Memchr}
use petracache.Crates.RocksDb.{RocksDb}
use petracache.Crates.BytesMut.{BytesMut}
use petracache.Crates.Itoa.{Itoa}
use petracache.Metrics.{
  MetricCall, dec, inc_by, active_connections, bytes_read, bytes_written, protocol_errors,
}
use petracache.Protocol.Command.{Command, quit, is_noreply}
use petracache.Protocol.Parser.{
  ParseResult, complete, need_more_data, error, PendingStorageCommand, parse, parse_storage_data,
  parse_storage_command_line, find_crlf,
}
use petracache.Protocol.Response
use petracache.Protocol.Response.{ResponseWriter}
use petracache.Storage.Value.{Reading}
use petracache.Server.Handler.{Server, count, execute}

-- What the select loop is woken by: the token, a read of these bytes, or a read error. A read of no
-- bytes is the end of the stream.
pub data Event : Type 0 where
  cancelled : Event
  received : Bytes → Event
  read_failed : Event

is_quit : Command → Bool
is_quit quit = true
is_quit _ = false

-- The parse of the buffer: of a pending command's data, or of a new command.
unfoldable pub parse_buffer :
    ⦃m : Memchr⦄ → Option PendingStorageCommand → Bytes → Outcome ParseResult
parse_buffer none buf = parse buf
parse_buffer (some pending) buf = parse_storage_data buf pending

module _ (r : RocksDb) ⦃m : Memchr⦄ ⦃b : BytesMut⦄ ⦃i : Itoa⦄ where
  pub record Session : Type 0 where
    pub read_buf : b.Buf
    pub response : ResponseWriter
    pub pending_storage : Option PendingStorageCommand
    pub server : Server r
    -- the replies written, latest first
    pub written : List Bytes
    -- numbers the commands
    pub executed : ℕ

  -- The state that `handle` starts with, by the sizes of the buffers.
  unfoldable pub start : ℕ → ℕ → Server r → Session
  start read_buffer_size write_buffer_size s = record {
    read_buf = b.with_capacity read_buffer_size;
    response = Response.new write_buffer_size;
    pending_storage = none;
    server = s;
    written = [];
    executed = 0;
  }

  -- How a round of the inner loop ends: another round, a wait for more bytes, the return of `Ok`,
  -- the return of an error of the stream, or a panic.
  pub data Round : Type 0 where
    again waiting closed write_failed : Session → Round
    aborted : Round

  abbrev pub call_metric : Session → MetricCall → Session
  call_metric c k = record c { server = record c.server { metrics = k ∷ c.server.metrics } }

  -- `response.take()`, the count of its bytes, and the write.
  pub send : Session → Session
  send c =
      let (buf, response') = Response.take_buffer c.response in
      call_metric (record c { response = response'; written = buf ∷ c.written })
        (inc_by bytes_written (length buf))

  -- `response.clear()` and the test for quit.
  after_write : Bool → Session → Round
  after_write should_quit c =
      let c = record c { response = Response.clear c.response } in
      if should_quit then closed c else again c

  -- The reply to a command is sent unless it is empty or not wanted.
  reply : (ℕ → Bool) → Bool → Bool → Session → Round
  unfolding send after_write
  reply accepts noreply should_quit c =
      if not noreply && not (Response.no_response c.response)
      then if accepts (length c.written)
        then after_write should_quit (send c)
        else write_failed (send c)
      else after_write should_quit c

  unfoldable pub on_complete : (ℕ → ℕ → Reading) → (ℕ → Bool) → Session → Command → ℕ → Round
  unfolding reply is_quit
  on_complete clock accepts c cmd consumed =
      let (server', response') = execute r (clock c.executed) c.server cmd c.response in
      if ltb (length (b.contents c.read_buf)) consumed
      then aborted
      else reply accepts (is_noreply cmd) (is_quit cmd) (record c {
        pending_storage = none;
        server = server';
        response = response';
        read_buf = b.advance c.read_buf consumed;
        executed = c.executed + 1;
      })

  -- The command line of a set whose data is late.
  unfoldable pub new_pending : Session → Session
  new_pending c = elim c.pending_storage [
    | some pending ↦ c
    | none ↦ elim (parse_storage_command_line (b.contents c.read_buf)) [
      | err e ↦ c
      | ok none ↦ c
      | ok (some pending) ↦ record c { pending_storage = some pending }
    ]
  ]

  -- `find_crlf` and `split_to`, or `clear`.
  skip_line : b.Buf → b.Buf
  skip_line buf = elim (find_crlf (b.contents buf)) [
    | none ↦ b.clear buf
    | some pos ↦ b.advance buf (pos + 2)
  ]

  unfoldable pub on_error : (ℕ → Bool) → Session → ProtocolError → Round
  unfolding send skip_line
  on_error accepts c e =
      let c = record c { server = count r c.server protocol_errors } in
      let c = record c {
        response = Response.client_error c.response (protocol_message e);
        read_buf = skip_line c.read_buf;
        pending_storage = none;
      } in
      let c' = send c in
      if accepts (length c.written)
      then waiting (record c' { response = Response.clear c'.response })
      else write_failed c'

  unfoldable pub on_result : (ℕ → ℕ → Reading) → (ℕ → Bool) → Session → Outcome ParseResult → Round
  unfolding on_complete on_error new_pending
  on_result clock accepts c panicked = aborted
  on_result clock accepts c (returned (complete cmd consumed)) =
      on_complete clock accepts c cmd consumed
  on_result clock accepts c (returned need_more_data) = waiting (new_pending c)
  on_result clock accepts c (returned (error e)) = on_error accepts c e

  unfoldable pub round : (ℕ → ℕ → Reading) → (ℕ → Bool) → Session → Round
  unfolding on_result parse_buffer
  round clock accepts c =
      on_result clock accepts c (parse_buffer c.pending_storage (b.contents c.read_buf))

  -- The inner loop. `none` means that the fuel ran out.
  unfoldable pub process : (ℕ → ℕ → Reading) → (ℕ → Bool) → ℕ → Session → Option Round
  unfolding round
  process clock accepts zero c = none
  process clock accepts (suc f) c = elim (round clock accepts c) [
    | again c' ↦ process clock accepts f c'
    | waiting c' ↦ some (waiting c')
    | closed c' ↦ some (closed c')
    | write_failed c' ↦ some (write_failed c')
    | aborted ↦ some aborted
  ]

  -- How `handle` ends: `Ok` behind the loop, `Ok` at a quit, an error, a panic; or it still waits. `starved`
  -- would be an inner loop that ran out of fuel.
  pub data End : Type 0 where
    finished quitted broken listening : Session → End
    crashed starved : End

  -- Bytes arrive: the buffer grows, and the inner loop runs. Its fuel is the buffer's length and one
  -- more, since each further round takes bytes off the buffer.
  unfoldable pub receive : (ℕ → ℕ → Reading) → (ℕ → Bool) → Session → Bytes → Option Round
  unfolding process
  receive clock accepts c bytes =
      let c = call_metric c (inc_by bytes_read (length bytes)) in
      let c = record c { read_buf = b.extend_from_slice c.read_buf bytes } in
      process clock accepts (length (b.contents c.read_buf) + 1) c

  -- The end of the loop by `break`.
  unfoldable pub finish : Session → End
  finish c = finished (call_metric c (dec active_connections))

  -- The loop of `handle`, for the events to come.
  unfoldable pub handle : (ℕ → ℕ → Reading) → (ℕ → Bool) → Session → List Event → End
  unfolding receive finish
  handle clock accepts c [] = listening c
  handle clock accepts c (cancelled ∷ events) = finish c
  handle clock accepts c (received [] ∷ events) = finish c
  handle clock accepts c (read_failed ∷ events) = finish c
  handle clock accepts c (received (byte ∷ bytes) ∷ events) =
      elim (receive clock accepts c (byte ∷ bytes)) [
        | none ↦ starved
        | some (again c') ↦ handle clock accepts c' events
        | some (waiting c') ↦ handle clock accepts c' events
        | some (closed c') ↦ quitted c'
        | some (write_failed c') ↦ broken c'
        | some aborted ↦ crashed
      ]
