-- ===== src/Server/Connection/Answers.antt =====
-- One connection beside a history of the cache, whatever bytes it receives.
pub mod Rounds
pub mod Runs
use petracache.Base.{
  ==-refl, ==_iff, All, All-append, All-drop, All-map, All-split_at, All-take, Bool, Bool-cases,
  Bytes, IsByte, IsBytes, Lacks, List, Option, Option-cases, [], ap, append-nil, append_assoc,
  arith, bytes_cases, bytes_eq, bytes_eq_iff, bytes_eq_refl, bytes_eq→eq, codes, drop,
  drop-append_length, drop-append_of_le, drop-drop, every, false, get_elem?, get_elem?-append_left,
  get_elem?-append_length, get_elem?-lt, get_elem?-none, get_elem?-some, if_both, if_cases,
  if◌then◌else◌, inl, inr, is_empty, leb, length, length-append, length-drop, length-take,
  length_remove, length_replace, le→ltb-false, ltb, ltb-false→le, ltb→lt, lt→ltb, min, none, not,
  refl, some, suc, sym, take, take-append-drop, take-append_length, take-append_of_le, true, zero,
  ℕ, ◌%◌, ◌&&◌, ◌*◌, ◌++◌, ◌+◌, ◌-◌, ◌/◌, ◌<◌, ◌==◌, ◌^◌, ◌||◌, ◌↔◌, ◌∙◌, ◌∷◌, ◌≡◌, ◌≢◌, ◌≤◌, ◌⊎◌,
}
use petracache.Protocol.Response
use petracache.Storage.Value.{Reading}
use petracache.Outcome.{panicked}
use mathlib.Core.Path.{subst}
use petracache.Protocol.Parser.{
  need_more_data, error, complete, ParseResult, parse_storage_command_line, PendingStorageCommand,
}
use petracache.Crates.RocksDb.{IsReliable, IsMap, RocksDb}
use petracache.Server.Connection.{
  End, finished, quitted, broken, listening, crashed, starved, Server, start, cancelled, received,
  read_failed, Event, finish, handle, returned, is_quit, Outcome, on_result, process, receive,
  round, is_noreply, reply, protocol_message, ProtocolError, on_error, Command, new_pending, send,
  on_complete, aborted, after_write, write_failed, closed, waiting, again, Session, Round,
  parse_buffer,
}
use petracache.Crates.Memchr.{Memchr}
use petracache.Protocol.Parser.Sound.{IsWellFormed, IsSetLine}
use petracache.Protocol.Parser.Resume.{fields_of}
use petracache.Protocol.Parser.Faults.{
  pending-IsSetLine, parse_storage_data-Gives, parse-Gives, Gives,
}
use petracache.Protocol.Parser.Messages.{IsOneLine}
use petracache.Crates.BytesMut.{IsBuffer, BytesMut}
use petracache.Crates.Itoa.{Itoa}
use petracache.Server.Cache.{Cache}
use petracache.Metrics.{MetricCall, command_calls}
use petracache.Server.Cache.History.{
  calls_of, Answered-nothing, Answered-others, own, refused, error_line, reply_of, cache_of,
  Answered, AreWellFormed, History,
}
use petracache.Protocol.Response.{buffer}
use petracache.Server.Cache.Entries.{Holds}
use petracache.Protocol.Response.Contents.{buffer-client_error}
use petracache.Server.Cache.Execution.{execute-Executes}
use petracache.Result.{ok, err, Result}
use petracache.Storage.Rocks.{RocksStorage}

-- The fields of a pending command, if there is one, fit their types.
abbrev pub IsPending : Option PendingStorageCommand → Type 0
IsPending none = Unit
IsPending (some p) = IsSetLine (fields_of p)

-- What stands behind the cache: a database that behaves as a map and whose writes succeed, buffers
-- that follow their laws, and the cache whose entries the database has at first.
pub record Backing (r : RocksDb) ⦃b : BytesMut⦄ : Type 0 where
  pub map_laws : IsMap r
  pub reliable : IsReliable r
  pub buffer_laws : IsBuffer b
  pub from : Cache

module _ {r : RocksDb} ⦃m : Memchr⦄ ⦃b : BytesMut⦄ ⦃i : Itoa⦄ (g : Backing r) where
  -- What a connection has of its own, beside a history.
  pub record IsServed (history : History) (c : Session r) : Type 0 where
    pub nothing_left : buffer c.response ≡ []
    pub pending : IsPending c.pending_storage
    pub answered : Answered g.from c.executed history c.written

  -- The database has the entries of the cache behind a history of well-formed commands, and the
  -- metrics count these commands, their hits and their misses.
  pub record Explains (history : History) (s : RocksStorage r) (calls : List MetricCall)
      : Type 0 where
    pub formed : AreWellFormed history
    pub holds : Holds r g.map_laws g.reliable s.db (cache_of g.from history)
    pub counted : calls ≡ calls_of g.from history

  abbrev pub Explained : History → Server r → Type 0
  Explained history s = Explains history s.storage (command_calls s.metrics)

  abbrev pub Fits : History → Session r → Type 0
  Fits history c = Explained history c.server × IsServed history c

  -- A history goes on to one that the connection fits.
  abbrev pub Goes : History → Session r → Type 0
  Goes history c = (later : History) × Fits (later ++ history) c

  pub Goes-later :
      (history later : History) (c : Session r) → Goes (later ++ history) c → Goes history c
  Goes-later history later c (more, fits) =
      (more ++ later, subst (λ h. Fits h c) (sym (append_assoc more later history)) fits)

  pub start-IsServed :
      (history : History) (read_size write_size : ℕ) (s : Server r)
      → IsServed history (start r read_size write_size s)
  unfolding start Response.new
  start-IsServed history read_size write_size s = record {
    nothing_left = g.buffer_laws.contents-with_capacity write_size;
    pending = tt;
    answered = Answered-nothing g.from history;
  }

  -- The commands of others come between the replies of a connection.
  pub IsServed-later :
      (history later : History) (c : Session r) → IsServed history c → IsServed (later ++ history) c
  IsServed-later history later c h = record {
    nothing_left = h.nothing_left;
    pending = h.pending;
    answered = Answered-others g.from later h.answered;
  }

  -- A round leaves the connection so.
  abbrev pub RoundGoes : History → Round r → Type 0
  RoundGoes history (again c) = Goes history c
  RoundGoes history (waiting c) = Goes history c
  RoundGoes history (closed c) = Goes history c
  RoundGoes history (write_failed c) = Goes history c
  RoundGoes history aborted = Unit

  pub RoundGoes-later :
      (history later : History) (o : Round r) → RoundGoes (later ++ history) o → RoundGoes history o
  RoundGoes-later history later (again c) h = Goes-later history later c h
  RoundGoes-later history later (waiting c) h = Goes-later history later c h
  RoundGoes-later history later (closed c) h = Goes-later history later c h
  RoundGoes-later history later (write_failed c) h = Goes-later history later c h
  RoundGoes-later history later aborted h = tt

  -- How a run leaves the connection.
  abbrev pub EndGoes : History → End r → Type 0
  EndGoes history (finished c) = Goes history c
  EndGoes history (quitted c) = Goes history c
  EndGoes history (broken c) = Goes history c
  EndGoes history (listening c) = Goes history c
  EndGoes history _ = Unit
