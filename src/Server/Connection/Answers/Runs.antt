-- ===== src/Server/Connection/Answers/Runs.antt =====
-- A run of a connection beside a history of the cache.
use petracache.Base.{Bool, List, [], ℕ, ◌++◌}
use petracache.Storage.Value.{Reading}
use petracache.Crates.RocksDb.{RocksDb}
use petracache.Server.Connection.{Server, Event, finish, handle, Session}
use petracache.Crates.Memchr.{Memchr}
use petracache.Crates.BytesMut.{BytesMut}
use petracache.Crates.Itoa.{Itoa}
use petracache.Metrics.{command_calls}
use petracache.Server.Cache.History.{History}
use petracache.Server.Connection.Answers.{
  IsServed, Goes, EndGoes, Backing, Fits, RoundGoes, RoundGoes-later,
}
use petracache.Server.Connection.Induction.{IsRunInvariant, handle_induction}
use petracache.Server.Connection.Answers.Rounds.{round-Goes}

module _ {r : RocksDb} ⦃m : Memchr⦄ ⦃b : BytesMut⦄ ⦃i : Itoa⦄ (g : Backing r)
    (clock : ℕ → ℕ → Reading) (accepts : ℕ → Bool) where
  -- The same server but for calls that count no command, and the same replies.
  keeps_IsServed :
      (history : History) (c : Session r)
      → IsServed g history c
      → (buf : b.Buf) (s : Server r) → IsServed g history (record c { read_buf = buf; server = s })
  keeps_IsServed history c served buf s = record {
    nothing_left = served.nothing_left;
    pending = served.pending;
    answered = served.answered;
  }

  is_kept :
      (history : History)
      → IsRunInvariant r clock accepts (Goes g history) (RoundGoes g history) (EndGoes g history)
  unfolding finish command_calls
  is_kept history = record {
    rounds = record {
      on_again = λ c goes. goes;
      on_round = λ c (later, fits).
          RoundGoes-later g history later _ (round-Goes g clock accepts (later ++ history) c fits);
    };
    on_bytes = λ c bytes (later, (explained, served)).
        (later, (explained, keeps_IsServed (later ++ history) c served _ _));
    on_waiting = λ c goes. goes;
    on_listening = λ c goes. goes;
    on_finish = λ c (later, (explained, served)).
        (later, (explained, keeps_IsServed (later ++ history) c served c.read_buf _));
    on_closed = λ c goes. goes;
    on_write_failed = λ c goes. goes;
    on_crashed = tt;
    on_starved = tt;
  }

  -- Whatever the bytes and the other events are, a run leaves a connection that fits the history
  -- with the commands that it executed at its end.
  pub handle-EndGoes :
      (history : History) (c : Session r) (events : List Event)
      → Fits g history c
      → EndGoes g history (handle r clock accepts c events)
  handle-EndGoes history c events fits =
      handle_induction r clock accepts (Goes g history) (RoundGoes g history) (EndGoes g history)
        (is_kept history) c events ([], fits)
