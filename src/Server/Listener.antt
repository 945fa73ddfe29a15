-- ===== src/Server/Listener.antt =====
-- src/server/mod.rs: the listener, which accepts connections up to a limit, and the connections that
-- it has spawned. An event of a connection, with all commands of its bytes, is one step here, and the
-- events come in any order; the tasks that overlap in the middle of their events, which the program
-- has where it serves several connections, are not steps of these.
pub mod Limit
pub mod Closing
pub mod Entries
pub mod History
use petracache.Base.{
  ==-refl, ==_iff, All, All-append, All-drop, All-take, Bool, Bool-cases, Bytes, IsByte, IsBytes,
  Lacks, List, Option, Option-cases, [], ap, append-nil, append_assoc, arith, bytes_cases, bytes_eq,
  bytes_eq_iff, bytes_eq_refl, bytes_eq→eq, codes, drop, drop-append_length, drop-append_of_le,
  drop-drop, every, false, get_elem?, get_elem?-append_left, get_elem?-append_length, get_elem?-lt,
  get_elem?-none, get_elem?-some, if_cases, if◌then◌else◌, inl, inr, is_empty, leb, length,
  length-append, length-drop, length-take, le→ltb-false, ltb, ltb-false→le, ltb→lt, lt→ltb, min,
  none, not, refl, some, suc, sym, take, take-append-drop, take-append_length, take-append_of_le,
  true, zero, ℕ, ◌%◌, ◌&&◌, ◌*◌, ◌++◌, ◌+◌, ◌-◌, ◌/◌, ◌<◌, ◌==◌, ◌^◌, ◌||◌, ◌↔◌, ◌∙◌, ◌∷◌, ◌≡◌, ◌≢◌,
  ◌≤◌, ◌⊎◌,
}
use petracache.Config.{ServerConfig}
use petracache.Outcome.{Outcome, returned, panicked, ◌>>=◌}
use petracache.Metrics.{inc, total_connections, active_connections, rejected_connections}
use petracache.Crates.Memchr.{Memchr}
use petracache.Crates.RocksDb.{RocksDb}
use petracache.Crates.BytesMut.{BytesMut}
use petracache.Crates.Itoa.{Itoa}
use petracache.Crates.Semaphore.{Semaphore}
use petracache.Storage.Value.{Reading}
use petracache.Storage.Rocks.{RocksStorage, compact_entry}
use petracache.Server.Handler.{Server, count}
use petracache.Server.Connection.{
  Session, Event, cancelled, End, finished, quitted, broken, listening, start, handle,
}

module _ (r : RocksDb) (s : Semaphore) ⦃m : Memchr⦄ ⦃b : BytesMut⦄ ⦃i : Itoa⦄ where
  -- The shared server, the permits left, the token, the connections that are served, the latest
  -- first, and whether the listener still accepts.
  pub record Listener : Type 0 where
    pub config : ServerConfig
    pub server : Server r
    pub connection_semaphore : s.Permits
    pub is_cancelled : Bool
    pub connections : List (Session r)
    pub is_accepting : Bool

  -- `Server::new`
  unfoldable pub new : ServerConfig → RocksStorage r → Outcome Listener
  new config storage = do
    connection_semaphore ← s.create config.max_connections
    returned (record {
      config = config;
      server = record { storage = storage; metrics = [] };
      connection_semaphore = connection_semaphore;
      is_cancelled = false;
      connections = [];
      is_accepting = true;
    })

  -- A connection with a permit is counted and spawned; one without is counted and dropped.
  admit : Listener → Option s.Permits → Listener
  admit l none = record l { server = count r l.server rejected_connections }
  admit l (some permits) =
      let server = count r (count r l.server total_connections) active_connections in
      record l {
        server = server;
        connection_semaphore = permits;
        connections =
            start r l.config.read_buffer_size l.config.write_buffer_size server ∷ l.connections;
      }

  unfoldable pub handle_new_connection : Listener → Listener
  unfolding admit
  handle_new_connection l = admit l (s.try_acquire l.connection_semaphore)

  -- The session as it meets its next event: the server is shared.
  abbrev pub resume : Listener → Session r → Session r
  resume l c = record c { server = l.server }

  -- A task that ends drops its permit.
  unfoldable pub drop_connection : Listener → List (Session r) → Session r → Listener
  drop_connection l others c = record l {
    server = c.server;
    connection_semaphore = s.release l.connection_semaphore;
    connections = others;
  }

  -- A connection sees that the token is cancelled only where it is.
  abbrev pub Allows : Bool → Event → Type 0
  Allows token cancelled = token ≡ true
  Allows token event = Unit

  -- A step of the program: the listener's `select!` or a connection that one event wakes, at clocks
  -- and with writes that succeed or fail as they like. A panic ends the process, so no step is left.
  -- The number counts the connections that end by a quit or an error.
  pub data Step (l : Listener) : ℕ → Listener → Type 0 where
    accepts : l.is_accepting ≡ true → Step l 0 (handle_new_connection l)
    accept_failed : l.is_accepting ≡ true → Step l 0 l
    cancels : Step l 0 (record l { is_cancelled = true })
    shuts_down :
        l.is_accepting ≡ true → l.is_cancelled ≡ true → Step l 0 (record l { is_accepting = false })
    -- The database compacts the entry of a key, whenever it likes.
    compacts :
        (now : Reading) (key : Bytes)
        → Step l 0 (record l {
          server = record l.server { storage = compact_entry r now l.server.storage key };
        })
    waits :
        (before after : List (Session r)) (c c' : Session r) (event : Event)
        (clock : ℕ → ℕ → Reading) (writes : ℕ → Bool)
        → l.connections ≡ before ++ c ∷ after
        → handle r clock writes (resume l c) (event ∷ []) ≡ listening c'
        → Step l 0 (record l { server = c'.server; connections = before ++ c' ∷ after })
    finishes :
        (before after : List (Session r)) (c c' : Session r) (event : Event)
        (clock : ℕ → ℕ → Reading) (writes : ℕ → Bool)
        → l.connections ≡ before ++ c ∷ after
        → handle r clock writes (resume l c) (event ∷ []) ≡ finished c'
        → Allows l.is_cancelled event
        → Step l 0 (drop_connection l (before ++ after) c')
    quits :
        (before after : List (Session r)) (c c' : Session r) (event : Event)
        (clock : ℕ → ℕ → Reading) (writes : ℕ → Bool)
        → l.connections ≡ before ++ c ∷ after
        → handle r clock writes (resume l c) (event ∷ []) ≡ quitted c'
        → Step l 1 (drop_connection l (before ++ after) c')
    breaks :
        (before after : List (Session r)) (c c' : Session r) (event : Event)
        (clock : ℕ → ℕ → Reading) (writes : ℕ → Bool)
        → l.connections ≡ before ++ c ∷ after
        → handle r clock writes (resume l c) (event ∷ []) ≡ broken c'
        → Step l 1 (drop_connection l (before ++ after) c')

  -- What the program comes to, with the number of those connections.
  pub data Reach (from : Listener) : ℕ → Listener → Type 0 where
    here : Reach from 0 from
    next : {k n : ℕ} {l l' : Listener} → Reach from k l → Step l n l' → Reach from (k + n) l'
