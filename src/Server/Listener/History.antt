-- ===== src/Server/Listener/History.antt =====
-- The listener and its connections beside a history of the cache.
use petracache.Base.{
  refl, arith, length, ◌≤◌, All, All-append, All-map, All-split_at, Bool, List, Option, [],
  append-nil, append_assoc, none, some, sym, ℕ, ◌++◌, ◌∷◌, ◌≡◌,
}
use petracache.Crates.RocksDb.{RocksDb}
use petracache.Crates.Memchr.{Memchr}
use petracache.Crates.BytesMut.{BytesMut}
use petracache.Crates.Itoa.{Itoa}
use petracache.Crates.Semaphore.{IsSemaphore, Semaphore}
use petracache.Outcome.{>>=-eq-returned, returned}
use petracache.Storage.Value.{Reading}
use mathlib.Core.Path.{subst}
use petracache.Server.Connection.Answers.{
  Backing, Goes, Explained, IsServed, IsServed-later, EndGoes, start-IsServed,
}
use petracache.Server.Connection.Answers.Runs.{handle-EndGoes}
use petracache.Server.Listener.Limit.{new-Inv}
use petracache.Server.Listener.{
  compacts, breaks, quits, here, finishes, waits, shuts_down, cancels, resume, handle,
  accept_failed, End, accepts, next, Reach, Event, Step, admit, new, RocksStorage, Session,
  Listener, handle_new_connection, drop_connection,
}
use petracache.Metrics.{command_calls}
use petracache.Server.Cache.History.{cache_of, sweeps, History}
use petracache.Config.{ServerConfig}
use petracache.Server.Cache.Entries.{Holds}
use petracache.Server.Cache.Sweep.{compact_entry-Holds}

module _ {r : RocksDb} (s : Semaphore) ⦃m : Memchr⦄ ⦃b : BytesMut⦄ ⦃i : Itoa⦄ (g : Backing r) where
  -- The database has the entries of the cache behind this history, the metrics count its commands,
  -- and every client was told the replies to its own commands in it.
  pub record HasHistory (history : History) (l : Listener r s) : Type 0 where
    pub explained : Explained g history l.server
    pub served : All (IsServed g history) l.connections

  abbrev pub GoesTo : History → Listener r s → Type 0
  GoesTo history l = (later : History) × HasHistory (later ++ history) l

  All-later :
      (history later : History) (cs : List (Session r))
      → All (IsServed g history) cs
      → All (IsServed g (later ++ history)) cs
  All-later history later cs h = All-map _ _ cs (IsServed-later g history later) h

  event-EndGoes :
      (history : History) (l : Listener r s) (before after : List (Session r)) (c : Session r)
      (event : Event) (clock : ℕ → ℕ → Reading) (writes : ℕ → Bool) {o : End r}
      → HasHistory history l
      → l.connections ≡ before ++ c ∷ after
      → handle r clock writes (resume r s l c) (event ∷ []) ≡ o
      → EndGoes g history o × All (IsServed g history) before × All (IsServed g history) after
  event-EndGoes history l before after c event clock writes h at e =
      let (left, one, right) =
        All-split_at (IsServed g history) before after c
          (subst (All (IsServed g history)) at h.served) in
      (
        subst (EndGoes g history) e (
            handle-EndGoes g clock writes history (resume r s l c) (event ∷ []) (
              h.explained,
              record {
                nothing_left = one.nothing_left;
                pending = one.pending;
                answered = one.answered;
              },
            )),
        left,
        right,
      )

  drop-GoesTo :
      (history : History) (l : Listener r s) (before after : List (Session r)) (c : Session r)
      → Goes g history c × All (IsServed g history) before × All (IsServed g history) after
      → GoesTo history (drop_connection r s l (before ++ after) c)
  unfolding drop_connection
  drop-GoesTo history l before after c ((later, (explained, served)), left, right) = (
    later,
    record {
      explained = explained;
      served =
          All-append _ before after (All-later history later before left)
            (All-later history later after right);
    },
  )

  admit-HasHistory :
      (history : History) (l : Listener r s) (o : Option s.Permits)
      → HasHistory history l
      → HasHistory history (admit r s l o)
  unfolding admit command_calls
  admit-HasHistory history l none h = record { explained = h.explained; served = h.served }
  admit-HasHistory history l (some permits) h = record {
    explained = h.explained;
    served = (start-IsServed g history _ _ _, h.served);
  }

  pub Step-GoesTo :
      {n : ℕ} (history : History) {l l' : Listener r s}
      → Step r s l n l'
      → HasHistory history l
      → GoesTo history l'
  unfolding handle_new_connection
  Step-GoesTo history {l = l} (accepts on) h =
      ([], admit-HasHistory history l (s.try_acquire l.connection_semaphore) h)
  Step-GoesTo history (accept_failed on) h = ([], h)
  Step-GoesTo history cancels h = ([], record { explained = h.explained; served = h.served })
  Step-GoesTo history (shuts_down on told) h =
      ([], record { explained = h.explained; served = h.served })
  Step-GoesTo history {l = l} (compacts now key) h = (
    sweeps now key ∷ [],
    record {
      explained = record {
        formed = (tt, h.explained.formed);
        holds =
            compact_entry-Holds r g.map_laws g.reliable now l.server.storage
              (cache_of g.from history) key h.explained.holds;
        counted = h.explained.counted;
      };
      served = All-later history (sweeps now key ∷ []) l.connections h.served;
    },
  )
  Step-GoesTo history {l = l} (waits before after c c' event clock writes at e) h =
      let ((later, (explained, served)), left, right) =
        event-EndGoes history l before after c event clock writes h at e in
      (
        later,
        record {
          explained = explained;
          served =
              All-append _ before (c' ∷ after) (All-later history later before left)
                (served, All-later history later after right);
        },
      )
  Step-GoesTo history {l = l} (finishes before after c c' event clock writes at e allowed) h =
      drop-GoesTo history l before after c'
        (event-EndGoes history l before after c event clock writes h at e)
  Step-GoesTo history {l = l} (quits before after c c' event clock writes at e) h =
      drop-GoesTo history l before after c'
        (event-EndGoes history l before after c event clock writes h at e)
  Step-GoesTo history {l = l} (breaks before after c c' event clock writes at e) h =
      drop-GoesTo history l before after c'
        (event-EndGoes history l before after c event clock writes h at e)

  -- A history that explains the listener goes on to one that explains whatever it comes to.
  pub Reach-GoesTo :
      (history : History) {l : Listener r s} {n : ℕ} {l' : Listener r s}
      → HasHistory history l
      → Reach r s l n l'
      → GoesTo history l'
  Reach-GoesTo history h here = ([], h)
  Reach-GoesTo history h (next {l' = l'} before step) =
      let (later, h') = Reach-GoesTo history h before in
      let (more, last) = Step-GoesTo (later ++ history) step h' in
      (more ++ later, subst (λ x. HasHistory x l') (sym (append_assoc more later history)) last)

  new-HasHistory :
      (config : ServerConfig) (storage : RocksStorage r) {l : Listener r s}
      → Holds r g.map_laws g.reliable storage.db g.from
      → new r s config storage ≡ returned l
      → HasHistory [] l
  unfolding new command_calls
  new-HasHistory config storage {l} holds e =
      let (permits, made, same) = >>=-eq-returned (s.create config.max_connections) _ e in
      subst (HasHistory []) (same_returned same)
        (record { explained = record { formed = tt; holds = holds; counted = refl }; served = tt })
    where
      same_returned : {x y : Listener r s} → returned x ≡ returned y → x ≡ y
      same_returned q = cc

  -- The events of the connections that `Reach` orders, each from its beginning to its end, have one
  -- history.
  pub history_of :
      (config : ServerConfig) (storage : RocksStorage r) {n : ℕ} {l l' : Listener r s}
      → Holds r g.map_laws g.reliable storage.db g.from
      → new r s config storage ≡ returned l
      → Reach r s l n l'
      → (history : History) × HasHistory history l'
  history_of config storage {l' = l'} holds e reach =
      let (history, h) = Reach-GoesTo [] (new-HasHistory config storage holds e) reach in
      (history, subst (λ x. HasHistory x l') (append-nil history) h)

module _ {r : RocksDb} (s : Semaphore) (laws : IsSemaphore s) ⦃m : Memchr⦄ ⦃b : BytesMut⦄ ⦃i : Itoa⦄
    (g : Backing r) where
  -- A server with a limit of one connection, started over a database with the entries of a cache,
  -- serves one client at a time, and in every state that it reaches, whatever bytes its clients
  -- send one after the other and whichever expired entries the database compacts away between the
  -- reads, there is one history of well-formed commands and compactions such that the database
  -- has the entries of the cache behind it, the metrics count its commands and their hits and
  -- misses, in their order and nothing else of these, and the replies written to the connection
  -- that there may be are those to its own commands in the history, as many as it executed, in
  -- their order and each from the cache at its place in the history, and error lines without a
  -- carriage return before their end; a quit and a command with noreply have no reply; the
  -- database behaves as a map and its writes succeed, and the buffer and the semaphore follow
  -- their laws.
  pub new-History :
      (config : ServerConfig) (storage : RocksStorage r) {n : ℕ} {l l' : Listener r s}
      → config.max_connections ≤ 1
      → Holds r g.map_laws g.reliable storage.db g.from
      → new r s config storage ≡ returned l
      → Reach r s l n l'
      → (length l'.connections ≤ 1) × (history : History) × HasHistory s g history l'
  new-History config storage one holds e reach =
      let v = new-Inv r s laws config storage (omega arith) e reach in
      let (history, h) = history_of s g config storage holds e reach in
      (omega (arith, v.permits), history, h)
