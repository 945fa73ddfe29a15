-- ===== src/Server/Listener/Limit.antt =====
-- The limit on connections, and what the gauge shows.
use petracache.Base.{
  false, Bool, List, Option, [], ap, arith, length, length_remove, length_replace, none, refl, some,
  sym, true, ℕ, ◌++◌, ◌+◌, ◌<◌, ◌↔◌, ◌∙◌, ◌∷◌, ◌≡◌, ◌≢◌, ◌≤◌,
}
use petracache.Metrics.{
  active_connections, dec, MetricCall, increments, decrements, gauge_calls, increments-gauge_calls,
  decrements-gauge_calls,
}
use petracache.Crates.Memchr.{Memchr}
use petracache.Crates.RocksDb.{RocksDb}
use petracache.Crates.BytesMut.{BytesMut}
use petracache.Crates.Itoa.{Itoa}
use petracache.Crates.Semaphore.{max_permits, Semaphore, IsSemaphore}
use mathlib.Core.Path.{subst}
use petracache.Server.Connection.Gauge.{AddsCall, handle-AddsCall}
use petracache.Outcome.{returned, panicked}
use native.Mathlib.Decide.{dec_lt}
use petracache.Server.Listener.{
  compacts, here, next, new, returned, resume, handle, RocksStorage, End, ServerConfig, Reading,
  Event, Reach, breaks, quits, finishes, waits, shuts_down, cancels, accept_failed, accepts, Step,
  Session, drop_connection, handle_new_connection, Listener, admit,
}

same_calls :
    (calls others : List MetricCall)
    → gauge_calls calls ≡ gauge_calls others
    → (increments calls ≡ increments others) × (decrements calls ≡ decrements others)
same_calls calls others h = (
  sym (increments-gauge_calls calls) ∙ ap increments h ∙ increments-gauge_calls others,
  sym (decrements-gauge_calls calls) ∙ ap decrements h ∙ decrements-gauge_calls others,
)

one_down :
    (calls others : List MetricCall)
    → gauge_calls calls ≡ dec active_connections ∷ gauge_calls others
    → (increments calls ≡ increments others) × (decrements calls ≡ decrements others + 1)
unfolding increments decrements
one_down calls others h = (
  sym (increments-gauge_calls calls) ∙ ap increments h ∙ increments-gauge_calls others,
  omega
      (arith, sym (decrements-gauge_calls calls) ∙ ap decrements h, decrements-gauge_calls others),
)

module _ (r : RocksDb) (s : Semaphore) (laws : IsSemaphore s) ⦃m : Memchr⦄ ⦃b : BytesMut⦄
    ⦃i : Itoa⦄ where
  -- Every connection has a permit, and the gauge exceeds the connections by those that ended by a
  -- quit or an error.
  pub record Inv (limit early : ℕ) (l : Listener r s) : Type 0 where
    pub permits : s.available l.connection_semaphore + length l.connections ≡ limit
    pub gauge :
        increments l.server.metrics ≡ decrements l.server.metrics + length l.connections + early

  admit-Inv :
      (limit early : ℕ) (l : Listener r s) (o : Option s.Permits)
      → s.try_acquire l.connection_semaphore ≡ o
      → Inv limit early l
      → Inv limit early (admit r s l o)
  unfolding admit increments decrements
  admit-Inv limit early l none e v = record { permits = v.permits; gauge = v.gauge }
  admit-Inv limit early l (some permits) e v = record {
    permits = omega (arith, v.permits, laws.acquired l.connection_semaphore permits e);
    gauge = omega (arith, v.gauge);
  }

  drop-Inv :
      (limit early later : ℕ) (l : Listener r s) (before after : List (Session r))
      (c c' : Session r)
      → l.connections ≡ before ++ c ∷ after
      → increments c'.server.metrics
        ≡ decrements c'.server.metrics + length (before ++ after) + later
      → Inv limit early l
      → Inv limit later (drop_connection r s l (before ++ after) c')
  unfolding drop_connection
  drop-Inv limit early later l before after c c' at g v = record {
    permits = omega (
      arith,
      v.permits,
      laws.released l.connection_semaphore,
      ap length at,
      length_remove {0} before after c,
    );
    gauge = g;
  }

  Inv-count :
      (limit early later : ℕ) (l : Listener r s)
      → early ≡ later
      → Inv limit early l
      → Inv limit later l
  Inv-count limit early later l e v = record { permits = v.permits; gauge = omega (arith, v.gauge) }

  -- What one event adds to the calls on the gauge.
  event-AddsCall :
      (l : Listener r s) (c : Session r) (event : Event) (clock : ℕ → ℕ → Reading)
      (writes : ℕ → Bool) {o : End r}
      → handle r clock writes (resume r s l c) (event ∷ []) ≡ o
      → AddsCall r clock writes (gauge_calls l.server.metrics) o
  event-AddsCall l c event clock writes e =
      subst (AddsCall r clock writes (gauge_calls l.server.metrics)) e
        (handle-AddsCall r clock writes (resume r s l c) (event ∷ []))

  -- A connection that ends without taking the gauge down.
  early-Inv :
      (limit early : ℕ) (l : Listener r s) (before after : List (Session r)) (c c' : Session r)
      → l.connections ≡ before ++ c ∷ after
      → gauge_calls c'.server.metrics ≡ gauge_calls l.server.metrics
      → Inv limit early l
      → Inv limit (early + 1) (drop_connection r s l (before ++ after) c')
  early-Inv limit early l before after c c' at g v =
      let (ups, downs) = same_calls c'.server.metrics l.server.metrics g in
      drop-Inv limit early (early + 1) l before after c c' at
        (omega (arith, v.gauge, ap length at, length_remove {0} before after c)) v

  pub Step-Inv :
      (limit early : ℕ) {n : ℕ} {l l' : Listener r s}
      → Step r s l n l'
      → Inv limit early l
      → Inv limit (early + n) l'
  unfolding handle_new_connection
  Step-Inv limit early {l = l} (accepts on) v =
      Inv-count limit early (early + 0) _ (omega arith)
        (admit-Inv limit early l (s.try_acquire l.connection_semaphore) refl v)
  Step-Inv limit early {l = l} (accept_failed on) v =
      Inv-count limit early (early + 0) l (omega arith) v
  Step-Inv limit early {l = l} cancels v = record {
    permits = v.permits;
    gauge = omega (arith, v.gauge);
  }
  Step-Inv limit early {l = l} (shuts_down on told) v = record {
    permits = v.permits;
    gauge = omega (arith, v.gauge);
  }
  Step-Inv limit early {l = l} (compacts now key) v = record {
    permits = v.permits;
    gauge = omega (arith, v.gauge);
  }
  Step-Inv limit early {l = l} (waits before after c c' event clock writes at e) v =
      let (ups, downs) =
        same_calls c'.server.metrics l.server.metrics (event-AddsCall l c event clock writes e) in
      let same : length (before ++ c' ∷ after) ≡ length l.connections =
        omega (arith, ap length at, length_replace {0} before after c c') in
      record { permits = omega (arith, v.permits); gauge = omega (arith, v.gauge) }
  Step-Inv limit early {l = l} (finishes before after c c' event clock writes at e allowed) v =
      let (ups, downs) =
        one_down c'.server.metrics l.server.metrics (event-AddsCall l c event clock writes e) in
      drop-Inv limit early (early + 0) l before after c c' at
        (omega (arith, v.gauge, ap length at, length_remove {0} before after c)) v
  Step-Inv limit early {l = l} (quits before after c c' event clock writes at e) v =
      early-Inv limit early l before after c c' at (event-AddsCall l c event clock writes e) v
  Step-Inv limit early {l = l} (breaks before after c c' event clock writes at e) v =
      early-Inv limit early l before after c c' at (event-AddsCall l c event clock writes e) v

  pub Reach-Inv :
      (limit early : ℕ) {l : Listener r s} {n : ℕ} {l' : Listener r s}
      → Inv limit early l
      → Reach r s l n l'
      → Inv limit (early + n) l'
  Reach-Inv limit early {l = l} v here = Inv-count limit early (early + 0) l (omega arith) v
  Reach-Inv limit early v (next {k} {n} {l' = l'} before step) =
      Inv-count limit (early + k + n) (early + (k + n)) l' (omega arith)
        (Step-Inv limit (early + k) step (Reach-Inv limit early v before))

  -- A listener is made with all permits free, if the configured number is one that a semaphore takes.
  pub new_within :
      (config : ServerConfig) (storage : RocksStorage r)
      → config.max_connections ≤ max_permits
      → (l : Listener r s) × (new r s config storage ≡ returned l)
        × Inv config.max_connections 0 l
        × (l.connections ≡ [])
        × (l.is_accepting ≡ true)
        × (l.is_cancelled ≡ false)
        × (l.server ≡ record { storage = storage; metrics = [] })
  unfolding new increments decrements
  new_within config storage le =
      let (permits, made, all) = laws.create_within config.max_connections le in
      (
        record {
          config = config;
          server = record { storage = storage; metrics = [] };
          connection_semaphore = permits;
          is_cancelled = false;
          connections = [];
          is_accepting = true;
        },
        rw made,
        record { permits = omega (arith, all); gauge = omega arith },
        refl,
        refl,
        refl,
        refl,
      )

  same_returned : {x y : Listener r s} → returned x ≡ returned y → x ≡ y
  same_returned e = cc

  -- In every state that the program reaches behind a start, whatever the connections and the
  -- listener do and in whatever order, the free permits and the connections together are as many
  -- as the configured limit, and the gauge of active connections has been taken up as often as it
  -- was taken down, plus the connections there are, plus those that ended by a quit or an error;
  -- the semaphore follows its laws and the limit is one that it takes.
  pub new-Inv :
      (config : ServerConfig) (storage : RocksStorage r) {n : ℕ} {l l' : Listener r s}
      → config.max_connections ≤ max_permits
      → new r s config storage ≡ returned l
      → Reach r s l n l'
      → Inv config.max_connections n l'
  new-Inv config storage {n} {l} {l'} le e reach =
      let (first, made, v, x, y, z, w) = new_within config storage le in
      Inv-count config.max_connections (0 + n) n l' (omega arith) (
        Reach-Inv config.max_connections 0
          (subst (Inv config.max_connections 0) (same_returned (sym made ∙ e)) v) reach)

  -- The making panics exactly when the limit is more than a semaphore takes.
  pub new_panics_iff :
      (config : ServerConfig) (storage : RocksStorage r)
      → (new r s config storage ≡ panicked) ↔ (max_permits < config.max_connections)
  unfolding new
  new_panics_iff config storage = elim (dec_lt max_permits config.max_connections) [
    | yes beyond ↦ ((λ e. beyond), (λ h. rw (laws.create_beyond config.max_connections beyond)))
    | no within ↦
        let (l, made, v, x, y, z, w) = new_within config storage (omega arith) in
        ((λ e. absurd (not_panicked (sym made ∙ e))), (λ h. absurd (within h)))
  ]
    where
      not_panicked : {x : Listener r s} → returned x ≢ panicked
      not_panicked e = cc
