-- ===== src/Health/Loop.antt =====
-- How the loop ends when it is stopped.
use petracache.Base.{Bytes, List, Option, [], arith, false, none, refl, some, ℕ, ◌+◌, ◌∷◌, ◌≡◌, ◌≤◌}
use petracache.Outcome.{Outcome, returned, panicked}
use petracache.Health.{
  Action, tests, would_block, accept_failed, stops, accepts, readies, Phase, accepting, Run,
  answered, loop_step, step, run, set_ready, stop,
}

-- The connections that the loop may still handle, once the flag is off.
abbrev pub pending : Phase → ℕ
pending accepting = 1
pending _ = 0

-- Handled connections, and those to come.
abbrev pub total : Run → ℕ
total t = t.handled + pending t.phase

module _ (metrics : ℕ → Outcome Bytes) where
  answered-total :
      (t : Run) (o : Outcome (Option Bytes))
      → ((answered t o).server.running ≡ t.server.running) × (total (answered t o) ≡ t.handled + 1)
  unfolding answered
  answered-total t panicked = (refl, omega arith)
  answered-total t (returned none) = (refl, omega arith)
  answered-total t (returned (some reply)) = (refl, omega arith)

  loop_step-total :
      (p : Phase) (action : Action) (t : Run)
      → t.phase ≡ p
      → t.server.running ≡ false
      → ((loop_step metrics p action t).server.running ≡ false)
        × (total (loop_step metrics p action t) ≤ total t)
  unfolding loop_step
  loop_step-total accepting (accepts stream) t e off = grind (arith, answered-total)
  loop_step-total p action t e off = ground arith

  step-total :
      (action : Action) (t : Run)
      → t.server.running ≡ false
      → ((step metrics action t).server.running ≡ false) × (total (step metrics action t) ≤ total t)
  unfolding step set_ready stop
  step-total (readies b) t off = (off, omega arith)
  step-total stops t off = (refl, omega arith)
  step-total tests t off = loop_step-total t.phase tests t refl off
  step-total would_block t off = loop_step-total t.phase would_block t refl off
  step-total accept_failed t off = loop_step-total t.phase accept_failed t refl off
  step-total (accepts stream) t off = loop_step-total t.phase (accepts stream) t refl off

  run-total :
      (actions : List Action) (t : Run)
      → t.server.running ≡ false
      → total (run metrics actions t) ≤ total t
  unfolding run
  run-total [] t off = omega arith
  run-total (action ∷ actions) t off =
      let (still, less) = step-total action t off in
      omega (arith, run-total actions (step metrics action t) still)

  -- Once the health server is stopped, its loop handles one more connection at most, and that
  -- only if it was already at its accept, whatever connections come.
  pub handled-run_stopped :
      (actions : List Action) (t : Run)
      → (run metrics (stops ∷ actions) t).handled ≤ t.handled + pending t.phase
  unfolding run step stop
  handled-run_stopped actions t =
      omega (arith, run-total actions (record t { server = stop t.server }) refl)
