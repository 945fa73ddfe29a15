-- ===== src/Metrics/Registry/Steps.antt =====
-- Runs that return.
use petracache.Outcome.{Outcome, returned, panicked, ◌>>=◌}

-- The run returns, and what it returns has the property.
abbrev pub Returns : {A : Type 0} → (A → Type 0) → Outcome A → Type 0
Returns P (returned a) = P a
Returns P panicked = ⊥

-- A run that returns what has a property, and goes on to what has another.
pub Returns-bind :
    {A B : Type 0} (Q : A → Type 0) (P : B → Type 0) (m : Outcome A) (rest : A → Outcome B)
    → Returns Q m
    → ((a : A) → Q a → Returns P (rest a))
    → Returns P (m >>= rest)
Returns-bind Q P (returned a) rest h later = later a h
Returns-bind Q P panicked rest h later = absurd h
