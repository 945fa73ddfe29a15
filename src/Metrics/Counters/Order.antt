-- ===== src/Metrics/Counters/Order.antt =====
-- The order of the calls does not matter.
use mathlib.Core.List.{Perm, Permᴰ}
use native.Mathlib.Nat.{ℕ_set}
use mathlib.Core.Logic.{∥∥₁_elim}
use petracache.Base.{List, ap, arith, refl, ◌∙◌, ◌≡◌}
use petracache.Metrics.Counters.{run, AtomicCounters, Call, apply}

apply_comm : (x y : Call) (c : AtomicCounters) → apply x (apply y c) ≡ apply y (apply x c)
unfolding apply
apply_comm x y c = ground arith

AtomicCounters-set : IsSet AtomicCounters
AtomicCounters-set = hlevel ℕ_set

run_permᴰ :
    {calls others : List Call} (c : AtomicCounters)
    → Permᴰ calls others
    → run calls c ≡ run others c
unfolding run
run_permᴰ c Permᴰ.nil = refl
run_permᴰ c (Permᴰ.cons {a} {b} {l₁} {l₂} e p) =
    run_permᴰ (apply a c) p ∙ ap (λ x. run l₂ (apply x c)) e
run_permᴰ c (Permᴰ.swap {a} {b} {a'} {b'} {l} e f) =
    ap (run l) (apply_comm b a c)
    ∙ ap (λ x. run l (apply x (apply b c))) e
    ∙ ap (λ y. run l (apply b' (apply y c))) f
run_permᴰ c (Permᴰ.trans p q) = run_permᴰ c p ∙ run_permᴰ c q

-- The values of the atomic counters do not depend on the order in which the calls of the threads
-- take effect, wrap-around included.
pub run_perm :
    (calls others : List Call) (c : AtomicCounters) → Perm calls others → run calls c ≡ run others c
run_perm calls others c p = ∥∥₁_elim p (AtomicCounters-set _ _) (λ d. run_permᴰ c d)
