-- ===== src/Health/Routes.antt =====
-- Which request gets which status.
use petracache.Base.{
  true, bytes_eq_iff, Bool, Bytes, List, [], arith, codes, false, length, ℕ, ◌<◌, ◌↔◌, ◌∷◌, ◌≡◌,
  ◌≤◌, ◌⊎◌,
}
use petracache.Outcome.{Outcome, returned, panicked}
use petracache.Health.{Answer, answer, get_path, metrics_answer}

-- The request asks for one of these paths with GET.
abbrev pub Asks : List Bytes → Bytes → Type 0
Asks [] path = ⊥
Asks (method ∷ []) path = ⊥
Asks (method ∷ asked ∷ more) path = (method ≡ codes "GET") × (asked ≡ path)

abbrev pub HasStatus : ℕ → Outcome Answer → Type 0
HasStatus status (returned a) = a.status ≡ status
HasStatus status panicked = ⊥

abbrev pub IsGet : List Bytes → Type 0
IsGet [] = ⊥
IsGet (method ∷ []) = ⊥
IsGet (method ∷ path ∷ more) = method ≡ codes "GET"

answer-HasStatus_503 :
    (ready : Bool) (text : Bytes) (words : List Bytes)
    → HasStatus 503 (answer ready (returned text) words)
      ↔ ((ready ≡ false) × (Asks words (codes "/ready") ⊎ Asks words (codes "/readyz")))
unfolding answer get_path metrics_answer
answer-HasStatus_503 ready text [] = ground arith
answer-HasStatus_503 ready text (method ∷ []) = ground arith
answer-HasStatus_503 ready text (method ∷ path ∷ more) = ground (
  arith,
  bytes_eq_iff method (codes "GET"),
  bytes_eq_iff path (codes "/health"),
  bytes_eq_iff path (codes "/healthz"),
  bytes_eq_iff path (codes "/ready"),
  bytes_eq_iff path (codes "/readyz"),
  bytes_eq_iff path (codes "/metrics"),
)

-- The requests that are answered with what they ask for.
abbrev pub Served : Bool → List Bytes → Type 0
Served ready words =
    Asks words (codes "/health")
    ⊎ Asks words (codes "/healthz")
    ⊎ Asks words (codes "/metrics")
    ⊎ ((ready ≡ true) × (Asks words (codes "/ready") ⊎ Asks words (codes "/readyz")))

answer-HasStatus_200 :
    (ready : Bool) (text : Bytes) (words : List Bytes)
    → HasStatus 200 (answer ready (returned text) words) ↔ Served ready words
unfolding answer get_path metrics_answer
answer-HasStatus_200 ready text [] = ground arith
answer-HasStatus_200 ready text (method ∷ []) = ground arith
answer-HasStatus_200 ready text (method ∷ path ∷ more) = ground (
  arith,
  bytes_eq_iff method (codes "GET"),
  bytes_eq_iff path (codes "/health"),
  bytes_eq_iff path (codes "/healthz"),
  bytes_eq_iff path (codes "/ready"),
  bytes_eq_iff path (codes "/readyz"),
  bytes_eq_iff path (codes "/metrics"),
)

answer-HasStatus_400 :
    (ready : Bool) (text : Bytes) (words : List Bytes)
    → HasStatus 400 (answer ready (returned text) words) ↔ (length words < 2)
unfolding answer get_path metrics_answer
answer-HasStatus_400 ready text [] = ground arith
answer-HasStatus_400 ready text (method ∷ []) = ground arith
answer-HasStatus_400 ready text (method ∷ path ∷ more) = ground arith

answer-HasStatus_405 :
    (ready : Bool) (text : Bytes) (words : List Bytes)
    → HasStatus 405 (answer ready (returned text) words) ↔ ((2 ≤ length words) × (IsGet words → ⊥))
unfolding answer get_path metrics_answer
answer-HasStatus_405 ready text [] = ground arith
answer-HasStatus_405 ready text (method ∷ []) = ground arith
answer-HasStatus_405 ready text (method ∷ path ∷ more) =
    ground (arith, bytes_eq_iff method (codes "GET"))

-- Where the metrics can be gathered, a request is answered 200 exactly when it is a GET of a
-- health or metrics path, or of a readiness path while the server is ready; 400 when it has fewer
-- than two words; 405 when it has two or more and the method is not GET; and 503 when it is a GET
-- of a readiness path while the server is not ready.
pub answer-HasStatus :
    (ready : Bool) (text : Bytes) (words : List Bytes)
    → (HasStatus 200 (answer ready (returned text) words) ↔ Served ready words)
      × (HasStatus 400 (answer ready (returned text) words) ↔ (length words < 2))
      × (HasStatus 405 (answer ready (returned text) words)
          ↔ ((2 ≤ length words) × (IsGet words → ⊥)))
      × (HasStatus 503 (answer ready (returned text) words)
          ↔ ((ready ≡ false) × (Asks words (codes "/ready") ⊎ Asks words (codes "/readyz"))))
answer-HasStatus ready text words = (
  answer-HasStatus_200 ready text words,
  answer-HasStatus_400 ready text words,
  answer-HasStatus_405 ready text words,
  answer-HasStatus_503 ready text words,
)
