-- ===== src/Crates/Semaphore.antt =====
-- The semaphore of the crate tokio, by its permits.
use petracache.Base.{Option, none, some, ℕ, ◌+◌, ◌-◌, ◌<◌, ◌^◌, ◌≡◌, ◌≤◌}
use petracache.Outcome.{Outcome, returned, panicked}

pub record Semaphore : Type 1 where
  pub Permits : Type 0
  pub available : Permits → ℕ
  -- It panics above the largest number of permits.
  pub create : ℕ → Outcome Permits
  -- The semaphore behind a permit taken, or none where there is no permit.
  pub try_acquire : Permits → Option Permits
  -- A permit is dropped.
  pub release : Permits → Permits

-- `Semaphore::MAX_PERMITS`, which is `usize::MAX >> 3`.
abbrev pub max_permits : ℕ
max_permits = 2 ^ 61 - 1

pub record IsSemaphore (s : Semaphore) : Type 0 where
  pub create_within :
      (n : ℕ) → n ≤ max_permits → (p : s.Permits) × (s.create n ≡ returned p) × (s.available p ≡ n)
  pub create_beyond : (n : ℕ) → max_permits < n → s.create n ≡ panicked
  pub acquired : (p q : s.Permits) → s.try_acquire p ≡ some q → s.available p ≡ s.available q + 1
  pub refused : (p : s.Permits) → s.try_acquire p ≡ none → s.available p ≡ 0
  pub released : (p : s.Permits) → s.available (s.release p) ≡ s.available p + 1
