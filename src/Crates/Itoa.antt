-- ===== src/Crates/Itoa.antt =====
-- The crate itoa: decimal integers, as the standard library prints them.
use petracache.Base.{Bytes, ℕ, ◌≡◌}
use petracache.Rust.Integer.{to_string}

pub record Itoa : Type 0 where
  pub format : ℕ → Bytes
  pub format_lem : (n : ℕ) → format n ≡ to_string n
