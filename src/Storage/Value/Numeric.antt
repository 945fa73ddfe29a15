-- ===== src/Storage/Value/Numeric.antt =====
-- Numeric values.
use petracache.Base.{ℕ, ◌≡◌, ◌≤◌}
use petracache.Result.{ok}
use petracache.Rust.Utf8.{from_utf8_ascii}
use petracache.Rust.Trim.{trim_digits}
use petracache.Rust.Integer.{max_u64, to_string}
use petracache.Rust.Integer.Decimal.{to_string-IsDigit, digits-IsAscii, parse_uint-to_string}
use petracache.Storage.Value.{StoredValue, as_u64, set_numeric}

-- A number up to the largest u64 that is stored as decimal text is read back as that number.
pub as_u64-set_numeric :
    {E : Type 0} (n : ℕ) (v : StoredValue) → n ≤ max_u64 → as_u64 {E = E} (set_numeric n v) ≡ ok n
unfolding as_u64 set_numeric
as_u64-set_numeric n v h =
    let digits = to_string-IsDigit n in
    rw (from_utf8_ascii (to_string n) (digits-IsAscii (to_string n) digits))
      (rw (trim_digits (to_string n) digits) (rw (parse_uint-to_string max_u64 n h)))
