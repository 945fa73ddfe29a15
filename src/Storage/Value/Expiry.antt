-- ===== src/Storage/Value/Expiry.antt =====
-- The rule of expiration times.
use petracache.Base.{
  Bool, Bytes, Option, arith, false, if◌then◌else◌, leb, none, some, true, ℕ, ◌+◌, ◌==◌, ◌≡◌, ◌≤◌,
}
use petracache.Rust.Integer.{max_u64}
use petracache.Storage.Value.{
  max_relative_ttl, StoredValue, calculate_expire_at, new_value, is_expired,
}

-- The last second of a value's life, plus one: what the protocol's rule says of an expiration time
-- that is stored at the second `now`. `none` is for ever.
abbrev pub deadline : ℕ → ℕ → Option ℕ
deadline now exptime =
    if exptime == 0
    then none
    else if leb exptime max_relative_ttl
    then some (now + exptime)
    else some exptime

abbrev pub past : Option ℕ → ℕ → Bool
past none later = false
past (some t) later = leb t later

-- A value stored at one second counts as expired at another exactly when its deadline has come:
-- never for 0, that many seconds later up to 30 days, at that second of the epoch beyond; the
-- clock leaves room for 30 days below the largest u64.
pub is_expired-new_value :
    (now later flags exptime : ℕ) (payload : Bytes)
    → now + max_relative_ttl ≤ max_u64
    → is_expired (some later) (new_value (some now) flags exptime payload)
      ≡ past (deadline now exptime) later
unfolding is_expired new_value calculate_expire_at
is_expired-new_value now later flags exptime payload room = ground arith

-- A value that has expired stays so while the clock does not go back.
pub is_expired_mono :
    (v : StoredValue) (t u : ℕ)
    → t ≤ u
    → is_expired (some t) v ≡ true
    → is_expired (some u) v ≡ true
unfolding is_expired
is_expired_mono v t u le h = ground arith
