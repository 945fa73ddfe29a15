-- ===== src/Protocol/Command.antt =====
-- src/protocol/command.rs: the parsed commands and the test of a key.
use petracache.Base.{
  ◌↔◌, ℕ, ◌<◌, ◌≤◌, ◌≡◌, refl, Bool, true, false, ◌&&◌, ◌||◌, List, [], ◌∷◌, arith, Bytes, All,
  length, is_empty, every, ltb, if◌then◌else◌,
}

abbrev pub max_key_length : ℕ
max_key_length = 250

pub data Command : Type 0 where
  get : List Bytes → Command
  -- key, flags, exptime, data, noreply
  set : Bytes → ℕ → ℕ → Bytes → Bool → Command
  -- key, noreply
  delete : Bytes → Bool → Command
  version quit : Command

unfoldable pub is_noreply : Command → Bool
is_noreply (set key flags exptime bytes noreply) = noreply
is_noreply (delete key noreply) = noreply
is_noreply _ = false

is_key_byte : ℕ → Bool
is_key_byte b = ltb 32 b && ltb b 127

unfoldable pub is_valid_key : Bytes → Bool
unfolding is_key_byte
is_valid_key key =
    if is_empty key || ltb max_key_length (length key) then false else every is_key_byte key

abbrev pub IsKeyByte : ℕ → Type 0
IsKeyByte b = (32 < b) × (b < 127)

-- What the protocol asks of a key: 1 to 250 bytes, none of them a control character or a space.
pub record IsValidKey (key : Bytes) : Type 0 where
  pub ne_nil : 0 < length key
  pub fits : length key ≤ max_key_length
  pub printable : All IsKeyByte key

every-All : (s : Bytes) → every is_key_byte s ≡ true → All IsKeyByte s
unfolding is_key_byte
every-All [] h = tt
every-All (b ∷ s) h = (ground arith, every-All s (ground arith))

All-every : (s : Bytes) → All IsKeyByte s → every is_key_byte s ≡ true
unfolding is_key_byte
All-every [] h = refl
All-every (b ∷ s) (hb, hs) = ground (arith, All-every s hs)

pub is_valid_key_sound : (key : Bytes) → is_valid_key key ≡ true → IsValidKey key
unfolding is_valid_key
is_valid_key_sound [] h = cc
is_valid_key_sound (b ∷ s) h = record {
  ne_nil = omega arith;
  fits = ground arith;
  printable = every-All (b ∷ s) (ground arith);
}

pub is_valid_key_complete : (key : Bytes) → IsValidKey key → is_valid_key key ≡ true
unfolding is_valid_key
is_valid_key_complete [] v = absurd (omega (arith, v.ne_nil))
is_valid_key_complete (b ∷ s) v = ground (arith, All-every (b ∷ s) v.printable, v.fits)

-- The test of a key accepts exactly the strings of 1 to 250 bytes of which each is above 32 and
-- below 127.
pub is_valid_key_iff : (key : Bytes) → (is_valid_key key ≡ true) ↔ IsValidKey key
is_valid_key_iff key = (is_valid_key_sound key, is_valid_key_complete key)
