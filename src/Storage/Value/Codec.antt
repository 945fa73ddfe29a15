-- ===== src/Storage/Value/Codec.antt =====
-- The bytes of a stored value are read back, and no other bytes are read as it.
use petracache.Base.{
  All-drop, All-take, Bool-cases, Bytes, IsByte, IsBytes, ap, append_assoc, arith, codes, drop,
  drop-drop, inl, inr, length, length-drop, length-take, le→ltb-false, ltb, ltb-false→le, refl, sym,
  take, take-append-drop, ℕ, ◌++◌, ◌+◌, ◌<◌, ◌^◌, ◌∙◌, ◌≡◌, ◌≢◌, ◌≤◌,
}
use mathlib.Core.Path.{subst}
use petracache.Error.{StorageError, decoding}
use petracache.Result.{Result, ok, err}
use petracache.Rust.Integer.{to_le_bytes, from_le_bytes}
use petracache.Rust.Integer.ByteOrder.{
  from_le_bytes-to_le_bytes, to_le_bytes-from_le_bytes, from_le_bytes-lt, capacity,
}
use petracache.Storage.Value.{StoredValue, encode, decode}

-- The value's numbers fit their types.
pub record IsStored (v : StoredValue) : Type 0 where
  pub expire_at_u64 : v.expire_at < 2 ^ 64
  pub flags_u32 : v.flags < 2 ^ 32

length-header : (v : StoredValue) → length (encode v) ≡ 12 + length v.payload
unfolding encode to_le_bytes
length-header v = omega arith

-- The fields stand at their places.
header_places :
    (v : StoredValue)
    → (take 8 (encode v) ≡ to_le_bytes 8 v.expire_at)
      × (take 4 (drop 8 (encode v)) ≡ to_le_bytes 4 v.flags)
      × (drop 12 (encode v) ≡ v.payload)
unfolding encode to_le_bytes
header_places v = (refl, refl, refl)

take-le_bytes :
    (w : ℕ) (s : Bytes)
    → IsBytes s
    → w ≤ length s
    → to_le_bytes w (from_le_bytes (take w s)) ≡ take w s
take-le_bytes w s h le =
    let whole : length (take w s) ≡ w = omega (arith, length-take {0} w s) in
    rw whole at (to_le_bytes-from_le_bytes (take w s) (All-take IsByte w s h))

from_le_bytes-take_lt :
    (w : ℕ) (s : Bytes) → IsBytes s → w ≤ length s → from_le_bytes (take w s) < capacity w
from_le_bytes-take_lt w s h le =
    let whole : length (take w s) ≡ w = omega (arith, length-take {0} w s) in
    rw whole at (from_le_bytes-lt (take w s) (All-take IsByte w s h))

module _ {E : Type 0} where
  -- The bytes of a value whose numbers fit their types are read back as that value, whatever the
  -- payload.
  pub decode-encode : (v : StoredValue) → IsStored v → decode {E = E} (encode v) ≡ ok v
  unfolding decode
  decode-encode v h =
      let (a, b, c) = header_places v in
      rw (le→ltb-false (length (encode v)) 12 (omega (arith, length-header v))) (
        rw (a, b, c)
          (rw (
            from_le_bytes-to_le_bytes 8 v.expire_at h.expire_at_u64,
            from_le_bytes-to_le_bytes 4 v.flags h.flags_u32,
          )))

  -- Bytes, each below 256, that are read as a value are the bytes of that value, and its numbers
  -- fit their types.
  pub encode-decode :
      (bytes : Bytes) {v : StoredValue}
      → IsBytes bytes
      → decode {E = E} bytes ≡ ok v
      → (encode v ≡ bytes) × IsStored v
  unfolding decode
  encode-decode bytes {v} h e = elim (Bool-cases (ltb (length bytes) 12)) [
    | inl short ↦ absurd (err_ne (rw short at e))
    | inr long ↦
        let le = ltb-false→le (length bytes) 12 long in
        subst (λ w. (encode w ≡ bytes) × IsStored w) (ok_injective (rw long at e)) (parts le)
  ]
    where
      err_ne :
          ◌≢◌ {A = Result StoredValue (StorageError E)}
            (err (decoding (codes "Value too short to decode")))
            (ok v)
      err_ne q = cc

      read : StoredValue
      read = record {
        expire_at = from_le_bytes (take 8 bytes);
        flags = from_le_bytes (take 4 (drop 8 bytes));
        payload = drop 12 bytes;
      }

      ok_injective : ◌≡◌ {A = Result StoredValue (StorageError E)} (ok read) (ok v) → read ≡ v
      ok_injective q = cc

      parts : 12 ≤ length bytes → (encode read ≡ bytes) × IsStored read
      parts le =
          let tail = All-drop IsByte 8 bytes h in
          let left : 4 ≤ length (drop 8 bytes) = omega (arith, length-drop {0} 8 bytes) in
          (
            unfold encode in
                rw (take-le_bytes 8 bytes h (omega arith), take-le_bytes 4 (drop 8 bytes) tail left)
                  (append_assoc (take 8 bytes) _ _
                    ∙ ap (λ s. take 8 bytes ++ (take 4 (drop 8 bytes) ++ s))
                        (sym (drop-drop 4 8 bytes))
                    ∙ ap (λ s. take 8 bytes ++ s) (take-append-drop 4 (drop 8 bytes))
                    ∙ take-append-drop 8 bytes),
            record {
              expire_at_u64 = from_le_bytes-take_lt 8 bytes h (omega arith);
              flags_u32 = from_le_bytes-take_lt 4 (drop 8 bytes) tail left;
            },
          )
