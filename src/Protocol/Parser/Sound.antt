-- ===== src/Protocol/Parser/Sound.antt =====
-- What a parsed command is: its keys are valid, its numbers fit their types, its bytes lie in the
-- buffer.
use mathlib.Core.Path.{subst}
use petracache.Base.{
  All, All-append, Bool-cases, Bytes, List, Option, [], arith, codes, false, if◌then◌else◌, inl,
  inr, is_empty, none, refl, some, true, ℕ, ◌++◌, ◌∷◌, ◌≡◌, ◌≢◌, ◌≤◌,
}
use petracache.Error.{
  ProtocolError, invalid_command, invalid_flags, invalid_exptime, invalid_bytes_length,
}
use petracache.Result.{
  Ensures, Ensures-bind, Ensures-ok, Ensures-elim, Result, ok, err, ok_or, and_then,
}
use petracache.Rust.Utf8.{from_utf8}
use petracache.Rust.Integer.{max_u32, max_u64, parse_uint}
use petracache.Rust.Integer.Decimal.{parse_uint_sound}
use petracache.Protocol.Command.{
  Command, get, set, delete, IsValidKey, is_valid_key, is_valid_key_sound,
}
use petracache.Protocol.Parser.{
  complete, error, SetLine, set_line, get_keys, parse_get, parse_delete, next, rest, next_key,
  key_error, noreply_among, parse_u32, parse_u64, parse_usize,
}

abbrev pub IsWellFormed : Command → Type 0
IsWellFormed (get keys) = (keys ≢ []) × All IsValidKey keys
IsWellFormed (set key flags exptime payload noreply) =
    IsValidKey key × (flags ≤ max_u32) × (exptime ≤ max_u64)
IsWellFormed (delete key noreply) = IsValidKey key
IsWellFormed _ = Unit

pub next_key_sound :
    (missing : Bytes) (parts : List Bytes) (key : Bytes)
    → next_key missing parts ≡ ok key
    → IsValidKey key
unfolding next_key
next_key_sound missing [] key h = cc
next_key_sound missing (part ∷ parts) key h =
    let valid : is_valid_key key ≡ true = ground arith in is_valid_key_sound key valid

parsed_le :
    (max : ℕ) (s : Bytes) (n : ℕ) → and_then (from_utf8 s) (parse_uint max) ≡ some n → n ≤ max
parsed_le max s n h = go (from_utf8 s) h
  where
    go : (t : Option Bytes) → and_then t (parse_uint max) ≡ some n → n ≤ max
    go none q = cc
    go (some t) q = (parse_uint_sound max t q).3

field_le :
    (max : ℕ) (e : ProtocolError) (o : Option Bytes) (n : ℕ)
    → ok_or e (and_then o (λ s. and_then (from_utf8 s) (parse_uint max))) ≡ ok n
    → n ≤ max
field_le max e none n h = cc
field_le max e (some s) n h = go (and_then (from_utf8 s) (parse_uint max)) refl h
  where
    go : (v : Option ℕ) → and_then (from_utf8 s) (parse_uint max) ≡ v → ok_or e v ≡ ok n → n ≤ max
    go none q p = cc
    go (some k) q p = parsed_le max s n (ground arith)

pub record IsSetLine (l : SetLine) : Type 0 where
  pub valid_key : IsValidKey l.key
  pub flags_le : l.flags ≤ max_u32
  pub exptime_le : l.exptime ≤ max_u64
  pub bytes_le : l.bytes ≤ max_u64

set_line-Ensures : (parts : List Bytes) → Ensures IsSetLine (set_line parts)
unfolding set_line parse_u32 parse_u64 parse_usize
set_line-Ensures parts = Ensures-bind IsSetLine (next_key (codes "missing key") parts) _ λ key k.
    Ensures-bind IsSetLine (ok_or invalid_flags (and_then (next (rest parts)) parse_u32)) _
      λ flags f.
        Ensures-bind IsSetLine
          (ok_or invalid_exptime (and_then (next (rest (rest parts))) parse_u64)) _
          λ exptime t.
            Ensures-bind IsSetLine
              (ok_or invalid_bytes_length (and_then (next (rest (rest (rest parts)))) parse_usize))
              _
              λ bytes n. Ensures-ok ProtocolError IsSetLine _ (record {
                valid_key = next_key_sound (codes "missing key") parts key k;
                flags_le = field_le max_u32 invalid_flags (next (rest parts)) flags f;
                exptime_le = field_le max_u64 invalid_exptime (next (rest (rest parts))) exptime t;
                bytes_le =
                    field_le max_u64 invalid_bytes_length (next (rest (rest (rest parts)))) bytes n;
              })

pub set_line_sound : (parts : List Bytes) (l : SetLine) → set_line parts ≡ ok l → IsSetLine l
set_line_sound parts l h = Ensures-elim IsSetLine (set_line parts) (set_line-Ensures parts) h

pub get_keys_sound :
    (parts keys : List Bytes) {found : List Bytes}
    → All IsValidKey keys
    → get_keys parts keys ≡ ok found
    → All IsValidKey found
unfolding get_keys
get_keys_sound [] keys v h = subst (All IsValidKey) (ok_injective h) v
  where
    ok_injective :
        {a c : List Bytes} → ◌≡◌ {A = Result (List Bytes) ProtocolError} (ok a) (ok c) → a ≡ c
    ok_injective q = cc
get_keys_sound (part ∷ parts) keys v h = elim (Bool-cases (is_empty part)) [
  | inl skipped ↦ get_keys_sound parts keys v (rw skipped at h)
  | inr kept ↦ elim (Bool-cases (is_valid_key part)) [
    | inl valid ↦
        get_keys_sound parts (keys ++ part ∷ [])
          (All-append IsValidKey keys (part ∷ []) v (is_valid_key_sound part valid, tt))
          (rw (kept, valid) at h)
    | inr bad ↦ absurd (err_ne part (rw (kept, bad) at h))
  ]
]
  where
    err_ne :
        (k : Bytes) {c : List Bytes}
        → ◌≢◌ {A = Result (List Bytes) ProtocolError} (err (key_error k)) (ok c)
    err_ne k q = cc

pub parse_get_sound :
    (parts : List Bytes) (consumed n : ℕ) (cmd : Command)
    → parse_get parts consumed ≡ complete cmd n
    → (n ≡ consumed) × IsWellFormed cmd
unfolding parse_get
parse_get_sound parts consumed n cmd h = go (get_keys parts []) refl h
  where
    finish :
        (keys : List Bytes)
        → All IsValidKey keys
        → (if is_empty keys
            then error (invalid_command (codes "get requires at least one key"))
            else complete (get keys) consumed)
          ≡ complete cmd n
        → (n ≡ consumed) × IsWellFormed cmd
    finish [] v q = cc
    finish (key ∷ keys) v q =
        subst (λ c. (n ≡ consumed) × IsWellFormed c) (command q) (place q, ((λ p. cc), v))
      where
        command : complete (get (key ∷ keys)) consumed ≡ complete cmd n → get (key ∷ keys) ≡ cmd
        command p = cc

        place : complete (get (key ∷ keys)) consumed ≡ complete cmd n → n ≡ consumed
        place p = cc

    go :
        (r : Result (List Bytes) ProtocolError)
        → get_keys parts [] ≡ r
        → (elim r [
          | err e ↦ error e
          | ok keys ↦
              if is_empty keys
              then error (invalid_command (codes "get requires at least one key"))
              else complete (get keys) consumed
        ])
          ≡ complete cmd n
        → (n ≡ consumed) × IsWellFormed cmd
    go (err e) eq q = cc
    go (ok keys) eq q = finish keys (get_keys_sound parts [] tt eq) q

pub parse_delete_sound :
    (parts : List Bytes) (consumed n : ℕ) (cmd : Command)
    → parse_delete parts consumed ≡ complete cmd n
    → (n ≡ consumed) × IsWellFormed cmd
unfolding parse_delete
parse_delete_sound parts consumed n cmd h =
    go (next_key (codes "delete requires a key") parts) refl h
  where
    go :
        (r : Result Bytes ProtocolError)
        → next_key (codes "delete requires a key") parts ≡ r
        → (elim r [
          | err e ↦ error e
          | ok key ↦ complete (delete key (noreply_among (rest parts) false)) consumed
        ])
          ≡ complete cmd n
        → (n ≡ consumed) × IsWellFormed cmd
    go (err e) eq q = cc
    go (ok key) eq q = (
      cc,
      subst IsWellFormed (command q) (next_key_sound (codes "delete requires a key") parts key eq),
    )
      where
        command :
            complete (delete key (noreply_among (rest parts) false)) consumed ≡ complete cmd n
            → delete key (noreply_among (rest parts) false) ≡ cmd
        command p = cc
