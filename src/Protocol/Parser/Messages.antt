-- ===== src/Protocol/Parser/Messages.antt =====
-- The messages of the errors, with the words of a request in them.
use petracache.Base.{
  All, All-append, Bytes, Lacks, List, [], arith, codes, if_both, is_empty, length, ltb, not, take,
  ℕ, ◌++◌, ◌∷◌, ◌≢◌,
}
use petracache.Protocol.Parser.{
  parse_usize, parse_u64, parse_u32, rest, next, and_then, ok_or, is_valid_key, get_keys,
  max_key_length, set_line, key_error, parts_of, next_key,
}
use petracache.Error.{
  unexpected_data, invalid_bytes_length, invalid_exptime, invalid_command, invalid_flags,
  ProtocolError, protocol_message,
}
use petracache.Rust.Utf8.{from_utf8_lossy-All, from_utf8_lossy}
use petracache.Result.{Refuses-ok_or, Refuses-ok, Refuses-err, Refuses-bind, Refuses}
use petracache.Rust.Split.{All-split}

-- The message has no carriage return.
abbrev pub IsOneLine : ProtocolError → Type 0
IsOneLine e = Lacks b'\r' (protocol_message e)

pub invalid_command-IsOneLine : (s : Bytes) → Lacks b'\r' s → IsOneLine (invalid_command s)
unfolding protocol_message
invalid_command-IsOneLine s h =
    All-append (λ c. c ≢ b'\r') (codes "Invalid command: ") s (omega arith) h

pub shown_Lacks : (s : Bytes) → Lacks b'\r' s → Lacks b'\r' (from_utf8_lossy s)
shown_Lacks s h = from_utf8_lossy-All (λ c. c ≢ b'\r') s (omega arith) h

key_error-IsOneLine : (key : Bytes) → Lacks b'\r' key → IsOneLine (key_error key)
unfolding key_error protocol_message
key_error-IsOneLine key h = if_both IsOneLine (ltb max_key_length (length key)) (omega arith) (
    All-append (λ c. c ≢ b'\r') (codes "Invalid key: ") (from_utf8_lossy key) (omega arith)
      (shown_Lacks key h))

-- Words of a line.
abbrev pub AreWords : List Bytes → Type 0
AreWords = All (Lacks b'\r')

pub parts_of-AreWords : (buf : Bytes) (e : ℕ) → Lacks b'\r' (take e buf) → AreWords (parts_of buf e)
parts_of-AreWords buf e h = All-split (λ c. c ≢ b'\r') b' ' (take e buf) h

pub next_key-Refuses :
    (missing : Bytes) (parts : List Bytes)
    → Lacks b'\r' missing
    → AreWords parts
    → Refuses IsOneLine (next_key missing parts)
unfolding next_key
next_key-Refuses missing [] hm h = Refuses-err _ IsOneLine _ (invalid_command-IsOneLine missing hm)
next_key-Refuses missing (key ∷ parts) hm (h, hs) =
    if_both (Refuses IsOneLine) (is_empty key)
      (Refuses-err _ IsOneLine _ (invalid_command-IsOneLine missing hm))
      (if_both (Refuses IsOneLine) (is_valid_key key) (Refuses-ok IsOneLine key)
        (Refuses-err _ IsOneLine _ (key_error-IsOneLine key h)))

pub get_keys-Refuses :
    (parts keys : List Bytes) → AreWords parts → Refuses IsOneLine (get_keys parts keys)
unfolding get_keys
get_keys-Refuses [] keys h = Refuses-ok IsOneLine keys
get_keys-Refuses (part ∷ parts) keys (h, hs) =
    if_both (Refuses IsOneLine) (is_empty part) (get_keys-Refuses parts keys hs) (
      if_both (Refuses IsOneLine) (not (is_valid_key part))
        (Refuses-err _ IsOneLine _ (key_error-IsOneLine part h))
        (get_keys-Refuses parts (keys ++ part ∷ []) hs))

pub fields_IsOneLine :
    IsOneLine invalid_flags
    × IsOneLine invalid_exptime
    × IsOneLine invalid_bytes_length
    × IsOneLine unexpected_data
unfolding protocol_message
fields_IsOneLine = (omega arith, omega arith, omega arith, omega arith)

pub set_line-Refuses : (parts : List Bytes) → AreWords parts → Refuses IsOneLine (set_line parts)
unfolding set_line
set_line-Refuses parts h =
    let (flags, exptime, bytes, block) = fields_IsOneLine in
    Refuses-bind IsOneLine (next_key (codes "missing key") parts) _
      (next_key-Refuses (codes "missing key") parts (omega arith) h)
      λ key.
        Refuses-bind IsOneLine (ok_or invalid_flags (and_then (next (rest parts)) parse_u32)) _
          (Refuses-ok_or IsOneLine invalid_flags _ flags)
          λ n.
            Refuses-bind IsOneLine
              (ok_or invalid_exptime (and_then (next (rest (rest parts))) parse_u64)) _
              (Refuses-ok_or IsOneLine invalid_exptime _ exptime)
              λ t.
                Refuses-bind IsOneLine
                  (ok_or invalid_bytes_length
                    (and_then (next (rest (rest (rest parts)))) parse_usize))
                  _ (Refuses-ok_or IsOneLine invalid_bytes_length _ bytes)
                  λ k. Refuses-ok IsOneLine _
