-- ===== src/Protocol/Parser/RoundTrip.antt =====
-- The parser reads back what `print` writes.
use mathlib.Core.Path.{subst}
use petracache.Base.{
  All, Bool, Bool-cases, Bytes, List, [], ap, append-nil, append_assoc, arith, bytes_eq, codes,
  false, inl, inr, is_empty, length, length-append, refl, some, sym, true, ℕ, ◌++◌, ◌+◌, ◌<◌, ◌∙◌,
  ◌∷◌, ◌≡◌, ◌≢◌, ◌≤◌,
}
use petracache.Result.{ok, and_then}
use petracache.Rust.Utf8.{from_utf8, from_utf8_ascii}
use petracache.Rust.Integer.{max_u32, max_u64, parse_uint, to_string}
use petracache.Rust.Integer.Decimal.{to_string-IsDigit, parse_uint-to_string, digits-IsAscii}
use petracache.Protocol.Command.{
  Command, get, set, delete, version, quit, IsValidKey, is_valid_key_complete,
}
use petracache.Protocol.Parser
use petracache.Protocol.Parser.{
  ParseResult, complete, SetLine, find_crlf, set_line, set_data, get_keys, parse_get, parse_delete,
  dispatch, parse, next_key, noreply_among, is_noreply_part, parse_u32, parse_u64, parse_usize,
  crlf_at, read_block,
}
use petracache.Protocol.Parser.Line.{find_crlf-append_crlf}
use petracache.Crates.Memchr.{Memchr}
use petracache.Protocol.Parser.Data.{max_slice}
use petracache.Outcome.{returned}
use petracache.Protocol.Parser.Print.{
  noreply_word, words, join, crlf, block, print, IsWord, number-IsWord, noreply-IsWord, keys-IsWord,
  join-Lacks, parse_words,
}
use petracache.Protocol.Parser.Sound.{IsWellFormed}
use petracache.Rust.Split.{to_ascii_lowercase}
use petracache.Protocol.Parser.Verb.{
  dispatch_get, dispatch_set, dispatch_delete, dispatch-version, dispatch_quit, parse_set_ok,
}
use petracache.Protocol.Parser.Block.{set_data_printed}

get_keys_valid :
    (keys found : List Bytes) → All IsValidKey keys → get_keys keys found ≡ ok (found ++ keys)
unfolding get_keys
get_keys_valid [] found h = ap ok (sym (append-nil found))
get_keys_valid (key ∷ keys) found (hk, hs) = elim (Bool-cases (is_empty key)) [
  | inl empty ↦ absurd (no_bytes key hk.ne_nil empty)
  | inr bytes ↦
      rw (bytes, is_valid_key_complete key hk)
        (get_keys_valid keys (found ++ key ∷ []) hs ∙ ap ok (append_assoc found (key ∷ []) keys))
]
  where
    no_bytes : (s : Bytes) → 0 < length s → is_empty s ≢ true
    no_bytes [] lt e = absurd (omega arith)
    no_bytes (b ∷ s) lt e = cc

next_key_valid :
    (missing key : Bytes) (parts : List Bytes)
    → IsValidKey key
    → next_key missing (key ∷ parts) ≡ ok key
unfolding next_key
next_key_valid missing [] parts h = absurd (omega (arith, h.ne_nil))
next_key_valid missing (b ∷ key) parts h = rw (is_valid_key_complete (b ∷ key) h)

parse_number : (max n : ℕ) → n ≤ max → and_then (from_utf8 (to_string n)) (parse_uint max) ≡ some n
parse_number max n h =
    rw (from_utf8_ascii (to_string n) (digits-IsAscii (to_string n) (to_string-IsDigit n)))
      (parse_uint-to_string max n h)

parse_get_valid :
    (keys : List Bytes) (consumed : ℕ)
    → keys ≢ []
    → All IsValidKey keys
    → parse_get keys consumed ≡ complete (get keys) consumed
unfolding parse_get
parse_get_valid [] consumed ne h = absurd (ne refl)
parse_get_valid (key ∷ keys) consumed ne h = rw (get_keys_valid (key ∷ keys) [] h, parse_get)

noreply_words :
    (noreply : Bool)
    → (noreply_among (noreply_word noreply) false ≡ noreply)
      × (is_noreply_part (Parser.next (noreply_word noreply)) ≡ noreply)
unfolding noreply_among is_noreply_part bytes_eq
noreply_words true = (refl, refl)
noreply_words false = (refl, refl)

parse_delete_valid :
    (key : Bytes) (noreply : Bool) (consumed : ℕ)
    → IsValidKey key
    → parse_delete (key ∷ noreply_word noreply) consumed ≡ complete (delete key noreply) consumed
unfolding parse_delete
parse_delete_valid key noreply consumed h =
    rw (next_key_valid (codes "delete requires a key") key (noreply_word noreply) h, parse_delete)
      (rw (noreply_words noreply).0)

line_of : Bytes → ℕ → ℕ → ℕ → Bool → SetLine
line_of key flags exptime bytes noreply = record {
  key = key;
  flags = flags;
  exptime = exptime;
  bytes = bytes;
  noreply = noreply;
}

set_line_valid :
    (key : Bytes) (flags exptime bytes : ℕ) (noreply : Bool)
    → IsValidKey key
    → flags ≤ max_u32
    → exptime ≤ max_u64
    → bytes ≤ max_u64
    → set_line (key ∷ to_string flags ∷ to_string exptime ∷ to_string bytes ∷ noreply_word noreply)
      ≡ ok (line_of key flags exptime bytes noreply)
unfolding set_line parse_u32 parse_u64 parse_usize line_of
set_line_valid key flags exptime bytes noreply hk hf ht hb = rw (
  next_key_valid (codes "missing key") key _ hk,
  parse_number max_u32 flags hf,
  parse_number max_u64 exptime ht,
  parse_number max_u64 bytes hb,
  (noreply_words noreply).1,
)

module _ ⦃m : Memchr⦄ (rest : Bytes) where
  -- A request without data, in front of anything.
  line_request :
      (cmd : Command) (w : Bytes) (ws : List Bytes)
      → words cmd ≡ w ∷ ws
      → block cmd ≡ []
      → IsWord w
      → All IsWord ws
      → ((buf : Bytes) (e : ℕ) → dispatch (w ∷ ws) buf e ≡ returned (complete cmd (e + 2)))
      → parse (print cmd ++ rest) ≡ returned (complete cmd (length (print cmd)))
  unfolding print
  line_request cmd w ws spelled bare hw hs answer =
      rw (spelled, bare)
        (let line = join (w ∷ ws) in
          let size : length (line ++ crlf) ≡ length line + 2 =
            omega (arith, length-append {0} line crlf) in
          ap parse (append_assoc line crlf rest)
          ∙ parse_words w ws hw hs rest
          ∙ answer (line ++ b'\r' ∷ b'\n' ∷ rest) (length line)
          ∙ ap (λ k. returned (complete cmd k)) (sym size))

  -- A set request, in front of anything.
  set_request :
      (key : Bytes) (flags exptime : ℕ) (payload : Bytes) (noreply : Bool)
      → IsValidKey key
      → flags ≤ max_u32
      → exptime ≤ max_u64
      → length (print (set key flags exptime payload noreply) ++ rest) < max_slice
      → parse (print (set key flags exptime payload noreply) ++ rest)
        ≡ returned (
            complete
              (set key flags exptime payload noreply)
              (length (print (set key flags exptime payload noreply))))
  unfolding print line_of
  set_request key flags exptime payload noreply hk hf ht fits =
      let size = length payload in
      let ws = key ∷ to_string flags ∷ to_string exptime ∷ to_string size ∷ noreply_word noreply in
      let line = join (codes "set" ∷ ws) in
      let buf = line ++ b'\r' ∷ b'\n' ∷ (payload ++ b'\r' ∷ b'\n' ∷ rest) in
      let l = line_of key flags exptime size noreply in
      let hw : IsWord (codes "set") = omega arith in
      let hs : All IsWord ws = (
        hk.printable,
        (
          number-IsWord flags,
          (number-IsWord exptime, (number-IsWord size, noreply-IsWord noreply)),
        ),
      ) in
      let lacks = join-Lacks (codes "set") ws hw hs in
      let same : (line ++ (crlf ++ (payload ++ crlf))) ++ rest ≡ buf =
        append_assoc line (crlf ++ (payload ++ crlf)) rest
        ∙ ap (λ s. line ++ b'\r' ∷ b'\n' ∷ s) (append_assoc payload crlf rest) in
      let longer : size ≤ length buf = omega (
        arith,
        length-append {0} line (b'\r' ∷ b'\n' ∷ (payload ++ b'\r' ∷ b'\n' ∷ rest)),
        length-append {0} payload (b'\r' ∷ b'\n' ∷ rest),
      ) in
      let fits' : length buf < max_slice = subst (λ s. length s < max_slice) same fits in
      let taken : length line + 2 + size + 2 ≡ length (line ++ (crlf ++ (payload ++ crlf))) =
        omega (
          arith,
          length-append {0} line (crlf ++ (payload ++ crlf)),
          length-append {0} payload crlf,
        ) in
      ap parse same
      ∙ parse_words (codes "set") ws hw hs (payload ++ b'\r' ∷ b'\n' ∷ rest)
      ∙ dispatch_set (codes "set") ws buf (length line) (unfold to_ascii_lowercase in refl)
      ∙ parse_set_ok ws buf (length line) l
          (set_line_valid key flags exptime size noreply hk hf ht (omega arith))
      ∙ set_data_printed line payload rest buf l lacks
          (sym (append_assoc line crlf (payload ++ b'\r' ∷ b'\n' ∷ rest)))
          (find_crlf-append_crlf line (payload ++ b'\r' ∷ b'\n' ∷ rest) lacks) refl fits'
      ∙ ap (λ k. returned (complete (set key flags exptime payload noreply) k)) taken

  -- The printed request of a well-formed command is parsed back to it, with all of its bytes
  -- taken, whatever follows in the buffer, as long as the buffer is shorter than 2^63 bytes.
  pub parse-print :
      (cmd : Command)
      → IsWellFormed cmd
      → length (print cmd ++ rest) < max_slice
      → parse (print cmd ++ rest) ≡ returned (complete cmd (length (print cmd)))
  parse-print (get keys) (ne, valid) fits =
      line_request (get keys) (codes "get") keys refl refl (omega arith) (keys-IsWord keys valid)
        (λ buf e.
          dispatch_get (codes "get") keys buf e (unfold to_ascii_lowercase in refl)
          ∙ ap returned (parse_get_valid keys (e + 2) ne valid))
  parse-print (set key flags exptime payload noreply) (valid, hf, ht) fits =
      set_request key flags exptime payload noreply valid hf ht fits
  parse-print (delete key noreply) valid fits =
      line_request (delete key noreply) (codes "delete") (key ∷ noreply_word noreply) refl refl
        (omega arith) (valid.printable, noreply-IsWord noreply)
        (λ buf e.
          dispatch_delete (codes "delete") (key ∷ noreply_word noreply) buf e
            (unfold to_ascii_lowercase in refl)
          ∙ ap returned (parse_delete_valid key noreply (e + 2) valid))
  parse-print version valid fits =
      line_request version (codes "version") [] refl refl (omega arith) tt
        (λ buf e. dispatch-version (codes "version") [] buf e (unfold to_ascii_lowercase in refl))
  parse-print quit valid fits =
      line_request quit (codes "quit") [] refl refl (omega arith) tt
        (λ buf e. dispatch_quit (codes "quit") [] buf e (unfold to_ascii_lowercase in refl))
