-- ===== src/Protocol/Parser.antt =====
-- src/protocol/parser.rs: the parser of requests. `usize` has 64 bits and wraps around, as in a
-- release build; an index or a range out of bounds panics. The proofs are in the modules below.
pub mod Line
pub mod Data
pub mod Verb
pub mod Stable
pub mod Resume
pub mod Sound
pub mod Overflow
pub mod Stuck
pub mod Bounds
pub mod Messages
pub mod Faults
pub mod Print
pub mod Block
pub mod RoundTrip
use petracache.Base.{
  ==-refl, ==_iff, All, All-append, Bool, Bool-cases, Bytes, IsByte, IsBytes, Lacks, List, Option,
  Option-cases, [], ap, append-nil, append_assoc, arith, bytes_eq, bytes_eq_refl, bytes_eq→eq,
  codes, drop, drop-append_length, drop-append_of_le, every, false, get_elem?,
  get_elem?-append_left, get_elem?-append_length, get_elem?-lt, get_elem?-none, get_elem?-some,
  if◌then◌else◌, inl, inr, is_empty, leb, length, length-append, length-drop, length-take,
  le→ltb-false, ltb, ltb-false→le, ltb→lt, lt→ltb, min, none, not, refl, some, suc, sym, take,
  take-append-drop, take-append_length, take-append_of_le, true, zero, ℕ, ◌%◌, ◌&&◌, ◌*◌, ◌++◌, ◌+◌,
  ◌-◌, ◌/◌, ◌<◌, ◌==◌, ◌^◌, ◌||◌, ◌↔◌, ◌∙◌, ◌∷◌, ◌≡◌, ◌≢◌, ◌≤◌, ◌⊎◌,
}
use petracache.Error.{
  ProtocolError, invalid_command, invalid_key, invalid_flags, invalid_exptime, invalid_bytes_length,
  key_too_long, unexpected_data,
}
use petracache.Result.{Result, ok, err, ok_or, and_then, filter, ◌>>=◌}
use petracache.Outcome.{Outcome, returned, index, slice, ◌>>=◌ as outcome_bind}
use petracache.Crates.Memchr.{Memchr}
use petracache.Rust.Utf8.{from_utf8, from_utf8_lossy}
use petracache.Rust.Integer.{max_u32, max_u64, parse_uint, add_usize}
use petracache.Rust.Split.{split, to_ascii_lowercase}
use petracache.Protocol.Command.{
  Command, get, set, delete, version, quit, max_key_length, is_valid_key,
}

same_letters : Bytes → Bytes → Bool
same_letters [] expected = true
same_letters (a ∷ cmd) [] = true
same_letters (a ∷ cmd) (b ∷ expected) = to_ascii_lowercase a == b && same_letters cmd expected

unfoldable pub cmd_eq : Bytes → Bytes → Bool
unfolding same_letters
cmd_eq cmd expected = length cmd == length expected && same_letters cmd expected

pub data ParseResult : Type 0 where
  complete : Command → ℕ → ParseResult
  need_more_data : ParseResult
  error : ProtocolError → ParseResult

pub record PendingStorageCommand : Type 0 where
  pub key : Bytes
  pub flags : ℕ
  pub exptime : ℕ
  pub bytes : ℕ
  pub noreply : Bool
  pub command_line_end : ℕ

unfoldable pub parse_u32 : Bytes → Option ℕ
parse_u32 s = and_then (from_utf8 s) (parse_uint max_u32)

unfoldable pub parse_u64 : Bytes → Option ℕ
parse_u64 s = and_then (from_utf8 s) (parse_uint max_u64)

unfoldable pub parse_usize : Bytes → Option ℕ
parse_usize s = and_then (from_utf8 s) (parse_uint max_u64)

newline_at : Bytes → ℕ → Bool
newline_at buf i = elim (get_elem? buf i) [ none ↦ false | some c ↦ c == b'\n' ]

unfoldable pub find_crlf : ⦃m : Memchr⦄ → Bytes → Option ℕ
unfolding newline_at
find_crlf ⦃m⦄ buf = filter (λ i. newline_at buf (i + 1)) (m.memchr b'\r' buf)

-- The error for a key that is not valid.
unfoldable pub key_error : Bytes → ProtocolError
key_error key =
    if ltb max_key_length (length key) then key_too_long else invalid_key (from_utf8_lossy key)

pub get_keys : List Bytes → List Bytes → Result (List Bytes) ProtocolError
get_keys [] keys = ok keys
get_keys (part ∷ parts) keys =
    let skipped = get_keys parts keys in
    let pushed = get_keys parts (keys ++ part ∷ []) in
    if is_empty part
    then skipped
    else if not (is_valid_key part)
    then err (key_error part)
    else pushed

pub parse_get : List Bytes → ℕ → ParseResult
unfolding get_keys key_error
parse_get parts consumed = elim (get_keys parts []) [
  | err e ↦ error e
  | ok keys ↦
      if is_empty keys
      then error (invalid_command (codes "get requires at least one key"))
      else complete (get keys) consumed
]

-- `parts.next()`, with the parts that are left.
abbrev pub next : List Bytes → Option Bytes
next [] = none
next (part ∷ parts) = some part

abbrev pub rest : List Bytes → List Bytes
rest [] = []
rest (part ∷ parts) = parts

-- The key at the head of the parts, or the error with the command's own words for a missing key.
unfoldable pub next_key : Bytes → List Bytes → Result Bytes ProtocolError
unfolding key_error
next_key missing [] = err (invalid_command missing)
next_key missing (key ∷ parts) =
    if is_empty key
    then err (invalid_command missing)
    else if is_valid_key key
    then ok key
    else err (key_error key)

-- The fields of a set line.
pub record SetLine : Type 0 where
  pub key : Bytes
  pub flags : ℕ
  pub exptime : ℕ
  pub bytes : ℕ
  pub noreply : Bool

is_noreply_part : Option Bytes → Bool
is_noreply_part none = false
is_noreply_part (some s) = bytes_eq s (codes "noreply")

-- `parse_set` up to the data block.
unfoldable pub set_line : List Bytes → Result SetLine ProtocolError
unfolding next_key is_noreply_part
set_line parts = do
  key ← next_key (codes "missing key") parts
  let parts = rest parts
  flags ← ok_or invalid_flags (and_then (next parts) parse_u32)
  let parts = rest parts
  exptime ← ok_or invalid_exptime (and_then (next parts) parse_u64)
  let parts = rest parts
  bytes ← ok_or invalid_bytes_length (and_then (next parts) parse_usize)
  let parts = rest parts
  ok (record {
    key = key;
    flags = flags;
    exptime = exptime;
    bytes = bytes;
    noreply = is_noreply_part (next parts);
  })

-- `buf[at] == b'\r' && buf[at + 1] == b'\n'`, from the left.
pub crlf_at : Bytes → ℕ → Outcome Bool
crlf_at buf place = outcome_bind (index buf place) (λ c.
    if c == b'\r'
    then outcome_bind (index buf (add_usize place 1)) (λ d. returned (d == b'\n'))
    else returned false)

-- The data block between these places, with its line end tested.
pub read_block : Bytes → ℕ → ℕ → ℕ → SetLine → Outcome ParseResult
unfolding crlf_at
read_block buf data_start data_end total_needed l = outcome_bind (crlf_at buf data_end) (λ ends.
    if not ends
    then returned (error unexpected_data)
    else outcome_bind (slice buf data_start data_end)
        (λ block. returned (complete (set l.key l.flags l.exptime block l.noreply) total_needed)))

-- `parse_set` from the data block on.
pub set_data : Bytes → ℕ → SetLine → Outcome ParseResult
unfolding read_block
set_data buf line_end l =
    let data_start = add_usize line_end 2 in
    let data_end = add_usize data_start l.bytes in
    let total_needed = add_usize data_end 2 in
    if ltb (length buf) total_needed
    then returned need_more_data
    else read_block buf data_start data_end total_needed l

pub parse_set : List Bytes → Bytes → ℕ → Outcome ParseResult
unfolding set_line set_data
parse_set parts buf line_end = elim (set_line parts) [
  | err e ↦ returned (error e)
  | ok l ↦ set_data buf line_end l
]

-- A later `noreply` counts too; what else stands there is skipped.
noreply_among : List Bytes → Bool → Bool
noreply_among [] noreply = noreply
noreply_among (part ∷ parts) noreply =
    noreply_among parts
      (if is_empty part then noreply else if bytes_eq part (codes "noreply") then true else noreply)

pub parse_delete : List Bytes → ℕ → ParseResult
unfolding next_key noreply_among
parse_delete parts consumed = elim (next_key (codes "delete requires a key") parts) [
  | err e ↦ error e
  | ok key ↦ complete (delete key (noreply_among (rest parts) false)) consumed
]

pub parse_storage_data : Bytes → PendingStorageCommand → Outcome ParseResult
unfolding crlf_at
parse_storage_data buf pending =
    let data_start = add_usize pending.command_line_end 2 in
    let data_end = add_usize data_start pending.bytes in
    let total_needed = add_usize data_end 2 in
    if ltb (length buf) total_needed
    then returned need_more_data
    else outcome_bind (crlf_at buf data_end) (λ ends.
      if not ends
      then returned (error unexpected_data)
      else outcome_bind (slice buf data_start data_end) (λ block. returned (
          complete (set pending.key pending.flags pending.exptime block pending.noreply)
            total_needed)))

-- `parse` on the parts of the line.
pub dispatch : List Bytes → Bytes → ℕ → Outcome ParseResult
unfolding parse_get parse_set parse_delete
dispatch [] buf line_end = returned (error (invalid_command (codes "empty command")))
dispatch (cmd_name ∷ parts) buf line_end =
    if is_empty cmd_name
    then returned (error (invalid_command (codes "empty command")))
    else if cmd_eq cmd_name (codes "get")
    then returned (parse_get parts (line_end + 2))
    else if cmd_eq cmd_name (codes "set")
    then parse_set parts buf line_end
    else if cmd_eq cmd_name (codes "delete")
    then returned (parse_delete parts (line_end + 2))
    else if cmd_eq cmd_name (codes "version")
    then returned (complete version (line_end + 2))
    else if cmd_eq cmd_name (codes "quit")
    then returned (complete quit (line_end + 2))
    else returned (error (invalid_command (from_utf8_lossy cmd_name)))

-- `line.split(|&b| b == b' ')`
abbrev pub parts_of : Bytes → ℕ → List Bytes
parts_of buf line_end = split b' ' (take line_end buf)

-- The fields of a set line that waits for its data.
storage_fields : List Bytes → ℕ → Result (Option PendingStorageCommand) ProtocolError
unfolding next_key is_noreply_part
storage_fields parts line_end = do
  key ← next_key (codes "missing key") parts
  let parts = rest parts
  flags ← ok_or invalid_flags (and_then (next parts) parse_u32)
  let parts = rest parts
  exptime ← ok_or invalid_exptime (and_then (next parts) parse_u64)
  let parts = rest parts
  bytes ← ok_or invalid_bytes_length (and_then (next parts) parse_usize)
  let parts = rest parts
  ok (
      some (record {
        key = key;
        flags = flags;
        exptime = exptime;
        bytes = bytes;
        noreply = is_noreply_part (next parts);
        command_line_end = line_end;
      }))

-- `parse_storage_command_line` on the parts of the line.
pub storage_parts : List Bytes → ℕ → Result (Option PendingStorageCommand) ProtocolError
unfolding storage_fields
storage_parts [] line_end = err (invalid_command (codes "empty command"))
storage_parts (cmd_name ∷ parts) line_end =
    if is_empty cmd_name
    then err (invalid_command (codes "empty command"))
    else if not (cmd_eq cmd_name (codes "set"))
    then ok none
    else storage_fields parts line_end

module _ ⦃m : Memchr⦄ where
  unfoldable pub parse : Bytes → Outcome ParseResult
  unfolding dispatch find_crlf
  parse buf = elim (find_crlf buf) [
    | none ↦ returned need_more_data
    | some line_end ↦ dispatch (parts_of buf line_end) buf line_end
  ]

  unfoldable pub parse_storage_command_line :
      Bytes → Result (Option PendingStorageCommand) ProtocolError
  unfolding storage_parts find_crlf
  parse_storage_command_line buf = elim (find_crlf buf) [
    | none ↦ ok none
    | some line_end ↦ storage_parts (parts_of buf line_end) line_end
  ]
