-- ===== src/Tests/Parsing.antt =====
-- Requests and key tests.
use petracache.Base.{
  Bytes, List, [], arith, codes, false, length, refl, some, ◌++◌, ◌-◌, ◌<◌, ◌^◌, ◌↔◌, ◌∷◌, ◌≡◌,
}
use petracache.Outcome.{returned, panicked}
use petracache.Protocol.Command.{Command, set, IsValidKey, is_valid_key}
use petracache.Protocol.Parser.{
  complete, need_more_data, PendingStorageCommand, find_crlf, parse, parse_storage_data,
  parse_storage_command_line, parts_of, set_line, SetLine, cmd_eq, parse_u32, parse_u64,
  parse_usize,
}
use petracache.Protocol.Parser.Stable.{parse-append}
use petracache.Protocol.Parser.Resume.{parse_storage_data-eq-parse}
use petracache.Protocol.Parser.Print.{print}
use petracache.Protocol.Parser.RoundTrip.{parse-print}
use petracache.Protocol.Parser.Bounds.{IsTaken, parse_sound}
use petracache.Protocol.Parser.Overflow.{Overflows, parse_set_panics_iff}
use petracache.Protocol.Parser.Stuck.{parse_lone}
use petracache.Result.{ok}
use petracache.Rust.Split.{split, to_ascii_lowercase}
use petracache.Rust.Utf8.{from_utf8}
use petracache.Rust.Integer.{parse_uint, to_string}
use petracache.Tests.Instances.{search_memchr}
use petracache.Crates.Memchr.{position}
use petracache.Protocol.Parser.Faults.{parse-Gives, Gives}

abbrev crlf : Bytes
crlf = b'\r' ∷ b'\n' ∷ []

abbrev set_header : Bytes
set_header = codes "set k 7 0 2" ++ crlf

abbrev set_request : Bytes
set_request = set_header ++ (codes "hi" ++ crlf)

abbrev hi_command : Command
hi_command = set (codes "k") 7 0 (codes "hi") false

k_IsValidKey : IsValidKey (codes "k")
k_IsValidKey = record {
  ne_nil = omega arith;
  fits = omega arith;
  printable = ((omega arith, omega arith), tt);
}

set_request_parsed : parse set_request ≡ returned (complete hi_command 17)
unfolding parse position split cmd_eq to_ascii_lowercase is_valid_key parse_u32 from_utf8 parse_uint
    parse_u64 parse_usize
set_request_parsed = refl

parse-append_example : parse (set_request ++ codes "get k") ≡ parse set_request
parse-append_example =
    parse-append set_request (codes "get k") (omega arith) (rw set_request_parsed (λ e. cc))

abbrev hi_pending : PendingStorageCommand
hi_pending = record {
  key = codes "k";
  flags = 7;
  exptime = 0;
  bytes = 2;
  noreply = false;
  command_line_end = 11;
}

header_pending : parse_storage_command_line set_header ≡ ok (some hi_pending)
unfolding parse_storage_command_line position split cmd_eq to_ascii_lowercase is_valid_key parse_u32
    from_utf8 parse_uint parse_u64 parse_usize
header_pending = refl

resume_example :
    parse_storage_data (set_header ++ (codes "hi" ++ crlf)) hi_pending ≡ parse set_request
resume_example =
    parse_storage_data-eq-parse set_header (codes "hi" ++ crlf) hi_pending header_pending

hi_print_short : length (print hi_command ++ codes "quit") < 2 ^ 63
unfolding print to_string
hi_print_short = omega arith

parse-print_example :
    parse (print hi_command ++ codes "quit")
    ≡ returned (complete hi_command (length (print hi_command)))
parse-print_example =
    parse-print (codes "quit") hi_command (k_IsValidKey, omega arith, omega arith) hi_print_short

parse_sound_example : IsTaken set_request hi_command 17
parse_sound_example = parse_sound set_request hi_command 17 (omega arith) set_request_parsed

-- The data length is 2^64 - 2.
abbrev huge_request : Bytes
huge_request = codes "set k 0 0 18446744073709551614" ++ crlf

abbrev huge_line : SetLine
huge_line = record { key = codes "k"; flags = 0; exptime = 0; bytes = 2 ^ 64 - 2; noreply = false }

abbrev huge_parts : List Bytes
huge_parts = codes "k" ∷ codes "0" ∷ codes "0" ∷ codes "18446744073709551614" ∷ []

huge_end : find_crlf huge_request ≡ some 30
unfolding find_crlf position
huge_end = refl

huge_words : parts_of huge_request 30 ≡ codes "set" ∷ huge_parts
unfolding split
huge_words = refl

huge_line_read : set_line huge_parts ≡ ok huge_line
unfolding set_line is_valid_key parse_u32 from_utf8 parse_uint parse_u64 parse_usize
huge_line_read = refl

panic_example : (parse huge_request ≡ panicked) ↔ Overflows 30 (2 ^ 64 - 2)
panic_example =
    parse_set_panics_iff huge_request 30 (codes "set") huge_parts huge_line (omega arith) huge_end
      huge_words (unfold to_ascii_lowercase in refl) huge_line_read

parse_lone_example :
    parse ((codes "get k" ++ b'\r' ∷ codes "x") ++ (crlf ++ codes "quit" ++ crlf))
    ≡ returned need_more_data
parse_lone_example =
    parse_lone (codes "get k" ++ b'\r' ∷ codes "x") (crlf ++ codes "quit" ++ crlf) 5 b'x'
      (unfold position in refl) refl (omega arith)

abbrev unknown_request : Bytes
unknown_request = codes "stats" ++ crlf

parse-Gives_example : Gives (parse unknown_request)
parse-Gives_example = parse-Gives unknown_request
