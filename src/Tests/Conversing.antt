-- ===== src/Tests/Conversing.antt =====
-- A conversation with a client.
use petracache.Base.{
  false, Lacks, some, Option, ◌+◌, All, Bytes, List, [], arith, bytes_eq, codes, drop, length, none,
  refl, take, true, ◌++◌, ◌<◌, ◌^◌, ◌∷◌, ◌≡◌, ◌≢◌,
}
use petracache.Server.Connection.Answers.{Backing}
use petracache.Server.Connection.{Session, receive, waiting, handle}
use petracache.Server.Connection.Refusal.{IsRefused, receive-IsRefused_data}
use petracache.Server.Connection.Pipeline.{run_all, arrived, print_all}
use petracache.Protocol.Parser.{parse, error, cmd_eq, parse_u32, parse_u64, parse_usize}
use petracache.Crates.Memchr.{position}
use petracache.Rust.Split.{split, to_ascii_lowercase}
use petracache.Rust.Utf8.{from_utf8}
use petracache.Rust.Integer.{parse_uint, to_string, from_le_bytes, to_le_bytes}
use petracache.Protocol.Command.{is_valid_key, delete, is_noreply, Command, get, quit}
use petracache.Outcome.{returned}
use petracache.Error.{unexpected_data}
use petracache.Storage.Value.{
  StoredValue, is_expired, new_value, calculate_expire_at, with_expire_at, decode, encode,
}
use petracache.Protocol.Response.Contents.{crlf, value_block}
use petracache.Protocol.Parser.Print.{print}
use petracache.Server.Connection.Chunks.{reads}
use petracache.Server.Cache.{Cache, conversation}
use petracache.Server.Handler.{execute}
use petracache.Server.Cache.Execution.{Executes, execute-Executes}
use petracache.Server.Handler.Lookups.{Counted, found, missing, execute_get-Counted}
use petracache.Result.{ok}
use petracache.Storage.Rocks.View.{views, view, view_raw, view_decoded, add_view}
use petracache.Storage.Rocks.{set}
use petracache.Tests.Serving.{stocked, empty_writer, fresh, steady_clock, k_IsValidKey}
use petracache.Server.Cache.Service.{EndReplied, handle-EndReplied}
use petracache.Tests.Instances.{
  minute_command, memory, memory-IsMap, memory-IsReliable, list_buffer, list_buffer-IsBuffer,
  string_itoa, search_memchr,
}

abbrev set_get_quit : List Command
set_get_quit = minute_command ∷ get (codes "k" ∷ []) ∷ quit ∷ []

abbrev pub no_values : Cache
no_values key = none

-- A database without entries.
abbrev pub no_entries_yet : Backing memory
no_entries_yet = record {
  map_laws = memory-IsMap;
  reliable = memory-IsReliable;
  buffer_laws = list_buffer-IsBuffer;
  from = no_values;
}

-- Its replies, the latest first.
set_get_quit_replies :
    conversation (λ n. steady_clock) 0 no_values set_get_quit []
    ≡ (value_block (codes "k") 7 (codes "hi") ++ (codes "END" ++ crlf))
      ∷ (codes "STORED" ++ crlf)
      ∷ []
unfolding conversation value_block is_noreply bytes_eq is_expired new_value calculate_expire_at
    to_string
set_get_quit_replies = refl

set_get_quit_short : length (print_all set_get_quit) < 2 ^ 63
unfolding print to_string
set_get_quit_short = omega arith

-- The requests, cut in the data of the first.
abbrev three_chunks : List Bytes
three_chunks =
    take 15 (print_all set_get_quit)
    ∷ take 9 (drop 15 (print_all set_get_quit))
    ∷ drop 24 (print_all set_get_quit)
    ∷ []

three_chunks_some : All (λ chunk. chunk ≢ []) three_chunks
unfolding print to_string
three_chunks_some = ((λ e. cc), ((λ e. cc), ((λ e. cc), tt)))

handle-EndReplied_example :
    EndReplied memory memory-IsMap memory-IsReliable list_buffer-IsBuffer
      (λ n. steady_clock)
      (λ n. true)
      (λ n. refl)
      (conversation (λ n. steady_clock) 0 no_values set_get_quit [])
      (handle memory (λ n. steady_clock) (λ n. true) fresh (reads three_chunks))
handle-EndReplied_example =
    handle-EndReplied memory memory-IsMap memory-IsReliable list_buffer-IsBuffer (λ n. steady_clock)
      (λ n. true) (λ n. refl) fresh no_values set_get_quit three_chunks refl refl
      (record { holds = λ key. (refl, tt); nothing_left = refl })
      ((k_IsValidKey, omega arith, omega arith), (((λ e. cc), (k_IsValidKey, tt)), (tt, tt)))
      set_get_quit_short three_chunks_some (unfold print to_string in refl)

execute-Executes_example :
    Executes memory memory-IsMap memory-IsReliable list_buffer-IsBuffer steady_clock no_values
      minute_command fresh.response
      (execute memory steady_clock fresh.server minute_command fresh.response)
execute-Executes_example =
    execute-Executes memory memory-IsMap memory-IsReliable list_buffer-IsBuffer steady_clock
      fresh.server no_values minute_command fresh.response (k_IsValidKey, omega arith, omega arith)
      (λ key. (refl, tt))

abbrev one_found : List (Bytes × Option StoredValue)
one_found = (codes "k", some (with_expire_at 7 1060 (codes "hi"))) ∷ (codes "j", none) ∷ []

one_found-views :
    views memory steady_clock 0 stocked.storage.db (codes "k" ∷ codes "j" ∷ []) ≡ ok one_found
unfolding views view view_raw view_decoded add_view decode encode is_expired bytes_eq from_le_bytes
    to_le_bytes set
one_found-views = refl

execute_get-Counted_example :
    Counted memory one_found stocked
      (execute memory steady_clock stocked (get (codes "k" ∷ codes "j" ∷ [])) empty_writer).0
    × (found one_found + missing one_found ≡ 2)
execute_get-Counted_example =
    execute_get-Counted memory memory-IsMap steady_clock stocked (codes "k" ∷ codes "j" ∷ [])
      empty_writer one_found one_found-views

-- A set line with the wrong length for its data, which reads as a delete.
abbrev bad_line : Bytes
bad_line = codes "set k 0 0 2"

abbrev its_data : Bytes
its_data = codes "delete k" ++ crlf

abbrev delete_quit : List Command
delete_quit = delete (codes "k") false ∷ quit ∷ []

bad_line_refused : parse (bad_line ++ b'\r' ∷ b'\n' ∷ its_data) ≡ returned (error unexpected_data)
unfolding parse position split cmd_eq to_ascii_lowercase is_valid_key parse_u32 parse_u64
    parse_usize from_utf8 parse_uint
bad_line_refused = refl

bad_line-Lacks : Lacks b'\r' bad_line
bad_line-Lacks = omega arith

receive-IsRefused_data_example :
    (c : Session memory) × (receive memory
        (λ n. steady_clock)
        (λ n. true)
        fresh
        (bad_line ++ b'\r' ∷ b'\n' ∷ its_data)
      ≡ some (waiting c))
    × IsRefused memory list_buffer-IsBuffer
        (λ n. steady_clock)
        (λ n. true)
        unexpected_data
        its_data
        fresh
        c
    × (receive memory (λ n. steady_clock) (λ n. true) c (codes "quit" ++ crlf)
        ≡ some (
            run_all memory list_buffer-IsBuffer
              (λ n. steady_clock)
              (λ n. true)
              (arrived memory list_buffer-IsBuffer
                (λ n. steady_clock)
                (λ n. true)
                c
                (codes "quit" ++ crlf))
              delete_quit))
receive-IsRefused_data_example =
    receive-IsRefused_data memory list_buffer-IsBuffer (λ n. steady_clock) (λ n. true) fresh
      bad_line its_data (codes "quit" ++ crlf) unexpected_data delete_quit refl refl refl refl
      bad_line-Lacks bad_line_refused (unfold print in refl) (k_IsValidKey, (tt, tt))
      (unfold print in omega arith)
