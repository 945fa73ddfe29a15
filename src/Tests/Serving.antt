-- ===== src/Tests/Serving.antt =====
-- Commands and a connection over a database in memory.
use petracache.Base.{
  ◌^◌, ◌<◌, List, length, refl, false, if◌then◌else◌, Bytes, [], arith, codes, none, some, true, ℕ,
  ◌++◌, ◌∷◌, ◌≡◌, ◌≢◌, All, take, drop,
}
use petracache.Protocol.Command.{is_noreply, delete, Command, IsValidKey, get}
use petracache.Protocol.Response.{ResponseWriter, buffer}
use petracache.Storage.Value.{Reading, with_expire_at}
use petracache.Storage.Rocks.{set}
use petracache.Storage.Rocks.View.{views}
use petracache.Server.Handler.{Server, execute}
use petracache.Server.Handler.Reply.{get_reply, buffer-execute_get}
use petracache.Metrics.{decrements}
use petracache.Server.Connection.{Session, received, cancelled, starved, handle, on_complete}
use petracache.Server.Connection.Matching.{EndMatches}
use petracache.Server.Connection.Chunks.{reads, handle-EndMatches}
use petracache.Server.Connection.Pipeline.{print_all, run_all, arrived}
use petracache.Protocol.Parser.Print.{print}
use petracache.Server.Connection.Noreply.{IsQuiet, on_complete-IsQuiet}
use petracache.Server.Connection.Service.{handle_total}
use petracache.Server.Handler.SetGet.{get-execute-set}
use petracache.Storage.Value.Expiry.{past, deadline}
use petracache.Storage.Rocks
use petracache.Protocol.Response.Contents.{value_block, crlf}
use petracache.Server.Connection.Gauge.{GaugeAt, handle-GaugeAt}
use petracache.Tests.Instances.{
  minute_command, memory, memory-IsMap, no_entries, list_buffer, list_buffer-IsBuffer, string_itoa,
  search_memchr,
}

abbrev idle : Server memory
idle = record {
  storage = record { db = no_entries; expired_keys_removed = 0; ttl_compaction_removed = 0 };
  metrics = [];
}

abbrev pub stocked : Server memory
stocked = record idle {
  storage = (set memory idle.storage (codes "k") (with_expire_at 7 1060 (codes "hi"))).1;
}

abbrev pub empty_writer : ResponseWriter
empty_writer = record { buf = [] }

abbrev pub steady_clock : ℕ → Reading
steady_clock i = some 1000

buffer-execute_get_example :
    buffer (execute memory steady_clock stocked (get (codes "k" ∷ codes "j" ∷ [])) empty_writer).1
    ≡ []
      ++ get_reply memory
          (views memory steady_clock 0 stocked.storage.db (codes "k" ∷ codes "j" ∷ []))
buffer-execute_get_example =
    buffer-execute_get memory memory-IsMap list_buffer-IsBuffer steady_clock stocked
      (codes "k" ∷ codes "j" ∷ []) empty_writer

abbrev pub fresh : Session memory
fresh = record {
  read_buf = [];
  response = empty_writer;
  pending_storage = none;
  server = idle;
  written = [];
  executed = 0;
}

abbrev get_then_quit : Bytes
get_then_quit = codes "get k" ++ b'\r' ∷ b'\n' ∷ (codes "quit" ++ b'\r' ∷ b'\n' ∷ [])

handle_total_example :
    handle memory (λ n. steady_clock) (λ n. true) fresh (received get_then_quit ∷ cancelled ∷ [])
    ≢ starved
handle_total_example =
    handle_total memory list_buffer-IsBuffer (λ n. steady_clock) (λ n. true) fresh
      (received get_then_quit ∷ cancelled ∷ []) (omega arith)

handle-GaugeAt_example :
    GaugeAt memory
      (λ n. steady_clock)
      (λ n. true)
      0
      (handle memory
        (λ n. steady_clock)
        (λ n. true)
        fresh
        (received get_then_quit ∷ received [] ∷ []))
unfolding decrements
handle-GaugeAt_example =
    handle-GaugeAt memory (λ n. steady_clock) (λ n. true) fresh
      (received get_then_quit ∷ received [] ∷ [])

get_after_set_example :
    buffer
      (execute memory
        (λ k. some 1059)
        (execute memory (λ k. some 1000) idle minute_command empty_writer).0
        (get (codes "k" ∷ []))
        empty_writer).1
    ≡ []
      ++ ((if past (deadline 1000 60) 1059 then [] else value_block (codes "k") 7 (codes "hi"))
          ++ (codes "END" ++ crlf))
get_after_set_example =
    get-execute-set memory memory-IsMap list_buffer-IsBuffer idle empty_writer empty_writer
      (codes "k") (codes "hi") 1000 1059 7 60 false (omega arith) (omega arith) (omega arith)
      (unfold Rocks.set in refl)

pub k_IsValidKey : IsValidKey (codes "k")
k_IsValidKey = record {
  ne_nil = omega arith;
  fits = omega arith;
  printable = ((omega arith, omega arith), tt);
}

abbrev two_requests : List Command
two_requests = get (codes "k" ∷ []) ∷ delete (codes "k") false ∷ []

two_requests_short : length (print_all two_requests) < 2 ^ 63
unfolding print
two_requests_short = omega arith

abbrev quiet_request : Bytes
quiet_request = codes "delete k noreply" ++ crlf

abbrev asked : Session memory
asked = record fresh { read_buf = quiet_request }

on_complete-IsQuiet_example :
    IsQuiet memory list_buffer-IsBuffer
      (λ n. steady_clock)
      (λ n. true)
      asked
      (delete (codes "k") true)
      18
      (on_complete memory (λ n. steady_clock) (λ n. true) asked (delete (codes "k") true) 18)
on_complete-IsQuiet_example =
    on_complete-IsQuiet memory list_buffer-IsBuffer (λ n. steady_clock) (λ n. true) asked
      (delete (codes "k") true) 18 (unfold is_noreply in refl) (omega arith)

-- The two requests, cut inside the first.
abbrev two_chunks : List Bytes
two_chunks = take 5 (print_all two_requests) ∷ drop 5 (print_all two_requests) ∷ []

two_chunks_some : All (λ chunk. chunk ≢ []) two_chunks
unfolding print
two_chunks_some = ((λ e. cc), ((λ e. cc), tt))

handle-EndMatches_example :
    EndMatches memory (handle memory (λ n. steady_clock) (λ n. true) fresh (reads two_chunks)) (
      run_all memory list_buffer-IsBuffer
        (λ n. steady_clock)
        (λ n. true)
        (arrived memory list_buffer-IsBuffer
          (λ n. steady_clock)
          (λ n. true)
          fresh
          (print_all two_requests))
        two_requests)
handle-EndMatches_example =
    handle-EndMatches memory list_buffer-IsBuffer (λ n. steady_clock) (λ n. true) fresh two_requests
      two_chunks refl refl (((λ e. cc), (k_IsValidKey, tt)), (k_IsValidKey, tt)) two_requests_short
      two_chunks_some (unfold print in refl)
