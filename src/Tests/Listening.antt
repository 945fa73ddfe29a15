-- ===== src/Tests/Listening.antt =====
-- The listener and its clients.
use petracache.Base.{
  false, bytes_eq, arith, some, Bytes, [], codes, refl, true, ◌++◌, ◌+◌, ◌∷◌, ◌≡◌, ◌≤◌,
}
use petracache.Tests.Instances.{memory, list_buffer, string_itoa, search_memchr}
use petracache.Storage.Value.{encode, new_value}
use petracache.Result.{ok}
use petracache.Tests.Services.{counting-IsSemaphore, counting}
use petracache.Tests.Serving.{steady_clock}
use petracache.Crates.Memchr.{position}
use petracache.Rust.Split.{split, to_ascii_lowercase}
use petracache.Protocol.Command.{is_valid_key, is_noreply}
use petracache.Protocol.Response
use petracache.Protocol.Response.Contents.{crlf}
use petracache.Storage.Rocks.{set}
use petracache.Outcome.{returned}
use petracache.Config.{ServerConfig, default_server}
use petracache.Server.Listener.{
  new, accepts, waits, here, next, Reach, resume, handle_new_connection, Listener,
}
use petracache.Tests.Conversing.{no_entries_yet, no_values}
use petracache.Tests.Running.{storage, first_listener_made, first_listener}
use petracache.Server.Handler.{execute}
use petracache.Server.Connection.{
  received, parse_buffer, start, listening, new_pending, on_error, on_complete, on_result, round,
  process, receive, Session, handle, End,
}
use petracache.Protocol.Parser.{parse_usize, parse_u64, parse_u32, cmd_eq, parse}
use petracache.Server.Cache.History.{History}
use petracache.Server.Listener.History.{new-History, HasHistory}
use petracache.Rust.Utf8.{from_utf8_lossy, from_utf8}
use petracache.Rust.Integer.{parse_uint}
use petracache.Error.{protocol_message}
use petracache.Server.Listener.Entries.{new-IsEntry, IsEntry}
use petracache.Server.Cache.Keys.{HasValidKeys}

abbrev set_and_fault : Bytes
set_and_fault =
    codes "set k 7 60 2"
    ++ b'\r' ∷ b'\n' ∷ (codes "hi" ++ b'\r' ∷ b'\n' ∷ (codes "stats" ++ b'\r' ∷ b'\n' ∷ []))

abbrev served_once : Listener memory counting
served_once = handle_new_connection memory counting first_listener

abbrev first_session : Session memory
first_session = start memory 4096 4096 served_once.server

abbrev session_of : End memory → Session memory
session_of (listening c) = c
session_of _ = first_session

abbrev behind_both : Session memory
behind_both = session_of (
    handle memory (λ n. steady_clock) (λ n. true) (resume memory counting served_once first_session)
      (received set_and_fault ∷ []))

-- It sets a key and then sends a line that is no request.
both_received :
    handle memory
      (λ n. steady_clock)
      (λ n. true)
      (resume memory counting served_once first_session)
      (received set_and_fault ∷ [])
    ≡ listening behind_both
unfolding handle receive process round on_result on_complete on_error new_pending execute
    parse_buffer parse start handle_new_connection position split cmd_eq to_ascii_lowercase
    is_valid_key parse_u32 from_utf8 parse_uint parse_u64 parse_usize is_noreply
    Response.no_response set Response.stored Response.new
both_received = refl

both_answered :
    behind_both.written
    ≡ (codes "CLIENT_ERROR Invalid command: stats" ++ crlf) ∷ (codes "STORED" ++ crlf) ∷ []
unfolding handle receive process round on_result on_complete on_error new_pending execute
    parse_buffer parse start handle_new_connection position split cmd_eq to_ascii_lowercase
    is_valid_key parse_u32 from_utf8 parse_uint parse_u64 parse_usize is_noreply
    Response.no_response set Response.stored Response.new Response.client_error protocol_message
    from_utf8_lossy Response.take_buffer Response.clear
both_answered = refl

abbrev served_twice : Listener memory counting
served_twice = record served_once { server = behind_both.server; connections = behind_both ∷ [] }

served_twice-Reach : Reach memory counting first_listener (0 + 0 + 0) served_twice
unfolding handle_new_connection start default_server Response.new
served_twice-Reach = next (next here (accepts refl)) (
    waits [] [] first_session behind_both (received set_and_fault) (λ n. steady_clock) (λ n. true)
      refl both_received)

-- A start with a limit of one connection.
abbrev one_allowed : ServerConfig
one_allowed = record default_server { max_connections = 1 }

abbrev one_listener : Listener memory counting
one_listener = record first_listener { config = one_allowed; connection_semaphore = 1 }

one_listener_made : new memory counting one_allowed storage ≡ returned one_listener
unfolding new default_server
one_listener_made = refl

abbrev one_served : Listener memory counting
one_served = record served_twice { config = one_allowed; connection_semaphore = 0 }

one_served-Reach : Reach memory counting one_listener (0 + 0 + 0) one_served
unfolding handle_new_connection start default_server Response.new
one_served-Reach = next (next here (accepts refl)) (
    waits [] [] first_session behind_both (received set_and_fault) (λ n. steady_clock) (λ n. true)
      refl both_received)

new-History_example :
    (1 ≤ 1) × (history : History) × HasHistory counting no_entries_yet history one_served
new-History_example =
    new-History counting counting-IsSemaphore no_entries_yet one_allowed storage (omega arith)
      (λ key. (refl, tt)) one_listener_made one_served-Reach

-- The token has been cancelled, and the accept loop is left, while a connection is served.
abbrev shut : Listener memory counting
shut = record served_twice { is_cancelled = true; is_accepting = false }

held :
    memory.get behind_both.server.storage.db (codes "k")
    ≡ ok (some (encode (new_value (some 1000) 7 60 (codes "hi"))))
unfolding handle receive process round on_result on_complete on_error new_pending execute
    parse_buffer parse start handle_new_connection position split cmd_eq to_ascii_lowercase
    is_valid_key parse_u32 from_utf8 parse_uint parse_u64 parse_usize is_noreply
    Response.no_response set Response.stored Response.new encode bytes_eq
held = refl

pub no_values-HasValidKeys : HasValidKeys no_values
no_values-HasValidKeys key v e = cc

new-IsEntry_example : IsEntry (codes "k") (encode (new_value (some 1000) 7 60 (codes "hi")))
new-IsEntry_example =
    new-IsEntry counting no_entries_yet no_values-HasValidKeys default_server storage (codes "k")
      (encode (new_value (some 1000) 7 60 (codes "hi"))) (λ key. (refl, tt)) first_listener_made
      served_twice-Reach held
