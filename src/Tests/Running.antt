-- ===== src/Tests/Running.antt =====
-- The configuration, the metrics, the health server, the listener and the start of the program.
use petracache.Base.{
  Bytes, Lacks, List, Option, [], arith, bytes_eq, codes, false, if◌then◌else◌, length, none, refl,
  some, true, ◌+◌, ◌<◌, ◌↔◌, ◌∷◌, ◌≡◌, ◌≤◌, ◌⊎◌,
}
use petracache.Config.{default_server}
use petracache.Outcome.{returned}
use petracache.Metrics.Registry
use petracache.Metrics.Registry.{Metrics}
use petracache.Metrics.Registry.Steps.{Returns}
use petracache.Metrics.Registry.Names.{metric_names, new-Returns}
use petracache.Health
use petracache.Health.{Answer, answer, response, Action, stops, tests, accepts, readable, accepting}
use petracache.Health.Reply.{read_reply, reply_of, read_reply-response}
use petracache.Health.Routes.{Served, HasStatus, Asks, IsGet, answer-HasStatus}
use petracache.Health.Loop.{handled-run_stopped}
use petracache.Storage.Rocks.{RocksStorage}
use petracache.Server.Listener
use petracache.Server.Listener.{Listener, handle_new_connection, Reach, here, next}
use petracache.Server.Listener.Limit.{Inv, new-Inv}
use petracache.Tests.Instances.{memory, no_entries, list_buffer, string_itoa, search_memchr}
use petracache.Tests.Services.{counting, counting-IsSemaphore, by_name, by_name-IsPrometheus}

abbrev pub few_connections : Bytes → Option Bytes
few_connections name =
    if bytes_eq name (codes "PETRACACHE_MAX_CONNECTIONS") then some (codes "2") else none

new-Returns_example :
    Returns
      (λ (m : Metrics by_name). by_name.names m.registry ≡ metric_names)
      (Registry.new by_name)
new-Returns_example = new-Returns by_name by_name-IsPrometheus

abbrev unready : Answer
unready = record { status = 503; content_type = codes "text/plain"; body = codes "wait" }

text_plain_Lacks : Lacks b'\r' (codes "text/plain")
text_plain_Lacks = omega arith

read_reply-response_example : read_reply (response unready) ≡ some (reply_of unready)
read_reply-response_example = read_reply-response unready text_plain_Lacks (omega arith)

abbrev asks_ready : List Bytes
asks_ready = codes "GET" ∷ codes "/ready" ∷ codes "HTTP/1.1" ∷ []

answer-HasStatus_example :
    (HasStatus 200 (answer false (returned []) asks_ready) ↔ Served false asks_ready)
    × (HasStatus 400 (answer false (returned []) asks_ready) ↔ (length asks_ready < 2))
    × (HasStatus 405 (answer false (returned []) asks_ready)
        ↔ ((2 ≤ length asks_ready) × (IsGet asks_ready → ⊥)))
    × (HasStatus 503 (answer false (returned []) asks_ready) ↔ (
        (false ≡ false) × (Asks asks_ready (codes "/ready") ⊎ Asks asks_ready (codes "/readyz"))))
answer-HasStatus_example = answer-HasStatus false [] asks_ready

abbrev at_accept : Health.Run
at_accept = record {
  server = record { ready = true; running = true };
  phase = accepting;
  handled = 3;
  replies = [];
}

abbrev request : Bytes
request = codes "GET /healthz HTTP/1.1"

handled-run_stopped_example :
    (Health.run
      (λ n. returned [])
      (stops ∷ accepts (readable request) ∷ tests ∷ [])
      at_accept).handled
    ≤ 3 + 1
handled-run_stopped_example =
    handled-run_stopped (λ n. returned []) (accepts (readable request) ∷ tests ∷ []) at_accept

abbrev pub storage : RocksStorage memory
storage = record { db = no_entries; expired_keys_removed = 0; ttl_compaction_removed = 0 }

abbrev pub first_listener : Listener memory counting
first_listener = record {
  config = default_server;
  server = record { storage = storage; metrics = [] };
  connection_semaphore = default_server.max_connections;
  is_cancelled = false;
  connections = [];
  is_accepting = true;
}

pub first_listener_made :
    Listener.new memory counting default_server storage ≡ returned first_listener
unfolding Listener.new default_server
first_listener_made = refl

new-Inv_example :
    Inv memory counting counting-IsSemaphore default_server.max_connections
      (0 + 0)
      (handle_new_connection memory counting first_listener)
unfolding default_server
new-Inv_example =
    new-Inv memory counting counting-IsSemaphore default_server storage (omega arith)
      first_listener_made (next here (Listener.accepts refl))
