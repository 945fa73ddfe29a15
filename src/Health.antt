-- ===== src/Health.antt =====
-- src/health.rs: the HTTP server for health checks and metrics.
pub mod Reply
pub mod Routes
pub mod Loop
use petracache.Base.{
  ==-refl, ==_iff, All, All-append, All-drop, All-take, Bool, Bool-cases, Bytes, IsByte, IsBytes,
  Lacks, List, Option, Option-cases, [], ap, append-nil, append_assoc, arith, bytes_cases, bytes_eq,
  bytes_eq_refl, bytes_eq→eq, codes, drop, drop-append_length, drop-append_of_le, drop-drop, every,
  false, get_elem?, get_elem?-append_left, get_elem?-append_length, get_elem?-lt, get_elem?-none,
  get_elem?-some, if_cases, if◌then◌else◌, inl, inr, is_empty, leb, length, length-append,
  length-drop, length-take, le→ltb-false, ltb, ltb-false→le, ltb→lt, lt→ltb, min, none, not, refl,
  some, suc, sym, take, take-append-drop, take-append_length, take-append_of_le, true, zero, ℕ, ◌%◌,
  ◌&&◌, ◌*◌, ◌++◌, ◌+◌, ◌-◌, ◌/◌, ◌<◌, ◌==◌, ◌^◌, ◌||◌, ◌↔◌, ◌∙◌, ◌∷◌, ◌≡◌, ◌≢◌, ◌≤◌, ◌⊎◌,
}
use petracache.Outcome.{Outcome, returned, panicked}
use petracache.Rust.Utf8.{from_utf8}
use petracache.Rust.Integer.{to_string}
use petracache.Rust.Trim.Words.{split_whitespace}

abbrev crlf : Bytes
crlf = b'\r' ∷ b'\n' ∷ []

unfoldable pub status_text : ℕ → Bytes
status_text status =
    if status == 200
    then codes "OK"
    else if status == 400
    then codes "Bad Request"
    else if status == 404
    then codes "Not Found"
    else if status == 405
    then codes "Method Not Allowed"
    else if status == 503
    then codes "Service Unavailable"
    else codes "Unknown"

-- What `send_response` is called with.
pub record Answer : Type 0 where
  pub status : ℕ
  pub content_type : Bytes
  pub body : Bytes

-- The bytes that `send_response` writes.
unfoldable pub response : Answer → Bytes
response a =
    (codes "HTTP/1.1 " ++ (to_string a.status ++ (codes " " ++ status_text a.status)))
    ++ (crlf
        ++ ((codes "Content-Type: " ++ a.content_type)
            ++ (crlf
                ++ ((codes "Content-Length: " ++ to_string (length a.body))
                    ++ (crlf ++ (codes "Connection: close" ++ (crlf ++ (crlf ++ a.body))))))))

abbrev plain : ℕ → Bytes → Answer
plain status body = record { status = status; content_type = codes "text/plain"; body = body }

abbrev json : ℕ → Bytes → Answer
json status body = record { status = status; content_type = codes "application/json"; body = body }

metrics_answer : Outcome Bytes → Outcome Answer
metrics_answer panicked = panicked
metrics_answer (returned text) =
    returned
      (record { status = 200; content_type = codes "text/plain; version=0.0.4"; body = text })

-- `match path`
get_path : Bool → Outcome Bytes → Bytes → Outcome Answer
unfolding metrics_answer
get_path ready metrics path =
    if bytes_eq path (codes "/health") || bytes_eq path (codes "/healthz")
    then returned (json 200 (codes "{\"status\":\"healthy\"}"))
    else if bytes_eq path (codes "/ready") || bytes_eq path (codes "/readyz")
    then returned (
        if ready
        then json 200 (codes "{\"status\":\"ready\"}")
        else json 503 (codes "{\"status\":\"not ready\"}"))
    else if bytes_eq path (codes "/metrics")
    then metrics_answer metrics
    else returned (plain 404 (codes "Not Found"))

-- The answer to the words of a request line. `metrics` is what `gather` gives.
unfoldable pub answer : Bool → Outcome Bytes → List Bytes → Outcome Answer
unfolding get_path
answer ready metrics [] = returned (plain 400 (codes "Bad Request"))
answer ready metrics (method ∷ []) = returned (plain 400 (codes "Bad Request"))
answer ready metrics (method ∷ path ∷ more) =
    if not (bytes_eq method (codes "GET"))
    then returned (plain 405 (codes "Method Not Allowed"))
    else get_path ready metrics path

-- `read_line`: the bytes up to a newline, or to the end of the stream.
unfoldable pub read_line : Bytes → Bytes
read_line [] = []
read_line (c ∷ s) = let rest = read_line s in if c == b'\n' then c ∷ [] else c ∷ rest

-- The stream of a connection: one whose mode cannot be set or that cannot be read, or one with these
-- bytes to read.
pub data Stream : Type 0 where
  unusable : Stream
  readable : Bytes → Stream

answer_line : Bool → Outcome Bytes → Option Bytes → Outcome (Option Bytes)
answer_line ready metrics none = returned none
answer_line ready metrics (some line) = elim (answer ready metrics (split_whitespace line)) [
  | panicked ↦ panicked
  | returned a ↦ returned (some (response a))
]

-- The bytes written, if it comes to a reply. A line that is not Unicode is an error of the read.
unfoldable pub handle_connection : Bool → Outcome Bytes → Stream → Outcome (Option Bytes)
unfolding answer_line answer response
handle_connection ready metrics unusable = returned none
handle_connection ready metrics (readable bytes) =
    answer_line ready metrics (from_utf8 (read_line bytes))

pub record HealthServer : Type 0 where
  pub ready : Bool
  pub running : Bool

unfoldable pub new : HealthServer
new = record { ready = false; running = true }

unfoldable pub set_ready : Bool → HealthServer → HealthServer
set_ready ready s = record s { ready = ready }

abbrev pub is_ready : HealthServer → Bool
is_ready s = s.ready

unfoldable pub stop : HealthServer → HealthServer
stop s = record s { running = false }

-- What happens: the loop tests its flag, the loop's accept gives a connection, nothing or an error,
-- or another thread sets a flag.
pub data Action : Type 0 where
  tests would_block accept_failed stops : Action
  accepts : Stream → Action
  readies : Bool → Action

-- Where the loop stands: before its test, at its accept, behind its end, or in a panic.
pub data Phase : Type 0 where
  testing accepting ended crashed : Phase

-- The replies are the latest first; `handled` counts the connections.
pub record Run : Type 0 where
  pub server : HealthServer
  pub phase : Phase
  pub handled : ℕ
  pub replies : List Bytes

-- A connection was handled.
answered : Run → Outcome (Option Bytes) → Run
answered t panicked = record t { phase = crashed; handled = t.handled + 1 }
answered t (returned none) = record t { phase = testing; handled = t.handled + 1 }
answered t (returned (some reply)) = record t {
  phase = testing;
  handled = t.handled + 1;
  replies = reply ∷ t.replies;
}

-- An action that the loop is not at leaves it as it is. `metrics n` is what `gather` gives at the
-- n-th connection.
loop_step : (ℕ → Outcome Bytes) → Phase → Action → Run → Run
unfolding answered handle_connection
loop_step metrics testing tests t = record t {
  phase = if t.server.running then accepting else ended;
}
loop_step metrics accepting (accepts stream) t =
    answered t (handle_connection (is_ready t.server) (metrics t.handled) stream)
loop_step metrics accepting would_block t = record t { phase = testing }
loop_step metrics accepting accept_failed t = record t { phase = testing }
loop_step metrics phase action t = t

pub step : (ℕ → Outcome Bytes) → Action → Run → Run
unfolding loop_step set_ready stop
step metrics (readies ready) t = record t { server = set_ready ready t.server }
step metrics stops t = record t { server = stop t.server }
step metrics tests t = loop_step metrics t.phase tests t
step metrics would_block t = loop_step metrics t.phase would_block t
step metrics accept_failed t = loop_step metrics t.phase accept_failed t
step metrics (accepts stream) t = loop_step metrics t.phase (accepts stream) t

unfoldable pub run : (ℕ → Outcome Bytes) → List Action → Run → Run
unfolding step
run metrics [] t = t
run metrics (action ∷ actions) t = run metrics actions (step metrics action t)
