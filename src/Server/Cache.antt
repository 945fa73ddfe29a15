-- ===== src/Server/Cache.antt =====
-- What the server promises its clients: a map from keys to values with deadlines, and a reply to each
-- command. It stands for the parser, the handlers, the store and the connection together.
pub mod Entries
pub mod Execution
pub mod Calls
pub mod Sweep
pub mod Service
pub mod History
pub mod Keys
use petracache.Base.{
  ==-refl, ==_iff, All, All-append, All-drop, All-take, Bool, Bool-cases, Bytes, IsByte, IsBytes,
  Lacks, List, Option, Option-cases, [], ap, append-nil, append_assoc, arith, bytes_cases, bytes_eq,
  bytes_eq_iff, bytes_eq_refl, bytes_eq→eq, codes, drop, drop-append_length, drop-append_of_le,
  drop-drop, every, false, get_elem?, get_elem?-append_left, get_elem?-append_length, get_elem?-lt,
  get_elem?-none, get_elem?-some, if_cases, if◌then◌else◌, inl, inr, is_empty, leb, length,
  length-append, length-drop, length-take, le→ltb-false, ltb, ltb-false→le, ltb→lt, lt→ltb, min,
  none, not, refl, some, suc, sym, take, take-append-drop, take-append_length, take-append_of_le,
  true, zero, ℕ, ◌%◌, ◌&&◌, ◌*◌, ◌++◌, ◌+◌, ◌-◌, ◌/◌, ◌<◌, ◌==◌, ◌^◌, ◌||◌, ◌↔◌, ◌∙◌, ◌∷◌, ◌≡◌, ◌≢◌,
  ◌≤◌, ◌⊎◌,
}
use petracache.Metrics.{MetricCall, inc, cmd_get, cmd_set, cmd_delete, get_hits, get_misses}
use petracache.Protocol.Command.{Command, get, set, delete, version, quit, is_noreply}
use petracache.Protocol.Response.Contents.{crlf, value_block}
use petracache.Server.Handler.Reply.{render}
use petracache.Storage.Value.{StoredValue, Reading, new_value, is_expired}

-- The entries, those included whose deadline has come and that nobody has asked for since.
abbrev pub Cache : Type 0
Cache = Bytes → Option StoredValue

unfoldable pub put : Bytes → Option StoredValue → Cache → Cache
put key v m other = if bytes_eq key other then v else m other

abbrev pub unexpired : Reading → Option StoredValue → Option StoredValue
unexpired now none = none
unexpired now (some v) = if is_expired now v then none else some v

abbrev pub is_late : Reading → Option StoredValue → Bool
is_late now none = false
is_late now (some v) = is_expired now v

-- The values of the keys; `clock i` is the time at which the i-th key is looked at.
unfoldable pub lookup : (ℕ → Reading) → ℕ → Cache → List Bytes → List (Bytes × Option StoredValue)
lookup clock i m [] = []
lookup clock i m (key ∷ keys) = (key, unexpired (clock i) (m key)) ∷ lookup clock (suc i) m keys

-- The keys that are found expired.
unfoldable pub late : (ℕ → Reading) → ℕ → Cache → List Bytes → List Bytes
late clock i m [] = []
late clock i m (key ∷ keys) =
    let others = late clock (suc i) m keys in
    if is_late (clock i) (m key) then key ∷ others else others

unfoldable pub erase : List Bytes → Cache → Cache
unfolding put
erase [] m = m
erase (key ∷ keys) m = erase keys (put key none m)

-- The cache behind a command.
unfoldable pub behind : (ℕ → Reading) → Cache → Command → Cache
unfolding put erase late
behind clock m (get keys) = erase (late clock 0 m keys) m
behind clock m (set key flags exptime payload noreply) =
    put key (some (new_value (clock 0) flags exptime payload)) m
behind clock m (delete key noreply) = put key none m
behind clock m version = m
behind clock m quit = m

-- The cache behind a compaction of the entry of a key.
unfoldable pub swept : Reading → Bytes → Cache → Cache
unfolding put
swept now key m = if is_late now (m key) then put key none m else m

-- The calls on the metrics for these results, the latest first, before those already made.
unfoldable pub result_calls : List (Bytes × Option StoredValue) → List MetricCall → List MetricCall
result_calls [] calls = calls
result_calls ((key, none) ∷ results) calls = result_calls results (inc get_misses ∷ calls)
result_calls ((key, some v) ∷ results) calls = result_calls results (inc get_hits ∷ calls)

-- The calls for a command.
unfoldable pub counts : (ℕ → Reading) → Cache → Command → List MetricCall → List MetricCall
unfolding result_calls lookup
counts clock m (get keys) calls = result_calls (lookup clock 0 m keys) (inc cmd_get ∷ calls)
counts clock m (set key flags exptime payload noreply) calls = inc cmd_set ∷ calls
counts clock m (delete key noreply) calls = inc cmd_delete ∷ calls
counts clock m version calls = calls
counts clock m quit calls = calls

deleted : Option StoredValue → Bytes
deleted none = codes "NOT_FOUND" ++ crlf
deleted (some v) = codes "DELETED" ++ crlf

-- The reply to a command.
unfoldable pub reply : (ℕ → Reading) → Cache → Command → Bytes
unfolding render lookup deleted
reply clock m (get keys) = render (lookup clock 0 m keys) ++ (codes "END" ++ crlf)
reply clock m (set key flags exptime payload noreply) = codes "STORED" ++ crlf
reply clock m (delete key noreply) = deleted (m key)
reply clock m version = codes "VERSION petracache 0.1.0" ++ crlf
reply clock m quit = []

-- The replies to the commands, put before those already given, the latest first. `clock n` has the
-- times of the n-th command. A quit ends the conversation, and a noreply is not answered.
unfoldable pub conversation : (ℕ → ℕ → Reading) → ℕ → Cache → List Command → List Bytes → List Bytes
unfolding behind reply
conversation clock n m [] replies = replies
conversation clock n m (quit ∷ cmds) replies = replies
conversation clock n m (cmd ∷ cmds) replies =
    conversation clock (n + 1) (behind (clock n) m cmd) cmds
      (if is_noreply cmd then replies else reply (clock n) m cmd ∷ replies)
