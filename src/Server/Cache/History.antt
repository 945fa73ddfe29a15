-- ===== src/Server/Cache/History.antt =====
-- A history of the cache: the commands that were executed, whoever sent them, and what one client
-- was told on the way.
use petracache.Base.{◌+◌, All, Bytes, List, [], codes, if◌then◌else◌, is_empty, ℕ, ◌++◌, ◌||◌, ◌∷◌}
use petracache.Metrics.{MetricCall}
use petracache.Server.Cache.{counts, swept, crlf, is_noreply, reply, behind, Command, Cache}
use petracache.Storage.Value.{Reading}
use petracache.Error.{protocol_message, ProtocolError}
use petracache.Protocol.Parser.Sound.{IsWellFormed}
use petracache.Protocol.Parser.Messages.{IsOneLine}

-- What happens to the cache: a command, with the readings of the clock while it is executed, or the
-- compaction of the entry of a key.
pub data Happening : Type 0 where
  executes : (ℕ → Reading) → Command → Happening
  sweeps : Reading → Bytes → Happening

-- The latest first.
abbrev pub History : Type 0
History = List Happening

-- The cache behind a history that began at this cache.
abbrev pub cache_of : Cache → History → Cache
cache_of from [] = from
cache_of from (executes clock cmd ∷ history) = behind clock (cache_of from history) cmd
cache_of from (sweeps now key ∷ history) = swept now key (cache_of from history)

-- The calls on the metrics that count the commands of a history, their hits and their misses.
abbrev pub calls_of : Cache → History → List MetricCall
calls_of from [] = []
calls_of from (executes clock cmd ∷ history) =
    counts clock (cache_of from history) cmd (calls_of from history)
calls_of from (sweeps now key ∷ history) = calls_of from history

-- What a client reads when a command is executed at the end of a history.
abbrev pub reply_of : Cache → (ℕ → Reading) → Command → History → Bytes
reply_of from clock cmd history = reply clock (cache_of from history) cmd

-- The replies to a client behind its own command. One with noreply has no reply, and nor has a quit.
abbrev pub answer : Cache → (ℕ → Reading) → Command → History → List Bytes → List Bytes
answer from clock cmd history replies =
    if is_noreply cmd || is_empty (reply_of from clock cmd history)
    then replies
    else reply_of from clock cmd history ∷ replies

-- The line that refuses a request.
abbrev pub error_line : ProtocolError → Bytes
error_line e = codes "CLIENT_ERROR " ++ (protocol_message e ++ crlf)

-- One client sent this many commands of the history, and its replies, the latest first, are those
-- to its commands, in their order, each from the cache at its place, and the lines for its faulty
-- requests.
pub data Answered (from : Cache) : ℕ → History → List Bytes → Type 0 where
  nothing : Answered from 0 [] []
  others :
      (x : Happening) {sent : ℕ} {history : History} {replies : List Bytes}
      → Answered from sent history replies
      → Answered from sent (x ∷ history) replies
  own :
      (clock : ℕ → Reading) (cmd : Command) {sent : ℕ} {history : History} {replies : List Bytes}
      → Answered from sent history replies
      → Answered from
          (sent + 1)
          (executes clock cmd ∷ history)
          (answer from clock cmd history replies)
  refused :
      (e : ProtocolError) {sent : ℕ} {history : History} {replies : List Bytes}
      → IsOneLine e
      → Answered from sent history replies
      → Answered from sent history (error_line e ∷ replies)

-- A client that sent nothing.
pub Answered-nothing : (from : Cache) (history : History) → Answered from 0 history []
Answered-nothing from [] = nothing
Answered-nothing from (x ∷ history) = others x (Answered-nothing from history)

-- The commands of others are between the replies to a client.
pub Answered-others :
    (from : Cache) (later : History) {sent : ℕ} {history : History} {replies : List Bytes}
    → Answered from sent history replies
    → Answered from sent (later ++ history) replies
Answered-others from [] h = h
Answered-others from (x ∷ later) h = others x (Answered-others from later h)

abbrev pub IsFormed : Happening → Type 0
IsFormed (executes clock cmd) = IsWellFormed cmd
IsFormed (sweeps now key) = Unit

abbrev pub AreWellFormed : History → Type 0
AreWellFormed = All IsFormed
