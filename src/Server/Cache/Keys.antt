-- ===== src/Server/Cache/Keys.antt =====
-- The keys of the cache behind a history.
use petracache.Server.Cache.History.{executes, sweeps, cache_of, AreWellFormed, History}
use petracache.Base.{
  if_both, Bool-cases, Bytes, List, Option, [], bytes_eq, bytes_eq→eq, if_cases, inl, inr, none,
  some, ℕ, ◌∷◌, ◌≡◌,
}
use petracache.Server.Cache.{
  is_late, swept, new_value, late, Command, Reading, StoredValue, Cache, put, erase, behind,
}
use petracache.Protocol.Command.{quit, version, delete, set, get, IsValidKey}
use petracache.Protocol.Parser.Sound.{IsWellFormed}
use mathlib.Core.Path.{subst}

-- Each entry has a key that the protocol allows.
abbrev pub HasValidKeys : Cache → Type 0
HasValidKeys m = (key : Bytes) (v : StoredValue) → m key ≡ some v → IsValidKey key

put-HasValidKeys :
    (m : Cache) (key : Bytes) (o : Option StoredValue)
    → IsValidKey key
    → HasValidKeys m
    → HasValidKeys (put key o m)
unfolding put
put-HasValidKeys m key o valid h other v e = elim (Bool-cases (bytes_eq key other)) [
  | inl same ↦ subst IsValidKey (bytes_eq→eq key other same) valid
  | inr differs ↦ h other v (rw differs at e)
]

removed-HasValidKeys : (m : Cache) (key : Bytes) → HasValidKeys m → HasValidKeys (put key none m)
unfolding put
removed-HasValidKeys m key h other v e =
    if_cases (bytes_eq key other) e (λ q. cc) (λ q. h other v q)

erase-HasValidKeys : (keys : List Bytes) (m : Cache) → HasValidKeys m → HasValidKeys (erase keys m)
unfolding erase
erase-HasValidKeys [] m h = h
erase-HasValidKeys (key ∷ keys) m h =
    erase-HasValidKeys keys (put key none m) (removed-HasValidKeys m key h)

behind-HasValidKeys :
    (clock : ℕ → Reading) (m : Cache) (cmd : Command)
    → IsWellFormed cmd
    → HasValidKeys m
    → HasValidKeys (behind clock m cmd)
unfolding behind
behind-HasValidKeys clock m (get keys) formed h = erase-HasValidKeys (late clock 0 m keys) m h
behind-HasValidKeys clock m (set key flags exptime payload noreply) formed h =
    put-HasValidKeys m key (some (new_value (clock 0) flags exptime payload)) formed.0 h
behind-HasValidKeys clock m (delete key noreply) formed h = removed-HasValidKeys m key h
behind-HasValidKeys clock m version formed h = h
behind-HasValidKeys clock m quit formed h = h

swept-HasValidKeys :
    (now : Reading) (key : Bytes) (m : Cache) → HasValidKeys m → HasValidKeys (swept now key m)
unfolding swept
swept-HasValidKeys now key m h =
    if_both HasValidKeys (is_late now (m key)) (removed-HasValidKeys m key h) h

pub cache_of-HasValidKeys :
    (from : Cache) (history : History)
    → AreWellFormed history
    → HasValidKeys from
    → HasValidKeys (cache_of from history)
cache_of-HasValidKeys from [] formed h = h
cache_of-HasValidKeys from (executes clock cmd ∷ history) (first, formed) h =
    behind-HasValidKeys clock (cache_of from history) cmd first
      (cache_of-HasValidKeys from history formed h)
cache_of-HasValidKeys from (sweeps now key ∷ history) (first, formed) h =
    swept-HasValidKeys now key (cache_of from history) (cache_of-HasValidKeys from history formed h)
