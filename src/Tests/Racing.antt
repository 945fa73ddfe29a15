-- ===== src/Tests/Racing.antt =====
-- Calls of the store that interleave.
use petracache.Base.{
  [], ap, arith, bytes_eq, codes, false, length, none, refl, some, true, ℕ, ◌∷◌, ◌≡◌,
}
use petracache.Rust.Integer.{to_le_bytes, from_le_bytes}
use petracache.Storage.Rocks.Threads.{
  Task, was_deleted, answered, Succeeds, step, gets, deletes, Threads, here, next, goes_on,
}
use petracache.Storage.Rocks.{RocksStorage, set, get}
use petracache.Storage.Value.{encode, decode, is_expired, StoredValue, Reading, with_expire_at}
use petracache.Result.{ok}
use petracache.Storage.Rocks.Threads.Interleaving.{get-Reach_set}
use petracache.Storage.Rocks.Threads.Race.{
  first_read, second_read, first_removed, second_removed, delete-step_twice, seen, overwritten,
  get-step_lost,
}
use petracache.Tests.Instances.{memory, memory-IsMap}
use petracache.Tests.Storing.{brief, brief-IsStored, empty_store, one_value}

abbrev at_noon : ℕ → Reading
at_noon i = some 1000

brief_live : is_expired (some 1000) brief ≡ false
unfolding is_expired
brief_live = refl

-- A read of the key is under way, and a delete of another.
abbrev two_calls : Threads memory
two_calls = record {
  storage = empty_store;
  tasks = gets (codes "k") ∷ deletes (codes "other") ∷ [];
}

abbrev set_between : Threads memory
set_between = record two_calls { storage = (set memory empty_store (codes "k") brief).1 }

abbrev read_made : Threads memory
read_made = record set_between {
  storage = (step memory at_noon (gets (codes "k")) set_between.storage).1;
  tasks =
      (step memory at_noon (gets (codes "k")) set_between.storage).0 ∷ deletes (codes "other") ∷ [];
}

get-Reach_set_example : (get memory (some 1000) read_made.storage (codes "k")).0 ≡ ok (some brief)
get-Reach_set_example =
    get-Reach_set memory memory-IsMap (codes "k") brief brief-IsStored two_calls {s' = read_made}
      (some 1000) (unfold set in refl) (tt, ((λ e. omega (arith, ap length e)), tt))
      (next here (
        goes_on at_noon [] (deletes (codes "other") ∷ []) (gets (codes "k")) (λ i. brief_live) refl
          tt))
      brief_live

brief_late : is_expired (some 1060) brief ≡ true
unfolding is_expired
brief_late = refl

abbrev lasting : StoredValue
lasting = with_expire_at 7 0 (codes "new")

lasting_gone :
    Succeeds memory
      (seen memory memory-IsMap (codes "k") lasting (some 1060) one_value).0
      (overwritten memory memory-IsMap (codes "k") lasting (some 1060) one_value).1
unfolding step decode is_expired bytes_eq from_le_bytes set encode to_le_bytes
lasting_gone = refl

get-step_lost_example :
    (get memory
      (some 1061)
      (step memory at_noon
        (seen memory memory-IsMap (codes "k") lasting (some 1060) one_value).0
        (overwritten memory memory-IsMap (codes "k") lasting (some 1060) one_value).1).1
      (codes "k")).0
    ≡ ok none
unfolding bytes_eq set
get-step_lost_example =
    get-step_lost memory memory-IsMap (codes "k") lasting (some 1060) one_value brief at_noon
      (some 1061) brief-IsStored refl brief_late (unfold set in refl) lasting_gone

-- Two deletes of the key that have both made their reads.
k_there : memory.get one_value.db (codes "k") ≡ ok (some (encode brief))
unfolding set bytes_eq
k_there = refl

abbrev both_read : Task memory × RocksStorage memory
both_read = second_read memory memory-IsMap at_noon (codes "k") one_value

abbrev removed_once : Task memory × RocksStorage memory
removed_once = first_removed memory memory-IsMap at_noon (codes "k") one_value

first_removes :
    Succeeds memory (first_read memory memory-IsMap at_noon (codes "k") one_value).0 both_read.1
unfolding step set bytes_eq
first_removes = refl

second_removes : Succeeds memory both_read.0 removed_once.1
unfolding step set bytes_eq
second_removes = refl

delete-step_twice_example :
    (removed_once.0 ≡ answered (was_deleted (ok true)))
    × (memory.get removed_once.1.db (codes "k") ≡ ok none)
    × ((second_removed memory memory-IsMap at_noon (codes "k") one_value).0
        ≡ answered (was_deleted (ok true)))
delete-step_twice_example =
    delete-step_twice memory memory-IsMap at_noon (codes "k") one_value (encode brief) k_there
      first_removes second_removes
