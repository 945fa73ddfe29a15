-- ===== src/Crates/RocksDb.antt =====
-- The crate rust-rocksdb: the calls that the store makes, and what RocksDB documents of them.
use petracache.Base.{Bytes, List, Option, none, some, ◌≡◌, ◌≢◌}
use mathlib.Core.List.{map}
use petracache.Result.{Result, ok}

pub record RocksDb : Type 1 where
  pub Db : Type 0
  pub Error : Type 0
  pub show_error : Error → Bytes
  pub get : Db → Bytes → Result (Option Bytes) Error
  pub multi_get : Db → List Bytes → List (Result (Option Bytes) Error)
  -- A write comes back with the database behind it, whether it succeeds or not.
  pub put_opt : Db → Bytes → Bytes → Result (Unit {0}) Error × Db
  pub delete_opt : Db → Bytes → Result (Unit {0}) Error × Db
  -- The keys whose entries a compaction of the whole database passes to the filter, and the
  -- database behind the drop of an entry that the filter has told to remove.
  pub compact_range : Db → List Bytes
  pub drop_entry : Db → Bytes → Db

-- A database that answers as a map does: a write that succeeds is what later reads of its key see,
-- reads of other keys are as before, a batch of reads is the reads one by one, and an entry that
-- compaction drops is gone, and it alone.
pub record IsMap (r : RocksDb) : Type 0 where
  pub get-put_self :
      (d : r.Db) (k v : Bytes)
      → (r.put_opt d k v).0 ≡ ok tt
      → r.get (r.put_opt d k v).1 k ≡ ok (some v)
  pub get-put_ne :
      (d : r.Db) (k j v : Bytes)
      → (r.put_opt d k v).0 ≡ ok tt
      → k ≢ j
      → r.get (r.put_opt d k v).1 j ≡ r.get d j
  pub get-delete_self :
      (d : r.Db) (k : Bytes) → (r.delete_opt d k).0 ≡ ok tt → r.get (r.delete_opt d k).1 k ≡ ok none
  pub get-delete_ne :
      (d : r.Db) (k j : Bytes)
      → (r.delete_opt d k).0 ≡ ok tt
      → k ≢ j
      → r.get (r.delete_opt d k).1 j ≡ r.get d j
  pub get-drop_self : (d : r.Db) (k : Bytes) → r.get (r.drop_entry d k) k ≡ ok none
  pub get-drop_ne : (d : r.Db) (k j : Bytes) → k ≢ j → r.get (r.drop_entry d k) j ≡ r.get d j
  pub multi_get_lem : (d : r.Db) (ks : List Bytes) → r.multi_get d ks ≡ map (r.get d) ks

-- A database whose writes succeed.
pub record IsReliable (r : RocksDb) : Type 0 where
  pub put_succeeds : (d : r.Db) (k v : Bytes) → (r.put_opt d k v).0 ≡ ok tt
  pub delete_succeeds : (d : r.Db) (k : Bytes) → (r.delete_opt d k).0 ≡ ok tt
