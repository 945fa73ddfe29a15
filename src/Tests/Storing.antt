-- ===== src/Tests/Storing.antt =====
-- The store over a database in memory.
use petracache.Base.{
  false, length, ◌≤◌, Option, Bool, Bytes, IsBytes, [], arith, bytes_eq, codes, if◌then◌else◌, none,
  refl, some, true, ◌∷◌, ◌≡◌, ◌≢◌, ◌↔◌,
}
use petracache.Result.{Result, ok}
use petracache.Rust.Integer.{to_le_bytes, from_le_bytes}
use mathlib.Core.Path.{subst}
use petracache.Storage.Value.{
  StoredValue, Reading, new_value, with_expire_at, encode, decode, as_u64, set_numeric, is_expired,
}
use petracache.Storage.Value.Codec.{IsStored, decode-encode, encode-decode}
use petracache.Storage.Value.Numeric.{as_u64-set_numeric}
use petracache.Storage.Value.Expiry.{deadline, past}
use petracache.Storage.Rocks.{
  compact, remove, ttl_compaction_filter, RocksStorage, get, set, delete, get_multi,
}
use petracache.Storage.Rocks.View.{view, views, get_multi-eq-views}
use petracache.Storage.Rocks.Ttl.{get-set_ttl, view-get}
use petracache.Storage.Rocks.Compaction.{filter-remove_iff, view-compact, AreLong}
use petracache.Storage.Rocks.Removal.{has_entry, delete-Deletes}
use petracache.Tests.Instances.{memory, memory-IsMap, no_entries}

abbrev pub brief : StoredValue
brief = with_expire_at 7 1060 (codes "hi")

abbrev pub empty_store : RocksStorage memory
empty_store = record { db = no_entries; expired_keys_removed = 0; ttl_compaction_removed = 0 }

-- A store with a value that expires at the second 1060.
abbrev pub one_value : RocksStorage memory
one_value = (set memory empty_store (codes "k") brief).1

pub brief-IsStored : IsStored brief
brief-IsStored = record { expire_at_u64 = omega arith; flags_u32 = omega arith }

decode-encode_example : decode {E = Bytes} (encode brief) ≡ ok brief
decode-encode_example = decode-encode brief brief-IsStored

abbrev twelve_bytes : Bytes
twelve_bytes = 36 ∷ 4 ∷ 0 ∷ 0 ∷ 0 ∷ 0 ∷ 0 ∷ 0 ∷ 7 ∷ 0 ∷ 0 ∷ 0 ∷ b'h' ∷ b'i' ∷ []

twelve-IsBytes : IsBytes twelve_bytes
twelve-IsBytes = (
  omega arith,
  (
    omega arith,
    (
      omega arith,
      (
        omega arith,
        (
          omega arith,
          (
            omega arith,
            (
              omega arith,
              (
                omega arith,
                (
                  omega arith,
                  (omega arith, (omega arith, (omega arith, (omega arith, (omega arith, tt))))),
                ),
              ),
            ),
          ),
        ),
      ),
    ),
  ),
)

twelve_decoded : decode {E = Bytes} twelve_bytes ≡ ok brief
unfolding decode from_le_bytes
twelve_decoded = refl

encode-decode_example : (encode brief ≡ twelve_bytes) × IsStored brief
encode-decode_example =
    encode-decode {E = Bytes} twelve_bytes {v = brief} twelve-IsBytes twelve_decoded

get-set_ttl_example :
    (get memory
      (some 1059)
      (set memory empty_store (codes "k") (new_value (some 1000) 7 60 (codes "hi"))).1
      (codes "k")).0
    ≡ ok (
        if past (deadline 1000 60) 1059
        then none
        else some (new_value (some 1000) 7 60 (codes "hi")))
get-set_ttl_example =
    get-set_ttl memory memory-IsMap empty_store (codes "k") (codes "hi") 1000 1059 7 60
      (omega arith) (omega arith) (omega arith) (unfold set in refl)

view-get_example :
    view memory (some 1070) (get memory (some 1060) one_value (codes "k")).1.db (codes "k")
    ≡ view memory (some 1070) one_value.db (codes "k")
view-get_example =
    view-get memory memory-IsMap one_value (codes "k") (codes "k") 1060 1070 (omega arith) refl

get_multi-eq-views_example :
    (get_multi memory (λ i. some 1000) one_value (codes "j" ∷ codes "k" ∷ [])).0
    ≡ views memory (λ i. some 1000) 0 one_value.db (codes "j" ∷ codes "k" ∷ [])
get_multi-eq-views_example =
    get_multi-eq-views memory memory-IsMap (λ i. some 1000) one_value (codes "j" ∷ codes "k" ∷ [])

k_present : (delete memory one_value (codes "k")).0 ≡ ok true
unfolding delete set bytes_eq
k_present = refl

delete-Deletes_example :
    (true ≡ has_entry (memory.get one_value.db (codes "k")))
    × ((now : Reading)
        → (get memory now (delete memory one_value (codes "k")).1 (codes "k")).0 ≡ ok none)
    × ((now : Reading) (other : Bytes)
        → codes "k" ≢ other
        → (get memory now (delete memory one_value (codes "k")).1 other).0
          ≡ (get memory now one_value other).0)
delete-Deletes_example = delete-Deletes memory memory-IsMap one_value (codes "k") true k_present

brief_long :
    (there : Bool) (bytes : Bytes)
    → ◌≡◌ {A = Result (Option Bytes) Bytes}
        (ok (if there then some (encode brief) else none))
        (ok (some bytes))
    → 12 ≤ length bytes
unfolding encode to_le_bytes
brief_long true bytes e = subst (λ s. 12 ≤ length s) (same e) (omega arith)
  where
    same :
        ◌≡◌ {A = Result (Option Bytes) Bytes} (ok (some (encode brief))) (ok (some bytes))
        → encode brief ≡ bytes
    same q = cc
brief_long false bytes e = cc

one_value-AreLong : AreLong memory memory-IsMap one_value.db
unfolding set
one_value-AreLong key bytes e = brief_long (bytes_eq (codes "k") key) bytes e

view-compact_example :
    view memory (some 1070) (compact memory true (λ n. some 1060) one_value).db (codes "k")
    ≡ view memory (some 1070) one_value.db (codes "k")
view-compact_example =
    view-compact memory memory-IsMap true (λ n. 1060) 1070 one_value (codes "k") (λ n. omega arith)
      one_value-AreLong

as_u64-set_numeric_example : as_u64 {E = Bytes} (set_numeric 42 brief) ≡ ok 42
as_u64-set_numeric_example = as_u64-set_numeric 42 brief (omega arith)

filter-remove_iff_example :
    ((ttl_compaction_filter (some 1060) (encode brief) 0).0 ≡ remove)
    ↔ (is_expired (some 1060) brief ≡ true)
filter-remove_iff_example =
    filter-remove_iff {E = Bytes} (some 1060) (encode brief) 0 brief
      (decode-encode brief brief-IsStored)
