-- ===== src/Storage/Rocks/Compaction.antt =====
-- The compaction filter against the store's own test of expiry.
use petracache.Base.{
  if◌then◌else◌, Bool-cases, ◌≢◌, inr, [], ◌∙◌, Option, refl, suc, inl, false, ◌∷◌, Bool, ap, List,
  bytes_cases, Bytes, arith, true, ℕ, ◌↔◌, ◌≡◌, length, none, some, ◌≤◌,
}
use petracache.Result.{err, Result, ok}
use petracache.Crates.RocksDb.{RocksDb, IsMap}
use petracache.Storage.Rocks.View.{view, view_raw, view_decoded}
use petracache.Storage.Value.{StoredValue, Reading, decode, is_expired}
use petracache.Storage.Rocks.{
  encode, CompactionDecision, keep, compact, RocksStorage, compact_entry, compact_entries,
  compact_raw, decided, remove, ttl_compaction_filter,
}
use mathlib.Core.Path.{sym, subst}
use petracache.Storage.Value.Codec.{decode-encode, IsStored}

module _ {E : Type 0} where
  -- Of an entry that the store can read, the compaction filter, which reads the deadline off the
  -- bytes by itself, removes exactly what a read at the same moment would treat as expired.
  pub filter-remove_iff :
      (now : Reading) (bytes : Bytes) (removed : ℕ) (v : StoredValue)
      → decode {E = E} bytes ≡ ok v
      → ((ttl_compaction_filter now bytes removed).0 ≡ remove) ↔ (is_expired now v ≡ true)
  unfolding ttl_compaction_filter decode is_expired
  filter-remove_iff now bytes removed v h = ground arith

-- An entry of 12 bytes or more that compaction removes would be seen as absent by every later
-- read, as long as the clock does not go back.
view-removed :
    (r : RocksDb) (bytes : Bytes) (removed t u : ℕ)
    → 12 ≤ length bytes
    → t ≤ u
    → (ttl_compaction_filter (some t) bytes removed).0 ≡ remove
    → view_raw r (some u) (ok (some bytes)) ≡ view_raw r (some u) (ok none)
unfolding ttl_compaction_filter view_raw view_decoded decode is_expired
view-removed r bytes removed t u long le h = ground arith

module _ (r : RocksDb) (laws : IsMap r) where
  -- Every entry is long enough to hold a value.
  abbrev pub AreLong : r.Db → Type 0
  AreLong d = (key bytes : Bytes) → r.get d key ≡ ok (some bytes) → 12 ≤ length bytes

  -- What a read at `u` sees is as before, and what is there is long.
  abbrev IsUnseen : ℕ → r.Db → r.Db → Type 0
  IsUnseen u d d' = ((key : Bytes) → view r (some u) d' key ≡ view r (some u) d key) × AreLong d'

  drop-IsUnseen :
      (d : r.Db) (key value : Bytes) (u : ℕ)
      → AreLong d
      → r.get d key ≡ ok (some value)
      → view_raw r (some u) (ok (some value)) ≡ view_raw r (some u) (ok none)
      → IsUnseen u d (r.drop_entry d key)
  unfolding view
  drop-IsUnseen d key value u long e absent = (seen, still_long)
    where
      seen : (other : Bytes) → view r (some u) (r.drop_entry d key) other ≡ view r (some u) d other
      seen other = elim (bytes_cases key other) [
        | inl same ↦
            subst
              (λ k.
                view_raw r (some u) (r.get (r.drop_entry d key) k)
                ≡ view_raw r (some u) (r.get d k))
              same
              (ap (view_raw r (some u)) (laws.get-drop_self d key)
                ∙ sym absent
                ∙ ap (view_raw r (some u)) (sym e))
        | inr differs ↦ ap (view_raw r (some u)) (laws.get-drop_ne d key other differs)
      ]

      still_long : AreLong (r.drop_entry d key)
      still_long other bytes h = elim (bytes_cases key other) [
        | inl same ↦
            absurd
              (none_ne (sym (laws.get-drop_self d key) ∙ ap (r.get (r.drop_entry d key)) same ∙ h))
        | inr differs ↦ long other bytes (sym (laws.get-drop_ne d key other differs) ∙ h)
      ]
        where
          none_ne : {x : Bytes} → ◌≢◌ {A = Result (Option Bytes) r.Error} (ok none) (ok (some x))
          none_ne q = cc

  compact_entry-IsUnseen :
      (t u : ℕ) (s : RocksStorage r) (key : Bytes)
      → t ≤ u
      → AreLong s.db
      → IsUnseen u s.db (compact_entry r (some t) s key).db
  unfolding compact_entry compact_raw decided
  compact_entry-IsUnseen t u s key le long = go (r.get s.db key) refl
    where
      same : IsUnseen u s.db s.db
      same = ((λ other. refl), long)

      decision :
          (value : Bytes)
          → r.get s.db key ≡ ok (some value)
          → (p : CompactionDecision × ℕ)
          → ttl_compaction_filter (some t) value s.ttl_compaction_removed ≡ p
          → IsUnseen u s.db (decided r s key p).db
      decision value e (keep, removed) h = same
      decision value e (remove, removed) h = drop-IsUnseen s.db key value u long e (
          view-removed r value s.ttl_compaction_removed t u (long key value e) le (ap (λ p. p.0) h))

      go :
          (o : Result (Option Bytes) r.Error)
          → r.get s.db key ≡ o
          → IsUnseen u s.db (compact_raw r (some t) s key o).db
      go (err e) h = same
      go (ok none) h = same
      go (ok (some value)) h = decision value h _ refl

  compact_entries-IsUnseen :
      (clock : ℕ → ℕ) (i u : ℕ) (s : RocksStorage r) (keys : List Bytes)
      → ((n : ℕ) → clock n ≤ u)
      → AreLong s.db
      → IsUnseen u s.db (compact_entries r (λ n. some (clock n)) i s keys).db
  unfolding compact_entries
  compact_entries-IsUnseen clock i u s [] le long = ((λ other. refl), long)
  compact_entries-IsUnseen clock i u s (key ∷ keys) le long =
      let (seen, long') = compact_entry-IsUnseen (clock i) u s key (le i) long in
      let (later, last) =
        compact_entries-IsUnseen clock (suc i) u (compact_entry r (some (clock i)) s key) keys le
          long' in
      ((λ other. later other ∙ seen other), last)

  -- The compaction of the whole database, with the filter or without, whichever entries it
  -- reaches, changes nothing of what a later read of any key sees, as long as the clock does not
  -- go back and each entry has 12 bytes or more; the database behaves as a map.
  pub view-compact :
      (has_ttl_filter : Bool) (clock : ℕ → ℕ) (u : ℕ) (s : RocksStorage r) (key : Bytes)
      → ((n : ℕ) → clock n ≤ u)
      → AreLong s.db
      → view r (some u) (compact r has_ttl_filter (λ n. some (clock n)) s).db key
        ≡ view r (some u) s.db key
  unfolding compact
  view-compact true clock u s key le long =
      (compact_entries-IsUnseen clock 0 u s (r.compact_range s.db) le long).0 key
  view-compact false clock u s key le long = refl

  -- Where there is no entry, compaction does nothing.
  pub compact_entry_absent :
      (now : Reading) (s : RocksStorage r) (key : Bytes)
      → r.get s.db key ≡ ok none
      → (compact_entry r now s key).db ≡ s.db
  unfolding compact_entry compact_raw
  compact_entry_absent now s key e = rw e refl

  -- The entry of a value goes if the value has expired, and stays if not.
  pub compact_entry_value :
      (now : Reading) (s : RocksStorage r) (key : Bytes) (v : StoredValue)
      → IsStored v
      → r.get s.db key ≡ ok (some (encode v))
      → (compact_entry r now s key).db ≡ (if is_expired now v then r.drop_entry s.db key else s.db)
  unfolding compact_entry compact_raw decided
  compact_entry_value now s key v stored e =
      rw e (go (ttl_compaction_filter now (encode v) s.ttl_compaction_removed) refl)
    where
      decided_by :
          (ttl_compaction_filter now (encode v) s.ttl_compaction_removed).0 ≡ remove
          ↔ (is_expired now v ≡ true)
      decided_by =
          filter-remove_iff {E = r.Error} now (encode v) s.ttl_compaction_removed v
            (decode-encode {E = r.Error} v stored)

      go :
          (p : CompactionDecision × ℕ)
          → ttl_compaction_filter now (encode v) s.ttl_compaction_removed ≡ p
          → (decided r s key p).db ≡ (if is_expired now v then r.drop_entry s.db key else s.db)
      go (remove, removed) h = rw (decided_by.0 (ap (λ p. p.0) h)) refl
      go (keep, removed) h = elim (Bool-cases (is_expired now v)) [
        | inl late ↦ absurd (keep_ne (sym (ap (λ p. p.0) h) ∙ decided_by.1 late))
        | inr live ↦ rw live refl
      ]
        where
          keep_ne : keep ≢ remove
          keep_ne q = cc
