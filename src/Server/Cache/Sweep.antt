-- ===== src/Server/Cache/Sweep.antt =====
-- The compaction of an entry, beside the cache.
use petracache.Base.{
  Bool, Bytes, Option, bytes_cases, bytes_eq, bytes_eq_refl, bytes_ne, false, if◌then◌else◌, inl,
  inr, none, some, sym, true, ◌∙◌, ◌≡◌,
}
use mathlib.Core.Path.{subst}
use petracache.Crates.RocksDb.{IsReliable, IsMap, RocksDb}
use petracache.Server.Cache.{is_expired, is_late, StoredValue, Reading, Cache, put, swept}
use petracache.Server.Cache.Entries.{Fits, entry, Holds}
use petracache.Storage.Rocks.{compact_entry, RocksStorage}
use petracache.Result.{ok}
use petracache.Storage.Rocks.Compaction.{compact_entry_value, compact_entry_absent}

module _ (r : RocksDb) (laws : IsMap r) (reliable : IsReliable r) where
  Holds-drop :
      (d : r.Db) (m : Cache) (key : Bytes)
      → Holds r laws reliable d m
      → Holds r laws reliable (r.drop_entry d key) (put key none m)
  unfolding put
  Holds-drop d m key h other = elim (bytes_cases key other) [
    | inl same ↦
        rw (subst (λ k. bytes_eq key k ≡ true) same (bytes_eq_refl key))
          (subst (λ k. r.get (r.drop_entry d key) k ≡ ok none) same (laws.get-drop_self d key), tt)
    | inr differs ↦
        rw (bytes_ne key other differs)
          (laws.get-drop_ne d key other differs ∙ (h other).0, (h other).1)
  ]

  -- The database has the entries of the cache behind a compaction.
  pub compact_entry-Holds :
      (now : Reading) (s : RocksStorage r) (m : Cache) (key : Bytes)
      → Holds r laws reliable s.db m
      → Holds r laws reliable (compact_entry r now s key).db (swept now key m)
  unfolding swept
  compact_entry-Holds now s m key h = go (m key) (h key).0 (h key).1
    where
      go :
          (o : Option StoredValue)
          → r.get s.db key ≡ ok (entry o)
          → Fits o
          → Holds r laws reliable
              (compact_entry r now s key).db
              (if is_late now o then put key none m else m)
      go none e fits =
          subst (λ d. Holds r laws reliable d m) (sym (compact_entry_absent r laws now s key e)) h
      go (some v) e fits =
          subst (λ d. Holds r laws reliable d (if is_expired now v then put key none m else m))
            (sym (compact_entry_value r laws now s key v fits e)) (both (is_expired now v))
        where
          both :
              (late : Bool)
              → Holds r laws reliable
                  (if late then r.drop_entry s.db key else s.db)
                  (if late then put key none m else m)
          both true = Holds-drop s.db m key h
          both false = h
