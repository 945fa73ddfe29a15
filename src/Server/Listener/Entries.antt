-- ===== src/Server/Listener/Entries.antt =====
-- What the database has while the program runs.
use petracache.Server.Connection.Answers.{Backing}
use petracache.Base.{Bytes, Option, none, refl, some, sym, ℕ, ◌∙◌, ◌≡◌, ◌≢◌}
use petracache.Server.Cache.Keys.{HasValidKeys, cache_of-HasValidKeys}
use petracache.Server.Listener.History.{history_of}
use petracache.Protocol.Command.{IsValidKey}
use petracache.Crates.RocksDb.{RocksDb}
use petracache.Storage.Value.{encode, StoredValue}
use petracache.Crates.Semaphore.{Semaphore}
use petracache.Storage.Value.Codec.{IsStored}
use petracache.Crates.Memchr.{Memchr}
use petracache.Crates.BytesMut.{BytesMut}
use petracache.Crates.Itoa.{Itoa}
use petracache.Server.Cache.{Cache}
use petracache.Server.Cache.Entries.{Fits, entry, Holds}
use petracache.Config.{ServerConfig}
use petracache.Result.{Result, ok}
use petracache.Storage.Rocks.{RocksStorage}
use petracache.Server.Listener.{Reach, returned, new, Listener}
use petracache.Server.Cache.History.{cache_of}

-- An entry with a key that the protocol allows, which is the bytes of a value whose numbers fit
-- their types.
abbrev pub IsEntry : Bytes → Bytes → Type 0
IsEntry key bytes = IsValidKey key × (v : StoredValue) × IsStored v × (bytes ≡ encode v)

module _ {r : RocksDb} (s : Semaphore) ⦃m : Memchr⦄ ⦃b : BytesMut⦄ ⦃i : Itoa⦄ (g : Backing r)
    (valid : HasValidKeys g.from) where
  pub held-IsEntry :
      (d : r.Db) (cache : Cache) (key bytes : Bytes)
      → Holds r g.map_laws g.reliable d cache
      → HasValidKeys cache
      → r.get d key ≡ ok (some bytes)
      → IsEntry key bytes
  held-IsEntry d cache key bytes holds keys e = go (cache key) refl (holds key).0 (holds key).1
    where
      same : {o o' : Option Bytes} → ◌≡◌ {A = Result (Option Bytes) r.Error} (ok o) (ok o') → o ≡ o'
      same q = cc

      go :
          (o : Option StoredValue)
          → cache key ≡ o
          → r.get d key ≡ ok (entry o)
          → Fits o
          → IsEntry key bytes
      go none at got fits = absurd (none_ne (same (sym got ∙ e)))
        where
          none_ne : ◌≢◌ {A = Option Bytes} none (some bytes)
          none_ne q = cc
      go (some v) at got fits = (keys key v at, v, fits, same_bytes (same (sym got ∙ e)))
        where
          same_bytes : ◌≡◌ {A = Option Bytes} (some (encode v)) (some bytes) → bytes ≡ encode v
          same_bytes q = cc

  -- In every state that the listener reaches behind a start over a database with the entries of a
  -- cache whose keys the protocol allows, whatever bytes the clients send, each entry of the
  -- database has such a key and is the bytes of a value whose numbers fit their types; the
  -- database behaves as a map and its writes succeed, and the buffer follows its laws.
  pub new-IsEntry :
      (config : ServerConfig) (storage : RocksStorage r) {n : ℕ} {l l' : Listener r s}
      (key bytes : Bytes)
      → Holds r g.map_laws g.reliable storage.db g.from
      → new r s config storage ≡ returned l
      → Reach r s l n l'
      → r.get l'.server.storage.db key ≡ ok (some bytes)
      → IsEntry key bytes
  new-IsEntry config storage key bytes holds made reach got =
      let (history, h) = history_of s g config storage holds made reach in
      held-IsEntry _ (cache_of g.from history) key bytes h.explained.holds
        (cache_of-HasValidKeys g.from history h.explained.formed valid) got
