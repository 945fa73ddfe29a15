-- ===== src/Server/Cache/Calls.antt =====
-- The calls on the metrics for a command over a database that has the entries of a cache.
use petracache.Base.{refl, ℕ, ◌≡◌}
use petracache.Server.Handler.CommandCalls.{
  commands, commands-execute-get, commands-execute-set, commands-execute-delete,
}
use petracache.Crates.RocksDb.{IsReliable, IsMap, RocksDb}
use petracache.Crates.BytesMut.{BytesMut}
use petracache.Crates.Itoa.{Itoa}
use petracache.Server.Cache.{delete, set, lookup, get, Command, Cache, Reading, counts}
use petracache.Server.Handler.{execute, Server}
use petracache.Protocol.Response.{ResponseWriter}
use petracache.Server.Cache.Entries.{views-eq-lookup, Holds}
use petracache.Protocol.Command.{quit, version}

module _ (r : RocksDb) (map_laws : IsMap r) (reliable : IsReliable r) ⦃b : BytesMut⦄
    ⦃i : Itoa⦄ where
  -- They are those that the cache promises.
  pub commands-execute :
      (clock : ℕ → Reading) (s : Server r) (m : Cache) (cmd : Command) (w : ResponseWriter)
      → Holds r map_laws reliable s.storage.db m
      → commands r (execute r clock s cmd w).0 ≡ counts clock m cmd (commands r s)
  unfolding counts
  commands-execute clock s m (get keys) w h =
      commands-execute-get r map_laws clock s keys w (lookup clock 0 m keys)
        (views-eq-lookup r map_laws reliable clock 0 s.storage.db m keys h)
  commands-execute clock s m (set key flags exptime payload noreply) w h =
      commands-execute-set r map_laws clock s key flags exptime payload noreply w
  commands-execute clock s m (delete key noreply) w h =
      commands-execute-delete r map_laws clock s key noreply w
  commands-execute clock s m version w h = unfold execute in refl
  commands-execute clock s m quit w h = unfold execute in refl
