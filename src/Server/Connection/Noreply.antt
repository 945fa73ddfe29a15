-- ===== src/Server/Connection/Noreply.antt =====
-- Commands that want no reply.
use petracache.Base.{Bool, [], drop, false, length, le→ltb-false, refl, true, ℕ, ◌≡◌, ◌≤◌}
use petracache.Crates.Memchr.{Memchr}
use petracache.Crates.RocksDb.{RocksDb}
use petracache.Crates.BytesMut.{BytesMut, IsBuffer}
use petracache.Crates.Itoa.{Itoa}
use petracache.Protocol.Command.{Command, get, set, delete, version, quit, is_noreply}
use petracache.Protocol.Response
use petracache.Protocol.Response.{buffer}
use petracache.Storage.Value.{Reading}
use petracache.Server.Handler.{execute}
use petracache.Server.Connection.{Session, Round, again, is_quit, after_write, reply, on_complete}

noreply-is_quit : (cmd : Command) → is_noreply cmd ≡ true → is_quit cmd ≡ false
unfolding is_noreply is_quit
noreply-is_quit (get keys) h = cc
noreply-is_quit (set key flags exptime payload noreply) h = refl
noreply-is_quit (delete key noreply) h = refl
noreply-is_quit version h = cc
noreply-is_quit quit h = cc

module _ (r : RocksDb) ⦃m : Memchr⦄ ⦃b : BytesMut⦄ (laws : IsBuffer b) ⦃i : Itoa⦄
    (clock : ℕ → ℕ → Reading) (accepts : ℕ → Bool) where
  -- Another round follows: the command took its bytes and acted on the server, nothing was written
  -- and nothing is left to be written.
  abbrev pub IsQuiet : Session r → Command → ℕ → Round r → Type 0
  IsQuiet c cmd n (again c') =
      (c'.written ≡ c.written)
      × (buffer c'.response ≡ [])
      × (b.contents c'.read_buf ≡ drop n (b.contents c.read_buf))
      × (c'.server ≡ (execute r (clock c.executed) c.server cmd c.response).0)
  IsQuiet c cmd n _ = ⊥

  -- A command with noreply whose bytes are in the buffer is followed by another round whatever
  -- its outcome, an error of the store included: its bytes are taken off, the server is what its
  -- execution leaves, nothing is written and nothing is left to be written; the buffer follows
  -- its laws.
  pub on_complete-IsQuiet :
      (c : Session r) (cmd : Command) (n : ℕ)
      → is_noreply cmd ≡ true
      → n ≤ length (b.contents c.read_buf)
      → IsQuiet c cmd n (on_complete r clock accepts c cmd n)
  unfolding on_complete reply after_write Response.clear
  on_complete-IsQuiet c cmd n quiet le =
      rw (le→ltb-false (length (b.contents c.read_buf)) n le, quiet, noreply-is_quit cmd quiet)
        (
          refl,
          laws.contents-clear (execute r (clock c.executed) c.server cmd c.response).1.buf,
          laws.contents-advance c.read_buf n le,
          refl,
        )
