-- ===== src/Server/Connection/Replies.antt =====
-- A command whose bytes are in the buffer, where the client takes what is written.
use petracache.Base.{
  Bool, Bytes, List, [], ap, false, if◌then◌else◌, is_empty, length, le→ltb-false, none, refl, true,
  ℕ, ◌+◌, ◌∙◌, ◌∷◌, ◌≡◌, ◌≢◌, ◌≤◌,
}
use petracache.Crates.Memchr.{Memchr}
use petracache.Crates.RocksDb.{RocksDb}
use petracache.Crates.BytesMut.{BytesMut, IsBuffer}
use petracache.Crates.Itoa.{Itoa}
use petracache.Protocol.Command.{Command, get, set, delete, version, quit, is_noreply}
use petracache.Protocol.Response
use petracache.Protocol.Response.{buffer}
use petracache.Storage.Value.{Reading}
use petracache.Server.Handler.{execute}
use petracache.Server.Connection.{
  Session, Round, again, closed, is_quit, send, after_write, reply, on_complete,
}

is_quit_ne : (cmd : Command) → cmd ≢ quit → is_quit cmd ≡ false
unfolding is_quit
is_quit_ne (get keys) ne = refl
is_quit_ne (set key flags exptime payload noreply) ne = refl
is_quit_ne (delete key noreply) ne = refl
is_quit_ne version ne = refl
is_quit_ne quit ne = absurd (ne refl)

module _ (r : RocksDb) ⦃m : Memchr⦄ ⦃b : BytesMut⦄ (laws : IsBuffer b) ⦃i : Itoa⦄
    (clock : ℕ → ℕ → Reading) (accepts : ℕ → Bool) (takes : (n : ℕ) → accepts n ≡ true) where
  -- Another round follows, with these replies written and nothing left to be written.
  abbrev pub Continues : List Bytes → Session r → Round r → Type 0
  Continues replies c (again c') =
      (c'.written ≡ replies)
      × (buffer c'.response ≡ [])
      × (c'.server.storage ≡ c.server.storage)
      × (c'.executed ≡ c.executed)
  Continues replies c _ = ⊥

  reply-Continues :
      (noreply : Bool) (c : Session r) (text : Bytes)
      → buffer c.response ≡ text
      → is_empty text ≡ false
      → Continues
          (if noreply then c.written else text ∷ c.written)
          c
          (reply r accepts noreply false c)
  unfolding reply send after_write Response.clear Response.take_buffer
  reply-Continues true c text e some_text = (refl, laws.contents-clear c.response.buf, refl, refl)
  reply-Continues false c text e some_text =
      rw (full, takes (length c.written))
        (ap (λ t. t ∷ c.written) e, laws.contents-clear b.default, refl, refl)
    where
      full : Response.no_response c.response ≡ false
      full = unfold Response.no_response in (ap is_empty e ∙ some_text)

  -- The session that a command's execution leaves.
  abbrev pub executed : Session r → Command → ℕ → Session r
  executed c cmd n =
      let (server', response') = execute r (clock c.executed) c.server cmd c.response in
      record c {
        pending_storage = none;
        server = server';
        response = response';
        read_buf = b.advance c.read_buf n;
        executed = c.executed + 1;
      }

  -- A command that is no quit and has a reply.
  pub on_complete-Continues :
      (c : Session r) (cmd : Command) (n : ℕ) (text : Bytes)
      → n ≤ length (b.contents c.read_buf)
      → cmd ≢ quit
      → buffer (executed c cmd n).response ≡ text
      → is_empty text ≡ false
      → Continues
          (if is_noreply cmd then c.written else text ∷ c.written)
          (executed c cmd n)
          (on_complete r clock accepts c cmd n)
  unfolding on_complete
  on_complete-Continues c cmd n text le ne e some_text =
      rw (le→ltb-false (length (b.contents c.read_buf)) n le, is_quit_ne cmd ne)
        (reply-Continues (is_noreply cmd) (executed c cmd n) text e some_text)

  -- The connection is closed with nothing more written.
  abbrev pub ClosesWith : List Bytes → Round r → Type 0
  ClosesWith replies (closed c) = c.written ≡ replies
  ClosesWith replies _ = ⊥

  pub on_complete_quit :
      (c : Session r) (n : ℕ)
      → n ≤ length (b.contents c.read_buf)
      → buffer c.response ≡ []
      → ClosesWith c.written (on_complete r clock accepts c quit n)
  unfolding on_complete reply after_write is_quit is_noreply execute
  on_complete_quit c n le bare =
      rw (le→ltb-false (length (b.contents c.read_buf)) n le, silent) refl
    where
      silent : Response.no_response c.response ≡ true
      silent = unfold Response.no_response in ap is_empty bare
