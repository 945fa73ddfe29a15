-- ===== src/Server/Cache/Service.antt =====
-- A connection, beside the conversation that the cache promises.
use petracache.Base.{
  All, Bool, Bytes, List, Option, [], ap, arith, codes, false, if◌then◌else◌, inl, inr, is_empty,
  length, length-append, none, refl, some, sym, true, ℕ, ◌++◌, ◌+◌, ◌<◌, ◌∙◌, ◌∷◌, ◌≡◌, ◌≢◌, ◌≤◌,
  ◌⊎◌,
}
use mathlib.Core.Path.{subst}
use petracache.Crates.Memchr.{Memchr}
use petracache.Crates.RocksDb.{RocksDb, IsMap, IsReliable}
use petracache.Crates.BytesMut.{BytesMut, IsBuffer}
use petracache.Crates.Itoa.{Itoa}
use petracache.Protocol.Command.{Command, get, set, delete, version, quit, is_noreply}
use petracache.Protocol.Response.{buffer}
use petracache.Protocol.Response.Contents.{crlf}
use petracache.Protocol.Parser.Data.{max_slice}
use petracache.Protocol.Parser.Print.{print}
use petracache.Protocol.Parser.Sound.{IsWellFormed}
use petracache.Storage.Value.{StoredValue, Reading}
use petracache.Server.Handler.Reply.{render}
use petracache.Server.Connection.{
  broken, crashed, Session, Round, again, waiting, closed, write_failed, aborted, End, listening,
  quitted, handle, on_complete,
}
use petracache.Server.Connection.Matching.{EndMatches}
use petracache.Server.Connection.Pipeline.{print_all, run_all, After, on_complete-After, arrived}
use petracache.Server.Connection.Replies.{
  Continues, ClosesWith, executed, on_complete-Continues, on_complete_quit,
}
use petracache.Server.Connection.Chunks.{reads, stream, handle-EndMatches}
use petracache.Server.Cache.{Cache, lookup, deleted, reply, behind, conversation}
use petracache.Server.Cache.Entries.{Holds}
use petracache.Server.Cache.Execution.{execute-Executes}

some_append : (s t : Bytes) → is_empty t ≡ false → is_empty (s ++ t) ≡ false
some_append [] t h = h
some_append (x ∷ s) t h = refl

-- Every command but quit has a reply.
some_reply :
    (clock : ℕ → Reading) (m : Cache) (cmd : Command)
    → cmd ≢ quit
    → is_empty (reply clock m cmd) ≡ false
unfolding reply
some_reply clock m (get keys) ne =
    some_append (render (lookup clock 0 m keys)) (codes "END" ++ crlf) refl
some_reply clock m (set key flags exptime payload noreply) ne = refl
some_reply clock m (delete key noreply) ne = found (m key)
  where
    found : (o : Option StoredValue) → is_empty (deleted o) ≡ false
    found none = unfold deleted in refl
    found (some v) = unfold deleted in refl
some_reply clock m version ne = refl
some_reply clock m quit ne = absurd (ne refl)

module _ (r : RocksDb) (map_laws : IsMap r) (reliable : IsReliable r) ⦃m : Memchr⦄ ⦃b : BytesMut⦄
    (laws : IsBuffer b) ⦃i : Itoa⦄ (clock : ℕ → ℕ → Reading) (accepts : ℕ → Bool)
    (takes : (n : ℕ) → accepts n ≡ true) where
  -- These are the replies written, the latest first.
  abbrev Replied : List Bytes → Round r → Type 0
  Replied replies (waiting c) = c.written ≡ replies
  Replied replies (closed c) = c.written ≡ replies
  Replied replies _ = ⊥

  -- What a session has in common with the cache.
  pub record Serves (c : Session r) (cache : Cache) : Type 0 where
    pub holds : Holds r map_laws reliable c.server.storage.db cache
    pub nothing_left : buffer c.response ≡ []

  conversation-step :
      (n : ℕ) (cache : Cache) (cmd : Command) (cmds : List Command) (replies : List Bytes)
      → cmd ≢ quit
      → conversation clock n cache (cmd ∷ cmds) replies
        ≡ conversation clock
            (n + 1)
            (behind (clock n) cache cmd)
            cmds
            (if is_noreply cmd then replies else reply (clock n) cache cmd ∷ replies)
  unfolding conversation
  conversation-step n cache (get keys) cmds replies ne = refl
  conversation-step n cache (set key flags exptime payload noreply) cmds replies ne = refl
  conversation-step n cache (delete key noreply) cmds replies ne = refl
  conversation-step n cache version cmds replies ne = refl
  conversation-step n cache quit cmds replies ne = absurd (ne refl)

  quit_cases : (cmd : Command) → (cmd ≡ quit) ⊎ (cmd ≢ quit)
  quit_cases quit = inl refl
  quit_cases (get keys) = inr (λ e. cc)
  quit_cases (set key flags exptime payload noreply) = inr (λ e. cc)
  quit_cases (delete key noreply) = inr (λ e. cc)
  quit_cases version = inr (λ e. cc)

  quit-Replied :
      (cmds : List Command) (c : Session r)
      → b.contents c.read_buf ≡ print_all (quit ∷ cmds)
      → (cache : Cache) → buffer c.response ≡ []
      → Replied
          (conversation clock c.executed cache (quit ∷ cmds) c.written)
          (run_all r laws clock accepts c (quit ∷ cmds))
  unfolding run_all conversation
  quit-Replied cmds c all cache bare =
      go (on_complete r clock accepts c quit (length (print quit))) (
        on_complete_quit r laws clock accepts takes c (length (print quit))
          (omega (arith, ap length all, length-append {0} (print quit) (print_all cmds))) bare)
    where
      go :
          (o : Round r)
          → ClosesWith r laws clock accepts takes c.written o
          → Replied c.written (elim o [
            | again c' ↦ run_all r laws clock accepts c' cmds
            | waiting c' ↦ waiting c'
            | closed c' ↦ closed c'
            | write_failed c' ↦ write_failed c'
            | aborted ↦ aborted
          ])
      go (again c') h = absurd h
      go (waiting c') h = absurd h
      go (closed c') h = h
      go (write_failed c') h = absurd h
      go aborted h = absurd h

  run_all-Replied :
      (cmds : List Command) (c : Session r) (cache : Cache)
      → b.contents c.read_buf ≡ print_all cmds
      → All IsWellFormed cmds
      → Serves c cache
      → Replied
          (conversation clock c.executed cache cmds c.written)
          (run_all r laws clock accepts c cmds)
  unfolding run_all conversation
  run_all-Replied [] c cache all formed serves = refl
  run_all-Replied (cmd ∷ cmds) c cache all (first, formed) serves =
      let n = length (print cmd) in
      let within : n ≤ length (b.contents c.read_buf) =
        omega (arith, ap length all, length-append {0} (print cmd) (print_all cmds)) in
      elim (quit_cases cmd) [
        | inl ends ↦
            subst
              (λ x.
                Replied (conversation clock c.executed cache (x ∷ cmds) c.written)
                  (run_all r laws clock accepts c (x ∷ cmds)))
              (sym ends)
              (quit-Replied cmds c
                (subst (λ x. b.contents c.read_buf ≡ print_all (x ∷ cmds)) ends all) cache
                serves.nothing_left)
        | inr ne ↦
            let (replied, held) =
              execute-Executes r map_laws reliable laws (clock c.executed) c.server cache cmd
                c.response first serves.holds in
            rw (conversation-step c.executed cache cmd cmds c.written ne) (
              go (λ c' cache' all' serves'. run_all-Replied cmds c' cache' all' formed serves') _ _
                (executed r laws clock accepts takes c cmd n) held
                (on_complete r clock accepts c cmd n)
                (on_complete-Continues r laws clock accepts takes c cmd n
                  (reply (clock c.executed) cache cmd) within ne
                  (replied ∙ ap (λ s. s ++ reply (clock c.executed) cache cmd) serves.nothing_left)
                  (some_reply (clock c.executed) cache cmd ne))
                (on_complete-After r laws clock accepts c cmd (print_all cmds) all))
      ]
    where
      go :
          ((c' : Session r) (cache' : Cache)
            → b.contents c'.read_buf ≡ print_all cmds
            → Serves c' cache'
            → Replied
                (conversation clock c'.executed cache' cmds c'.written)
                (run_all r laws clock accepts c' cmds))
          → (cache' : Cache) (replies : List Bytes) (d : Session r)
          → Holds r map_laws reliable d.server.storage.db cache'
          → (o : Round r) → Continues r laws clock accepts takes replies d o
          → After r laws clock accepts (print_all cmds) o
          → Replied (conversation clock d.executed cache' cmds replies) (elim o [
            | again c' ↦ run_all r laws clock accepts c' cmds
            | waiting c' ↦ waiting c'
            | closed c' ↦ closed c'
            | write_failed c' ↦ write_failed c'
            | aborted ↦ aborted
          ])
      go on cache' replies d held (again c') (written, left, same, count) (rest, idle) =
          rw (← written, ← count)
            (on c' cache' rest (record { holds = rw same held; nothing_left = left }))
      go on cache' replies d held (waiting c') continues after = absurd after
      go on cache' replies d held (closed c') continues after = absurd continues
      go on cache' replies d held (write_failed c') continues after = absurd continues
      go on cache' replies d held aborted continues after = absurd continues

  -- The connection waits or was closed by the client, and these replies were written, the latest
  -- first.
  abbrev pub EndReplied : List Bytes → End r → Type 0
  EndReplied replies (listening c) = c.written ≡ replies
  EndReplied replies (quitted c) = c.written ≡ replies
  EndReplied replies _ = ⊥

  both-Replied :
      (replies : List Bytes) (e : End r) (o : Round r)
      → EndMatches r e o
      → Replied replies o
      → EndReplied replies e
  both-Replied replies (listening c) (waiting d) same h = same.replies ∙ h
  both-Replied replies (quitted c) (closed d) same h = same.replies ∙ h
  both-Replied replies (broken c) (write_failed d) same h = h
  both-Replied replies crashed aborted same h = h
  both-Replied replies _ _ same h = absurd same

  -- A connection that waits with empty buffers, over a database that has the entries of a cache,
  -- and whose client sends well-formed requests, however cut into reads of one byte or more, and
  -- takes every reply, writes the replies of the conversation with that cache, up to the first
  -- quit, and then waits or is closed; the database behaves as a map and its writes succeed, the
  -- buffer follows its laws, and the stream is shorter than 2^63 bytes.
  pub handle-EndReplied :
      (c : Session r) (cache : Cache) (cmds : List Command) (chunks : List Bytes)
      → b.contents c.read_buf ≡ []
      → c.pending_storage ≡ none
      → Serves c cache
      → All IsWellFormed cmds
      → length (print_all cmds) < max_slice
      → All (λ chunk. chunk ≢ []) chunks
      → stream chunks ≡ print_all cmds
      → EndReplied
          (conversation clock c.executed cache cmds c.written)
          (handle r clock accepts c (reads chunks))
  handle-EndReplied c cache cmds chunks bare idle serves formed fits some_bytes cut =
      both-Replied _ _ _
        (handle-EndMatches r laws clock accepts c cmds chunks bare idle formed fits some_bytes cut)
        (run_all-Replied cmds (arrived r laws clock accepts c (print_all cmds)) cache
          (laws.contents-extend c.read_buf (print_all cmds) ∙ ap (λ s. s ++ print_all cmds) bare)
          formed (record { holds = serves.holds; nothing_left = serves.nothing_left }))
