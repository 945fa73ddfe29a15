-- ===== src/Server/Connection/Chunks.antt =====
-- How a stream of requests is cut into reads.
use petracache.Base.{
  ◌≢◌, All, Bool, Bytes, List, Option, [], ap, arith, length, length-append, none, refl, some, ℕ,
  ◌++◌, ◌<◌, ◌∙◌, ◌∷◌, ◌≡◌,
}
use petracache.Metrics.{besides_reads}
use petracache.Server.Handler.Agreement.{Agree}
use petracache.Server.Connection.{
  receive, handle, crashed, starved, quitted, broken, Session, Round, again, waiting, closed,
  write_failed, aborted, Event, received,
}
use petracache.Server.Connection.Matching.{EndMatches}
use petracache.Server.Connection.Pipeline.{arrived, print_all, length-print_all, run_all}
use petracache.Crates.Memchr.{Memchr}
use petracache.Crates.RocksDb.{RocksDb}
use petracache.Crates.BytesMut.{BytesMut, IsBuffer}
use petracache.Crates.Itoa.{Itoa}
use petracache.Protocol.Command.{Command}
use petracache.Protocol.Parser.Data.{max_slice}
use petracache.Protocol.Parser.Sound.{IsWellFormed}
use petracache.Protocol.Parser.Print.{print}
use petracache.Storage.Value.{Reading}
use petracache.Server.Connection.Partial.{Resumes-none}
use petracache.Server.Connection.Midway.{Mid, Short, Leads}
use petracache.Server.Connection.Onward.{receive-Leads}

-- The reads of these bytes, one after the other.
abbrev pub reads : List Bytes → List Event
reads [] = []
reads (chunk ∷ chunks) = received chunk ∷ reads chunks

-- The stream that the chunks make up.
abbrev pub stream : List Bytes → Bytes
stream [] = []
stream (chunk ∷ chunks) = chunk ++ stream chunks

module _ (r : RocksDb) ⦃m : Memchr⦄ ⦃b : BytesMut⦄ (laws : IsBuffer b) ⦃i : Itoa⦄
    (clock : ℕ → ℕ → Reading) (accepts : ℕ → Bool) where
  -- The rest of the stream, in chunks, beside its run at once.
  handle-Mid :
      (chunks : List Bytes) (cmds : List Command) (c d : Session r)
      → All (λ chunk. chunk ≢ []) chunks
      → Mid r laws clock accepts cmds (stream chunks) c d
      → Short r laws clock accepts cmds (b.contents c.read_buf)
      → EndMatches r (handle r clock accepts c (reads chunks)) (run_all r laws clock accepts d cmds)
  unfolding handle run_all
  handle-Mid [] [] c d some_bytes h short = h.matches
  handle-Mid [] (cmd ∷ cmds) c d some_bytes h short = absurd (
      omega (
        arith,
        ap length h.to_come,
        length-append {0} (b.contents c.read_buf) [],
        length-append {0} (print cmd) (print_all cmds),
      ))
  handle-Mid ([] ∷ chunks) cmds c d (some_byte, some_bytes) h short = absurd (some_byte refl)
  handle-Mid ((byte ∷ bytes) ∷ chunks) cmds c d (some_byte, some_bytes) h short =
      go (λ cmds' c' d' h' short'. handle-Mid chunks cmds' c' d' some_bytes h' short')
        (receive r clock accepts c (byte ∷ bytes)) (run_all r laws clock accepts d cmds)
        (receive-Leads r laws clock accepts cmds (byte ∷ bytes) (stream chunks) c d h)
    where
      go :
          ((cmds' : List Command) (c' d' : Session r)
            → Mid r laws clock accepts cmds' (stream chunks) c' d'
            → Short r laws clock accepts cmds' (b.contents c'.read_buf)
            → EndMatches r
                (handle r clock accepts c' (reads chunks))
                (run_all r laws clock accepts d' cmds'))
          → (o : Option (Round r)) (o' : Round r) → Leads r laws clock accepts (stream chunks) o' o
          → EndMatches r
              (elim o [
                | none ↦ starved
                | some (again c') ↦ handle r clock accepts c' (reads chunks)
                | some (waiting c') ↦ handle r clock accepts c' (reads chunks)
                | some (closed c') ↦ quitted c'
                | some (write_failed c') ↦ broken c'
                | some aborted ↦ crashed
              ])
              o'
      go on none o' leads = absurd leads
      go on (some (again c')) o' leads = absurd leads
      go on (some (waiting c')) o' (cmds', d', same, h', short') =
          rw same (on cmds' c' d' h' short')
      go on (some (closed c')) o' (d', same, matches) = rw same matches
      go on (some (write_failed c')) o' (d', same, matches) = rw same matches
      go on (some aborted) o' same = rw same tt

  Short-empty : (cmds : List Command) → Short r laws clock accepts cmds []
  Short-empty [] = tt
  Short-empty (cmd ∷ cmds) =
      omega (arith, length-print_all (cmd ∷ []), length-append {0} (print cmd) [])

  -- However a stream of well-formed requests is cut into reads of one byte or more, a connection
  -- that waits with an empty buffer and is served read by read ends, or waits, as the run of the
  -- requests one after the other does, with the same store, the same replies written, and the
  -- same calls on the metrics but for those that count bytes read; the buffer follows its laws
  -- and the stream is shorter than 2^63 bytes.
  pub handle-EndMatches :
      (c : Session r) (cmds : List Command) (chunks : List Bytes)
      → b.contents c.read_buf ≡ []
      → c.pending_storage ≡ none
      → All IsWellFormed cmds
      → length (print_all cmds) < max_slice
      → All (λ chunk. chunk ≢ []) chunks
      → stream chunks ≡ print_all cmds
      → EndMatches r
          (handle r clock accepts c (reads chunks))
          (run_all r laws clock accepts (arrived r laws clock accepts c (print_all cmds)) cmds)
  unfolding besides_reads Agree
  handle-EndMatches c cmds chunks bare idle formed fits some_bytes cut =
      handle-Mid chunks cmds c (arrived r laws clock accepts c (print_all cmds)) some_bytes
        (record {
          matches = record {
            servers = (refl, refl);
            responses = refl;
            replies = refl;
            commands = refl;
          };
          resumes = rw idle (Resumes-none (b.contents c.read_buf));
          to_come = rw bare cut;
          all_there =
              laws.contents-extend c.read_buf (print_all cmds) ∙ ap (λ s. s ++ print_all cmds) bare;
          formed = formed;
          fits = fits;
        })
        (rw bare (Short-empty cmds))
