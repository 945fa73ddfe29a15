-- ===== src/Server/Connection/Onward.antt =====
-- The loop over a part of a stream of requests, and the arrival of the next part.
use petracache.Base.{
  Bool, Bytes, List, [], ap, append_assoc, arith, drop, length, length-append, refl, some, suc,
  zero, ℕ, ◌++◌, ◌<◌, ◌∙◌, ◌∷◌, ◌≡◌, ◌≤◌,
}
use native.Mathlib.Decide.{dec_lt}
use petracache.Metrics.{besides_reads}
use petracache.Server.Handler.Agreement.{Agree}
use petracache.Server.Connection.{
  receive, Session, Round, again, waiting, closed, write_failed, aborted, on_complete, on_result,
  process,
}
use petracache.Server.Connection.Matching.{RoundMatches, on_complete-RoundMatches}
use petracache.Server.Connection.Pipeline.{
  arrived, print_all, length-print_all, empty_open, run_all, After, on_complete-After,
}
use petracache.Crates.Memchr.{Memchr}
use petracache.Crates.RocksDb.{RocksDb}
use petracache.Crates.BytesMut.{BytesMut, IsBuffer}
use petracache.Crates.Itoa.{Itoa}
use petracache.Protocol.Command.{Command}
use petracache.Protocol.Parser.{parse}
use petracache.Protocol.Parser.Line.{parse_open}
use petracache.Protocol.Parser.Print.{print}
use petracache.Protocol.Parser.RoundTrip.{parse-print}
use petracache.Storage.Value.{Reading}
use petracache.Server.Connection.Partial.{
  append-nil_left, parted, parse_short, Resumes-none, Resumes-append, Resumes-here,
}
use petracache.Server.Connection.Midway.{Mid, Leads, round-Leads}

module _ (r : RocksDb) ⦃m : Memchr⦄ ⦃b : BytesMut⦄ (laws : IsBuffer b) ⦃i : Itoa⦄
    (clock : ℕ → ℕ → Reading) (accepts : ℕ → Bool) where
  -- The loop over the bytes that are there, beside the run of the whole stream.
  process-Leads :
      (f : ℕ) (cmds : List Command) (future : Bytes) (c d : Session r)
      → Mid r laws clock accepts cmds future c d
      → length (b.contents c.read_buf) < f
      → Leads r laws clock accepts future
          (run_all r laws clock accepts d cmds)
          (process r clock accepts f c)
  unfolding process run_all
  process-Leads zero cmds future c d h lt = absurd (omega arith)
  process-Leads (suc f) [] future c d h lt =
      let bare = append-nil_left (b.contents c.read_buf) future h.to_come in
      let (ends, leads) =
        round-Leads r laws clock accepts [] future c d h tt
          (ap parse bare ∙ parse_open [] empty_open) in
      rw (ends, process) leads
  process-Leads (suc f) (cmd ∷ cmds) future c d h lt =
      elim (dec_lt (length (b.contents c.read_buf)) (length (print cmd))) [
        | yes short ↦
            let (ends, leads) = round-Leads r laws clock accepts (cmd ∷ cmds) future c d h short (
              parse_short (b.contents c.read_buf) future (print_all cmds) cmd h.to_come h.formed.0
                h.fits short) in
            rw (ends, process) leads
        | no there ↦
            let n = length (print cmd) in
            let le : n ≤ length (b.contents c.read_buf) = omega arith in
            let (at, later) =
              parted (b.contents c.read_buf) future (print cmd) (print_all cmds) h.to_come le in
            let rest = drop n (b.contents c.read_buf) in
            let read =
              ap parse at
              ∙ parse-print rest cmd h.formed.0 (
                  omega (
                    arith,
                    h.fits,
                    ap length h.to_come,
                    ap length at,
                    length-append {0} (b.contents c.read_buf) future,
                  )) in
            rw
              (
                ap (on_result r clock accepts c)
                    (Resumes-here c.pending_storage (b.contents c.read_buf) h.resumes ∙ read),
                process,
              )
              (go (λ c' d' h' lt'. process-Leads f cmds future c' d' h' lt') rest later
                (omega (
                  arith,
                  ap length at,
                  length-append {0} (print cmd) rest,
                  length-print_all (cmd ∷ []),
                  length-append {0} (print cmd) [],
                ))
                (on_complete r clock accepts c cmd n) (on_complete r clock accepts d cmd n)
                (on_complete-RoundMatches r clock accepts c d cmd n h.matches le (
                  omega
                    (arith, ap length h.all_there, length-append {0} (print cmd) (print_all cmds))))
                (on_complete-After r laws clock accepts c cmd rest at)
                (on_complete-After r laws clock accepts d cmd (print_all cmds) h.all_there))
      ]
    where
      go :
          ((c' d' : Session r)
            → Mid r laws clock accepts cmds future c' d'
            → length (b.contents c'.read_buf) < f
            → Leads r laws clock accepts future
                (run_all r laws clock accepts d' cmds)
                (process r clock accepts f c'))
          → (rest : Bytes) → rest ++ future ≡ print_all cmds
          → length rest < f
          → (o o' : Round r) → RoundMatches r o o'
          → After r laws clock accepts rest o
          → After r laws clock accepts (print_all cmds) o'
          → Leads r laws clock accepts future
              (elim o' [
                | again d' ↦ run_all r laws clock accepts d' cmds
                | waiting d' ↦ waiting d'
                | closed d' ↦ closed d'
                | write_failed d' ↦ write_failed d'
                | aborted ↦ aborted
              ])
              (elim o [
                | again c' ↦ process r clock accepts f c'
                | waiting c' ↦ some (waiting c')
                | closed c' ↦ some (closed c')
                | write_failed c' ↦ some (write_failed c')
                | aborted ↦ some aborted
              ])
      go on rest later less (again c') (again d') same (left, idle) (left', idle') =
          on c' d'
            (record {
              matches = same;
              resumes = rw idle (Resumes-none (b.contents c'.read_buf));
              to_come = rw left later;
              all_there = left';
              formed = h.formed.1;
              fits = omega (arith, h.fits, length-append {0} (print cmd) (print_all cmds));
            })
            (rw left less)
      go on rest later less (waiting c') o' same after after' = absurd after
      go on rest later less (closed c') (closed d') same after after' = (d', refl, same)
      go on rest later less (write_failed c') (write_failed d') same after after' = (d', refl, same)
      go on rest later less aborted aborted same after after' = refl
      go on rest later less _ _ same after after' = absurd same

  pub receive-Leads :
      (cmds : List Command) (chunk future : Bytes) (c d : Session r)
      → Mid r laws clock accepts cmds (chunk ++ future) c d
      → Leads r laws clock accepts future
          (run_all r laws clock accepts d cmds)
          (receive r clock accepts c chunk)
  unfolding receive besides_reads Agree
  receive-Leads cmds chunk future c d h =
      let held = laws.contents-extend c.read_buf chunk in
      process-Leads _ cmds future (arrived r laws clock accepts c chunk) d
        (record {
          matches = record {
            servers = h.matches.servers;
            responses = h.matches.responses;
            replies = h.matches.replies;
            commands = h.matches.commands;
          };
          resumes =
              rw held (Resumes-append c.pending_storage (b.contents c.read_buf) chunk h.resumes);
          to_come = rw held (append_assoc (b.contents c.read_buf) chunk future ∙ h.to_come);
          all_there = h.all_there;
          formed = h.formed;
          fits = h.fits;
        })
        (omega arith)
