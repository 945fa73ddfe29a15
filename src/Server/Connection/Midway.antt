-- ===== src/Server/Connection/Midway.antt =====
-- A connection in the middle of a stream of requests.
use petracache.Base.{
  All, Bool, Bytes, List, Option, [], ap, length, none, refl, some, sym, ℕ, ◌++◌, ◌<◌, ◌∙◌, ◌∷◌,
  ◌≡◌,
}
use mathlib.Core.Path.{subst}
use petracache.Server.Connection.{
  Session, Round, again, waiting, closed, write_failed, aborted, new_pending, on_result, round,
}
use petracache.Server.Connection.Matching.{Matches}
use petracache.Server.Connection.Pipeline.{print_all, run_all}
use petracache.Outcome.{returned}
use petracache.Result.{Result, ok, err}
use petracache.Error.{ProtocolError}
use petracache.Crates.Memchr.{Memchr}
use petracache.Crates.RocksDb.{RocksDb}
use petracache.Crates.BytesMut.{BytesMut, IsBuffer}
use petracache.Crates.Itoa.{Itoa}
use petracache.Protocol.Command.{Command}
use petracache.Protocol.Parser.{
  need_more_data, PendingStorageCommand, parse, parse_storage_command_line,
}
use petracache.Protocol.Parser.Data.{max_slice}
use petracache.Protocol.Parser.Sound.{IsWellFormed}
use petracache.Protocol.Parser.Print.{print}
use petracache.Storage.Value.{Reading}
use petracache.Server.Connection.Partial.{Resumes, Resumes-here, Resumes-line}

module _ (r : RocksDb) ⦃m : Memchr⦄ ⦃b : BytesMut⦄ (laws : IsBuffer b) ⦃i : Itoa⦄
    (clock : ℕ → ℕ → Reading) (accepts : ℕ → Bool) where
  -- A connection in the middle of a stream, beside one that has the rest of the stream at once.
  pub record Mid (cmds : List Command) (future : Bytes) (c d : Session r) : Type 0 where
    pub matches : Matches r c d
    pub resumes : Resumes c.pending_storage (b.contents c.read_buf)
    pub to_come : b.contents c.read_buf ++ future ≡ print_all cmds
    pub all_there : b.contents d.read_buf ≡ print_all cmds
    pub formed : All IsWellFormed cmds
    pub fits : length (print_all cmds) < max_slice

  -- The next request is not there in full.
  abbrev pub Short : List Command → Bytes → Type 0
  Short [] buf = Unit
  Short (cmd ∷ cmds) buf = length buf < length (print cmd)

  -- The loop's end beside the run of the rest of the stream.
  abbrev pub Leads : Bytes → Round r → Option (Round r) → Type 0
  Leads future o (some (waiting c)) =
      (cmds : List Command) × (d : Session r) × (o ≡ run_all r laws clock accepts d cmds)
      × Mid cmds future c d
      × Short cmds (b.contents c.read_buf)
  Leads future o (some (closed c)) = (d : Session r) × (o ≡ closed d) × Matches r c d
  Leads future o (some (write_failed c)) = (d : Session r) × (o ≡ write_failed d) × Matches r c d
  Leads future o (some aborted) = o ≡ aborted
  Leads future o (some (again c)) = ⊥
  Leads future o none = ⊥

  new_pending-Mid :
      (cmds : List Command) (future : Bytes) (c d : Session r)
      → Mid cmds future c d
      → Mid cmds future (new_pending r c) d
        × (b.contents (new_pending r c).read_buf ≡ b.contents c.read_buf)
  unfolding new_pending
  new_pending-Mid cmds future c d h = old c.pending_storage refl
    where
      Kept : Session r → Type 0
      Kept c' = Mid cmds future c' d × (b.contents c'.read_buf ≡ b.contents c.read_buf)

      line :
          (o : Result (Option PendingStorageCommand) ProtocolError)
          → parse_storage_command_line (b.contents c.read_buf) ≡ o
          → Kept (elim o [
            | err e ↦ c
            | ok none ↦ c
            | ok (some pending) ↦ record c { pending_storage = some pending }
          ])
      line (err e) q = (h, refl)
      line (ok none) q = (h, refl)
      line (ok (some p)) q = (
        record {
          matches = record {
            servers = h.matches.servers;
            responses = h.matches.responses;
            replies = h.matches.replies;
            commands = h.matches.commands;
          };
          resumes = Resumes-line p (b.contents c.read_buf) q;
          to_come = h.to_come;
          all_there = h.all_there;
          formed = h.formed;
          fits = h.fits;
        },
        refl,
      )

      old :
          (pending : Option PendingStorageCommand)
          → c.pending_storage ≡ pending
          → Kept (elim pending [
            | some p ↦ c
            | none ↦ elim (parse_storage_command_line (b.contents c.read_buf)) [
              | err e ↦ c
              | ok none ↦ c
              | ok (some p) ↦ record c { pending_storage = some p }
            ]
          ])
      old (some p) q = (h, refl)
      old none q = line (parse_storage_command_line (b.contents c.read_buf)) refl

  -- A round that finds no request in full.
  pub round-Leads :
      (cmds : List Command) (future : Bytes) (c d : Session r)
      → Mid cmds future c d
      → Short cmds (b.contents c.read_buf)
      → parse (b.contents c.read_buf) ≡ returned need_more_data
      → (round r clock accepts c ≡ waiting (new_pending r c))
        × Leads future (run_all r laws clock accepts d cmds) (some (waiting (new_pending r c)))
  unfolding round on_result
  round-Leads cmds future c d h short more =
      let (kept, same) = new_pending-Mid cmds future c d h in
      (
        ap (on_result r clock accepts c)
            (Resumes-here c.pending_storage (b.contents c.read_buf) h.resumes ∙ more),
        (cmds, d, refl, kept, subst (Short cmds) (sym same) short),
      )
