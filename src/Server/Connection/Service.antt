-- ===== src/Server/Connection/Service.antt =====
-- A connection is served as long as events come.
use petracache.Base.{Bool, List, Option, [], arith, length, none, some, ℕ, ◌+◌, ◌<◌, ◌∷◌, ◌≢◌}
use petracache.Crates.Memchr.{Memchr}
use petracache.Crates.RocksDb.{RocksDb}
use petracache.Crates.BytesMut.{BytesMut, IsBuffer}
use petracache.Crates.Itoa.{Itoa}
use petracache.Storage.Value.{Reading}
use petracache.Protocol.Parser.Data.{max_slice}
use petracache.Server.Connection.{
  Session, Round, again, waiting, closed, write_failed, aborted, Event, cancelled, received,
  read_failed, End, quitted, broken, crashed, starved, receive, handle, finish,
}
use petracache.Server.Connection.Progress.{Leaves, receive-Leaves}

-- The bytes that the events bring.
abbrev pub incoming : List Event → ℕ
incoming [] = 0
incoming (received bytes ∷ events) = length bytes + incoming events
incoming (_ ∷ events) = incoming events

module _ (r : RocksDb) ⦃m : Memchr⦄ ⦃b : BytesMut⦄ (laws : IsBuffer b) ⦃i : Itoa⦄
    (clock : ℕ → ℕ → Reading) (accepts : ℕ → Bool) where
  -- No run of a connection is cut short for want of fuel: it ends in one of the ways of the code,
  -- or waits for the next event, as long as the buffer follows its laws and the bytes that arrive
  -- with those in it are fewer than 2^63.
  pub handle_total :
      (c : Session r) (events : List Event)
      → length (b.contents c.read_buf) + incoming events < max_slice
      → handle r clock accepts c events ≢ starved
  unfolding handle finish Leaves
  handle_total c [] fits = λ e. cc
  handle_total c (cancelled ∷ events) fits = λ e. cc
  handle_total c (received [] ∷ events) fits = λ e. cc
  handle_total c (read_failed ∷ events) fits = λ e. cc
  handle_total c (received (byte ∷ bytes) ∷ events) fits =
      go (λ c' fits'. handle_total c' events fits') (receive r clock accepts c (byte ∷ bytes))
        (receive-Leaves r laws clock accepts c (byte ∷ bytes) (omega arith))
    where
      go :
          ((c' : Session r)
            → length (b.contents c'.read_buf) + incoming events < max_slice
            → handle r clock accepts c' events ≢ starved)
          → (o : Option (Round r))
          → Leaves r laws clock accepts (length (b.contents c.read_buf) + length (byte ∷ bytes)) o
          → ◌≢◌ {A = End r}
              (elim o [
                | none ↦ starved
                | some (again c') ↦ handle r clock accepts c' events
                | some (waiting c') ↦ handle r clock accepts c' events
                | some (closed c') ↦ quitted c'
                | some (write_failed c') ↦ broken c'
                | some aborted ↦ crashed
              ])
              starved
      go later none left = absurd left
      go later (some (again c')) left = absurd left
      go later (some (waiting c')) left = later c' (omega arith)
      go later (some (closed c')) left = λ e. cc
      go later (some (write_failed c')) left = λ e. cc
      go later (some aborted) left = λ e. cc
