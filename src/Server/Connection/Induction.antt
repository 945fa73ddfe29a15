-- ===== src/Server/Connection/Induction.antt =====
-- Induction over the rounds of the inner loop and over the events of a run.
use petracache.Base.{
  Bool, Bytes, List, Option, [], length, none, refl, some, suc, zero, ℕ, ◌∷◌, ◌≡◌,
}
use mathlib.Core.Path.{subst}
use petracache.Crates.RocksDb.{RocksDb}
use petracache.Crates.Memchr.{Memchr}
use petracache.Crates.BytesMut.{BytesMut}
use petracache.Crates.Itoa.{Itoa}
use petracache.Storage.Value.{Reading}
use petracache.Server.Connection.{
  read_failed, cancelled, crashed, broken, finish, listening, quitted, aborted, starved, bytes_read,
  write_failed, received, inc_by, closed, waiting, call_metric, Event, round, End, again, receive,
  handle, process, Round, Session,
}

module _ (r : RocksDb) ⦃m : Memchr⦄ ⦃b : BytesMut⦄ ⦃i : Itoa⦄ (clock : ℕ → ℕ → Reading)
    (accepts : ℕ → Bool) where
  -- What holds of a session before a round holds of it before the next, and this of its last round.
  pub record IsInvariant (I : Session r → Type 0) (K : Round r → Type 0) : Type 0 where
    pub on_again : (c : Session r) → K (again c) → I c
    pub on_round : (c : Session r) → I c → K (round r clock accepts c)

  some_round : {x y : Round r} → ◌≡◌ {A = Option (Round r)} (some x) (some y) → x ≡ y
  some_round q = cc

  process_induction :
      (I : Session r → Type 0) (K : Round r → Type 0)
      → IsInvariant I K
      → (f : ℕ) (c : Session r) (o : Round r) → I c
      → process r clock accepts f c ≡ some o
      → K o
  unfolding process
  process_induction I K v zero c o h e = cc
  process_induction I K v (suc f) c o h e =
      go (process_induction I K v f) (round r clock accepts c) (v.on_round c h) e
    where
      go :
          ((c' : Session r) (o : Round r) → I c' → process r clock accepts f c' ≡ some o → K o)
          → (o' : Round r) → K o'
          → ◌≡◌ {A = Option (Round r)}
              (elim o' [
                | again c' ↦ process r clock accepts f c'
                | waiting c' ↦ some (waiting c')
                | closed c' ↦ some (closed c')
                | write_failed c' ↦ some (write_failed c')
                | aborted ↦ some aborted
              ])
              (some o)
          → K o
      go later (again c') k q = later c' o (v.on_again c' k) q
      go later (waiting c') k q = subst K (some_round q) k
      go later (closed c') k q = subst K (some_round q) k
      go later (write_failed c') k q = subst K (some_round q) k
      go later aborted k q = subst K (some_round q) k

  -- The same of a run: of the session before each event, and of the end.
  pub record IsRunInvariant (I : Session r → Type 0) (K : Round r → Type 0) (E : End r → Type 0)
      : Type 0 where
    pub rounds : IsInvariant I K
    pub on_bytes :
        (c : Session r) (bytes : Bytes)
        → I c
        → I (record (call_metric r c (inc_by bytes_read (length bytes))) {
          read_buf = b.extend_from_slice c.read_buf bytes;
        })
    pub on_waiting : (c : Session r) → K (waiting c) → I c
    pub on_listening : (c : Session r) → I c → E (listening c)
    pub on_finish : (c : Session r) → I c → E (finish r c)
    pub on_closed : (c : Session r) → K (closed c) → E (quitted c)
    pub on_write_failed : (c : Session r) → K (write_failed c) → E (broken c)
    pub on_crashed : E crashed
    pub on_starved : E starved

  receive_induction :
      (I : Session r → Type 0) (K : Round r → Type 0) (E : End r → Type 0)
      → IsRunInvariant I K E
      → (c : Session r) (bytes : Bytes) (o : Round r) → I c
      → receive r clock accepts c bytes ≡ some o
      → K o
  unfolding receive
  receive_induction I K E v c bytes o h e =
      process_induction I K v.rounds _ _ o (v.on_bytes c bytes h) e

  pub handle_induction :
      (I : Session r → Type 0) (K : Round r → Type 0) (E : End r → Type 0)
      → IsRunInvariant I K E
      → (c : Session r) (events : List Event) → I c
      → E (handle r clock accepts c events)
  unfolding handle
  handle_induction I K E v c [] h = v.on_listening c h
  handle_induction I K E v c (cancelled ∷ events) h = v.on_finish c h
  handle_induction I K E v c (received [] ∷ events) h = v.on_finish c h
  handle_induction I K E v c (read_failed ∷ events) h = v.on_finish c h
  handle_induction I K E v c (received (byte ∷ bytes) ∷ events) h =
      go (λ c'. handle_induction I K E v c' events) (receive r clock accepts c (byte ∷ bytes))
        (λ o. receive_induction I K E v c (byte ∷ bytes) o h)
    where
      go :
          ((c' : Session r) → I c' → E (handle r clock accepts c' events))
          → (o : Option (Round r)) → ((o' : Round r) → o ≡ some o' → K o')
          → E (elim o [
            | none ↦ starved
            | some (again c') ↦ handle r clock accepts c' events
            | some (waiting c') ↦ handle r clock accepts c' events
            | some (closed c') ↦ quitted c'
            | some (write_failed c') ↦ broken c'
            | some aborted ↦ crashed
          ])
      go later none k = v.on_starved
      go later (some (again c')) k = later c' (v.rounds.on_again c' (k (again c') refl))
      go later (some (waiting c')) k = later c' (v.on_waiting c' (k (waiting c') refl))
      go later (some (closed c')) k = v.on_closed c' (k (closed c') refl)
      go later (some (write_failed c')) k = v.on_write_failed c' (k (write_failed c') refl)
      go later (some aborted) k = v.on_crashed
