-- ===== src/Crates/BytesMut.antt =====
-- The crate bytes: a growable buffer, by its contents.
use petracache.Base.{Bytes, [], drop, length, ℕ, ◌++◌, ◌≡◌, ◌≤◌}

pub record BytesMut : Type 1 where
  pub Buf : Type 0
  pub contents : Buf → Bytes
  pub with_capacity : ℕ → Buf
  pub extend_from_slice : Buf → Bytes → Buf
  -- The buffer without its first bytes; the program drops what is split off.
  pub advance : Buf → ℕ → Buf
  pub clear : Buf → Buf
  -- `std::mem::take` leaves the default value.
  pub default : Buf

pub record IsBuffer (b : BytesMut) : Type 0 where
  pub contents-with_capacity : (n : ℕ) → b.contents (b.with_capacity n) ≡ []
  pub contents-extend :
      (s : b.Buf) (t : Bytes) → b.contents (b.extend_from_slice s t) ≡ b.contents s ++ t
  pub contents-advance :
      (s : b.Buf) (n : ℕ)
      → n ≤ length (b.contents s)
      → b.contents (b.advance s n) ≡ drop n (b.contents s)
  pub contents-clear : (s : b.Buf) → b.contents (b.clear s) ≡ []
  pub contents-default : b.contents b.default ≡ []
