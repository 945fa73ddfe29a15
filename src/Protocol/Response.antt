-- ===== src/Protocol/Response.antt =====
-- src/protocol/response.rs: the writer of replies, over the buffer of the crate bytes.
pub mod Contents
use petracache.Base.{Bool, Bytes, [], codes, is_empty, length, ℕ, ◌++◌, ◌∷◌}
use petracache.Crates.BytesMut.{BytesMut}
use petracache.Crates.Itoa.{Itoa}

module _ ⦃b : BytesMut⦄ where
  pub record ResponseWriter : Type 0 where
    pub buf : b.Buf

  unfoldable pub new : ℕ → ResponseWriter
  new capacity = record { buf = b.with_capacity capacity }

  abbrev pub buffer : ResponseWriter → Bytes
  buffer w = b.contents w.buf

  -- What was written, and the writer left empty.
  unfoldable pub take_buffer : ResponseWriter → Bytes × ResponseWriter
  take_buffer w = (buffer w, record { buf = b.default })

  unfoldable pub clear : ResponseWriter → ResponseWriter
  clear w = record { buf = b.clear w.buf }

  unfoldable pub no_response : ResponseWriter → Bool
  no_response w = is_empty (buffer w)

  abbrev extend : ResponseWriter → Bytes → ResponseWriter
  extend w s = record { buf = b.extend_from_slice w.buf s }

  unfoldable pub value : ⦃i : Itoa⦄ → ResponseWriter → Bytes → ℕ → Bytes → ResponseWriter
  value ⦃i⦄ w key flags payload =
      let w = extend w (codes "VALUE ") in
      let w = extend w key in
      let w = extend w (codes " ") in
      let w = extend w (i.format flags) in
      let w = extend w (codes " ") in
      let w = extend w (i.format (length payload)) in
      let w = extend w (b'\r' ∷ b'\n' ∷ []) in
      let w = extend w payload in extend w (b'\r' ∷ b'\n' ∷ [])

  unfoldable pub end : ResponseWriter → ResponseWriter
  end w = extend w (codes "END" ++ b'\r' ∷ b'\n' ∷ [])

  unfoldable pub stored : ResponseWriter → ResponseWriter
  stored w = extend w (codes "STORED" ++ b'\r' ∷ b'\n' ∷ [])

  unfoldable pub not_found : ResponseWriter → ResponseWriter
  not_found w = extend w (codes "NOT_FOUND" ++ b'\r' ∷ b'\n' ∷ [])

  unfoldable pub deleted : ResponseWriter → ResponseWriter
  deleted w = extend w (codes "DELETED" ++ b'\r' ∷ b'\n' ∷ [])

  unfoldable pub version : ResponseWriter → Bytes → ResponseWriter
  version w text =
      let w = extend w (codes "VERSION ") in let w = extend w text in extend w (b'\r' ∷ b'\n' ∷ [])

  unfoldable pub client_error : ResponseWriter → Bytes → ResponseWriter
  client_error w message =
      let w = extend w (codes "CLIENT_ERROR ") in
      let w = extend w message in extend w (b'\r' ∷ b'\n' ∷ [])

  unfoldable pub server_error : ResponseWriter → Bytes → ResponseWriter
  server_error w message =
      let w = extend w (codes "SERVER_ERROR ") in
      let w = extend w message in extend w (b'\r' ∷ b'\n' ∷ [])
