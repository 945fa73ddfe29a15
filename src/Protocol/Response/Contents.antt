-- ===== src/Protocol/Response/Contents.antt =====
-- What the writer appends, by the buffer's laws.
use petracache.Base.{Bytes, [], append_assoc, codes, length, ℕ, ◌++◌, ◌∷◌, ◌≡◌}
use petracache.Rust.Integer.{to_string}
use petracache.Crates.BytesMut.{BytesMut, IsBuffer}
use petracache.Crates.Itoa.{Itoa}
use petracache.Protocol.Response.{
  ResponseWriter, buffer, value, end, server_error, client_error, stored, not_found, deleted,
}

abbrev pub crlf : Bytes
crlf = b'\r' ∷ b'\n' ∷ []

-- The reply line and data of one value.
unfoldable pub value_block : Bytes → ℕ → Bytes → Bytes
value_block key flags payload =
    codes "VALUE "
    ++ (key
        ++ (codes " "
            ++ (to_string flags
                ++ (codes " " ++ (to_string (length payload) ++ (crlf ++ (payload ++ crlf)))))))

module _ ⦃b : BytesMut⦄ (laws : IsBuffer b) (w : ResponseWriter) where
  pub buffer-value :
      ⦃i : Itoa⦄ (key : Bytes) (flags : ℕ) (payload : Bytes)
      → buffer (value w key flags payload) ≡ buffer w ++ value_block key flags payload
  unfolding value value_block
  buffer-value ⦃i⦄ key flags payload = simp (laws.contents-extend, i.format_lem, append_assoc)

  pub buffer-end : buffer (end w) ≡ buffer w ++ (codes "END" ++ crlf)
  unfolding end
  buffer-end = laws.contents-extend w.buf _

  pub buffer-stored : buffer (stored w) ≡ buffer w ++ (codes "STORED" ++ crlf)
  unfolding stored
  buffer-stored = laws.contents-extend w.buf _

  pub buffer-not_found : buffer (not_found w) ≡ buffer w ++ (codes "NOT_FOUND" ++ crlf)
  unfolding not_found
  buffer-not_found = laws.contents-extend w.buf _

  pub buffer-deleted : buffer (deleted w) ≡ buffer w ++ (codes "DELETED" ++ crlf)
  unfolding deleted
  buffer-deleted = laws.contents-extend w.buf _

  pub buffer-server_error :
      (message : Bytes)
      → buffer (server_error w message) ≡ buffer w ++ (codes "SERVER_ERROR " ++ (message ++ crlf))
  unfolding server_error
  buffer-server_error message = simp (laws.contents-extend, append_assoc)

  pub buffer-client_error :
      (message : Bytes)
      → buffer (client_error w message) ≡ buffer w ++ (codes "CLIENT_ERROR " ++ (message ++ crlf))
  unfolding client_error
  buffer-client_error message = simp (laws.contents-extend, append_assoc)
