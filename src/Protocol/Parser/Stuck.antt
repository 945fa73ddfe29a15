-- ===== src/Protocol/Parser/Stuck.antt =====
-- Requests whose first carriage return ends no line.
use petracache.Base.{Bytes, get_elem?, some, ℕ, ◌++◌, ◌+◌, ◌≡◌, ◌≢◌}
use petracache.Outcome.{returned}
use petracache.Crates.Memchr.{Memchr, position}
use petracache.Protocol.Parser.{need_more_data, parse}
use petracache.Protocol.Parser.Line.{find_crlf_lone, parse_open}

module _ ⦃m : Memchr⦄ where
  -- If the byte behind the first carriage return of the buffer is no newline, the parser asks for
  -- more bytes whatever arrives, also behind complete requests.
  pub parse_lone :
      (buf more : Bytes) (i c : ℕ)
      → position b'\r' buf ≡ some i
      → get_elem? buf (i + 1) ≡ some c
      → c ≢ b'\n'
      → parse (buf ++ more) ≡ returned need_more_data
  parse_lone buf more i c p n ne = parse_open (buf ++ more) (find_crlf_lone buf more i c p n ne)
