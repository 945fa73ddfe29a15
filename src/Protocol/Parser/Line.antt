-- ===== src/Protocol/Parser/Line.antt =====
-- The end of the command line: what `find_crlf` finds, and that more bytes do not move it.
use petracache.Base.{
  Bytes, Lacks, ap, arith, get_elem?, get_elem?-append_left, get_elem?-append_length, get_elem?-lt,
  if◌then◌else◌, length, none, some, sym, take, true, ℕ, ◌++◌, ◌+◌, ◌==◌, ◌∙◌, ◌∷◌, ◌≡◌, ◌≢◌, ◌≤◌,
}
use petracache.Result.{filter, filter-some}
use petracache.Crates.Memchr.{
  Memchr, memchr-eq-position, position, position_found, position-append, position-append_Lacks,
}
use petracache.Outcome.{returned}
use petracache.Protocol.Parser.{newline_at, find_crlf, parse, parts_of, dispatch, need_more_data}

newline_at-true : (buf : Bytes) (i : ℕ) → newline_at buf i ≡ true → get_elem? buf i ≡ some b'\n'
unfolding newline_at
newline_at-true buf i h = ground arith

newline_at_of : (buf : Bytes) (i c : ℕ) → get_elem? buf i ≡ some c → newline_at buf i ≡ (c == b'\n')
unfolding newline_at
newline_at_of buf i c h = rw (h, newline_at)

module _ ⦃m : Memchr⦄ where
  find_crlf-position :
      (buf : Bytes) → find_crlf buf ≡ filter (λ i. newline_at buf (i + 1)) (position b'\r' buf)
  unfolding find_crlf
  find_crlf-position buf = ap (filter (λ i. newline_at buf (i + 1))) (memchr-eq-position b'\r' buf)

  find_crlf_at :
      (buf : Bytes) (i c : ℕ)
      → position b'\r' buf ≡ some i
      → get_elem? buf (i + 1) ≡ some c
      → find_crlf buf ≡ (if c == b'\n' then some i else none)
  find_crlf_at buf i c p n = rw (find_crlf-position buf, p) (rw (newline_at_of buf (i + 1) c n))

  position_of_crlf :
      (buf : Bytes) {e : ℕ}
      → find_crlf buf ≡ some e
      → (position b'\r' buf ≡ some e) × (get_elem? buf (e + 1) ≡ some b'\n')
  position_of_crlf buf {e} h =
      let (p, n) =
        filter-some (λ i. newline_at buf (i + 1)) (position b'\r' buf)
          (sym (find_crlf-position buf) ∙ h) in
      (p, newline_at-true buf (e + 1) n)

  -- The line ends at a CR LF, lies within the buffer and holds no carriage return.
  pub find_crlf_sound :
      (buf : Bytes) {e : ℕ}
      → find_crlf buf ≡ some e
      → (get_elem? buf e ≡ some b'\r')
        × (get_elem? buf (e + 1) ≡ some b'\n')
        × (e + 2 ≤ length buf)
        × Lacks b'\r' (take e buf)
  find_crlf_sound buf {e} h =
      let (p, n) = position_of_crlf buf h in
      let (c, lt, l) = position_found b'\r' buf p in
      (c, n, omega (arith, get_elem?-lt buf (e + 1) n), l)

  pub find_crlf-append :
      (buf more : Bytes) {e : ℕ} → find_crlf buf ≡ some e → find_crlf (buf ++ more) ≡ some e
  find_crlf-append buf more {e} h =
      let (p, n) = position_of_crlf buf h in
      let within = get_elem?-lt buf (e + 1) n in
      find_crlf_at (buf ++ more) e b'\n' (position-append b'\r' buf more p)
        (get_elem?-append_left buf more (e + 1) within ∙ n)

  -- A line in front of a CR LF is found.
  pub find_crlf-append_crlf :
      (line rest : Bytes)
      → Lacks b'\r' line
      → find_crlf (line ++ b'\r' ∷ b'\n' ∷ rest) ≡ some (length line)
  find_crlf-append_crlf line rest h =
      find_crlf_at (line ++ b'\r' ∷ b'\n' ∷ rest) (length line) b'\n'
        (position-append_Lacks b'\r' line _ h)
        (get_elem?-append_length line (b'\r' ∷ b'\n' ∷ rest) 1)

  -- The search looks at the first carriage return only: if another byte than a newline stands
  -- behind it, no line end is found, whatever follows.
  pub find_crlf_lone :
      (buf more : Bytes) (i c : ℕ)
      → position b'\r' buf ≡ some i
      → get_elem? buf (i + 1) ≡ some c
      → c ≢ b'\n'
      → find_crlf (buf ++ more) ≡ none
  find_crlf_lone buf more i c p n ne =
      let within = get_elem?-lt buf (i + 1) n in
      find_crlf_at (buf ++ more) i c (position-append b'\r' buf more p)
        (get_elem?-append_left buf more (i + 1) within ∙ n)
      ∙ ground arith

  -- `parse` with the line end known.
  pub parse_found :
      (buf : Bytes) {e : ℕ} → find_crlf buf ≡ some e → parse buf ≡ dispatch (parts_of buf e) buf e
  unfolding parse
  parse_found buf h = rw (h, parse)

  pub parse_open : (buf : Bytes) → find_crlf buf ≡ none → parse buf ≡ returned need_more_data
  unfolding parse
  parse_open buf h = rw (h, parse)
