-- ===== src/Health/Reply.antt =====
-- A reply, as a client cuts it up.
use petracache.Base.{
  All, All-append, Bytes, Lacks, Option, [], ap, arith, codes, drop, length, none, refl, some, suc,
  take, take-append_length, ℕ, ◌++◌, ◌+◌, ◌∙◌, ◌∷◌, ◌≡◌, ◌≢◌, ◌≤◌,
}
use petracache.Crates.Memchr.{position, position-append_Lacks}
use petracache.Rust.Integer.{max_u64, parse_uint, to_string}
use petracache.Rust.Integer.Decimal.{IsDigit, to_string-IsDigit, parse_uint-to_string}
use petracache.Health.{Answer, status_text, response}

abbrev crlf : Bytes
crlf = b'\r' ∷ b'\n' ∷ []

-- The line in front of the first carriage return, and what follows its line end.
unfoldable pub cut_line : Bytes → Option (Bytes × Bytes)
cut_line s = elim (position b'\r' s) [ none ↦ none | some i ↦ some (take i s, drop (i + 2) s) ]

pub record Reply : Type 0 where
  pub status_line : Bytes
  pub content_type : Bytes
  pub content_length : ℕ
  pub connection : Bytes
  pub empty_line : Bytes
  pub body : Bytes

infixl 5 ◌>>=◌
abbrev ◌>>=◌ {ℓ κ} : {A : Type ℓ} {B : Type κ} → Option A → (A → Option B) → Option B
none >>= f = none
some a >>= f = f a

-- Five lines and the body; the third line's number stands behind `Content-Length: `.
unfoldable pub read_reply : Bytes → Option Reply
unfolding cut_line
read_reply s = do
  (status_line, s) ← cut_line s
  (content_type, s) ← cut_line s
  (length_line, s) ← cut_line s
  (connection, s) ← cut_line s
  (empty_line, body) ← cut_line s
  content_length ← parse_uint max_u64 (drop 16 length_line)
  some (record {
    status_line = status_line;
    content_type = content_type;
    content_length = content_length;
    connection = connection;
    empty_line = empty_line;
    body = body;
  })

-- The reply that a client should find.
abbrev pub reply_of : Answer → Reply
reply_of a = record {
  status_line = codes "HTTP/1.1 " ++ (to_string a.status ++ (codes " " ++ status_text a.status));
  content_type = codes "Content-Type: " ++ a.content_type;
  content_length = length a.body;
  connection = codes "Connection: close";
  empty_line = [];
  body = a.body;
}

cut_line-crlf :
    (line rest : Bytes) → Lacks b'\r' line → cut_line (line ++ (crlf ++ rest)) ≡ some (line, rest)
unfolding cut_line
cut_line-crlf line rest h =
    rw (position-append_Lacks b'\r' line (b'\n' ∷ rest) h, cut_line)
      (rw (take-append_length line (crlf ++ rest), drop_line line))
  where
    drop_line : (line : Bytes) → drop (length line + 2) (line ++ (crlf ++ rest)) ≡ rest
    drop_line [] = refl
    drop_line (c ∷ line) =
        ap (λ n. drop n (c ∷ (line ++ (crlf ++ rest)))) (grow line) ∙ drop_line line
      where
        grow : (line : Bytes) → suc (length line) + 2 ≡ suc (length line + 2)
        grow line = omega arith

Lacks-digits : (s : Bytes) → All IsDigit s → Lacks b'\r' s
Lacks-digits [] h = tt
Lacks-digits (c ∷ s) (hc, hs) = ((λ e. absurd (omega arith)), Lacks-digits s hs)

Lacks-status_text : (status : ℕ) → Lacks b'\r' (status_text status)
unfolding status_text
Lacks-status_text status = ground arith

module _ (first second third fourth body : Bytes) where
  -- Four lines, an empty one and the body.
  abbrev lines : Bytes
  lines =
      first
      ++ (crlf ++ (second ++ (crlf ++ (third ++ (crlf ++ (fourth ++ (crlf ++ (crlf ++ body))))))))

  read_reply-lines :
      (n : ℕ)
      → Lacks b'\r' first
      → Lacks b'\r' second
      → Lacks b'\r' third
      → Lacks b'\r' fourth
      → parse_uint max_u64 (drop 16 third) ≡ some n
      → read_reply lines
        ≡ some (record {
          status_line = first;
          content_type = second;
          content_length = n;
          connection = fourth;
          empty_line = [];
          body = body;
        })
  unfolding read_reply
  read_reply-lines n h1 h2 h3 h4 parsed =
      rw (cut_line-crlf first _ h1, read_reply)
        (rw (cut_line-crlf second _ h2) (
          rw (cut_line-crlf third _ h3)
            (rw (cut_line-crlf fourth _ h4) (rw (cut_line-crlf [] body tt) (rw parsed)))))

-- A client that cuts the written bytes at their line ends reads back the status line, the content
-- type, a content length that is the length of the body in bytes, and the body; for a content
-- type without a carriage return and a body that a u64 can count.
pub read_reply-response :
    (a : Answer)
    → Lacks b'\r' a.content_type
    → length a.body ≤ max_u64
    → read_reply (response a) ≡ some (reply_of a)
unfolding response
read_reply-response a h le =
    read_reply-lines
      (codes "HTTP/1.1 " ++ (to_string a.status ++ (codes " " ++ status_text a.status)))
      (codes "Content-Type: " ++ a.content_type)
      (codes "Content-Length: " ++ to_string (length a.body)) (codes "Connection: close") a.body
      (length a.body)
      (All-append Keeps (codes "HTTP/1.1 ") _ (omega arith) (
        All-append Keeps (to_string a.status) _ (Lacks-digits _ (to_string-IsDigit a.status))
          (All-append Keeps (codes " ") _ (omega arith) (Lacks-status_text a.status))))
      (All-append Keeps (codes "Content-Type: ") _ (omega arith) h)
      (All-append Keeps (codes "Content-Length: ") _ (omega arith)
        (Lacks-digits _ (to_string-IsDigit (length a.body))))
      (omega arith) (parse_uint-to_string max_u64 (length a.body) le)
  where
    Keeps : ℕ → Type 0
    Keeps c = c ≢ b'\r'
