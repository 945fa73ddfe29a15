-- ===== src/Rust/Trim/Words.antt =====
-- `str::split_whitespace`, on the UTF-8 bytes.
use petracache.Base.{Bytes, List, [], codes, drop, length, refl, suc, zero, ℕ, ◌++◌, ◌∷◌, ◌≡◌}
use petracache.Rust.Trim.{front, white_one, white_two, white_three}

close : Bytes → List Bytes
close [] = []
close (c ∷ s) = (c ∷ s) ∷ []

-- The words of the bytes, behind the start of a word. The fuel is the length.
words_from : ℕ → Bytes → Bytes → List Bytes
unfolding close
words_from zero word s = close word
words_from (suc f) word [] = close word
words_from (suc f) word (c ∷ s) = elim (front (c ∷ s)) [
  | zero ↦ words_from f (word ++ c ∷ []) s
  | suc n ↦ close word ++ words_from f [] (drop (suc n) (c ∷ s))
]

unfoldable pub split_whitespace : Bytes → List Bytes
unfolding words_from front white_one white_two white_three
split_whitespace s = words_from (length s) [] s

split_whitespace_test :
    split_whitespace (codes " GET  /ready HTTP/1.1" ++ b'\r' ∷ b'\n' ∷ [])
    ≡ codes "GET" ∷ codes "/ready" ∷ codes "HTTP/1.1" ∷ []
unfolding split_whitespace
split_whitespace_test = refl
