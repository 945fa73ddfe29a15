-- ===== src/Protocol/Parser/Print.antt =====
-- Requests as a client writes them, and that the parser reads them back.
use petracache.Base.{
  All, All-append, Bool, Bytes, Lacks, List, [], ap, arith, codes, false, length,
  take-append_length, true, ℕ, ◌++◌, ◌∙◌, ◌∷◌, ◌≡◌, ◌≤◌,
}
use petracache.Crates.Memchr.{Memchr}
use petracache.Rust.Integer.{to_string}
use petracache.Rust.Integer.Decimal.{IsDigit, to_string-IsDigit}
use petracache.Rust.Split.{split, split-append_sep, split_single}
use petracache.Protocol.Command.{Command, get, set, delete, version, quit, IsValidKey, IsKeyByte}
use petracache.Protocol.Parser.{dispatch, parse}
use petracache.Protocol.Parser.Line.{find_crlf-append_crlf, parse_found}

abbrev pub noreply_word : Bool → List Bytes
noreply_word true = codes "noreply" ∷ []
noreply_word false = []

-- The words of a request's line.
abbrev pub words : Command → List Bytes
words (get keys) = codes "get" ∷ keys
words (set key flags exptime payload noreply) =
    codes "set"
    ∷ key
    ∷ to_string flags
    ∷ to_string exptime
    ∷ to_string (length payload)
    ∷ noreply_word noreply
words (delete key noreply) = codes "delete" ∷ key ∷ noreply_word noreply
words version = codes "version" ∷ []
words quit = codes "quit" ∷ []

-- Words with single spaces between them.
abbrev pub join : List Bytes → Bytes
join [] = []
join (w ∷ []) = w
join (w ∷ v ∷ ws) = w ++ b' ' ∷ join (v ∷ ws)

abbrev pub crlf : Bytes
crlf = b'\r' ∷ b'\n' ∷ []

-- What follows the line.
abbrev pub block : Command → Bytes
block (set key flags exptime payload noreply) = payload ++ crlf
block _ = []

-- The request of a command.
unfoldable pub print : Command → Bytes
print cmd = join (words cmd) ++ (crlf ++ block cmd)

abbrev pub IsWord : Bytes → Type 0
IsWord = All IsKeyByte

word-Lacks : (c : ℕ) (s : Bytes) → c ≤ 32 → IsWord s → Lacks c s
word-Lacks c [] le h = tt
word-Lacks c (b ∷ s) le (hb, hs) = ((λ e. absurd (omega arith)), word-Lacks c s le hs)

split-join :
    (w : Bytes) (ws : List Bytes) → IsWord w → All IsWord ws → split b' ' (join (w ∷ ws)) ≡ w ∷ ws
split-join w [] h hs = split_single b' ' w (word-Lacks b' ' w (omega arith) h)
split-join w (v ∷ ws) h (hv, hs) =
    split-append_sep b' ' w (join (v ∷ ws)) (word-Lacks b' ' w (omega arith) h)
    ∙ ap (λ t. w ∷ t) (split-join v ws hv hs)

pub join-Lacks :
    (w : Bytes) (ws : List Bytes) → IsWord w → All IsWord ws → Lacks b'\r' (join (w ∷ ws))
join-Lacks w [] h hs = word-Lacks b'\r' w (omega arith) h
join-Lacks w (v ∷ ws) h (hv, hs) =
    All-append _ w (b' ' ∷ join (v ∷ ws)) (word-Lacks b'\r' w (omega arith) h)
      ((λ e. absurd (omega arith)), join-Lacks v ws hv hs)

digits-IsWord : (s : Bytes) → All IsDigit s → IsWord s
digits-IsWord [] h = tt
digits-IsWord (c ∷ s) (hc, hs) = (omega arith, digits-IsWord s hs)

pub number-IsWord : (n : ℕ) → IsWord (to_string n)
number-IsWord n = digits-IsWord (to_string n) (to_string-IsDigit n)

pub noreply-IsWord : (noreply : Bool) → All IsWord (noreply_word noreply)
noreply-IsWord true = (omega arith, tt)
noreply-IsWord false = tt

pub keys-IsWord : (keys : List Bytes) → All IsValidKey keys → All IsWord keys
keys-IsWord [] h = tt
keys-IsWord (key ∷ keys) (hk, hs) = (hk.printable, keys-IsWord keys hs)

-- The parse of a line of words in front of anything is the dispatch on the words.
module _ ⦃m : Memchr⦄ (w : Bytes) (ws : List Bytes) (hw : IsWord w) (hs : All IsWord ws) where
  pub parse_words :
      (rest : Bytes)
      → parse (join (w ∷ ws) ++ b'\r' ∷ b'\n' ∷ rest)
        ≡ dispatch (w ∷ ws) (join (w ∷ ws) ++ b'\r' ∷ b'\n' ∷ rest) (length (join (w ∷ ws)))
  parse_words rest =
      let line = join (w ∷ ws) in
      let whole = line ++ b'\r' ∷ b'\n' ∷ rest in
      parse_found whole (find_crlf-append_crlf line rest (join-Lacks w ws hw hs))
      ∙ ap (λ s. dispatch (split b' ' s) whole (length line))
          (take-append_length line (b'\r' ∷ b'\n' ∷ rest))
      ∙ ap (λ ps. dispatch ps whole (length line)) (split-join w ws hw hs)
