-- ===== src/Protocol/Parser/Verb.antt =====
-- The command's name: `cmd_eq` compares without case, and `dispatch` takes the branch of the name.
use petracache.Base.{
  Bool-cases, Bytes, List, [], ap, arith, bytes_eq, bytes_eq_refl, codes, false, inl, inr, length,
  refl, suc, sym, true, ℕ, ◌+◌, ◌∙◌, ◌∷◌, ◌≡◌, ◌≢◌,
}
use petracache.Rust.Split.{to_ascii_lowercase}
use petracache.Result.{ok}
use petracache.Outcome.{returned}
use petracache.Protocol.Command.{version, quit}
use petracache.Protocol.Parser.{
  complete, SetLine, set_line, set_data, same_letters, cmd_eq, parse_get, parse_set, parse_delete,
  dispatch,
}

abbrev pub lowercase : Bytes → Bytes
lowercase [] = []
lowercase (c ∷ s) = to_ascii_lowercase c ∷ lowercase s

same_letters_sound :
    (cmd expected : Bytes)
    → length cmd ≡ length expected
    → same_letters cmd expected ≡ true
    → lowercase cmd ≡ expected
unfolding same_letters
same_letters_sound [] [] n h = refl
same_letters_sound [] (b ∷ t) n h = absurd (omega arith)
same_letters_sound (a ∷ s) [] n h = absurd (omega arith)
same_letters_sound (a ∷ s) (b ∷ t) n h = ground (arith, same_letters_sound s t (omega arith))

same_letters_complete : (cmd : Bytes) → same_letters cmd (lowercase cmd) ≡ true
unfolding same_letters
same_letters_complete [] = refl
same_letters_complete (a ∷ s) = ground (arith, same_letters_complete s)

length-lowercase : (s : Bytes) → length (lowercase s) ≡ length s
length-lowercase [] = refl
length-lowercase (c ∷ s) = ap suc (length-lowercase s)

-- The names are equal up to the case of the command's letters.
pub cmd_eq_sound : (cmd expected : Bytes) → cmd_eq cmd expected ≡ true → lowercase cmd ≡ expected
unfolding cmd_eq
cmd_eq_sound cmd expected h = same_letters_sound cmd expected (ground arith) (ground arith)

pub cmd_eq_complete : (cmd expected : Bytes) → lowercase cmd ≡ expected → cmd_eq cmd expected ≡ true
unfolding cmd_eq
cmd_eq_complete cmd expected h =
    rw (← h) (ground (arith, same_letters_complete cmd, length-lowercase cmd))

true_ne_false : true ≢ false
true_ne_false e = cc

pub cmd_eq_other :
    (cmd expected other : Bytes)
    → lowercase cmd ≡ expected
    → bytes_eq expected other ≡ false
    → cmd_eq cmd other ≡ false
cmd_eq_other cmd expected other h ne = elim (Bool-cases (cmd_eq cmd other)) [
  | inl same ↦ absurd (clash (sym h ∙ cmd_eq_sound cmd other same))
  | inr differs ↦ differs
]
  where
    clash : expected ≢ other
    clash e = true_ne_false (sym (bytes_eq_refl expected) ∙ ap (bytes_eq expected) e ∙ ne)

module _ (name : Bytes) (parts : List Bytes) (buf : Bytes) (line_end : ℕ) where
  pub dispatch_get :
      lowercase name ≡ codes "get"
      → dispatch (name ∷ parts) buf line_end ≡ returned (parse_get parts (line_end + 2))
  unfolding dispatch bytes_eq
  dispatch_get h = ground (arith, cmd_eq_complete name (codes "get") h)

  pub dispatch_set :
      lowercase name ≡ codes "set"
      → dispatch (name ∷ parts) buf line_end ≡ parse_set parts buf line_end
  unfolding dispatch bytes_eq
  dispatch_set h = ground (
    arith,
    cmd_eq_complete name (codes "set") h,
    cmd_eq_other name (codes "set") (codes "get") h refl,
  )

  pub dispatch_delete :
      lowercase name ≡ codes "delete"
      → dispatch (name ∷ parts) buf line_end ≡ returned (parse_delete parts (line_end + 2))
  unfolding dispatch bytes_eq
  dispatch_delete h = ground (
    arith,
    cmd_eq_complete name (codes "delete") h,
    cmd_eq_other name (codes "delete") (codes "get") h refl,
    cmd_eq_other name (codes "delete") (codes "set") h refl,
  )

  pub dispatch-version :
      lowercase name ≡ codes "version"
      → dispatch (name ∷ parts) buf line_end ≡ returned (complete version (line_end + 2))
  unfolding dispatch bytes_eq
  dispatch-version h = ground (
    arith,
    cmd_eq_complete name (codes "version") h,
    cmd_eq_other name (codes "version") (codes "get") h refl,
    cmd_eq_other name (codes "version") (codes "set") h refl,
    cmd_eq_other name (codes "version") (codes "delete") h refl,
  )

  pub dispatch_quit :
      lowercase name ≡ codes "quit"
      → dispatch (name ∷ parts) buf line_end ≡ returned (complete quit (line_end + 2))
  unfolding dispatch bytes_eq
  dispatch_quit h = ground (
    arith,
    cmd_eq_complete name (codes "quit") h,
    cmd_eq_other name (codes "quit") (codes "get") h refl,
    cmd_eq_other name (codes "quit") (codes "set") h refl,
    cmd_eq_other name (codes "quit") (codes "delete") h refl,
    cmd_eq_other name (codes "quit") (codes "version") h refl,
  )

pub parse_set_ok :
    (parts : List Bytes) (buf : Bytes) (line_end : ℕ) (l : SetLine)
    → set_line parts ≡ ok l
    → parse_set parts buf line_end ≡ set_data buf line_end l
unfolding parse_set
parse_set_ok parts buf line_end l h = rw (h, parse_set)
