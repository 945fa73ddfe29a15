-- ===== src/Base/Text.antt =====
-- Byte strings, the bytes of a literal, and equality of byte strings.
use Prim.Native.Nat.{ℕ, ◌<◌}
use Prim.Native.Char.{code}
use Prim.Native.String.{String}
use mathlib.Core.Path.{◌≡◌, refl, sym, ap, ◌∙◌}
use mathlib.Core.Logic.{◌≢◌, ◌↔◌, ◌⊎◌, inl, inr}
use mathlib.Core.Bool.{Bool, true, false, ◌&&◌}
use mathlib.Core.List.{List, [], ◌∷◌}
use native.Mathlib.Omega.{arith}
use petracache.Base.Tests.{◌==◌, Bool-cases}
use petracache.Base.Lists.{All}

abbrev pub Bytes : Type 0
Bytes = List ℕ

-- The bytes of an ASCII literal.
abbrev pub codes : String → Bytes
codes String.[] = []
codes (String.◌∷◌ c s) = code c ∷ codes s

abbrev pub IsByte : ℕ → Type 0
IsByte b = b < 256

abbrev pub IsBytes : Bytes → Type 0
IsBytes = All IsByte

-- No byte of the string is `b`.
abbrev pub Lacks : ℕ → Bytes → Type 0
Lacks b = All (λ c. c ≢ b)

-- `==` of byte slices.
unfoldable pub bytes_eq : Bytes → Bytes → Bool
bytes_eq [] [] = true
bytes_eq [] (b ∷ bs) = false
bytes_eq (a ∷ as_) [] = false
bytes_eq (a ∷ as_) (b ∷ bs) = a == b && bytes_eq as_ bs

pub bytes_eq→eq : (s t : Bytes) → bytes_eq s t ≡ true → s ≡ t
unfolding bytes_eq
bytes_eq→eq [] [] h = refl
bytes_eq→eq [] (b ∷ t) h = cc
bytes_eq→eq (a ∷ s) [] h = cc
bytes_eq→eq (a ∷ s) (b ∷ t) h = ground (arith, bytes_eq→eq s t)

pub bytes_eq_refl : (s : Bytes) → bytes_eq s s ≡ true
unfolding bytes_eq
bytes_eq_refl [] = refl
bytes_eq_refl (a ∷ s) = ground (arith, bytes_eq_refl s)

pub bytes_ne : (s t : Bytes) → s ≢ t → bytes_eq s t ≡ false
bytes_ne s t ne = elim (Bool-cases (bytes_eq s t)) [
  | inl same ↦ absurd (ne (bytes_eq→eq s t same))
  | inr differs ↦ differs
]

pub bytes_eq_iff : (s t : Bytes) → (bytes_eq s t ≡ true) ↔ (s ≡ t)
bytes_eq_iff s t = (bytes_eq→eq s t, (λ e. ap (bytes_eq s) (sym e) ∙ bytes_eq_refl s))

pub bytes_cases : (s t : Bytes) → (s ≡ t) ⊎ (s ≢ t)
bytes_cases s t = elim (Bool-cases (bytes_eq s t)) [
  | inl same ↦ inl (bytes_eq→eq s t same)
  | inr differs ↦ inr (λ e. clash (sym (bytes_eq_refl s) ∙ ap (bytes_eq s) e ∙ differs))
]
  where
    clash : true ≢ false
    clash e = cc
