-- ===== src/Outcome.antt =====
-- Runs that may panic. The release profile aborts the process on a panic.
use petracache.Base.{
  Option, Bytes, drop, get_elem?, if◌then◌else◌, length, ltb, none, refl, some, take, ℕ, ◌-◌, ◌||◌,
  ◌≡◌,
}
use petracache.Result.{Result, ok, err}

pub data Outcome {ℓ} (A : Type ℓ) : Type ℓ where
  returned : A → Outcome A
  panicked : Outcome A

infixl 5 ◌>>=◌
abbrev pub ◌>>=◌ {ℓ κ} : {A : Type ℓ} {B : Type κ} → Outcome A → (A → Outcome B) → Outcome B
returned a >>= f = f a
panicked >>= f = panicked

pub >>=-eq-returned {ℓ κ} :
    {A : Type ℓ} {B : Type κ} (m : Outcome A) (f : A → Outcome B) {b : B}
    → (m >>= f) ≡ returned b
    → (a : A) × (m ≡ returned a) × (f a ≡ returned b)
>>=-eq-returned (returned a) f h = (a, refl, h)
>>=-eq-returned panicked f h = cc

-- `s[i]`
abbrev pub index : Bytes → ℕ → Outcome ℕ
index s i = elim (get_elem? s i) [ none ↦ panicked | some b ↦ returned b ]

-- `&s[start..end]`
abbrev pub slice : Bytes → ℕ → ℕ → Outcome Bytes
slice s start end =
    if ltb end start || ltb (length s) end
    then panicked
    else returned (take (end - start) (drop start s))

-- `unwrap` of a result.
abbrev pub unwrap {ℓ κ} : {A : Type ℓ} {E : Type κ} → Result A E → Outcome A
unwrap (ok a) = returned a
unwrap (err e) = panicked

-- `unwrap` of an option.
abbrev pub unwrap_option {ℓ} : {A : Type ℓ} → Option A → Outcome A
unwrap_option none = panicked
unwrap_option (some a) = returned a
