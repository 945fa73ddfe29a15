-- ===== src/Result.antt =====
-- `Result` and its `?`, and what the program uses of `Option`.
use mathlib.Core.Path.{subst}
use petracache.Base.{Bool, Option, false, if◌then◌else◌, none, refl, some, true, ◌≡◌}

-- The source's `Result`, at any levels.
pub data Result {ℓ κ} (Good : Type ℓ) (Bad : Type κ) : Type (ℓ ⊔ κ) where
  err : Bad → Result Good Bad
  ok : Good → Result Good Bad

-- The operator `?`: the first error is what the whole returns.
module _ {ℓ κ μ} {Bad : Type ℓ} {Good : Type κ} {Next : Type μ} where
  infixl 5 ◌>>=◌
  abbrev pub ◌>>=◌ : Result Good Bad → (Good → Result Next Bad) → Result Next Bad
  err why >>= step = err why
  ok got >>= step = step got

  pub >>=-eq-ok :
      (first : Result Good Bad) (step : Good → Result Next Bad) {out : Next}
      → (first >>= step) ≡ ok out
      → (got : Good) × (first ≡ ok got) × (step got ≡ ok out)
  >>=-eq-ok (err why) step done = cc
  >>=-eq-ok (ok got) step done = (got, refl, done)

-- What a result holds, if there is one.
pub Ensures {ℓ κ μ} : {A : Type ℓ} {E : Type κ} → (A → Type μ) → Result A E → Type μ
Ensures P (ok a) = P a
Ensures P (err e) = Unit

module _ {ℓ κ μ ν} {A : Type ℓ} {B : Type κ} {E : Type μ} (P : B → Type ν) where
  pub Ensures-bind :
      (m : Result A E) (f : A → Result B E)
      → ((a : A) → m ≡ ok a → Ensures P (f a))
      → Ensures P (m >>= f)
  unfolding Ensures
  Ensures-bind (ok a) f h = h a refl
  Ensures-bind (err e) f h = tt

pub Ensures-ok {ℓ κ μ} :
    {A : Type ℓ} (E : Type κ) (P : A → Type μ) (a : A) → P a → Ensures {E = E} P (ok a)
unfolding Ensures
Ensures-ok E P a h = h

module _ {ℓ κ μ} {A : Type ℓ} {E : Type κ} (P : A → Type μ) where
  pub Ensures-elim : (m : Result A E) {a : A} → Ensures P m → m ≡ ok a → P a
  unfolding Ensures
  Ensures-elim m h e = subst (Ensures P) e h

-- `Option::ok_or`
abbrev pub ok_or {ℓ κ} : {A : Type ℓ} {E : Type κ} → E → Option A → Result A E
ok_or e none = err e
ok_or e (some a) = ok a

-- What the error of a result has, if there is one.
pub Refuses {ℓ κ μ} : {A : Type ℓ} {E : Type κ} → (E → Type μ) → Result A E → Type μ
Refuses Q (ok a) = Unit
Refuses Q (err e) = Q e

module _ {ℓ κ μ ν} {A : Type ℓ} {B : Type κ} {E : Type μ} (Q : E → Type ν) where
  pub Refuses-bind :
      (m : Result A E) (f : A → Result B E)
      → Refuses Q m
      → ((a : A) → Refuses Q (f a))
      → Refuses Q (m >>= f)
  unfolding Refuses
  Refuses-bind (ok a) f h on = on a
  Refuses-bind (err e) f h on = h

pub Refuses-err {ℓ κ μ} :
    (A : Type ℓ) {E : Type κ} (Q : E → Type μ) (e : E) → Q e → Refuses {A = A} Q (err e)
unfolding Refuses
Refuses-err A Q e h = h

module _ {ℓ κ μ} {A : Type ℓ} {E : Type κ} (Q : E → Type μ) where
  pub Refuses-ok : (a : A) → Refuses {A = A} Q (ok a)
  unfolding Refuses
  Refuses-ok a = tt

  pub Refuses-ok_or : (e : E) (o : Option A) → Q e → Refuses Q (ok_or e o)
  unfolding Refuses
  Refuses-ok_or e none h = h
  Refuses-ok_or e (some a) h = tt

  pub Refuses-elim : (m : Result A E) {e : E} → Refuses Q m → m ≡ err e → Q e
  unfolding Refuses
  Refuses-elim m h e = subst (Refuses Q) e h

pub >>=-assoc {ℓ κ μ ν} :
    {A : Type ℓ} {B : Type κ} {C : Type μ} {E : Type ν} (m : Result A E) (f : A → Result B E)
    (g : B → Result C E)
    → ((m >>= f) >>= g) ≡ (m >>= λ a. f a >>= g)
>>=-assoc (ok a) f g = refl
>>=-assoc (err e) f g = refl

-- `Option::and_then`
abbrev pub and_then {ℓ κ} : {A : Type ℓ} {B : Type κ} → Option A → (A → Option B) → Option B
and_then none f = none
and_then (some a) f = f a

-- `Option::filter`
abbrev pub filter {ℓ} : {A : Type ℓ} → (A → Bool) → Option A → Option A
filter p none = none
filter p (some a) = if p a then some a else none

if_some {ℓ} :
    {A : Type ℓ} (b : Bool) {c a : A}
    → (if b then some c else none) ≡ some a
    → (some c ≡ some a) × (b ≡ true)
if_some true h = (h, refl)
if_some false h = cc

pub filter-some {ℓ} :
    {A : Type ℓ} (p : A → Bool) (o : Option A) {a : A}
    → filter p o ≡ some a
    → (o ≡ some a) × (p a ≡ true)
filter-some p none h = cc
filter-some p (some b) h = let (e, t) = if_some (p b) h in (e, cc)
