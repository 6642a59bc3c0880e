-- ===== src/Base/Result.antt =====
-- An outcome of code that may throw: a value, or the exception.
use mathlib.Core.Path.{◌≡◌, subst}
use mathlib.Core.List.{List, [], ◌∷◌}

pub data Result {ℓ κ} (E : Type ℓ) (A : Type κ) : Type (ℓ ⊔ κ) where
  ok : A → Result E A
  err : E → Result E A

pub ok-injective {ℓ κ} :
    {E : Type ℓ} {A : Type κ} (a b : A) → ◌≡◌ {A = Result E A} (ok a) (ok b) → a ≡ b
ok-injective a b e = cc

infixl 5 ◌>>=◌
abbrev pub ◌>>=◌ {ℓ κ ι} :
    {E : Type ℓ} {A : Type κ} {B : Type ι} → Result E A → (A → Result E B) → Result E B
ok a >>= f = f a
err e >>= f = err e

-- A loop that a failing step leaves.
abbrev pub each {ℓ κ ι} :
    {E : Type ℓ} {S : Type κ} {A : Type ι} → (S → A → Result E S) → S → List A → Result E S
each step s [] = ok s
each step s (a ∷ xs) = step s a >>= λ t. each step t xs

-- A loop that cannot fail.
abbrev pub loop {κ ι} : {S : Type κ} {A : Type ι} → (S → A → S) → S → List A → S
loop step s [] = s
loop step s (a ∷ xs) = loop step (step s a) xs

-- What holds of the value, and what of the exception.
abbrev pub Sat {ℓ κ ι} :
    {E : Type ℓ} {A : Type κ} → (A → Type ι) → (E → Type ι) → Result E A → Type ι
Sat P Q (ok a) = P a
Sat P Q (err e) = Q e

module _ {ℓ κ ι} {E : Type ℓ} {A : Type κ} (Q : E → Type ι) where
  pub bind-Sat {ν} :
      {B : Type ν} (P : A → Type ι) (R : B → Type ι) (r : Result E A) (f : A → Result E B)
      → Sat P Q r
      → ((a : A) → P a → Sat R Q (f a))
      → Sat R Q (r >>= f)
  bind-Sat P R (ok a) f h k = k a h
  bind-Sat P R (err e) f h k = h

  pub Sat-map : (P R : A → Type ι) (r : Result E A) → ((a : A) → P a → R a) → Sat P Q r → Sat R Q r
  Sat-map P R (ok a) f h = f a h
  Sat-map P R (err e) f h = h

  pub Sat_ok : (P : A → Type ι) (r : Result E A) (a : A) → r ≡ ok a → Sat P Q r → P a
  Sat_ok P r a e h = subst (Sat P Q) e h

  pub Sat_err : (P : A → Type ι) (r : Result E A) (x : E) → r ≡ err x → Sat P Q r → Q x
  Sat_err P r x e h = subst (Sat P Q) e h
