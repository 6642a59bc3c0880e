-- ===== src/Base/Counts.antt =====
-- Counts over lists of numbers, and what a write or an update does to an entry.
use Prim.Native.Nat.{ℕ, zero, suc, ◌+◌, ◌≤◌, ◌<◌}
use mathlib.Core.Path.{◌≡◌, refl, ap}
use mathlib.Core.Logic.{◌≢◌, ◌⊎◌, inl, inr}
use mathlib.Core.List.{List, [], ◌∷◌, ◌++◌}
use native.Mathlib.Omega.{arith}
use baryonyx.Base.Bools.{◌==◌, if◌then◌else◌}
use baryonyx.Base.Lists.{length, get_or, set, modify}

-- How often a number stands in a list.
abbrev pub count : ℕ → List ℕ → ℕ
count a [] = 0
count a (x ∷ xs) = (if x == a then 1 else 0) + count a xs

-- How many entries are not 0.
abbrev pub nonzero : List ℕ → ℕ
nonzero [] = 0
nonzero (zero ∷ xs) = nonzero xs
nonzero (suc x ∷ xs) = suc (nonzero xs)

-- A write is seen at its index, or it changes nothing there.
pub get_or-set_cases :
    (xs : List ℕ) (i v j : ℕ)
    → ((get_or (set xs i v) j 0 ≡ v) × (i ≡ j)) ⊎ (get_or (set xs i v) j 0 ≡ get_or xs j 0)
get_or-set_cases [] i v j = inr refl
get_or-set_cases (x ∷ xs) zero v zero = inl (refl, refl)
get_or-set_cases (x ∷ xs) zero v (suc j) = inr refl
get_or-set_cases (x ∷ xs) (suc i) v zero = inr refl
get_or-set_cases (x ∷ xs) (suc i) v (suc j) = elim (get_or-set_cases xs i v j) [
  | inl (e, p) ↦ inl (e, ap suc p)
  | inr e ↦ inr e
]

pub get_or-set_live : (xs : List ℕ) (i v : ℕ) → get_or xs i 0 ≢ 0 → get_or (set xs i v) i 0 ≡ v
get_or-set_live [] i v h = absurd (h refl)
get_or-set_live (x ∷ xs) zero v h = refl
get_or-set_live (x ∷ xs) (suc i) v h = get_or-set_live xs i v h

pub nonzero-set_le : (xs : List ℕ) (i v : ℕ) → get_or xs i 0 ≢ 0 → nonzero (set xs i v) ≤ nonzero xs
nonzero-set_le [] i v h = absurd (h refl)
nonzero-set_le (zero ∷ xs) zero v h = absurd (h refl)
nonzero-set_le (suc x ∷ xs) zero zero h = omega arith
nonzero-set_le (suc x ∷ xs) zero (suc v) h = omega arith
nonzero-set_le (zero ∷ xs) (suc i) v h = nonzero-set_le xs i v h
nonzero-set_le (suc x ∷ xs) (suc i) v h = omega (arith, nonzero-set_le xs i v h)

pub nonzero-set_zero :
    (xs : List ℕ) (i : ℕ) → get_or xs i 0 ≢ 0 → nonzero (set xs i 0) + 1 ≤ nonzero xs
nonzero-set_zero [] i h = absurd (h refl)
nonzero-set_zero (zero ∷ xs) zero h = absurd (h refl)
nonzero-set_zero (suc x ∷ xs) zero h = omega arith
nonzero-set_zero (zero ∷ xs) (suc i) h = nonzero-set_zero xs i h
nonzero-set_zero (suc x ∷ xs) (suc i) h = omega (arith, nonzero-set_zero xs i h)

pub nonzero-le-length : (xs : List ℕ) → nonzero xs ≤ length xs
nonzero-le-length [] = omega arith
nonzero-le-length (zero ∷ xs) = omega (arith, nonzero-le-length xs)
nonzero-le-length (suc x ∷ xs) = omega (arith, nonzero-le-length xs)

-- An update is seen at its index, or it changes nothing there.
pub get_or-modify_cases {ℓ} :
    {A : Type ℓ} (xs : List A) (i : ℕ) (f : A → A) (j : ℕ) (d : A)
    → ((get_or (modify xs i f) j d ≡ f (get_or xs j d)) × (i ≡ j))
      ⊎ (get_or (modify xs i f) j d ≡ get_or xs j d)
get_or-modify_cases [] i f j d = inr refl
get_or-modify_cases (x ∷ xs) zero f zero d = inl (refl, refl)
get_or-modify_cases (x ∷ xs) zero f (suc j) d = inr refl
get_or-modify_cases (x ∷ xs) (suc i) f zero d = inr refl
get_or-modify_cases (x ∷ xs) (suc i) f (suc j) d = elim (get_or-modify_cases xs i f j d) [
  | inl (e, p) ↦ inl (e, ap suc p)
  | inr e ↦ inr e
]

pub get_or-modify_self {ℓ} :
    {A : Type ℓ} (xs : List A) (i : ℕ) (f : A → A) (d : A)
    → i < length xs
    → get_or (modify xs i f) i d ≡ f (get_or xs i d)
get_or-modify_self [] i f d h = absurd (omega arith)
get_or-modify_self (x ∷ xs) zero f d h = refl
get_or-modify_self (x ∷ xs) (suc i) f d h = get_or-modify_self xs i f d (omega arith)

pub count-append : (us vs : List ℕ) (n : ℕ) → count n (us ++ vs) ≡ count n us + count n vs
count-append [] vs n = omega arith
count-append (u ∷ us) vs n = let rest = count-append us vs n in omega arith
