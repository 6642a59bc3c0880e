-- ===== src/ExhaustiveSolver/Entries.antt =====
-- The set of constraints of lib/src/exhaustive-solver.hpp, after `emplace`.
use baryonyx.Base.{
  ℕ, ◌≡◌, ◌≢◌, sym, ap, ◌∙◌, Bool, true, false, List, [], ◌∷◌, inl, inr, arith, none, some, ◌==◌,
  if◌then◌else◌, Bool-cases,
}
use baryonyx.ExhaustiveSolver.{ConstraintInfo, find_info, emplace_info}

pub if_true : {A : Type 0} (b : Bool) (x y : A) → b ≡ true → x ≡ (if b then x else y)
if_true b x y e = rw e

pub if_false : {A : Type 0} (b : Bool) (x y : A) → b ≡ false → y ≡ (if b then x else y)
if_false b x y e = rw e

found : (c : ConstraintInfo) → ¬ (some c ≡ none)
found c h = cc

pub find_info-emplace_info :
    (c : ConstraintInfo) (cs : List ConstraintInfo)
    → find_info c.k cs ≡ none
    → find_info c.k (emplace_info c cs) ≡ some c
find_info-emplace_info c [] h = ground arith
find_info-emplace_info c (d ∷ ds) h = elim (Bool-cases (d.k == c.k)) [
  | inl e ↦ absurd (found d (if_true (d.k == c.k) (some d) (find_info c.k ds) e ∙ h))
  | inr e ↦
      rw (e, e)
        (find_info-emplace_info c ds (if_false (d.k == c.k) (some d) (find_info c.k ds) e ∙ h))
]

differ : (a b : ℕ) → a ≢ b → (a == b) ≡ false
differ a b h = ground arith

pub find_info-emplace_ne :
    (c : ConstraintInfo) (cs : List ConstraintInfo) (j : ℕ)
    → c.k ≢ j
    → find_info j (emplace_info c cs) ≡ find_info j cs
find_info-emplace_ne c [] j h = sym (if_false (c.k == j) (some c) none (differ c.k j h))
find_info-emplace_ne c (d ∷ ds) j h = elim (Bool-cases (d.k == c.k)) [
  | inl e ↦ ap (find_info j) (sym (if_true (d.k == c.k) (d ∷ ds) (d ∷ emplace_info c ds) e))
  | inr e ↦
      ap (find_info j) (sym (if_false (d.k == c.k) (d ∷ ds) (d ∷ emplace_info c ds) e))
      ∙ ap (λ t. if d.k == j then some d else t) (find_info-emplace_ne c ds j h)
]
