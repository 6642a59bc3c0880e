-- ===== src/Preprocess/Copy/Constraints.antt =====
-- The constraints of the preprocessed problem (`constraints_exclude_copy` of
-- lib/src/preprocessor.cpp) against the constraints that they are made of.
use baryonyx.Base.{
  ℕ, ◌≡◌, refl, sym, ap, ◌∙◌, Bool, true, false, List, [], ◌∷◌, ◌++◌, arith, ◌<◌, ◌⊎◌, inl, inr,
  ◌↔◌, All, if◌then◌else◌, leb, Bool-cases,
}
use baryonyx.Base.Int.{ℤ, pos, ◌+ℤ◌, ◌-ℤ◌, ◌*ℤ◌, int_laws, parts, zero-*ℤ, one-*ℤ, +ℤ-zero}
use baryonyx.Problem.{FunctionElement, Constraint, OperatorType}
use baryonyx.Problem.Sums.{dot, compute_function-dot, dot-append}
use baryonyx.Preprocess.{bit}
use baryonyx.Preprocess.Reduce.{HoldsAt, bits, accepts-balance}
use baryonyx.Preprocess.Mapping.{Mapped, kept, fixed, mapped}
use baryonyx.Preprocess.Copy.{copy_elements, copy_constraint, constraints_exclude_copy}

-- The assignment of the problem's variables that an assignment of the copy's stands for.
unfoldable pub restore : List Mapped → (ℕ → Bool) → ℕ → Bool
restore mapping y i = elim (mapped mapping i) [ kept c ↦ y c | fixed v ↦ v ]

pub Mapped-cases : (m : Mapped) → ((c : ℕ) × (m ≡ kept c)) ⊎ ((v : Bool) × (m ≡ fixed v))
Mapped-cases (kept c) = inl (c, refl)
Mapped-cases (fixed v) = inr (v, refl)

module _ (mapping : List Mapped) (y : ℕ → Bool) where
  pub restore-kept : (i c : ℕ) → mapped mapping i ≡ kept c → restore mapping y i ≡ y c
  unfolding restore
  restore-kept i c m = rw (m, restore) refl

  pub restore-fixed : (i : ℕ) (v : Bool) → mapped mapping i ≡ fixed v → restore mapping y i ≡ v
  unfolding restore
  restore-fixed i v m = rw (m, restore) refl

  abbrev x : ℕ → Bool
  x = restore mapping y

  fixed_case :
      (v : Bool) (value f p d n r : ℤ)
      → (if v then value -ℤ f else value) +ℤ n ≡ r +ℤ (p +ℤ d)
      → value +ℤ n ≡ r +ℤ (p +ℤ (bit v *ℤ f +ℤ d))
  fixed_case true value f p d n r h = let k = parts h in omega (int_laws, parts (one-*ℤ f))
  fixed_case false value f p d n r h = let k = parts h in omega (int_laws, parts (zero-*ℤ f))

  kept_case :
      (done e : List FunctionElement) (value n r d t : ℤ)
      → dot (done ++ e) (bits y) ≡ dot done (bits y) +ℤ (t +ℤ pos 0)
      → value +ℤ n ≡ r +ℤ (dot (done ++ e) (bits y) +ℤ d)
      → value +ℤ n ≡ r +ℤ (dot done (bits y) +ℤ (t +ℤ d))
  kept_case done e value n r d t split h = let j = parts split in let k = parts h in omega int_laws

  copy_elements-dot :
      (es done : List FunctionElement) (value : ℤ)
      → let r = copy_elements mapping done value es in
        value +ℤ dot r.1 (bits y) ≡ r.0 +ℤ (dot done (bits y) +ℤ dot es (bits x))
  unfolding copy_elements dot
  copy_elements-dot [] done value = ap (λ t. value +ℤ t) (sym (+ℤ-zero _))
  copy_elements-dot (e ∷ es) done value = elim (Mapped-cases (mapped mapping e.variable_index)) [
    | inl (c, m) ↦
        let ih =
          copy_elements-dot es (done ++ record { factor = e.factor; variable_index = c } ∷ [])
            value in
        rw (m, copy_elements, restore-kept e.variable_index c m)
          (kept_case done (record { factor = e.factor; variable_index = c } ∷ []) value _ _ _ _
            (dot-append done _ (bits y)) ih)
    | inr (v, m) ↦
        let ih = copy_elements-dot es done (if v then value -ℤ e.factor else value) in
        rw (m, copy_elements, restore-fixed e.variable_index v m)
          (fixed_case v value e.factor _ _ _ _ ih)
  ]

copied_balance : (a r d : ℤ) → a ≡ r +ℤ (pos 0 +ℤ d) → a ≡ r +ℤ d +ℤ pos 0
copied_balance a r d h = let k = parts h in omega int_laws

-- A constraint that is copied holds at an assignment of the copy's variables exactly if the original
-- holds at the assignment that it stands for, in which a variable that is gone has its value.
pub copy_constraint-HoldsAt :
    (mapping : List Mapped) (y : ℕ → Bool) (op : OperatorType) (c : Constraint)
    → HoldsAt op y (copy_constraint mapping c) ↔ HoldsAt op (restore mapping y) c
unfolding copy_constraint dot
copy_constraint-HoldsAt mapping y op c =
    let r = copy_elements mapping [] c.value c.elements in
    let same =
      accepts-balance op c.value r.0 (dot c.elements (bits (restore mapping y))) (dot r.1 (bits y))
        (copied_balance _ _ _ (copy_elements-dot mapping y c.elements [] c.value)) in
    rw (compute_function-dot c.elements, compute_function-dot r.1)
      (λ h. same ∙ h, λ h. sym same ∙ h)

-- The constraints with more than one element left hold at an assignment.
abbrev pub LiveHold : OperatorType → (ℕ → Bool) → List ℕ → List Constraint → Type 0
LiveHold op x sizes [] = Unit {0}
LiveHold op x [] (c ∷ cs) = Unit {0}
LiveHold op x (n ∷ sizes) (c ∷ cs) = (1 < n → HoldsAt op x c) × LiveHold op x sizes cs

-- The copied constraints hold at an assignment exactly if those with more than one element left hold
-- at the assignment that it stands for.
pub constraints_exclude_copy-LiveHold :
    (mapping : List Mapped) (y : ℕ → Bool) (op : OperatorType) (sizes : List ℕ)
    (cs : List Constraint)
    → All (HoldsAt op y) (constraints_exclude_copy mapping sizes cs)
      ↔ LiveHold op (restore mapping y) sizes cs
unfolding constraints_exclude_copy
constraints_exclude_copy-LiveHold mapping y op sizes [] = (λ h. h, λ h. h)
constraints_exclude_copy-LiveHold mapping y op [] (c ∷ cs) = (λ h. tt, λ h. tt)
constraints_exclude_copy-LiveHold mapping y op (n ∷ sizes) (c ∷ cs) =
    let ih = constraints_exclude_copy-LiveHold mapping y op sizes cs in
    let one = copy_constraint-HoldsAt mapping y op c in
    elim (Bool-cases (leb n 1)) [
      | inl t ↦ rw t (λ h. (λ k. absurd (ground arith), ih.0 h), λ h. ih.1 h.1)
      | inr f ↦ rw f (λ h. (λ k. one.0 h.0, ih.0 h.1), λ h. (one.1 (h.0 (ground arith)), ih.1 h.1))
    ]
