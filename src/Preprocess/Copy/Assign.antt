-- ===== src/Preprocess/Copy/Assign.antt =====
-- An assignment of the problem's variables, carried to the variables of the preprocessed problem by
-- the mapping of `make_problem` (lib/src/preprocessor.cpp).
use baryonyx.Base.{
  ℕ, zero, suc, ◌+◌, ◌<◌, ◌≡◌, refl, ap, ◌∙◌, Bool, false, List, [], ◌∷◌, none, some, arith, get_or,
  inl, inr, Option-cases, sym, subst,
}
use baryonyx.Preprocess.{VariableValues, find_value}
use baryonyx.Preprocess.Mapping.{kept, fixed, mapped, mapping_from}

-- The values of the variables that stay.
unfoldable pub chosen : VariableValues → (ℕ → Bool) → ℕ → ℕ → List Bool
chosen vars x i zero = []
chosen vars x i (suc n) =
    let rest = chosen vars x (suc i) n in
    elim (find_value vars i) [ none ↦ x i ∷ rest | some v ↦ rest ]

module _ (vars : VariableValues) where
  pub mapping_from-kept :
      (x : ℕ → Bool) (i c n j m : ℕ)
      → j < n
      → m ≡ i + j
      → find_value vars m ≡ none
      → (k : ℕ) × (mapped (mapping_from vars i c n) j ≡ kept (c + k))
        × (get_or (chosen vars x i n) k false ≡ x m)
  unfolding mapping_from chosen
  mapping_from-kept x i c zero j m h e unset = absurd (omega arith)
  mapping_from-kept x i c (suc n) zero m h e unset =
      let same : m ≡ i = omega arith in
      let here = subst (λ t. find_value vars t ≡ none) same unset in
      (0, rw (here, mapping_from) (ap kept (omega arith)), rw (here, chosen) (ap x (sym same)))
  mapping_from-kept x i c (suc n) (suc j) m h e unset = elim (Option-cases (find_value vars i)) [
    | inl here ↦
        let (k, p, q) =
          mapping_from-kept x (suc i) (suc c) n j m (omega arith) (omega arith) unset in
        (suc k, rw (here, mapping_from) (p ∙ ap kept (omega arith)), rw (here, chosen) q)
    | inr (v, here) ↦
        let (k, p, q) = mapping_from-kept x (suc i) c n j m (omega arith) (omega arith) unset in
        (k, rw (here, mapping_from) p, rw (here, chosen) q)
  ]

  pub mapping_from-fixed :
      (i c n j m : ℕ) (v : Bool)
      → j < n
      → m ≡ i + j
      → find_value vars m ≡ some v
      → mapped (mapping_from vars i c n) j ≡ fixed v
  unfolding mapping_from
  mapping_from-fixed i c zero j m v h e is_set = absurd (omega arith)
  mapping_from-fixed i c (suc n) zero m v h e is_set =
      let same : m ≡ i = omega arith in
      let here = subst (λ t. find_value vars t ≡ some v) same is_set in rw (here, mapping_from) refl
  mapping_from-fixed i c (suc n) (suc j) m v h e is_set = elim (Option-cases (find_value vars i)) [
    | inl here ↦
        rw (here, mapping_from)
          (mapping_from-fixed (suc i) (suc c) n j m v (omega arith) (omega arith) is_set)
    | inr (w, here) ↦
        rw (here, mapping_from)
          (mapping_from-fixed (suc i) c n j m v (omega arith) (omega arith) is_set)
  ]
