-- ===== src/Solver/Inequalities101/Sums.antt =====
-- The sums of the constraints in lib/src/itm-solver-inequalities-101.cpp.
use baryonyx.Base.{
  and_left, and_right, ℕ, suc, ◌+◌, ◌≡◌, ◌≤◌, ◌⊎◌, refl, sym, ap, ◌∙◌, true, false, List, [], ◌∷◌,
  ◌++◌, map, inl, inr, arith, length, length-append, get_or, Bool-cases,
}
use baryonyx.Base.Int.{
  ℤ, pos, negsuc, pos_part, neg_part, ltb_ℤ, ◌+ℤ◌, ◌*ℤ◌, ◌≤ℤ◌, *ℤ_comm, int_laws, zero-*ℤ, one-*ℤ,
  parts,
}
use baryonyx.Problem.{FunctionElement, compute_from}
use baryonyx.Problem.Sums.{dot}
use baryonyx.SparseMatrix.{row_accessors, row_value}
use baryonyx.Solver.{Solver, row_sum}
use baryonyx.Solver.Inequalities101.{
  is_unit, all_units, sign_of, signs, count_positive, count_negative,
}

sign_of-unit : (e : FunctionElement) → is_unit e ≡ true → sign_of e ≡ e.factor
unfolding is_unit sign_of
sign_of-unit e h = ground arith

get_or-append : (pre post : List ℤ) (s : ℤ) → get_or (pre ++ s ∷ post) (length pre) (pos 0) ≡ s
get_or-append [] post s = refl
get_or-append (p ∷ pre) post s = get_or-append pre post s

append_assoc : (pre post : List ℤ) (s : ℤ) → pre ++ s ∷ post ≡ (pre ++ s ∷ []) ++ post
append_assoc [] post s = refl
append_assoc (p ∷ pre) post s = ap (λ t. p ∷ t) (append_assoc pre post s)

-- A row sums up the elements, of which the list of the signs has the factors from `pre` on.
pub row_sum-signs :
    (slv : Solver) (x : ℕ → ℤ) (all pre post : List ℤ) (r : ℕ) (es : List FunctionElement) (v : ℤ)
    → ((k : ℕ) → slv.factor k ≡ get_or all k (pos 0))
    → all ≡ pre ++ (signs es ++ post)
    → all_units es ≡ true
    → row_sum slv x v (map row_value (row_accessors (length pre) r es)) ≡ compute_from v es x
unfolding row_sum row_accessors compute_from
row_sum-signs slv x all pre post r [] v factors split units = refl
row_sum-signs slv x all pre post r (e ∷ es) v factors split units =
    let unit : is_unit e ≡ true = and_left (is_unit e) (all_units es) units in
    let factor : slv.factor (length pre) ≡ e.factor =
      factors (length pre)
      ∙ ap (λ l. get_or l (length pre) (pos 0)) split
      ∙ get_or-append pre (signs es ++ post) (sign_of e)
      ∙ sign_of-unit e unit in
    let product : slv.factor (length pre) *ℤ x e.variable_index ≡ x e.variable_index *ℤ e.factor =
      ap (λ f. f *ℤ x e.variable_index) factor ∙ *ℤ_comm e.factor (x e.variable_index) in
    let size : length (pre ++ sign_of e ∷ []) ≡ suc (length pre) =
      omega (arith, length-append pre (sign_of e ∷ [])) in
    ap (λ p. row_sum slv x (v +ℤ p) (map row_value (row_accessors (suc (length pre)) r es))) product
    ∙ ap
        (λ n.
          row_sum slv x (v +ℤ x e.variable_index *ℤ e.factor)
            (map row_value (row_accessors n r es)))
        (sym size)
    ∙ row_sum-signs slv x all (pre ++ sign_of e ∷ []) post r es _ factors
        (split ∙ append_assoc pre (signs es ++ post) (sign_of e))
        (and_right (is_unit e) (all_units es) units)

abbrev pub Binary : (ℕ → ℤ) → Type 0
Binary x = (v : ℕ) → (x v ≡ pos 0) ⊎ (x v ≡ pos 1)

-- One element adds 0 or 1, or 0 or -1.
product-unit :
    (e : FunctionElement) (v : ℤ)
    → (v ≡ pos 0) ⊎ (v ≡ pos 1)
    → is_unit e ≡ true
    → (ltb_ℤ (pos 0) e.factor ≡ true → (pos 0 ≤ℤ v *ℤ e.factor) × (v *ℤ e.factor ≤ℤ pos 1))
      × (ltb_ℤ (pos 0) e.factor ≡ false → (negsuc 0 ≤ℤ v *ℤ e.factor) × (v *ℤ e.factor ≤ℤ pos 0))
unfolding is_unit
product-unit e v (inl off) unit =
    let nothing = parts (ap (λ t. t *ℤ e.factor) off ∙ zero-*ℤ e.factor) in
    (λ h. (omega arith, omega arith), λ h. (omega arith, omega arith))
product-unit e v (inr on) unit =
    let once = parts (ap (λ t. t *ℤ e.factor) on ∙ one-*ℤ e.factor) in
    (λ h. (ground arith, ground arith), λ h. (ground arith, ground arith))

-- The sum of a binary assignment is between the number of the negative factors and that of the others.
pub dot-range :
    (es : List FunctionElement) (x : ℕ → ℤ)
    → Binary x
    → all_units es ≡ true
    → (neg_part (dot es x) ≤ count_negative es + pos_part (dot es x))
      × (pos_part (dot es x) ≤ count_positive es + neg_part (dot es x))
unfolding dot count_positive count_negative
dot-range [] x binary units = (omega arith, omega arith)
dot-range (e ∷ es) x binary units =
    let rest = dot-range es x binary (and_right (is_unit e) (all_units es) units) in
    let unit = and_left (is_unit e) (all_units es) units in
    let product = product-unit e (x e.variable_index) (binary e.variable_index) unit in
    elim (Bool-cases (ltb_ℤ (pos 0) e.factor)) [
      | inl positive ↦
          let range = product.0 positive in
          let down : count_negative (e ∷ es) ≡ count_negative es = rw positive (omega arith) in
          let up : count_positive (e ∷ es) ≡ suc (count_positive es) = rw positive (omega arith) in
          (omega (int_laws, rest, range, down), omega (int_laws, rest, range, up))
      | inr negative ↦
          let range = product.1 negative in
          let down : count_negative (e ∷ es) ≡ suc (count_negative es) =
            rw negative (omega arith) in
          let up : count_positive (e ∷ es) ≡ count_positive es = rw negative (omega arith) in
          (omega (int_laws, rest, range, down), omega (int_laws, rest, range, up))
    ]
