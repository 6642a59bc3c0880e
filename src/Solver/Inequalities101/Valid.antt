-- ===== src/Solver/Inequalities101/Valid.antt =====
-- The check of an assignment by the solver of lib/src/itm-solver-inequalities-101.cpp against the
-- constraints that it is made of.
use baryonyx.Base.{
  and_left, and_right, ℕ, zero, suc, ◌+◌, ◌≤◌, ◌≡◌, ◌↔◌, refl, sym, ap, ap₂, subst, ◌∙◌, true, List,
  [], ◌∷◌, ◌++◌, map, ◌&&◌, inl, inr, arith, none, some, length, length-append, get_elem?, get_or,
  All, Bool-cases, Option-cases,
}
use mathlib.Core.Option.{some-injective}
use baryonyx.Base.Int.{ℤ, pos, pos_part, neg_part, sub_ℕ, leb_ℤ, eqb_ℤ, ◌≤ℤ◌, max_ℤ-le, le-min_ℤ}
use baryonyx.Problem.{FunctionElement, compute_function}
use baryonyx.Problem.Sums.{compute_function-dot}
use baryonyx.Merge.{MergedConstraint}
use baryonyx.Merge.Sound.{Holds}
use baryonyx.SparseMatrix.{SparseMatrix, make_matrix, row_accessors, row_value}
use baryonyx.SparseMatrix.Accessors.{InColumns, offset}
use baryonyx.SparseMatrix.Entries.{row-make_matrix}
use baryonyx.Solver.{Solver, row_sum, is_valid_constraint, valid_from, is_valid_solution}
use baryonyx.Solver.Inequalities101.{
  BoundFactor, all_units, signs, all_signs, count_positive, count_negative, bound_of, is_ensured,
  all_ensured, no_bound, entries_or_none, solver_of, make_solver,
}
use baryonyx.Solver.Inequalities101.Sums.{Binary, row_sum-signs, dot-range}

-- For a sum of a binary assignment, the bounds of the solver are those of the constraint.
bound_of-Holds :
    (c : MergedConstraint) (s : ℤ)
    → neg_part s ≤ count_negative c.elements + pos_part s
    → pos_part s ≤ count_positive c.elements + neg_part s
    → ((leb_ℤ (bound_of c).min_value s && leb_ℤ s (bound_of c).max_value) ≡ true)
      ↔ ((c.min ≤ℤ s) × (s ≤ℤ c.max))
unfolding bound_of
bound_of-Holds c s low high = elim (Bool-cases (eqb_ℤ c.min c.max)) [
  | inl e ↦ rw e (λ h. (ground arith, ground arith), λ h. ground arith)
  | inr e ↦ rw e (
      ground (
        arith,
        max_ℤ-le s (sub_ℕ 0 (count_negative c.elements)) c.min,
        le-min_ℤ s (pos (count_positive c.elements)) c.max,
      ))
]

append_assoc : {A : Type 0} (xs ys zs : List A) → (xs ++ ys) ++ zs ≡ xs ++ (ys ++ zs)
append_assoc [] ys zs = refl
append_assoc (x ∷ xs) ys zs = ap (λ t. x ∷ t) (append_assoc xs ys zs)

length-signs : (es : List FunctionElement) → length (signs es) ≡ length es
length-signs [] = refl
length-signs (e ∷ es) = ap suc (length-signs es)

all_signs-split :
    (csts : List MergedConstraint) (i : ℕ) (c : MergedConstraint)
    → get_elem? csts i ≡ some c
    → (pre : List ℤ) × (post : List ℤ) × (all_signs csts ≡ pre ++ (signs c.elements ++ post))
      × (length pre ≡ offset i (map (λ d. d.elements) csts))
all_signs-split [] i c e = cc
all_signs-split (d ∷ csts) zero c e =
    ([], all_signs csts, ap (λ t. signs t.elements ++ all_signs csts) (some-injective d c e), refl)
all_signs-split (d ∷ csts) (suc i) c e =
    let (pre, post, split, size) = all_signs-split csts i c e in
    (
      signs d.elements ++ pre,
      post,
      ap (λ t. signs d.elements ++ t) split
          ∙ sym (append_assoc (signs d.elements) pre (signs c.elements ++ post)),
      omega (arith, length-append (signs d.elements) pre, length-signs d.elements, size),
    )

get_or-map :
    (csts : List MergedConstraint) (i : ℕ) (c : MergedConstraint)
    → get_elem? csts i ≡ some c
    → get_or (map bound_of csts) i no_bound ≡ bound_of c
get_or-map [] i c e = cc
get_or-map (d ∷ csts) zero c e = ap bound_of (some-injective d c e)
get_or-map (d ∷ csts) (suc i) c e = get_or-map csts i c e

get_elem?-map :
    (csts : List MergedConstraint) (i : ℕ) (c : MergedConstraint)
    → get_elem? csts i ≡ some c
    → get_elem? (map (λ d. d.elements) csts) i ≡ some c.elements
get_elem?-map [] i c e = cc
get_elem?-map (d ∷ csts) zero c e = ap (λ t. some t.elements) (some-injective d c e)
get_elem?-map (d ∷ csts) (suc i) c e = get_elem?-map csts i c e

all_ensured-units :
    (csts : List MergedConstraint) (i : ℕ) (c : MergedConstraint)
    → all_ensured csts ≡ true
    → get_elem? csts i ≡ some c
    → all_units c.elements ≡ true
unfolding is_ensured
all_ensured-units [] i c h e = cc
all_ensured-units (d ∷ csts) zero c h e =
    subst (λ t. all_units t.elements ≡ true) (some-injective d c e)
      (and_left _ _ (and_left _ _ (and_left (is_ensured d) (all_ensured csts) h)))
all_ensured-units (d ∷ csts) (suc i) c h e =
    all_ensured-units csts i c (and_right (is_ensured d) (all_ensured csts) h) e

module _ (csts : List MergedConstraint) (n : ℕ) (m : SparseMatrix) (x : ℕ → ℤ)
    (inside : All (InColumns n) (map (λ c. c.elements) csts))
    (made : make_matrix (map (λ c. c.elements) csts) n ≡ some m) (ensured : all_ensured csts ≡ true)
    (binary : Binary x) where
  row_sum-solver_of :
      (i : ℕ) (c : MergedConstraint)
      → get_elem? csts i ≡ some c
      → row_sum (solver_of csts m) x (pos 0) ((solver_of csts m).row i)
        ≡ compute_function c.elements x
  unfolding solver_of compute_function
  row_sum-solver_of i c e =
      let elements = map (λ (d : MergedConstraint). d.elements) csts in
      let slv = solver_of csts m in
      let (pre, post, split, size) = all_signs-split csts i c e in
      let entries =
        row-make_matrix elements n m i c.elements inside made (get_elem?-map csts i c e) in
      ap (λ r. row_sum slv x (pos 0) (entries_or_none r)) entries
      ∙ ap (λ k. row_sum slv x (pos 0) (map row_value (row_accessors k i c.elements))) (sym size)
      ∙ row_sum-signs slv x (all_signs csts) pre post i c.elements (pos 0) (λ k. refl) split
          (all_ensured-units csts i c ensured e)

  is_valid_constraint-Holds :
      (i : ℕ) (c : MergedConstraint)
      → get_elem? csts i ≡ some c
      → (is_valid_constraint (solver_of csts m) x i ≡ true) ↔ Holds x c
  unfolding is_valid_constraint solver_of
  is_valid_constraint-Holds i c e =
      let sum = compute_function c.elements x in
      let range =
        subst
          (λ s.
            (neg_part s ≤ count_negative c.elements + pos_part s)
            × (pos_part s ≤ count_positive c.elements + neg_part s))
          (sym (compute_function-dot c.elements x))
          (dot-range c.elements x binary (all_ensured-units csts i c ensured e)) in
      let check : is_valid_constraint (solver_of csts m) x i
          ≡ (leb_ℤ (bound_of c).min_value sum && leb_ℤ sum (bound_of c).max_value) =
        ap₂ (λ (b : BoundFactor) v. leb_ℤ b.min_value v && leb_ℤ v b.max_value)
          (get_or-map csts i c e) (row_sum-solver_of i c e) in
      subst (λ t. (t ≡ true) ↔ Holds x c) (sym check) (bound_of-Holds c sum range.0 range.1)

plus_zero : (k : ℕ) → k + 0 ≡ k
plus_zero k = omega arith

zero_plus : (k : ℕ) → k ≡ 0 + k
zero_plus k = omega arith

plus_suc : (k i : ℕ) → k + suc i ≡ suc k + i
plus_suc k i = omega arith

-- The loop of the check, from the constraint `k` on.
valid_from-All :
    (slv : Solver) (x : ℕ → ℤ) (k : ℕ) (csts : List MergedConstraint)
    → ((i : ℕ) (c : MergedConstraint)
        → get_elem? csts i ≡ some c
        → (is_valid_constraint slv x (k + i) ≡ true) ↔ Holds x c)
    → (valid_from slv x k (length csts) ≡ true) ↔ All (Holds x) csts
unfolding valid_from
valid_from-All slv x k [] each = (λ h. tt, λ h. refl)
valid_from-All slv x k (c ∷ csts) each =
    let here : (is_valid_constraint slv x k ≡ true) ↔ Holds x c =
      subst (λ i. (is_valid_constraint slv x i ≡ true) ↔ Holds x c) (plus_zero k) (each 0 c refl) in
    let rest = valid_from-All slv x (suc k) csts (λ i d e.
      subst (λ j. (is_valid_constraint slv x j ≡ true) ↔ Holds x d) (plus_suc k i)
        (each (suc i) d e)) in
    elim (Bool-cases (is_valid_constraint slv x k)) [
      | inl t ↦ rw t (λ h. (here.0 t, rest.0 h), λ h. rest.1 h.1)
      | inr f ↦ rw f (λ h. absurd (ground arith), λ h. sym f ∙ here.1 h.0)
    ]

-- The solver accepts an assignment to 0 and 1 exactly if every constraint that it is made of has its
-- value between its bounds. The variables of the constraints are below `n`.
pub make_solver-Holds :
    (csts : List MergedConstraint) (n : ℕ) (slv : Solver) (x : ℕ → ℤ)
    → All (InColumns n) (map (λ c. c.elements) csts)
    → make_solver csts n ≡ some slv
    → Binary x
    → (is_valid_solution slv x ≡ true) ↔ All (Holds x) csts
unfolding make_solver is_valid_solution
make_solver-Holds csts n slv x inside made binary =
    elim (Option-cases (make_matrix (map (λ c. c.elements) csts) n)) [
      | inl fails ↦ let unmade : make_solver csts n ≡ none = rw (fails, make_solver) refl in cc
      | inr (m, matrix) ↦ elim (Bool-cases (all_ensured csts)) [
        | inl ensured ↦
            let result : make_solver csts n ≡ some (solver_of csts m) =
              rw (matrix, make_solver, ensured) refl in
            let same : solver_of csts m ≡ slv = some-injective _ _ (sym result ∙ made) in
            subst (λ s. (valid_from s x 0 s.m ≡ true) ↔ All (Holds x) csts) same
              (valid_from-All (solver_of csts m) x 0 csts (λ i c e.
                subst (λ j. (is_valid_constraint (solver_of csts m) x j ≡ true) ↔ Holds x c)
                  (zero_plus i)
                  (is_valid_constraint-Holds csts n m x inside matrix ensured binary i c e)))
        | inr not_ensured ↦
            let unmade : make_solver csts n ≡ none = rw (matrix, make_solver, not_ensured) refl in
            cc
      ]
    ]
