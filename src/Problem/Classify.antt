-- ===== src/Problem/Classify.antt =====
-- What `which_problem_type` of lib/src/problem.hpp promises of a problem's factors and constraints.
use baryonyx.Base.{
  ℕ, ◌≤◌, ◌≡◌, refl, List, [], ◌∷◌, arith, All, All-map, ◌↔◌, ◌⊎◌, true, Bool-cases, inl, inr, ◌&&◌,
  ◌||◌, ◌==◌,
}
use baryonyx.Base.Int.{ℤ, pos, negsuc, ◌≤ℤ◌, eqb_ℤ, leb_ℤ}
use baryonyx.Problem.{
  FunctionElement, Constraint, Problem, Scan, go, stop, scan_element, scan_elements,
  scan_constraints, coefficient_type, coefficient_type_all, which_problem_type, equalities_01,
  equalities_101, equalities_z, inequalities_01, inequalities_101, inequalities_z,
  ProblemSolverType, is_empty,
}

-- Every factor of the constraints lies in lo .. 1.
abbrev pub FactorsFrom : ℤ → List Constraint → Type 0
FactorsFrom lo = All (λ c. All (λ e. (lo ≤ℤ e.factor) × (e.factor ≤ℤ pos 1)) c.elements)

scan_elements-stop : (es : List FunctionElement) → scan_elements stop es ≡ stop
unfolding scan_elements
scan_elements-stop [] = refl
scan_elements-stop (e ∷ es) = refl

scan_constraints-stop : (cs : List Constraint) → scan_constraints stop cs ≡ stop
unfolding scan_constraints
scan_constraints-stop [] = refl
scan_constraints-stop (c ∷ cs) = rw (scan_elements-stop c.elements) (scan_constraints-stop cs)

abbrev Within : ℤ → FunctionElement → Type 0
Within lo e = (lo ≤ℤ e.factor) × (e.factor ≤ℤ pos 1)

-- What a scan of some factors has found, given what it began with: a stop only at a factor outside
-- -1 .. 1, and 0 only if it began with 0 and there is no -1.
record Found (ret : ℕ) (in_101 in_01 : Type 0) (r : ℕ) (s : Scan) : Type 0 where
  result : s ≡ go r
  small : r ≤ 1
  all_101 : in_101
  zero_only : r ≡ 0 → (ret ≡ 0) × in_01
  zero_if : ret ≡ 0 → in_01 → r ≡ 0

abbrev Outcome : ℕ → Type 0 → Type 0 → Scan → Type 0
Outcome ret in_101 in_01 s = ((s ≡ stop) × ¬ in_101) ⊎ ((r : ℕ) × Found ret in_101 in_01 r s)

scan_element-Outcome :
    (ret : ℕ) (e : FunctionElement)
    → ret ≤ 1
    → Outcome ret (Within (negsuc 0) e) (Within (pos 0) e) (scan_element ret e)
unfolding scan_element
scan_element-Outcome ret e h = elim (Bool-cases (eqb_ℤ e.factor (negsuc 0) && (ret == 0))) [
  | inl t ↦ inr (1, ground arith)
  | inr t ↦ elim (Bool-cases (leb_ℤ e.factor (negsuc 1) || leb_ℤ (pos 2) e.factor)) [
    | inl k ↦ inl (ground arith, ground arith)
    | inr k ↦ inr (ret, ground arith)
  ]
]

-- Scans in a row.
Outcome-then :
    {ret : ℕ} {p q p' q' : Type 0} (s : Scan) (f : Scan → Scan)
    → f stop ≡ stop
    → ((r : ℕ) → r ≤ 1 → Outcome r p' q' (f (go r)))
    → Outcome ret p q s
    → Outcome ret (p × p') (q × q') (f s)
Outcome-then s f halt next (inl (e, no_101)) = inl (rw e halt, λ h. no_101 h.0)
Outcome-then s f halt next (inr (r, found)) = elim (next r found.small) [
  | inl (e, no_101) ↦ inl (rw found.result e, λ h. no_101 h.1)
  | inr (t, then_found) ↦ inr (
    t,
    record {
      result = rw found.result then_found.result;
      small = then_found.small;
      all_101 = (found.all_101, then_found.all_101);
      zero_only = λ z.
          let both = then_found.zero_only z in
          let first = found.zero_only both.0 in (first.0, (first.1, both.1));
      zero_if = λ z h. then_found.zero_if (found.zero_if z h.0) h.1;
    },
  )
]

Outcome-none : (ret : ℕ) → ret ≤ 1 → Outcome ret (Unit {0}) (Unit {0}) (go ret)
Outcome-none ret h = inr (
  ret,
  record { result = refl; small = h; all_101 = tt; zero_only = λ z. (z, tt); zero_if = λ z u. z },
)

scan_elements-Outcome :
    (es : List FunctionElement) (ret : ℕ)
    → ret ≤ 1
    → Outcome ret (All (Within (negsuc 0)) es) (All (Within (pos 0)) es) (scan_elements (go ret) es)
unfolding scan_elements
scan_elements-Outcome [] ret h = Outcome-none ret h
scan_elements-Outcome (e ∷ es) ret h =
    Outcome-then (scan_element ret e) (λ s. scan_elements s es) (scan_elements-stop es)
      (scan_elements-Outcome es) (scan_element-Outcome ret e h)

scan_constraints-Outcome :
    (cs : List Constraint) (ret : ℕ)
    → ret ≤ 1
    → Outcome ret
        (FactorsFrom (negsuc 0) cs)
        (FactorsFrom (pos 0) cs)
        (scan_constraints (go ret) cs)
unfolding scan_constraints
scan_constraints-Outcome [] ret h = Outcome-none ret h
scan_constraints-Outcome (c ∷ cs) ret h =
    Outcome-then (scan_elements (go ret) c.elements) (λ s. scan_constraints s cs)
      (scan_constraints-stop cs) (scan_constraints-Outcome cs)
      (scan_elements-Outcome c.elements ret h)

-- The type of a list of constraints: 0 exactly if every factor is 0 or 1, at most 1 exactly if
-- every factor is -1, 0 or 1, and otherwise 2.
pub record Typed (csts : List Constraint) (t : ℕ) : Type 0 where
  pub zero_iff : (t ≡ 0) ↔ FactorsFrom (pos 0) csts
  pub one_iff : (t ≤ 1) ↔ FactorsFrom (negsuc 0) csts
  pub at_most : t ≤ 2

FactorsFrom-weaken : (cs : List Constraint) → FactorsFrom (pos 0) cs → FactorsFrom (negsuc 0) cs
FactorsFrom-weaken cs = All-map _ _ (λ c. All-map _ _ (λ e h. (omega arith, h.1)) c.elements) cs

pub coefficient_type-Typed : (csts : List Constraint) → Typed csts (coefficient_type csts)
unfolding coefficient_type
coefficient_type-Typed csts = elim (scan_constraints-Outcome csts 0 (omega arith)) [
  | inl (e, no_101) ↦ rw e (record {
    zero_iff = (λ z. absurd (omega arith), λ h. absurd (no_101 (FactorsFrom-weaken csts h)));
    one_iff = (λ z. absurd (omega arith), λ h. absurd (no_101 h));
    at_most = omega arith;
  })
  | inr (r, found) ↦ rw found.result (record {
    zero_iff = (λ z. (found.zero_only z).1, λ h. found.zero_if refl h);
    one_iff = (λ z. found.all_101, λ h. found.small);
    at_most = omega (arith, found.small);
  })
]

module _ {D : Type 0} where
  -- Every factor of the problem lies in lo .. 1.
  abbrev pub ProblemFactorsFrom : ℤ → Problem D → Type 0
  ProblemFactorsFrom lo pb =
      FactorsFrom lo pb.equal_constraints
      × FactorsFrom lo pb.less_constraints
      × FactorsFrom lo pb.greater_constraints

  abbrev pub OnlyEqualities : Problem D → Type 0
  OnlyEqualities pb =
      (is_empty pb.greater_constraints ≡ true) × (is_empty pb.less_constraints ≡ true)

  -- The factors and constraints that each solver is for.
  abbrev pub Suits : Problem D → ProblemSolverType → Type 0
  Suits pb equalities_01 = OnlyEqualities pb × ProblemFactorsFrom (pos 0) pb
  Suits pb equalities_101 =
      OnlyEqualities pb × ProblemFactorsFrom (negsuc 0) pb × ¬ ProblemFactorsFrom (pos 0) pb
  Suits pb equalities_z = OnlyEqualities pb × ¬ ProblemFactorsFrom (negsuc 0) pb
  Suits pb inequalities_01 = (¬ OnlyEqualities pb) × ProblemFactorsFrom (pos 0) pb
  Suits pb inequalities_101 =
      (¬ OnlyEqualities pb) × ProblemFactorsFrom (negsuc 0) pb × ¬ ProblemFactorsFrom (pos 0) pb
  Suits pb inequalities_z = (¬ OnlyEqualities pb) × ¬ ProblemFactorsFrom (negsuc 0) pb

  coefficient_type_all-zero_iff :
      (pb : Problem D) → (coefficient_type_all pb ≡ 0) ↔ ProblemFactorsFrom (pos 0) pb
  unfolding coefficient_type_all
  coefficient_type_all-zero_iff pb =
      let e = coefficient_type-Typed pb.equal_constraints in
      let l = coefficient_type-Typed pb.less_constraints in
      let g = coefficient_type-Typed pb.greater_constraints in
      (
        λ z. (e.zero_iff.0 (omega arith), l.zero_iff.0 (omega arith), g.zero_iff.0 (omega arith)),
        λ h. omega (arith, e.zero_iff.1 h.0, l.zero_iff.1 h.1, g.zero_iff.1 h.2),
      )

  coefficient_type_all-one_iff :
      (pb : Problem D) → (coefficient_type_all pb ≤ 1) ↔ ProblemFactorsFrom (negsuc 0) pb
  unfolding coefficient_type_all
  coefficient_type_all-one_iff pb =
      let e = coefficient_type-Typed pb.equal_constraints in
      let l = coefficient_type-Typed pb.less_constraints in
      let g = coefficient_type-Typed pb.greater_constraints in
      (
        λ z. (e.one_iff.0 (omega arith), l.one_iff.0 (omega arith), g.one_iff.0 (omega arith)),
        λ h. omega (arith, e.one_iff.1 h.0, l.one_iff.1 h.1, g.one_iff.1 h.2),
      )

  suits_of_eq : (pb : Problem D) (t : ProblemSolverType) → which_problem_type pb ≡ t → Suits pb t
  unfolding which_problem_type
  suits_of_eq pb equalities_01 h =
      let z = coefficient_type_all-zero_iff pb in (ground arith, z.0 (ground arith))
  suits_of_eq pb equalities_101 h =
      let z = coefficient_type_all-zero_iff pb in
      let o = coefficient_type_all-one_iff pb in
      (ground arith, o.0 (ground arith), λ f. let e = z.1 f in ground arith)
  suits_of_eq pb equalities_z h =
      let z = coefficient_type_all-zero_iff pb in
      let o = coefficient_type_all-one_iff pb in (ground arith, λ f. let e = o.1 f in ground arith)
  suits_of_eq pb inequalities_01 h =
      let z = coefficient_type_all-zero_iff pb in (λ f. ground arith, z.0 (ground arith))
  suits_of_eq pb inequalities_101 h =
      let z = coefficient_type_all-zero_iff pb in
      let o = coefficient_type_all-one_iff pb in
      (λ f. ground arith, o.0 (ground arith), λ f. let e = z.1 f in ground arith)
  suits_of_eq pb inequalities_z h =
      let z = coefficient_type_all-zero_iff pb in
      let o = coefficient_type_all-one_iff pb in
      (λ f. ground arith, λ f. let e = o.1 f in ground arith)

  eq_of_suits : (pb : Problem D) (t : ProblemSolverType) → Suits pb t → which_problem_type pb ≡ t
  unfolding which_problem_type
  eq_of_suits pb equalities_01 h =
      let z = coefficient_type_all-zero_iff pb in
      let o = coefficient_type_all-one_iff pb in ground arith
  eq_of_suits pb t h =
      let z = coefficient_type_all-zero_iff pb in
      let o = coefficient_type_all-one_iff pb in ground arith

  -- The solver chosen for a problem is exactly the one whose kind of factors and constraints the
  -- problem has: an equality solver if and only if there is no inequality, and the 01, 101 or Z
  -- solver as all factors are 0 or 1, all are -1, 0 or 1 but not all 0 or 1, or neither.
  pub which_problem_type-Suits :
      (pb : Problem D) (t : ProblemSolverType) → (which_problem_type pb ≡ t) ↔ Suits pb t
  which_problem_type-Suits pb t = (suits_of_eq pb t, eq_of_suits pb t)
