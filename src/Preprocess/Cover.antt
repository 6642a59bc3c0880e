-- ===== src/Preprocess/Cover.antt =====
-- Which constraints of a variable the cache that the preprocessor's constructor builds
-- (lib/src/preprocessor.cpp) lists.
use mathlib.Core.Option.{some-injective}
use baryonyx.Base.{
  ℕ, zero, suc, ◌+◌, ◌≤◌, ◌<◌, ◌≡◌, refl, ap, ◌∙◌, List, [], ◌∷◌, some, arith, inl, inr, ◌==◌,
  get_elem?, modify, count-append, get_or-modify_cases, get_or-modify_self, length, length-modify,
  length-replicate, Bool-cases, subst, sym,
}
use baryonyx.Problem.{FunctionElement, Constraint, Problem, OperatorType, equal, greater, less}
use baryonyx.Preprocess.{VariableAccess, constraints}
use baryonyx.Preprocess.Visits.{no_access, pending, occurs}
use baryonyx.Preprocess.Start.{add_access, note_elements, note_constraints, make_cache}
use baryonyx.Preprocess.Cache.{at, empty_cache, after_equal, after_greater}

add_access_grows :
    (op o : OperatorType) (i : ℕ) (a : VariableAccess) (j : ℕ)
    → pending a o j ≤ pending (add_access op i a) o j
add_access_grows equal equal i a j = omega (arith, count-append a.in_equal_constraints (i ∷ []) j)
add_access_grows equal greater i a j = omega arith
add_access_grows equal less i a j = omega arith
add_access_grows greater equal i a j = omega arith
add_access_grows greater greater i a j =
    omega (arith, count-append a.in_greater_constraints (i ∷ []) j)
add_access_grows greater less i a j = omega arith
add_access_grows less equal i a j = omega arith
add_access_grows less greater i a j = omega arith
add_access_grows less less i a j = omega (arith, count-append a.in_less_constraints (i ∷ []) j)

pending-add_access_self :
    (op : OperatorType) (i : ℕ) (a : VariableAccess) → 1 ≤ pending (add_access op i a) op i
pending-add_access_self equal i a = ground (arith, count-append a.in_equal_constraints (i ∷ []) i)
pending-add_access_self greater i a =
    ground (arith, count-append a.in_greater_constraints (i ∷ []) i)
pending-add_access_self less i a = ground (arith, count-append a.in_less_constraints (i ∷ []) i)

module _ (op : OperatorType) where
  length-note_elements :
      (i : ℕ) (es : List FunctionElement) (cache : List VariableAccess)
      → length (note_elements op i es cache) ≡ length cache
  unfolding note_elements
  length-note_elements i [] cache = refl
  length-note_elements i (e ∷ es) cache =
      length-note_elements i es _ ∙ length-modify cache e.variable_index (add_access op i)

  length-note_constraints :
      (i : ℕ) (cs : List Constraint) (cache : List VariableAccess)
      → length (note_constraints op i cs cache) ≡ length cache
  unfolding note_constraints
  length-note_constraints i [] cache = refl
  length-note_constraints i (c ∷ cs) cache =
      length-note_constraints (suc i) cs _ ∙ length-note_elements i c.elements cache

  module _ (v : ℕ) where
    note_elements_grows :
        (o : OperatorType) (i : ℕ) (es : List FunctionElement) (cache : List VariableAccess) (j : ℕ)
        → pending (at cache v) o j ≤ pending (at (note_elements op i es cache) v) o j
    unfolding note_elements
    note_elements_grows o i [] cache j = omega arith
    note_elements_grows o i (e ∷ es) cache j =
        let ih = note_elements_grows o i es (modify cache e.variable_index (add_access op i)) j in
        elim (get_or-modify_cases cache e.variable_index (add_access op i) v no_access) [
          | inl (q, p) ↦
              let q' = ap (λ a. pending a o j) q in
              omega (arith, add_access_grows op o i (at cache v) j)
          | inr q ↦ let q' = ap (λ a. pending a o j) q in omega arith
        ]

    note_constraints_grows :
        (o : OperatorType) (i : ℕ) (cs : List Constraint) (cache : List VariableAccess) (j : ℕ)
        → pending (at cache v) o j ≤ pending (at (note_constraints op i cs cache) v) o j
    unfolding note_constraints
    note_constraints_grows o i [] cache j = omega arith
    note_constraints_grows o i (c ∷ cs) cache j = omega (
      arith,
      note_constraints_grows o (suc i) cs (note_elements op i c.elements cache) j,
      note_elements_grows o i c.elements cache j,
    )

    note_elements_has :
        (i : ℕ) (es : List FunctionElement) (cache : List VariableAccess)
        → v < length cache
        → 1 ≤ occurs v es
        → 1 ≤ pending (at (note_elements op i es cache) v) op i
    unfolding note_elements occurs
    note_elements_has i [] cache h k = absurd (omega arith)
    note_elements_has i (e ∷ es) cache h k =
        let next = modify cache e.variable_index (add_access op i) in
        elim (Bool-cases (e.variable_index == v)) [
          | inl t ↦
              let same : e.variable_index ≡ v = ground arith in
              let noted =
                subst (λ n. at (modify cache n (add_access op i)) v ≡ add_access op i (at cache v))
                  (sym same) (get_or-modify_self cache v (add_access op i) no_access h) in
              let noted' = ap (λ a. pending a op i) noted in
              omega (
                arith,
                pending-add_access_self op i (at cache v),
                note_elements_grows op i es next i,
              )
          | inr f ↦
              note_elements_has i es next
                (omega (arith, length-modify cache e.variable_index (add_access op i)))
                (ground arith)
        ]

    note_constraints_has :
        (i : ℕ) (cs : List Constraint) (cache : List VariableAccess) (k j : ℕ) (c : Constraint)
        → get_elem? cs k ≡ some c
        → j ≡ i + k
        → v < length cache
        → 1 ≤ occurs v c.elements
        → 1 ≤ pending (at (note_constraints op i cs cache) v) op j
    unfolding note_constraints
    note_constraints_has i [] cache k j c h e short has = cc
    note_constraints_has i (d ∷ cs) cache zero j c h e short has =
        let same = ap (λ (t : Constraint). occurs v t.elements) (some-injective _ _ h) in
        let i_is_j : i ≡ j = omega arith in
        let first =
          subst (λ n. 1 ≤ pending (at (note_elements op i d.elements cache) v) op n) i_is_j
            (note_elements_has i d.elements cache short (omega arith)) in
        omega (arith, note_constraints_grows op (suc i) cs (note_elements op i d.elements cache) j)
    note_constraints_has i (d ∷ cs) cache (suc k) j c h e short has =
        note_constraints_has (suc i) cs (note_elements op i d.elements cache) k j c h (omega arith)
          (omega (arith, length-note_elements i d.elements cache)) has

module _ {D : Type 0} (pb : Problem D) where
  -- A constraint is listed for each variable that stands in it.
  pub make_cache_has :
      (op : OperatorType) (cst : ℕ) (c : Constraint) (v : ℕ)
      → get_elem? (constraints pb op) cst ≡ some c
      → v < length pb.vars.values
      → 1 ≤ occurs v c.elements
      → 1 ≤ pending (at (make_cache pb) v) op cst
  unfolding make_cache
  make_cache_has equal cst c v h short has =
      let n = length-replicate (length pb.vars.values) no_access in
      omega (
        arith,
        note_constraints_has equal v 0 pb.equal_constraints (empty_cache pb) cst cst c h
            (omega arith) (omega arith) has,
        note_constraints_grows greater v equal 0 pb.greater_constraints (after_equal pb) cst,
        note_constraints_grows less v equal 0 pb.less_constraints (after_greater pb) cst,
      )
  make_cache_has greater cst c v h short has =
      let n = length-replicate (length pb.vars.values) no_access in
      let m = length-note_constraints equal 0 pb.equal_constraints (empty_cache pb) in
      omega (
        arith,
        note_constraints_has greater v 0 pb.greater_constraints (after_equal pb) cst cst c h
            (omega arith) (omega arith) has,
        note_constraints_grows less v greater 0 pb.less_constraints (after_greater pb) cst,
      )
  make_cache_has less cst c v h short has =
      let n = length-replicate (length pb.vars.values) no_access in
      let m = length-note_constraints equal 0 pb.equal_constraints (empty_cache pb) in
      let k = length-note_constraints greater 0 pb.greater_constraints (after_equal pb) in
      note_constraints_has less v 0 pb.less_constraints (after_greater pb) cst cst c h (omega arith)
        (omega arith) has
