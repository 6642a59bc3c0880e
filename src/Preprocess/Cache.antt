-- ===== src/Preprocess/Cache.antt =====
-- How often the cache that the preprocessor's constructor builds (lib/src/preprocessor.cpp) lists a
-- constraint for a variable.
use mathlib.Core.Option.{some-injective}
use baryonyx.Base.{
  ℕ, zero, suc, ◌+◌, ◌≤◌, ◌<◌, ◌≡◌, ◌≢◌, refl, ap, ◌∙◌, List, [], ◌∷◌, some, arith, inl, inr, ◌==◌,
  if◌then◌else◌, get_elem?, get_or, modify, count-append, get_or-modify_cases, length, replicate,
}
use baryonyx.Problem.{FunctionElement, Constraint, Problem, OperatorType, equal, greater, less}
use baryonyx.Preprocess.{VariableAccess}
use baryonyx.Preprocess.Visits.{no_access, pending, occurs, IsCached}
use baryonyx.Preprocess.Start.{add_access, note_elements, note_constraints, make_cache}

abbrev pub at : List VariableAccess → ℕ → VariableAccess
at cache v = get_or cache v no_access

-- A constraint noted once more.
pending-add_access :
    (op : OperatorType) (i : ℕ) (a : VariableAccess) (j : ℕ)
    → pending (add_access op i a) op j ≡ pending a op j + (if i == j then 1 else 0)
pending-add_access equal i a j = omega (arith, count-append a.in_equal_constraints (i ∷ []) j)
pending-add_access greater i a j = omega (arith, count-append a.in_greater_constraints (i ∷ []) j)
pending-add_access less i a j = omega (arith, count-append a.in_less_constraints (i ∷ []) j)

pending-add_access_ne :
    (op o : OperatorType) (i : ℕ) (a : VariableAccess) (j : ℕ)
    → op ≢ o
    → pending (add_access op i a) o j ≡ pending a o j
pending-add_access_ne equal equal i a j h = absurd (h refl)
pending-add_access_ne equal greater i a j h = refl
pending-add_access_ne equal less i a j h = refl
pending-add_access_ne greater equal i a j h = refl
pending-add_access_ne greater greater i a j h = absurd (h refl)
pending-add_access_ne greater less i a j h = refl
pending-add_access_ne less equal i a j h = refl
pending-add_access_ne less greater i a j h = refl
pending-add_access_ne less less i a j h = absurd (h refl)

module _ (op : OperatorType) (v : ℕ) where
  note_elements-le :
      (i : ℕ) (es : List FunctionElement) (cache : List VariableAccess) (j : ℕ)
      → pending (at (note_elements op i es cache) v) op j
        ≤ pending (at cache v) op j + (if i == j then occurs v es else 0)
  unfolding note_elements occurs
  note_elements-le i [] cache j = ground arith
  note_elements-le i (e ∷ es) cache j =
      let ih = note_elements-le i es (modify cache e.variable_index (add_access op i)) j in
      elim (get_or-modify_cases cache e.variable_index (add_access op i) v no_access) [
        | inl (q, p) ↦
            let q' = ap (λ a. pending a op j) q in
            ground (arith, pending-add_access op i (at cache v) j)
        | inr q ↦ let q' = ap (λ a. pending a op j) q in ground arith
      ]

  note_constraints-before :
      (i : ℕ) (cs : List Constraint) (cache : List VariableAccess) (j : ℕ)
      → j < i
      → pending (at (note_constraints op i cs cache) v) op j ≤ pending (at cache v) op j
  unfolding note_constraints
  note_constraints-before i [] cache j h = omega arith
  note_constraints-before i (c ∷ cs) cache j h = ground (
    arith,
    note_constraints-before (suc i) cs (note_elements op i c.elements cache) j,
    note_elements-le i c.elements cache j,
  )

  note_constraints-le :
      (i : ℕ) (cs : List Constraint) (cache : List VariableAccess) (k j : ℕ) (c : Constraint)
      → get_elem? cs k ≡ some c
      → j ≡ i + k
      → pending (at (note_constraints op i cs cache) v) op j
        ≤ pending (at cache v) op j + occurs v c.elements
  unfolding note_constraints
  note_constraints-le i [] cache k j c h e = cc
  note_constraints-le i (d ∷ cs) cache zero j c h e =
      let same = ap (λ (t : Constraint). occurs v t.elements) (some-injective _ _ h) in
      ground (
        arith,
        note_constraints-before (suc i) cs (note_elements op i d.elements cache) j,
        note_elements-le i d.elements cache j,
      )
  note_constraints-le i (d ∷ cs) cache (suc k) j c h e = ground (
    arith,
    note_constraints-le (suc i) cs (note_elements op i d.elements cache) k j c h,
    note_elements-le i d.elements cache j,
  )

  -- The constraints of another kind are not touched.
  module _ (o : OperatorType) (ne : op ≢ o) where
    note_elements-ne :
        (i : ℕ) (es : List FunctionElement) (cache : List VariableAccess) (j : ℕ)
        → pending (at (note_elements op i es cache) v) o j ≡ pending (at cache v) o j
    unfolding note_elements
    note_elements-ne i [] cache j = refl
    note_elements-ne i (e ∷ es) cache j =
        note_elements-ne i es (modify cache e.variable_index (add_access op i)) j
        ∙ elim (get_or-modify_cases cache e.variable_index (add_access op i) v no_access) [
          | inl (q, p) ↦ ap (λ a. pending a o j) q ∙ pending-add_access_ne op o i (at cache v) j ne
          | inr q ↦ ap (λ a. pending a o j) q
        ]

    note_constraints-ne :
        (i : ℕ) (cs : List Constraint) (cache : List VariableAccess) (j : ℕ)
        → pending (at (note_constraints op i cs cache) v) o j ≡ pending (at cache v) o j
    unfolding note_constraints
    note_constraints-ne i [] cache j = refl
    note_constraints-ne i (c ∷ cs) cache j =
        note_constraints-ne (suc i) cs (note_elements op i c.elements cache) j
        ∙ note_elements-ne i c.elements cache j

at-replicate : (n v : ℕ) → at (replicate n no_access) v ≡ no_access
at-replicate zero v = refl
at-replicate (suc n) zero = refl
at-replicate (suc n) (suc v) = at-replicate n v

module _ {D : Type 0} (pb : Problem D) where
  abbrev pub empty_cache : List VariableAccess
  empty_cache = replicate (length pb.vars.values) no_access

  abbrev pub after_equal : List VariableAccess
  after_equal = note_constraints equal 0 pb.equal_constraints empty_cache

  abbrev pub after_greater : List VariableAccess
  after_greater = note_constraints greater 0 pb.greater_constraints after_equal

  pub make_cache-IsCached : IsCached pb (make_cache pb)
  unfolding make_cache
  make_cache-IsCached equal cst c i h = omega (
    arith,
    ap (λ a. pending a equal cst) (at-replicate (length pb.vars.values) i),
    note_constraints-le equal i 0 pb.equal_constraints empty_cache cst cst c h (omega arith),
    note_constraints-ne greater i equal (λ e. cc) 0 pb.greater_constraints after_equal cst,
    note_constraints-ne less i equal (λ e. cc) 0 pb.less_constraints after_greater cst,
  )
  make_cache-IsCached greater cst c i h = omega (
    arith,
    ap (λ a. pending a greater cst) (at-replicate (length pb.vars.values) i),
    note_constraints-ne equal i greater (λ e. cc) 0 pb.equal_constraints empty_cache cst,
    note_constraints-le greater i 0 pb.greater_constraints after_equal cst cst c h (omega arith),
    note_constraints-ne less i greater (λ e. cc) 0 pb.less_constraints after_greater cst,
  )
  make_cache-IsCached less cst c i h = omega (
    arith,
    ap (λ a. pending a less cst) (at-replicate (length pb.vars.values) i),
    note_constraints-ne equal i less (λ e. cc) 0 pb.equal_constraints empty_cache cst,
    note_constraints-ne greater i less (λ e. cc) 0 pb.greater_constraints after_equal cst,
    note_constraints-le less i 0 pb.less_constraints after_greater cst cst c h (omega arith),
  )
