-- ===== src/Preprocess/Visits.antt =====
-- The visits of all the constraints of a variable in `affects` (lib/src/preprocessor.cpp), and the
-- cache that lists them.
use baryonyx.Base.{
  ℕ, ◌+◌, ◌≤◌, ◌≡◌, refl, Bool, List, [], ◌∷◌, none, some, arith, get_elem?, get_or, count,
  if◌then◌else◌, ◌==◌,
}
use baryonyx.Base.Result.{Result, ◌>>=◌, each}
use baryonyx.Problem.{FunctionElement, Constraint, Problem, OperatorType, equal, greater, less}
use baryonyx.Preprocess.{
  Fault, VariableAccess, VariableValues, Progress, find_value, accesses, constraints, visit,
}
use baryonyx.Preprocess.Reduce.{unassigned}
use baryonyx.Preprocess.Invariant.{Inv, Run, fine, dead}
use baryonyx.Preprocess.Visit.{Run-then, visit-Run}

abbrev pub no_access : VariableAccess
no_access = record {
  in_equal_constraints = [];
  in_greater_constraints = [];
  in_less_constraints = [];
}

abbrev pub access_of : List ℕ → List ℕ → List ℕ → VariableAccess
access_of e g l = record {
  in_equal_constraints = e;
  in_greater_constraints = g;
  in_less_constraints = l;
}

unfoldable pub visits : {D : Type 0} → Problem D → VariableAccess → Progress → Result Fault Progress
visits pb a s = each (visit pb equal) s a.in_equal_constraints >>= λ t.
    each (visit pb greater) t a.in_greater_constraints >>= λ u.
    each (visit pb less) u a.in_less_constraints

-- The visits still to come of each constraint.
abbrev pub pending : VariableAccess → OperatorType → ℕ → ℕ
pending a op j = count j (accesses a op)

-- How many elements of a constraint have a variable.
unfoldable pub occurs : ℕ → List FunctionElement → ℕ
occurs i [] = 0
occurs i (e ∷ es) = (if e.variable_index == i then 1 else 0) + occurs i es

-- The cache holds a constraint for a variable no more often than the variable stands in it.
abbrev pub IsCached : {D : Type 0} → Problem D → List VariableAccess → Type 0
IsCached pb cache =
    (op : OperatorType) (cst : ℕ) (c : Constraint) (i : ℕ)
    → get_elem? (constraints pb op) cst ≡ some c
    → pending (get_or cache i no_access) op cst ≤ occurs i c.elements

pub unassigned-cons :
    (vs : VariableValues) (i : ℕ) (v : Bool) (es : List FunctionElement)
    → find_value vs i ≡ none
    → unassigned ((i, v) ∷ vs) es + occurs i es ≡ unassigned vs es
unfolding unassigned occurs find_value
unassigned-cons vs i v [] h = omega arith
unassigned-cons vs i v (e ∷ es) h = ground (arith, unassigned-cons vs i v es h)

module _ {D : Type 0} (pb : Problem D) (x : ℕ → Bool) where
  pub Run-bind :
      {p p' : OperatorType → ℕ → ℕ} {s : Progress} (r : Result Fault Progress)
      (f : Progress → Result Fault Progress)
      → ((t : Progress) → Inv pb p t → Run pb x p' t (f t))
      → Run pb x p s r
      → Run pb x p' s (r >>= f)
  Run-bind r f next (fine {t = t} inv le same keep) = Run-then pb x (f t) le same keep (next t inv)
  Run-bind r f next (dead never) = dead never

  -- A loop over the constraints of one kind that a variable stands in.
  each-Run :
      (acc : List ℕ → VariableAccess) (op : OperatorType)
      → ((c : ℕ) (l : List ℕ) (o : OperatorType) (j : ℕ)
          → pending (acc l) o j ≤ pending (acc (c ∷ l)) o j)
      → ((c : ℕ) (l : List ℕ) → pending (acc l) op c + 1 ≤ pending (acc (c ∷ l)) op c)
      → (l : List ℕ) (s : Progress) → Inv pb (pending (acc l)) s
      → Run pb x (pending (acc [])) s (each (visit pb op) s l)
  each-Run acc op le one [] s inv = fine inv (omega arith) refl (λ h. h)
  each-Run acc op le one (c ∷ l) s inv =
      Run-bind (visit pb op s c) (λ t. each (visit pb op) t l) (each-Run acc op le one l)
        (visit-Run pb x (pending (acc l)) op c s inv (le c l) (one c l))

  pub visits-Run :
      (e g l : List ℕ) (s : Progress)
      → Inv pb (pending (access_of e g l)) s
      → Run pb x (pending no_access) s (visits pb (access_of e g l) s)
  unfolding visits
  visits-Run e g l s inv =
      Run-bind _ _
        (λ t inv_t.
          Run-bind _ _
            (λ u inv_u.
              each-Run (access_of [] []) less
                (λ c k o j.
                  elim o
                    as (λ o'.
                      pending (access_of [] [] k) o' j ≤ pending (access_of [] [] (c ∷ k)) o' j) [
                        | equal ↦ omega arith
                        | greater ↦ omega arith
                        | less ↦ ground arith
                      ])
                (λ c k. ground arith) l u inv_u)
            (each-Run (λ k. access_of [] k l) greater
              (λ c k o j.
                elim o
                  as (λ o'.
                    pending (access_of [] k l) o' j ≤ pending (access_of [] (c ∷ k) l) o' j) [
                      | equal ↦ omega arith
                      | greater ↦ ground arith
                      | less ↦ omega arith
                    ])
              (λ c k. ground arith) g t inv_t))
        (each-Run (λ k. access_of k g l) equal
          (λ c k o j.
            elim o
              as (λ o'. pending (access_of k g l) o' j ≤ pending (access_of (c ∷ k) g l) o' j) [
                | equal ↦ ground arith
                | greater ↦ omega arith
                | less ↦ omega arith
              ])
          (λ c k. ground arith) e s inv)
