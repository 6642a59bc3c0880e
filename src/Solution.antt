-- ===== src/Solution.antt =====
-- The check of a solution and the value of the objective function: lib/src/lpcore.cpp, on the
-- records `solution` and `result` of lib/include/baryonyx/core.
-- The map from names to values is an association list, in which the first entry of a name counts.
use Prim.Native.String.{String}
use text.Mathlib.Text.{◌==◌ as ◌=ₛ◌}
use baryonyx.Base.{
  ℕ, zero, suc, ◌+◌, Bool, true, false, List, [], ◌∷◌, ◌&&◌, ◌==◌, not, if◌then◌else◌, Option, none,
  some, length, get_or,
}
use baryonyx.Base.Int.{ℤ, pos, eqb_ℤ, ltb_ℤ}
use baryonyx.Base.Result.{Result, ok, err, ◌>>=◌, loop}
use baryonyx.Double.{Double}
use baryonyx.Problem.{
  Constraint, RawProblem, AffectedVariables, ObjectiveFunction, ObjectiveFunctionElement,
  ObjectiveQuadraticElement, compute_function,
}
pub mod Checked
mod Tests

pub data ResultStatus : Type 0 where
  success internal_error uninitialized time_limit_reached : ResultStatus
  kappa_max_reached limit_reached empty_context : ResultStatus

pub record Solution (D : Type 0) : Type 0 where
  pub variables : List ℤ
  pub value : D

-- `result`, less its counters and its text pool.
pub record SolverResult (D : Type 0) : Type 0 where
  pub affected_vars : AffectedVariables
  pub variable_name : List String
  pub solutions : List (Solution D)
  pub status : ResultStatus

-- A failing `bx_expects` or `bx_ensures`.
pub data Violation : Type 0 where
  expects ensures : Violation

abbrev pub is_success : ResultStatus → Bool
is_success success = true
is_success _ = false

abbrev pub require : Violation → Bool → Result Violation (Unit {0})
require v true = ok tt
require v false = err v

-- `operator[]` of a vector of values.
abbrev pub value_at : List Bool → ℕ → ℤ
value_at values i = if get_or values i false then pos 1 else pos 0

-- The three loops with an early `return false`.
unfoldable pub all_equal : List Constraint → List Bool → Bool
all_equal [] values = true
all_equal (c ∷ cs) values =
    if eqb_ℤ (compute_function c.elements (value_at values)) c.value
    then all_equal cs values
    else false

unfoldable pub all_less : List Constraint → List Bool → Bool
all_less [] values = true
all_less (c ∷ cs) values =
    if ltb_ℤ c.value (compute_function c.elements (value_at values))
    then false
    else all_less cs values

unfoldable pub all_greater : List Constraint → List Bool → Bool
all_greater [] values = true
all_greater (c ∷ cs) values =
    if ltb_ℤ (compute_function c.elements (value_at values)) c.value
    then false
    else all_greater cs values

-- The last of some entries.
abbrev pub back {ℓ} : {A : Type ℓ} → List A → Option A
back [] = none
back (x ∷ []) = some x
back (x ∷ y ∷ xs) = back (y ∷ xs)

abbrev pub NameCache : Type 0
NameCache = List (String × Bool)

unfoldable pub lookup : NameCache → String → Option Bool
lookup [] name = none
lookup ((n, v) ∷ cache) name = if n =ₛ name then some v else lookup cache name

-- A loop of `cache[names[i]] = values[i]`.
unfoldable pub fill_cache : NameCache → List String → List Bool → NameCache
fill_cache cache (n ∷ names) (v ∷ values) = fill_cache ((n, v) ∷ cache) names values
fill_cache cache _ _ = cache

abbrev pub bools : List ℤ → List Bool
bools [] = []
bools (v ∷ vs) = not (eqb_ℤ v (pos 0)) ∷ bools vs

-- The last loop of `make_variable_value`.
unfoldable pub read_names : NameCache → List String → Result Violation (List Bool)
unfolding lookup
read_names cache [] = ok []
read_names cache (n ∷ names) = elim (lookup cache n) [
  | none ↦ err expects
  | some v ↦ read_names cache names >>= λ vs. ok (v ∷ vs)
]

module _ {D : Type 0} where
  unfoldable pub is_valid_solution_impl : RawProblem D → List Bool → Result Violation Bool
  unfolding all_equal all_less all_greater
  is_valid_solution_impl pb values = do
    met ← require expects (not (length values == 0))
    met ← require expects (length values == length pb.vars.names)
    met ← require expects (length values == length pb.vars.values)
    ok (
        all_equal pb.equal_constraints values
        && all_less pb.less_constraints values
        && all_greater pb.greater_constraints values)

  unfoldable pub make_variable_value : RawProblem D → SolverResult D → Result Violation (List Bool)
  unfolding fill_cache read_names
  make_variable_value pb r =
      if is_success r.status
      then elim (back r.solutions) [
        | none ↦ ok []
        | some last ↦ do
          met ← require ensures (length r.affected_vars.names == length r.affected_vars.values)
          met ← require ensures (length r.variable_name == length last.variables)
          let affected = fill_cache [] r.affected_vars.names (bools r.affected_vars.values)
          read_names (fill_cache affected r.variable_name (bools last.variables)) pb.vars.names
      ]
      else ok []

  unfoldable pub is_valid_solution : RawProblem D → SolverResult D → Result Violation Bool
  is_valid_solution pb r =
      if is_success r.status
      then elim (back r.solutions) [
        | none ↦ ok false
        | some last ↦ do
          met ← require expects (length pb.vars.names == length pb.vars.values)
          met ←
              require expects
                (length pb.vars.names == length r.variable_name + length r.affected_vars.names)
          met ← require expects (length last.variables == length r.variable_name)
          values ← make_variable_value pb r
          is_valid_solution_impl pb values
      ]
      else ok false

module _ (fl : Double) where
  open fl use {D, of_int, ◌⊕◌, ◌⊗◌}

  unfoldable pub add_elements : D → List (ObjectiveFunctionElement D) → (ℕ → ℤ) → D
  add_elements ret elems x =
      loop (λ acc (e : ObjectiveFunctionElement D). acc ⊕ e.factor ⊗ of_int (x e.variable_index))
        ret elems

  unfoldable pub add_quadratic : D → List (ObjectiveQuadraticElement D) → (ℕ → ℤ) → D
  add_quadratic ret elems x =
      loop
        (λ acc (e : ObjectiveQuadraticElement D).
          acc ⊕ e.factor ⊗ of_int (x e.variable_index_a) ⊗ of_int (x e.variable_index_b))
        ret elems

  -- The two loops of `compute_solution_impl`; `x` is the `operator[]` of the values.
  unfoldable pub objective_value : ObjectiveFunction D → (ℕ → ℤ) → D
  unfolding add_elements add_quadratic
  objective_value objective x =
      add_quadratic (add_elements objective.value objective.elements x) objective.qelements x

  unfoldable pub compute_solution_impl : RawProblem D → List Bool → Result Violation D
  unfolding objective_value
  compute_solution_impl pb values = do
    met ← require expects (not (length values == 0))
    ok (objective_value pb.objective (value_at values))

  unfoldable pub compute_solution : RawProblem D → SolverResult D → Result Violation D
  compute_solution pb r =
      if is_success r.status
      then elim (back r.solutions) [
        | none ↦ err expects
        | some last ↦ do
          met ← require expects (length pb.vars.names == length pb.vars.values)
          met ←
              require expects
                (length pb.vars.names == length r.affected_vars.names + length r.variable_name)
          met ← require expects (length last.variables == length r.variable_name)
          values ← make_variable_value pb r
          compute_solution_impl pb values
      ]
      else err expects
