-- ===== src/Problem.antt =====
-- The problem data model: lib/include/baryonyx/core (the enumerations and records of a linear
-- problem) and lib/src/problem.hpp (the preprocessed problem and its classification).
-- `D` stands for `double`. An `int` is an integer; an `index` that is used to read a vector is a
-- natural number. A vector is a list.
use Prim.Native.String.{String}
use baryonyx.Base.{ℕ, ◌≡◌, Bool, true, false, List, [], ◌∷◌, ◌&&◌, ◌||◌, if◌then◌else◌, max, ◌==◌}
use baryonyx.Base.Int.{ℤ, pos, negsuc, ◌+ℤ◌, ◌*ℤ◌, leb_ℤ, eqb_ℤ}
pub mod Classify
pub mod Sums
mod Tests

pub data VariableType : Type 0 where
  real binary general : VariableType

pub data ProblemSolverType : Type 0 where
  equalities_01 equalities_101 equalities_z : ProblemSolverType
  inequalities_01 inequalities_101 inequalities_z : ProblemSolverType

pub data ObjectiveFunctionType : Type 0 where
  maximize minimize : ObjectiveFunctionType

pub data OperatorType : Type 0 where
  equal greater less : OperatorType

-- `problem_definition_error_tag` and the exception that carries it.
pub data ProblemDefinitionErrorTag : Type 0 where
  empty_variables empty_objective_function variable_not_used : ProblemDefinitionErrorTag
  bad_bound multiple_constraint : ProblemDefinitionErrorTag

pub record ProblemDefinitionFailure : Type 0 where
  pub element : String
  pub failure : ProblemDefinitionErrorTag

pub record VariableValue : Type 0 where
  pub min_value : ℤ
  pub max_value : ℤ
  pub type : VariableType

pub record Variables : Type 0 where
  pub names : List String
  pub values : List VariableValue

pub record FunctionElement : Type 0 where
  pub factor : ℤ
  pub variable_index : ℕ

pub record ObjectiveFunctionElement (D : Type 0) : Type 0 where
  pub factor : D
  pub variable_index : ℕ

pub record ObjectiveQuadraticElement (D : Type 0) : Type 0 where
  pub factor : D
  pub variable_index_a : ℕ
  pub variable_index_b : ℕ

pub record Constraint : Type 0 where
  pub label : String
  pub elements : List FunctionElement
  pub value : ℤ
  pub id : ℤ

pub record ObjectiveFunction (D : Type 0) : Type 0 where
  pub elements : List (ObjectiveFunctionElement D)
  pub qelements : List (ObjectiveQuadraticElement D)
  pub value : D

pub record AffectedVariables : Type 0 where
  pub names : List String
  pub values : List ℤ

-- The text pool `strings` and the read status have no part in what follows.
pub record RawProblem (D : Type 0) : Type 0 where
  pub objective : ObjectiveFunction D
  pub equal_constraints : List Constraint
  pub greater_constraints : List Constraint
  pub less_constraints : List Constraint
  pub vars : Variables
  pub type : ObjectiveFunctionType

pub record Problem (D : Type 0) : Type 0 where
  pub objective : ObjectiveFunction D
  pub equal_constraints : List Constraint
  pub greater_constraints : List Constraint
  pub less_constraints : List Constraint
  pub vars : Variables
  pub affected_vars : AffectedVariables
  pub type : ObjectiveFunctionType
  pub problem_type : ProblemSolverType

-- The variable `ret` of `coefficient_type`, or `stop` after its early `return 2`.
pub data Scan : Type 0 where
  go : ℕ → Scan
  stop : Scan

unfoldable pub scan_element : ℕ → FunctionElement → Scan
scan_element ret elem =
    if eqb_ℤ elem.factor (negsuc 0) && (ret == 0)
    then go 1
    else if leb_ℤ elem.factor (negsuc 1) || leb_ℤ (pos 2) elem.factor
    then stop
    else go ret

unfoldable pub scan_elements : Scan → List FunctionElement → Scan
unfolding scan_element
scan_elements stop es = stop
scan_elements (go ret) [] = go ret
scan_elements (go ret) (e ∷ es) = scan_elements (scan_element ret e) es

unfoldable pub scan_constraints : Scan → List Constraint → Scan
unfolding scan_elements
scan_constraints s [] = s
scan_constraints s (c ∷ cs) = scan_constraints (scan_elements s c.elements) cs

abbrev pub scan_result : Scan → ℕ
scan_result (go ret) = ret
scan_result stop = 2

-- `coefficient_type(csts)`.
unfoldable pub coefficient_type : List Constraint → ℕ
unfolding scan_constraints
coefficient_type csts = scan_result (scan_constraints (go 0) csts)

abbrev pub is_empty {ℓ} : {A : Type ℓ} → List A → Bool
is_empty [] = true
is_empty (x ∷ xs) = false

module _ {D : Type 0} where
  -- The member `coefficient_type()`: the largest over the three kinds of constraints.
  unfoldable pub coefficient_type_all : Problem D → ℕ
  unfolding coefficient_type
  coefficient_type_all pb =
      max (coefficient_type pb.equal_constraints)
        (max (coefficient_type pb.less_constraints) (coefficient_type pb.greater_constraints))

  unfoldable pub which_problem_type : Problem D → ProblemSolverType
  unfolding coefficient_type_all
  which_problem_type pb =
      let coefficient = coefficient_type_all pb in
      if is_empty pb.greater_constraints && is_empty pb.less_constraints
      then (if coefficient == 0
          then equalities_01
          else if coefficient == 1
          then equalities_101
          else equalities_z)
      else (if coefficient == 0
          then inequalities_01
          else if coefficient == 1
          then inequalities_101
          else inequalities_z)

  -- The constructor `problem(const raw_problem&)`, also `unpreprocess`.
  unfoldable pub problem_of_raw : RawProblem D → Problem D
  unfolding which_problem_type
  problem_of_raw pb =
      let copy : Problem D = record {
        objective = pb.objective;
        equal_constraints = pb.equal_constraints;
        greater_constraints = pb.greater_constraints;
        less_constraints = pb.less_constraints;
        vars = pb.vars;
        affected_vars = record { names = []; values = [] };
        type = pb.type;
        problem_type = equalities_01;
      } in
      record copy { problem_type = which_problem_type copy }

-- `compute_function(fct, vars)` of lib/src/lpcore.cpp; `x` is the `operator[]` of `vars`.
unfoldable pub compute_from : ℤ → List FunctionElement → (ℕ → ℤ) → ℤ
compute_from v [] x = v
compute_from v (f ∷ fct) x = compute_from (v +ℤ x f.variable_index *ℤ f.factor) fct x

unfoldable pub compute_function : List FunctionElement → (ℕ → ℤ) → ℤ
unfolding compute_from
compute_function fct x = compute_from (pos 0) fct x

-- `operator==` on function elements (lib/include/baryonyx/core-compare) and on vectors of them.
unfoldable pub element_eq : FunctionElement → FunctionElement → Bool
element_eq lhs rhs = eqb_ℤ lhs.factor rhs.factor && (lhs.variable_index == rhs.variable_index)

unfoldable pub elements_eq : List FunctionElement → List FunctionElement → Bool
unfolding element_eq
elements_eq [] [] = true
elements_eq (e ∷ es) (f ∷ fs) = element_eq e f && elements_eq es fs
elements_eq _ _ = false
