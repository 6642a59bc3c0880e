-- ===== src/Preprocess.antt =====
-- The preprocessor's propagation: lib/src/preprocessor.cpp, class `preprocessor`.
-- The three kinds of constraints go through the same code with another comparison, so an
-- `OperatorType` selects the vector and the comparison. A map from variables to values is an
-- association list; the stack `lifo` has its top at the head. A failing `bx_assert` and `bx_reach`
-- end the program: they are errors here, and so is a loop that uses up its fuel.
use baryonyx.Base.{
  ℕ, zero, suc, ◌-◌, Bool, true, false, List, [], ◌∷◌, ◌&&◌, ◌==◌, if◌then◌else◌, Option, none,
  some, get_elem?, get_or, set,
}
use baryonyx.Base.Int.{ℤ, pos, negsuc, ◌+ℤ◌, ◌*ℤ◌, leb_ℤ, eqb_ℤ}
use baryonyx.Base.Result.{Result, ok, err, ◌>>=◌, each}
use baryonyx.Problem.{FunctionElement, Constraint, Problem, OperatorType, equal, greater, less}
pub mod Reduce
pub mod Invariant
pub mod Values
pub mod Visit
pub mod Visits
pub mod Propagate
pub mod Start
pub mod Cache
pub mod Cover
pub mod Rules
pub mod Begin
pub mod Sound
pub mod Mapping
pub mod Objective
pub mod Unused
pub mod Copy
mod Tests

pub data Fault : Type 0 where
  assertion reached end_dereferenced out_of_fuel : Fault

-- `pp_variable_access`: the constraints of each kind that a variable stands in.
pub record VariableAccess : Type 0 where
  pub in_equal_constraints : List ℕ
  pub in_greater_constraints : List ℕ
  pub in_less_constraints : List ℕ

abbrev pub VariableValues : Type 0
VariableValues = List (ℕ × Bool)

-- What changes while values are propagated. The counters hold how many elements of each constraint
-- are without a value, 0 once the constraint is dropped.
pub record Progress : Type 0 where
  pub vars : VariableValues
  pub equal_constraints : List ℕ
  pub greater_constraints : List ℕ
  pub less_constraints : List ℕ
  pub lifo : VariableValues

unfoldable pub find_value : VariableValues → ℕ → Option Bool
find_value [] i = none
find_value ((j, v) ∷ vs) i = if j == i then some v else find_value vs i

-- `pp_lifo::emplace` and `unordered_map::emplace`: a variable that is there keeps its value.
unfoldable pub emplace : VariableValues → ℕ → Bool → VariableValues
unfolding find_value
emplace vs variable value = elim (find_value vs variable) [
  | none ↦ (variable, value) ∷ vs
  | some _ ↦ vs
]

abbrev pub counters : Progress → OperatorType → List ℕ
counters s equal = s.equal_constraints
counters s greater = s.greater_constraints
counters s less = s.less_constraints

abbrev pub set_counter : Progress → OperatorType → ℕ → ℕ → Progress
set_counter s equal cst n = record s { equal_constraints = set s.equal_constraints cst n }
set_counter s greater cst n = record s { greater_constraints = set s.greater_constraints cst n }
set_counter s less cst n = record s { less_constraints = set s.less_constraints cst n }

abbrev pub accesses : VariableAccess → OperatorType → List ℕ
accesses a equal = a.in_equal_constraints
accesses a greater = a.in_greater_constraints
accesses a less = a.in_less_constraints

abbrev pub bit : Bool → ℤ
bit true = pos 1
bit false = pos 0

-- The comparison of a kind of constraints.
abbrev pub accepts : OperatorType → ℤ → ℤ → Bool
accepts equal lhs rhs = eqb_ℤ lhs rhs
accepts greater lhs rhs = leb_ℤ rhs lhs
accepts less lhs rhs = leb_ℤ lhs rhs

-- The loop of `reduce`: the value left, and the element that has no value.
unfoldable pub reduce_from :
    VariableValues
    → ℤ
    → Option FunctionElement
    → List FunctionElement
    → Result Fault (ℤ × Option FunctionElement)
unfolding find_value
reduce_from vars result remaining [] = ok (result, remaining)
reduce_from vars result remaining (e ∷ es) = elim (find_value vars e.variable_index) [
  | none ↦ elim remaining [ none ↦ reduce_from vars result (some e) es | some _ ↦ err assertion ]
  | some v ↦ reduce_from vars (result +ℤ negsuc 0 *ℤ (e.factor *ℤ bit v)) remaining es
]

-- What `reduce_*_constraint` makes of the last element without a value.
unfoldable pub affect_last :
    OperatorType → ℤ → Option FunctionElement → Result Fault (Option (ℕ × Bool))
affect_last op result none = ok none
affect_last op result (some e) =
    let affect_0 = accepts op (e.factor *ℤ pos 0) result in
    let affect_1 = accepts op (e.factor *ℤ pos 1) result in
    if affect_0 && affect_1
    then ok none
    else if affect_0
    then ok (some (e.variable_index, false))
    else if affect_1
    then ok (some (e.variable_index, true))
    else err reached

-- `reduce_equal_constraint`, `reduce_greater_constraint` and `reduce_less_constraint`.
unfoldable pub reduce_constraint :
    OperatorType → VariableValues → Constraint → Result Fault (Option (ℕ × Bool))
unfolding reduce_from affect_last
reduce_constraint op vars constraint =
    reduce_from vars constraint.value none constraint.elements >>= λ r. affect_last op r.0 r.1

unfoldable pub push_value : Progress → Option (ℕ × Bool) → Progress
unfolding emplace
push_value s none = s
push_value s (some (variable, value)) = record s { lifo = emplace s.lifo variable value }

-- The end of a constraint with one element left: reduce it, drop it, push its value.
unfoldable pub finish : OperatorType → ℕ → Progress → Constraint → Result Fault Progress
unfolding reduce_constraint push_value
finish op cst s constraint =
    reduce_constraint op s.vars constraint >>= λ v. ok (push_value (set_counter s op cst 0) v)

module _ {D : Type 0} (pb : Problem D) where
  abbrev pub constraints : OperatorType → List Constraint
  constraints equal = pb.equal_constraints
  constraints greater = pb.greater_constraints
  constraints less = pb.less_constraints

  -- `finish` at a position; a position out of range is undefined in the source.
  unfoldable pub finish_at : OperatorType → ℕ → Progress → Result Fault Progress
  unfolding finish
  finish_at op cst s = elim (get_elem? (constraints op) cst) [
    | none ↦ ok s
    | some constraint ↦ finish op cst s constraint
  ]

  -- The body of a loop of `affects` over the constraints of a variable.
  unfoldable pub visit : OperatorType → Progress → ℕ → Result Fault Progress
  unfolding finish_at
  visit op s cst =
      let n = get_or (counters s op) cst 0 in
      if n == 0
      then ok s
      else if n - 1 == 1
      then finish_at op cst (set_counter s op cst (n - 1))
      else ok (set_counter s op cst (n - 1))

  -- One round of the loop of `affects`, after the pop.
  unfoldable pub affect_top : List VariableAccess → Progress → ℕ × Bool → Result Fault Progress
  unfolding visit emplace
  affect_top cache s (index, value) =
      let access = get_or cache index (record {
        in_equal_constraints = [];
        in_greater_constraints = [];
        in_less_constraints = [];
      }) in
      each (visit equal) (record s { vars = emplace s.vars index value })
        access.in_equal_constraints
      >>= λ t. each (visit greater) t access.in_greater_constraints >>= λ u.
          each (visit less) u access.in_less_constraints

  unfoldable pub affects : ℕ → List VariableAccess → Progress → Result Fault Progress
  unfolding affect_top
  affects zero cache s = err out_of_fuel
  affects (suc fuel) cache s = elim s.lifo [
    | [] ↦ ok s
    | top ∷ rest ↦ affect_top cache (record s { lifo = rest }) top >>= λ t. affects fuel cache t
  ]
