-- ===== src/Preprocess/Start.antt =====
-- The first part of the preprocessor's run (lib/src/preprocessor.cpp): its constructor, which builds
-- the cache, `init_constraints_length_container`, `try_affect_bounded_variable`,
-- `try_affect_variable`, and the runs up to the end of the first `affects`.
use baryonyx.Base.{
  ℕ, suc, ◌+◌, Bool, true, false, List, [], ◌∷◌, ◌++◌, ◌||◌, ◌==◌, not, if◌then◌else◌, some, length,
  get_or, modify, map, replicate,
}
use baryonyx.Base.Int.{ℤ, pos, ◌+ℤ◌, leb_ℤ, eqb_ℤ}
use baryonyx.Base.Result.{Result, ok, ◌>>=◌}
use baryonyx.Problem.{
  FunctionElement, Constraint, Problem, VariableValue, OperatorType, equal, greater, less,
}
use baryonyx.Preprocess.{
  Fault, VariableAccess, Progress, counters, set_counter, push_value, finish, affects,
}
use baryonyx.Preprocess.Visits.{no_access}

abbrev pub add_access : OperatorType → ℕ → VariableAccess → VariableAccess
add_access equal i a = record a { in_equal_constraints = a.in_equal_constraints ++ i ∷ [] }
add_access greater i a = record a { in_greater_constraints = a.in_greater_constraints ++ i ∷ [] }
add_access less i a = record a { in_less_constraints = a.in_less_constraints ++ i ∷ [] }

-- Constraint `i` is noted for each variable of its elements.
unfoldable pub note_elements :
    OperatorType → ℕ → List FunctionElement → List VariableAccess → List VariableAccess
note_elements op i [] cache = cache
note_elements op i (e ∷ es) cache =
    note_elements op i es (modify cache e.variable_index (add_access op i))

unfoldable pub note_constraints :
    OperatorType → ℕ → List Constraint → List VariableAccess → List VariableAccess
unfolding note_elements
note_constraints op i [] cache = cache
note_constraints op i (c ∷ cs) cache =
    note_constraints op (suc i) cs (note_elements op i c.elements cache)

-- `is_all_factor_ge_than_zero` looks for a factor `<= 0`.
unfoldable pub is_all_factor_ge_than_zero : List FunctionElement → Bool
is_all_factor_ge_than_zero [] = true
is_all_factor_ge_than_zero (e ∷ es) =
    if leb_ℤ e.factor (pos 0) then false else is_all_factor_ge_than_zero es

unfoldable pub sum_factor_from : ℤ → List FunctionElement → ℤ
sum_factor_from acc [] = acc
sum_factor_from acc (e ∷ es) = sum_factor_from (acc +ℤ e.factor) es

unfoldable pub sum_factor : List FunctionElement → ℤ
unfolding sum_factor_from
sum_factor es = sum_factor_from (pos 0) es

-- Every variable of some elements is put on the stack with a value.
unfoldable pub push_all : Bool → Progress → List FunctionElement → Progress
unfolding push_value
push_all value s [] = s
push_all value s (e ∷ es) = push_all value (push_value s (some (e.variable_index, value))) es

-- A constraint with other than one element in `try_affect_variable`.
unfoldable pub try_bounds : OperatorType → ℕ → Progress → Constraint → Progress
unfolding is_all_factor_ge_than_zero sum_factor push_all
try_bounds equal i s c =
    if eqb_ℤ (sum_factor c.elements) c.value || eqb_ℤ c.value (pos 0)
    then push_all (not (eqb_ℤ c.value (pos 0))) (set_counter s equal i 0) c.elements
    else s
try_bounds greater i s c =
    if eqb_ℤ (sum_factor c.elements) c.value
    then push_all true (set_counter s greater i 0) c.elements
    else if eqb_ℤ c.value (pos 0)
    then set_counter s greater i 0
    else s
try_bounds less i s c =
    if leb_ℤ c.value (pos 0)
    then push_all false (set_counter s less i 0) c.elements
    else if eqb_ℤ (sum_factor c.elements) c.value
    then set_counter s less i 0
    else s

-- The body of a loop of `try_affect_variable`.
unfoldable pub try_affect_constraint :
    OperatorType → ℕ → Progress → Constraint → Result Fault Progress
unfolding try_bounds finish
try_affect_constraint op i s c =
    if get_or (counters s op) i 0 == 1
    then finish op i s c
    else if is_all_factor_ge_than_zero c.elements
    then ok (try_bounds op i s c)
    else ok s

unfoldable pub try_affect_constraints :
    OperatorType → ℕ → List Constraint → Progress → Result Fault Progress
unfolding try_affect_constraint
try_affect_constraints op i [] s = ok s
try_affect_constraints op i (c ∷ cs) s =
    try_affect_constraint op i s c >>= λ t. try_affect_constraints op (suc i) cs t

unfoldable pub try_affect_bounded_variable : ℕ → List VariableValue → Progress → Progress
unfolding push_value
try_affect_bounded_variable i [] s = s
try_affect_bounded_variable i (v ∷ vs) s = try_affect_bounded_variable (suc i) vs (
    if eqb_ℤ v.min_value v.max_value
    then push_value s (some (i, not (eqb_ℤ v.max_value (pos 0))))
    else s)

-- Rounds enough for the loop of `affects`: each round takes an entry off the stack, and an entry
-- is put on it only as a constraint is dropped.
abbrev pub fuel_of : Progress → ℕ
fuel_of s = suc (
    length s.lifo
    + (length s.equal_constraints + length s.greater_constraints + length s.less_constraints))

module _ {D : Type 0} (pb : Problem D) where
  unfoldable pub make_cache : List VariableAccess
  unfolding note_constraints
  make_cache = note_constraints less 0 pb.less_constraints (
      note_constraints greater 0 pb.greater_constraints (
        note_constraints equal 0 pb.equal_constraints
          (replicate (length pb.vars.values) no_access)))

  -- No value yet, and each counter the length of its constraint.
  unfoldable pub init_progress : Progress
  init_progress = record {
    vars = [];
    equal_constraints = map (λ (c : Constraint). length c.elements) pb.equal_constraints;
    greater_constraints = map (λ (c : Constraint). length c.elements) pb.greater_constraints;
    less_constraints = map (λ (c : Constraint). length c.elements) pb.less_constraints;
    lifo = [];
  }

  unfoldable pub try_affect_variable : Progress → Result Fault Progress
  unfolding try_affect_constraints
  try_affect_variable s = try_affect_constraints equal 0 pb.equal_constraints s >>= λ t.
      try_affect_constraints greater 0 pb.greater_constraints t >>= λ u.
      try_affect_constraints less 0 pb.less_constraints u

  -- `operator()()` up to the end of the first `affects`.
  unfoldable pub propagate : Result Fault Progress
  unfolding init_progress try_affect_bounded_variable try_affect_variable make_cache affects
  propagate =
      try_affect_variable (try_affect_bounded_variable 0 pb.vars.values init_progress) >>= λ s.
      affects pb (fuel_of s) make_cache s

  -- `operator()(variable_index, variable_value)` up to the end of the first `affects`.
  unfoldable pub propagate_value : ℕ → Bool → Result Fault Progress
  unfolding init_progress push_value make_cache affects
  propagate_value variable_index variable_value =
      let s = push_value init_progress (some (variable_index, variable_value)) in
      affects pb (fuel_of s) make_cache s
