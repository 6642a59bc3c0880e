-- ===== src/Preprocess/Copy.antt =====
-- The second part of the preprocessor's run (lib/src/preprocessor.cpp): `make_problem`, which writes
-- the problem that is left, and the functions `preprocess`, `affect` and `split`.
use Prim.Native.String.{String}
use baryonyx.Base.{
  ℕ, suc, Bool, true, false, List, [], ◌∷◌, ◌++◌, if◌then◌else◌, none, some, length, leb, ltb,
}
use baryonyx.Base.Int.{ℤ, ◌-ℤ◌}
use baryonyx.Base.Result.{Result, ok, err, ◌>>=◌}
use baryonyx.Double.{Double}
use baryonyx.Problem.{
  FunctionElement, Constraint, ObjectiveFunction, Problem, VariableValue, Variables,
  AffectedVariables, equalities_01, which_problem_type,
}
use baryonyx.Preprocess.{Fault, assertion, VariableValues, Progress, find_value, affects, bit}
use baryonyx.Preprocess.Mapping.{Mapped, kept, fixed, mapped, mapping_from}
use baryonyx.Preprocess.Objective.{
  MergeObjective, make_lp_from_bqp_objective, try_remove_unused_variable,
  objective_function_exclude_copy,
}
use baryonyx.Preprocess.Start.{make_cache, fuel_of, propagate, propagate_value}
pub mod Constraints
pub mod Assign
pub mod Live
pub mod Feasible
pub mod Value
pub mod Names

-- The loop over the elements of a constraint that is copied.
unfoldable pub copy_elements :
    List Mapped → List FunctionElement → ℤ → List FunctionElement → ℤ × List FunctionElement
copy_elements mapping done value [] = (value, done)
copy_elements mapping done value (e ∷ es) = elim (mapped mapping e.variable_index) [
  | kept c ↦
      copy_elements mapping (done ++ record { factor = e.factor; variable_index = c } ∷ []) value es
  | fixed v ↦ copy_elements mapping done (if v then value -ℤ e.factor else value) es
]

unfoldable pub copy_constraint : List Mapped → Constraint → Constraint
unfolding copy_elements
copy_constraint mapping c =
    let r = copy_elements mapping [] c.value c.elements in record c { value = r.0; elements = r.1 }

-- `constraints_exclude_copy`; the sizes go along with the constraints.
unfoldable pub constraints_exclude_copy : List Mapped → List ℕ → List Constraint → List Constraint
unfolding copy_constraint
constraints_exclude_copy mapping sizes [] = []
constraints_exclude_copy mapping [] (c ∷ cs) = []
constraints_exclude_copy mapping (n ∷ sizes) (c ∷ cs) =
    if leb n 1
    then constraints_exclude_copy mapping sizes cs
    else copy_constraint mapping c ∷ constraints_exclude_copy mapping sizes cs

-- `variables_exclude_copy`: what stays, and what joins the affected variables. There is a name for each
-- variable; a read past the end of the names is undefined in the source.
unfoldable pub variables_exclude_copy :
    VariableValues
    → ℕ
    → List String
    → List VariableValue
    → Variables
    → AffectedVariables
    → Variables × AffectedVariables
unfolding find_value
variables_exclude_copy vars i (n ∷ names) (v ∷ values) left affected = elim (find_value vars i) [
  | none ↦
      variables_exclude_copy vars (suc i) names values
        (record { names = left.names ++ n ∷ []; values = left.values ++ v ∷ [] }) affected
  | some b ↦
      variables_exclude_copy vars (suc i) names values left
        (record { names = affected.names ++ n ∷ []; values = affected.values ++ bit b ∷ [] })
]
variables_exclude_copy vars i _ _ left affected = (left, affected)

module _ (fl : Double) where
  open fl use {D, zero as d_zero}

  -- The copy, with its objective function.
  unfoldable pub copied_problem : Problem D → Progress → ObjectiveFunction D → Problem D
  unfolding mapping_from variables_exclude_copy constraints_exclude_copy which_problem_type
  copied_problem pb s objective =
      let mapping = mapping_from s.vars 0 0 (length pb.vars.values) in
      let vs =
        variables_exclude_copy s.vars 0 pb.vars.names pb.vars.values
          (record { names = []; values = [] }) pb.affected_vars in
      let copy : Problem D = record {
        objective = objective;
        equal_constraints =
            constraints_exclude_copy mapping s.equal_constraints pb.equal_constraints;
        greater_constraints =
            constraints_exclude_copy mapping s.greater_constraints pb.greater_constraints;
        less_constraints = constraints_exclude_copy mapping s.less_constraints pb.less_constraints;
        vars = vs.0;
        affected_vars = vs.1;
        type = pb.type;
        problem_type = equalities_01;
      } in
      record copy { problem_type = which_problem_type copy }

  -- The `bx_assert` on the number of the variables that stay and the two `bx_ensures` on names and
  -- indexes are left out.
  unfoldable pub make_problem : Problem D → Progress → MergeObjective D → Result Fault (Problem D)
  unfolding mapping_from objective_function_exclude_copy copied_problem
  make_problem pb s merge_obj =
      let mapping = mapping_from s.vars 0 0 (length pb.vars.values) in
      objective_function_exclude_copy fl mapping pb.objective merge_obj >>= λ objective.
      ok (copied_problem pb s objective)

  -- The end of both runs: the objective function, unused variables, the second `affects`, and the
  -- problem that is left.
  unfoldable pub finish_run : Problem D → Progress → Result Fault (Problem D)
  unfolding make_lp_from_bqp_objective try_remove_unused_variable affects make_problem make_cache
  finish_run pb s =
      let merge_obj =
        make_lp_from_bqp_objective fl pb s 0 (make_cache pb)
          (record { elements = []; value = d_zero }) in
      let t = try_remove_unused_variable fl pb 0 (make_cache pb) s in
      affects pb (fuel_of t) (make_cache pb) t >>= λ u. make_problem pb u merge_obj

  unfoldable pub preprocess : Problem D → Result Fault (Problem D)
  unfolding propagate finish_run
  preprocess pb = propagate pb >>= λ s. finish_run pb s

  -- `operator()(variable_index, variable_value)`; a failing `bx_expects` is an assertion here too.
  unfoldable pub affect : Problem D → ℕ → Bool → Result Fault (Problem D)
  unfolding propagate_value finish_run
  affect pb variable_index variable_value =
      if ltb variable_index (length pb.vars.values)
      then (propagate_value pb variable_index variable_value >>= λ s. finish_run pb s)
      else err assertion

  -- The two calls go through one preprocessor, which clears its state at the start of each.
  unfoldable pub split : Problem D → ℕ → Result Fault (Problem D × Problem D)
  unfolding affect
  split pb variable_index_to_affect = affect pb variable_index_to_affect true >>= λ t.
      affect pb variable_index_to_affect false >>= λ f. ok (t, f)
