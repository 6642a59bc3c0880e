-- ===== src/Preprocess/Objective.antt =====
-- The objective function in the preprocessor (lib/src/preprocessor.cpp):
-- `make_lp_from_bqp_objective`, `try_remove_unused_variable` and `objective_function_exclude_copy`.
use baryonyx.Base.{
  ℕ, suc, Bool, true, List, [], ◌∷◌, ◌++◌, ◌&&◌, ◌||◌, ◌==◌, if◌then◌else◌, Option, none, some,
}
use baryonyx.Base.Int.{pos}
use baryonyx.Base.Result.{Result, ok, err, loop}
use baryonyx.Double.{Double}
use baryonyx.Problem.{
  Problem, ObjectiveFunction, ObjectiveFunctionElement, ObjectiveQuadraticElement,
  ObjectiveFunctionType, maximize, minimize,
}
use baryonyx.Preprocess.{Fault, end_dereferenced, VariableAccess, Progress, find_value}
use baryonyx.Preprocess.Mapping.{Mapped, kept, fixed, mapped, is_unused}

-- `to_merge_with_objective_function`.
pub record MergeObjective (D : Type 0) : Type 0 where
  pub elements : List (ObjectiveFunctionElement D)
  pub value : D

module _ (fl : Double) where
  open fl use {D, zero as d_zero, of_int, ◌⊕◌, ◌÷◌, ltb as ltb_d}

  -- Whether a factor makes the value 1 the better one for the objective function.
  unfoldable pub positive : ObjectiveFunctionType → D → Bool
  positive maximize factor = ltb_d d_zero factor
  positive minimize factor = ltb_d factor d_zero

  -- The value that an unused variable is given: that of the first element with it.
  unfoldable pub unused_value : ObjectiveFunctionType → List (ObjectiveFunctionElement D) → ℕ → Bool
  unfolding positive
  unused_value type [] i = true
  unused_value type (e ∷ es) i =
      if e.variable_index == i then positive type e.factor else unused_value type es i

  unfoldable pub try_remove_unused_variable :
      Problem D → ℕ → List VariableAccess → Progress → Progress
  unfolding find_value is_unused unused_value
  try_remove_unused_variable pb i [] s = s
  try_remove_unused_variable pb i (a ∷ cache) s =
      try_remove_unused_variable pb (suc i) cache (elim (find_value s.vars i) [
        | none ↦
            (if is_unused s a
              then record s { vars = (i, unused_value pb.type pb.objective.elements i) ∷ s.vars }
              else s)
        | some _ ↦ s
      ])

  -- The linear elements of the objective function: the constant, and what stays.
  unfoldable pub copy_linear :
      List Mapped → ObjectiveFunction D → List (ObjectiveFunctionElement D) → ObjectiveFunction D
  copy_linear mapping ret [] = ret
  copy_linear mapping ret (e ∷ es) =
      copy_linear mapping
        (elim (mapped mapping e.variable_index) [
          | kept c ↦ record ret {
            elements = ret.elements ++ record { factor = e.factor; variable_index = c } ∷ [];
          }
          | fixed v ↦ (if v then record ret { value = ret.value ⊕ e.factor } else ret)
        ])
        es

  abbrev linear_on : ObjectiveFunction D → D → ℕ → ObjectiveFunction D
  linear_on ret factor c = record ret {
    elements = ret.elements ++ record { factor = factor; variable_index = c } ∷ [];
  }

  unfoldable pub copy_quadratic_element :
      ObjectiveFunction D → D → Mapped → Mapped → ObjectiveFunction D
  copy_quadratic_element ret factor (fixed va) (fixed vb) =
      if va && vb then record ret { value = ret.value ⊕ factor } else ret
  copy_quadratic_element ret factor (fixed va) (kept b) = linear_on ret factor b
  copy_quadratic_element ret factor (kept a) (fixed vb) = linear_on ret factor a
  copy_quadratic_element ret factor (kept a) (kept b) = record ret {
    qelements =
        ret.qelements
        ++ record { factor = factor; variable_index_a = a; variable_index_b = b } ∷ [];
  }

  unfoldable pub copy_quadratic :
      List Mapped → ObjectiveFunction D → List (ObjectiveQuadraticElement D) → ObjectiveFunction D
  unfolding copy_quadratic_element
  copy_quadratic mapping ret [] = ret
  copy_quadratic mapping ret (q ∷ qs) =
      copy_quadratic mapping
        (copy_quadratic_element ret q.factor (mapped mapping q.variable_index_a)
          (mapped mapping q.variable_index_b))
        qs

  -- The body of the inner loop of `make_lp_from_bqp_objective`, for the unused variable `i`.
  unfoldable pub merge_quadratic :
      ObjectiveFunctionType → ℕ → MergeObjective D → ObjectiveQuadraticElement D → MergeObjective D
  unfolding positive
  merge_quadratic type i m q =
      if q.variable_index_a == i || q.variable_index_b == i
      then (if positive type q.factor
          then (if q.variable_index_a == q.variable_index_b
              then record m { value = m.value ⊕ q.factor ÷ of_int (pos 2) }
              else record m {
                elements =
                    m.elements
                    ++ record {
                      factor = q.factor ÷ of_int (pos 2);
                      variable_index =
                          if q.variable_index_a == i
                          then q.variable_index_b
                          else q.variable_index_a;
                    }
                      ∷ [];
              })
          else m)
      else m

  unfoldable pub make_lp_from_bqp_objective :
      Problem D → Progress → ℕ → List VariableAccess → MergeObjective D → MergeObjective D
  unfolding find_value is_unused merge_quadratic
  make_lp_from_bqp_objective pb s i [] m = m
  make_lp_from_bqp_objective pb s i (a ∷ cache) m =
      make_lp_from_bqp_objective pb s (suc i) cache (elim (find_value s.vars i) [
        | none ↦
            (if is_unused s a then loop (merge_quadratic pb.type i) m pb.objective.qelements else m)
        | some _ ↦ m
      ])

  -- The factor of the first element with a variable, raised.
  unfoldable pub raise_factor :
      ℕ → D → List (ObjectiveFunctionElement D) → Option (List (ObjectiveFunctionElement D))
  raise_factor i factor [] = none
  raise_factor i factor (e ∷ es) =
      let rest = raise_factor i factor es in
      if e.variable_index == i
      then some (record e { factor = e.factor ⊕ factor } ∷ es)
      else elim rest [ none ↦ none | some fs ↦ some (e ∷ fs) ]

  -- The last loop of `objective_function_exclude_copy`. It looks for the loop's index, not for the
  -- index of the merged variable, and where that is not found it reads `*end`.
  unfoldable pub copy_merged :
      ℕ
      → List (ObjectiveFunctionElement D)
      → ObjectiveFunction D
      → Result Fault (ObjectiveFunction D)
  unfolding raise_factor
  copy_merged i [] ret = ok ret
  copy_merged i (m ∷ ms) ret = elim (raise_factor i m.factor ret.elements) [
    | none ↦ err end_dereferenced
    | some elements ↦ copy_merged (suc i) ms (record ret { elements = elements })
  ]

  unfoldable pub objective_function_exclude_copy :
      List Mapped → ObjectiveFunction D → MergeObjective D → Result Fault (ObjectiveFunction D)
  unfolding copy_linear copy_quadratic copy_merged
  objective_function_exclude_copy mapping objective merge_obj = copy_merged 0 merge_obj.elements (
      copy_quadratic mapping
        (copy_linear mapping
          (record { elements = []; qelements = []; value = objective.value ⊕ merge_obj.value })
          objective.elements)
        objective.qelements)
