-- ===== src/Merge.antt =====
-- The merge of constraints on the same function: lib/src/merged-constraint.cpp, and the record
-- `merged_constraint` of lib/src/itm-common.hpp.
-- The hash map from functions to positions is an association list: it is only filled and searched,
-- and its hash agrees with its equality. `numeric_cast<int>` of an `int` is the identity.
use baryonyx.Base.{
  ℕ, ◌≡◌, Bool, true, false, List, [], ◌∷◌, ◌++◌, ◌&&◌, if◌then◌else◌, Option, none, some, length,
  get_elem?, get_or, set, replicate, modify, map, ltb, ◌+◌,
}
use baryonyx.Base.Int.{ℤ, pos, ◌+ℤ◌, leb_ℤ, ltb_ℤ, min_ℤ, max_ℤ, int_min, int_max}
use baryonyx.Base.Result.{Result, ok, err, ◌>>=◌, each, loop}
use baryonyx.Base.Sort.{sort_by}
use baryonyx.Problem.{
  FunctionElement, Constraint, Problem, elements_eq, ProblemDefinitionFailure, multiple_constraint,
  OperatorType, equal, greater, less, ObjectiveFunctionElement,
}
use baryonyx.Double.{Double}
use baryonyx.Parameters.{
  PreConstraintOrder, less_greater_equal, less_equal_greater, greater_less_equal,
  greater_equal_less, equal_less_greater, equal_greater_less, p1, p2, p3, p4,
}
pub mod Sound
pub mod Equivalence
pub mod Orders
mod Tests

pub record MergedConstraint : Type 0 where
  pub elements : List FunctionElement
  pub min : ℤ
  pub max : ℤ
  pub id : ℤ

abbrev pub Cache : Type 0
Cache = List (List FunctionElement × ℕ)

-- The cache and the merged constraints so far.
pub record Filled : Type 0 where
  pub cache : Cache
  pub ret : List MergedConstraint

abbrev pub nothing_filled : Filled
nothing_filled = record { cache = []; ret = [] }

unfoldable pub find : List FunctionElement → Cache → Option ℕ
unfolding elements_eq
find els [] = none
find els ((key, i) ∷ cache) = if elements_eq key els then some i else find els cache

-- `cache.emplace(…, ret.size())` and `ret.emplace_back(…)`.
unfoldable pub emplace : Filled → List FunctionElement → ℤ → ℤ → ℤ → Filled
emplace s els min max id = record {
  cache = (els, length s.ret) ∷ s.cache;
  ret = s.ret ++ record { elements = els; min = min; max = max; id = id } ∷ [];
}

abbrev pub set_bounds : ℤ → ℤ → MergedConstraint → MergedConstraint
set_bounds lo hi m = record m { min = lo; max = hi }

-- The branch of an equality constraint whose function is at position `i`. The read `ret[i]` out of
-- range is undefined in the source; it is left out, as no state that is reached has it.
unfoldable pub merge_equal :
    Filled → Constraint → ℕ → Option MergedConstraint → Result ProblemDefinitionFailure Filled
merge_equal s elem i none = ok s
merge_equal s elem i (some m) =
    if leb_ℤ m.min elem.value && leb_ℤ elem.value m.max
    then ok (record s { ret = modify s.ret i (set_bounds elem.value elem.value) })
    else err (record { element = "equal"; failure = multiple_constraint })

unfoldable pub fill_equal : Filled → Constraint → Result ProblemDefinitionFailure Filled
unfolding find emplace merge_equal
fill_equal s elem = elim (find elem.elements s.cache) [
  | none ↦ ok (emplace s elem.elements elem.value elem.value elem.id)
  | some i ↦ merge_equal s elem i (get_elem? s.ret i)
]

abbrev pub lower_max : ℤ → MergedConstraint → MergedConstraint
lower_max value m = record m { max = min_ℤ m.max value }

abbrev pub raise_min : ℤ → MergedConstraint → MergedConstraint
raise_min value m = record m { min = max_ℤ m.min value }

unfoldable pub fill_less : Filled → Constraint → Filled
unfolding find emplace
fill_less s elem = elim (find elem.elements s.cache) [
  | none ↦ emplace s elem.elements int_min elem.value elem.id
  | some i ↦ record s { ret = modify s.ret i (lower_max elem.value) }
]

unfoldable pub fill_greater : Filled → Constraint → Filled
unfolding find emplace
fill_greater s elem = elim (find elem.elements s.cache) [
  | none ↦ emplace s elem.elements elem.value int_max elem.id
  | some i ↦ record s { ret = modify s.ret i (raise_min elem.value) }
]

module _ {D : Type 0} (pb : Problem D) where
  unfoldable pub fill_merged_constraints :
      Filled → OperatorType → Result ProblemDefinitionFailure Filled
  unfolding fill_equal fill_less fill_greater
  fill_merged_constraints s equal = each fill_equal s pb.equal_constraints
  fill_merged_constraints s less = ok (loop fill_less s pb.less_constraints)
  fill_merged_constraints s greater = ok (loop fill_greater s pb.greater_constraints)

  unfoldable pub make_unsorted_merged_constraints :
      Result ProblemDefinitionFailure (List MergedConstraint)
  unfolding fill_merged_constraints
  make_unsorted_merged_constraints = do
    filled ← each fill_merged_constraints nothing_filled (equal ∷ less ∷ greater ∷ [])
    ok (sort_by (λ lhs rhs. ltb_ℤ lhs.id rhs.id) filled.ret)

-- The order of the calls in `make_ordered_merged_constraints`; no call for the other parameters.
unfoldable pub operators_of : PreConstraintOrder → List OperatorType
operators_of less_greater_equal = less ∷ greater ∷ equal ∷ []
operators_of less_equal_greater = less ∷ equal ∷ greater ∷ []
operators_of greater_less_equal = greater ∷ less ∷ equal ∷ []
operators_of greater_equal_less = greater ∷ equal ∷ less ∷ []
operators_of equal_less_greater = equal ∷ less ∷ greater ∷ []
operators_of equal_greater_less = equal ∷ greater ∷ less ∷ []
operators_of _ = []

unfoldable pub make_ordered_merged_constraints :
    {D : Type 0}
    → PreConstraintOrder
    → Problem D
    → Result ProblemDefinitionFailure (List MergedConstraint)
unfolding fill_merged_constraints operators_of
make_ordered_merged_constraints order pb = do
  filled ← each (fill_merged_constraints pb) nothing_filled (operators_of order)
  ok filled.ret

unfoldable pub improve_memory_usage : List MergedConstraint → List MergedConstraint
improve_memory_usage csts =
    map
      (λ (cst : MergedConstraint). record cst {
        elements =
            sort_by (λ (lhs : FunctionElement) rhs. ltb lhs.variable_index rhs.variable_index)
              cst.elements;
      })
      csts

module _ (fl : Double) where
  open fl use {D, zero as d_zero, of_int, ◌÷◌, ltb as ltb_d}

  -- `variable_constraint_degree`: in how many elements each variable stands.
  unfoldable pub count_degrees : List MergedConstraint → List ℤ → List ℤ
  count_degrees csts degrees =
      loop
        (λ ds (cst : MergedConstraint).
          loop (λ ds' (e : FunctionElement). modify ds' e.variable_index (λ d. d +ℤ pos 1)) ds
            cst.elements)
        degrees csts

  unfoldable pub variable_costs : List (ObjectiveFunctionElement D) → List ℤ → List D → List D
  variable_costs elems degrees costs =
      loop
        (λ cs (e : ObjectiveFunctionElement D).
          set cs e.variable_index (e.factor ÷ of_int (get_or degrees e.variable_index (pos 0))))
        costs elems

  min_d : D → D → D
  min_d a b = if ltb_d b a then b else a

  -- The least cost of a constraint's variables; `elements[0]` of no element is undefined.
  unfoldable pub ratio_min : List D → List FunctionElement → D
  unfolding min_d
  ratio_min costs [] = d_zero
  ratio_min costs (e ∷ es) =
      loop (λ m (f : FunctionElement). min_d m (get_or costs f.variable_index d_zero))
        (get_or costs e.variable_index d_zero) es

  unfoldable pub ratios_from : ℕ → List D → List MergedConstraint → List (ℕ × D)
  unfolding ratio_min
  ratios_from i costs [] = []
  ratios_from i costs (c ∷ cs) = (i, ratio_min costs c.elements) ∷ ratios_from (i + 1) costs cs

  abbrev ratio_lt : PreConstraintOrder → ℕ × D → ℕ × D → Bool
  ratio_lt PreConstraintOrder.p1 lhs rhs = ltb_d rhs.1 lhs.1
  ratio_lt _ lhs rhs = ltb_d lhs.1 rhs.1

  -- `csts[i].id = constraints_ratio_min[i].first`.
  unfoldable pub assign_ids : List MergedConstraint → List (ℕ × D) → List MergedConstraint
  assign_ids (c ∷ cs) (r ∷ rs) = record c { id = pos r.0 } ∷ assign_ids cs rs
  assign_ids cs rs = cs

  unfoldable pub reorder_special :
      PreConstraintOrder → Problem D → List MergedConstraint → List MergedConstraint
  unfolding count_degrees variable_costs ratios_from assign_ids
  reorder_special order pb csts =
      let n = length pb.vars.values in
      let costs =
        variable_costs pb.objective.elements (count_degrees csts (replicate n (pos 0)))
          (replicate n d_zero) in
      let ratios = sort_by (ratio_lt order) (ratios_from 0 costs csts) in
      let sorted =
        sort_by (λ (lhs : MergedConstraint) rhs. ltb_ℤ lhs.id rhs.id) (assign_ids csts ratios) in
      map
        (λ (c : MergedConstraint). record c {
          elements =
              sort_by
                (λ (lhs : FunctionElement) rhs.
                  ltb_d (get_or costs rhs.variable_index d_zero)
                    (get_or costs lhs.variable_index d_zero))
                c.elements;
        })
        sorted

  unfoldable pub make_special_merged_constraints :
      PreConstraintOrder → Problem D → Result ProblemDefinitionFailure (List MergedConstraint)
  unfolding make_unsorted_merged_constraints reorder_special
  make_special_merged_constraints order pb = do
    csts ← make_unsorted_merged_constraints pb
    ok (reorder_special order pb csts)

  unfoldable pub make_merged_constraints :
      PreConstraintOrder → Problem D → Result ProblemDefinitionFailure (List MergedConstraint)
  unfolding make_unsorted_merged_constraints make_ordered_merged_constraints
      make_special_merged_constraints improve_memory_usage
  make_merged_constraints PreConstraintOrder.none pb = make_unsorted_merged_constraints pb
  make_merged_constraints PreConstraintOrder.memory pb = do
    csts ← make_unsorted_merged_constraints pb
    ok (improve_memory_usage csts)
  make_merged_constraints PreConstraintOrder.p1 pb = make_special_merged_constraints p1 pb
  make_merged_constraints PreConstraintOrder.p2 pb = make_special_merged_constraints p2 pb
  make_merged_constraints PreConstraintOrder.p3 pb = make_special_merged_constraints p3 pb
  make_merged_constraints PreConstraintOrder.p4 pb = make_special_merged_constraints p4 pb
  make_merged_constraints order pb = do
    csts ← make_ordered_merged_constraints order pb
    ok (improve_memory_usage csts)
