-- ===== src/Solver.antt =====
-- What the solvers share: lib/src/itm-common.hpp, the check of an assignment and the list of the
-- violated constraints. A solver class is the record `Solver` of what these templates use of it.
use baryonyx.Base.{ℕ, zero, suc, Bool, true, false, List, [], ◌∷◌, ◌&&◌, not, if◌then◌else◌, length}
use baryonyx.Base.Int.{ℤ, pos, ◌+ℤ◌, ◌*ℤ◌, leb_ℤ}
use baryonyx.Base.Result.{loop}
use baryonyx.Double.{Double}
use baryonyx.SparseMatrix.{RowValue}
pub mod Violated
pub mod Inequalities101
mod Tests

pub record Solver : Type 0 where
  pub m : ℕ
  pub row : ℕ → List RowValue
  pub factor : ℕ → ℤ
  pub bound_min : ℕ → ℤ
  pub bound_max : ℕ → ℤ

-- `minimize_tag` and `maximize_tag`.
pub data Mode : Type 0 where
  minimize_tag maximize_tag : Mode

module _ (slv : Solver) (x : ℕ → ℤ) where
  unfoldable pub row_sum : ℤ → List RowValue → ℤ
  row_sum v [] = v
  row_sum v (r ∷ rs) = row_sum (v +ℤ slv.factor r.value *ℤ x r.column) rs

  unfoldable pub is_valid_constraint : ℕ → Bool
  unfolding row_sum
  is_valid_constraint k =
      let v = row_sum (pos 0) (slv.row k) in leb_ℤ (slv.bound_min k) v && leb_ℤ v (slv.bound_max k)

  -- The loop of `is_valid_solution`, from `k` on.
  unfoldable pub valid_from : ℕ → ℕ → Bool
  valid_from k zero = true
  valid_from k (suc n) =
      let rest = valid_from (suc k) n in if not (is_valid_constraint k) then false else rest

  unfoldable pub is_valid_solution : Bool
  unfolding valid_from
  is_valid_solution = valid_from 0 slv.m

  unfoldable pub violated_from : ℕ → ℕ → List ℕ
  violated_from k zero = []
  violated_from k (suc n) =
      let rest = violated_from (suc k) n in if not (is_valid_constraint k) then k ∷ rest else rest

  -- `out` and the length that is returned.
  unfoldable pub compute_violated_constraints : List ℕ × ℕ
  unfolding violated_from
  compute_violated_constraints = let out = violated_from 0 slv.m in (out, length out)

module _ (fl : Double) where
  open fl use {D, zero as d_zero, ltb as ltb_d, eqb as eqb_d}

  -- `stop_iterating(value)`.
  unfoldable pub stop_iterating : Mode → D → Bool
  stop_iterating minimize_tag value = ltb_d d_zero value
  stop_iterating maximize_tag value = ltb_d value d_zero

  unfoldable pub is_better_solution : Mode → D → D → Bool
  is_better_solution minimize_tag lhs rhs = ltb_d lhs rhs
  is_better_solution maximize_tag lhs rhs = ltb_d rhs lhs

  unfoldable pub init_x : Mode → D → Bool → Bool
  init_x minimize_tag cost value_if_cost_0 =
      if ltb_d cost d_zero then true else if eqb_d cost d_zero then value_if_cost_0 else false
  init_x maximize_tag cost value_if_cost_0 =
      if ltb_d d_zero cost then true else if eqb_d cost d_zero then value_if_cost_0 else false
