-- ===== src/Solver/Inequalities101.antt =====
-- The solver of inequalities with the factors 1 and -1, lib/src/itm-solver-inequalities-101.cpp: what
-- its constructor makes of the constraints. The factors `A` of the bit array are a list.
use baryonyx.Base.{
  ℕ, zero, suc, ◌+◌, Bool, true, List, [], ◌∷◌, ◌++◌, map, ◌&&◌, ◌||◌, ◌==◌, if◌then◌else◌, Option,
  none, some, length, get_or,
}
use baryonyx.Base.Int.{ℤ, pos, negsuc, sub_ℕ, ltb_ℤ, leb_ℤ, eqb_ℤ, min_ℤ, max_ℤ}
use baryonyx.Problem.{FunctionElement}
use baryonyx.Merge.{MergedConstraint}
use baryonyx.SparseMatrix.{RowValue, SparseMatrix, make_matrix, row}
use baryonyx.Solver.{Solver}
pub mod Sums
pub mod Valid
pub mod Merged
mod Tests

pub record BoundFactor : Type 0 where
  pub min_value : ℤ
  pub max_value : ℤ
  pub negative_factor : ℕ

-- `std::abs(cst.factor) == 1`.
unfoldable pub is_unit : FunctionElement → Bool
is_unit e = eqb_ℤ e.factor (pos 1) || eqb_ℤ e.factor (negsuc 0)

abbrev pub all_units : List FunctionElement → Bool
all_units [] = true
all_units (e ∷ es) = is_unit e && all_units es

-- `A.set(id++)` or `A.unset(id++)`, as what `A.get` returns.
unfoldable pub sign_of : FunctionElement → ℤ
sign_of e = if ltb_ℤ (pos 0) e.factor then pos 1 else negsuc 0

abbrev pub signs : List FunctionElement → List ℤ
signs [] = []
signs (e ∷ es) = sign_of e ∷ signs es

abbrev pub all_signs : List MergedConstraint → List ℤ
all_signs [] = []
all_signs (c ∷ csts) = signs c.elements ++ all_signs csts

-- `upper` and `lower`.
unfoldable pub count_positive : List FunctionElement → ℕ
count_positive [] = 0
count_positive (e ∷ es) = (if ltb_ℤ (pos 0) e.factor then 1 else 0) + count_positive es

unfoldable pub count_negative : List FunctionElement → ℕ
count_negative [] = 0
count_negative (e ∷ es) = (if ltb_ℤ (pos 0) e.factor then 0 else 1) + count_negative es

unfoldable pub bound_of : MergedConstraint → BoundFactor
unfolding count_positive count_negative
bound_of c =
    if eqb_ℤ c.min c.max
    then record {
      min_value = c.min;
      max_value = c.max;
      negative_factor = count_negative c.elements;
    }
    else record {
      min_value = max_ℤ (sub_ℕ 0 (count_negative c.elements)) c.min;
      max_value = min_ℤ (pos (count_positive c.elements)) c.max;
      negative_factor = count_negative c.elements;
    }

-- The `bx_ensures` of a constraint.
unfoldable pub is_ensured : MergedConstraint → Bool
unfolding is_unit bound_of
is_ensured c =
    all_units c.elements
    && leb_ℤ (bound_of c).min_value (bound_of c).max_value
    && (count_positive c.elements + count_negative c.elements == length c.elements)

abbrev pub all_ensured : List MergedConstraint → Bool
all_ensured [] = true
all_ensured (c ∷ csts) = is_ensured c && all_ensured csts

abbrev pub no_bound : BoundFactor
no_bound = record { min_value = pos 0; max_value = pos 0; negative_factor = 0 }

abbrev pub entries_or_none : Option (List RowValue) → List RowValue
entries_or_none none = []
entries_or_none (some rs) = rs

unfoldable pub solver_of : List MergedConstraint → SparseMatrix → Solver
unfolding row sign_of bound_of
solver_of csts ap = record {
  m = length csts;
  row = λ k. entries_or_none (row ap k);
  factor = λ value. get_or (all_signs csts) value (pos 0);
  bound_min = λ k. (get_or (map bound_of csts) k no_bound).min_value;
  bound_max = λ k. (get_or (map bound_of csts) k no_bound).max_value;
}

-- The constructor, for `n` variables.
unfoldable pub make_solver : List MergedConstraint → ℕ → Option Solver
unfolding make_matrix is_ensured solver_of
make_solver csts n = elim (make_matrix (map (λ c. c.elements) csts) n) [
  | none ↦ none
  | some ap ↦ if all_ensured csts then some (solver_of csts ap) else none
]
