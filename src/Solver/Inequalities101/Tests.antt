-- ===== src/Solver/Inequalities101/Tests.antt =====
-- A solver of lib/src/itm-solver-inequalities-101.cpp for a + b = 1 and 0 <= c - a, at the assignment
-- b = c = 1.
use baryonyx.Base.{
  ℕ, zero, suc, ◌≡◌, ◌↔◌, refl, inl, inr, true, List, [], ◌∷◌, map, some, none, arith, All, Option,
}
use baryonyx.Base.Int.{ℤ, pos, negsuc, ◌+ℤ◌, ◌*ℤ◌, max_ℤ, min_ℤ}
use baryonyx.Base.Result.{ok}
use baryonyx.Base.Sort.{sort_by}
use baryonyx.Double.{integers}
use baryonyx.Parameters.{PreConstraintOrder}
use baryonyx.Problem.{Problem, compute_function}
use baryonyx.Samples.{el, cst, sample}
use baryonyx.Merge.{MergedConstraint, make_merged_constraints}
use baryonyx.Merge.Sound.{Holds}
use baryonyx.Merge.Equivalence.{MeetsAll, SumsFit}
use baryonyx.SparseMatrix.Accessors.{InColumns}
use baryonyx.Solver.{Solver, is_valid_solution}
use baryonyx.Solver.Inequalities101.{make_solver}
use baryonyx.Solver.Inequalities101.Sums.{Binary}
use baryonyx.Solver.Inequalities101.Valid.{make_solver-Holds}
use baryonyx.Solver.Inequalities101.Merged.{make_solver-make_merged_constraints}

abbrev unit_problem : Problem ℤ
unit_problem = record sample {
  equal_constraints = cst "e" (el (pos 1) 0 ∷ el (pos 1) 1 ∷ []) (pos 1) (pos 0) ∷ [];
  greater_constraints = cst "g" (el (pos 1) 2 ∷ el (negsuc 0) 0 ∷ []) (pos 0) (pos 1) ∷ [];
  less_constraints = [];
}

abbrev merged : List MergedConstraint
merged = elim (make_merged_constraints integers PreConstraintOrder.none unit_problem) [
  | ok csts ↦ csts
  | _ ↦ []
]

abbrev solver_or : Option Solver → Solver
solver_or (some slv) = slv
solver_or none = record {
  m = 0;
  row = λ k. [];
  factor = λ k. pos 0;
  bound_min = λ k. pos 0;
  bound_max = λ k. pos 0;
}

abbrev unit_solver : Solver
unit_solver = solver_or (make_solver merged 3)

merges : make_merged_constraints integers PreConstraintOrder.none unit_problem ≡ ok merged
unfolding make_merged_constraints
merges = refl

makes : make_solver merged 3 ≡ some unit_solver
unfolding make_solver make_merged_constraints max_ℤ min_ℤ
makes = refl

merged-InColumns : All (InColumns 3) (map (λ c. c.elements) merged)
unfolding make_merged_constraints sort_by
merged-InColumns = ((omega arith, (omega arith, tt)), ((omega arith, (omega arith, tt)), tt))

abbrev x : ℕ → ℤ
x zero = pos 0
x (suc v) = pos 1

x-Binary : Binary x
x-Binary zero = inl refl
x-Binary (suc v) = inr refl

x-SumsFit : SumsFit x unit_problem
unfolding compute_function ◌+ℤ◌ ◌*ℤ◌
x-SumsFit = (tt, ((omega arith, omega arith), tt))

make_solver-Holds_example : (is_valid_solution unit_solver x ≡ true) ↔ All (Holds x) merged
make_solver-Holds_example = make_solver-Holds merged 3 unit_solver x merged-InColumns makes x-Binary

make_solver-make_merged_constraints_example :
    (is_valid_solution unit_solver x ≡ true) ↔ MeetsAll x unit_problem
make_solver-make_merged_constraints_example =
    make_solver-make_merged_constraints integers PreConstraintOrder.none unit_problem x merged 3
      unit_solver x-SumsFit merges merged-InColumns makes x-Binary
