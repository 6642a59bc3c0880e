-- ===== src/Solver/Inequalities101/Merged.antt =====
-- A problem whose constraints are merged (lib/src/merged-constraint.cpp) and given to the solver of
-- lib/src/itm-solver-inequalities-101.cpp.
use baryonyx.Base.{ℕ, ◌≡◌, ◌↔◌, subst, true, List, map, All, some}
use baryonyx.Base.Int.{ℤ}
use baryonyx.Base.Result.{ok}
use baryonyx.Double.{Double}
use baryonyx.Parameters.{PreConstraintOrder}
use baryonyx.Problem.{Problem}
use baryonyx.Merge.{MergedConstraint, make_merged_constraints}
use baryonyx.Merge.Sound.{Holds}
use baryonyx.Merge.Equivalence.{MeetsAll, SumsFit}
use baryonyx.Merge.Orders.{Faithful, make_merged_constraints-Faithful}
use baryonyx.SparseMatrix.Accessors.{InColumns}
use baryonyx.Solver.{Solver, is_valid_solution}
use baryonyx.Solver.Inequalities101.{make_solver}
use baryonyx.Solver.Inequalities101.Sums.{Binary}
use baryonyx.Solver.Inequalities101.Valid.{make_solver-Holds}

-- The solver that is made of the merged constraints of a problem accepts an assignment to 0 and 1
-- exactly if it meets every equality, less and greater constraint of the problem, for every order
-- parameter. The merge and the constructor return, the variables of the merged constraints are below
-- `n`, and the sums of the inequalities at the assignment fit an `int`.
pub make_solver-make_merged_constraints :
    (fl : Double) (order : PreConstraintOrder) (pb : Problem fl.D) (x : ℕ → ℤ)
    (csts : List MergedConstraint) (n : ℕ) (slv : Solver)
    → SumsFit x pb
    → make_merged_constraints fl order pb ≡ ok csts
    → All (InColumns n) (map (λ c. c.elements) csts)
    → make_solver csts n ≡ some slv
    → Binary x
    → (is_valid_solution slv x ≡ true) ↔ MeetsAll x pb
make_solver-make_merged_constraints fl order pb x csts n slv fits merges inside made binary =
    let valid = make_solver-Holds csts n slv x inside made binary in
    let faithful : All (Holds x) csts ↔ MeetsAll x pb =
      subst (Faithful x (MeetsAll x pb)) merges
        (make_merged_constraints-Faithful fl order pb x fits) in
    (λ h. faithful.0 (valid.0 h), λ h. valid.1 (faithful.1 h))
