-- ===== src/Solver/Tests.antt =====
-- Runs of the check that the solvers share.
use baryonyx.Base.{
  ℕ, zero, suc, ◌≡◌, [], ◌∷◌, true, not, ◌&&◌, ltb, if◌then◌else◌, count, length, ◌↔◌,
}
use baryonyx.Base.Int.{ℤ, pos}
use baryonyx.Solver.{Solver, is_valid_constraint, is_valid_solution, compute_violated_constraints}
use baryonyx.Solver.Violated.{compute_violated_constraints-count}

-- x0 + x1 = 1 and x0 = 0, at an assignment of ones.
abbrev pair : Solver
pair = record {
  m = 2;
  row = λ k. (elim k [
    | zero ↦ record { value = 0; column = 0 } ∷ record { value = 1; column = 1 } ∷ []
    | suc _ ↦ record { value = 2; column = 0 } ∷ []
  ]);
  factor = λ i. pos 1;
  bound_min = λ k. (elim k [ zero ↦ pos 1 | suc _ ↦ pos 0 ]);
  bound_max = λ k. (elim k [ zero ↦ pos 1 | suc _ ↦ pos 0 ]);
}

abbrev all_ones : ℕ → ℤ
all_ones i = pos 1

compute_violated_constraints_example :
    ((j : ℕ)
      → count j (compute_violated_constraints pair all_ones).0
        ≡ (if ltb j 2 && not (is_valid_constraint pair all_ones j) then 1 else 0))
    × ((compute_violated_constraints pair all_ones).1
        ≡ length (compute_violated_constraints pair all_ones).0)
    × ((is_valid_solution pair all_ones ≡ true)
        ↔ ((compute_violated_constraints pair all_ones).0 ≡ []))
compute_violated_constraints_example = compute_violated_constraints-count pair all_ones
