-- ===== src/Solution/Tests.antt =====
-- Runs of the check of a solution.
use baryonyx.Base.{◌≡◌, refl, Bool, true, false, List, [], ◌∷◌, some, map, ◌↔◌, arith}
use baryonyx.Base.Int.{ℤ, pos}
use baryonyx.Base.Result.{ok}
use baryonyx.Solution.{Solution, SolverResult, success, is_valid_solution, is_valid_solution_impl}
use baryonyx.Solution.Checked.{
  IsComplete, MeetsRaw, value_of, is_valid_solution-MeetsRaw, is_valid_solution_impl-MeetsRaw,
}
use baryonyx.Samples.{raw_sample}

abbrev found : Solution ℤ
found = record { variables = pos 1 ∷ pos 0 ∷ pos 0 ∷ []; value = pos 11 }

-- c was given the value 1 before the solver ran.
abbrev outcome : SolverResult ℤ
outcome = record {
  affected_vars = record { names = "c" ∷ []; values = pos 1 ∷ [] };
  variable_name = "a" ∷ "b" ∷ "d" ∷ [];
  solutions = found ∷ [];
  status = success;
}

outcome-IsComplete : IsComplete raw_sample outcome found
outcome-IsComplete = record {
  succeeded = refl;
  found = refl;
  sizes = refl;
  affected_sizes = refl;
  bounds = refl;
  total = refl;
  some_name = omega arith;
  named = ((true, refl), ((false, refl), ((true, refl), ((false, refl), tt))));
}

is_valid_solution_example :
    (vs : List Bool) × (map some vs ≡ map (value_of raw_sample outcome found) raw_sample.vars.names)
    × ((is_valid_solution raw_sample outcome ≡ ok true) ↔ MeetsRaw raw_sample vs)
is_valid_solution_example = is_valid_solution-MeetsRaw raw_sample outcome found outcome-IsComplete

is_valid_solution_impl_example :
    (is_valid_solution_impl raw_sample (true ∷ false ∷ true ∷ false ∷ []) ≡ ok true)
    ↔ MeetsRaw raw_sample (true ∷ false ∷ true ∷ false ∷ [])
is_valid_solution_impl_example =
    is_valid_solution_impl-MeetsRaw raw_sample (true ∷ false ∷ true ∷ false ∷ []) (omega arith) refl
      refl
