-- ===== src/Problem/Tests.antt =====
-- Runs of the problem model on a small problem.
use baryonyx.Base.{◌≡◌, refl, ◌↔◌}
use baryonyx.Problem.{which_problem_type, inequalities_z}
use baryonyx.Problem.Classify.{Suits, which_problem_type-Suits}
use baryonyx.Samples.{sample}

sample_type : which_problem_type sample ≡ inequalities_z
unfolding which_problem_type
sample_type = refl

which_problem_type_example :
    (which_problem_type sample ≡ inequalities_z) ↔ Suits sample inequalities_z
which_problem_type_example = which_problem_type-Suits sample inequalities_z
