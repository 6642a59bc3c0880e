-- ===== src/Preprocess/Tests.antt =====
-- Runs of the preprocessor on a small problem.
use baryonyx.Base.{get_elem?, ℕ, Bool, arith, ◌≡◌, refl, true, false, ◌⊎◌, ◌↔◌, [], ◌∷◌, List, All}
use baryonyx.Base.Int.{ℤ, pos, ◌+ℤ◌, ◌*ℤ◌}
use baryonyx.Base.Result.{ok, err}
use baryonyx.Problem.{equal, greater, less, compute_function, Constraint}
use baryonyx.Problem.{ObjectiveFunction}
use baryonyx.Solution.{objective_value}
use baryonyx.Preprocess.Objective.{objective_function_exclude_copy}
use baryonyx.Preprocess.Copy.Value.{nothing, excess, objective_function_exclude_copy-value}
use baryonyx.Preprocess.{Progress, reached}
use baryonyx.Preprocess.Reduce.{Agrees, HoldsAt, bits}
use baryonyx.Preprocess.Start.{propagate, propagate_value}
use baryonyx.Preprocess.Begin.{InBounds}
use baryonyx.Preprocess.Sound.{MeetsAll, propagate_ends, propagate_sound, propagate_value_sound}
use baryonyx.Preprocess.Mapping.{Mapped, kept, fixed, mapped, mapping_from}
use baryonyx.Preprocess.Copy.{copy_constraint, constraints_exclude_copy}
use baryonyx.Preprocess.Copy.Constraints.{
  restore, copy_constraint-HoldsAt, constraints_exclude_copy-LiveHold, LiveHold,
}
use baryonyx.Preprocess.Copy.Names.{copied_problem-name}
use baryonyx.Preprocess.Copy.{copied_problem}
use baryonyx.Preprocess.Copy.Live.{InRange}
use baryonyx.Preprocess.Copy.Feasible.{
  HasSolution, preprocess-HasSolution, affect-HasSolution, preprocess_linear,
}
use baryonyx.Preprocess.Copy.{preprocess, affect}
use baryonyx.Problem.{Problem}
use baryonyx.Double.{integers}
use baryonyx.Samples.{linear_sample, sample, solution, cst, el}

sample-MeetsAll : MeetsAll sample solution
unfolding compute_function ◌+ℤ◌ ◌*ℤ◌
sample-MeetsAll equal = (refl, tt)
sample-MeetsAll greater = (refl, tt)
sample-MeetsAll less = (refl, (refl, tt))

sample-InBounds : InBounds solution 0 sample.vars.values
sample-InBounds = (
  omega arith,
  omega arith,
  (omega arith, omega arith, (omega arith, omega arith, (omega arith, omega arith, tt))),
)

propagate_ends_example :
    ((t : Progress) × (propagate sample ≡ ok t) × (t.lifo ≡ [])) ⊎ (propagate sample ≡ err reached)
propagate_ends_example = propagate_ends sample

propagate_sound_example :
    (t : Progress) × (propagate sample ≡ ok t) × (t.lifo ≡ []) × Agrees t.vars solution
propagate_sound_example = propagate_sound sample solution sample-MeetsAll sample-InBounds

propagate_value_sound_example :
    (t : Progress) × (propagate_value sample 1 false ≡ ok t)
    × (t.lifo ≡ [])
    × Agrees t.vars solution
propagate_value_sound_example = propagate_value_sound sample solution 1 false sample-MeetsAll refl

-- c is gone with the value 1.
abbrev without_c : List Mapped
without_c = kept 0 ∷ kept 1 ∷ fixed true ∷ kept 2 ∷ []

abbrev wide : Constraint
wide = cst "l" (el (pos 1) 0 ∷ el (pos 1) 1 ∷ el (pos 1) 2 ∷ []) (pos 2) (pos 2)

copy_constraint_example :
    HoldsAt less solution (copy_constraint without_c wide)
    ↔ HoldsAt less (restore without_c solution) wide
copy_constraint_example = copy_constraint-HoldsAt without_c solution less wide

constraints_exclude_copy_example :
    All
      (HoldsAt less solution)
      (constraints_exclude_copy without_c (2 ∷ 1 ∷ []) sample.less_constraints)
    ↔ LiveHold less (restore without_c solution) (2 ∷ 1 ∷ []) sample.less_constraints
constraints_exclude_copy_example =
    constraints_exclude_copy-LiveHold without_c solution less (2 ∷ 1 ∷ []) sample.less_constraints

sample-InRange : InRange sample
sample-InRange equal = ((omega arith, (omega arith, tt)), tt)
sample-InRange greater = ((omega arith, tt), tt)
sample-InRange less =
    ((omega arith, (omega arith, (omega arith, tt))), ((omega arith, (omega arith, tt)), tt))

preprocess_example : HasSolution (preprocess integers sample)
preprocess_example =
    preprocess-HasSolution integers sample solution sample-InRange sample-MeetsAll sample-InBounds

affect_example : HasSolution (affect integers sample 1 false)
affect_example =
    affect-HasSolution integers sample solution 1 false sample-InRange sample-MeetsAll (omega arith)
      refl

linear-MeetsAll : MeetsAll linear_sample solution
linear-MeetsAll equal = sample-MeetsAll equal
linear-MeetsAll greater = sample-MeetsAll greater
linear-MeetsAll less = sample-MeetsAll less

linear-InRange : InRange linear_sample
linear-InRange equal = sample-InRange equal
linear-InRange greater = sample-InRange greater
linear-InRange less = sample-InRange less

preprocess_linear_example :
    (q : Problem ℤ) × (preprocess integers linear_sample ≡ ok q) × ((y : ℕ → Bool) × MeetsAll q y)
preprocess_linear_example =
    preprocess_linear integers linear_sample solution linear-InRange linear-MeetsAll sample-InBounds
      refl

-- c is gone with the value 0.
abbrev c_is_0 : List Mapped
c_is_0 = kept 0 ∷ kept 1 ∷ fixed false ∷ kept 2 ∷ []

objective_function_example :
    (c : ObjectiveFunction ℤ) × (objective_function_exclude_copy integers c_is_0 sample.objective
        nothing
      ≡ ok c)
    × (objective_value integers c (bits solution)
        ≡ objective_value integers sample.objective (bits (restore c_is_0 solution))
          +ℤ excess c_is_0 solution sample.objective.qelements)
objective_function_example = objective_function_exclude_copy-value c_is_0 sample.objective solution

-- a, b and d stay, and d is the third.
abbrev c_given : Progress
c_given = record {
  vars = (2, true) ∷ [];
  equal_constraints = 2 ∷ [];
  greater_constraints = 0 ∷ [];
  less_constraints = 2 ∷ 1 ∷ [];
  lifo = [];
}

d_stays : mapped (mapping_from c_given.vars 0 0 4) 3 ≡ kept 2
unfolding mapping_from
d_stays = refl

copied_problem-name_example :
    get_elem? (copied_problem integers sample c_given sample.objective).vars.names 2
    ≡ get_elem? sample.vars.names 3
copied_problem-name_example =
    copied_problem-name integers sample c_given sample.objective 3 2 refl d_stays
