-- ===== src/ExhaustiveSolver/Tests.antt =====
-- Runs of the exhaustive solver at small inputs.
use baryonyx.Base.{◌≡◌, refl, Bool, true, false, List, [], ◌∷◌, Option, none, some, arith}
use baryonyx.Base.Int.{ℤ, pos, negsuc, ◌+ℤ◌, ltb_ℤ}
use baryonyx.Double.{integers}
use baryonyx.Solver.{minimize_tag}
use baryonyx.ExhaustiveSolver.{
  ExhaustiveSolver, RcData, is_choice, sum_from, chosen, walk, evaluate, build_constraints,
  add_constraint, BuildFault,
}
use baryonyx.ExhaustiveSolver.Choice.{IsChoice, NonZero}
use baryonyx.ExhaustiveSolver.Built.{Built, build_constraints-Built, build_constraints-no_choice}
use baryonyx.ExhaustiveSolver.Best.{Ordered}
use baryonyx.ExhaustiveSolver.Solved.{Solves, solve-build_constraints}
use baryonyx.ExhaustiveSolver.{
  ConstraintInfo, best_choice, best_from, cost_from, items_of, item_lt, solve,
}
use baryonyx.Base.Sort.{sort_by, insert_by}
use baryonyx.Solver.{is_better_solution}
use baryonyx.Base.Result.{Result, ok, err}

abbrev empty : ExhaustiveSolver
empty = record { flat_constraints = []; constraints = [] }

-- The constraint 2x + 3y - z within 1 and 2.
abbrev factors : List ℤ
factors = pos 2 ∷ pos 3 ∷ negsuc 0 ∷ []

abbrev choice : List Bool
choice = true ∷ false ∷ true ∷ []

choice-IsChoice : IsChoice factors (pos 1) (pos 2) choice
unfolding ◌+ℤ◌
choice-IsChoice = (refl, (omega arith, omega arith))

factors-NonZero : NonZero factors
factors-NonZero = (λ e. ground arith, (λ e. ground arith, (λ e. ground arith, tt)))

build_constraints_three :
    build_constraints 4 factors (pos 1) (pos 2) empty
    ≡ ok (record {
      flat_constraints =
          pos 0
          ∷ pos 3
          ∷ negsuc 0
          ∷ pos 2
          ∷ pos 0
          ∷ pos 0
          ∷ pos 2
          ∷ pos 0
          ∷ negsuc 0
          ∷ pos 2
          ∷ pos 0
          ∷ pos 0
          ∷ pos 2
          ∷ pos 0
          ∷ pos 0
          ∷ [];
      constraints = record { k = 4; start = 0; solutions = 5; bk_min = pos 1; bk_max = pos 2 } ∷ [];
    })
unfolding build_constraints add_constraint walk evaluate is_choice sum_from chosen ◌+ℤ◌
build_constraints_three = refl

-- With one element, the choice of none is not in the table, though its sum 0 is within the bounds.
build_constraints_one :
    build_constraints 0 (pos 3 ∷ []) (pos 0) (pos 5) empty
    ≡ ok (record {
      flat_constraints = pos 3 ∷ [];
      constraints = record { k = 0; start = 0; solutions = 1; bk_min = pos 0; bk_max = pos 5 } ∷ [];
    })
unfolding build_constraints add_constraint walk evaluate is_choice sum_from chosen ◌+ℤ◌
build_constraints_one = refl

build_constraints-Built_example :
    (s' : ExhaustiveSolver) × ((build_constraints 4 factors (pos 1) (pos 2) empty ≡ ok s')
      × Built 4 factors (pos 1) (pos 2) empty s')
build_constraints-Built_example =
    build_constraints-Built 4 (pos 2) (pos 3) (negsuc 0 ∷ []) (pos 1) (pos 2) empty choice refl
      choice-IsChoice

too_large : (w : List Bool) → ¬ IsChoice (pos 5 ∷ pos 7 ∷ []) (pos 1) (pos 3) w
unfolding ◌+ℤ◌
too_large [] h = absurd (omega (arith, h.0))
too_large (a ∷ []) h = absurd (omega (arith, h.0))
too_large (true ∷ true ∷ []) h = ground arith
too_large (true ∷ false ∷ []) h = ground arith
too_large (false ∷ true ∷ []) h = ground arith
too_large (false ∷ false ∷ []) h = ground arith
too_large (a ∷ b ∷ c ∷ w) h = absurd (omega (arith, h.0))

build_constraints-no_choice_example :
    build_constraints 1 (pos 5 ∷ pos 7 ∷ []) (pos 1) (pos 3) empty ≡ err BuildFault.assertion
build_constraints-no_choice_example =
    build_constraints-no_choice 1 (pos 5) (pos 7) [] (pos 1) (pos 3) empty too_large

integers-Ordered : Ordered ltb_ℤ
integers-Ordered = record {
  irreflexive = λ a. ground arith;
  transitive = λ a b c h k. ground arith;
}

abbrev costs : List (RcData ℤ)
costs =
    record { value = pos 4; id = 0; f = pos 2 }
    ∷ record { value = negsuc 2; id = 1; f = pos 3 }
    ∷ record { value = negsuc 0; id = 2; f = negsuc 0 }
    ∷ []

solve-build_constraints_example :
    (s' : ExhaustiveSolver) × ((build_constraints 4 factors (pos 1) (pos 2) empty ≡ ok s')
      × ((v : List Bool) × ((r : ℤ × List (RcData ℤ)) × Solves integers minimize_tag 4 factors
              (pos 1)
              (pos 2)
              costs
              s'
              v
              r)))
solve-build_constraints_example =
    solve-build_constraints integers minimize_tag integers-Ordered 4 (pos 2) (pos 3) (negsuc 0 ∷ [])
      (pos 1) (pos 2) empty costs choice refl factors-NonZero refl choice-IsChoice

abbrev three_info : ConstraintInfo
three_info = record { k = 4; start = 0; solutions = 5; bk_min = pos 1; bk_max = pos 2 }

-- The solver of `build_constraints_three`.
abbrev three : ExhaustiveSolver
three = record {
  flat_constraints =
      pos 0
      ∷ pos 3
      ∷ negsuc 0
      ∷ pos 2
      ∷ pos 0
      ∷ pos 0
      ∷ pos 2
      ∷ pos 0
      ∷ negsuc 0
      ∷ pos 2
      ∷ pos 0
      ∷ pos 0
      ∷ pos 2
      ∷ pos 0
      ∷ pos 0
      ∷ [];
  constraints = three_info ∷ [];
}

-- The second and the third are chosen, with a cost of -4.
solve-three :
    solve integers minimize_tag 4 costs three
    ≡ some (
      pos 1,
      record { value = negsuc 2; id = 1; f = pos 3 }
          ∷ record { value = negsuc 0; id = 2; f = negsuc 0 }
          ∷ record { value = pos 4; id = 0; f = pos 2 }
          ∷ [],
    )
unfolding solve best_choice best_from cost_from items_of item_lt sort_by insert_by
    is_better_solution ◌+ℤ◌
solve-three = refl

abbrev zero_costs : List (RcData ℤ)
zero_costs =
    record { value = negsuc 4; id = 0; f = pos 0 }
    ∷ record { value = pos 3; id = 1; f = pos 1 }
    ∷ []

abbrev solve_built : Result BuildFault ExhaustiveSolver → Option (ℤ × List (RcData ℤ))
solve_built (ok s) = solve integers minimize_tag 0 zero_costs s
solve_built (err f) = none

-- With the factor 0 the choice of the first element is not told from the choice of none: -1 is returned,
-- though the first one alone costs less.
solve-zero :
    solve_built (build_constraints 0 (pos 0 ∷ pos 1 ∷ []) (pos 0) (pos 1) empty)
    ≡ some (negsuc 0, zero_costs)
unfolding build_constraints add_constraint walk evaluate is_choice sum_from chosen solve best_choice
    best_from cost_from items_of item_lt sort_by insert_by is_better_solution ◌+ℤ◌
solve-zero = refl
