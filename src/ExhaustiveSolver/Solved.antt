-- ===== src/ExhaustiveSolver/Solved.antt =====
-- `build_constraints` and then `solve` (lib/src/exhaustive-solver.hpp).
use baryonyx.Base.{
  ℕ, ◌+◌, ◌*◌, ◌<◌, ◌≤◌, ◌≡◌, sym, ap, subst, ◌∙◌, Bool, true, false, List, ◌∷◌, arith, none, some,
  length, ltb, leb, ◌&&◌,
}
use baryonyx.Base.Int.{ℤ}
use baryonyx.Base.Result.{ok}
use baryonyx.Double.{Double}
use baryonyx.Solver.{Mode, is_better_solution}
use baryonyx.ExhaustiveSolver.{
  ConstraintInfo, ExhaustiveSolver, RcData, chosen, choice_at, cost_from, best_choice, find_info,
  build_constraints, in_table, solve,
}
use baryonyx.ExhaustiveSolver.Choice.{
  IsChoice, NonZero, zeroed, chosen-zeroed, cost, cost_from-cost, IsNoBetter,
  is_better_solution-IsNoBetter,
}
use baryonyx.ExhaustiveSolver.Built.{Built, build_constraints-Built}
use baryonyx.ExhaustiveSolver.Best.{Ordered, best_choice-least}
use baryonyx.ExhaustiveSolver.Rows.{Ordering, result_of, result_of-Ordering}

one_left : (i n : ℕ) → i < n → 1 ≤ n
one_left i n h = omega arith

inside : (r n m l : ℕ) → 1 ≤ r → 1 ≤ n → l ≡ m → (ltb 0 r && (ltb 0 n && leb m l)) ≡ true
inside r n m l h k e = ground arith

module _ (fl : Double) (mode : Mode) where
  open fl use {D, zero as zero_d}

  solve_found :
      (k : ℕ) (costs : List (RcData D)) (s : ExhaustiveSolver) (c : ConstraintInfo)
      → find_info k s.constraints ≡ some c
      → in_table fl mode c s.flat_constraints (length costs) ≡ true
      → solve fl mode k costs s
        ≡ some (result_of fl mode (best_choice fl mode c s.flat_constraints costs) costs)
  unfolding solve
  solve_found k costs s c h e = rw (h, solve, e)

  -- What is solved by `s'`: `r` is returned for the choice `v`, which has a sum within the bounds and a
  -- cost that no such choice improves.
  pub record Solves (k : ℕ) (factors : List ℤ) (bk_min bk_max : ℤ) (costs : List (RcData D))
      (s' : ExhaustiveSolver) (v : List Bool) (r : ℤ × List (RcData D)) : Type 0 where
    pub is_choice : IsChoice factors bk_min bk_max v
    pub returned : solve fl mode k costs s' ≡ some r
    pub ordering : Ordering fl mode v costs r
    pub least :
        (u : List Bool)
        → IsChoice factors bk_min bk_max u
        → IsNoBetter fl mode (cost fl zero_d u costs) (cost fl zero_d v costs)

  module _ (ordered : Ordered fl.ltb) (k : ℕ) (factors : List ℤ) (bk_min bk_max : ℤ)
      (s s' : ExhaustiveSolver) (costs : List (RcData D))
      (built : Built k factors bk_min bk_max s s') (sized : length costs ≡ length factors)
      (non_zero : NonZero factors) (some_factor : 1 ≤ length factors) where
    abbrev info : ConstraintInfo
    info = record {
      k = k;
      start = length s.flat_constraints;
      solutions = built.solutions;
      bk_min = bk_min;
      bk_max = bk_max;
    }

    -- The choice of the flat list that is at `i`.
    choice_is :
        (i : ℕ) (u : List Bool)
        → choice_at s'.flat_constraints
            (length s.flat_constraints + i * length factors)
            (length factors)
          ≡ zeroed u factors
        → choice_at s'.flat_constraints
            (length s.flat_constraints + i * length costs)
            (length costs)
          ≡ chosen u factors
    choice_is i u e =
        ap (λ n. choice_at s'.flat_constraints (length s.flat_constraints + i * n) n) sized
        ∙ e
        ∙ sym (chosen-zeroed u factors)

    cost_is :
        (i : ℕ) (u : List Bool)
        → length u ≡ length factors
        → choice_at s'.flat_constraints
            (length s.flat_constraints + i * length factors)
            (length factors)
          ≡ zeroed u factors
        → cost_from fl mode zero_d
            (choice_at s'.flat_constraints
              (length s.flat_constraints + i * length costs)
              (length costs))
            costs
          ≡ cost fl zero_d u costs
    cost_is i u l e =
        ap (λ t. cost_from fl mode zero_d t costs) (choice_is i u e)
        ∙ cost_from-cost fl mode zero_d u factors costs l non_zero

    in_table_of :
        1 ≤ built.solutions → in_table fl mode info s'.flat_constraints (length costs) ≡ true
    in_table_of h =
        inside (length costs) built.solutions
          (length s.flat_constraints + built.solutions * length costs) (length s'.flat_constraints)
          (omega arith) h
          (built.full ∙ ap (λ n. length s.flat_constraints + built.solutions * n) (sym sized))

    solves :
        (w : List Bool)
        → IsChoice factors bk_min bk_max w
        → (v : List Bool) × ((r : ℤ × List (RcData D)) × Solves k factors bk_min bk_max costs s' v
              r)
    solves w h =
        let some_w = built.complete w h in
        let one = one_left some_w.0 built.solutions some_w.1.0 in
        let best = best_choice-least fl ordered mode info s'.flat_constraints costs one in
        let v = built.sound best.0 best.1.0 in
        (
          v.0,
          (
            result_of fl mode (chosen v.0 factors) costs,
            record {
              is_choice = v.1.0;
              returned =
                  solve_found k costs s' info built.entry (in_table_of one)
                  ∙ ap (λ t. some (result_of fl mode t costs))
                      (best.1.1.0 ∙ choice_is best.0 v.0 v.1.1);
              ordering = result_of-Ordering fl mode v.0 factors costs v.1.0.0 non_zero;
              least = λ u hu.
                  let place = built.complete u hu in
                  is_better_solution-IsNoBetter fl mode (cost fl zero_d u costs)
                    (cost fl zero_d v.0 costs)
                    (subst (λ t. is_better_solution fl mode t (cost fl zero_d v.0 costs) ≡ false)
                      (cost_is place.0 u hu.0 place.1.1)
                      (subst
                        (λ t.
                          is_better_solution fl mode
                            (cost_from fl mode zero_d
                              (choice_at s'.flat_constraints
                                (length s.flat_constraints + place.0 * length costs) (length costs))
                              costs)
                            t
                          ≡ false)
                        (cost_is best.0 v.0 v.1.0.0 v.1.1) (best.1.1.1 place.0 place.1.0)));
            },
          ),
        )

  -- With two elements or more, none with the factor 0, a choice with a sum within the bounds, as many
  -- reduced costs as elements, comparisons that are ordered and no entry for `k` before: `build_constraints`
  -- returns, and then `solve` returns. There is a choice with a sum within the bounds, than which no such
  -- choice has a better cost, so that the reduced costs come back with those that it takes first, in some
  -- order, and the number is the position of the last of them: -1 if there is none, and the number of the
  -- elements if all are taken.
  pub solve-build_constraints :
      (ordered : Ordered fl.ltb) (k : ℕ) (f g : ℤ) (fs : List ℤ) (bk_min bk_max : ℤ)
      (s : ExhaustiveSolver) (costs : List (RcData D)) (w : List Bool)
      → length costs ≡ length (f ∷ g ∷ fs)
      → NonZero (f ∷ g ∷ fs)
      → find_info k s.constraints ≡ none
      → IsChoice (f ∷ g ∷ fs) bk_min bk_max w
      → (s' : ExhaustiveSolver) × ((build_constraints k (f ∷ g ∷ fs) bk_min bk_max s ≡ ok s')
          × ((v : List Bool) × ((r : ℤ × List (RcData D)) × Solves k
                  (f ∷ g ∷ fs)
                  bk_min
                  bk_max
                  costs
                  s'
                  v
                  r)))
  solve-build_constraints ordered k f g fs bk_min bk_max s costs w sized non_zero fresh h =
      let built = build_constraints-Built k f g fs bk_min bk_max s w fresh h in
      (
        built.0,
        (
          built.1.0,
          solves ordered k (f ∷ g ∷ fs) bk_min bk_max s built.0 costs built.1.1 sized non_zero
              (omega arith) w h,
        ),
      )
