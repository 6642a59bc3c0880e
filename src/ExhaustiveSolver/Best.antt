-- ===== src/ExhaustiveSolver/Best.antt =====
-- The choice that `solve` (lib/src/exhaustive-solver.hpp) takes.
use baryonyx.Base.{
  ℕ, zero, suc, ◌+◌, ◌-◌, ◌*◌, ◌<◌, ◌≤◌, ◌≡◌, ◌⊎◌, refl, sym, ap, subst, ◌∙◌, Bool, true, false,
  List, inl, inr, arith, length, if◌then◌else◌, Bool-cases,
}
use baryonyx.Base.Int.{ℤ}
use baryonyx.Double.{Double}
use baryonyx.Solver.{Mode, minimize_tag, maximize_tag, is_better_solution}
use baryonyx.ExhaustiveSolver.{ConstraintInfo, RcData, choice_at, cost_from, best_from, best_choice}
use baryonyx.ExhaustiveSolver.Entries.{if_true, if_false}

-- What the search for the best one relies on; a comparison with a NaN is false.
pub record Ordered {D : Type 0} (ltb : D → D → Bool) : Type 0 where
  pub irreflexive : (a : D) → ltb a a ≡ false
  pub transitive : (a b c : D) → ltb a b ≡ true → ltb b c ≡ true → ltb a c ≡ true

differ : (b : Bool) → b ≡ true → b ≡ false → ⊥
differ b h k = ground arith

shift : (i n : ℕ) → suc i + n ≡ i + suc n
shift i n = omega arith

module _ (fl : Double) (ordered : Ordered fl.ltb) where
  open fl use {D, ltb, zero as zero_d}

  better_self : (mode : Mode) (a : D) → is_better_solution fl mode a a ≡ false
  unfolding is_better_solution
  better_self minimize_tag a = ordered.irreflexive a
  better_self maximize_tag a = ordered.irreflexive a

  better_trans :
      (mode : Mode) (a b c : D)
      → is_better_solution fl mode a b ≡ true
      → is_better_solution fl mode b c ≡ true
      → is_better_solution fl mode a c ≡ true
  unfolding is_better_solution
  better_trans minimize_tag a b c h k = ordered.transitive a b c h k
  better_trans maximize_tag a b c h k = ordered.transitive c b a k h

  -- What is no better than the old best one is no better than a new one.
  no_better :
      (mode : Mode) (a new old : D)
      → is_better_solution fl mode new old ≡ true
      → is_better_solution fl mode a old ≡ false
      → is_better_solution fl mode a new ≡ false
  no_better mode a new old h k = elim (Bool-cases (is_better_solution fl mode a new)) [
    | inl e ↦ absurd (differ (is_better_solution fl mode a old) (better_trans mode a new old e h) k)
    | inr e ↦ e
  ]

  module _ (mode : Mode) (flat : List ℤ) (start : ℕ) (costs : List (RcData D)) where
    abbrev cost_at : ℕ → D
    cost_at i =
        cost_from fl mode zero_d (choice_at flat (start + i * length costs) (length costs)) costs

    -- `best` is a best one of the first `i` choices.
    record IsBest (i : ℕ) (best : ℕ × D) : Type 0 where
      pub inside : best.0 < i
      pub cost : best.1 ≡ cost_at best.0
      pub least : (j : ℕ) → j < i → is_better_solution fl mode (cost_at j) best.1 ≡ false

    first_or_last : (i j : ℕ) → j < suc i → (j < i) ⊎ (j ≡ i)
    first_or_last i j h = omega arith

    old-IsBest :
        (i : ℕ) (best : ℕ × D)
        → is_better_solution fl mode (cost_at i) best.1 ≡ false
        → IsBest i best
        → IsBest (suc i) best
    old-IsBest i best e h = record {
      inside = omega (arith, h.inside);
      cost = h.cost;
      least = λ j l. elim (first_or_last i j l) [
        | inl a ↦ h.least j a
        | inr a ↦ ap (λ j. is_better_solution fl mode (cost_at j) best.1) a ∙ e
      ];
    }

    new-IsBest :
        (i : ℕ) (best : ℕ × D)
        → is_better_solution fl mode (cost_at i) best.1 ≡ true
        → IsBest i best
        → IsBest (suc i) (i, cost_at i)
    new-IsBest i best e h = record {
      inside = omega arith;
      cost = refl;
      least = λ j l. elim (first_or_last i j l) [
        | inl a ↦ no_better mode (cost_at j) (cost_at i) best.1 e (h.least j a)
        | inr a ↦
            ap (λ j. is_better_solution fl mode (cost_at j) (cost_at i)) a
            ∙ better_self mode (cost_at i)
      ];
    }

    first_cost : cost_from fl mode zero_d (choice_at flat start (length costs)) costs ≡ cost_at 0
    first_cost =
        ap (λ k. cost_from fl mode zero_d (choice_at flat k (length costs)) costs) (omega arith)

    only_first : (j : ℕ) → j < 1 → j ≡ 0
    only_first j h = omega arith

    first-IsBest :
        IsBest 1 (0, cost_from fl mode zero_d (choice_at flat start (length costs)) costs)
    first-IsBest = record {
      inside = omega arith;
      cost = first_cost;
      least = λ j l.
          ap
            (λ j.
              is_better_solution fl mode (cost_at j)
                (cost_from fl mode zero_d (choice_at flat start (length costs)) costs))
            (only_first j l)
          ∙ ap
              (λ z.
                is_better_solution fl mode z
                  (cost_from fl mode zero_d (choice_at flat start (length costs)) costs))
              (sym first_cost)
          ∙ better_self mode _;
    }

    next-IsBest :
        (i : ℕ) (best : ℕ × D)
        → IsBest i best
        → IsBest
            (suc i)
            (if is_better_solution fl mode (cost_at i) best.1 then (i, cost_at i) else best)
    next-IsBest i best h = elim (Bool-cases (is_better_solution fl mode (cost_at i) best.1)) [
      | inl e ↦
          subst (IsBest (suc i))
            (if_true (is_better_solution fl mode (cost_at i) best.1) (i, cost_at i) best e)
            (new-IsBest i best e h)
      | inr e ↦
          subst (IsBest (suc i))
            (if_false (is_better_solution fl mode (cost_at i) best.1) (i, cost_at i) best e)
            (old-IsBest i best e h)
    ]

    best_from-IsBest :
        (i n : ℕ) (best : ℕ × D)
        → IsBest i best
        → IsBest (i + n) (best_from fl mode flat start costs i n best)
    unfolding best_from
    best_from-IsBest i zero best h = subst (λ k. IsBest k best) (omega arith) h
    best_from-IsBest i (suc n) best h =
        let next = if is_better_solution fl mode (cost_at i) best.1 then (i, cost_at i) else best in
        subst (λ k. IsBest k (best_from fl mode flat start costs (suc i) n next)) (shift i n)
          (best_from-IsBest (suc i) n next (next-IsBest i best h))

  -- The choice that `solve` takes is one of the entry, and none of the entry is better.
  pub best_choice-least :
      (mode : Mode) (c : ConstraintInfo) (flat : List ℤ) (costs : List (RcData D))
      → 1 ≤ c.solutions
      → (i : ℕ) × ((i < c.solutions)
          × ((best_choice fl mode c flat costs
                ≡ choice_at flat (c.start + i * length costs) (length costs))
              × ((j : ℕ)
                  → j < c.solutions
                  → is_better_solution fl mode
                      (cost_at mode flat c.start costs j)
                      (cost_at mode flat c.start costs i)
                    ≡ false)))
  unfolding best_choice
  best_choice-least mode c flat costs h =
      let first = cost_from fl mode zero_d (choice_at flat c.start (length costs)) costs in
      let best = best_from fl mode flat c.start costs 1 (c.solutions - 1) (0, first) in
      let is_best =
        best_from-IsBest mode flat c.start costs 1 (c.solutions - 1) (0, first)
          (first-IsBest mode flat c.start costs) in
      (
        best.0,
        (
          omega (arith, is_best.inside),
          (
            refl,
            λ j l.
                subst
                  (λ z. is_better_solution fl mode (cost_at mode flat c.start costs j) z ≡ false)
                  is_best.cost (is_best.least j (omega arith)),
          ),
        ),
      )
