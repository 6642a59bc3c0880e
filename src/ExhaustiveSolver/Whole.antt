-- ===== src/ExhaustiveSolver/Whole.antt =====
-- The whole of the loops over the walkers in `build_constraints` (lib/src/exhaustive-solver.hpp).
use mathlib.Core.List.{reverse-cons, reverse-reverse}
use baryonyx.Base.{
  ℕ, suc, ◌+◌, ◌≡◌, refl, sym, ap, subst, ◌∙◌, Bool, true, false, List, [], ◌∷◌, ◌++◌, reverse, inl,
  inr, arith, some, length, replicate, length-replicate, All, Bool-cases,
}
use baryonyx.Base.Int.{ℤ}
use baryonyx.Base.Result.{loop}
use baryonyx.ExhaustiveSolver.{Found, all_walkers, walk, rounds}
use baryonyx.ExhaustiveSolver.Walk.{
  IsIn, turn, any, any-replicate, length-reverse, size, step, go, walk_true,
}
use baryonyx.ExhaustiveSolver.Rest.{rounds_from, rounds_from_lem, Rest, Rest-walk}

one_more : (n : ℕ) → suc n + 1 ≡ suc (suc n)
one_more n = omega arith

fuel_left : (t r : ℕ) → t + 2 ≡ r → r ≡ suc (t + 1)
fuel_left t r e = omega arith

tail_length : (b : Bool) (top : List Bool) (n : ℕ) → length (b ∷ top) ≡ suc n → length top ≡ n
tail_length b top n e = omega arith

whole_fuel : (n : ℕ) → rounds (suc (suc n)) ≡ suc (rounds_from 1 (suc n) + 1)
whole_fuel n =
    fuel_left (rounds_from 1 (suc n)) (rounds (suc (suc n)))
      (rounds_from_lem 1 (suc n) ∙ ap rounds (one_more n))

module _ (factors : List ℤ) (bk_min bk_max : ℤ) where
  -- What the loops look at: the choices of `suc (suc n)` walkers.
  pub record Whole (n : ℕ) (s : Found) : Type 0 where
    pub seen : List (List Bool)
    pub runs :
        walk factors bk_min bk_max (rounds (suc (suc n))) 0 (true ∷ replicate (suc n) false) s
        ≡ some (loop (step factors bk_min bk_max) s seen)
    pub covers : (w : List Bool) → length w ≡ suc (suc n) → IsIn w seen
    pub sizes : All (λ w. length w ≡ suc (suc n)) seen

  last_one :
      (n : ℕ) (s : Found) (rest : Rest factors bk_min bk_max 1 (suc n) s) (b : Bool)
      → IsIn
          (reverse (replicate (suc n) false) ++ b ∷ [])
          (all_walkers 0 (true ∷ replicate (suc n) false) ∷ rest.seen)
  last_one n s rest true = inl (turn true (replicate (suc n) false) [])
  last_one n s rest false = inr (rest.zeros (omega arith))

  whole_covers :
      (n : ℕ) (s : Found) (rest : Rest factors bk_min bk_max 1 (suc n) s) (v : List Bool)
      → length v ≡ suc (suc n)
      → IsIn (reverse v) (all_walkers 0 (true ∷ replicate (suc n) false) ∷ rest.seen)
  whole_covers n s rest [] e = absurd (omega arith)
  whole_covers n s rest (b ∷ top) e =
      subst (λ t. IsIn t (all_walkers 0 (true ∷ replicate (suc n) false) ∷ rest.seen))
        (sym (reverse-cons b top))
        (elim (Bool-cases (any top)) [
          | inl a ↦ inr (rest.covers top (b ∷ []) (omega arith) refl a)
          | inr a ↦
              subst
                (λ t.
                  IsIn (reverse t ++ b ∷ [])
                    (all_walkers 0 (true ∷ replicate (suc n) false) ∷ rest.seen))
                (sym
                  (any-replicate top a ∙ ap (λ n. replicate n false) (tail_length b top (suc n) e)))
                (last_one n s rest b)
        ])

  pub Whole-walk : (n : ℕ) (s : Found) → Whole n s
  Whole-walk n s =
      let rest =
        Rest-walk factors bk_min bk_max 1 (suc n)
          (step factors bk_min bk_max s (all_walkers 0 (true ∷ replicate (suc n) false)))
          (omega arith) in
      record {
        seen = all_walkers 0 (true ∷ replicate (suc n) false) ∷ rest.seen;
        runs =
            ap (λ k. go factors bk_min bk_max k 0 (true ∷ replicate (suc n) false) s) (whole_fuel n)
            ∙ walk_true factors bk_min bk_max (rounds_from 1 (suc n) + 1) 0
                (replicate (suc n) false) s
            ∙ rest.runs 1;
        covers = λ w e.
            subst (λ t. IsIn t (all_walkers 0 (true ∷ replicate (suc n) false) ∷ rest.seen))
              (reverse-reverse w) (whole_covers n _ rest (reverse w) (length-reverse w ∙ e));
        sizes = (
          size 0 (suc (suc n)) (true ∷ replicate (suc n) false)
              (omega (arith, length-replicate (suc n) false)),
          rest.sizes (suc (suc n)) (omega arith),
        );
      }
