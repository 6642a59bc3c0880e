-- ===== src/ExhaustiveSolver/Rest.antt =====
-- The loops over the walkers from a round on to the end, in `build_constraints` (lib/src/exhaustive-solver.hpp).
use baryonyx.Base.{
  ℕ, zero, suc, ◌+◌, ◌≤◌, ◌≡◌, refl, sym, ap, subst, ◌∙◌, Bool, true, false, List, [], ◌∷◌, ◌++◌,
  reverse, inl, inr, arith, some, length, replicate, length-replicate, All, All-append, Bool-cases,
}
use baryonyx.Base.Int.{ℤ}
use baryonyx.Base.Result.{loop}
use baryonyx.ExhaustiveSolver.{Found, all_walkers, rounds}
use baryonyx.ExhaustiveSolver.Walk.{
  IsIn, IsIn-left, IsIn-right, loop-append, turn, any, any-replicate, size, step, go, walk_end,
  walk_false, walk_true, Low, Low-walk,
}

-- The rounds from `j` walkers at 0 behind `m` more to the end.
abbrev pub rounds_from : ℕ → ℕ → ℕ
rounds_from j zero = 0
rounds_from j (suc m) = suc (rounds j + suc (rounds_from (suc j) m))

regroup : (r t : ℕ) → suc (r + suc t) + r ≡ t + (r + (1 + (r + 1)))
regroup r t = omega arith

shift : (m j : ℕ) → m + suc j ≡ suc m + j
shift m j = omega arith

zero_plus : (n : ℕ) → 0 + n ≡ n
zero_plus n = omega arith

pub rounds_from_lem : (j m : ℕ) → rounds_from j m + rounds j ≡ rounds (m + j)
rounds_from_lem j zero = zero_plus (rounds j) ∙ ap rounds (sym (zero_plus j))
rounds_from_lem j (suc m) =
    regroup (rounds j) (rounds_from (suc j) m) ∙ rounds_from_lem (suc j) m ∙ ap rounds (shift m j)

fuel_shift : (r t f : ℕ) → suc (r + suc t) + f ≡ suc (r + suc (t + f))
fuel_shift r t f = omega arith

append-is_any : (b : Bool) (top : List Bool) → any (b ∷ top) ≡ true → any top ≡ false → b ≡ true
append-is_any b top h e = ground arith

module _ (factors : List ℤ) (bk_min bk_max : ℤ) where
  pub record Rest (j m : ℕ) (s : Found) : Type 0 where
    pub seen : List (List Bool)
    pub runs :
        (f : ℕ)
        → go factors bk_min bk_max (rounds_from j m + f) j (replicate m false) s
          ≡ some (loop (step factors bk_min bk_max) s seen)
    pub covers :
        (top low : List Bool)
        → length top ≡ m
        → length low ≡ j
        → any top ≡ true
        → IsIn (reverse top ++ low) seen
    pub sizes : (N : ℕ) → m + j ≡ N → All (λ w. length w ≡ N) seen
    pub zeros : 1 ≤ m → IsIn (reverse (replicate m false) ++ replicate j false) seen

  Rest-runs :
      (j m : ℕ) (s : Found)
      (low : Low factors bk_min bk_max j
        (true ∷ replicate m false)
        (step factors bk_min bk_max s (all_walkers j (false ∷ replicate m false))))
      (rest : Rest (suc j) m (
        step factors bk_min bk_max
          (loop
            (step factors bk_min bk_max)
            (step factors bk_min bk_max s (all_walkers j (false ∷ replicate m false)))
            low.seen)
          (all_walkers j (true ∷ replicate m false))))
      (f : ℕ)
      → go factors bk_min bk_max (rounds_from j (suc m) + f) j (replicate (suc m) false) s
        ≡ some (
            loop (step factors bk_min bk_max) s (
              all_walkers j (false ∷ replicate m false)
              ∷ (low.seen ++ all_walkers j (true ∷ replicate m false) ∷ rest.seen)))
  Rest-runs j m s low rest f =
      ap (λ k. go factors bk_min bk_max k j (false ∷ replicate m false) s)
        (fuel_shift (rounds j) (rounds_from (suc j) m) f)
      ∙ walk_false factors bk_min bk_max (rounds j + suc (rounds_from (suc j) m + f)) j
          (replicate m false) s
      ∙ low.runs (suc (rounds_from (suc j) m + f))
      ∙ walk_true factors bk_min bk_max (rounds_from (suc j) m + f) j (replicate m false) _
      ∙ rest.runs f
      ∙ ap some (sym (loop-append (step factors bk_min bk_max) _ low.seen _))

  rest_covers :
      (j m : ℕ) (u : List Bool) (lows rests : List (List Bool))
      → 1 ≤ j
      → ((low : List Bool)
          → length low ≡ j
          → 1 ≤ j
          → IsIn (reverse (true ∷ replicate m false) ++ low) lows)
      → ((top low : List Bool)
          → length top ≡ m
          → length low ≡ suc j
          → any top ≡ true
          → IsIn (reverse top ++ low) rests)
      → (b : Bool) (top low : List Bool) → length top ≡ m
      → length low ≡ j
      → any (b ∷ top) ≡ true
      → IsIn
          (reverse (b ∷ top) ++ low)
          (u ∷ (lows ++ all_walkers j (true ∷ replicate m false) ∷ rests))
  rest_covers j m u lows rests one h k b top low e d a = elim (Bool-cases (any top)) [
    | inl x ↦ inr (
        IsIn-right (reverse (b ∷ top) ++ low) lows _
          (inr (subst (λ t. IsIn t rests) (turn b top low) (k top (b ∷ low) e (ap suc d) x))))
    | inr x ↦ inr (
        IsIn-left (reverse (b ∷ top) ++ low) lows _ (
          subst (λ t. IsIn (reverse t ++ low) lows)
            (sym (
              ap (λ t. b ∷ t) (any-replicate top x ∙ ap (λ n. replicate n false) e)
              ∙ ap (λ c. c ∷ replicate m false) (append-is_any b top a x)))
            (h low d one)))
  ]

  none_left : {P : Type 0} (top : List Bool) → length top ≡ 0 → any top ≡ true → P
  none_left [] e a = ground arith
  none_left (b ∷ top) e a = absurd (omega arith)

  rest_covers_suc :
      (j m : ℕ) (u : List Bool) (lows rests : List (List Bool))
      → 1 ≤ j
      → ((low : List Bool)
          → length low ≡ j
          → 1 ≤ j
          → IsIn (reverse (true ∷ replicate m false) ++ low) lows)
      → ((top low : List Bool)
          → length top ≡ m
          → length low ≡ suc j
          → any top ≡ true
          → IsIn (reverse top ++ low) rests)
      → (top low : List Bool) → length top ≡ suc m
      → length low ≡ j
      → any top ≡ true
      → IsIn (reverse top ++ low) (u ∷ (lows ++ all_walkers j (true ∷ replicate m false) ∷ rests))
  rest_covers_suc j m u lows rests one h k [] low e d a = absurd (omega arith)
  rest_covers_suc j m u lows rests one h k (b ∷ top) low e d a =
      rest_covers j m u lows rests one h k b top low (omega arith) d a

  pub Rest-walk : (j m : ℕ) (s : Found) → 1 ≤ j → Rest j m s
  Rest-walk j zero s one = record {
    seen = [];
    runs = λ f. walk_end factors bk_min bk_max (0 + f) j s;
    covers = λ top low e d a. none_left top e a;
    sizes = λ N e. tt;
    zeros = λ h. absurd (omega arith);
  }
  Rest-walk j (suc m) s one =
      let low =
        Low-walk factors bk_min bk_max j (true ∷ replicate m false)
          (step factors bk_min bk_max s (all_walkers j (false ∷ replicate m false))) in
      let rest =
        Rest-walk (suc j) m
          (step factors bk_min bk_max
            (loop (step factors bk_min bk_max)
              (step factors bk_min bk_max s (all_walkers j (false ∷ replicate m false))) low.seen)
            (all_walkers j (true ∷ replicate m false)))
          (omega arith) in
      record {
        seen =
            all_walkers j (false ∷ replicate m false)
            ∷ (low.seen ++ all_walkers j (true ∷ replicate m false) ∷ rest.seen);
        runs = Rest-runs j m s low rest;
        covers = rest_covers_suc j m _ low.seen rest.seen one low.covers rest.covers;
        sizes = λ N e. (
          size j N (false ∷ replicate m false) (omega (arith, length-replicate m false)),
          All-append (λ w. length w ≡ N) low.seen _
              (low.sizes N (omega (arith, length-replicate m false)))
              (
                size j N (true ∷ replicate m false) (omega (arith, length-replicate m false)),
                rest.sizes N (omega arith),
              ),
        );
        zeros = λ h. inl refl;
      }
