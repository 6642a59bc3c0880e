-- ===== src/ExhaustiveSolver/Choice.antt =====
-- What a choice of the elements of a knapsack constraint is, apart from the code of
-- lib/src/exhaustive-solver.hpp: its sum, its cost, and the entries that it takes and leaves.
use baryonyx.Base.{
  ◌≡◌, ◌≢◌, refl, sym, ap, ◌∙◌, Bool, true, false, List, [], ◌∷◌, if◌then◌else◌, arith, length, All,
  ◌&&◌,
}
use baryonyx.Base.Int.{ℤ, pos, ◌+ℤ◌, ◌≤ℤ◌, leb_ℤ, int_laws, eqb_ℤ}
use baryonyx.Double.{Double}
use baryonyx.Solver.{Mode, minimize_tag, maximize_tag, is_better_solution}
use baryonyx.ExhaustiveSolver.{RcData, sum_from, is_choice, chosen, cost_from}

-- The sum of the factors that a choice takes.
abbrev pub total : List Bool → List ℤ → ℤ
total (true ∷ w) (f ∷ fs) = f +ℤ total w fs
total (false ∷ w) (f ∷ fs) = total w fs
total _ _ = pos 0

-- A choice of the elements with a sum within the bounds.
abbrev pub IsChoice : List ℤ → ℤ → ℤ → List Bool → Type 0
IsChoice factors bk_min bk_max w =
    (length w ≡ length factors) × ((bk_min ≤ℤ total w factors) × (total w factors ≤ℤ bk_max))

-- The factors, with 0 for those that are left.
abbrev pub zeroed : List Bool → List ℤ → List ℤ
zeroed (true ∷ w) (f ∷ fs) = f ∷ zeroed w fs
zeroed (false ∷ w) (f ∷ fs) = pos 0 ∷ zeroed w fs
zeroed _ _ = []

abbrev pub NonZero : List ℤ → Type 0
NonZero = All (λ f. f ≢ pos 0)

pub chosen-zeroed : (w : List Bool) (fs : List ℤ) → chosen w fs ≡ zeroed w fs
unfolding chosen
chosen-zeroed [] fs = refl
chosen-zeroed (true ∷ w) [] = refl
chosen-zeroed (false ∷ w) [] = refl
chosen-zeroed (true ∷ w) (f ∷ fs) = ap (λ t. f ∷ t) (chosen-zeroed w fs)
chosen-zeroed (false ∷ w) (f ∷ fs) = ap (λ t. pos 0 ∷ t) (chosen-zeroed w fs)

sum_none : (a : ℤ) → a ≡ a +ℤ pos 0
sum_none a = omega int_laws

sum_more : (a f t : ℤ) → (a +ℤ f) +ℤ t ≡ a +ℤ (f +ℤ t)
sum_more a f t = omega int_laws

none_before : (a : ℤ) → pos 0 +ℤ a ≡ a
none_before a = omega int_laws

sum_from-total : (a : ℤ) (w : List Bool) (fs : List ℤ) → sum_from a w fs ≡ a +ℤ total w fs
unfolding sum_from
sum_from-total a [] fs = sum_none a
sum_from-total a (true ∷ w) [] = sum_none a
sum_from-total a (false ∷ w) [] = sum_none a
sum_from-total a (true ∷ w) (f ∷ fs) = sum_from-total (a +ℤ f) w fs ∙ sum_more a f (total w fs)
sum_from-total a (false ∷ w) (f ∷ fs) = sum_from-total a w fs

within : (a b c : ℤ) → (a ≤ℤ b) × (b ≤ℤ c) → (leb_ℤ a b && leb_ℤ b c) ≡ true
within a b c h = ground arith

of_within : (a b c : ℤ) → (leb_ℤ a b && leb_ℤ b c) ≡ true → (a ≤ℤ b) × (b ≤ℤ c)
of_within a b c h = ground arith

module _ (factors : List ℤ) (bk_min bk_max : ℤ) (w : List Bool) where
  sum_is : sum_from (pos 0) w factors ≡ total w factors
  sum_is = sum_from-total (pos 0) w factors ∙ none_before (total w factors)

  pub is_choice-IsChoice :
      IsChoice factors bk_min bk_max w → is_choice factors bk_min bk_max w ≡ true
  unfolding is_choice
  is_choice-IsChoice h = rw sum_is (within bk_min (total w factors) bk_max h.1)

  pub IsChoice-is_choice :
      length w ≡ length factors
      → is_choice factors bk_min bk_max w ≡ true
      → IsChoice factors bk_min bk_max w
  unfolding is_choice
  IsChoice-is_choice e h = (
    e,
    of_within bk_min (total w factors) bk_max
        (ap (λ t. leb_ℤ bk_min t && leb_ℤ t bk_max) (sym sum_is) ∙ h),
  )

module _ (fl : Double) where
  open fl use {D, ◌⊕◌, ltb}

  -- The costs that a choice takes, added to `z`.
  abbrev pub cost : D → List Bool → List (RcData D) → D
  cost z (true ∷ w) (c ∷ cs) = cost (z ⊕ c.value) w cs
  cost z (false ∷ w) (c ∷ cs) = cost z w cs
  cost z _ _ = z

  abbrev pub taken : List Bool → List (RcData D) → List (RcData D)
  taken (true ∷ w) (c ∷ cs) = c ∷ taken w cs
  taken (false ∷ w) (c ∷ cs) = taken w cs
  taken _ _ = []

  abbrev pub left : List Bool → List (RcData D) → List (RcData D)
  left (true ∷ w) (c ∷ cs) = left w cs
  left (false ∷ w) (c ∷ cs) = c ∷ left w cs
  left _ _ = []

  -- A cost that is no improvement: not less than the other, or not more.
  abbrev pub IsNoBetter : Mode → D → D → Type 0
  IsNoBetter minimize_tag a b = ltb a b ≡ false
  IsNoBetter maximize_tag a b = ltb b a ≡ false

  pub is_better_solution-IsNoBetter :
      (mode : Mode) (a b : D) → is_better_solution fl mode a b ≡ false → IsNoBetter mode a b
  unfolding is_better_solution
  is_better_solution-IsNoBetter minimize_tag a b h = h
  is_better_solution-IsNoBetter maximize_tag a b h = h

  pub not_zero : (f : ℤ) → f ≢ pos 0 → eqb_ℤ f (pos 0) ≡ false
  not_zero f h = ground arith

  pub cost_from-cost :
      (mode : Mode) (z : D) (w : List Bool) (fs : List ℤ) (costs : List (RcData D))
      → length w ≡ length fs
      → NonZero fs
      → cost_from fl mode z (chosen w fs) costs ≡ cost z w costs
  unfolding cost_from chosen
  cost_from-cost mode z [] [] costs e h = refl
  cost_from-cost mode z [] (f ∷ fs) costs e h = absurd (omega arith)
  cost_from-cost mode z (b ∷ w) [] costs e h = absurd (omega arith)
  cost_from-cost mode z (true ∷ w) (f ∷ fs) [] e h = refl
  cost_from-cost mode z (false ∷ w) (f ∷ fs) [] e h = refl
  cost_from-cost mode z (true ∷ w) (f ∷ fs) (c ∷ cs) e h =
      ap (λ b. cost_from fl mode (if b then z else z ⊕ c.value) (chosen w fs) cs) (not_zero f h.0)
      ∙ cost_from-cost mode (z ⊕ c.value) w fs cs (omega arith) h.1
  cost_from-cost mode z (false ∷ w) (f ∷ fs) (c ∷ cs) e h =
      cost_from-cost mode z w fs cs (omega arith) h.1
