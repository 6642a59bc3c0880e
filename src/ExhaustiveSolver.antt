-- ===== src/ExhaustiveSolver.antt =====
-- The exhaustive solver of knapsack constraints, lib/src/exhaustive-solver.hpp. The set of constraints
-- is a list with one entry for each `k`.
use baryonyx.Base.{
  ℕ, zero, suc, ◌+◌, ◌-◌, ◌*◌, Bool, true, false, List, [], ◌∷◌, ◌++◌, reverse, map, ◌&&◌, ◌==◌,
  not, if◌then◌else◌, Option, none, some, length, replicate, take, drop, ltb, leb,
}
use baryonyx.Base.Int.{ℤ, pos, negsuc, sub_ℕ, ◌+ℤ◌, leb_ℤ, eqb_ℤ}
use baryonyx.Base.Result.{Result, ok, err}
use baryonyx.Base.Sort.{sort_by}
use baryonyx.Double.{Double}
use baryonyx.Solver.{Mode, is_better_solution}
pub mod Walk
mod Rest
mod Whole
pub mod Choice
mod Choices
mod Entries
pub mod Built
pub mod Best
mod Selected
pub mod Rows
pub mod Solved
mod Tests

-- A constraint: its choices are `solutions` many, from `start` on in the flat list.
pub record ConstraintInfo : Type 0 where
  pub k : ℕ
  pub start : ℕ
  pub solutions : ℕ
  pub bk_min : ℤ
  pub bk_max : ℤ

pub record ExhaustiveSolver : Type 0 where
  pub flat_constraints : List ℤ
  pub constraints : List ConstraintInfo

-- The choices so far, and their number.
pub record Found : Type 0 where
  pub flat : List ℤ
  pub nb_solution : ℕ

-- The factors of a constraint, with 0 for those that are not chosen.
unfoldable pub chosen : List Bool → List ℤ → List ℤ
chosen (w ∷ walkers) (f ∷ fs) = (if w then f else pos 0) ∷ chosen walkers fs
chosen _ _ = []

unfoldable pub sum_from : ℤ → List Bool → List ℤ → ℤ
sum_from sum (w ∷ walkers) (f ∷ fs) = sum_from (if w then sum +ℤ f else sum) walkers fs
sum_from sum _ _ = sum

-- The walkers from the first to `i`, of which `rest` has the last one first; the `z` walkers behind
-- them are 0.
abbrev pub all_walkers : ℕ → List Bool → List Bool
all_walkers z rest = reverse rest ++ replicate z false

module _ (factors : List ℤ) (bk_min bk_max : ℤ) where
  unfoldable pub is_choice : List Bool → Bool
  unfolding sum_from
  is_choice walkers =
      let sum = sum_from (pos 0) walkers factors in leb_ℤ bk_min sum && leb_ℤ sum bk_max

  unfoldable pub evaluate : Found → List Bool → Found
  unfolding is_choice chosen
  evaluate s walkers =
      if is_choice walkers
      then record { flat = s.flat ++ chosen walkers factors; nb_solution = suc s.nb_solution }
      else s

  -- The two loops: the walker at `i` is increased, and where it was 1 it is 0 and the one before is
  -- next; with none before it the loops end.
  unfoldable pub walk : ℕ → ℕ → List Bool → Found → Option Found
  unfolding evaluate
  walk fuel z [] s = some s
  walk zero z (w ∷ rest) s = none
  walk (suc fuel) z (false ∷ rest) s =
      walk fuel 0 (replicate z false ++ true ∷ rest) (evaluate s (all_walkers z (false ∷ rest)))
  walk (suc fuel) z (true ∷ rest) s =
      walk fuel (suc z) rest (evaluate s (all_walkers z (true ∷ rest)))

-- The rounds of the loops over `n` walkers that start at 0.
abbrev pub rounds : ℕ → ℕ
rounds zero = 0
rounds (suc n) = rounds n + (1 + (rounds n + 1))

abbrev pub find_info : ℕ → List ConstraintInfo → Option ConstraintInfo
find_info k [] = none
find_info k (c ∷ cs) = let rest = find_info k cs in if c.k == k then some c else rest

-- `constraints.emplace`: one that is there stays.
abbrev pub emplace_info : ConstraintInfo → List ConstraintInfo → List ConstraintInfo
emplace_info c [] = c ∷ []
emplace_info c (d ∷ ds) = let rest = emplace_info c ds in if d.k == c.k then d ∷ ds else d ∷ rest

-- A failing assertion, or loops that use up their fuel.
pub data BuildFault : Type 0 where
  assertion out_of_fuel : BuildFault

-- The end of `build_constraints`: an assertion fails where there is no choice.
unfoldable pub add_constraint :
    ℕ → ℤ → ℤ → ExhaustiveSolver → Option Found → Result BuildFault ExhaustiveSolver
add_constraint k bk_min bk_max s none = err BuildFault.out_of_fuel
add_constraint k bk_min bk_max s (some found) =
    if found.nb_solution == 0
    then err BuildFault.assertion
    else ok (record {
      flat_constraints = found.flat;
      constraints =
          emplace_info
            (record {
              k = k;
              start = length s.flat_constraints;
              solutions = found.nb_solution;
              bk_min = bk_min;
              bk_max = bk_max;
            })
            s.constraints;
    })

-- `build_constraints`; there is an assertion that there is an element.
unfoldable pub build_constraints :
    ℕ → List ℤ → ℤ → ℤ → ExhaustiveSolver → Result BuildFault ExhaustiveSolver
unfolding walk add_constraint
build_constraints k [] bk_min bk_max s = err BuildFault.assertion
build_constraints k (f ∷ fs) bk_min bk_max s = add_constraint k bk_min bk_max s (
    walk (f ∷ fs) bk_min bk_max (rounds (suc (length fs))) 0 (true ∷ replicate (length fs) false)
      (record { flat = s.flat_constraints; nb_solution = 0 }))

-- The entry of the reduced costs, and the item that is sorted.
pub record RcData (D : Type 0) : Type 0 where
  pub value : D
  pub id : ℕ
  pub f : ℤ

pub record Item (D : Type 0) : Type 0 where
  pub r : D
  pub factor : ℤ
  pub variable : ℕ
  pub result : Bool

-- The choice that starts at `start`.
abbrev pub choice_at : List ℤ → ℕ → ℕ → List ℤ
choice_at flat start r_size = take r_size (drop start flat)

module _ (fl : Double) (mode : Mode) where
  open fl use {D, ◌⊕◌, ltb as ltb_d, zero as zero_d}

  -- `z`: the sum of the values of the entries that are not 0 in a choice.
  unfoldable pub cost_from : D → List ℤ → List (RcData D) → D
  cost_from z (a ∷ choice) (c ∷ cs) =
      cost_from (if eqb_ℤ a (pos 0) then z else z ⊕ c.value) choice cs
  cost_from z _ _ = z

  -- The loop over the choices from `i` on: the best one so far, and its cost.
  unfoldable pub best_from : List ℤ → ℕ → List (RcData D) → ℕ → ℕ → ℕ × D → ℕ × D
  unfolding cost_from is_better_solution
  best_from flat start costs i zero best = best
  best_from flat start costs i (suc n) best =
      let z = cost_from zero_d (choice_at flat (start + i * length costs) (length costs)) costs in
      best_from flat start costs (suc i) n
        (if is_better_solution fl mode z best.1 then (i, z) else best)

  unfoldable pub items_of : List ℤ → List (RcData D) → List (Item D)
  items_of (a ∷ choice) (c ∷ cs) =
      record { r = c.value; factor = c.f; variable = c.id; result = not (eqb_ℤ a (pos 0)) }
      ∷ items_of choice cs
  items_of _ _ = []

  unfoldable pub item_lt : Item D → Item D → Bool
  unfolding is_better_solution
  item_lt lhs rhs =
      if lhs.result
      then (if rhs.result then is_better_solution fl mode lhs.r rhs.r else true)
      else (if rhs.result then false else is_better_solution fl mode lhs.r rhs.r)

  -- The position of the first item that is not chosen.
  abbrev pub middle_of : List (Item D) → ℕ
  middle_of [] = 0
  middle_of (i ∷ is) = let rest = middle_of is in if i.result then suc rest else 0

  abbrev pub rc_of : Item D → RcData D
  rc_of i = record { value = i.r; id = i.variable; f = i.factor }

  -- The number that is returned, if there is an item.
  abbrev pub selected_of : List (Item D) → ℤ
  selected_of items =
      if middle_of items == length items then pos (length items) else sub_ℕ (middle_of items) 1

  -- The choice of `solve`: the first one with the best cost.
  unfoldable pub best_choice : ConstraintInfo → List ℤ → List (RcData D) → List ℤ
  unfolding best_from
  best_choice c flat costs =
      let r_size = length costs in
      let first = cost_from zero_d (choice_at flat c.start r_size) costs in
      let best = best_from flat c.start costs 1 (c.solutions - 1) (0, first) in
      choice_at flat (c.start + best.0 * r_size) r_size

  -- Whether there is an item and a choice, and the choices lie in the flat list.
  abbrev pub in_table : ConstraintInfo → List ℤ → ℕ → Bool
  in_table c flat r_size =
      ltb 0 r_size && (ltb 0 c.solutions && leb (c.start + c.solutions * r_size) (length flat))

  -- `solve`: the number that it returns, and the reduced costs in their new order; `none` where the
  -- assertion fails or a read is past the end.
  unfoldable pub solve : ℕ → List (RcData D) → ExhaustiveSolver → Option (ℤ × List (RcData D))
  unfolding best_choice items_of item_lt sort_by
  solve k costs s = elim (find_info k s.constraints) [
    | none ↦ none
    | some c ↦
        let items = sort_by item_lt (items_of (best_choice c s.flat_constraints costs) costs) in
        if in_table c s.flat_constraints (length costs)
        then some (selected_of items, map rc_of items)
        else none
  ]
