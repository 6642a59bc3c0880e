-- ===== src/ExhaustiveSolver/Built.antt =====
-- The table of choices that `build_constraints` (lib/src/exhaustive-solver.hpp) makes.
use baryonyx.Base.{
  ℕ, zero, suc, ◌+◌, ◌*◌, ◌<◌, ◌≡◌, ◌≢◌, refl, length-append, ap, ◌∙◌, Bool, true, false, List, [],
  ◌∷◌, ◌++◌, arith, none, some, length, take, get_elem?, All-get_elem?, ◌==◌, All, All-map,
  replicate,
}
use baryonyx.Base.Int.{ℤ}
use baryonyx.Base.Result.{ok, err}
use baryonyx.ExhaustiveSolver.Choice.{
  IsChoice, zeroed, chosen-zeroed, is_choice-IsChoice, IsChoice-is_choice,
}
use baryonyx.ExhaustiveSolver.Entries.{find_info-emplace_info, find_info-emplace_ne}
use baryonyx.ExhaustiveSolver.{
  ConstraintInfo, ExhaustiveSolver, Found, find_info, BuildFault, choice_at, walk, rounds,
  emplace_info, add_constraint, build_constraints,
}
use baryonyx.ExhaustiveSolver.Whole.{Whole, Whole-walk}
use baryonyx.ExhaustiveSolver.Walk.{IsIn}
use baryonyx.ExhaustiveSolver.Choices.{
  Accepted, IsIn_index, all_chosen, length-all_chosen, choice_at-all_chosen, picked, after,
  loop-picked, picked-IsIn, picked-Accepted, take_append,
}

element : {A : Type 0} (xs : List A) (i : ℕ) → i < length xs → (a : A) × (get_elem? xs i ≡ some a)
element [] i h = absurd (omega arith)
element (x ∷ xs) zero h = (x, refl)
element (x ∷ xs) (suc i) h = element xs i (omega arith)

from_none : (n : ℕ) → n ≡ 0 + n
from_none n = omega arith

some_left : (n i : ℕ) → i < n → (0 + n == 0) ≡ false
some_left n i h = ground arith

-- What the solver `s'` has of the constraint `k` that was added to `s`: an entry whose `solutions` are
-- the choices with a sum within the bounds, no other and each at least once, in the flat list up to its
-- end; and all that `s` had.
pub record Built (k : ℕ) (factors : List ℤ) (bk_min bk_max : ℤ) (s s' : ExhaustiveSolver)
    : Type 0 where
  pub solutions : ℕ
  pub entry :
      find_info k s'.constraints
      ≡ some (record {
        k = k;
        start = length s.flat_constraints;
        solutions = solutions;
        bk_min = bk_min;
        bk_max = bk_max;
      })
  pub others : (j : ℕ) → k ≢ j → find_info j s'.constraints ≡ find_info j s.constraints
  pub kept : take (length s.flat_constraints) s'.flat_constraints ≡ s.flat_constraints
  pub full : length s'.flat_constraints ≡ length s.flat_constraints + solutions * length factors
  pub complete :
      (w : List Bool)
      → IsChoice factors bk_min bk_max w
      → (i : ℕ) × ((i < solutions)
          × (choice_at s'.flat_constraints
                (length s.flat_constraints + i * length factors)
                (length factors)
              ≡ zeroed w factors))
  pub sound :
      (i : ℕ)
      → i < solutions
      → (w : List Bool) × (IsChoice factors bk_min bk_max w
          × (choice_at s'.flat_constraints
                (length s.flat_constraints + i * length factors)
                (length factors)
              ≡ zeroed w factors))

module _ (k : ℕ) (f g : ℤ) (fs : List ℤ) (bk_min bk_max : ℤ) (s : ExhaustiveSolver) where
  abbrev factors : List ℤ
  factors = f ∷ g ∷ fs

  abbrev start : Found
  start = record { flat = s.flat_constraints; nb_solution = 0 }

  abbrev info_of : List (List Bool) → ConstraintInfo
  info_of ws = record {
    k = k;
    start = length s.flat_constraints;
    solutions = 0 + length ws;
    bk_min = bk_min;
    bk_max = bk_max;
  }

  -- What `build_constraints` adds for the choices `ws`.
  abbrev with_choices : List (List Bool) → ExhaustiveSolver
  with_choices ws = record {
    flat_constraints = s.flat_constraints ++ all_chosen factors ws;
    constraints = emplace_info (info_of ws) s.constraints;
  }

  added :
      (ws : List (List Bool))
      → (0 + length ws == 0) ≡ false
      → add_constraint k bk_min bk_max s (some (after factors bk_min bk_max start ws))
        ≡ ok (with_choices ws)
  unfolding add_constraint
  added ws e = rw e

  refused :
      (ws : List (List Bool))
      → (0 + length ws == 0) ≡ true
      → add_constraint k bk_min bk_max s (some (after factors bk_min bk_max start ws))
        ≡ err BuildFault.assertion
  unfolding add_constraint
  refused ws e = rw e

  build_some :
      (ws : List (List Bool))
      → walk factors bk_min bk_max
          (rounds (suc (suc (length fs))))
          0
          (true ∷ replicate (suc (length fs)) false)
          start
        ≡ some (after factors bk_min bk_max start ws)
      → (0 + length ws == 0) ≡ false
      → build_constraints k factors bk_min bk_max s ≡ ok (with_choices ws)
  unfolding build_constraints
  build_some ws h e = ap (add_constraint k bk_min bk_max s) h ∙ added ws e

  build_refused :
      (ws : List (List Bool))
      → walk factors bk_min bk_max
          (rounds (suc (suc (length fs))))
          0
          (true ∷ replicate (suc (length fs)) false)
          start
        ≡ some (after factors bk_min bk_max start ws)
      → (0 + length ws == 0) ≡ true
      → build_constraints k factors bk_min bk_max s ≡ err BuildFault.assertion
  unfolding build_constraints
  build_refused ws h e = ap (add_constraint k bk_min bk_max s) h ∙ refused ws e

  whole : Whole factors bk_min bk_max (length fs) start
  whole = Whole-walk factors bk_min bk_max (length fs) start

  looked_at :
      (v : Whole factors bk_min bk_max (length fs) start)
      → walk factors bk_min bk_max
          (rounds (suc (suc (length fs))))
          0
          (true ∷ replicate (suc (length fs)) false)
          start
        ≡ some (after factors bk_min bk_max start (picked factors bk_min bk_max v.seen))
  looked_at v = v.runs ∙ ap some (loop-picked factors bk_min bk_max start v.seen)

  with_choices-Built :
      (ws : List (List Bool))
      → find_info k s.constraints ≡ none
      → All (Accepted factors bk_min bk_max (length factors)) ws
      → ((w : List Bool) → Accepted factors bk_min bk_max (length factors) w → IsIn w ws)
      → Built k factors bk_min bk_max s (with_choices ws)
  with_choices-Built ws fresh valid each =
      let sizes =
        All-map (Accepted factors bk_min bk_max (length factors)) (λ w. length w ≡ length factors)
          (λ w h. h.0) ws valid in
      record {
        solutions = 0 + length ws;
        entry = find_info-emplace_info (info_of ws) s.constraints fresh;
        others = λ j h. find_info-emplace_ne (info_of ws) s.constraints j h;
        kept =
            take_append s.flat_constraints (all_chosen factors ws) (length s.flat_constraints) refl;
        full =
            length-append s.flat_constraints (all_chosen factors ws)
            ∙ ap (λ n. length s.flat_constraints + n) (length-all_chosen factors ws sizes)
            ∙ ap (λ n. length s.flat_constraints + n * length factors) (from_none (length ws));
        complete = λ w h.
            let place =
              IsIn_index w ws (each w (h.0, is_choice-IsChoice factors bk_min bk_max w h)) in
            (
              place.0,
              (
                omega (arith, place.1.0),
                choice_at-all_chosen factors s.flat_constraints ws place.0 w sizes place.1.1
                    ∙ chosen-zeroed w factors,
              ),
            );
        sound = λ i h.
            let w = element ws i (omega arith) in
            let a =
              All-get_elem? (Accepted factors bk_min bk_max (length factors)) ws i valid w.1 in
            (
              w.0,
              (
                IsChoice-is_choice factors bk_min bk_max w.0 a.0 a.1,
                choice_at-all_chosen factors s.flat_constraints ws i w.0 sizes w.1
                    ∙ chosen-zeroed w.0 factors,
              ),
            );
      }

  -- With two elements or more, no entry for `k` before, and a choice with a sum within the bounds,
  -- `build_constraints` returns: there is an entry for `k` now, whose solutions are the choices with a sum
  -- within the bounds, each at least once and no other, in the flat list behind what was there before; the
  -- other entries stay.
  pub build_constraints-Built :
      (w : List Bool)
      → find_info k s.constraints ≡ none
      → IsChoice factors bk_min bk_max w
      → (s' : ExhaustiveSolver) × ((build_constraints k factors bk_min bk_max s ≡ ok s')
          × Built k factors bk_min bk_max s s')
  build_constraints-Built w fresh h =
      let v = whole in
      let ws = picked factors bk_min bk_max v.seen in
      let place = IsIn_index w ws (
        picked-IsIn factors bk_min bk_max w v.seen (is_choice-IsChoice factors bk_min bk_max w h)
          (v.covers w h.0)) in
      (
        with_choices ws,
        (
          build_some ws (looked_at v) (some_left (length ws) place.0 place.1.0),
          with_choices-Built ws fresh
              (picked-Accepted factors bk_min bk_max (length factors) v.seen v.sizes)
              (λ u c. picked-IsIn factors bk_min bk_max u v.seen c.1 (v.covers u c.0)),
        ),
      )

  no_choice :
      (ws : List (List Bool))
      → All (Accepted factors bk_min bk_max (length factors)) ws
      → ((w : List Bool) → ¬ IsChoice factors bk_min bk_max w)
      → (0 + length ws == 0) ≡ true
  no_choice [] valid h = refl
  no_choice (w ∷ ws) valid h =
      absurd (h w (IsChoice-is_choice factors bk_min bk_max w valid.0.0 valid.0.1))

  -- With two elements or more of which no choice has a sum within the bounds, an assertion of
  -- `build_constraints` fails: the loops end, and there is no solution.
  pub build_constraints-no_choice :
      ((w : List Bool) → ¬ IsChoice factors bk_min bk_max w)
      → build_constraints k factors bk_min bk_max s ≡ err BuildFault.assertion
  build_constraints-no_choice h =
      let v = whole in
      let ws = picked factors bk_min bk_max v.seen in
      build_refused ws (looked_at v)
        (no_choice ws (picked-Accepted factors bk_min bk_max (length factors) v.seen v.sizes) h)
