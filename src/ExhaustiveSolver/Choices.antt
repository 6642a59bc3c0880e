-- ===== src/ExhaustiveSolver/Choices.antt =====
-- The choices that `build_constraints` (lib/src/exhaustive-solver.hpp) adds to the flat list.
use mathlib.Core.List.{append_assoc, append-nil}
use baryonyx.Base.{
  ℕ, zero, suc, ◌+◌, ◌*◌, ◌<◌, ◌≡◌, refl, sym, ap, subst, ◌∙◌, Bool, true, false, List, [], ◌∷◌,
  ◌++◌, inl, inr, arith, some, length, take, drop, get_elem?, if◌then◌else◌, All, length-append,
  Bool-cases,
}
use baryonyx.Base.Int.{ℤ}
use baryonyx.Base.Result.{loop}
use baryonyx.ExhaustiveSolver.{Found, chosen, is_choice, evaluate, choice_at}
use baryonyx.ExhaustiveSolver.Walk.{IsIn, step}

length-chosen :
    (w : List Bool) (factors : List ℤ)
    → length w ≡ length factors
    → length (chosen w factors) ≡ length factors
unfolding chosen
length-chosen [] [] e = refl
length-chosen [] (f ∷ fs) e = absurd (omega arith)
length-chosen (b ∷ w) [] e = absurd (omega arith)
length-chosen (b ∷ w) (f ∷ fs) e = ap suc (length-chosen w fs (omega arith))

module _ {A : Type 0} where
  drop_append : (xs ys : List A) (m n : ℕ) → m ≡ length xs + n → drop m (xs ++ ys) ≡ drop n ys
  drop_append [] ys m n e = ap (λ k. drop k ys) (omega arith)
  drop_append (x ∷ xs) ys zero n e = absurd (omega arith)
  drop_append (x ∷ xs) ys (suc m) n e = drop_append xs ys m n (omega arith)

  pub take_append : (xs ys : List A) (n : ℕ) → n ≡ length xs → take n (xs ++ ys) ≡ xs
  take_append [] ys zero e = refl
  take_append [] ys (suc n) e = absurd (omega arith)
  take_append (x ∷ xs) ys zero e = absurd (omega arith)
  take_append (x ∷ xs) ys (suc n) e = ap (λ t. x ∷ t) (take_append xs ys n (omega arith))

zero_times : (r m : ℕ) → m ≡ 0 * r → m ≡ 0
zero_times r m e = omega arith

count : (a b : ℕ) → suc a + b ≡ a + suc b
count a b = omega arith

count_none : (a : ℕ) → a + 0 ≡ a
count_none a = omega arith

sum_times : (a b r n : ℕ) → a ≡ r → b ≡ n * r → a + b ≡ suc n * r
sum_times a b r n e h = omega arith

times_suc : (i r m : ℕ) → m ≡ suc i * r → m ≡ r + i * r
times_suc i r m e = omega arith

pub IsIn_index :
    (w : List Bool) (ws : List (List Bool))
    → IsIn w ws
    → (i : ℕ) × ((i < length ws) × (get_elem? ws i ≡ some w))
IsIn_index w [] h = elim h [ ]
IsIn_index w (v ∷ ws) (inl e) = (0, (omega arith, ap some (sym e)))
IsIn_index w (v ∷ ws) (inr h) =
    let rest = IsIn_index w ws h in (suc rest.0, (omega (arith, rest.1.0), rest.1.1))

the_same : (v w : List Bool) → some v ≡ some w → v ≡ w
the_same v w h = cc

module _ (factors : List ℤ) where
  abbrev pub all_chosen : List (List Bool) → List ℤ
  all_chosen [] = []
  all_chosen (w ∷ ws) = chosen w factors ++ all_chosen ws

  pub all_chosen_block :
      (ws : List (List Bool)) (i m : ℕ) (w : List Bool)
      → All (λ w. length w ≡ length factors) ws
      → m ≡ i * length factors
      → get_elem? ws i ≡ some w
      → take (length factors) (drop m (all_chosen ws)) ≡ chosen w factors
  all_chosen_block [] i m w sizes e h = cc
  all_chosen_block (v ∷ ws) zero m w sizes e h =
      ap (λ k. take (length factors) (drop k (all_chosen (v ∷ ws))))
        (zero_times (length factors) m e)
      ∙ take_append (chosen v factors) (all_chosen ws) (length factors)
          (sym (length-chosen v factors sizes.0))
      ∙ ap (λ t. chosen t factors) (the_same v w h)
  all_chosen_block (v ∷ ws) (suc i) m w sizes e h =
      ap (λ t. take (length factors) t)
        (drop_append (chosen v factors) (all_chosen ws) m (i * length factors) (
          times_suc i (length factors) m e
          ∙ ap (λ k. k + i * length factors) (sym (length-chosen v factors sizes.0))))
      ∙ all_chosen_block ws i (i * length factors) w sizes.1 refl h

  pub length-all_chosen :
      (ws : List (List Bool))
      → All (λ w. length w ≡ length factors) ws
      → length (all_chosen ws) ≡ length ws * length factors
  length-all_chosen [] sizes = sym (zero_times (length factors) (0 * length factors) refl)
  length-all_chosen (w ∷ ws) sizes =
      length-append (chosen w factors) (all_chosen ws)
      ∙ sum_times (length (chosen w factors)) (length (all_chosen ws)) (length factors) (length ws)
          (length-chosen w factors sizes.0) (length-all_chosen ws sizes.1)

  pub choice_at-all_chosen :
      (flat : List ℤ) (ws : List (List Bool)) (i : ℕ) (w : List Bool)
      → All (λ w. length w ≡ length factors) ws
      → get_elem? ws i ≡ some w
      → choice_at (flat ++ all_chosen ws) (length flat + i * length factors) (length factors)
        ≡ chosen w factors
  choice_at-all_chosen flat ws i w sizes h =
      ap (λ t. take (length factors) t)
        (drop_append flat (all_chosen ws) (length flat + i * length factors) (i * length factors)
          refl)
      ∙ all_chosen_block ws i (i * length factors) w sizes refl h

module _ (factors : List ℤ) (bk_min bk_max : ℤ) where
  abbrev pub picked : List (List Bool) → List (List Bool)
  picked [] = []
  picked (w ∷ ws) =
      let rest = picked ws in if is_choice factors bk_min bk_max w then w ∷ rest else rest

  abbrev pub after : Found → List (List Bool) → Found
  after s ws = record {
    flat = s.flat ++ all_chosen factors ws;
    nb_solution = s.nb_solution + length ws;
  }

  after_none : (s : Found) → after s [] ≡ s
  after_none s = simp (append-nil s.flat, count_none s.nb_solution) refl

  after_one :
      (s : Found) (w : List Bool) (ws : List (List Bool))
      → after (record { flat = s.flat ++ chosen w factors; nb_solution = suc s.nb_solution }) ws
        ≡ after s (w ∷ ws)
  after_one s w ws =
      simp
        (
          append_assoc s.flat (chosen w factors) (all_chosen factors ws),
          count s.nb_solution (length ws),
        )
        refl

  step_yes :
      (s : Found) (w : List Bool)
      → is_choice factors bk_min bk_max w ≡ true
      → evaluate factors bk_min bk_max s w
        ≡ record { flat = s.flat ++ chosen w factors; nb_solution = suc s.nb_solution }
  unfolding evaluate
  step_yes s w h = rw h

  step_no :
      (s : Found) (w : List Bool)
      → is_choice factors bk_min bk_max w ≡ false
      → evaluate factors bk_min bk_max s w ≡ s
  unfolding evaluate
  step_no s w h = rw h

  picked_yes :
      (w : List Bool) (ws : List (List Bool))
      → is_choice factors bk_min bk_max w ≡ true
      → picked (w ∷ ws) ≡ w ∷ picked ws
  picked_yes w ws h = rw h

  picked_no :
      (w : List Bool) (ws : List (List Bool))
      → is_choice factors bk_min bk_max w ≡ false
      → picked (w ∷ ws) ≡ picked ws
  picked_no w ws h = rw h

  pub loop-picked :
      (s : Found) (seen : List (List Bool))
      → loop (step factors bk_min bk_max) s seen ≡ after s (picked seen)
  loop-picked s [] = sym (after_none s)
  loop-picked s (w ∷ seen) = elim (Bool-cases (is_choice factors bk_min bk_max w)) [
    | inl h ↦
        ap (λ t. loop (step factors bk_min bk_max) t seen) (step_yes s w h)
        ∙ loop-picked
            (record { flat = s.flat ++ chosen w factors; nb_solution = suc s.nb_solution }) seen
        ∙ after_one s w (picked seen)
        ∙ ap (after s) (sym (picked_yes w seen h))
    | inr h ↦
        ap (λ t. loop (step factors bk_min bk_max) t seen) (step_no s w h)
        ∙ loop-picked s seen
        ∙ ap (after s) (sym (picked_no w seen h))
  ]

  abbrev pub Accepted : ℕ → List Bool → Type 0
  Accepted n w = (length w ≡ n) × (is_choice factors bk_min bk_max w ≡ true)

  pub picked-IsIn :
      (w : List Bool) (seen : List (List Bool))
      → is_choice factors bk_min bk_max w ≡ true
      → IsIn w seen
      → IsIn w (picked seen)
  picked-IsIn w [] c h = elim h [ ]
  picked-IsIn w (v ∷ seen) c (inl e) =
      subst (IsIn w) (sym (picked_yes v seen (sym (ap (is_choice factors bk_min bk_max) e) ∙ c)))
        (inl e)
  picked-IsIn w (v ∷ seen) c (inr h) =
      let rest = picked-IsIn w seen c h in
      elim (Bool-cases (is_choice factors bk_min bk_max v)) [
        | inl d ↦ subst (IsIn w) (sym (picked_yes v seen d)) (inr rest)
        | inr d ↦ subst (IsIn w) (sym (picked_no v seen d)) rest
      ]

  pub picked-Accepted :
      (n : ℕ) (seen : List (List Bool))
      → All (λ w. length w ≡ n) seen
      → All (Accepted n) (picked seen)
  picked-Accepted n [] h = tt
  picked-Accepted n (v ∷ seen) h = elim (Bool-cases (is_choice factors bk_min bk_max v)) [
    | inl d ↦
        subst (All (Accepted n)) (sym (picked_yes v seen d)) ((h.0, d), picked-Accepted n seen h.1)
    | inr d ↦ subst (All (Accepted n)) (sym (picked_no v seen d)) (picked-Accepted n seen h.1)
  ]
