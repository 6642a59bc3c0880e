-- ===== src/Preprocess/Rules.antt =====
-- The rules of `try_affect_variable` and `try_affect_bounded_variable` (lib/src/preprocessor.cpp)
-- against the assignments that are solutions.
use baryonyx.Base.{
  ℕ, ◌≡◌, refl, sym, ◌∙◌, Bool, true, false, List, [], ◌∷◌, arith, ◌⊎◌, inl, inr, All,
}
use baryonyx.Base.Int.{
  ℤ, pos, ◌+ℤ◌, ◌*ℤ◌, ◌≤ℤ◌, int_laws, parts, one-*ℤ, zero-*ℤ, zero-+ℤ, +ℤ-zero, +ℤ_assoc,
}
use baryonyx.Problem.{
  FunctionElement, Constraint, OperatorType, equal, greater, less, compute_function,
}
use baryonyx.Problem.Sums.{dot, compute_function-dot}
use baryonyx.Preprocess.{bit}
use baryonyx.Preprocess.Reduce.{HoldsAt, bits}
use baryonyx.Preprocess.Start.{is_all_factor_ge_than_zero, sum_factor, sum_factor_from}

-- Every variable of the elements has a value at an assignment.
abbrev pub AllAre : (ℕ → Bool) → Bool → List FunctionElement → Type 0
AllAre x b = All (λ e. x e.variable_index ≡ b)

abbrev total : List FunctionElement → ℤ
total [] = pos 0
total (e ∷ es) = e.factor +ℤ total es

sum_factor-total : (es : List FunctionElement) → sum_factor es ≡ total es
unfolding sum_factor
sum_factor-total es = go (pos 0) es ∙ zero-+ℤ (total es)
  where
    go : (acc : ℤ) (fs : List FunctionElement) → sum_factor_from acc fs ≡ acc +ℤ total fs
    go acc [] = sym (+ℤ-zero acc)
    go acc (f ∷ fs) = go (acc +ℤ f.factor) fs ∙ +ℤ_assoc acc f.factor (total fs)

-- With factors above 0 the sum lies from 0 to the total, and reaches an end only if all variables
-- have the value of that end.
record Between (x : ℕ → Bool) (es : List FunctionElement) : Type 0 where
  low : pos 0 ≤ℤ dot es (bits x)
  high : dot es (bits x) ≤ℤ total es
  at_low : dot es (bits x) ≤ℤ pos 0 → AllAre x false es
  at_high : total es ≤ℤ dot es (bits x) → AllAre x true es

value_at :
    (f : ℤ) (b : Bool) → ((b ≡ true) × (bit b *ℤ f ≡ f)) ⊎ ((b ≡ false) × (bit b *ℤ f ≡ pos 0))
value_at f true = inl (refl, one-*ℤ f)
value_at f false = inr (refl, zero-*ℤ f)

positive-Between :
    (x : ℕ → Bool) (es : List FunctionElement) → is_all_factor_ge_than_zero es ≡ true → Between x es
unfolding is_all_factor_ge_than_zero dot
positive-Between x [] h = record {
  low = omega arith;
  high = omega arith;
  at_low = λ k. tt;
  at_high = λ k. tt;
}
positive-Between x (e ∷ es) h =
    let ih = positive-Between x es (ground arith) in
    let f_pos : ¬ (e.factor ≤ℤ pos 0) = λ k. ground arith in
    elim (value_at e.factor (x e.variable_index)) [
      | inl (t, v) ↦
          let q = parts v in
          record {
            low = omega (int_laws, ih.low, ih.high);
            high = omega (int_laws, ih.low, ih.high);
            at_low = λ k. absurd (omega (int_laws, ih.low, ih.high));
            at_high = λ k. (t, ih.at_high (omega (int_laws, ih.low, ih.high)));
          }
      | inr (t, v) ↦
          let q = parts v in
          record {
            low = omega (int_laws, ih.low, ih.high);
            high = omega (int_laws, ih.low, ih.high);
            at_high = λ k. absurd (omega (int_laws, ih.low, ih.high));
            at_low = λ k. (t, ih.at_low (omega (int_laws, ih.low, ih.high)));
          }
    ]

module _ (x : ℕ → Bool) (c : Constraint)
    (positive : is_all_factor_ge_than_zero c.elements ≡ true) where
  sum_at : ℤ
  sum_at = compute_function c.elements (bits x)

  between : Between x c.elements
  between = positive-Between x c.elements positive

  -- An equality or a greater constraint that only the largest sum meets.
  pub all_true :
      (op : OperatorType)
      → ((op ≡ equal) ⊎ (op ≡ greater))
      → sum_factor c.elements ≡ c.value
      → HoldsAt op x c
      → AllAre x true c.elements
  all_true equal k full h = between.at_high (
      let e = parts (sym full ∙ sum_factor-total c.elements) in
      let d = parts (compute_function-dot c.elements (bits x)) in ground arith)
  all_true greater k full h = between.at_high (
      let e = parts (sym full ∙ sum_factor-total c.elements) in
      let d = parts (compute_function-dot c.elements (bits x)) in ground arith)
  all_true less k full h = absurd (ground arith)

  -- An equality with value 0, or a less constraint with no positive value.
  pub all_false :
      (op : OperatorType)
      → ((op ≡ equal) ⊎ (op ≡ less))
      → c.value ≤ℤ pos 0
      → HoldsAt op x c
      → AllAre x false c.elements
  all_false equal k low h =
      between.at_low (let d = parts (compute_function-dot c.elements (bits x)) in ground arith)
  all_false less k low h =
      between.at_low (let d = parts (compute_function-dot c.elements (bits x)) in ground arith)
  all_false greater k low h = absurd (ground arith)
