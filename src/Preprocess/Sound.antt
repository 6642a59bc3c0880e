-- ===== src/Preprocess/Sound.antt =====
-- The runs of the preprocessor (lib/src/preprocessor.cpp) up to the end of the first `affects`.
use mathlib.Core.Option.{some-injective}
use baryonyx.Base.{
  ℕ, suc, ◌+◌, ◌≤◌, ◌<◌, ◌≡◌, refl, ap, Bool, List, [], ◌∷◌, some, arith, ◌⊎◌, inl, inr, get_elem?,
  get_or, map, length, nonzero-le-length, All,
}
use baryonyx.Base.Result.{Result, ok, err, ◌>>=◌}
use baryonyx.Problem.{FunctionElement, Constraint, Problem, OperatorType, equal, greater, less}
use baryonyx.Preprocess.{
  Fault, reached, Progress, VariableValues, find_value, push_value, constraints, affects,
}
use baryonyx.Preprocess.Reduce.{Agrees, HoldsAt, unassigned}
use baryonyx.Preprocess.Invariant.{counter, Inv, Solves, rounds}
use baryonyx.Preprocess.Visit.{push_value-Solves, push_value-Inv}
use baryonyx.Preprocess.Propagate.{idle, Ends, done, affects-Ends}
use baryonyx.Preprocess.Propagate
use baryonyx.Preprocess.Start.{
  make_cache, init_progress, fuel_of, propagate, propagate_value, try_affect_bounded_variable,
}
use baryonyx.Preprocess.Cache.{make_cache-IsCached}
use baryonyx.Preprocess.Begin.{
  InBounds, Begins, begun, hopeless, bounded-Begun, try_affect_variable-Begins, IsNew-nil,
}

rounds-lt-fuel_of : (s : Progress) → rounds s < fuel_of s
unfolding rounds
rounds-lt-fuel_of s = omega (
  arith,
  nonzero-le-length s.equal_constraints,
  nonzero-le-length s.greater_constraints,
  nonzero-le-length s.less_constraints,
)

unassigned-le-length :
    (vs : VariableValues) (es : List FunctionElement) → unassigned vs es ≤ length es
unfolding unassigned
unassigned-le-length vs [] = omega arith
unassigned-le-length vs (e ∷ es) = ground (arith, unassigned-le-length vs es)

counter-of_lengths :
    (cs : List Constraint) (i : ℕ) (c : Constraint)
    → get_elem? cs i ≡ some c
    → get_or (map (λ (d : Constraint). length d.elements) cs) i 0 ≡ length c.elements
counter-of_lengths [] i c h = cc
counter-of_lengths (d ∷ cs) ℕ.zero c h =
    ap (λ (t : Constraint). length t.elements) (some-injective _ _ h)
counter-of_lengths (d ∷ cs) (suc i) c h = counter-of_lengths cs i c h

module _ {D : Type 0} (pb : Problem D) where
  init_progress-Inv : Inv pb idle (init_progress pb)
  unfolding init_progress find_value
  init_progress-Inv = record {
    counted = λ op cst c at. inr (count_one op cst c at);
    distinct = tt;
    apart = λ i v h. cc;
  }
    where
      count_one :
          (op : OperatorType) (cst : ℕ) (c : Constraint)
          → get_elem? (constraints pb op) cst ≡ some c
          → unassigned [] c.elements + 0 ≤ counter (init_progress pb) op cst
      count_one equal cst c at = omega (
        arith,
        counter-of_lengths pb.equal_constraints cst c at,
        unassigned-le-length [] c.elements,
      )
      count_one greater cst c at = omega (
        arith,
        counter-of_lengths pb.greater_constraints cst c at,
        unassigned-le-length [] c.elements,
      )
      count_one less cst c at = omega (
        arith,
        counter-of_lengths pb.less_constraints cst c at,
        unassigned-le-length [] c.elements,
      )

  vars-init_progress : (init_progress pb).vars ≡ []
  unfolding init_progress
  vars-init_progress = refl

  -- An assignment meets every constraint of the problem.
  abbrev pub MeetsAll : (ℕ → Bool) → Type 0
  MeetsAll x = (op : OperatorType) → All (HoldsAt op x) (constraints pb op)

  init_progress-Solves : (x : ℕ → Bool) → MeetsAll x → Solves pb x (init_progress pb)
  unfolding init_progress find_value
  init_progress-Solves x h = record { meets = h; given = λ i v k. cc; stacked = λ i v k. cc }

  affects-of_fuel :
      (x : ℕ → Bool) (s : Progress)
      → Inv pb idle s
      → Ends pb x s (affects pb (fuel_of s) (make_cache pb) s)
  affects-of_fuel x s inv =
      affects-Ends pb x (make_cache pb) (make_cache-IsCached pb) (fuel_of s) s s.lifo refl inv
        (rounds-lt-fuel_of s)

  -- What a run of the propagation must return: the stack is empty and the solution has the values
  -- given, or `bx_reach` is met and there is no solution.
  pub data Returns (x : ℕ → Bool) (W : Type 0) : Result Fault Progress → Type 0 where
    returned :
        {t : Progress} → t.lifo ≡ [] → (W → MeetsAll x → Agrees t.vars x) → Returns x W (ok t)
    stopped : ¬ (W × MeetsAll x) → Returns x W (err reached)

  Returns-of_Ends :
      {x : ℕ → Bool} {W : Type 0} (s : Progress) (r : Result Fault Progress)
      → (W → MeetsAll x → Solves pb x s)
      → Ends pb x s r
      → Returns x W r
  Returns-of_Ends s r from (done inv empty keep) =
      returned empty (λ w h. let k = keep (from w h) in k.given)
  Returns-of_Ends s r from (Propagate.hopeless never) = stopped (λ h. never (from h.0 h.1))

  Returns-bind :
      (x : ℕ → Bool) (W : Type 0) (s : Progress) (r : Result Fault Progress)
      → (W → MeetsAll x → Solves pb x s)
      → Begins pb x W s r
      → Returns x W (r >>= λ t. affects pb (fuel_of t) (make_cache pb) t)
  Returns-bind x W s r from (begun {t = t} b) =
      Returns-of_Ends t _ (λ w h. b.keeps w (from w h)) (affects-of_fuel x t b.inv)
  Returns-bind x W s r from (hopeless never) = stopped (λ h. never (h.0, from h.0 h.1))

  abbrev Within : (ℕ → Bool) → Type 0
  Within x = InBounds x 0 pb.vars.values

  propagate-Returns : (x : ℕ → Bool) → Returns x (Within x) (propagate pb)
  unfolding propagate
  propagate-Returns x =
      let start =
        bounded-Begun pb x (Within x) 0 pb.vars.values (init_progress pb) (λ w. w) init_progress-Inv
          vars-init_progress in
      Returns-bind x (Within x) (try_affect_bounded_variable 0 pb.vars.values (init_progress pb)) _
        (λ w h. start.keeps w (init_progress-Solves x h))
        (try_affect_variable-Begins pb x (Within x) _ start.inv start.none_given)

  propagate_value-Returns :
      (x : ℕ → Bool) (i : ℕ) (b : Bool) → Returns x (x i ≡ b) (propagate_value pb i b)
  unfolding propagate_value
  propagate_value-Returns x i b =
      let new = IsNew-nil (init_progress pb).vars (some (i, b)) vars-init_progress in
      Returns-of_Ends (push_value (init_progress pb) (some (i, b))) _
        (λ w h.
          push_value-Solves pb x (init_progress pb) (some (i, b)) (new, w)
            (init_progress-Solves x h))
        (affects-of_fuel x _
          (push_value-Inv pb (init_progress pb) (some (i, b)) init_progress-Inv new))

  Returns-total :
      {x : ℕ → Bool} {W : Type 0} (r : Result Fault Progress)
      → Returns x W r
      → ((t : Progress) × (r ≡ ok t) × (t.lifo ≡ [])) ⊎ (r ≡ err reached)
  Returns-total (ok t) (returned e k) = inl (t, refl, e)
  Returns-total (err f) (stopped n) = inr refl

  Returns-sound :
      {x : ℕ → Bool} {W : Type 0} (r : Result Fault Progress)
      → Returns x W r
      → W
      → MeetsAll x
      → (t : Progress) × (r ≡ ok t) × (t.lifo ≡ []) × Agrees t.vars x
  Returns-sound (ok t) (returned e k) w h = (t, refl, e, k w h)
  Returns-sound (err f) (stopped n) w h = absurd (n (w, h))

  -- Of every problem, the propagation at the start of the preprocessor ends: its stack is empty, or
  -- it met `bx_reach`. It never fails its assertion, and its fuel is enough.
  pub propagate_ends :
      ((t : Progress) × (propagate pb ≡ ok t) × (t.lifo ≡ [])) ⊎ (propagate pb ≡ err reached)
  propagate_ends = Returns-total (propagate pb) (propagate-Returns (λ i. Bool.false))

  -- If an assignment meets every constraint and keeps the bounds of the variables, the propagation
  -- does not stop at `bx_reach`, and each variable that it gives a value has that value in the
  -- assignment.
  pub propagate_sound :
      (x : ℕ → Bool)
      → MeetsAll x
      → InBounds x 0 pb.vars.values
      → (t : Progress) × (propagate pb ≡ ok t) × (t.lifo ≡ []) × Agrees t.vars x
  propagate_sound x h w = Returns-sound (propagate pb) (propagate-Returns x) w h

  -- If an assignment meets every constraint and a variable has a value in it, the propagation that
  -- starts with this value does not stop at `bx_reach`, and each variable that it gives a value has
  -- that value in the assignment.
  pub propagate_value_sound :
      (x : ℕ → Bool) (i : ℕ) (b : Bool)
      → MeetsAll x
      → x i ≡ b
      → (t : Progress) × (propagate_value pb i b ≡ ok t) × (t.lifo ≡ []) × Agrees t.vars x
  propagate_value_sound x i b h w =
      Returns-sound (propagate_value pb i b) (propagate_value-Returns x i b) w h
