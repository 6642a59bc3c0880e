-- ===== src/Preprocess/Begin.antt =====
-- The start of a run of the preprocessor (lib/src/preprocessor.cpp), before `affects`: each rule, its
-- invariant and the solutions within the bounds.
use baryonyx.Base.{
  ℕ, suc, ◌+◌, ◌≡◌, refl, ◌∙◌, subst, Bool, true, false, List, [], ◌∷◌, Option, some, none, arith,
  inl, inr, ◌==◌, not, Bool-cases, get_elem?, All, All-get_elem?,
}
use baryonyx.Base.Int.{pos, ◌≤ℤ◌, leb_ℤ, eqb_ℤ, eqb_ℤ_iff, leb_ℤ_iff}
use baryonyx.Base.Result.{Result, ok, err, ◌>>=◌}
use baryonyx.Problem.{
  FunctionElement, Constraint, Problem, VariableValue, OperatorType, equal, greater, less,
}
use baryonyx.Preprocess.{
  Fault, reached, Progress, VariableValues, find_value, bit, set_counter, push_value, finish,
  finish_at, constraints,
}
use baryonyx.Preprocess.Reduce.{HoldsAt, IsNew}
use baryonyx.Preprocess.Invariant.{counter, Inv, Solves, Run, fine, dead, set_counter-Solves}
use baryonyx.Preprocess.Values.{vars-set_counter, vars-push_value}
use baryonyx.Preprocess.Visit.{set_counter-Inv, push_value-Inv, push_value-Solves, finish_at-Run}
use baryonyx.Preprocess.Propagate.{idle}
use baryonyx.Preprocess.Start.{
  is_all_factor_ge_than_zero, sum_factor, push_all, try_bounds, try_affect_constraint,
  try_affect_constraints, try_affect_bounded_variable, try_affect_variable,
}
use baryonyx.Preprocess.Rules.{AllAre, all_true, all_false}

-- An assignment keeps the bounds of the variables from `i` on.
abbrev pub InBounds : (ℕ → Bool) → ℕ → List VariableValue → Type 0
InBounds x i [] = Unit {0}
InBounds x i (v ∷ vs) =
    (v.min_value ≤ℤ bit (x i)) × (bit (x i) ≤ℤ v.max_value) × InBounds x (suc i) vs

find_value-nil : (i : ℕ) → find_value [] i ≡ none
unfolding find_value
find_value-nil i = refl

pub IsNew-nil : (vs : VariableValues) (v : Option (ℕ × Bool)) → vs ≡ [] → IsNew vs v
IsNew-nil vs none e = tt
IsNew-nil vs (some (i, b)) e = rw e (find_value-nil i)

bounded_value :
    (v : VariableValue) (b : Bool)
    → v.min_value ≤ℤ bit b
    → bit b ≤ℤ v.max_value
    → eqb_ℤ v.min_value v.max_value ≡ true
    → b ≡ not (eqb_ℤ v.max_value (pos 0))
bounded_value v true lo hi e = ground arith
bounded_value v false lo hi e = ground arith

module _ {D : Type 0} (pb : Problem D) (x : ℕ → Bool) (W : Type 0) where
  abbrev MeetsAll : Type 0
  MeetsAll = (op : OperatorType) → All (HoldsAt op x) (constraints pb op)

  -- A state with no value given, as good as the one before if `W` holds.
  pub record Begun (s t : Progress) : Type 0 where
    pub inv : Inv pb idle t
    pub none_given : t.vars ≡ []
    pub keeps : W → Solves pb x s → Solves pb x t

  pub data Begins (s : Progress) : Result Fault Progress → Type 0 where
    begun : {t : Progress} → Begun s t → Begins s (ok t)
    hopeless : ¬ (W × Solves pb x s) → Begins s (err reached)

  push_value-Begun :
      (s : Progress) (i : ℕ) (b : Bool)
      → Inv pb idle s
      → s.vars ≡ []
      → (W → Solves pb x s → x i ≡ b)
      → Begun s (push_value s (some (i, b)))
  push_value-Begun s i b inv e h = record {
    inv = push_value-Inv pb s (some (i, b)) inv (IsNew-nil s.vars (some (i, b)) e);
    none_given = vars-push_value s (some (i, b)) ∙ e;
    keeps =
        λ w k. push_value-Solves pb x s (some (i, b)) (IsNew-nil s.vars (some (i, b)) e, h w k) k;
  }

  Begun-then : {s t u : Progress} → Begun s t → Begun t u → Begun s u
  Begun-then a b = record {
    inv = b.inv;
    none_given = b.none_given;
    keeps = λ w k. b.keeps w (a.keeps w k);
  }

  push_all-Begun :
      (b : Bool) (es : List FunctionElement) (s : Progress)
      → Inv pb idle s
      → s.vars ≡ []
      → (MeetsAll → AllAre x b es)
      → Begun s (push_all b s es)
  unfolding push_all
  push_all-Begun b [] s inv e h = record { inv = inv; none_given = e; keeps = λ w k. k }
  push_all-Begun b (f ∷ es) s inv e h =
      let first = push_value-Begun s f.variable_index b inv e (λ w k. (h k.meets).0) in
      Begun-then first (
        push_all-Begun b es (push_value s (some (f.variable_index, b))) first.inv first.none_given
          (λ m. (h m).1))

  drop-Begun :
      (op : OperatorType) (i : ℕ) (s : Progress)
      → Inv pb idle s
      → s.vars ≡ []
      → Begun s (set_counter s op i 0)
  drop-Begun op i s inv e = record {
    inv = set_counter-Inv pb idle s op i 0 inv (λ o j. omega arith) (λ c at. inl refl);
    none_given = vars-set_counter s op i 0 ∙ e;
    keeps = λ w. set_counter-Solves pb x s op i 0;
  }

  same-Begun : (s : Progress) → Inv pb idle s → s.vars ≡ [] → Begun s s
  same-Begun s inv e = record { inv = inv; none_given = e; keeps = λ w k. k }

  try_bounds-Begun :
      (op : OperatorType) (i : ℕ) (s : Progress) (c : Constraint)
      → Inv pb idle s
      → s.vars ≡ []
      → is_all_factor_ge_than_zero c.elements ≡ true
      → (MeetsAll → HoldsAt op x c)
      → Begun s (try_bounds op i s c)
  unfolding try_bounds
  try_bounds-Begun equal i s c inv e positive holds =
      let dropped = drop-Begun equal i s inv e in
      let low = λ (t : eqb_ℤ c.value (pos 0) ≡ true). Begun-then dropped (
        push_all-Begun false c.elements _ dropped.inv dropped.none_given
          λ m. all_false x c positive equal (inl refl) (ground arith) (holds m)) in
      elim (Bool-cases (eqb_ℤ (sum_factor c.elements) c.value)) [
        | inl g ↦ elim (Bool-cases (eqb_ℤ c.value (pos 0))) [
          | inl t ↦ simp (g, t) (low t)
          | inr f ↦
              simp (g, f)
                (Begun-then dropped (
                  push_all-Begun true c.elements _ dropped.inv dropped.none_given λ m.
                    all_true x c positive equal (inl refl)
                      ((eqb_ℤ_iff (sum_factor c.elements) c.value).0 g) (holds m)))
        ]
        | inr g ↦ elim (Bool-cases (eqb_ℤ c.value (pos 0))) [
          | inl t ↦ simp (g, t) (low t)
          | inr f ↦ simp (g, f) (same-Begun s inv e)
        ]
      ]
  try_bounds-Begun greater i s c inv e positive holds =
      let dropped = drop-Begun greater i s inv e in
      elim (Bool-cases (eqb_ℤ (sum_factor c.elements) c.value)) [
        | inl t ↦ simp t (
            Begun-then dropped (
              push_all-Begun true c.elements _ dropped.inv dropped.none_given λ m.
                all_true x c positive greater (inr refl)
                  ((eqb_ℤ_iff (sum_factor c.elements) c.value).0 t) (holds m)))
        | inr f ↦ elim (Bool-cases (eqb_ℤ c.value (pos 0))) [
          | inl t ↦ simp (f, t) dropped
          | inr g ↦ simp (f, g) (same-Begun s inv e)
        ]
      ]
  try_bounds-Begun less i s c inv e positive holds =
      let dropped = drop-Begun less i s inv e in
      elim (Bool-cases (leb_ℤ c.value (pos 0))) [
        | inl t ↦ simp t (
            Begun-then dropped (
              push_all-Begun false c.elements _ dropped.inv dropped.none_given λ m.
                all_false x c positive less (inr refl) ((leb_ℤ_iff c.value (pos 0)).0 t) (holds m)))
        | inr f ↦ elim (Bool-cases (eqb_ℤ (sum_factor c.elements) c.value)) [
          | inl t ↦ simp (f, t) dropped
          | inr g ↦ simp (f, g) (same-Begun s inv e)
        ]
      ]

  Begins-of-Run :
      (s : Progress) (r : Result Fault Progress) → s.vars ≡ [] → Run pb x idle s r → Begins s r
  Begins-of-Run s (ok t) e (fine inv le same keep) =
      begun (record { inv = inv; none_given = same ∙ e; keeps = λ w. keep })
  Begins-of-Run s (err f) e (dead never) = hopeless (λ h. never h.1)

  Begins-bind :
      {s : Progress} (r : Result Fault Progress) (f : Progress → Result Fault Progress)
      → ((t : Progress) → Inv pb idle t → t.vars ≡ [] → Begins t (f t))
      → Begins s r
      → Begins s (r >>= f)
  Begins-bind {s} r f next (begun {t = t} b) = onward (f t) (next t b.inv b.none_given)
    where
      onward : (q : Result Fault Progress) → Begins t q → Begins s q
      onward q (begun c) = begun (Begun-then b c)
      onward q (hopeless never) = hopeless (λ h. never (h.0, b.keeps h.0 h.1))
  Begins-bind r f next (hopeless never) = hopeless never

  finish_at-eq :
      (op : OperatorType) (i : ℕ) (s : Progress) (c : Constraint)
      → get_elem? (constraints pb op) i ≡ some c
      → finish_at pb op i s ≡ finish op i s c
  unfolding finish_at
  finish_at-eq op i s c at = rw (at, finish_at)

  try_affect_constraint-Begins :
      (op : OperatorType) (i : ℕ) (s : Progress) (c : Constraint)
      → get_elem? (constraints pb op) i ≡ some c
      → Inv pb idle s
      → s.vars ≡ []
      → Begins s (try_affect_constraint op i s c)
  unfolding try_affect_constraint
  try_affect_constraint-Begins op i s c at inv e = elim (Bool-cases (counter s op i == 1)) [
    | inl t ↦ simp t (
        Begins-of-Run s _ e (
          subst (Run pb x idle s) (finish_at-eq op i s c at) (
            finish_at-Run pb x op i s inv (ground arith)
              λ d at'. let old = inv.counted op i d at' in ground arith)))
    | inr f ↦ elim (Bool-cases (is_all_factor_ge_than_zero c.elements)) [
      | inl p ↦
          simp (f, p)
            (begun (
              try_bounds-Begun op i s c inv e p
                λ m. All-get_elem? (HoldsAt op x) (constraints pb op) i (m op) at))
      | inr q ↦ simp (f, q) (begun (same-Begun s inv e))
    ]
  ]

  try_affect_constraints-Begins :
      (op : OperatorType) (i : ℕ) (cs : List Constraint) (s : Progress)
      → ((k j : ℕ) (c : Constraint)
          → get_elem? cs k ≡ some c
          → j ≡ i + k
          → get_elem? (constraints pb op) j ≡ some c)
      → Inv pb idle s
      → s.vars ≡ []
      → Begins s (try_affect_constraints op i cs s)
  unfolding try_affect_constraints
  try_affect_constraints-Begins op i [] s sub inv e = begun (same-Begun s inv e)
  try_affect_constraints-Begins op i (c ∷ cs) s sub inv e =
      Begins-bind (try_affect_constraint op i s c) (try_affect_constraints op (suc i) cs)
        (λ t inv_t e_t.
          try_affect_constraints-Begins op (suc i) cs t
            (λ k j d at eq. sub (suc k) j d at (omega arith)) inv_t e_t)
        (try_affect_constraint-Begins op i s c (sub 0 i c refl (omega arith)) inv e)

  pub try_affect_variable-Begins :
      (s : Progress) → Inv pb idle s → s.vars ≡ [] → Begins s (try_affect_variable pb s)
  unfolding try_affect_variable
  try_affect_variable-Begins s inv e =
      Begins-bind _ _
        (λ t inv_t e_t.
          Begins-bind _ _
            (λ u inv_u e_u.
              try_affect_constraints-Begins less 0 pb.less_constraints u (all less) inv_u e_u)
            (try_affect_constraints-Begins greater 0 pb.greater_constraints t (all greater) inv_t
              e_t))
        (try_affect_constraints-Begins equal 0 pb.equal_constraints s (all equal) inv e)
    where
      all :
          (op : OperatorType) (k j : ℕ) (c : Constraint)
          → get_elem? (constraints pb op) k ≡ some c
          → j ≡ 0 + k
          → get_elem? (constraints pb op) j ≡ some c
      all op k j c at eq =
          let same : k ≡ j = omega arith in
          subst (λ n. get_elem? (constraints pb op) n ≡ some c) same at

  pub bounded-Begun :
      (i : ℕ) (vs : List VariableValue) (s : Progress)
      → (W → InBounds x i vs)
      → Inv pb idle s
      → s.vars ≡ []
      → Begun s (try_affect_bounded_variable i vs s)
  unfolding try_affect_bounded_variable
  bounded-Begun i [] s within inv e = same-Begun s inv e
  bounded-Begun i (v ∷ vs) s within inv e = elim (Bool-cases (eqb_ℤ v.min_value v.max_value)) [
    | inl t ↦
        let first =
          push_value-Begun s i (not (eqb_ℤ v.max_value (pos 0))) inv e
            (λ w k. bounded_value v (x i) (within w).0 (within w).1 t) in
        simp t (
          Begun-then first
            (bounded-Begun (suc i) vs _ (λ w. (within w).2) first.inv first.none_given))
    | inr f ↦ simp f (bounded-Begun (suc i) vs s (λ w. (within w).2) inv e)
  ]
