-- ===== src/Preprocess/Invariant.antt =====
-- The invariant of the propagation in lib/src/preprocessor.cpp (`affects`), and that the visit of
-- one constraint keeps it.
use baryonyx.Base.{
  ℕ, ◌+◌, ◌≤◌, ◌≡◌, ◌≢◌, refl, Bool, [], ◌∷◌, none, some, arith, ◌⊎◌, inl, inr, get_elem?, get_or,
  nonzero, length, get_or-set_cases, get_or-set_live, nonzero-set_le, nonzero-set_zero, All,
}
use baryonyx.Base.Result.{Result, ok, err}
use baryonyx.Problem.{Constraint, Problem, OperatorType, equal, greater, less}
use baryonyx.Preprocess.{
  Fault, reached, VariableValues, Progress, find_value, emplace, counters, set_counter, constraints,
}
use baryonyx.Preprocess.Reduce.{Agrees, HoldsAt, unassigned}

abbrev pub counter : Progress → OperatorType → ℕ → ℕ
counter s op cst = get_or (counters s op) cst 0

-- What a write to a counter does to any counter.
pub counter-set_counter :
    (s : Progress) (op : OperatorType) (cst n : ℕ) (op' : OperatorType) (j : ℕ)
    → ((counter (set_counter s op cst n) op' j ≡ n) × (op ≡ op') × (cst ≡ j))
      ⊎ (counter (set_counter s op cst n) op' j ≡ counter s op' j)
counter-set_counter s equal cst n equal j = elim (get_or-set_cases s.equal_constraints cst n j) [
  | inl (e, p) ↦ inl (e, refl, p)
  | inr e ↦ inr e
]
counter-set_counter s equal cst n greater j = inr refl
counter-set_counter s equal cst n less j = inr refl
counter-set_counter s greater cst n equal j = inr refl
counter-set_counter s greater cst n greater j =
    elim (get_or-set_cases s.greater_constraints cst n j) [
      | inl (e, p) ↦ inl (e, refl, p)
      | inr e ↦ inr e
    ]
counter-set_counter s greater cst n less j = inr refl
counter-set_counter s less cst n equal j = inr refl
counter-set_counter s less cst n greater j = inr refl
counter-set_counter s less cst n less j = elim (get_or-set_cases s.less_constraints cst n j) [
  | inl (e, p) ↦ inl (e, refl, p)
  | inr e ↦ inr e
]

pub counter-set_live :
    (s : Progress) (op : OperatorType) (cst n : ℕ)
    → counter s op cst ≢ 0
    → counter (set_counter s op cst n) op cst ≡ n
counter-set_live s equal cst n h = get_or-set_live s.equal_constraints cst n h
counter-set_live s greater cst n h = get_or-set_live s.greater_constraints cst n h
counter-set_live s less cst n h = get_or-set_live s.less_constraints cst n h

-- The rounds left at most: the stack, and a push for each constraint that is not dropped.
unfoldable pub rounds : Progress → ℕ
rounds s =
    length s.lifo
    + (nonzero s.equal_constraints + nonzero s.greater_constraints + nonzero s.less_constraints)

pub rounds-set_counter :
    (s : Progress) (op : OperatorType) (cst n : ℕ)
    → counter s op cst ≢ 0
    → rounds (set_counter s op cst n) ≤ rounds s
unfolding rounds
rounds-set_counter s equal cst n h = omega (arith, nonzero-set_le s.equal_constraints cst n h)
rounds-set_counter s greater cst n h = omega (arith, nonzero-set_le s.greater_constraints cst n h)
rounds-set_counter s less cst n h = omega (arith, nonzero-set_le s.less_constraints cst n h)

pub rounds-set_zero :
    (s : Progress) (op : OperatorType) (cst : ℕ)
    → counter s op cst ≢ 0
    → rounds (set_counter s op cst 0) + 1 ≤ rounds s
unfolding rounds
rounds-set_zero s equal cst h = omega (arith, nonzero-set_zero s.equal_constraints cst h)
rounds-set_zero s greater cst h = omega (arith, nonzero-set_zero s.greater_constraints cst h)
rounds-set_zero s less cst h = omega (arith, nonzero-set_zero s.less_constraints cst h)

-- No variable stands twice.
abbrev pub IsDistinct : VariableValues → Type 0
IsDistinct [] = Unit {0}
IsDistinct ((i, v) ∷ vs) = (find_value vs i ≡ none) × IsDistinct vs

abbrev pub IsApart : VariableValues → VariableValues → Type 0
IsApart lifo vars = (i : ℕ) (v : Bool) → find_value lifo i ≡ some v → find_value vars i ≡ none

pub find_value-emplace_self :
    (vs : VariableValues) (i : ℕ) (v : Bool) → find_value vs i ≡ none → emplace vs i v ≡ (i, v) ∷ vs
unfolding emplace
find_value-emplace_self vs i v h = rw (h, emplace)

module _ {D : Type 0} (pb : Problem D) where
  -- A counter that is not 0 is at least the number of elements without a value, and the visits
  -- still to come; a stacked variable has no value yet.
  pub record Inv (pending : OperatorType → ℕ → ℕ) (s : Progress) : Type 0 where
    pub counted :
        (op : OperatorType) (cst : ℕ) (c : Constraint)
        → get_elem? (constraints pb op) cst ≡ some c
        → (counter s op cst ≡ 0)
          ⊎ (unassigned s.vars c.elements + pending op cst ≤ counter s op cst)
    pub distinct : IsDistinct s.lifo
    pub apart : IsApart s.lifo s.vars

  module _ (x : ℕ → Bool) where
    -- The assignment meets every constraint and has the values given so far.
    pub record Solves (s : Progress) : Type 0 where
      pub meets : (op : OperatorType) → All (HoldsAt op x) (constraints pb op)
      pub given : Agrees s.vars x
      pub stacked : Agrees s.lifo x

    -- A run ends well, in a state as good, or at `bx_reach`, and then `x` is no solution.
    pub data Run (pending : OperatorType → ℕ → ℕ) (s : Progress)
        : Result Fault Progress → Type 0 where
      fine :
          {t : Progress}
          → Inv pending t
          → rounds t ≤ rounds s
          → t.vars ≡ s.vars
          → (Solves s → Solves t)
          → Run pending s (ok t)
      dead : ¬ Solves s → Run pending s (err reached)

    pub set_counter-Solves :
        (s : Progress) (op : OperatorType) (cst n : ℕ) → Solves s → Solves (set_counter s op cst n)
    set_counter-Solves s equal cst n h = record {
      meets = h.meets;
      given = h.given;
      stacked = h.stacked;
    }
    set_counter-Solves s greater cst n h = record {
      meets = h.meets;
      given = h.given;
      stacked = h.stacked;
    }
    set_counter-Solves s less cst n h = record {
      meets = h.meets;
      given = h.given;
      stacked = h.stacked;
    }
