-- ===== src/Preprocess/Reduce.antt =====
-- `reduce` and `reduce_*_constraint` of lib/src/preprocessor.cpp: what follows for the last variable
-- of a constraint.
use baryonyx.Base.{
  ℕ, ◌+◌, ◌≤◌, ◌≡◌, refl, sym, ap, ◌∙◌, Bool, true, false, List, [], ◌∷◌, Option, none, some, arith,
  Bool-cases, Option-cases, ◌⊎◌, inl, inr, not,
}
use baryonyx.Base.Int.{ℤ, pos, negsuc, ◌+ℤ◌, ◌*ℤ◌, int_laws, parts, +ℤ_parts, *ℤ_parts, *ℤ_comm}
use baryonyx.Base.Result.{err, ok}
use baryonyx.Problem.{
  FunctionElement, Constraint, OperatorType, equal, greater, less, compute_function,
}
use baryonyx.Problem.Sums.{dot, compute_function-dot}
use baryonyx.Preprocess.{
  reached, VariableValues, find_value, bit, accepts, reduce_from, affect_last, reduce_constraint,
}

-- An assignment gives each variable that has a value that value.
abbrev pub Agrees : VariableValues → (ℕ → Bool) → Type 0
Agrees vs x = (i : ℕ) (v : Bool) → find_value vs i ≡ some v → x i ≡ v

abbrev pub bits : (ℕ → Bool) → ℕ → ℤ
bits x i = bit (x i)

-- A constraint of a kind holds at an assignment.
abbrev pub HoldsAt : OperatorType → (ℕ → Bool) → Constraint → Type 0
HoldsAt op x c = accepts op (compute_function c.elements (bits x)) c.value ≡ true

abbrev pub one_if_none : Option Bool → ℕ
one_if_none none = 1
one_if_none (some v) = 0

-- How many elements have a variable without a value.
unfoldable pub unassigned : VariableValues → List FunctionElement → ℕ
unassigned vs [] = 0
unassigned vs (e ∷ es) = one_if_none (find_value vs e.variable_index) + unassigned vs es

abbrev held : Option FunctionElement → ℕ
held none = 0
held (some e) = 1

abbrev part : (ℕ → Bool) → Option FunctionElement → ℤ
part x none = pos 0
part x (some e) = e.factor *ℤ bit (x e.variable_index)

abbrev IsFree : VariableValues → Option FunctionElement → Type 0
IsFree vs none = Unit {0}
IsFree vs (some e) = find_value vs e.variable_index ≡ none

record Reduced (vs : VariableValues) (x : ℕ → Bool) (result : ℤ)
    (remaining : Option FunctionElement) (es : List FunctionElement)
    (r : ℤ × Option FunctionElement) : Type 0 where
  runs : reduce_from vs result remaining es ≡ ok r
  free : IsFree vs r.1
  balance : result +ℤ part x r.1 ≡ r.0 +ℤ dot es (bits x) +ℤ part x remaining

step_value :
    (result r d p q f b : ℤ)
    → result +ℤ negsuc 0 *ℤ (f *ℤ b) +ℤ p ≡ r +ℤ d +ℤ q
    → result +ℤ p ≡ r +ℤ (b *ℤ f +ℤ d) +ℤ q
step_value result r d p q f b h =
    let e = parts h in omega (int_laws, *ℤ_parts (negsuc 0) (f *ℤ b), parts (*ℤ_comm f b))

step_free :
    (result r d p f b : ℤ)
    → result +ℤ p ≡ r +ℤ d +ℤ f *ℤ b
    → result +ℤ p ≡ r +ℤ (b *ℤ f +ℤ d) +ℤ pos 0
step_free result r d p f b h = let e = parts h in omega (int_laws, parts (*ℤ_comm f b))

parts_of_none : {o : Option Bool} → o ≡ none → one_if_none o ≡ 1
parts_of_none e = ap one_if_none e

value_case :
    (vs : VariableValues) (x : ℕ → Bool) (e : FunctionElement) (es : List FunctionElement)
    (result : ℤ) (remaining : Option FunctionElement) (v : Bool)
    → Agrees vs x
    → find_value vs e.variable_index ≡ some v
    → ((r : ℤ × Option FunctionElement) × Reduced vs x
          (result +ℤ negsuc 0 *ℤ (e.factor *ℤ bit v))
          remaining
          es
          r)
    → (r : ℤ × Option FunctionElement) × Reduced vs x result remaining (e ∷ es) r
unfolding reduce_from dot
value_case vs x e es result remaining v agrees known (r, ih) = (
  r,
  record {
    runs = rw (known, reduce_from) ih.runs;
    free = ih.free;
    balance = rw (agrees e.variable_index v known) (
        step_value result r.0 (dot es (bits x)) (part x r.1) (part x remaining) e.factor (bit v)
          ih.balance);
  },
)

-- With at most one element without a value, `reduce` gets by its assertion, and the sum is the
-- reduced value and that element's part.
reduce_from-Reduced :
    (vs : VariableValues) (x : ℕ → Bool) (es : List FunctionElement) (result : ℤ)
    (remaining : Option FunctionElement)
    → Agrees vs x
    → IsFree vs remaining
    → unassigned vs es + held remaining ≤ 1
    → (r : ℤ × Option FunctionElement) × Reduced vs x result remaining es r
unfolding reduce_from unassigned dot
reduce_from-Reduced vs x [] result remaining agrees free h =
    ((result, remaining), record { runs = refl; free = free; balance = omega int_laws })
reduce_from-Reduced vs x (e ∷ es) result none agrees free h =
    elim (Option-cases (find_value vs e.variable_index)) [
      | inl unset ↦
          let count : unassigned vs es + 1 ≤ 1 = omega (arith, parts_of_none unset) in
          let (r, ih) = reduce_from-Reduced vs x es result (some e) agrees unset count in
          (
            r,
            record {
              runs = rw (unset, reduce_from) ih.runs;
              free = ih.free;
              balance =
                  step_free result r.0 (dot es (bits x)) (part x r.1) e.factor
                    (bit (x e.variable_index)) ih.balance;
            },
          )
      | inr (v, known) ↦
          value_case vs x e es result none v agrees known
            (reduce_from-Reduced vs x es _ none agrees free (omega arith))
    ]
reduce_from-Reduced vs x (e ∷ es) result (some f) agrees free h =
    elim (Option-cases (find_value vs e.variable_index)) [
      | inl unset ↦ absurd (omega (arith, parts_of_none unset))
      | inr (v, known) ↦
          value_case vs x e es result (some f) v agrees known
            (reduce_from-Reduced vs x es _ (some f) agrees free (omega arith))
    ]

-- The constraint holds exactly if its last part meets the reduced value.
pub accepts-balance :
    (op : OperatorType) (result r d p : ℤ)
    → result +ℤ p ≡ r +ℤ d +ℤ pos 0
    → accepts op d result ≡ accepts op p r
accepts-balance equal result r d p h =
    let e = parts h in ground (arith, +ℤ_parts result p, +ℤ_parts r d, +ℤ_parts (r +ℤ d) (pos 0))
accepts-balance greater result r d p h =
    let e = parts h in ground (arith, +ℤ_parts result p, +ℤ_parts r d, +ℤ_parts (r +ℤ d) (pos 0))
accepts-balance less result r d p h =
    let e = parts h in ground (arith, +ℤ_parts result p, +ℤ_parts r d, +ℤ_parts (r +ℤ d) (pos 0))

-- What `affect_last` gives, for an assignment at which the last part meets the reduced value.
abbrev pub Forced : VariableValues → (ℕ → Bool) → Option (ℕ × Bool) → Type 0
Forced vs x none = Unit {0}
Forced vs x (some (i, v)) = (find_value vs i ≡ none) × (x i ≡ v)

affect_last-Forced :
    (vs : VariableValues) (x : ℕ → Bool) (op : OperatorType) (r : ℤ) (o : Option FunctionElement)
    → IsFree vs o
    → accepts op (part x o) r ≡ true
    → (v : Option (ℕ × Bool)) × (affect_last op r o ≡ ok v) × Forced vs x v
unfolding affect_last
affect_last-Forced vs x op r none free h = (none, refl, tt)
affect_last-Forced vs x op r (some e) free h =
    elim (Bool-cases (accepts op (e.factor *ℤ pos 0) r)) [
      | inl t0 ↦ elim (Bool-cases (accepts op (e.factor *ℤ pos 1) r)) [
        | inl t1 ↦ (none, rw (t0, t1), tt)
        | inr f1 ↦ (some (e.variable_index, false), rw (t0, f1), (free, value_of_test true f1))
      ]
      | inr f0 ↦
          let is_true = value_of_test false f0 in
          let t1 : accepts op (e.factor *ℤ pos 1) r ≡ true = rw is_true at h in
          (some (e.variable_index, true), rw (f0, t1), (free, is_true))
    ]
  where
    value_of_test :
        (b : Bool) → accepts op (e.factor *ℤ bit b) r ≡ false → x e.variable_index ≡ not b
    value_of_test true f = elim (Bool-cases (x e.variable_index)) [
      | inl t ↦ let h' : accepts op (e.factor *ℤ pos 1) r ≡ true = rw t at h in cc
      | inr t ↦ t
    ]
    value_of_test false f = elim (Bool-cases (x e.variable_index)) [
      | inl t ↦ t
      | inr t ↦ let h' : accepts op (e.factor *ℤ pos 0) r ≡ true = rw t at h in cc
    ]

-- At an assignment where the constraint holds, `reduce_*_constraint` ends well, and the value that
-- it gives is the assignment's, for a variable that had none.
pub reduce_constraint-Forced :
    (op : OperatorType) (vs : VariableValues) (x : ℕ → Bool) (c : Constraint)
    → Agrees vs x
    → unassigned vs c.elements ≤ 1
    → HoldsAt op x c
    → (v : Option (ℕ × Bool)) × (reduce_constraint op vs c ≡ ok v) × Forced vs x v
unfolding reduce_constraint
reduce_constraint-Forced op vs x c agrees few holds =
    let (r, red) = reduce_from-Reduced vs x c.elements c.value none agrees tt (omega arith) in
    let same = accepts-balance op c.value r.0 (dot c.elements (bits x)) (part x r.1) red.balance in
    let met = sym same ∙ (rw compute_function-dot at holds) in
    let (v, ends, forced) = affect_last-Forced vs x op r.0 r.1 red.free met in
    (v, rw red.runs ends, forced)

-- A value that `reduce_*_constraint` gives is for a variable without one.
abbrev pub IsNew : VariableValues → Option (ℕ × Bool) → Type 0
IsNew vs none = Unit {0}
IsNew vs (some (i, v)) = find_value vs i ≡ none

affect_last-IsNew :
    (vs : VariableValues) (op : OperatorType) (r : ℤ) (o : Option FunctionElement)
    → IsFree vs o
    → ((v : Option (ℕ × Bool)) × (affect_last op r o ≡ ok v) × IsNew vs v)
      ⊎ (affect_last op r o ≡ err reached)
unfolding affect_last
affect_last-IsNew vs op r none free = inl (none, refl, tt)
affect_last-IsNew vs op r (some e) free = elim (Bool-cases (accepts op (e.factor *ℤ pos 0) r)) [
  | inl t0 ↦ elim (Bool-cases (accepts op (e.factor *ℤ pos 1) r)) [
    | inl t1 ↦ inl (none, rw (t0, t1), tt)
    | inr f1 ↦ inl (some (e.variable_index, false), rw (t0, f1), free)
  ]
  | inr f0 ↦ elim (Bool-cases (accepts op (e.factor *ℤ pos 1) r)) [
    | inl t1 ↦ inl (some (e.variable_index, true), rw (f0, t1), free)
    | inr f1 ↦ inr (rw (f0, f1))
  ]
]

-- Some assignment agrees with any values.
extend : VariableValues → ℕ → Bool
extend vs i = elim (find_value vs i) [ none ↦ false | some v ↦ v ]

extend-Agrees : (vs : VariableValues) → Agrees vs (extend vs)
unfolding extend
extend-Agrees vs i v h = rw (h, extend)

-- With at most one element without a value `reduce_*_constraint` gets by its assertion: it ends
-- well or at `bx_reach`.
pub reduce_constraint-IsNew :
    (op : OperatorType) (vs : VariableValues) (c : Constraint)
    → unassigned vs c.elements ≤ 1
    → ((v : Option (ℕ × Bool)) × (reduce_constraint op vs c ≡ ok v) × IsNew vs v)
      ⊎ (reduce_constraint op vs c ≡ err reached)
unfolding reduce_constraint
reduce_constraint-IsNew op vs c few =
    let (r, red) =
      reduce_from-Reduced vs (extend vs) c.elements c.value none (extend-Agrees vs) tt
        (omega arith) in
    rw red.runs (affect_last-IsNew vs op r.0 r.1 red.free)
