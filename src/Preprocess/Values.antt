-- ===== src/Preprocess/Values.antt =====
-- The values that a run of the preprocessor (lib/src/preprocessor.cpp) has given, after one more.
use baryonyx.Base.{
  ℕ, ◌+◌, ◌≤◌, ◌≡◌, refl, Bool, ◌∷◌, Option, none, some, arith, Option-cases, ◌⊎◌, inl, inr,
}
use baryonyx.Problem.{OperatorType, equal, greater, less}
use baryonyx.Preprocess.{VariableValues, Progress, find_value, emplace, set_counter, push_value}
use baryonyx.Preprocess.Reduce.{Agrees}
use baryonyx.Preprocess.Invariant.{rounds}

pub vars-set_counter :
    (s : Progress) (op : OperatorType) (cst n : ℕ) → (set_counter s op cst n).vars ≡ s.vars
vars-set_counter s equal cst n = refl
vars-set_counter s greater cst n = refl
vars-set_counter s less cst n = refl

pub lifo-set_counter :
    (s : Progress) (op : OperatorType) (cst n : ℕ) → (set_counter s op cst n).lifo ≡ s.lifo
lifo-set_counter s equal cst n = refl
lifo-set_counter s greater cst n = refl
lifo-set_counter s less cst n = refl

pub vars-push_value : (s : Progress) (v : Option (ℕ × Bool)) → (push_value s v).vars ≡ s.vars
unfolding push_value
vars-push_value s none = refl
vars-push_value s (some v) = refl

pub rounds-push_value :
    (s : Progress) (v : Option (ℕ × Bool)) → rounds (push_value s v) ≤ rounds s + 1
unfolding push_value emplace rounds
rounds-push_value s none = omega arith
rounds-push_value s (some (i, b)) = elim (Option-cases (find_value s.lifo i)) [
  | inl e ↦ rw (e, emplace) (omega arith)
  | inr (w, e) ↦ rw (e, emplace) (omega arith)
]

-- A variable put on the stack has a value on it, or its place is the top.
pub find_value-cons :
    (vs : VariableValues) (i : ℕ) (b : Bool) (j : ℕ) (w : Bool)
    → find_value ((i, b) ∷ vs) j ≡ some w
    → ((i ≡ j) × (b ≡ w)) ⊎ (find_value vs j ≡ some w)
unfolding find_value
find_value-cons vs i b j w h = ground arith

pub Agrees-cons :
    (vs : VariableValues) (x : ℕ → Bool) (i : ℕ) (b : Bool)
    → x i ≡ b
    → Agrees vs x
    → Agrees ((i, b) ∷ vs) x
Agrees-cons vs x i b h a j w e = elim (find_value-cons vs i b j w e) [
  | inl (p, q) ↦ rw (← p, ← q) h
  | inr k ↦ a j w k
]

pub Agrees-emplace :
    (vs : VariableValues) (x : ℕ → Bool) (i : ℕ) (b : Bool)
    → x i ≡ b
    → Agrees vs x
    → Agrees (emplace vs i b) x
unfolding emplace
Agrees-emplace vs x i b h a = elim (Option-cases (find_value vs i)) [
  | inl e ↦ rw (e, emplace) (Agrees-cons vs x i b h a)
  | inr (w, e) ↦ rw (e, emplace) a
]
