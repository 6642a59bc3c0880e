-- ===== src/Preprocess/Unused.antt =====
-- What `try_remove_unused_variable` (lib/src/preprocessor.cpp) changes, and what it leaves.
use baryonyx.Base.{
  ℕ, suc, ◌+◌, ◌≤◌, ◌≡◌, refl, Bool, true, false, List, [], ◌∷◌, some, ◌==◌, ◌&&◌, arith, ◌⊎◌, inl,
  inr, subst, get_or, Bool-cases, Option-cases, count,
}
use baryonyx.Double.{Double}
use baryonyx.Problem.{Problem, OperatorType, equal, greater, less}
use baryonyx.Preprocess.{VariableAccess, Progress, find_value, counters, accesses}
use baryonyx.Preprocess.Cache.{at}
use baryonyx.Preprocess.Mapping.{is_unused, all_dropped}
use baryonyx.Preprocess.Objective.{try_remove_unused_variable, unused_value}

-- Variable `j` is unused, where the cache is that of the variables from `i` on.
pub record IsUnused (s : Progress) (i : ℕ) (cache : List VariableAccess) (j : ℕ) : Type 0 where
  pub offset : ℕ
  pub place : j ≡ i + offset
  pub unused : is_unused s (at cache offset) ≡ true

-- The counters and the stack of a state are those of another.
pub record Like (s t : Progress) : Type 0 where
  pub lifo : t.lifo ≡ s.lifo
  pub counters : (op : OperatorType) → counters t op ≡ counters s op

pub record Removed (s : Progress) (i : ℕ) (cache : List VariableAccess) (t : Progress)
    : Type 0 where
  pub like : Like s t
  pub fresh :
      (j : ℕ) (v : Bool)
      → find_value t.vars j ≡ some v
      → (find_value s.vars j ≡ some v) ⊎ IsUnused s i cache j

module _ (fl : Double) (pb : Problem fl.D) where
  Removed-later :
      (s : Progress) (i : ℕ) (a : VariableAccess) (cache : List VariableAccess) (t : Progress)
      → Removed s (suc i) cache t
      → Removed s i (a ∷ cache) t
  Removed-later s i a cache t r = record {
    like = r.like;
    fresh = λ j v h. elim (r.fresh j v h) [
      | inl k ↦ inl k
      | inr u ↦
          let p = u.place in
          inr (record { offset = suc u.offset; place = omega arith; unused = u.unused })
    ];
  }

  -- One more variable is given a value, as it is unused.
  Removed-first :
      (s : Progress) (i : ℕ) (b : Bool) (a : VariableAccess) (cache : List VariableAccess)
      (t : Progress)
      → is_unused s a ≡ true
      → Removed (record s { vars = (i, b) ∷ s.vars }) (suc i) cache t
      → Removed s i (a ∷ cache) t
  unfolding is_unused find_value
  Removed-first s i b a cache t first r = record {
    like = record { lifo = r.like.lifo; counters = each_kind };
    fresh = λ j v h. elim (r.fresh j v h) [
      | inl k ↦ elim (Bool-cases (i == j)) [
        | inl e ↦ inr (record { offset = 0; place = ground arith; unused = first })
        | inr n ↦ inl (rw n at k)
      ]
      | inr u ↦
          let p = u.place in
          inr (record { offset = suc u.offset; place = omega arith; unused = u.unused })
    ];
  }
    where
      each_kind : (op : OperatorType) → counters t op ≡ counters s op
      each_kind equal = r.like.counters equal
      each_kind greater = r.like.counters greater
      each_kind less = r.like.counters less

  pub try_remove_unused_variable-Removed :
      (i : ℕ) (cache : List VariableAccess) (s : Progress)
      → Removed s i cache (try_remove_unused_variable fl pb i cache s)
  unfolding try_remove_unused_variable
  try_remove_unused_variable-Removed i [] s = record {
    like = record { lifo = refl; counters = λ op. refl };
    fresh = λ j v h. inl h;
  }
  try_remove_unused_variable-Removed i (a ∷ cache) s = elim (Option-cases (find_value s.vars i)) [
    | inl unset ↦ elim (Bool-cases (is_unused s a)) [
      | inl u ↦
          let b = unused_value fl pb.type pb.objective.elements i in
          rw (unset, try_remove_unused_variable, u)
            (Removed-first s i b a cache _ u (
              try_remove_unused_variable-Removed (suc i) cache
                (record s { vars = (i, b) ∷ s.vars })))
      | inr u ↦
          rw (unset, try_remove_unused_variable, u)
            (Removed-later s i a cache _ (try_remove_unused_variable-Removed (suc i) cache s))
    ]
    | inr (v, is_set) ↦
        rw (is_set, try_remove_unused_variable)
          (Removed-later s i a cache _ (try_remove_unused_variable-Removed (suc i) cache s))
  ]

all_dropped-zero :
    (sizes csts : List ℕ) (cst : ℕ)
    → all_dropped sizes csts ≡ true
    → 1 ≤ count cst csts
    → get_or sizes cst 0 ≡ 0
unfolding all_dropped
all_dropped-zero sizes [] cst h k = absurd (omega arith)
all_dropped-zero sizes (c ∷ csts) cst h k = elim (Bool-cases (get_or sizes c 0 == 0)) [
  | inl z ↦
      let rest : all_dropped sizes csts ≡ true = rw z at h in
      elim (Bool-cases (c == cst)) [
        | inl e ↦
            let same : c ≡ cst = ground arith in
            subst (λ n. get_or sizes n 0 ≡ 0) same (ground arith)
        | inr n ↦ all_dropped-zero sizes csts cst rest (ground arith)
      ]
  | inr f ↦ let h' : false ≡ true = rw f at h in cc
]

both_true : (a b : Bool) → a && b ≡ true → (a ≡ true) × (b ≡ true)
both_true true true h = (refl, refl)
both_true true false h = cc
both_true false b h = cc

-- An unused variable stands in no constraint that is left.
pub is_unused-zero :
    (s : Progress) (a : VariableAccess) (op : OperatorType) (cst : ℕ)
    → is_unused s a ≡ true
    → 1 ≤ count cst (accesses a op)
    → get_or (counters s op) cst 0 ≡ 0
unfolding is_unused
is_unused-zero s a equal cst h k =
    all_dropped-zero s.equal_constraints a.in_equal_constraints cst
      (both_true _ _ (both_true _ _ h).0).0 k
is_unused-zero s a greater cst h k =
    all_dropped-zero s.greater_constraints a.in_greater_constraints cst
      (both_true _ _ (both_true _ _ h).0).1 k
is_unused-zero s a less cst h k =
    all_dropped-zero s.less_constraints a.in_less_constraints cst (both_true _ _ h).1 k
