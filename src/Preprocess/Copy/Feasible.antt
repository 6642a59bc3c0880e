-- ===== src/Preprocess/Copy/Feasible.antt =====
-- The runs of the preprocessor as a whole (`preprocess` and `affect` of lib/src/preprocessor.cpp) and
-- the solutions of the problem that is left.
use baryonyx.Base.{
  ℕ, suc, ◌<◌, ◌≡◌, refl, ◌∙◌, subst, Bool, true, List, [], ◌∷◌, inl, inr, arith, length, All,
  Option-cases, Bool-cases, ltb,
}
use baryonyx.Base.Result.{Result, ok, err, ◌>>=◌}
use baryonyx.Double.{Double}
use baryonyx.Problem.{
  Problem, OperatorType, equal, greater, less, ObjectiveFunction, ObjectiveFunctionElement,
}
use baryonyx.Preprocess.{
  Fault, end_dereferenced, VariableAccess, Progress, find_value, counters, constraints, affects,
}
use baryonyx.Preprocess.Reduce.{Agrees, HoldsAt}
use baryonyx.Preprocess.Start.{make_cache}
use baryonyx.Preprocess.Begin.{InBounds}
use baryonyx.Preprocess.Sound.{MeetsAll, propagate_sound, propagate_value_sound}
use baryonyx.Preprocess.Mapping.{Mapped, is_unused}
use baryonyx.Preprocess.Objective.{
  MergeObjective, raise_factor, copy_merged, objective_function_exclude_copy,
  make_lp_from_bqp_objective, try_remove_unused_variable,
}
use baryonyx.Preprocess.Unused.{Removed, try_remove_unused_variable-Removed}
use baryonyx.Preprocess.Copy.{
  constraints_exclude_copy, copied_problem, make_problem, finish_run, preprocess, affect,
}
use baryonyx.Preprocess.Copy.Live.{InRange, mapping_of, carried, copy_LiveHold}
use baryonyx.Preprocess.Copy.Constraints.{constraints_exclude_copy-LiveHold}

-- The only error of a result is that of the loop that reads `*end`.
abbrev EndOnly {ℓ} : {A : Type ℓ} → Result Fault A → Type 0
EndOnly (ok a) = Unit
EndOnly (err f) = f ≡ end_dereferenced

-- A problem with a solution, or that error.
abbrev pub HasSolution : {D : Type 0} → Result Fault (Problem D) → Type 0
HasSolution (ok q) = (y : ℕ → Bool) × MeetsAll q y
HasSolution (err f) = f ≡ end_dereferenced

MeetsAll-of_kinds :
    {D : Type 0} (y : ℕ → Bool) (q : Problem D)
    → All (HoldsAt equal y) q.equal_constraints
    → All (HoldsAt greater y) q.greater_constraints
    → All (HoldsAt less y) q.less_constraints
    → MeetsAll q y
MeetsAll-of_kinds y q e g l equal = e
MeetsAll-of_kinds y q e g l greater = g
MeetsAll-of_kinds y q e g l less = l

HasSolution-bind :
    {A D : Type 0} (r : Result Fault A) (f : A → Problem D)
    → EndOnly r
    → ((a : A) → (y : ℕ → Bool) × MeetsAll (f a) y)
    → HasSolution (r >>= λ a. ok (f a))
HasSolution-bind (ok a) f e h = h a
HasSolution-bind (err x) f e h = e

module _ (fl : Double) (pb : Problem fl.D) where
  open fl use {D}

  copy_merged-EndOnly :
      (i : ℕ) (ms : List (ObjectiveFunctionElement D)) (ret : ObjectiveFunction D)
      → EndOnly (copy_merged fl i ms ret)
  unfolding copy_merged
  copy_merged-EndOnly i [] ret = tt
  copy_merged-EndOnly i (m ∷ ms) ret =
      elim (Option-cases (raise_factor fl i m.factor ret.elements)) [
        | inl e ↦ rw (e, copy_merged) refl
        | inr (es, e) ↦
            rw (e, copy_merged) (copy_merged-EndOnly (suc i) ms (record ret { elements = es }))
      ]

  affects_done :
      (fuel : ℕ) (cache : List VariableAccess) (s : Progress)
      → s.lifo ≡ []
      → affects pb (suc fuel) cache s ≡ ok s
  unfolding affects
  affects_done fuel cache s e = simp (e, affects) refl

  module _ (x : ℕ → Bool) (s t : Progress) (agrees : Agrees s.vars x)
      (removed : Removed s 0 (make_cache pb) t) where
    abbrev mapping : List Mapped
    mapping = mapping_of pb t

    abbrev y : ℕ → Bool
    y = carried pb x t

    make_problem-HasSolution :
        InRange pb → MeetsAll pb x → (m : MergeObjective D) → HasSolution (make_problem fl pb t m)
    unfolding make_problem objective_function_exclude_copy copied_problem
    make_problem-HasSolution range meets m =
        HasSolution-bind _ _ (copy_merged-EndOnly 0 m.elements _) (λ objective. (
          y,
          MeetsAll-of_kinds y (copied_problem fl pb t objective) (copied equal) (copied greater)
              (copied less),
        ))
      where
        copied :
            (op : OperatorType)
            → All
                (HoldsAt op y)
                (constraints_exclude_copy mapping (counters t op) (constraints pb op))
        copied op =
            (constraints_exclude_copy-LiveHold mapping y op (counters t op) (constraints pb op)).1
              (copy_LiveHold pb x s t agrees removed range meets op)

  finish_run-HasSolution :
      (x : ℕ → Bool) (s : Progress)
      → InRange pb
      → MeetsAll pb x
      → Agrees s.vars x
      → s.lifo ≡ []
      → HasSolution (finish_run fl pb s)
  unfolding finish_run
  finish_run-HasSolution x s range meets agrees empty =
      let removed = try_remove_unused_variable-Removed fl pb 0 (make_cache pb) s in
      rw
        (affects_done _ (make_cache pb) (try_remove_unused_variable fl pb 0 (make_cache pb) s)
          (removed.like.lifo ∙ empty))
        (make_problem-HasSolution x s _ agrees removed range meets _)

  HasSolution-run :
      (x : ℕ → Bool) (r : Result Fault Progress)
      → InRange pb
      → MeetsAll pb x
      → (t : Progress) × (r ≡ ok t) × (t.lifo ≡ []) × Agrees t.vars x
      → HasSolution (r >>= λ s. finish_run fl pb s)
  HasSolution-run x r range meets (t, e, empty, agrees) =
      rw e (finish_run-HasSolution x t range meets agrees empty)

  -- Of a problem with a solution within the bounds of the variables, the preprocessor makes a problem
  -- with a solution; or it ends in the loop of the objective function that reads `*end`. Its
  -- constraints name variables of the problem.
  pub preprocess-HasSolution :
      (x : ℕ → Bool)
      → InRange pb
      → MeetsAll pb x
      → InBounds x 0 pb.vars.values
      → HasSolution (preprocess fl pb)
  unfolding preprocess
  preprocess-HasSolution x range meets within =
      HasSolution-run x _ range meets (propagate_sound pb x meets within)

  -- Of a problem with a solution in which a variable has a value, `affect` of the variable to the
  -- value makes a problem with a solution; or it ends in the loop that reads `*end`. The variable is
  -- one of the problem's, and so are those of the constraints.
  pub affect-HasSolution :
      (x : ℕ → Bool) (i : ℕ) (b : Bool)
      → InRange pb
      → MeetsAll pb x
      → i < length pb.vars.values
      → x i ≡ b
      → HasSolution (affect fl pb i b)
  unfolding affect
  affect-HasSolution x i b range meets below same =
      let test : ltb i (length pb.vars.values) ≡ true = ground arith in
      rw test (HasSolution-run x _ range meets (propagate_value_sound pb x i b meets same))

  -- With no quadratic element there is nothing to merge.
  make_lp_from_bqp_objective-linear :
      (s : Progress) (i : ℕ) (cache : List VariableAccess) (m : MergeObjective D)
      → pb.objective.qelements ≡ []
      → make_lp_from_bqp_objective fl pb s i cache m ≡ m
  unfolding make_lp_from_bqp_objective
  make_lp_from_bqp_objective-linear s i [] m none_quadratic = refl
  make_lp_from_bqp_objective-linear s i (a ∷ cache) m none_quadratic =
      let rest = make_lp_from_bqp_objective-linear s (suc i) cache m none_quadratic in
      elim (Option-cases (find_value s.vars i)) [
        | inl unset ↦ elim (Bool-cases (is_unused s a)) [
          | inl u ↦ rw (unset, make_lp_from_bqp_objective, u, none_quadratic) rest
          | inr u ↦ rw (unset, make_lp_from_bqp_objective, u) rest
        ]
        | inr (v, is_set) ↦ rw (is_set, make_lp_from_bqp_objective) rest
      ]

  finish_run-linear :
      (s : Progress)
      → pb.objective.qelements ≡ []
      → s.lifo ≡ []
      → (q : Problem D) × (finish_run fl pb s ≡ ok q)
  unfolding finish_run make_problem objective_function_exclude_copy copy_merged
  finish_run-linear s none_quadratic empty =
      let removed = try_remove_unused_variable-Removed fl pb 0 (make_cache pb) s in
      rw
        (
          affects_done _ (make_cache pb) (try_remove_unused_variable fl pb 0 (make_cache pb) s)
              (removed.like.lifo ∙ empty),
          make_lp_from_bqp_objective-linear s 0 (make_cache pb)
              (record { elements = []; value = fl.zero }) none_quadratic,
        )
        (_, refl)

  -- With no quadratic element in the objective function, the preprocessor returns a problem with a
  -- solution for every problem that has one within the bounds of the variables and whose constraints
  -- name variables of the problem.
  pub preprocess_linear :
      (x : ℕ → Bool)
      → InRange pb
      → MeetsAll pb x
      → InBounds x 0 pb.vars.values
      → pb.objective.qelements ≡ []
      → (q : Problem D) × (preprocess fl pb ≡ ok q) × ((y : ℕ → Bool) × MeetsAll q y)
  unfolding preprocess
  preprocess_linear x range meets within none_quadratic =
      let (t, e, empty, agrees) = propagate_sound pb x meets within in
      let (q, runs) = finish_run-linear t none_quadratic empty in
      let ends : preprocess fl pb ≡ ok q = rw e runs in
      (q, ends, subst HasSolution ends (preprocess-HasSolution x range meets within))
