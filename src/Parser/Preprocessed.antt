-- ===== src/Parser/Preprocessed.antt =====
-- A text that is read (`make_problem` of lib/src/parser.cpp) and preprocessed
-- (lib/src/preprocessor.cpp).
use Prim.Native.String.{String}
use baryonyx.Base.{ℕ, ◌≡◌, subst, sym, Bool, List, none, All, All-map}
use baryonyx.Base.Result.{ok}
use baryonyx.Double.{Double}
use baryonyx.Problem.{Constraint, RawProblem, OperatorType, problem_of_raw}
use baryonyx.Preprocess.Begin.{InBounds}
use baryonyx.Preprocess.Sound.{MeetsAll}
use baryonyx.Preprocess.Copy.{preprocess}
use baryonyx.Preprocess.Copy.Live.{InRange, AllBelow}
use baryonyx.Preprocess.Copy.Feasible.{HasSolution, preprocess-HasSolution}
use baryonyx.Parser.{Scanner}
use baryonyx.Parser.Invariant.{WellFormedProblem, GoodConstraint}
use baryonyx.Parser.Grammar.{make_problem}
use baryonyx.Parser.Sections.{make_problem-WellFormedProblem}

below_values :
    (n m : ℕ) (cs : List Constraint)
    → m ≡ n
    → All (GoodConstraint n) cs
    → All (λ (c : Constraint). AllBelow m c.elements) cs
below_values n m cs same h =
    All-map _ _ (λ c g. subst (λ k. AllBelow k c.elements) (sym same) g.0) cs h

module _ {D : Type 0} where
  WellFormedProblem-InRange :
      (pb : RawProblem D) → WellFormedProblem pb → InRange (problem_of_raw pb)
  unfolding problem_of_raw
  WellFormedProblem-InRange pb w OperatorType.equal =
      below_values _ _ pb.equal_constraints w.valued w.ranged.equals
  WellFormedProblem-InRange pb w OperatorType.greater =
      below_values _ _ pb.greater_constraints w.valued w.ranged.greaters
  WellFormedProblem-InRange pb w OperatorType.less =
      below_values _ _ pb.less_constraints w.valued w.ranged.lesses

module _ {fl : Double} (sc : Scanner fl) (scan_empty : sc.scan "" ≡ none) where
  open fl use {D}

  -- If a text is read as a problem, and the problem has a solution within the bounds of its variables,
  -- the preprocessor makes a problem with a solution; or it ends in the loop that reads `*end`.
  -- `sscanf` reads no number from the empty text.
  pub preprocess-make_problem :
      (is : String) (pb : RawProblem D) (x : ℕ → Bool)
      → make_problem sc is ≡ ok pb
      → MeetsAll (problem_of_raw pb) x
      → InBounds x 0 (problem_of_raw pb).vars.values
      → HasSolution (preprocess fl (problem_of_raw pb))
  preprocess-make_problem is pb x e meets within =
      preprocess-HasSolution fl (problem_of_raw pb) x
        (WellFormedProblem-InRange pb (make_problem-WellFormedProblem sc scan_empty is pb e)) meets
        within
