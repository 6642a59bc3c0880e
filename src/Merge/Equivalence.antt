-- ===== src/Merge/Equivalence.antt =====
-- `make_merged_constraints` of lib/src/merged-constraint.cpp against the constraints of the problem,
-- for every order that its parameter asks for.
use baryonyx.Base.{ℕ, ◌≡◌, List, [], ◌∷◌, All}
use baryonyx.Base.Int.{ℤ, ◌≤ℤ◌, FitsInt}
use baryonyx.Base.Result.{Result, each, loop, ◌>>=◌}
use baryonyx.Problem.{
  Constraint, Problem, compute_function, ProblemDefinitionFailure, OperatorType, equal, less,
  greater,
}
use baryonyx.Merge.{Filled, fill_equal, fill_less, fill_greater, fill_merged_constraints}
use baryonyx.Merge.Sound.{
  IsCached, Step, Outcome, merged, inconsistent, fill_less-Step, fill_greater-Step,
  fill_equal-Outcome,
}

abbrev pub SumFits : (ℕ → ℤ) → Constraint → Type 0
SumFits x c = FitsInt (compute_function c.elements x)

module _ {D : Type 0} (x : ℕ → ℤ) (pb : Problem D) where
  -- The problem's constraints of one kind, at an assignment.
  abbrev pub Meets : OperatorType → Type 0
  Meets equal = All (λ c. compute_function c.elements x ≡ c.value) pb.equal_constraints
  Meets less = All (λ c. compute_function c.elements x ≤ℤ c.value) pb.less_constraints
  Meets greater = All (λ c. c.value ≤ℤ compute_function c.elements x) pb.greater_constraints

  abbrev pub MeetsAll : Type 0
  MeetsAll = Meets equal × Meets less × Meets greater

  abbrev pub SumsFit : Type 0
  SumsFit = All (SumFits x) pb.less_constraints × All (SumFits x) pb.greater_constraints

module _ (x : ℕ → ℤ) where
  Step-none : (s : Filled) → IsCached s → Step x s (Unit {0}) s
  Step-none s c = record { cached = c; same = (λ h. (h, tt), λ h. h.0) }

  Step-then :
      {s t u : Filled} {says more : Type 0}
      → Step x s says t
      → Step x t more u
      → Step x s (says × more) u
  Step-then a b = record {
    cached = b.cached;
    same = (
      λ h. let q = b.same.0 h in let p = a.same.0 q.0 in (p.0, (p.1, q.1)),
      λ h. b.same.1 (a.same.1 (h.0, h.1.0), h.1.1),
    );
  }

  Outcome-after :
      {s t : Filled} {says more : Type 0} (r : Result ProblemDefinitionFailure Filled)
      → Step x s says t
      → Outcome x t more r
      → Outcome x s (says × more) r
  Outcome-after r a (merged b) = merged (Step-then a b)
  Outcome-after r a (inconsistent f e never) =
      inconsistent f e (λ h. never (a.same.1 (h.0, h.1.0), h.1.1))

  Outcome-bind :
      {s : Filled} {says more : Type 0} (r : Result ProblemDefinitionFailure Filled)
      (f : Filled → Result ProblemDefinitionFailure Filled)
      → ((t : Filled) → IsCached t → Outcome x t more (f t))
      → Outcome x s says r
      → Outcome x s (says × more) (r >>= f)
  Outcome-bind r f next (merged {s' = t} a) = Outcome-after (f t) a (next t a.cached)
  Outcome-bind r f next (inconsistent e tag never) = inconsistent e tag (λ h. never (h.0, h.1.0))

  less-Step :
      (cs : List Constraint) (s : Filled)
      → IsCached s
      → All (SumFits x) cs
      → Step x s (All (λ c. compute_function c.elements x ≤ℤ c.value) cs) (loop fill_less s cs)
  less-Step [] s c h = Step-none s c
  less-Step (e ∷ cs) s c h =
      let first = fill_less-Step x s e c h.0.0 in
      Step-then first (less-Step cs (fill_less s e) first.cached h.1)

  greater-Step :
      (cs : List Constraint) (s : Filled)
      → IsCached s
      → All (SumFits x) cs
      → Step x s (All (λ c. c.value ≤ℤ compute_function c.elements x) cs) (loop fill_greater s cs)
  greater-Step [] s c h = Step-none s c
  greater-Step (e ∷ cs) s c h =
      let first = fill_greater-Step x s e c h.0.1 in
      Step-then first (greater-Step cs (fill_greater s e) first.cached h.1)

  equal-Outcome :
      (cs : List Constraint) (s : Filled)
      → IsCached s
      → Outcome x s (All (λ c. compute_function c.elements x ≡ c.value) cs) (each fill_equal s cs)
  equal-Outcome [] s c = merged (Step-none s c)
  equal-Outcome (e ∷ cs) s c =
      Outcome-bind (fill_equal s e) (λ t. each fill_equal t cs) (equal-Outcome cs)
        (fill_equal-Outcome x s e c)

  module _ {D : Type 0} (pb : Problem D) (fits : SumsFit x pb) where
    fill-Outcome :
        (op : OperatorType) (s : Filled)
        → IsCached s
        → Outcome x s (Meets x pb op) (fill_merged_constraints pb s op)
    unfolding fill_merged_constraints
    fill-Outcome equal s c = equal-Outcome pb.equal_constraints s c
    fill-Outcome less s c = merged (less-Step pb.less_constraints s c fits.0)
    fill-Outcome greater s c = merged (greater-Step pb.greater_constraints s c fits.1)

    pub fills-Outcome :
        (ops : List OperatorType) (s : Filled)
        → IsCached s
        → Outcome x s (All (Meets x pb) ops) (each (fill_merged_constraints pb) s ops)
    fills-Outcome [] s c = merged (Step-none s c)
    fills-Outcome (op ∷ ops) s c =
        Outcome-bind (fill_merged_constraints pb s op)
          (λ t. each (fill_merged_constraints pb) t ops) (fills-Outcome ops) (fill-Outcome op s c)
