-- ===== src/Merge/Orders.antt =====
-- `make_merged_constraints` of lib/src/merged-constraint.cpp for every value of its parameter, and
-- the sorts at its end.
use baryonyx.Base.{ℕ, ◌≡◌, List, [], ◌∷◌, All, ◌↔◌, map, subst, Bool, sym, ◌∙◌}
use baryonyx.Base.Int.{ℤ, ◌≤ℤ◌}
use baryonyx.Base.Result.{Result, ok, err, ◌>>=◌}
use baryonyx.Base.Sort.{sort_by, sort_by-permᴰ, permᴰ-sort_by, All-permᴰ}
use baryonyx.Double.{Double}
use baryonyx.Parameters.{
  PreConstraintOrder, memory, less_greater_equal, less_equal_greater, greater_less_equal,
  greater_equal_less, equal_less_greater, equal_greater_less, p1, p2, p3, p4,
}
use baryonyx.Problem.{
  FunctionElement, Problem, compute_function, ProblemDefinitionFailure, multiple_constraint, equal,
  less, greater,
}
use baryonyx.Problem.Sums.{dot-permᴰ, compute_function-dot}
use baryonyx.Merge.{
  MergedConstraint, Filled, nothing_filled, make_unsorted_merged_constraints,
  make_ordered_merged_constraints, operators_of, improve_memory_usage, assign_ids, reorder_special,
  make_special_merged_constraints, make_merged_constraints,
}
use baryonyx.Merge.Sound.{Holds, Outcome, merged, inconsistent}
use baryonyx.Merge.Equivalence.{MeetsAll, Meets, SumsFit, fills-Outcome}

iff_trans : {P Q R : Type 0} → P ↔ Q → Q ↔ R → P ↔ R
iff_trans h k = (λ p. k.0 (h.0 p), λ r. h.1 (k.1 r))

module _ (x : ℕ → ℤ) where
  -- What a merge must return: constraints that hold of an assignment exactly if it says so, or the
  -- error that no assignment can.
  abbrev pub Faithful : Type 0 → Result ProblemDefinitionFailure (List MergedConstraint) → Type 0
  Faithful says (ok csts) = All (Holds x) csts ↔ says
  Faithful says (err f) = (f.failure ≡ multiple_constraint) × ¬ says

  Faithful-bind :
      (says : Type 0) (g : List MergedConstraint → List MergedConstraint)
      → ((csts : List MergedConstraint) → All (Holds x) (g csts) ↔ All (Holds x) csts)
      → (r : Result ProblemDefinitionFailure (List MergedConstraint)) → Faithful says r
      → Faithful says (r >>= λ csts. ok (g csts))
  Faithful-bind says g same (ok csts) h = (λ p. h.0 ((same csts).0 p), λ p. (same csts).1 (h.1 p))
  Faithful-bind says g same (err f) h = h

  Faithful-of-Outcome :
      {says : Type 0} (all : Type 0) (g : List MergedConstraint → List MergedConstraint)
      → ((csts : List MergedConstraint) → All (Holds x) (g csts) ↔ All (Holds x) csts)
      → (says ↔ all)
      → (r : Result ProblemDefinitionFailure Filled) → Outcome x nothing_filled says r
      → Faithful all (r >>= λ filled. ok (g filled.ret))
  Faithful-of-Outcome all g same iff (ok s') (merged s) =
      (λ p. iff.0 (s.same.0 ((same s'.ret).0 p)).1, λ p. (same s'.ret).1 (s.same.1 (tt, iff.1 p)))
  Faithful-of-Outcome all g same iff (err f) (inconsistent _ tag never) =
      (tag, λ p. never (tt, iff.1 p))

  Holds-sort_by :
      (lt : MergedConstraint → MergedConstraint → Bool) (csts : List MergedConstraint)
      → All (Holds x) (sort_by lt csts) ↔ All (Holds x) csts
  Holds-sort_by lt csts =
      (All-permᴰ (Holds x) (sort_by-permᴰ lt csts), All-permᴰ (Holds x) (permᴰ-sort_by lt csts))

  -- A sort of the elements of each constraint.
  Holds-map_sort :
      (lt : FunctionElement → FunctionElement → Bool) (csts : List MergedConstraint)
      → All
          (Holds x)
          (map (λ (c : MergedConstraint). record c { elements = sort_by lt c.elements }) csts)
        ↔ All (Holds x) csts
  Holds-map_sort lt [] = (λ h. h, λ h. h)
  Holds-map_sort lt (c ∷ cs) =
      let ih = Holds-map_sort lt cs in
      (λ h. (subst bounds same h.0, ih.0 h.1), λ h. (subst bounds (sym same) h.0, ih.1 h.1))
    where
      bounds : ℤ → Type 0
      bounds s = (c.min ≤ℤ s) × (s ≤ℤ c.max)

      same : compute_function (sort_by lt c.elements) x ≡ compute_function c.elements x
      same =
          compute_function-dot _ x
          ∙ dot-permᴰ x (sort_by-permᴰ lt c.elements)
          ∙ sym (compute_function-dot _ x)

  Holds-assign_ids :
      (fl : Double) (csts : List MergedConstraint) (rs : List (ℕ × fl.D))
      → All (Holds x) (assign_ids fl csts rs) ↔ All (Holds x) csts
  unfolding assign_ids
  Holds-assign_ids fl [] [] = (λ h. h, λ h. h)
  Holds-assign_ids fl [] (r ∷ rs) = (λ h. h, λ h. h)
  Holds-assign_ids fl (c ∷ cs) [] = (λ h. h, λ h. h)
  Holds-assign_ids fl (c ∷ cs) (r ∷ rs) =
      let ih = Holds-assign_ids fl cs rs in (λ h. (h.0, ih.0 h.1), λ h. (h.0, ih.1 h.1))

  Holds-reorder_special :
      (fl : Double) (order : PreConstraintOrder) (pb : Problem fl.D) (csts : List MergedConstraint)
      → All (Holds x) (reorder_special fl order pb csts) ↔ All (Holds x) csts
  unfolding reorder_special
  Holds-reorder_special fl order pb csts =
      iff_trans (Holds-map_sort _ _) (iff_trans (Holds-sort_by _ _) (Holds-assign_ids fl csts _))

  Holds-improve_memory_usage :
      (csts : List MergedConstraint)
      → All (Holds x) (improve_memory_usage csts) ↔ All (Holds x) csts
  unfolding improve_memory_usage
  Holds-improve_memory_usage csts = Holds-map_sort _ csts

  module _ {D : Type 0} (pb : Problem D) (fits : SumsFit x pb) where
    unsorted-Faithful : Faithful (MeetsAll x pb) (make_unsorted_merged_constraints pb)
    unfolding make_unsorted_merged_constraints
    unsorted-Faithful =
        Faithful-of-Outcome (MeetsAll x pb) _ (Holds-sort_by _)
          (λ h. (h.0, h.1.0, h.1.1.0), λ h. (h.0, (h.1, (h.2, tt)))) _
          (fills-Outcome x pb fits (equal ∷ less ∷ greater ∷ []) nothing_filled tt)

    ordered-Faithful :
        (order : PreConstraintOrder)
        → All (Meets x pb) (operators_of order) ↔ MeetsAll x pb
        → Faithful (MeetsAll x pb) (make_ordered_merged_constraints order pb)
    unfolding make_ordered_merged_constraints
    ordered-Faithful order iff =
        Faithful-of-Outcome (MeetsAll x pb) (λ csts. csts) (λ csts. (λ h. h, λ h. h)) iff _
          (fills-Outcome x pb fits (operators_of order) nothing_filled tt)

module _ (fl : Double) (pb : Problem fl.D) (x : ℕ → ℤ) (fits : SumsFit x pb)
    (order : PreConstraintOrder) where
  memory_order :
      All (Meets x pb) (operators_of order) ↔ MeetsAll x pb
      → Faithful x
          (MeetsAll x pb)
          (make_ordered_merged_constraints order pb >>= λ csts. ok (improve_memory_usage csts))
  memory_order iff =
      Faithful-bind x _ improve_memory_usage (Holds-improve_memory_usage x) _
        (ordered-Faithful x pb fits order iff)

  special_order : Faithful x (MeetsAll x pb) (make_special_merged_constraints fl order pb)
  unfolding make_special_merged_constraints
  special_order =
      Faithful-bind x _ (reorder_special fl order pb) (Holds-reorder_special x fl order pb) _
        (unsorted-Faithful x pb fits)

-- For every order parameter the merged constraints hold of an assignment exactly if it meets every
-- equality, less and greater constraint of the problem; where the merge throws, it throws the error
-- of multiple constraints, and no assignment meets them all. The sums of the inequalities at the
-- assignment fit an `int`.
pub make_merged_constraints-Faithful :
    (fl : Double) (order : PreConstraintOrder) (pb : Problem fl.D) (x : ℕ → ℤ)
    → SumsFit x pb
    → Faithful x (MeetsAll x pb) (make_merged_constraints fl order pb)
unfolding make_merged_constraints make_special_merged_constraints operators_of
make_merged_constraints-Faithful fl PreConstraintOrder.none pb x fits = unsorted-Faithful x pb fits
make_merged_constraints-Faithful fl memory pb x fits =
    Faithful-bind x _ improve_memory_usage (Holds-improve_memory_usage x) _
      (unsorted-Faithful x pb fits)
make_merged_constraints-Faithful fl less_greater_equal pb x fits =
    memory_order fl pb x fits less_greater_equal
      (λ h. (h.1.1.0, h.0, h.1.0), λ h. (h.1, (h.2, (h.0, tt))))
make_merged_constraints-Faithful fl less_equal_greater pb x fits =
    memory_order fl pb x fits less_equal_greater
      (λ h. (h.1.0, h.0, h.1.1.0), λ h. (h.1, (h.0, (h.2, tt))))
make_merged_constraints-Faithful fl greater_less_equal pb x fits =
    memory_order fl pb x fits greater_less_equal
      (λ h. (h.1.1.0, h.1.0, h.0), λ h. (h.2, (h.1, (h.0, tt))))
make_merged_constraints-Faithful fl greater_equal_less pb x fits =
    memory_order fl pb x fits greater_equal_less
      (λ h. (h.1.0, h.1.1.0, h.0), λ h. (h.2, (h.0, (h.1, tt))))
make_merged_constraints-Faithful fl equal_less_greater pb x fits =
    memory_order fl pb x fits equal_less_greater
      (λ h. (h.0, h.1.0, h.1.1.0), λ h. (h.0, (h.1, (h.2, tt))))
make_merged_constraints-Faithful fl equal_greater_less pb x fits =
    memory_order fl pb x fits equal_greater_less
      (λ h. (h.0, h.1.1.0, h.1.0), λ h. (h.0, (h.2, (h.1, tt))))
make_merged_constraints-Faithful fl p1 pb x fits = special_order fl pb x fits p1
make_merged_constraints-Faithful fl p2 pb x fits = special_order fl pb x fits p2
make_merged_constraints-Faithful fl p3 pb x fits = special_order fl pb x fits p3
make_merged_constraints-Faithful fl p4 pb x fits = special_order fl pb x fits p4
