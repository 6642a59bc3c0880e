-- ===== src/Preprocess/Copy/Live.antt =====
-- The constraints that are left in a run of the preprocessor (lib/src/preprocessor.cpp) at the
-- assignment that a solution is carried to.
use baryonyx.Base.{
  ℕ, suc, ◌+◌, ◌<◌, ◌≤◌, ◌≡◌, refl, sym, ap, ◌∙◌, subst, Bool, true, false, List, [], ◌∷◌, some,
  inl, inr, arith, get_elem?, get_or, length, All, All-get_elem?, Option-cases,
}
use baryonyx.Problem.{FunctionElement, Constraint, Problem, OperatorType}
use baryonyx.Problem.Sums.{compute_function-dot, dot-congr}
use baryonyx.Preprocess.{Progress, find_value, counters, constraints, accepts, bit}
use baryonyx.Preprocess.Reduce.{Agrees, HoldsAt, bits}
use baryonyx.Preprocess.Visits.{occurs}
use baryonyx.Preprocess.Cache.{at}
use baryonyx.Preprocess.Start.{make_cache}
use baryonyx.Preprocess.Cover.{make_cache_has}
use baryonyx.Preprocess.Sound.{MeetsAll}
use baryonyx.Preprocess.Mapping.{Mapped, mapping_from, is_unused}
use baryonyx.Preprocess.Unused.{Removed, is_unused-zero}
use baryonyx.Preprocess.Copy.Assign.{chosen, mapping_from-kept, mapping_from-fixed}
use baryonyx.Preprocess.Copy.Constraints.{restore, restore-kept, restore-fixed, LiveHold}

LiveHold-of_each :
    (op : OperatorType) (x : ℕ → Bool) (sizes : List ℕ) (cs : List Constraint)
    → ((i : ℕ) (c : Constraint) → get_elem? cs i ≡ some c → 1 < get_or sizes i 0 → HoldsAt op x c)
    → LiveHold op x sizes cs
LiveHold-of_each op x sizes [] h = tt
LiveHold-of_each op x [] (c ∷ cs) h = tt
LiveHold-of_each op x (n ∷ sizes) (c ∷ cs) h =
    (h 0 c refl, LiveHold-of_each op x sizes cs (λ i. h (suc i)))

-- Every variable of the elements is one of `n`.
abbrev pub AllBelow : ℕ → List FunctionElement → Type 0
AllBelow n = All (λ e. e.variable_index < n)

same_on_elements :
    (n : ℕ) (x r : ℕ → Bool) (es : List FunctionElement)
    → ((v : ℕ) → v < n → 1 ≤ occurs v es → r v ≡ x v)
    → AllBelow n es
    → All (λ e. bits r e.variable_index ≡ bits x e.variable_index) es
unfolding occurs
same_on_elements n x r [] h below = tt
same_on_elements n x r (e ∷ es) h below = (
  ap bit (h e.variable_index below.0 (ground arith)),
  same_on_elements n x r es (λ v k o. h v k (ground arith)) below.1,
)

HoldsAt-same :
    (op : OperatorType) (x r : ℕ → Bool) (c : Constraint)
    → All (λ e. bits r e.variable_index ≡ bits x e.variable_index) c.elements
    → HoldsAt op x c
    → HoldsAt op r c
HoldsAt-same op x r c same h =
    subst (λ s. accepts op s c.value ≡ true)
      (compute_function-dot c.elements (bits x)
        ∙ sym (dot-congr c.elements (bits r) (bits x) same)
        ∙ sym (compute_function-dot c.elements (bits r)))
      h

-- The mapping of `make_problem`, and the assignment of the copy's variables that a solution gives.
abbrev pub mapping_of : {D : Type 0} → Problem D → Progress → List Mapped
mapping_of pb t = mapping_from t.vars 0 0 (length pb.vars.values)

abbrev pub carried : {D : Type 0} → Problem D → (ℕ → Bool) → Progress → ℕ → Bool
carried pb x t k = get_or (chosen t.vars x 0 (length pb.vars.values)) k false

module _ {D : Type 0} (pb : Problem D) where
  abbrev n : ℕ
  n = length pb.vars.values

  -- Every constraint names variables of the problem only.
  abbrev pub InRange : Type 0
  InRange =
      (op : OperatorType) → All (λ (c : Constraint). AllBelow n c.elements) (constraints pb op)

  module _ (x : ℕ → Bool) (s t : Progress) (agrees : Agrees s.vars x)
      (removed : Removed s 0 (make_cache pb) t) where
    abbrev mapping : List Mapped
    mapping = mapping_of pb t

    abbrev y : ℕ → Bool
    y = carried pb x t

    -- A variable of a constraint that is left has the value of the solution.
    restore_live :
        (op : OperatorType) (cst : ℕ) (c : Constraint) (v : ℕ)
        → get_elem? (constraints pb op) cst ≡ some c
        → 1 < get_or (counters t op) cst 0
        → v < n
        → 1 ≤ occurs v c.elements
        → restore mapping y v ≡ x v
    restore_live op cst c v has live below stands = elim (Option-cases (find_value t.vars v)) [
      | inl unset ↦
          let (k, p, q) = mapping_from-kept t.vars x 0 0 n v v below (omega arith) unset in
          restore-kept mapping y v (0 + k) p ∙ ap y (omega arith) ∙ q
      | inr (b, is_set) ↦
          let p =
            restore-fixed mapping y v b
              (mapping_from-fixed t.vars 0 0 n v v b below (omega arith) is_set) in
          elim (removed.fresh v b is_set) [
            | inl old ↦ p ∙ sym (agrees v b old)
            | inr u ↦
                let place = u.place in
                let same : u.offset ≡ v = omega arith in
                let free = subst (λ o. is_unused s (at (make_cache pb) o) ≡ true) same u.unused in
                let gone =
                  is_unused-zero s (at (make_cache pb) v) op cst free
                    (make_cache_has pb op cst c v has below stands) in
                let gone' = ap (λ sizes. get_or sizes cst 0) (removed.like.counters op) in
                absurd (omega arith)
          ]
    ]

    pub copy_LiveHold :
        InRange
        → MeetsAll pb x
        → (op : OperatorType) → LiveHold op (restore mapping y) (counters t op) (constraints pb op)
    copy_LiveHold range meets op =
        LiveHold-of_each op (restore mapping y) (counters t op) (constraints pb op) (λ i c has live.
          HoldsAt-same op x (restore mapping y) c
            (same_on_elements n x (restore mapping y) c.elements
              (λ v below stands. restore_live op i c v has live below stands)
              (All-get_elem? _ (constraints pb op) i (range op) has))
            (All-get_elem? _ (constraints pb op) i (meets op) has))
