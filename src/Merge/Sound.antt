-- ===== src/Merge/Sound.antt =====
-- One merge step of lib/src/merged-constraint.cpp against the constraint that it takes in.
use mathlib.Core.Option.{some-injective}
use baryonyx.Base.{
  ℕ, zero, suc, ◌≡◌, refl, true, List, [], ◌∷◌, ◌++◌, ◌&&◌, some, get_elem?, modify, All, All-map,
  ◌↔◌, inl, inr, arith, get_elem?-append_left, get_elem?-append_end, All-modify, All-append_one,
  Option-cases, Bool-cases, All-get_elem?, ap, ap₂, sym, ◌∙◌,
}
use baryonyx.Base.Int.{ℤ, leb_ℤ, ◌≤ℤ◌, int_min, int_max, le-min_ℤ, max_ℤ-le, parts, ≤ℤ_antisymm}
use baryonyx.Base.Result.{Result, ok, err}
use baryonyx.Problem.{
  FunctionElement, Constraint, elements_eq, element_eq, compute_function, ProblemDefinitionFailure,
  multiple_constraint,
}
use baryonyx.Merge.{
  MergedConstraint, Cache, Filled, find, emplace, merge_equal, fill_equal, fill_less, fill_greater,
  set_bounds, lower_max, raise_min,
}

element_eq_sound : (e f : FunctionElement) → element_eq e f ≡ true → e ≡ f
unfolding element_eq
element_eq_sound e f h = ground arith

pub elements_eq_sound : (es fs : List FunctionElement) → elements_eq es fs ≡ true → es ≡ fs
unfolding elements_eq
elements_eq_sound [] [] h = refl
elements_eq_sound [] (f ∷ fs) h = cc
elements_eq_sound (e ∷ es) [] h = cc
elements_eq_sound (e ∷ es) (f ∷ fs) h = elim (Bool-cases (element_eq e f)) [
  | inl t ↦ ap₂ ◌∷◌ (element_eq_sound e f t) (elements_eq_sound es fs (ground (arith)))
  | inr t ↦ ground (arith)
]

-- Position `i` holds a constraint on the function `els`.
abbrev pub Entry : List MergedConstraint → List FunctionElement → ℕ → Type 0
Entry ret els i = (m : MergedConstraint) × (get_elem? ret i ≡ some m) × (m.elements ≡ els)

-- The cache points to constraints on the functions that it names.
abbrev pub IsCached : Filled → Type 0
IsCached s = All (λ p. Entry s.ret p.0 p.1) s.cache

find-Entry :
    (ret : List MergedConstraint) (els : List FunctionElement) (cache : Cache) {i : ℕ}
    → All (λ p. Entry ret p.0 p.1) cache
    → find els cache ≡ some i
    → Entry ret els i
unfolding find
find-Entry ret els [] a h = cc
find-Entry ret els ((key, j) ∷ cache) {i} a h = elim (Bool-cases (elements_eq key els)) [
  | inl t ↦
      let (m, at, same) = a.0 in
      (m, ap (get_elem? ret) (ground arith) ∙ at, same ∙ elements_eq_sound key els t)
  | inr t ↦ find-Entry ret els cache a.1 (ground arith)
]

Entry-append :
    (ret : List MergedConstraint) (n : MergedConstraint) (els : List FunctionElement) (i : ℕ)
    → Entry ret els i
    → Entry (ret ++ n ∷ []) els i
Entry-append ret n els i (m, at, same) = (m, get_elem?-append_left ret (n ∷ []) i at, same)

Entry-modify :
    (ret : List MergedConstraint) (f : MergedConstraint → MergedConstraint) (j : ℕ)
    → ((m : MergedConstraint) → (f m).elements ≡ m.elements)
    → (els : List FunctionElement) (i : ℕ) → Entry ret els i
    → Entry (modify ret j f) els i
Entry-modify [] f j keep els i (m, at, same) = cc
Entry-modify (x ∷ xs) f zero keep els zero (m, at, same) =
    (f x, refl, keep x ∙ ap (λ (t : MergedConstraint). t.elements) (some-injective _ _ at) ∙ same)
Entry-modify (x ∷ xs) f zero keep els (suc i) (m, at, same) = (m, at, same)
Entry-modify (x ∷ xs) f (suc j) keep els zero (m, at, same) = (m, at, same)
Entry-modify (x ∷ xs) f (suc j) keep els (suc i) h = Entry-modify xs f j keep els i h

emplace-IsCached :
    (s : Filled) (els : List FunctionElement) (lo hi id : ℤ)
    → IsCached s
    → IsCached (emplace s els lo hi id)
unfolding emplace
emplace-IsCached s els lo hi id c = (
  (_, get_elem?-append_end s.ret _, refl),
  All-map _ _ (λ p. Entry-append s.ret _ p.0 p.1) s.cache c,
)

-- An assignment keeps the bounds of a merged constraint.
abbrev pub Holds : (ℕ → ℤ) → MergedConstraint → Type 0
Holds x m = (m.min ≤ℤ compute_function m.elements x) × (compute_function m.elements x ≤ℤ m.max)

exactly_iff : (S v : ℤ) → ((v ≤ℤ S) × (S ≤ℤ v)) ↔ (S ≡ v)
exactly_iff S v = (λ p. ≤ℤ_antisymm S v p.1 p.0, λ e. let q = parts e in (omega arith, omega arith))

narrow_iff :
    (S v lo hi : ℤ)
    → lo ≤ℤ v
    → v ≤ℤ hi
    → ((v ≤ℤ S) × (S ≤ℤ v)) ↔ (((lo ≤ℤ S) × (S ≤ℤ hi)) × (S ≡ v))
narrow_iff S v lo hi h k =
    (λ p. ((omega arith, omega arith), (exactly_iff S v).0 p), λ p. (exactly_iff S v).1 p.1)

-- After a step the cache is right, and the merged constraints say the new one besides.
pub record Step (x : ℕ → ℤ) (s : Filled) (says : Type 0) (s' : Filled) : Type 0 where
  pub cached : IsCached s'
  pub same : All (Holds x) s'.ret ↔ (All (Holds x) s.ret × says)

-- A step that may fail ends in a right state, or it fails, and then no assignment that keeps the
-- merged constraints meets the new one.
pub data Outcome (x : ℕ → ℤ) (s : Filled) (says : Type 0)
    : Result ProblemDefinitionFailure Filled → Type 0 where
  merged : {s' : Filled} → Step x s says s' → Outcome x s says (ok s')
  inconsistent :
      (f : ProblemDefinitionFailure)
      → f.failure ≡ multiple_constraint
      → ¬ (All (Holds x) s.ret × says)
      → Outcome x s says (err f)

module _ (x : ℕ → ℤ) (s : Filled) (c : Constraint) (cached : IsCached s) where
  abbrev sum : ℤ
  sum = compute_function c.elements x

  Step-new :
      (lo hi : ℤ) (says : Type 0)
      → (((lo ≤ℤ sum) × (sum ≤ℤ hi)) ↔ says)
      → Step x s says (emplace s c.elements lo hi c.id)
  unfolding emplace
  Step-new lo hi says h = record {
    cached = unfold emplace in emplace-IsCached s c.elements lo hi c.id cached;
    same = All-append_one (Holds x) says s.ret _ h;
  }

  Step-old :
      (i : ℕ) (f : MergedConstraint → MergedConstraint) (says : Type 0)
      → Entry s.ret c.elements i
      → ((m : MergedConstraint) → (f m).elements ≡ m.elements)
      → ((m : MergedConstraint)
          → get_elem? s.ret i ≡ some m
          → m.elements ≡ c.elements
          → Holds x (f m) ↔ (Holds x m × says))
      → Step x s says (record s { ret = modify s.ret i f })
  Step-old i f says (m, at, same) keep h = record {
    cached = All-map _ _ (λ p. Entry-modify s.ret f i keep p.0 p.1) s.cache cached;
    same = All-modify (Holds x) says s.ret i f at (h m at same);
  }

  pub fill_less-Step : int_min ≤ℤ sum → Step x s (sum ≤ℤ c.value) (fill_less s c)
  unfolding fill_less
  fill_less-Step low = elim (Option-cases (find c.elements s.cache)) [
    | inl e ↦ rw (e, fill_less) (Step-new int_min c.value _ (λ h. h.1, λ h. (low, h)))
    | inr (i, e) ↦
        rw (e, fill_less)
          (Step-old i (lower_max c.value) _ (find-Entry s.ret c.elements s.cache cached e)
            (λ m. refl)
            λ m at same. rw same (
              let h = le-min_ℤ sum m.max c.value in
              (λ p. let q = h.0 p.1 in ((p.0, q.0), q.1), λ p. (p.0.0, h.1 (p.0.1, p.1)))))
  ]

  pub fill_greater-Step : sum ≤ℤ int_max → Step x s (c.value ≤ℤ sum) (fill_greater s c)
  unfolding fill_greater
  fill_greater-Step high = elim (Option-cases (find c.elements s.cache)) [
    | inl e ↦ rw (e, fill_greater) (Step-new c.value int_max _ (λ h. h.0, λ h. (h, high)))
    | inr (i, e) ↦
        rw (e, fill_greater)
          (Step-old i (raise_min c.value) _ (find-Entry s.ret c.elements s.cache cached e)
            (λ m. refl)
            λ m at same. rw same (
              let h = max_ℤ-le sum m.min c.value in
              (λ p. let q = h.0 p.0 in ((q.0, p.1), q.1), λ p. (h.1 (p.0.0, p.1), p.0.1))))
  ]

  merge_equal-Outcome :
      (i : ℕ) (m : MergedConstraint)
      → get_elem? s.ret i ≡ some m
      → m.elements ≡ c.elements
      → Outcome x s (sum ≡ c.value) (merge_equal s c i (some m))
  unfolding merge_equal
  merge_equal-Outcome i m at same = elim (Bool-cases (leb_ℤ m.min c.value && leb_ℤ c.value m.max)) [
    | inl t ↦ rw t (
        merged (
          Step-old i (set_bounds c.value c.value) _ (m, at, same) (λ m'. refl)
            λ m' at' same'.
              let q = some-injective _ _ (sym at ∙ at') in
              let lo = parts (ap (λ (n : MergedConstraint). n.min) q) in
              let hi = parts (ap (λ (n : MergedConstraint). n.max) q) in
              rw same' (narrow_iff sum c.value m'.min m'.max (ground arith) (ground arith))))
    | inr t ↦ rw t (
        inconsistent _ refl λ p.
          let h : Holds x m = All-get_elem? (Holds x) s.ret i p.0 at in
          let h' : (m.min ≤ℤ sum) × (sum ≤ℤ m.max) = rw same at h in
          let q = parts p.1 in ground arith)
  ]

  pub fill_equal-Outcome : Outcome x s (sum ≡ c.value) (fill_equal s c)
  unfolding fill_equal
  fill_equal-Outcome = elim (Option-cases (find c.elements s.cache)) [
    | inl e ↦ rw (e, fill_equal) (merged (Step-new c.value c.value _ (exactly_iff sum c.value)))
    | inr (i, e) ↦
        let (m, at, same) = find-Entry s.ret c.elements s.cache cached e in
        rw (e, fill_equal, at) (merge_equal-Outcome i m at same)
  ]
