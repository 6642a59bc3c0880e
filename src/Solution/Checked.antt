-- ===== src/Solution/Checked.antt =====
-- What the check of lib/src/lpcore.cpp accepts, and which values it reads from a result.
use Prim.Native.String.{String}
use text.Mathlib.Text.{◌==◌ as ◌=ₛ◌}
use baryonyx.Base.{
  ◌+◌, ◌<◌, ◌≡◌, refl, sym, ap, ap₂, ◌∙◌, length-map, Bool, true, false, List, [], ◌∷◌, ◌&&◌, ◌==◌,
  not, if◌then◌else◌, Option, none, some, length, map, All, ◌↔◌, inl, inr, arith, Bool-cases,
}
use baryonyx.Base.Int.{◌≤ℤ◌, eqb_ℤ, ltb_ℤ, eqb_ℤ_iff}
use baryonyx.Base.Result.{ok, ok-injective}
use baryonyx.Problem.{Constraint, RawProblem, compute_function}
use baryonyx.Solution.{
  Solution, SolverResult, NameCache, lookup, fill_cache, bools, read_names, value_at, back, success,
  all_equal, all_less, all_greater, is_valid_solution_impl, make_variable_value, is_valid_solution,
}

-- The values meet every constraint.
abbrev pub MeetsRaw : {D : Type 0} → RawProblem D → List Bool → Type 0
MeetsRaw pb values =
    All (λ c. compute_function c.elements (value_at values) ≡ c.value) pb.equal_constraints
    × All (λ c. compute_function c.elements (value_at values) ≤ℤ c.value) pb.less_constraints
    × All (λ c. c.value ≤ℤ compute_function c.elements (value_at values)) pb.greater_constraints

module _ (values : List Bool) where
  all_equal_iff :
      (cs : List Constraint)
      → (all_equal cs values ≡ true)
        ↔ All (λ c. compute_function c.elements (value_at values) ≡ c.value) cs
  unfolding all_equal
  all_equal_iff [] = (λ h. tt, λ h. refl)
  all_equal_iff (c ∷ cs) =
      let s = compute_function c.elements (value_at values) in
      let ih = all_equal_iff cs in
      elim (Bool-cases (eqb_ℤ s c.value)) [
        | inl t ↦ rw t (λ h. ((eqb_ℤ_iff s c.value).0 t, ih.0 h), λ h. ih.1 h.1)
        | inr f ↦ rw f (λ h. absurd (ground arith), λ h. let t = (eqb_ℤ_iff s c.value).1 h.0 in cc)
      ]

  all_less_iff :
      (cs : List Constraint)
      → (all_less cs values ≡ true)
        ↔ All (λ c. compute_function c.elements (value_at values) ≤ℤ c.value) cs
  unfolding all_less
  all_less_iff [] = (λ h. tt, λ h. refl)
  all_less_iff (c ∷ cs) =
      let s = compute_function c.elements (value_at values) in
      let ih = all_less_iff cs in
      elim (Bool-cases (ltb_ℤ c.value s)) [
        | inl t ↦ rw t (λ h. absurd (ground arith), λ h. absurd (ground arith))
        | inr f ↦ rw f (λ h. (ground arith, ih.0 h), λ h. ih.1 h.1)
      ]

  all_greater_iff :
      (cs : List Constraint)
      → (all_greater cs values ≡ true)
        ↔ All (λ c. c.value ≤ℤ compute_function c.elements (value_at values)) cs
  unfolding all_greater
  all_greater_iff [] = (λ h. tt, λ h. refl)
  all_greater_iff (c ∷ cs) =
      let s = compute_function c.elements (value_at values) in
      let ih = all_greater_iff cs in
      elim (Bool-cases (ltb_ℤ s c.value)) [
        | inl t ↦ rw t (λ h. absurd (ground arith), λ h. absurd (ground arith))
        | inr f ↦ rw f (λ h. (ground arith, ih.0 h), λ h. ih.1 h.1)
      ]

-- The value of a name in some lists: that at its last place.
abbrev pub last_value : String → List String → List Bool → Option Bool
last_value name (n ∷ names) (v ∷ values) = elim (last_value name names values) [
  | none ↦ (if n =ₛ name then some v else none)
  | some w ↦ some w
]
last_value name _ _ = none

abbrev pub or_else : Option Bool → Option Bool → Option Bool
or_else (some v) o = some v
or_else none o = o

lookup-fill_cache :
    (names : List String) (values : List Bool) (cache : NameCache) (name : String)
    → lookup (fill_cache cache names values) name
      ≡ or_else (last_value name names values) (lookup cache name)
unfolding fill_cache lookup
lookup-fill_cache [] values cache name = refl
lookup-fill_cache (n ∷ names) [] cache name = refl
lookup-fill_cache (n ∷ names) (v ∷ values) cache name =
    lookup-fill_cache names values ((n, v) ∷ cache) name
    ∙ here (last_value name names values) (n =ₛ name)
  where
    here :
        (o : Option Bool) (b : Bool)
        → or_else o (if b then some v else lookup cache name)
          ≡ or_else
              (elim o [ none ↦ (if b then some v else none) | some w ↦ some w ])
              (lookup cache name)
    here none true = refl
    here none false = refl
    here (some w) b = refl

read_names-values :
    (cache : NameCache) (f : String → Option Bool) (names : List String)
    → ((n : String) → lookup cache n ≡ f n)
    → All (λ n. (v : Bool) × (f n ≡ some v)) names
    → (vs : List Bool) × (read_names cache names ≡ ok vs) × (map some vs ≡ map f names)
unfolding read_names
read_names-values cache f [] same h = ([], refl, refl)
read_names-values cache f (n ∷ names) same h =
    let (v, e) = h.0 in
    let (vs, runs, values) = read_names-values cache f names same h.1 in
    (v ∷ vs, rw (same n ∙ e, read_names, runs) refl, ap₂ (λ a t. a ∷ t) (sym e) values)

length_of_mapped :
    (vs : List Bool) (f : String → Option Bool) (names : List String)
    → map some vs ≡ map f names
    → length vs ≡ length names
length_of_mapped vs f names e = sym (length-map vs some) ∙ ap length e ∙ length-map names f

module _ {D : Type 0} (pb : RawProblem D) where
  -- On values for every variable, the check of a solution accepts exactly those that meet every
  -- constraint. There is at least one variable, and as many names as bounds.
  pub is_valid_solution_impl-MeetsRaw :
      (values : List Bool)
      → 0 < length values
      → length values ≡ length pb.vars.names
      → length values ≡ length pb.vars.values
      → (is_valid_solution_impl pb values ≡ ok true) ↔ MeetsRaw pb values
  unfolding is_valid_solution_impl
  is_valid_solution_impl-MeetsRaw values some_value names bounds =
      let t0 : not (length values == 0) ≡ true = ground arith in
      let t1 : (length values == length pb.vars.names) ≡ true = ground arith in
      let t2 : (length values == length pb.vars.values) ≡ true = ground arith in
      let e = all_equal_iff values pb.equal_constraints in
      let l = all_less_iff values pb.less_constraints in
      let g = all_greater_iff values pb.greater_constraints in
      rw (t0, t1, t2)
        (
          λ h.
              let b = both_true _ _ (ok-injective _ _ h) in
              let c = both_true _ _ b.0 in (e.0 c.0, l.0 c.1, g.0 b.1),
          λ h. rw (e.1 h.0, l.1 h.1, g.1 h.2) refl,
        )
    where
      both_true : (a b : Bool) → a && b ≡ true → (a ≡ true) × (b ≡ true)
      both_true true true h = (refl, refl)
      both_true true false h = cc
      both_true false b h = cc

  module _ (r : SolverResult D) (last : Solution D) where
    -- The value that a result has for a name: of its last solution, or else of the affected variables.
    abbrev pub value_of : String → Option Bool
    value_of name =
        or_else (last_value name r.variable_name (bools last.variables))
          (last_value name r.affected_vars.names (bools r.affected_vars.values))

    -- A result with a solution and with a value for every name of the problem.
    pub record IsComplete : Type 0 where
      pub succeeded : r.status ≡ success
      pub found : back r.solutions ≡ some last
      pub sizes : length r.variable_name ≡ length last.variables
      pub affected_sizes : length r.affected_vars.names ≡ length r.affected_vars.values
      pub bounds : length pb.vars.names ≡ length pb.vars.values
      pub total : length pb.vars.names ≡ length r.variable_name + length r.affected_vars.names
      pub some_name : 0 < length pb.vars.names
      pub named : All (λ n. (v : Bool) × (value_of n ≡ some v)) pb.vars.names

    make_variable_value-values :
        IsComplete
        → (vs : List Bool) × (make_variable_value pb r ≡ ok vs)
          × (map some vs ≡ map value_of pb.vars.names)
    unfolding make_variable_value lookup
    make_variable_value-values h =
        let affected = fill_cache [] r.affected_vars.names (bools r.affected_vars.values) in
        let (vs, runs, values) =
          read_names-values (fill_cache affected r.variable_name (bools last.variables)) value_of
            pb.vars.names
            (λ n.
              lookup-fill_cache r.variable_name (bools last.variables) affected n
              ∙ ap (or_else (last_value n r.variable_name (bools last.variables))) (base n))
            h.named in
        let a = h.affected_sizes in
        let s = h.sizes in
        let t0 : (length r.affected_vars.names == length r.affected_vars.values) ≡ true =
          ground arith in
        let t1 : (length r.variable_name == length last.variables) ≡ true = ground arith in
        (vs, simp (h.succeeded, h.found, t0, t1) runs, values)
      where
        or_none : (o : Option Bool) → or_else o none ≡ o
        or_none none = refl
        or_none (some v) = refl

        base :
            (n : String)
            → lookup (fill_cache [] r.affected_vars.names (bools r.affected_vars.values)) n
              ≡ last_value n r.affected_vars.names (bools r.affected_vars.values)
        base n =
            lookup-fill_cache r.affected_vars.names (bools r.affected_vars.values) [] n ∙ or_none _

    -- A result with a value for every name of the problem is accepted exactly if the values that it
    -- has for the names, of its last solution before those of the affected variables, meet every
    -- constraint of the problem.
    pub is_valid_solution-MeetsRaw :
        IsComplete
        → (vs : List Bool) × (map some vs ≡ map value_of pb.vars.names)
          × ((is_valid_solution pb r ≡ ok true) ↔ MeetsRaw pb vs)
    unfolding is_valid_solution
    is_valid_solution-MeetsRaw h =
        let (vs, runs, values) = make_variable_value-values h in
        let long = length_of_mapped vs value_of pb.vars.names values in
        let b = h.bounds in
        let t = h.total in
        let s = h.sizes in
        let n = h.some_name in
        let t0 : (length pb.vars.names == length pb.vars.values) ≡ true = ground arith in
        let t1 : (length pb.vars.names == length r.variable_name + length r.affected_vars.names)
            ≡ true =
          ground arith in
        let t2 : (length last.variables == length r.variable_name) ≡ true = ground arith in
        let same : is_valid_solution pb r ≡ is_valid_solution_impl pb vs =
          simp (h.succeeded, h.found, t0, t1, t2, runs) refl in
        let iff = is_valid_solution_impl-MeetsRaw vs (omega arith) long (omega arith) in
        (vs, values, (λ e. iff.0 (sym same ∙ e), λ m. same ∙ iff.1 m))
