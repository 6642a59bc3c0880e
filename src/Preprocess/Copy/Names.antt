-- ===== src/Preprocess/Copy/Names.antt =====
-- The names of the variables that stay (`variables_exclude_copy` of lib/src/preprocessor.cpp), and
-- the `bx_ensures` of `make_problem` on them.
use Prim.Native.String.{String}
use baryonyx.Base.{
  ℕ, zero, suc, ◌≡◌, refl, ◌∙◌, subst, Bool, List, [], ◌∷◌, ◌++◌, some, inl, inr, arith, length,
  length-append, get_elem?, get_elem?-append_left, get_elem?-append_end, Option-cases,
}
use baryonyx.Double.{Double}
use baryonyx.Problem.{Problem, VariableValue, Variables, AffectedVariables, ObjectiveFunction}
use baryonyx.Preprocess.{VariableValues, Progress, find_value, bit}
use baryonyx.Preprocess.Mapping.{kept, fixed, mapped, mapping_from}
use baryonyx.Preprocess.Copy.{variables_exclude_copy, copied_problem}

abbrev add_left : Variables → String → VariableValue → Variables
add_left left n v = record { names = left.names ++ n ∷ []; values = left.values ++ v ∷ [] }

abbrev add_affected : AffectedVariables → String → Bool → AffectedVariables
add_affected affected n b = record {
  names = affected.names ++ n ∷ [];
  values = affected.values ++ bit b ∷ [];
}

kept-injective : (a b : ℕ) → kept a ≡ kept b → a ≡ b
kept-injective a b e = cc

module _ (vars : VariableValues) where
  -- What is there stays there.
  variables_exclude_copy_grows :
      (i : ℕ) (names : List String) (values : List VariableValue) (left : Variables)
      (affected : AffectedVariables) (k : ℕ) (a : String)
      → get_elem? left.names k ≡ some a
      → get_elem? (variables_exclude_copy vars i names values left affected).0.names k ≡ some a
  unfolding variables_exclude_copy
  variables_exclude_copy_grows i [] values left affected k a h = h
  variables_exclude_copy_grows i (n ∷ names) [] left affected k a h = h
  variables_exclude_copy_grows i (n ∷ names) (v ∷ values) left affected k a h =
      elim (Option-cases (find_value vars i)) [
        | inl unset ↦
            rw (unset, variables_exclude_copy)
              (variables_exclude_copy_grows (suc i) names values (add_left left n v) affected k a
                (get_elem?-append_left left.names (n ∷ []) k h))
        | inr (b, is_set) ↦
            rw (is_set, variables_exclude_copy)
              (variables_exclude_copy_grows (suc i) names values left (add_affected affected n b) k
                a h)
      ]

  variables_exclude_copy-name :
      (i c0 : ℕ) (names : List String) (values : List VariableValue) (left : Variables)
      (affected : AffectedVariables) (j c : ℕ)
      → length left.names ≡ c0
      → length names ≡ length values
      → mapped (mapping_from vars i c0 (length values)) j ≡ kept c
      → get_elem? (variables_exclude_copy vars i names values left affected).0.names c
        ≡ get_elem? names j
  unfolding variables_exclude_copy mapping_from
  variables_exclude_copy-name i c0 [] [] left affected j c len same is_kept = cc
  variables_exclude_copy-name i c0 [] (v ∷ values) left affected j c len same is_kept =
      absurd (omega arith)
  variables_exclude_copy-name i c0 (n ∷ names) [] left affected j c len same is_kept =
      absurd (omega arith)
  variables_exclude_copy-name i c0 (n ∷ names) (v ∷ values) left affected zero c len same is_kept =
      elim (Option-cases (find_value vars i)) [
        | inl unset ↦
            let here : kept c0 ≡ kept c = rw (unset, mapping_from) at is_kept in
            let place = len ∙ kept-injective c0 c here in
            rw (unset, variables_exclude_copy)
              (variables_exclude_copy_grows (suc i) names values (add_left left n v) affected c n (
                subst (λ k. get_elem? (left.names ++ n ∷ []) k ≡ some n) place
                  (get_elem?-append_end left.names n)))
        | inr (b, is_set) ↦ let here : fixed b ≡ kept c = rw (is_set, mapping_from) at is_kept in cc
      ]
  variables_exclude_copy-name i c0 (n ∷ names) (v ∷ values) left affected (suc j) c len same
        is_kept =
      elim (Option-cases (find_value vars i)) [
        | inl unset ↦
            rw (unset, variables_exclude_copy)
              (variables_exclude_copy-name (suc i) (suc c0) names values (add_left left n v)
                affected j c (omega (arith, length-append left.names (n ∷ []))) (omega arith)
                (rw (unset, mapping_from) at is_kept))
        | inr (b, is_set) ↦
            rw (is_set, variables_exclude_copy)
              (variables_exclude_copy-name (suc i) c0 names values left (add_affected affected n b)
                j c len (omega arith) (rw (is_set, mapping_from) at is_kept))
      ]

-- A variable that stays has, at its new index in the copy, the name that it has in the problem: the
-- `bx_ensures` of `make_problem` never fails. The problem has as many names as bounds.
pub copied_problem-name :
    (fl : Double) (pb : Problem fl.D) (s : Progress) (objective : ObjectiveFunction fl.D) (i c : ℕ)
    → length pb.vars.names ≡ length pb.vars.values
    → mapped (mapping_from s.vars 0 0 (length pb.vars.values)) i ≡ kept c
    → get_elem? (copied_problem fl pb s objective).vars.names c ≡ get_elem? pb.vars.names i
unfolding copied_problem
copied_problem-name fl pb s objective i c same is_kept =
    variables_exclude_copy-name s.vars 0 0 pb.vars.names pb.vars.values
      (record { names = []; values = [] }) pb.affected_vars i c refl same is_kept
