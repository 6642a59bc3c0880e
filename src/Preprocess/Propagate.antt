-- ===== src/Preprocess/Propagate.antt =====
-- The loop `affects` of lib/src/preprocessor.cpp, round after round: its end and its outcome.
use baryonyx.Base.{
  ℕ, zero, suc, ◌+◌, ◌≤◌, ◌<◌, ◌≡◌, ◌≢◌, refl, sym, ap, ◌∙◌, subst, Bool, List, [], ◌∷◌, none, some,
  arith, get_or, length,
}
use baryonyx.Base.Result.{Result, ok, err, ◌>>=◌}
use baryonyx.Problem.{Problem, OperatorType, equal, greater, less}
use baryonyx.Preprocess.{
  Fault, reached, VariableAccess, VariableValues, Progress, find_value, affect_top, affects,
}
use baryonyx.Preprocess.Reduce.{Agrees}
use baryonyx.Preprocess.Invariant.{
  rounds, IsDistinct, Inv, Solves, Run, fine, dead, find_value-emplace_self,
}
use baryonyx.Preprocess.Values.{Agrees-cons}
use baryonyx.Preprocess.Visits.{no_access, pending, IsCached, unassigned-cons, visits, visits-Run}

find_value_self : (vs : VariableValues) (i : ℕ) (v : Bool) → find_value ((i, v) ∷ vs) i ≡ some v
unfolding find_value
find_value_self vs i v = ground arith

find_value-tail :
    (vs : VariableValues) (i : ℕ) (v : Bool) (j : ℕ) (w : Bool)
    → find_value vs i ≡ none
    → find_value vs j ≡ some w
    → (find_value ((i, v) ∷ vs) j ≡ some w) × (i ≢ j)
unfolding find_value
find_value-tail vs i v j w h k =
    let apart : i ≢ j = λ e. let k' = subst (λ t. find_value vs t ≡ some w) (sym e) k in cc in
    (ground arith, apart)

find_value-ne :
    (vs : VariableValues) (i : ℕ) (v : Bool) (j : ℕ)
    → i ≢ j
    → find_value ((i, v) ∷ vs) j ≡ find_value vs j
unfolding find_value
find_value-ne vs i v j h = ground arith

-- No visit is to come.
abbrev pub idle : OperatorType → ℕ → ℕ
idle o j = 0

pending_none : (o : OperatorType) (j : ℕ) → pending no_access o j ≡ 0
pending_none equal j = refl
pending_none greater j = refl
pending_none less j = refl

module _ {D : Type 0} (pb : Problem D) where
  Inv-weaken :
      {p p' : OperatorType → ℕ → ℕ} (s : Progress)
      → ((o : OperatorType) (j : ℕ) → p' o j ≤ p o j)
      → Inv pb p s
      → Inv pb p' s
  Inv-weaken s le inv = record {
    counted = λ o j c at. let old = inv.counted o j c at in let l = le o j in omega arith;
    distinct = inv.distinct;
    apart = inv.apart;
  }

  -- The state after the pop, before the visits.
  abbrev popped : Progress → ℕ → Bool → VariableValues → Progress
  popped s i v rest = record s { vars = (i, v) ∷ s.vars; lifo = rest }

  top-is_new :
      {p : OperatorType → ℕ → ℕ} (s : Progress) (i : ℕ) (v : Bool) (rest : VariableValues)
      → s.lifo ≡ (i, v) ∷ rest
      → Inv pb p s
      → find_value s.vars i ≡ none
  top-is_new s i v rest e inv =
      inv.apart i v (subst (λ l. find_value l i ≡ some v) (sym e) (find_value_self rest i v))

  affect_top-visits :
      (cache : List VariableAccess) (s : Progress) (i : ℕ) (v : Bool) (rest : VariableValues)
      → find_value s.vars i ≡ none
      → affect_top pb cache (record s { lifo = rest }) (i, v)
        ≡ visits pb (get_or cache i no_access) (popped s i v rest)
  unfolding affect_top visits
  affect_top-visits cache s i v rest h = rw (find_value-emplace_self s.vars i v h)

  rounds-popped :
      (s : Progress) (i : ℕ) (v : Bool) (rest : VariableValues)
      → s.lifo ≡ (i, v) ∷ rest
      → rounds (popped s i v rest) + 1 ≤ rounds s
  unfolding rounds
  rounds-popped s i v rest e = omega (arith, ap (λ (l : VariableValues). length l) e)

  popped-Inv :
      (cache : List VariableAccess) (s : Progress) (i : ℕ) (v : Bool) (rest : VariableValues)
      → IsCached pb cache
      → s.lifo ≡ (i, v) ∷ rest
      → Inv pb idle s
      → Inv pb (pending (get_or cache i no_access)) (popped s i v rest)
  popped-Inv cache s i v rest cached e inv = record {
    counted = λ o j c at.
        let old = inv.counted o j c at in
        let more = cached o j c i at in
        let eq = unassigned-cons s.vars i v c.elements is_new in omega arith;
    distinct = distinct.1;
    apart = λ j w h.
        let (there, ne) = find_value-tail rest i v j w distinct.0 h in
        find_value-ne s.vars i v j ne
        ∙ inv.apart j w (subst (λ l. find_value l j ≡ some w) (sym e) there);
  }
    where
      distinct : IsDistinct ((i, v) ∷ rest)
      distinct = subst IsDistinct e inv.distinct

      is_new : find_value s.vars i ≡ none
      is_new = top-is_new s i v rest e inv

  module _ (x : ℕ → Bool) where
    popped-Solves :
        (s : Progress) (i : ℕ) (v : Bool) (rest : VariableValues)
        → s.lifo ≡ (i, v) ∷ rest
        → IsDistinct s.lifo
        → Solves pb x s
        → Solves pb x (popped s i v rest)
    popped-Solves s i v rest e d h = record {
      meets = h.meets;
      given = Agrees-cons s.vars x i v (stacked i v (find_value_self rest i v)) h.given;
      stacked = λ j w k. stacked j w (find_value-tail rest i v j w distinct.0 k).0;
    }
      where
        distinct : IsDistinct ((i, v) ∷ rest)
        distinct = subst IsDistinct e d

        stacked : Agrees ((i, v) ∷ rest) x
        stacked j w k = h.stacked j w (subst (λ l. find_value l j ≡ some w) (sym e) k)

    -- The loop ends with an empty stack in a state that has the values of every solution, or it
    -- ends at `bx_reach`, and then `x` is no solution.
    pub data Ends (s : Progress) : Result Fault Progress → Type 0 where
      done :
          {t : Progress}
          → Inv pb idle t
          → t.lifo ≡ []
          → (Solves pb x s → Solves pb x t)
          → Ends s (ok t)
      hopeless : ¬ Solves pb x s → Ends s (err reached)

    Ends-bind :
        {p : OperatorType → ℕ → ℕ} (s s1 : Progress) (r : Result Fault Progress)
        (f : Progress → Result Fault Progress)
        → (Solves pb x s → Solves pb x s1)
        → ((t : Progress) → Inv pb p t → rounds t ≤ rounds s1 → Ends t (f t))
        → Run pb x p s1 r
        → Ends s (r >>= f)
    Ends-bind s s1 r f keep next (fine {t = t} inv le same keep') = onward (f t) (next t inv le)
      where
        onward : (q : Result Fault Progress) → Ends t q → Ends s q
        onward q (done i e k) = done i e (λ h. k (keep' (keep h)))
        onward q (hopeless never) = hopeless (λ h. never (keep' (keep h)))
    Ends-bind s s1 r f keep next (dead never) = hopeless (λ h. never (keep h))

    module _ (cache : List VariableAccess) (cached : IsCached pb cache) where
      pub affects-Ends :
          (fuel : ℕ) (s : Progress) (l : VariableValues)
          → s.lifo ≡ l
          → Inv pb idle s
          → rounds s < fuel
          → Ends s (affects pb fuel cache s)
      unfolding affects
      affects-Ends zero s l e inv h = absurd (omega arith)
      affects-Ends (suc fuel) s [] e inv h = simp (e, affects) (done inv e (λ k. k))
      affects-Ends (suc fuel) s ((i, v) ∷ rest) e inv h =
          let a = get_or cache i no_access in
          let s1 = popped s i v rest in
          let run =
            visits-Run pb x a.in_equal_constraints a.in_greater_constraints a.in_less_constraints s1
              (popped-Inv cache s i v rest cached e inv) in
          simp (e, affects, affect_top-visits cache s i v rest (top-is_new s i v rest e inv))
            (Ends-bind s s1 _ (affects pb fuel cache) (popped-Solves s i v rest e inv.distinct)
              (λ t inv_t le.
                affects-Ends fuel t t.lifo refl
                  (Inv-weaken t (λ o j. omega (arith, pending_none o j)) inv_t)
                  (ground (arith, rounds-popped s i v rest e)))
              run)
