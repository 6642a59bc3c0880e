-- ===== src/Preprocess/Visit.antt =====
-- The visit of one constraint in `affects` (lib/src/preprocessor.cpp), its invariant and the
-- assignments that are solutions.
use baryonyx.Base.{
  ℕ, ◌+◌, ◌-◌, ◌≤◌, ◌≡◌, ◌≢◌, refl, sym, ◌∙◌, subst, Bool, Option, none, some, arith, Bool-cases,
  Option-cases, ◌⊎◌, inl, inr, ◌==◌, get_elem?, All-get_elem?,
}
use baryonyx.Base.Result.{Result, ok, ok-injective}
use baryonyx.Problem.{Constraint, Problem, OperatorType}
use baryonyx.Preprocess.{
  Fault, Progress, find_value, emplace, set_counter, reduce_constraint, push_value, finish,
  constraints, finish_at, visit,
}
use baryonyx.Preprocess.Reduce.{
  HoldsAt, unassigned, Forced, IsNew, reduce_constraint-Forced, reduce_constraint-IsNew,
}
use baryonyx.Preprocess.Invariant.{
  counter, counter-set_counter, counter-set_live, rounds, rounds-set_counter, rounds-set_zero, Inv,
  Solves, Run, fine, dead, set_counter-Solves,
}
use baryonyx.Preprocess.Values.{
  vars-set_counter, lifo-set_counter, vars-push_value, rounds-push_value, find_value-cons,
  Agrees-emplace,
}

module _ {D : Type 0} (pb : Problem D) where
  pub set_counter-Inv :
      {p : OperatorType → ℕ → ℕ} (p' : OperatorType → ℕ → ℕ) (s : Progress) (op : OperatorType)
      (cst n : ℕ)
      → Inv pb p s
      → ((op' : OperatorType) (j : ℕ) → p' op' j ≤ p op' j)
      → ((c : Constraint)
          → get_elem? (constraints pb op) cst ≡ some c
          → (n ≡ 0) ⊎ (unassigned s.vars c.elements + p' op cst ≤ n))
      → Inv pb p' (set_counter s op cst n)
  set_counter-Inv p' s op cst n inv less_pending new = record {
    counted = λ op' j c at.
        rw (vars-set_counter s op cst n) (elim (counter-set_counter s op cst n op' j) [
          | inl (e, same_op, same_cst) ↦ rw e (
              subst
                (λ o.
                  (get_elem? (constraints pb o) j ≡ some c)
                  → (n ≡ 0) ⊎ (unassigned s.vars c.elements + p' o j ≤ n))
                same_op
                (subst
                  (λ k.
                    (get_elem? (constraints pb op) k ≡ some c)
                    → (n ≡ 0) ⊎ (unassigned s.vars c.elements + p' op k ≤ n))
                  same_cst (new c))
                at)
          | inr e ↦
              rw e (let old = inv.counted op' j c at in let le = less_pending op' j in omega arith)
        ]);
    distinct = rw (lifo-set_counter s op cst n) inv.distinct;
    apart = rw (lifo-set_counter s op cst n, vars-set_counter s op cst n) inv.apart;
  }

  pub push_value-Inv :
      {p : OperatorType → ℕ → ℕ} (s : Progress) (v : Option (ℕ × Bool))
      → Inv pb p s
      → IsNew s.vars v
      → Inv pb p (push_value s v)
  unfolding push_value emplace
  push_value-Inv s none inv new = inv
  push_value-Inv s (some (i, b)) inv new = elim (Option-cases (find_value s.lifo i)) [
    | inl e ↦
        rw (e, emplace)
          (record {
            counted = inv.counted;
            distinct = (e, inv.distinct);
            apart = λ j w h. elim (find_value-cons s.lifo i b j w h) [
              | inl (p, q) ↦ rw (← p) new
              | inr k ↦ inv.apart j w k
            ];
          })
    | inr (w, e) ↦ rw (e, emplace) inv
  ]

  module _ (x : ℕ → Bool) where
    pub push_value-Solves :
        (s : Progress) (v : Option (ℕ × Bool))
        → Forced s.vars x v
        → Solves pb x s
        → Solves pb x (push_value s v)
    unfolding push_value
    push_value-Solves s none f h = h
    push_value-Solves s (some (i, b)) f h = record {
      meets = h.meets;
      given = h.given;
      stacked = Agrees-emplace s.lifo x i b f.1 h.stacked;
    }

    -- The reduction gives the same value to every solution.
    Forced-value :
        (op : OperatorType) (s : Progress) (cst : ℕ) (c : Constraint) (v : Option (ℕ × Bool))
        → get_elem? (constraints pb op) cst ≡ some c
        → unassigned s.vars c.elements ≤ 1
        → reduce_constraint op s.vars c ≡ ok v
        → Solves pb x s
        → Forced s.vars x v
    Forced-value op s cst c v at few e h =
        let holds = All-get_elem? (HoldsAt op x) (constraints pb op) cst (h.meets op) at in
        let (w, e', f) = reduce_constraint-Forced op s.vars x c h.given few holds in
        subst (Forced s.vars x) (ok-injective _ _ (sym e' ∙ e)) f

    pub finish_at-Run :
        {p : OperatorType → ℕ → ℕ} (op : OperatorType) (cst : ℕ) (s : Progress)
        → Inv pb p s
        → counter s op cst ≢ 0
        → ((c : Constraint)
            → get_elem? (constraints pb op) cst ≡ some c
            → unassigned s.vars c.elements ≤ 1)
        → Run pb x p s (finish_at pb op cst s)
    unfolding finish_at finish
    finish_at-Run {p} op cst s inv live few =
        elim (Option-cases (get_elem? (constraints pb op) cst)) [
          | inl e ↦ rw (e, finish_at) (fine inv (omega arith) refl (λ h. h))
          | inr (c, at) ↦ elim (reduce_constraint-IsNew op s.vars c (few c at)) [
            | inl (v, e, new) ↦
                let s0 = set_counter s op cst 0 in
                let inv0 =
                  set_counter-Inv p s op cst 0 inv (λ o j. omega arith) (λ d h. inl refl) in
                rw (at, finish_at, e, finish)
                  (fine (push_value-Inv s0 v inv0 (rw (vars-set_counter s op cst 0) new))
                    (omega (arith, rounds-push_value s0 v, rounds-set_zero s op cst live))
                    (vars-push_value s0 v ∙ vars-set_counter s op cst 0)
                    λ h.
                      push_value-Solves s0 v
                        (rw (vars-set_counter s op cst 0)
                          (Forced-value op s cst c v at (few c at) e h))
                        (set_counter-Solves pb x s op cst 0 h))
            | inr e ↦
                rw (at, finish_at, e, finish)
                  (dead λ h.
                    let holds =
                      All-get_elem? (HoldsAt op x) (constraints pb op) cst (h.meets op) at in
                    let (w, e', f) =
                      reduce_constraint-Forced op s.vars x c h.given (few c at) holds in
                    cc)
          ]
        ]

    pub Run-then :
        {p : OperatorType → ℕ → ℕ} {s t : Progress} (r : Result Fault Progress)
        → rounds t ≤ rounds s
        → t.vars ≡ s.vars
        → (Solves pb x s → Solves pb x t)
        → Run pb x p t r
        → Run pb x p s r
    Run-then r le same keep (fine inv le' same' keep') =
        fine inv (omega arith) (same' ∙ same) (λ h. keep' (keep h))
    Run-then r le same keep (dead never) = dead (λ h. never (keep h))

    -- With one visit less to come the visited state is as good, or there is no solution.
    pub visit-Run :
        {p : OperatorType → ℕ → ℕ} (p' : OperatorType → ℕ → ℕ) (op : OperatorType) (cst : ℕ)
        (s : Progress)
        → Inv pb p s
        → ((op' : OperatorType) (j : ℕ) → p' op' j ≤ p op' j)
        → p' op cst + 1 ≤ p op cst
        → Run pb x p' s (visit pb op s cst)
    unfolding visit
    visit-Run {p} p' op cst s inv le one = elim (Bool-cases (n == 0)) [
      | inl t ↦ rw (t, visit) (fine (weaken inv) (omega arith) refl (λ h. h))
      | inr live ↦ elim (Bool-cases (n - 1 == 1)) [
        | inl t ↦
            rw (live, t, visit)
              (Run-then (finish_at pb op cst s') (less (ground arith)) same keep (
                finish_at-Run op cst s' (visited (ground arith))
                  (rw (counter-set_live s op cst (n - 1) (ground arith)) (ground arith))
                  (last (ground arith) (ground arith))))
        | inr t ↦
            rw (live, t, visit) (fine (visited (ground arith)) (less (ground arith)) same keep)
      ]
    ]
      where
        n : ℕ
        n = counter s op cst

        s' : Progress
        s' = set_counter s op cst (n - 1)

        same : s'.vars ≡ s.vars
        same = vars-set_counter s op cst (n - 1)

        keep : Solves pb x s → Solves pb x s'
        keep = set_counter-Solves pb x s op cst (n - 1)

        less : n ≢ 0 → rounds s' ≤ rounds s
        less live = rounds-set_counter s op cst (n - 1) live

        weaken : Inv pb p s → Inv pb p' s
        weaken i = record {
          counted = λ o j c at. let old = i.counted o j c at in let l = le o j in omega arith;
          distinct = i.distinct;
          apart = i.apart;
        }

        visited : n ≢ 0 → Inv pb p' s'
        visited live =
            set_counter-Inv p' s op cst (n - 1) inv le
              λ c at. let old = inv.counted op cst c at in inr (omega arith)

        last :
            n ≢ 0
            → n - 1 ≡ 1
            → (c : Constraint) → get_elem? (constraints pb op) cst ≡ some c
            → unassigned s'.vars c.elements ≤ 1
        last live one_left c at = rw same (let old = inv.counted op cst c at in omega arith)
