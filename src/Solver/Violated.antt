-- ===== src/Solver/Violated.antt =====
-- The violated constraints of lib/src/itm-common.hpp against the check of one constraint.
use baryonyx.Base.{
  ℕ, zero, suc, ◌+◌, ◌≡◌, refl, ap, ◌∙◌, Bool, true, false, [], ◌&&◌, not, if◌then◌else◌, ◌==◌, ltb,
  leb, length, count, arith, Bool-cases, inl, inr, ◌↔◌,
}
use baryonyx.Base.Int.{ℤ}
use baryonyx.Solver.{
  Solver, is_valid_constraint, valid_from, is_valid_solution, violated_from,
  compute_violated_constraints,
}

-- The place that the loop is at, with a constraint that holds or not; `b` is the check at `j`.
skip :
    (k n j : ℕ) (b : Bool)
    → (j ≡ k → b ≡ true)
    → ◌≡◌ {A = ℕ}
        (if leb (suc k) j && ltb j (suc k + n) && not b then 1 else 0)
        (if leb k j && ltb j (k + suc n) && not b then 1 else 0)
skip k n j b h = elim (Bool-cases (j == k)) [
  | inl e ↦ let t = h (ground arith) in ground arith
  | inr e ↦ ground arith
]

push :
    (k n j : ℕ) (b : Bool)
    → (j ≡ k → b ≡ false)
    → (if k == j then 1 else 0) + (if leb (suc k) j && ltb j (suc k + n) && not b then 1 else 0)
      ≡ (if leb k j && ltb j (k + suc n) && not b then 1 else 0)
push k n j b h = elim (Bool-cases (j == k)) [
  | inl e ↦ let t = h (ground arith) in ground arith
  | inr e ↦ ground arith
]

module _ (slv : Solver) (x : ℕ → ℤ) where
  violated_from-count :
      (k n j : ℕ)
      → count j (violated_from slv x k n)
        ≡ (if leb k j && ltb j (k + n) && not (is_valid_constraint slv x j) then 1 else 0)
  unfolding violated_from
  violated_from-count k zero j = ground arith
  violated_from-count k (suc n) j =
      let rest = violated_from-count (suc k) n j in
      elim (Bool-cases (is_valid_constraint slv x k)) [
        | inl t ↦ rw t (
            rest
            ∙ skip k n j (is_valid_constraint slv x j) (λ e. ap (is_valid_constraint slv x) e ∙ t))
        | inr f ↦ rw f (
            ap (λ c. (if k == j then 1 else 0) + c) rest
            ∙ push k n j (is_valid_constraint slv x j) (λ e. ap (is_valid_constraint slv x) e ∙ f))
      ]

  valid_from_iff : (k n : ℕ) → (valid_from slv x k n ≡ true) ↔ (violated_from slv x k n ≡ [])
  unfolding valid_from violated_from
  valid_from_iff k zero = (λ h. refl, λ h. refl)
  valid_from_iff k (suc n) = elim (Bool-cases (is_valid_constraint slv x k)) [
    | inl t ↦ rw t (valid_from_iff (suc k) n)
    | inr f ↦ rw f (λ h. absurd (ground arith), λ h. cc)
  ]

  -- The violated constraints are exactly the constraints that the check refuses, each listed once,
  -- and their number is returned; there is none exactly if the assignment is a valid solution.
  pub compute_violated_constraints-count :
      ((j : ℕ)
        → count j (compute_violated_constraints slv x).0
          ≡ (if ltb j slv.m && not (is_valid_constraint slv x j) then 1 else 0))
      × ((compute_violated_constraints slv x).1 ≡ length (compute_violated_constraints slv x).0)
      × ((is_valid_solution slv x ≡ true) ↔ ((compute_violated_constraints slv x).0 ≡ []))
  unfolding compute_violated_constraints is_valid_solution
  compute_violated_constraints-count = (
    λ j. violated_from-count 0 slv.m j ∙ from_zero slv.m j (is_valid_constraint slv x j),
    refl,
    valid_from_iff 0 slv.m,
  )
    where
      from_zero :
          (m j : ℕ) (b : Bool)
          → ◌≡◌ {A = ℕ}
              (if leb 0 j && ltb j (0 + m) && not b then 1 else 0)
              (if ltb j m && not b then 1 else 0)
      from_zero m j b = ground arith
