-- ===== src/SparseMatrix/Sorted.antt =====
-- Lists in the order of a key (lib/src/sparse-matrix.hpp): the entries with a key, and the
-- stable sort.
use baryonyx.Base.{
  ℕ, ◌≤◌, ◌≡◌, refl, ap, ◌∙◌, Bool, true, false, List, [], ◌∷◌, map, ◌==◌, if◌then◌else◌, inl, inr,
  arith, ltb, Bool-cases,
}
use baryonyx.Base.Sort.{insert_by, sort_by}
use baryonyx.SparseMatrix.Runs.{Ascending}

module _ {A : Type 0} (key : A → ℕ) where
  -- The entries with a key, in their order.
  abbrev pub with_key : ℕ → List A → List A
  with_key j [] = []
  with_key j (x ∷ xs) = let rest = with_key j xs in if key x == j then x ∷ rest else rest

  abbrev pub keys : List A → List ℕ
  keys = map key

  abbrev pub by_key : A → A → Bool
  by_key lhs rhs = ltb (key lhs) (key rhs)

  with_key_swap :
      (j : ℕ) (a x : A) (xs : List A)
      → by_key x a ≡ true
      → (if key x == j then x ∷ with_key j (a ∷ xs) else with_key j (a ∷ xs))
        ≡ with_key j (a ∷ x ∷ xs)
  with_key_swap j a x xs e = elim (Bool-cases (key x == j)) [
    | inl f ↦ let g : (key a == j) ≡ false = ground arith in rw (f, g) refl
    | inr f ↦ rw f refl
  ]

  insert_by-with_key :
      (j : ℕ) (a : A) (xs : List A) → with_key j (insert_by by_key a xs) ≡ with_key j (a ∷ xs)
  unfolding insert_by
  insert_by-with_key j a [] = refl
  insert_by-with_key j a (x ∷ xs) = elim (Bool-cases (by_key x a)) [
    | inl e ↦ rw e (
        ap (λ rest. if key x == j then x ∷ rest else rest) (insert_by-with_key j a xs)
        ∙ with_key_swap j a x xs e)
    | inr e ↦ rw e refl
  ]

  pub sort_by-with_key : (j : ℕ) (xs : List A) → with_key j (sort_by by_key xs) ≡ with_key j xs
  unfolding sort_by
  sort_by-with_key j [] = refl
  sort_by-with_key j (x ∷ xs) =
      insert_by-with_key j x (sort_by by_key xs)
      ∙ ap (λ rest. if key x == j then x ∷ rest else rest) (sort_by-with_key j xs)

  insert_by-Ascending :
      (b : ℕ) (a : A) (xs : List A)
      → b ≤ key a
      → Ascending b (keys xs)
      → Ascending b (keys (insert_by by_key a xs))
  unfolding insert_by
  insert_by-Ascending b a [] h asc = (h, tt)
  insert_by-Ascending b a (x ∷ xs) h asc = elim (Bool-cases (by_key x a)) [
    | inl e ↦ rw e (asc.0, insert_by-Ascending (key x) a xs (ground arith) asc.1)
    | inr e ↦ rw e (h, (ground arith, asc.1))
  ]

  pub sort_by-Ascending : (xs : List A) → Ascending 0 (keys (sort_by by_key xs))
  unfolding sort_by
  sort_by-Ascending [] = tt
  sort_by-Ascending (x ∷ xs) =
      insert_by-Ascending 0 x (sort_by by_key xs) (omega arith) (sort_by-Ascending xs)
