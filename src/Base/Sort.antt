-- ===== src/Base/Sort.antt =====
-- `std::sort` and `std::stable_sort`: a stable insertion sort by a strict comparison. Only that the
-- result is a permutation is used of it, which is so for every sort.
use mathlib.Core.List.Permᴰ
use mathlib.Core.List.{Permᴰ}
use baryonyx.Base.{refl, subst, List, [], ◌∷◌, Bool, true, false, if◌then◌else◌, All}

module _ {ℓ} {A : Type ℓ} (lt : A → A → Bool) where
  unfoldable pub insert_by : A → List A → List A
  insert_by a [] = a ∷ []
  insert_by a (b ∷ bs) = if lt b a then b ∷ insert_by a bs else a ∷ b ∷ bs

  unfoldable pub sort_by : List A → List A
  unfolding insert_by
  sort_by [] = []
  sort_by (a ∷ xs) = insert_by a (sort_by xs)

  insert_by-permᴰ : (a : A) (bs : List A) → Permᴰ (insert_by a bs) (a ∷ bs)
  unfolding insert_by
  insert_by-permᴰ a [] = Permᴰ.cons refl Permᴰ.nil
  insert_by-permᴰ a (b ∷ bs) =
      elim (lt b a) as (λ t. Permᴰ (if t then b ∷ insert_by a bs else a ∷ b ∷ bs) (a ∷ b ∷ bs)) [
        | true ↦ Permᴰ.trans (Permᴰ.cons refl (insert_by-permᴰ a bs)) (Permᴰ.swap refl refl)
        | false ↦ Permᴰ.cons refl (Permᴰ.cons refl (perm_refl bs))
      ]
    where
      perm_refl : (xs : List A) → Permᴰ xs xs
      perm_refl [] = Permᴰ.nil
      perm_refl (x ∷ xs) = Permᴰ.cons refl (perm_refl xs)

  pub sort_by-permᴰ : (xs : List A) → Permᴰ (sort_by xs) xs
  unfolding sort_by
  sort_by-permᴰ [] = Permᴰ.nil
  sort_by-permᴰ (a ∷ xs) =
      Permᴰ.trans (insert_by-permᴰ a (sort_by xs)) (Permᴰ.cons refl (sort_by-permᴰ xs))

  pub permᴰ-sort_by : (xs : List A) → Permᴰ xs (sort_by xs)
  permᴰ-sort_by xs = Permᴰ.symm (sort_by-permᴰ xs)

-- A predicate of every entry survives a permutation.
pub All-permᴰ {ℓ κ} :
    {A : Type ℓ} (P : A → Type κ) {xs ys : List A} → Permᴰ xs ys → All P xs → All P ys
All-permᴰ P Permᴰ.nil h = tt
All-permᴰ P (Permᴰ.cons e p) h = (subst P e h.0, All-permᴰ P p h.1)
All-permᴰ P (Permᴰ.swap e f) h = (subst P f h.1.0, (subst P e h.0, h.1.1))
All-permᴰ P (Permᴰ.trans p q) h = All-permᴰ P q (All-permᴰ P p h)
