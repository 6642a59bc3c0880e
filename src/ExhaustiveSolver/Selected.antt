-- ===== src/ExhaustiveSolver/Selected.antt =====
-- The order of the reduced costs that `solve` (lib/src/exhaustive-solver.hpp) returns, and the number.
use baryonyx.Base.{
  ℕ, suc, ◌+◌, ◌≡◌, ◌≤◌, ◌⊎◌, refl, inl, inr, ap, ◌∙◌, true, false, List, [], ◌∷◌, ◌++◌, arith,
  length, length-append, All, Bool-cases, if◌then◌else◌, ◌==◌,
}
use baryonyx.Base.Int.{ℤ, pos, sub_ℕ}
use baryonyx.Base.Sort.{insert_by, sort_by}
use baryonyx.Double.{Double}
use baryonyx.Solver.{Mode}
use baryonyx.ExhaustiveSolver.{Item, item_lt, middle_of, selected_of}

all_are_chosen : (m n k : ℕ) → m ≡ k → n ≡ k + 0 → (if m == n then pos n else sub_ℕ m 1) ≡ pos k
all_are_chosen m n k e h = ground arith

some_are_left :
    (m n k j : ℕ) → m ≡ k → n ≡ k + suc j → (if m == n then pos n else sub_ℕ m 1) ≡ sub_ℕ k 1
some_are_left m n k j e h = ground arith

-- The number for so many that are chosen and so many that are not.
abbrev pub IsSelected : ℤ → ℕ → ℕ → Type 0
IsSelected selected chosen left =
    ((left ≡ 0) × (selected ≡ pos chosen)) ⊎ ((1 ≤ left) × (selected ≡ sub_ℕ chosen 1))

module _ (fl : Double) (mode : Mode) where
  open fl use {D}

  abbrev pub IsChosen : Item D → Type 0
  IsChosen i = i.result ≡ true

  abbrev pub IsLeft : Item D → Type 0
  IsLeft i = i.result ≡ false

  -- First the items that are chosen, then the others.
  pub record Split (items : List (Item D)) : Type 0 where
    pub first : List (Item D)
    pub last : List (Item D)
    pub whole : items ≡ first ++ last
    pub first_chosen : All IsChosen first
    pub last_left : All IsLeft last

  insert_after :
      (a b : Item D) (bs : List (Item D))
      → item_lt fl mode b a ≡ true
      → insert_by (item_lt fl mode) a (b ∷ bs) ≡ b ∷ insert_by (item_lt fl mode) a bs
  unfolding insert_by
  insert_after a b bs e = rw e

  insert_before :
      (a b : Item D) (bs : List (Item D))
      → item_lt fl mode b a ≡ false
      → insert_by (item_lt fl mode) a (b ∷ bs) ≡ a ∷ b ∷ bs
  unfolding insert_by
  insert_before a b bs e = rw e

  chosen_first : (u a : Item D) → IsChosen u → IsLeft a → item_lt fl mode u a ≡ true
  unfolding item_lt
  chosen_first u a hu ha = rw (hu, ha)

  left_last : (v a : Item D) → IsLeft v → IsChosen a → item_lt fl mode v a ≡ false
  unfolding item_lt
  left_last v a hv ha = rw (hv, ha)

  -- A chosen item stays within the chosen ones, and before the others.
  insert-IsChosen :
      (a : Item D) (us vs : List (Item D))
      → IsChosen a
      → All IsChosen us
      → All IsLeft vs
      → (ws : List (Item D)) × ((insert_by (item_lt fl mode) a (us ++ vs) ≡ ws ++ vs)
          × All IsChosen ws)
  unfolding insert_by
  insert-IsChosen a [] [] c hu hv = (a ∷ [], (refl, (c, tt)))
  insert-IsChosen a [] (v ∷ vs) c hu hv =
      (a ∷ [], (insert_before a v vs (left_last v a hv.0 c), (c, tt)))
  insert-IsChosen a (u ∷ us) vs c hu hv = elim (Bool-cases (item_lt fl mode u a)) [
    | inl e ↦
        let rest = insert-IsChosen a us vs c hu.1 hv in
        (u ∷ rest.0, (insert_after a u (us ++ vs) e ∙ ap (λ t. u ∷ t) rest.1.0, (hu.0, rest.1.1)))
    | inr e ↦ (a ∷ u ∷ us, (insert_before a u (us ++ vs) e, (c, hu)))
  ]

  -- An item that is not chosen goes behind the chosen ones.
  insert-IsLeft :
      (a : Item D) (us vs : List (Item D))
      → IsLeft a
      → All IsChosen us
      → All IsLeft vs
      → (ws : List (Item D)) × ((insert_by (item_lt fl mode) a (us ++ vs) ≡ us ++ ws)
          × All IsLeft ws)
  unfolding insert_by
  insert-IsLeft a [] [] c hu hv = (a ∷ [], (refl, (c, tt)))
  insert-IsLeft a [] (v ∷ vs) c hu hv = elim (Bool-cases (item_lt fl mode v a)) [
    | inl e ↦
        let rest = insert-IsLeft a [] vs c hu hv.1 in
        (v ∷ rest.0, (insert_after a v vs e ∙ ap (λ t. v ∷ t) rest.1.0, (hv.0, rest.1.1)))
    | inr e ↦ (a ∷ v ∷ vs, (insert_before a v vs e, (c, hv)))
  ]
  insert-IsLeft a (u ∷ us) vs c hu hv =
      let rest = insert-IsLeft a us vs c hu.1 hv in
      (
        rest.0,
        (
          insert_after a u (us ++ vs) (chosen_first u a hu.0 c) ∙ ap (λ t. u ∷ t) rest.1.0,
          rest.1.1,
        ),
      )

  insert_by-Split :
      (a : Item D) (items : List (Item D))
      → Split items
      → Split (insert_by (item_lt fl mode) a items)
  insert_by-Split a items s = elim (Bool-cases a.result) [
    | inl c ↦
        let put = insert-IsChosen a s.first s.last c s.first_chosen s.last_left in
        record {
          first = put.0;
          last = s.last;
          whole = ap (insert_by (item_lt fl mode) a) s.whole ∙ put.1.0;
          first_chosen = put.1.1;
          last_left = s.last_left;
        }
    | inr c ↦
        let put = insert-IsLeft a s.first s.last c s.first_chosen s.last_left in
        record {
          first = s.first;
          last = put.0;
          whole = ap (insert_by (item_lt fl mode) a) s.whole ∙ put.1.0;
          first_chosen = s.first_chosen;
          last_left = put.1.1;
        }
  ]

  pub sort_by-Split : (items : List (Item D)) → Split (sort_by (item_lt fl mode) items)
  unfolding sort_by
  sort_by-Split [] = record {
    first = [];
    last = [];
    whole = refl;
    first_chosen = tt;
    last_left = tt;
  }
  sort_by-Split (a ∷ items) =
      insert_by-Split a (sort_by (item_lt fl mode) items) (sort_by-Split items)

  middle_of-Split :
      (us vs : List (Item D))
      → All IsChosen us
      → All IsLeft vs
      → middle_of fl mode (us ++ vs) ≡ length us
  middle_of-Split [] [] hu hv = refl
  middle_of-Split [] (v ∷ vs) hu hv = simp hv.0 refl
  middle_of-Split (u ∷ us) vs hu hv = simp hu.0 (ap suc (middle_of-Split us vs hu.1 hv))

  pub selected_of-IsSelected :
      (us vs : List (Item D))
      → All IsChosen us
      → All IsLeft vs
      → IsSelected (selected_of fl mode (us ++ vs)) (length us) (length vs)
  selected_of-IsSelected us [] h k = inl (
    refl,
    all_are_chosen (middle_of fl mode (us ++ [])) (length (us ++ [])) (length us)
        (middle_of-Split us [] h k) (length-append us []),
  )
  selected_of-IsSelected us (v ∷ vs) h k = inr (
    omega arith,
    some_are_left (middle_of fl mode (us ++ v ∷ vs)) (length (us ++ v ∷ vs)) (length us) (length vs)
        (middle_of-Split us (v ∷ vs) h k) (length-append us (v ∷ vs)),
  )
