-- ===== src/ExhaustiveSolver/Rows.antt =====
-- The reduced costs that `solve` (lib/src/exhaustive-solver.hpp) puts first, and those behind them.
use mathlib.Core.List.Permᴰ
use mathlib.Core.List.{Permᴰ, append-nil}
use baryonyx.Base.{
  ◌≡◌, refl, inl, inr, sym, ap, subst, ◌∙◌, Bool, true, false, List, [], ◌∷◌, ◌++◌, map, not, arith,
  length, length-map, All, All-map, Bool-cases, if◌then◌else◌,
}
use baryonyx.Base.Int.{ℤ}
use baryonyx.Base.Sort.{sort_by, sort_by-permᴰ}
use baryonyx.Double.{Double}
use baryonyx.Solver.{Mode}
use baryonyx.ExhaustiveSolver.{RcData, Item, chosen, items_of, item_lt, rc_of, selected_of}
use baryonyx.ExhaustiveSolver.Choice.{NonZero, not_zero, taken, left}
use baryonyx.ExhaustiveSolver.Entries.{if_true, if_false}
use baryonyx.ExhaustiveSolver.Selected.{
  IsChosen, IsLeft, Split, IsSelected, sort_by-Split, selected_of-IsSelected,
}

module _ (fl : Double) (mode : Mode) where
  open fl use {D}

  -- The reduced costs of the items for which `p` holds.
  abbrev rows : (Item D → Bool) → List (Item D) → List (RcData D)
  rows p [] = []
  rows p (i ∷ is) = let rest = rows p is in if p i then rc_of fl mode i ∷ rest else rest

  rows_yes :
      (p : Item D → Bool) (i : Item D) (is : List (Item D))
      → p i ≡ true
      → rows p (i ∷ is) ≡ rc_of fl mode i ∷ rows p is
  rows_yes p i is e = sym (if_true (p i) (rc_of fl mode i ∷ rows p is) (rows p is) e)

  rows_no :
      (p : Item D → Bool) (i : Item D) (is : List (Item D))
      → p i ≡ false
      → rows p (i ∷ is) ≡ rows p is
  rows_no p i is e = sym (if_false (p i) (rc_of fl mode i ∷ rows p is) (rows p is) e)

  rows-append :
      (p : Item D → Bool) (us vs : List (Item D)) → rows p (us ++ vs) ≡ rows p us ++ rows p vs
  rows-append p [] vs = refl
  rows-append p (u ∷ us) vs = elim (Bool-cases (p u)) [
    | inl e ↦
        rows_yes p u (us ++ vs) e
        ∙ ap (λ t. rc_of fl mode u ∷ t) (rows-append p us vs)
        ∙ ap (λ t. t ++ rows p vs) (sym (rows_yes p u us e))
    | inr e ↦
        rows_no p u (us ++ vs) e
        ∙ rows-append p us vs
        ∙ ap (λ t. t ++ rows p vs) (sym (rows_no p u us e))
  ]

  rows_every :
      (p : Item D → Bool) (us : List (Item D))
      → All (λ i. p i ≡ true) us
      → rows p us ≡ map (rc_of fl mode) us
  rows_every p [] h = refl
  rows_every p (u ∷ us) h =
      rows_yes p u us h.0 ∙ ap (λ t. rc_of fl mode u ∷ t) (rows_every p us h.1)

  rows_none : (p : Item D → Bool) (us : List (Item D)) → All (λ i. p i ≡ false) us → rows p us ≡ []
  rows_none p [] h = refl
  rows_none p (u ∷ us) h = rows_no p u us h.0 ∙ rows_none p us h.1

  add_row :
      (p : Item D → Bool) (i : Item D) (is js : List (Item D))
      → Permᴰ (rows p is) (rows p js)
      → Permᴰ (rows p (i ∷ is)) (rows p (i ∷ js))
  add_row p i is js h =
      elim (p i)
        as (λ b.
          Permᴰ (if b then rc_of fl mode i ∷ rows p is else rows p is)
            (if b then rc_of fl mode i ∷ rows p js else rows p js)) [
              | true ↦ Permᴰ.cons refl h
              | false ↦ h
            ]

  swap_rows :
      (a b : Bool) (x y : RcData D) (l : List (RcData D))
      → Permᴰ
          (if a then x ∷ (if b then y ∷ l else l) else (if b then y ∷ l else l))
          (if b then y ∷ (if a then x ∷ l else l) else (if a then x ∷ l else l))
  swap_rows true true x y l = Permᴰ.swap refl refl
  swap_rows true false x y l = Permᴰ.refl (x ∷ l)
  swap_rows false true x y l = Permᴰ.refl (y ∷ l)
  swap_rows false false x y l = Permᴰ.refl l

  rows-permᴰ :
      (p : Item D → Bool) {is js : List (Item D)} → Permᴰ is js → Permᴰ (rows p is) (rows p js)
  rows-permᴰ p Permᴰ.nil = Permᴰ.nil
  rows-permᴰ p (Permᴰ.cons {a = a} {l₁ = is} {l₂ = js} e q) =
      subst (λ t. Permᴰ (rows p (a ∷ is)) (rows p (t ∷ js))) e (add_row p a is js (rows-permᴰ p q))
  rows-permᴰ p (Permᴰ.swap {a = a} {b = b} {b' = b'} {l = l} e f) =
      subst (λ t. Permᴰ (rows p (a ∷ b ∷ l)) (rows p (t ∷ b' ∷ l))) f
        (subst (λ t. Permᴰ (rows p (a ∷ b ∷ l)) (rows p (b ∷ t ∷ l))) e
          (swap_rows (p a) (p b) (rc_of fl mode a) (rc_of fl mode b) (rows p l)))
  rows-permᴰ p (Permᴰ.trans q r) = Permᴰ.trans (rows-permᴰ p q) (rows-permᴰ p r)

  abbrev is_taken : Item D → Bool
  is_taken i = i.result

  abbrev is_left : Item D → Bool
  is_left i = not i.result

  rows-taken :
      (w : List Bool) (fs : List ℤ) (costs : List (RcData D))
      → length w ≡ length fs
      → NonZero fs
      → rows is_taken (items_of fl mode (chosen w fs) costs) ≡ taken fl w costs
  unfolding items_of chosen
  rows-taken [] [] costs e h = refl
  rows-taken [] (f ∷ fs) costs e h = absurd (omega arith)
  rows-taken (b ∷ w) [] costs e h = absurd (omega arith)
  rows-taken (true ∷ w) (f ∷ fs) [] e h = refl
  rows-taken (false ∷ w) (f ∷ fs) [] e h = refl
  rows-taken (true ∷ w) (f ∷ fs) (c ∷ cs) e h =
      rows_yes is_taken _ (items_of fl mode (chosen w fs) cs) (ap not (not_zero fl f h.0))
      ∙ ap (λ t. c ∷ t) (rows-taken w fs cs (omega arith) h.1)
  rows-taken (false ∷ w) (f ∷ fs) (c ∷ cs) e h = rows-taken w fs cs (omega arith) h.1

  rows-left :
      (w : List Bool) (fs : List ℤ) (costs : List (RcData D))
      → length w ≡ length fs
      → NonZero fs
      → rows is_left (items_of fl mode (chosen w fs) costs) ≡ left fl w costs
  unfolding items_of chosen
  rows-left [] [] costs e h = refl
  rows-left [] (f ∷ fs) costs e h = absurd (omega arith)
  rows-left (b ∷ w) [] costs e h = absurd (omega arith)
  rows-left (true ∷ w) (f ∷ fs) [] e h = refl
  rows-left (false ∷ w) (f ∷ fs) [] e h = refl
  rows-left (true ∷ w) (f ∷ fs) (c ∷ cs) e h =
      rows_no is_left _ (items_of fl mode (chosen w fs) cs)
        (ap (λ b. not (not b)) (not_zero fl f h.0))
      ∙ rows-left w fs cs (omega arith) h.1
  rows-left (false ∷ w) (f ∷ fs) (c ∷ cs) e h =
      ap (λ t. c ∷ t) (rows-left w fs cs (omega arith) h.1)

  map-append :
      (us vs : List (Item D))
      → map (rc_of fl mode) (us ++ vs) ≡ map (rc_of fl mode) us ++ map (rc_of fl mode) vs
  map-append [] vs = refl
  map-append (u ∷ us) vs = ap (λ t. rc_of fl mode u ∷ t) (map-append us vs)

  rows_first :
      (s : List (Item D)) (p : Split fl mode s) → rows is_taken s ≡ map (rc_of fl mode) p.first
  rows_first s p =
      ap (rows is_taken) p.whole
      ∙ rows-append is_taken p.first p.last
      ∙ ap (λ t. rows is_taken p.first ++ t) (rows_none is_taken p.last p.last_left)
      ∙ append-nil (rows is_taken p.first)
      ∙ rows_every is_taken p.first p.first_chosen

  rows_last :
      (s : List (Item D)) (p : Split fl mode s) → rows is_left s ≡ map (rc_of fl mode) p.last
  rows_last s p =
      ap (rows is_left) p.whole
      ∙ rows-append is_left p.first p.last
      ∙ ap (λ t. t ++ rows is_left p.last)
          (rows_none is_left p.first (
            All-map (IsChosen fl mode) (λ i. is_left i ≡ false) (λ i e. ap not e) p.first
              p.first_chosen))
      ∙ rows_every is_left p.last
          (All-map (IsLeft fl mode) (λ i. is_left i ≡ true) (λ i e. ap not e) p.last p.last_left)

  -- The reduced costs that a choice takes, in some order, then the others, and the position of the last
  -- one that is taken: -1 if there is none, and the number of all if all are taken.
  pub record Ordering (w : List Bool) (costs : List (RcData D)) (r : ℤ × List (RcData D))
      : Type 0 where
    pub first : List (RcData D)
    pub last : List (RcData D)
    pub whole : r.1 ≡ first ++ last
    pub first_taken : Permᴰ first (taken fl w costs)
    pub last_left : Permᴰ last (left fl w costs)
    pub selected : IsSelected r.0 (length first) (length last)

  -- The result of `solve` for a choice.
  abbrev pub result_of : List ℤ → List (RcData D) → ℤ × List (RcData D)
  result_of choice costs =
      let items = sort_by (item_lt fl mode) (items_of fl mode choice costs) in
      (selected_of fl mode items, map (rc_of fl mode) items)

  pub result_of-Ordering :
      (w : List Bool) (fs : List ℤ) (costs : List (RcData D))
      → length w ≡ length fs
      → NonZero fs
      → Ordering w costs (result_of (chosen w fs) costs)
  result_of-Ordering w fs costs e h =
      let before = items_of fl mode (chosen w fs) costs in
      let items = sort_by (item_lt fl mode) before in
      let p = sort_by-Split fl mode before in
      let moved = sort_by-permᴰ (item_lt fl mode) before in
      record {
        first = map (rc_of fl mode) p.first;
        last = map (rc_of fl mode) p.last;
        whole = ap (map (rc_of fl mode)) p.whole ∙ map-append p.first p.last;
        first_taken =
            subst (λ t. Permᴰ t (taken fl w costs)) (rows_first items p)
              (subst (Permᴰ (rows is_taken items)) (rows-taken w fs costs e h)
                (rows-permᴰ is_taken moved));
        last_left =
            subst (λ t. Permᴰ t (left fl w costs)) (rows_last items p)
              (subst (Permᴰ (rows is_left items)) (rows-left w fs costs e h)
                (rows-permᴰ is_left moved));
        selected =
            subst
              (λ n. IsSelected (selected_of fl mode items) n (length (map (rc_of fl mode) p.last)))
              (sym (length-map p.first (rc_of fl mode)))
              (subst (λ n. IsSelected (selected_of fl mode items) (length p.first) n)
                (sym (length-map p.last (rc_of fl mode)))
                (subst (λ t. IsSelected (selected_of fl mode t) (length p.first) (length p.last))
                  (sym p.whole)
                  (selected_of-IsSelected fl mode p.first p.last p.first_chosen p.last_left)));
      }
