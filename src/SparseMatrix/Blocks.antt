-- ===== src/SparseMatrix/Blocks.antt =====
-- Lists in the order of a key (lib/src/sparse-matrix.hpp): the block of each key.
use baryonyx.Base.{
  ℕ, zero, suc, ◌+◌, ◌-◌, ◌<◌, ◌≤◌, ◌≡◌, ◌≢◌, refl, sym, ap, ap₂, subst, ◌∙◌, false, List, [], ◌∷◌,
  ◌==◌, ==_iff, inl, inr, arith, length, get_or, take, drop, count, Bool-cases,
}
use baryonyx.SparseMatrix.{access_from, slice}
use baryonyx.SparseMatrix.Runs.{Ascending}
use baryonyx.SparseMatrix.Sorted.{with_key, keys}

module _ {A : Type 0} (key : A → ℕ) where
  count_below : (b k : ℕ) (ks : List ℕ) → b < k → Ascending k ks → count b ks ≡ 0
  count_below b k [] h asc = refl
  count_below b k (i ∷ ks) h asc = ground (arith, count_below b i ks (omega arith) asc.1)

  pub with_key-above :
      (b k : ℕ) (xs : List A) → b < k → Ascending k (keys key xs) → with_key key b xs ≡ []
  with_key-above b k [] h asc = refl
  with_key-above b k (x ∷ xs) h asc =
      let other : (key x == b) ≡ false = ground arith in
      rw other (with_key-above b (key x) xs (omega arith) asc.1)

  -- The `n` entries with the lowest key come first; behind them are the others.
  record LowBlock (b n : ℕ) (xs : List A) : Type 0 where
    pub block : take n xs ≡ with_key key b xs
    pub above : Ascending (suc b) (keys key (drop n xs))
    pub counts : (j : ℕ) → j ≢ b → count j (keys key (drop n xs)) ≡ count j (keys key xs)
    pub others : (j : ℕ) → j ≢ b → with_key key j (drop n xs) ≡ with_key key j xs

  low_block :
      (b : ℕ) (xs : List A) → Ascending b (keys key xs) → LowBlock b (count b (keys key xs)) xs
  low_block b [] asc = record {
    block = refl;
    above = tt;
    counts = λ j h. refl;
    others = λ j h. refl;
  }
  low_block b (x ∷ xs) asc = elim (Bool-cases (key x == b)) [
    | inl e ↦
        let same : key x ≡ b = (==_iff (key x) b).0 e in
        let low = low_block b xs (subst (λ k. Ascending k (keys key xs)) same asc.1) in
        let one_more : suc (count b (keys key xs)) ≡ count b (keys key (x ∷ xs)) = ground arith in
        subst (λ n. LowBlock b n (x ∷ xs)) one_more
          (record {
            block = rw e (ap (λ rest. x ∷ rest) low.block);
            above = low.above;
            counts = λ j h. ground (arith, low.counts j h);
            others =
                λ j h. let other : (key x == j) ≡ false = ground arith in rw other (low.others j h);
          })
    | inr e ↦
        let less : b < key x = ground arith in
        let none_here : 0 ≡ count b (keys key (x ∷ xs)) =
          ground (arith, count_below b (key x) (keys key xs) less asc.1) in
        subst (λ n. LowBlock b n (x ∷ xs)) none_here
          (record {
            block = rw e (sym (with_key-above b (key x) xs less asc.1));
            above = (less, asc.1);
            counts = λ j h. refl;
            others = λ j h. refl;
          })
  ]

  access_from_head : (s : ℕ) (cs : List ℕ) → get_or (access_from s cs) 0 0 ≡ s
  unfolding access_from
  access_from_head s [] = refl
  access_from_head s (c ∷ cs) = refl

  access_from_ge : (s : ℕ) (cs : List ℕ) (j : ℕ) → j ≤ length cs → s ≤ get_or (access_from s cs) j 0
  unfolding access_from
  access_from_ge s [] zero h = omega arith
  access_from_ge s [] (suc j) h = absurd (omega arith)
  access_from_ge s (c ∷ cs) zero h = omega arith
  access_from_ge s (c ∷ cs) (suc j) h = omega (arith, access_from_ge (s + c) cs j (omega arith))

  drop_nil : (n : ℕ) → drop {A = A} n [] ≡ []
  drop_nil zero = refl
  drop_nil (suc n) = refl

  same : (m k : ℕ) → k ≡ 0 + m → m ≡ k
  same m k e = omega arith

  drop-drop : (m n k : ℕ) (xs : List A) → k ≡ n + m → drop m (drop n xs) ≡ drop k xs
  drop-drop m zero k xs e = ap (λ i. drop i xs) (same m k e)
  drop-drop m (suc n) k [] e = drop_nil m ∙ sym (drop_nil k)
  drop-drop m (suc n) zero (x ∷ xs) e = absurd (omega arith)
  drop-drop m (suc n) (suc k) (x ∷ xs) e = drop-drop m n k xs (omega arith)

  add_zero : (n : ℕ) → n + 0 ≡ n
  add_zero n = omega arith

  zero_plus : (n : ℕ) → n ≡ 0 + n
  zero_plus n = omega arith

  minus_zero : (n : ℕ) → n ≡ n - 0
  minus_zero n = omega arith

  add_suc : (m n : ℕ) → m + suc n ≡ suc m + n
  add_suc m n = omega arith

  -- Where the entries of the key `b + j` start, and where they end.
  abbrev Sliced : ℕ → ℕ → List A → List ℕ → ℕ → Type 0
  Sliced s b xs cs j =
      take (get_or (access_from s cs) (suc j) 0 - get_or (access_from s cs) j 0)
        (drop (get_or (access_from s cs) j 0 - s) xs)
      ≡ with_key key (b + j) xs

  first_block :
      (b : ℕ) (xs : List A) (c : ℕ)
      → Ascending b (keys key xs)
      → c ≡ count (b + 0) (keys key xs)
      → LowBlock b c xs
  first_block b xs c asc e =
      subst (λ n. LowBlock b n xs) (ap (λ i. count i (keys key xs)) (sym (add_zero b)) ∙ sym e)
        (low_block b xs asc)

  slice_from :
      (s b : ℕ) (xs : List A) (cs : List ℕ) (j : ℕ)
      → Ascending b (keys key xs)
      → ((i : ℕ) → i < length cs → get_or cs i 0 ≡ count (b + i) (keys key xs))
      → j < length cs
      → Sliced s b xs cs j
  unfolding access_from
  slice_from s b xs [] j asc counts h = absurd (omega arith)
  slice_from s b xs (c ∷ cs) zero asc counts h =
      let low = first_block b xs c asc (counts 0 h) in
      let n : get_or (access_from (s + c) cs) 0 0 - s ≡ c =
        omega (arith, access_from_head (s + c) cs) in
      let m : s - s ≡ 0 = omega arith in
      ap₂ (λ i k. take i (drop k xs)) n m
      ∙ low.block
      ∙ ap (λ i. with_key key i xs) (sym (add_zero b))
  slice_from s b xs (c ∷ cs) (suc j) asc counts h =
      let low = first_block b xs c asc (counts 0 (omega arith)) in
      let start = get_or (access_from (s + c) cs) j 0 in
      let size = get_or (access_from (s + c) cs) (suc j) 0 - start in
      let shifted : start - s ≡ c + (start - (s + c)) =
        omega (arith, access_from_ge (s + c) cs j (omega arith)) in
      let next : suc b + j ≡ b + suc j = omega arith in
      let rest =
        slice_from (s + c) (suc b) (drop c xs) cs j low.above
          (λ i k.
            counts (suc i) (omega arith)
            ∙ ap (λ t. count t (keys key xs)) (add_suc b i)
            ∙ sym (low.counts (suc b + i) (λ e. omega arith)))
          (omega arith) in
      ap (take size) (sym (drop-drop (start - (s + c)) c (start - s) xs shifted))
      ∙ rest
      ∙ low.others (suc b + j) (λ e. omega arith)
      ∙ ap (λ i. with_key key i xs) next

  -- The slices of a list in the order of its keys, by the counts of the keys.
  pub slice-with_key :
      (xs : List A) (cs : List ℕ) (j : ℕ)
      → Ascending 0 (keys key xs)
      → ((i : ℕ) → i < length cs → get_or cs i 0 ≡ count i (keys key xs))
      → j < length cs
      → slice (get_or (access_from 0 cs) j 0) (get_or (access_from 0 cs) (suc j) 0) xs
        ≡ with_key key j xs
  slice-with_key xs cs j asc counts h =
      ap
        (λ m.
          take (get_or (access_from 0 cs) (suc j) 0 - get_or (access_from 0 cs) j 0) (drop m xs))
        (minus_zero (get_or (access_from 0 cs) j 0))
      ∙ slice_from 0 0 xs cs j asc
          (λ i k. counts i k ∙ ap (λ t. count t (keys key xs)) (zero_plus i)) h
      ∙ ap (λ t. with_key key t xs) (sym (zero_plus j))
