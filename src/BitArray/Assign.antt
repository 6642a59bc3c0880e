-- ===== src/BitArray/Assign.antt =====
-- What `assign` of lib/src/bit-array.hpp does with the blocks between those of its bounds.
use baryonyx.Base.{
  true, ℕ, zero, suc, ◌+◌, ◌-◌, ◌<◌, ◌≡◌, ◌≢◌, refl, ◌∙◌, false, List, [], ◌∷◌, ◌&&◌, ◌||◌,
  if◌then◌else◌, ◌==◌, ltb, leb, length, length-modify, get_or, arith, Bool-cases, inl, inr, some,
  ◌≤◌, ◌/◌,
}
use baryonyx.BitArray.{
  assign_blocks, Word, BitArray, k_zeros, b_index, b_offset, block, assign, assign_from, assign_to,
  copy_blocks,
}
use baryonyx.BitArray.Bits.{IsValid, get_or-modify_other}

copy_blocks-get_or :
    (ws vs : List Word) (i n k : ℕ)
    → length ws ≡ length vs
    → get_or (copy_blocks ws vs i n) k k_zeros
      ≡ (if leb i k && ltb k (i + n) then get_or vs k k_zeros else get_or ws k k_zeros)
unfolding copy_blocks
copy_blocks-get_or [] [] i n k h = ground arith
copy_blocks-get_or [] (v ∷ vs) i n k h = absurd (omega arith)
copy_blocks-get_or (w ∷ ws) [] i n k h = absurd (omega arith)
copy_blocks-get_or (w ∷ ws) (v ∷ vs) zero zero k h = ground arith
copy_blocks-get_or (w ∷ ws) (v ∷ vs) zero (suc n) zero h = ground arith
copy_blocks-get_or (w ∷ ws) (v ∷ vs) zero (suc n) (suc k) h =
    copy_blocks-get_or ws vs zero n k (omega arith) ∙ ground arith
copy_blocks-get_or (w ∷ ws) (v ∷ vs) (suc i) n zero h = ground arith
copy_blocks-get_or (w ∷ ws) (v ∷ vs) (suc i) n (suc k) h =
    copy_blocks-get_or ws vs i n k (omega arith) ∙ ground arith

module _ (a other : BitArray) (k : ℕ) where
  block-assign_from : (from : ℕ) → b_index from ≢ k → block (assign_from a other from) k ≡ block a k
  unfolding assign_from
  block-assign_from from h = elim (Bool-cases (b_offset from == 0)) [
    | inl t ↦ rw t refl
    | inr f ↦ rw f (get_or-modify_other a.m_data (b_index from) k _ k_zeros h)
  ]

  block-assign_to : (to : ℕ) → b_index to ≢ k → block (assign_to a other to) k ≡ block a k
  unfolding assign_to
  block-assign_to to h = elim (Bool-cases (b_offset to == 0)) [
    | inl t ↦ rw t refl
    | inr f ↦ rw f (get_or-modify_other a.m_data (b_index to) k _ k_zeros h)
  ]

length-assign_from :
    (a other : BitArray) (from : ℕ) → length (assign_from a other from).m_data ≡ length a.m_data
unfolding assign_from
length-assign_from a other from = elim (Bool-cases (b_offset from == 0)) [
  | inl t ↦ rw t refl
  | inr f ↦ rw f (length-modify a.m_data (b_index from) _)
]

length-assign_to :
    (a other : BitArray) (to : ℕ) → length (assign_to a other to).m_data ≡ length a.m_data
unfolding assign_to
length-assign_to a other to = elim (Bool-cases (b_offset to == 0)) [
  | inl t ↦ rw t refl
  | inr f ↦ rw f (length-modify a.m_data (b_index to) _)
]

abbrev lo_of : ℕ → ℕ → ℕ
lo_of index offset = if offset == 0 then index else suc index

abbrev hi_of : ℕ → ℕ → ℕ
hi_of index offset = if offset == 0 then index else index - 1

-- The blocks of `copy_n` between the two bounds.
copied_between :
    (fi fo ti to_offset k : ℕ) (u v w : Word)
    → fi < k
    → k < ti
    → w ≡ v
    → (if leb (lo_of fi fo) k && ltb k (lo_of fi fo + (hi_of ti to_offset - lo_of fi fo))
        then u
        else w)
      ≡ (if (to_offset == 0) || ltb (suc k) ti then u else v)
copied_between fi fo ti to_offset k u v w above below e = ground arith

copied_none :
    (fi fo ti to_offset k : ℕ) (u v : Word)
    → fi < k
    → k < ti
    → ltb (lo_of fi fo) (hi_of ti to_offset) ≡ false
    → v ≡ (if (to_offset == 0) || ltb (suc k) ti then u else v)
copied_none fi fo ti to_offset k u v above below e = ground arith

block-assign_blocks :
    (a other : BitArray) (from to k : ℕ)
    → IsValid a
    → IsValid other
    → a.m_size ≡ other.m_size
    → b_index from < k
    → k < b_index to
    → block (assign_blocks a other from to) k
      ≡ (if (b_offset to == 0) || ltb (suc k) (b_index to) then block other k else block a k)
unfolding assign_blocks
block-assign_blocks a other from to k valid valid_other same above below =
    let b = assign_to (assign_from a other from) other to in
    let lo = lo_of (b_index from) (b_offset from) in
    let hi = hi_of (b_index to) (b_offset to) in
    let kept : block b k ≡ block a k =
      block-assign_to (assign_from a other from) other k to (λ e. omega arith)
      ∙ block-assign_from a other k from (λ e. omega arith) in
    let n = valid.enough in
    let m = valid_other.enough in
    let long : length b.m_data ≡ length other.m_data =
      length-assign_to (assign_from a other from) other to
      ∙ length-assign_from a other from
      ∙ omega arith in
    elim (Bool-cases (ltb lo hi)) [
      | inl t ↦ rw t (
          copy_blocks-get_or b.m_data other.m_data lo (hi - lo) k long
          ∙ copied_between (b_index from) (b_offset from) (b_index to) (b_offset to) k _ _ _ above
              below kept)
      | inr f ↦ rw f (
          kept
          ∙ copied_none (b_index from) (b_offset from) (b_index to) (b_offset to) k _ _ above below
              f)
    ]

asserted :
    (from to n m : ℕ)
    → n ≡ m
    → from / 64 < to / 64
    → to ≤ n
    → ((m == n) && (ltb from to && (ltb from n && leb to n))) ≡ true
asserted from to n m same above inside = let less : from < to = omega arith in ground arith

-- Between the block of `from` and that of `to`, `assign` takes the blocks of the other array, but for
-- the last one: if `to` is not at the start of a block, the block before that of `to` stays as it
-- was. Both arrays are valid and have the same size, and `to` is at most that size: then the assertions
-- hold.
pub block-assign :
    (a other : BitArray) (from to k : ℕ)
    → IsValid a
    → IsValid other
    → a.m_size ≡ other.m_size
    → to ≤ a.m_size
    → b_index from < k
    → k < b_index to
    → (b : BitArray) × ((assign a other from to ≡ some b)
        × (block b k ≡ (
            if (b_offset to == 0) || ltb (suc k) (b_index to) then block other k else block a k)))
unfolding assign
block-assign a other from to k valid valid_other same inside above below = (
  assign_blocks a other from to,
  (
    rw (asserted from to a.m_size other.m_size same (omega arith) inside) refl,
    block-assign_blocks a other from to k valid valid_other same above below,
  ),
)
