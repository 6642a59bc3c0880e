-- ===== src/BitArray/Bits.antt =====
-- The bits of an array (lib/src/bit-array.hpp) after each operation that changes it.
use baryonyx.Base.{
  ℕ, zero, suc, ◌+◌, ◌<◌, ◌/◌, ◌≡◌, ◌≢◌, refl, sym, ap, ◌∙◌, subst, Bool, true, false, List, [],
  ◌∷◌, ◌&&◌, ◌||◌, not, if◌then◌else◌, ◌==◌, length, length-modify, length-replicate, get_or,
  modify, replicate, All, arith, get_or-modify_self, Bool-cases, inl, inr,
}
use baryonyx.BitArray.{
  Word, BitArray, zip_with, xor, complement, k_zeros, b_index, b_offset, mask, block, make, set_bit,
  set_value, unset, invert, get, word_of_bool,
}
use baryonyx.BitArray.Words.{
  mask-unit, unit_word, zip_or-unit, zip_and-unit, zip_xor-unit, is_nonzero-unit, zip_xor-write,
}

abbrev IsBlock : Word → Type 0
IsBlock w = length w ≡ 64

-- Blocks of 64 bits, one more than the size fills.
pub record IsValid (a : BitArray) : Type 0 where
  pub blocks : All IsBlock a.m_data
  pub enough : length a.m_data ≡ a.m_size / 64 + 1

length-unit_word : (n off : ℕ) → length (unit_word n off) ≡ n
unfolding unit_word
length-unit_word zero off = refl
length-unit_word (suc n) zero = ap suc (length-replicate n false)
length-unit_word (suc n) (suc off) = ap suc (length-unit_word n off)

pub get_or-modify_other {ℓ} :
    {A : Type ℓ} (xs : List A) (i j : ℕ) (f : A → A) (d : A)
    → i ≢ j
    → get_or (modify xs i f) j d ≡ get_or xs j d
get_or-modify_other [] i j f d h = refl
get_or-modify_other (x ∷ xs) zero zero f d h = absurd (h refl)
get_or-modify_other (x ∷ xs) zero (suc j) f d h = refl
get_or-modify_other (x ∷ xs) (suc i) zero f d h = refl
get_or-modify_other (x ∷ xs) (suc i) (suc j) f d h =
    get_or-modify_other xs i j f d (λ e. h (ap suc e))

All-get_or :
    {A : Type 0} (P : A → Type 0) (xs : List A) (i : ℕ) (d : A) → All P xs → P d → P (get_or xs i d)
All-get_or P [] i d h p = p
All-get_or P (x ∷ xs) zero d h p = h.0
All-get_or P (x ∷ xs) (suc i) d h p = All-get_or P xs i d h.1 p

All-modified :
    {A : Type 0} (P : A → Type 0) (xs : List A) (i : ℕ) (f : A → A)
    → ((a : A) → P a → P (f a))
    → All P xs
    → All P (modify xs i f)
All-modified P [] i f h k = tt
All-modified P (x ∷ xs) zero f h k = (h x k.0, k.1)
All-modified P (x ∷ xs) (suc i) f h k = (k.0, All-modified P xs i f h k.1)

-- A bit of the array, as its blocks are stored.
abbrev bit_at : BitArray → ℕ → Bool
bit_at a j = get_or (block a (b_index j)) (b_offset j) false

block-IsBlock : (a : BitArray) (i : ℕ) → IsValid a → IsBlock (block a i)
block-IsBlock a i h = All-get_or IsBlock a.m_data i k_zeros h.blocks (length-replicate 64 false)

pub get-bit_at : (a : BitArray) (j : ℕ) → IsValid a → get a j ≡ bit_at a j
unfolding get
get-bit_at a j h =
    let w = block a (b_index j) in
    let e =
      subst (λ n. mask j ≡ unit_word n (b_offset j)) (sym (block-IsBlock a (b_index j) h))
        (mask-unit j) in
    rw e (is_nonzero-unit w (b_offset j))

-- A write of one bit: a function of each block that changes the bit at the offset only.
abbrev written : BitArray → ℕ → (Word → Word) → BitArray
written a i g = record a { m_data = modify a.m_data (b_index i) g }

module _ (a : BitArray) (i : ℕ) (g : Word → Word) (f : Bool → Bool) (valid : IsValid a)
    (below : i < a.m_size) (writes : (w : Word) → IsBlock w → g w ≡ modify w (b_offset i) f) where
  written-IsValid : IsValid (written a i g)
  written-IsValid = record {
    blocks =
        All-modified IsBlock a.m_data (b_index i) g
          (λ w h. ap length (writes w h) ∙ length-modify w (b_offset i) f ∙ h) valid.blocks;
    enough = length-modify a.m_data (b_index i) g ∙ valid.enough;
  }

  in_block :
      (j : ℕ)
      → b_index i ≡ b_index j
      → block (written a i g) (b_index j) ≡ modify (block a (b_index j)) (b_offset i) f
  in_block j same =
      let size = valid.enough in
      subst
        (λ q.
          get_or (modify a.m_data (b_index i) g) q k_zeros
          ≡ modify (get_or a.m_data q k_zeros) (b_offset i) f)
        same
        (get_or-modify_self a.m_data (b_index i) g k_zeros (omega arith)
          ∙ writes (block a (b_index i)) (block-IsBlock a (b_index i) valid))

  written-bit_at :
      (j : ℕ) → bit_at (written a i g) j ≡ (if i == j then f (bit_at a j) else bit_at a j)
  written-bit_at j = elim (Bool-cases (b_index i == b_index j)) [
    | inl t ↦
        let same : b_index i ≡ b_index j = ground arith in
        let w = block a (b_index j) in
        let full = block-IsBlock a (b_index j) valid in
        elim (Bool-cases (i == j)) [
          | inl e ↦
              let off : b_offset i ≡ b_offset j = ground arith in
              rw e (
                rw (in_block j same) (
                  subst (λ o. get_or (modify w (b_offset i) f) o false ≡ f (get_or w o false)) off
                    (get_or-modify_self w (b_offset i) f false (omega arith))))
          | inr n ↦ rw n (
              rw (in_block j same)
                (get_or-modify_other w (b_offset i) (b_offset j) f false (λ o. ground arith)))
        ]
    | inr n ↦
        let apart : b_index i ≢ b_index j = λ e. ground arith in
        let differ : (i == j) ≡ false = ground arith in
        rw differ (
          ap (λ w. get_or w (b_offset j) false)
            (get_or-modify_other a.m_data (b_index i) (b_index j) g k_zeros apart))
  ]

  get-written : (j : ℕ) → get (written a i g) j ≡ (if i == j then f (get a j) else get a j)
  get-written j =
      get-bit_at (written a i g) j written-IsValid
      ∙ written-bit_at j
      ∙ ap (λ b. if i == j then f b else b) (sym (get-bit_at a j valid))

mask-of_block : (w : Word) (i : ℕ) → IsBlock w → mask i ≡ unit_word (length w) (b_offset i)
mask-of_block w i h = subst (λ n. mask i ≡ unit_word n (b_offset i)) (sym h) (mask-unit i)

module _ (a : BitArray) (i : ℕ) (valid : IsValid a) (below : i < a.m_size) where
  raise_mask :
      (w : Word)
      → IsBlock w
      → zip_with (λ p q. p || q) w (mask i) ≡ modify w (b_offset i) (λ b. true)
  raise_mask w h = rw (mask-of_block w i h) (zip_or-unit w (b_offset i))

  clear_mask :
      (w : Word)
      → IsBlock w
      → zip_with (λ p q. p && q) w (complement (mask i)) ≡ modify w (b_offset i) (λ b. false)
  clear_mask w h = rw (mask-of_block w i h) (zip_and-unit w (b_offset i))

  flip_mask : (w : Word) → IsBlock w → zip_with xor w (mask i) ≡ modify w (b_offset i) not
  flip_mask w h = rw (mask-of_block w i h) (zip_xor-unit w (b_offset i))

  write_mask :
      (v : Bool) (w : Word)
      → IsBlock w
      → zip_with xor w (zip_with (λ p q. p && q) (zip_with xor (word_of_bool v) w) (mask i))
        ≡ modify w (b_offset i) (λ b. get_or (word_of_bool v) (b_offset i) false)
  write_mask v w h =
      rw (mask-of_block w i h) (zip_xor-write w (word_of_bool v) (b_offset i) (sym h))

  -- After `set`, `unset` and `invert` of an index, `get` returns 1, 0 or the other value there, and
  -- what it returned before at every other index. The array is valid and has the index.
  pub get_after_write :
      (j : ℕ)
      → (get (set_bit a i) j ≡ (if i == j then true else get a j))
        × (get (unset a i) j ≡ (if i == j then false else get a j))
        × (get (invert a i) j ≡ (if i == j then not (get a j) else get a j))
  unfolding set_bit unset invert
  get_after_write j = (
    get-written a i _ (λ b. true) valid below raise_mask j,
    get-written a i _ (λ b. false) valid below clear_mask j,
    get-written a i _ not valid below flip_mask j,
  )

  -- `set(index, val)` writes the value at the first index of a block, and 0 at every other index:
  -- only the lowest bit of the converted `bool` is ever 1. The other indices keep their values. The
  -- array is valid and has the index.
  pub get-set_value :
      (v : Bool) (j : ℕ)
      → get (set_value a i v) j ≡ (if i == j then v && (b_offset i == 0) else get a j)
  unfolding set_value
  get-set_value v j =
      get-written a i _ (λ b. get_or (word_of_bool v) (b_offset i) false) valid below (write_mask v)
        j
      ∙ ap (λ t. if i == j then t else get a j) (low_bit v (b_offset i))
    where
      zeros_at : (n k : ℕ) → get_or (replicate n false) k false ≡ false
      zeros_at zero k = refl
      zeros_at (suc n) zero = refl
      zeros_at (suc n) (suc k) = zeros_at n k

      and_later : (b : Bool) (k : ℕ) → b && (suc k == 0) ≡ false
      and_later true k = ground arith
      and_later false k = refl

      and_true : (b : Bool) → b && true ≡ b
      and_true true = refl
      and_true false = refl

      low_bit : (b : Bool) (k : ℕ) → get_or (word_of_bool b) k false ≡ b && (k == 0)
      low_bit b zero = sym (and_true b)
      low_bit b (suc k) = zeros_at 63 k ∙ sym (and_later b k)

  -- Each write of a bit keeps the array valid: the blocks are full, and there are as many as before. The
  -- array is valid before and has the index.
  pub writes_keep-IsValid :
      (v : Bool)
      → IsValid (set_bit a i)
        × IsValid (unset a i)
        × IsValid (invert a i)
        × IsValid (set_value a i v)
  unfolding set_bit unset invert set_value
  writes_keep-IsValid v = (
    written-IsValid a i _ (λ b. true) valid below raise_mask,
    written-IsValid a i _ (λ b. false) valid below clear_mask,
    written-IsValid a i _ not valid below flip_mask,
    written-IsValid a i _ (λ b. get_or (word_of_bool v) (b_offset i) false) valid below
        (write_mask v),
  )

All-replicate : {A : Type 0} (P : A → Type 0) (n : ℕ) (a : A) → P a → All P (replicate n a)
All-replicate P zero a h = tt
All-replicate P (suc n) a h = (h, All-replicate P n a h)

-- A new array is valid.
pub make-IsValid : (size : ℕ) → IsValid (make size)
unfolding make
make-IsValid size = record {
  blocks = All-replicate IsBlock (size / 64 + 1) k_zeros (length-replicate 64 false);
  enough = length-replicate (size / 64 + 1) k_zeros;
}
