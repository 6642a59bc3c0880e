-- ===== src/BitArray/Words.antt =====
-- The operations on one block of lib/src/bit-array.hpp, with a mask of one bit.
use baryonyx.Base.{
  ℕ, zero, suc, ◌+◌, ◌<◌, ◌≤◌, ◌≡◌, refl, ap, ap₂, Bool, true, false, [], ◌∷◌, ◌++◌, ◌&&◌, ◌||◌,
  not, length, get_or, modify, replicate, take, arith,
}
use baryonyx.BitArray.{Word, zip_with, xor, complement, is_nonzero, shift_left, mask, b_offset}

-- A word of `n` bits with one bit set.
unfoldable pub unit_word : ℕ → ℕ → Word
unit_word zero off = []
unit_word (suc n) zero = true ∷ replicate n false
unit_word (suc n) (suc off) = false ∷ unit_word n off

take-replicate : (n m : ℕ) (b : Bool) → n ≤ m → take n (replicate m b) ≡ replicate n b
take-replicate zero m b h = refl
take-replicate (suc n) zero b h = absurd (omega arith)
take-replicate (suc n) (suc m) b h = ap (λ t. b ∷ t) (take-replicate n m b (omega arith))

shifted_unit :
    (n m off : ℕ)
    → off < n
    → n ≤ off + suc m
    → take n (replicate off false ++ true ∷ replicate m false) ≡ unit_word n off
unfolding unit_word
shifted_unit zero m off h k = absurd (omega arith)
shifted_unit (suc n) m zero h k = ap (λ t. true ∷ t) (take-replicate n m false (omega arith))
shifted_unit (suc n) m (suc off) h k =
    ap (λ t. false ∷ t) (shifted_unit n m off (omega arith) (omega arith))

pub mask-unit : (index : ℕ) → mask index ≡ unit_word 64 (b_offset index)
unfolding mask shift_left
mask-unit index = shifted_unit 64 63 (b_offset index) (omega arith) (omega arith)

-- With a word of zeros the operations keep the other word, or give zeros.
zip_or-zeros : (w : Word) → zip_with (λ p q. p || q) w (replicate (length w) false) ≡ w
zip_or-zeros [] = refl
zip_or-zeros (true ∷ w) = ap (λ t. true ∷ t) (zip_or-zeros w)
zip_or-zeros (false ∷ w) = ap (λ t. false ∷ t) (zip_or-zeros w)

zip_xor-zeros : (w : Word) → zip_with xor w (replicate (length w) false) ≡ w
zip_xor-zeros [] = refl
zip_xor-zeros (true ∷ w) = ap (λ t. true ∷ t) (zip_xor-zeros w)
zip_xor-zeros (false ∷ w) = ap (λ t. false ∷ t) (zip_xor-zeros w)

zip_and-ones : (w : Word) → zip_with (λ p q. p && q) w (complement (replicate (length w) false)) ≡ w
zip_and-ones [] = refl
zip_and-ones (true ∷ w) = ap (λ t. true ∷ t) (zip_and-ones w)
zip_and-ones (false ∷ w) = ap (λ t. false ∷ t) (zip_and-ones w)

is_nonzero-zip_zeros :
    (w : Word) → is_nonzero (zip_with (λ p q. p && q) w (replicate (length w) false)) ≡ false
is_nonzero-zip_zeros [] = refl
is_nonzero-zip_zeros (true ∷ w) = is_nonzero-zip_zeros w
is_nonzero-zip_zeros (false ∷ w) = is_nonzero-zip_zeros w

-- What each operation does with a mask of one bit.
pub zip_or-unit :
    (w : Word) (off : ℕ)
    → zip_with (λ p q. p || q) w (unit_word (length w) off) ≡ modify w off (λ b. true)
unfolding unit_word
zip_or-unit [] off = refl
zip_or-unit (true ∷ w) zero = ap (λ t. true ∷ t) (zip_or-zeros w)
zip_or-unit (false ∷ w) zero = ap (λ t. true ∷ t) (zip_or-zeros w)
zip_or-unit (true ∷ w) (suc off) = ap (λ t. true ∷ t) (zip_or-unit w off)
zip_or-unit (false ∷ w) (suc off) = ap (λ t. false ∷ t) (zip_or-unit w off)

pub zip_and-unit :
    (w : Word) (off : ℕ)
    → zip_with (λ p q. p && q) w (complement (unit_word (length w) off)) ≡ modify w off (λ b. false)
unfolding unit_word
zip_and-unit [] off = refl
zip_and-unit (true ∷ w) zero = ap (λ t. false ∷ t) (zip_and-ones w)
zip_and-unit (false ∷ w) zero = ap (λ t. false ∷ t) (zip_and-ones w)
zip_and-unit (true ∷ w) (suc off) = ap (λ t. true ∷ t) (zip_and-unit w off)
zip_and-unit (false ∷ w) (suc off) = ap (λ t. false ∷ t) (zip_and-unit w off)

pub zip_xor-unit :
    (w : Word) (off : ℕ) → zip_with xor w (unit_word (length w) off) ≡ modify w off not
unfolding unit_word
zip_xor-unit [] off = refl
zip_xor-unit (true ∷ w) zero = ap (λ t. false ∷ t) (zip_xor-zeros w)
zip_xor-unit (false ∷ w) zero = ap (λ t. true ∷ t) (zip_xor-zeros w)
zip_xor-unit (true ∷ w) (suc off) = ap (λ t. true ∷ t) (zip_xor-unit w off)
zip_xor-unit (false ∷ w) (suc off) = ap (λ t. false ∷ t) (zip_xor-unit w off)

pub is_nonzero-unit :
    (w : Word) (off : ℕ)
    → is_nonzero (zip_with (λ p q. p && q) w (unit_word (length w) off)) ≡ get_or w off false
unfolding unit_word
is_nonzero-unit [] off = refl
is_nonzero-unit (true ∷ w) zero = refl
is_nonzero-unit (false ∷ w) zero = is_nonzero-zip_zeros w
is_nonzero-unit (true ∷ w) (suc off) = is_nonzero-unit w off
is_nonzero-unit (false ∷ w) (suc off) = is_nonzero-unit w off

-- `ref ^ ((c ^ ref) & mask)` writes the bit of `c` that the mask has.
pub zip_xor-write :
    (w c : Word) (off : ℕ)
    → length c ≡ length w
    → zip_with xor w (zip_with (λ p q. p && q) (zip_with xor c w) (unit_word (length w) off))
      ≡ modify w off (λ b. get_or c off false)
unfolding unit_word
zip_xor-write [] c off h = refl
zip_xor-write (b ∷ w) [] off h = absurd (omega arith)
zip_xor-write (b ∷ w) (d ∷ c) zero h =
    ap₂ (λ a t. a ∷ t) (flip_to b d) (and_zeros w c (omega arith))
  where
    flip_to : (p q : Bool) → xor p (xor q p && true) ≡ q
    flip_to true true = refl
    flip_to true false = refl
    flip_to false true = refl
    flip_to false false = refl

    same : (p q : Bool) → xor p (xor q p && false) ≡ p
    same true true = refl
    same true false = refl
    same false true = refl
    same false false = refl

    and_zeros :
        (u v : Word)
        → length v ≡ length u
        → zip_with xor u (zip_with (λ p q. p && q) (zip_with xor v u) (replicate (length u) false))
          ≡ u
    and_zeros [] v k = refl
    and_zeros (p ∷ u) [] k = absurd (omega arith)
    and_zeros (p ∷ u) (q ∷ v) k = ap₂ (λ a t. a ∷ t) (same p q) (and_zeros u v (omega arith))
zip_xor-write (b ∷ w) (d ∷ c) (suc off) h =
    ap₂ (λ a t. a ∷ t) (same b d) (zip_xor-write w c off (omega arith))
  where
    same : (p q : Bool) → xor p (xor q p && false) ≡ p
    same true true = refl
    same true false = refl
    same false true = refl
    same false false = refl
