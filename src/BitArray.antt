-- ===== src/BitArray.antt =====
-- The arrays of bits: lib/src/bit-array.hpp.
-- A block, an unsigned integer of 64 bits, is the list of its bits, the lowest first. A read of a
-- block that is out of range is undefined in the source; here it is a block of zeros, and a write
-- there does nothing. The assertions on one index are hypotheses of the theorems; those of `assign` are
-- tested.
use baryonyx.Base.{
  ℕ, zero, suc, ◌+◌, ◌/◌, ◌%◌, Bool, true, false, List, [], ◌∷◌, ◌++◌, ◌&&◌, ◌||◌, not, map,
  if◌then◌else◌, ◌==◌, ltb, leb, length, get_or, modify, replicate, take, drop, ◌-◌, Option, some,
  none,
}
pub mod Words
pub mod Bits
pub mod Assign
mod Tests

abbrev pub Word : Type 0
Word = List Bool

abbrev pub bit_per_block : ℕ
bit_per_block = 64

abbrev pub zip_with : (Bool → Bool → Bool) → Word → Word → Word
zip_with f (a ∷ as_) (b ∷ bs) = f a b ∷ zip_with f as_ bs
zip_with f as_ bs = []

abbrev pub xor : Bool → Bool → Bool
xor true b = not b
xor false b = b

abbrev pub complement : Word → Word
complement = map not

abbrev pub is_nonzero : Word → Bool
is_nonzero [] = false
is_nonzero (b ∷ bs) = b || is_nonzero bs

-- `<<` and `>>` on a block: bits that leave it are lost.
unfoldable pub shift_left : Word → ℕ → Word
shift_left w n = take bit_per_block (replicate n false ++ w)

unfoldable pub shift_right : Word → ℕ → Word
shift_right w n = take bit_per_block (drop n w ++ replicate n false)

abbrev pub k_zeros : Word
k_zeros = replicate bit_per_block false

abbrev pub k_ones : Word
k_ones = replicate bit_per_block true

-- The constant 1, and the conversion of a `bool`.
abbrev pub word_of_bool : Bool → Word
word_of_bool b = b ∷ replicate 63 false

-- `m_block_size` is the length of `m_data`.
pub record BitArray : Type 0 where
  pub m_size : ℕ
  pub m_data : List Word

abbrev pub b_index : ℕ → ℕ
b_index b = b / bit_per_block

abbrev pub b_offset : ℕ → ℕ
b_offset b = b % bit_per_block

-- The constructor of a size.
unfoldable pub make : ℕ → BitArray
make size = record { m_size = size; m_data = replicate (size / bit_per_block + 1) k_zeros }

abbrev pub block : BitArray → ℕ → Word
block a index = get_or a.m_data index k_zeros

unfoldable pub set_block : BitArray → ℕ → Word → BitArray
set_block a index value = record a { m_data = modify a.m_data index (λ w. value) }

-- `k_one << b_offset(index)`.
unfoldable pub mask : ℕ → Word
unfolding shift_left
mask index = shift_left (word_of_bool true) (b_offset index)

unfoldable pub set_bit : BitArray → ℕ → BitArray
unfolding mask
set_bit a index = record a {
  m_data = modify a.m_data (b_index index) (λ w. zip_with (λ p q. p || q) w (mask index));
}

-- `set(index, val)`.
unfoldable pub set_value : BitArray → ℕ → Bool → BitArray
unfolding mask
set_value a index val = record a {
  m_data = modify a.m_data (b_index index) (λ ref.
      zip_with xor ref
        (zip_with (λ p q. p && q) (zip_with xor (word_of_bool val) ref) (mask index)));
}

unfoldable pub unset : BitArray → ℕ → BitArray
unfolding mask
unset a index = record a {
  m_data =
      modify a.m_data (b_index index) (λ w. zip_with (λ p q. p && q) w (complement (mask index)));
}

unfoldable pub invert : BitArray → ℕ → BitArray
unfolding mask
invert a index = record a {
  m_data = modify a.m_data (b_index index) (λ w. zip_with xor w (mask index));
}

-- `get` and `operator[]`.
unfoldable pub get : BitArray → ℕ → Bool
unfolding mask
get a index = is_nonzero (zip_with (λ p q. p && q) (block a (b_index index)) (mask index))

-- `get` of `value_bit_array<Value1, Value2>`.
unfoldable pub get_either {ℓ} : {A : Type ℓ} → A → A → BitArray → ℕ → A
unfolding get
get_either value1 value2 a index = if get a index then value2 else value1

unfoldable pub ones : BitArray → BitArray
ones a = record a { m_data = map (λ w. k_ones) a.m_data }

unfoldable pub zeros : BitArray → BitArray
zeros a = record a { m_data = map (λ w. k_zeros) a.m_data }

-- The first part of `assign`, in the block of `from`.
unfoldable pub assign_from : BitArray → BitArray → ℕ → BitArray
unfolding shift_left shift_right
assign_from a other from =
    let index = b_index from in
    let offset = b_offset from in
    if offset == 0 then a else record a {
      m_data = modify a.m_data index (λ w.
          zip_with (λ p q. p || q) (shift_right (shift_left (block other index) offset) offset)
            (shift_left (shift_right w (bit_per_block - offset)) (bit_per_block - offset)));
    }

-- The second part, in the block of `to`.
unfoldable pub assign_to : BitArray → BitArray → ℕ → BitArray
unfolding shift_left shift_right
assign_to a other to =
    let index = b_index to in
    let offset = b_offset to in
    if offset == 0 then a else record a {
      m_data = modify a.m_data index (λ w.
          zip_with (λ p q. p || q)
            (shift_left (shift_right (block other index) (bit_per_block - offset))
              (bit_per_block - offset))
            (shift_right (shift_left w offset) offset));
    }

-- `copy_n` of some blocks from a position on.
unfoldable pub copy_blocks : List Word → List Word → ℕ → ℕ → List Word
copy_blocks (w ∷ ws) (v ∷ vs) zero zero = w ∷ ws
copy_blocks (w ∷ ws) (v ∷ vs) zero (suc n) = v ∷ copy_blocks ws vs zero n
copy_blocks (w ∷ ws) (v ∷ vs) (suc i) n = w ∷ copy_blocks ws vs i n
copy_blocks ws vs i n = ws

unfoldable pub assign_blocks : BitArray → BitArray → ℕ → ℕ → BitArray
unfolding assign_from assign_to copy_blocks
assign_blocks a other from to =
    let loop_min = if b_offset from == 0 then b_index from else suc (b_index from) in
    let loop_max = if b_offset to == 0 then b_index to else b_index to - 1 in
    let b = assign_to (assign_from a other from) other to in
    if ltb loop_min loop_max
    then record b { m_data = copy_blocks b.m_data other.m_data loop_min (loop_max - loop_min) }
    else b

-- `none` where an assertion fails.
unfoldable pub assign : BitArray → BitArray → ℕ → ℕ → Option BitArray
unfolding assign_blocks
assign a other from to =
    if (other.m_size == a.m_size) && (ltb from to && (ltb from a.m_size && leb to a.m_size))
    then some (assign_blocks a other from to)
    else none

abbrev pub words_eq : Word → Word → Bool
words_eq [] [] = true
words_eq (a ∷ u) (b ∷ v) = (if a then b else not b) && words_eq u v
words_eq _ _ = false

abbrev pub blocks_eq : List Word → List Word → Bool
blocks_eq [] vs = true
blocks_eq (w ∷ ws) [] = false
blocks_eq (w ∷ ws) (v ∷ vs) = words_eq v w && blocks_eq ws vs

-- `operator==`.
unfoldable pub arrays_eq : BitArray → BitArray → Bool
arrays_eq a other = (a.m_size == other.m_size) && blocks_eq a.m_data other.m_data
