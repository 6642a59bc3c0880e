-- ===== src/BitArray/Tests.antt =====
-- Runs of the arrays of bits.
use baryonyx.Base.{
  ◌≡◌, refl, true, false, not, if◌then◌else◌, ◌==◌, ◌||◌, ltb, ◌&&◌, arith, some, sym, subst, ◌≤◌,
}
use baryonyx.BitArray.Assign.{block-assign}
use baryonyx.BitArray.{
  BitArray, b_index, block, assign, ones, make, set_bit, unset, invert, set_value, get, b_offset,
}
use baryonyx.BitArray.Bits.{
  IsValid, make-IsValid, get_after_write, get-set_value, writes_keep-IsValid,
}

hundred-IsValid : IsValid (make 100)
hundred-IsValid = make-IsValid 100

hundred_size : (make 100).m_size ≡ 100
unfolding make
hundred_size = refl

ones-IsValid : IsValid (ones (make 300))
unfolding make ones
ones-IsValid = record { blocks = (refl, (refl, (refl, (refl, (refl, tt))))); enough = refl }

ones_size : (make 300).m_size ≡ (ones (make 300)).m_size
unfolding make ones
ones_size = refl

get_after_write_example :
    (get (set_bit (make 100) 70) 70 ≡ (if 70 == 70 then true else get (make 100) 70))
    × (get (unset (make 100) 70) 70 ≡ (if 70 == 70 then false else get (make 100) 70))
    × (get (invert (make 100) 70) 70
        ≡ (if 70 == 70 then not (get (make 100) 70) else get (make 100) 70))
get_after_write_example =
    get_after_write (make 100) 70 hundred-IsValid (omega (arith, hundred_size)) 70

get-set_value_example :
    get (set_value (make 100) 70 true) 70
    ≡ (if 70 == 70 then true && (b_offset 70 == 0) else get (make 100) 70)
get-set_value_example =
    get-set_value (make 100) 70 hundred-IsValid (omega (arith, hundred_size)) true 70

writes_keep-IsValid_example :
    IsValid (set_bit (make 100) 70)
    × IsValid (unset (make 100) 70)
    × IsValid (invert (make 100) 70)
    × IsValid (set_value (make 100) 70 true)
writes_keep-IsValid_example =
    writes_keep-IsValid (make 100) 70 hundred-IsValid (omega (arith, hundred_size)) true

-- The last block before that of the upper bound, 200, is not copied.
three_hundred_size : (make 300).m_size ≡ 300
unfolding make
three_hundred_size = refl

block-assign_example :
    (b : BitArray) × ((assign (make 300) (ones (make 300)) 0 200 ≡ some b)
      × (block b 2 ≡ (
          if (b_offset 200 == 0) || ltb 3 (b_index 200)
          then block (ones (make 300)) 2
          else block (make 300) 2)))
block-assign_example =
    block-assign (make 300) (ones (make 300)) 0 200 2 (make-IsValid 300) ones-IsValid ones_size
      (subst (λ n. 200 ≤ n) (sym three_hundred_size) (omega arith)) (omega arith) (omega arith)
