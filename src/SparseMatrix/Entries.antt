-- ===== src/SparseMatrix/Entries.antt =====
-- The rows and columns of a matrix (lib/src/sparse-matrix.hpp) and the entries that it is made of.
use baryonyx.Base.{
  ℕ, zero, suc, ◌+◌, ◌-◌, ◌<◌, ◌≤◌, ◌≡◌, refl, sym, ap, ap₂, subst, ◌∙◌, true, false, List, [], ◌∷◌,
  map, ◌==◌, inl, inr, arith, All, none, some, length, length-replicate, length-set, get_elem?,
  get_elem?-bound, get_or, take, drop, ltb, lt→ltb, Bool-cases,
}
use mathlib.Core.Option.{some-injective}
use baryonyx.Base.Sort.{insert_by, sort_by}
use baryonyx.Problem.{FunctionElement}
use baryonyx.SparseMatrix.{
  Access, SparseMatrix, Counting, count_key, count_keys, count_accesses, access_from, slice,
  row_accessors, accessors_from, row_value, col_value, by_column, build, make_matrix, row, column,
}
use baryonyx.SparseMatrix.Runs.{Ascending, count_accesses-count}
use baryonyx.SparseMatrix.Sorted.{with_key, keys, sort_by-with_key, sort_by-Ascending}
use baryonyx.SparseMatrix.Accessors.{
  offset, with_key-accessors_from, InColumns, accessors_from-rows, accessors_from-cols,
}
use baryonyx.SparseMatrix.Blocks.{slice-with_key}

map-take : {A B : Type 0} (f : A → B) (n : ℕ) (xs : List A) → take n (map f xs) ≡ map f (take n xs)
map-take f zero xs = refl
map-take f (suc n) [] = refl
map-take f (suc n) (x ∷ xs) = ap (λ ys. f x ∷ ys) (map-take f n xs)

map-drop : {A B : Type 0} (f : A → B) (n : ℕ) (xs : List A) → drop n (map f xs) ≡ map f (drop n xs)
map-drop f zero xs = refl
map-drop f (suc n) [] = refl
map-drop f (suc n) (x ∷ xs) = map-drop f n xs

map-slice :
    {A B : Type 0} (f : A → B) (b e : ℕ) (xs : List A) → slice b e (map f xs) ≡ map f (slice b e xs)
map-slice f b e xs = ap (take (e - b)) (map-drop f b xs) ∙ map-take f (e - b) (drop b xs)

length-count_keys : (s : Counting) (ks : List ℕ) → length (count_keys s ks) ≡ length s.init
unfolding count_keys count_key
length-count_keys s [] = length-set s.init s.current s.number
length-count_keys s (k ∷ ks) = elim (Bool-cases (s.current == k)) [
  | inl e ↦ rw e (length-count_keys _ ks)
  | inr e ↦ rw e (length-count_keys _ ks ∙ length-set s.init s.current s.number)
]

length-count_accesses : (n : ℕ) (ks : List ℕ) → length (count_accesses n ks) ≡ n
unfolding count_accesses
length-count_accesses n [] = length-replicate n 0
length-count_accesses n (k ∷ ks) = length-count_keys _ (k ∷ ks) ∙ length-replicate n 0

length-access_from : (s : ℕ) (cs : List ℕ) → length (access_from s cs) ≡ suc (length cs)
unfolding access_from
length-access_from s [] = refl
length-access_from s (c ∷ cs) = ap suc (length-access_from (s + c) cs)

-- The slices of a list in the order of its keys, all below `n`, by the counts of the loop.
slice-count_accesses :
    {A : Type 0} (key : A → ℕ) (n j : ℕ) (xs : List A)
    → Ascending 0 (keys key xs)
    → All (λ k. k < n) (keys key xs)
    → j < n
    → (let access = access_from 0 (count_accesses n (keys key xs)) in
        slice (get_or access j 0) (get_or access (suc j) 0) xs)
      ≡ with_key key j xs
slice-count_accesses key n j xs asc all h =
    let size = length-count_accesses n (keys key xs) in
    slice-with_key key xs (count_accesses n (keys key xs)) j asc
      (λ i k. count_accesses-count n (keys key xs) i asc all) (omega (arith, size))

insert_by-cols :
    (cols : ℕ) (a : Access) (xs : List Access)
    → a.col < cols
    → All (λ k. k < cols) (keys (λ b. b.col) xs)
    → All (λ k. k < cols) (keys (λ b. b.col) (insert_by by_column a xs))
unfolding insert_by
insert_by-cols cols a [] h all = (h, tt)
insert_by-cols cols a (x ∷ xs) h all = elim (Bool-cases (by_column x a)) [
  | inl e ↦ rw e (all.0, insert_by-cols cols a xs h all.1)
  | inr e ↦ rw e (h, all)
]

sort_by-cols :
    (cols : ℕ) (xs : List Access)
    → All (λ k. k < cols) (keys (λ b. b.col) xs)
    → All (λ k. k < cols) (keys (λ b. b.col) (sort_by by_column xs))
unfolding sort_by
sort_by-cols cols [] all = tt
sort_by-cols cols (x ∷ xs) all =
    insert_by-cols cols x (sort_by by_column xs) all.0 (sort_by-cols cols xs all.1)

module _ (rows cols : ℕ) (accessors : List Access) where
  row-build :
      (i : ℕ)
      → Ascending 0 (keys (λ a. a.row) accessors)
      → All (λ k. k < rows) (keys (λ a. a.row) accessors)
      → i < rows
      → row (build rows cols accessors) i ≡ some (map row_value (with_key (λ a. a.row) i accessors))
  unfolding row build
  row-build i asc all h =
      let counts = count_accesses rows (keys (λ a. a.row) accessors) in
      let access = access_from 0 counts in
      let inside : ltb i (length access - 1) ≡ true = lt→ltb i (length access - 1) (
        omega (
          arith,
          length-access_from 0 counts,
          length-count_accesses rows (keys (λ a. a.row) accessors),
        )) in
      rw inside (
        ap some (
          map-slice row_value (get_or access i 0) (get_or access (suc i) 0) accessors
          ∙ ap (map row_value) (slice-count_accesses (λ a. a.row) rows i accessors asc all h)))

  column-build :
      (j : ℕ)
      → All (λ k. k < cols) (keys (λ a. a.col) accessors)
      → j < cols
      → column (build rows cols accessors) j
        ≡ some (map col_value (with_key (λ a. a.col) j accessors))
  unfolding column build
  column-build j all h =
      let sorted = sort_by by_column accessors in
      let counts = count_accesses cols (keys (λ a. a.col) sorted) in
      let access = access_from 0 counts in
      let inside : ltb j (length access - 1) ≡ true = lt→ltb j (length access - 1) (
        omega (
          arith,
          length-access_from 0 counts,
          length-count_accesses cols (keys (λ a. a.col) sorted),
        )) in
      rw inside (
        ap some (
          map-slice col_value (get_or access j 0) (get_or access (suc j) 0) sorted
          ∙ ap (map col_value) (
              slice-count_accesses (λ a. a.col) cols j sorted
                (sort_by-Ascending (λ a. a.col) accessors) (sort_by-cols cols accessors all) h
              ∙ sort_by-with_key (λ a. a.col) j accessors)))

-- If there is an entry and the variables are below the number of columns, the matrix is made; its rows
-- and its columns have the same entries, in the same order: those of the row, and those of the
-- column.
pub make_matrix-entries :
    (csts : List (List FunctionElement)) (cols : ℕ)
    → All (InColumns cols) csts
    → 1 ≤ length (accessors_from 0 0 csts)
    → (m : SparseMatrix) × (make_matrix csts cols ≡ some m)
      × ((i : ℕ)
          → i < length csts
          → row m i ≡ some (map row_value (with_key (λ a. a.row) i (accessors_from 0 0 csts))))
      × ((j : ℕ)
          → j < cols
          → column m j ≡ some (map col_value (with_key (λ a. a.col) j (accessors_from 0 0 csts))))
unfolding make_matrix
make_matrix-entries csts cols inside some_entry =
    let accessors = accessors_from 0 0 csts in
    let by_rows = accessors_from-rows 0 0 (length csts) csts (omega arith) in
    let test : (length accessors == 0) ≡ false = ground arith in
    (
      build (length csts) cols accessors,
      rw test refl,
      (λ i h. row-build (length csts) cols accessors i by_rows.0 by_rows.1 h),
      λ j h.
          column-build (length csts) cols accessors j (accessors_from-cols 0 0 cols csts inside) h,
    )

zero_plus : (n : ℕ) → n ≡ 0 + n
zero_plus n = omega arith

-- Row `i` of a matrix has an entry for each element of constraint `i`, in their order: its number is
-- that of the element in the whole list of the constraints, its column the variable. The variables
-- are below the number of columns.
pub row-make_matrix :
    (csts : List (List FunctionElement)) (cols : ℕ) (m : SparseMatrix) (i : ℕ)
    (es : List FunctionElement)
    → All (InColumns cols) csts
    → make_matrix csts cols ≡ some m
    → get_elem? csts i ≡ some es
    → row m i ≡ some (map row_value (row_accessors (offset i csts) i es))
unfolding make_matrix
row-make_matrix csts cols m i es inside made here =
    elim (Bool-cases (length (accessors_from 0 0 csts) == 0)) [
      | inl e ↦ let unmade : make_matrix csts cols ≡ none = rw e refl in cc
      | inr e ↦
          let (n, same, rows, columns) = make_matrix-entries csts cols inside (ground arith) in
          subst (λ t. row t i ≡ some (map row_value (row_accessors (offset i csts) i es)))
            (some-injective n m (sym same ∙ made))
            (rows i (get_elem?-bound csts i here)
              ∙ ap (λ t. some (map row_value t))
                  (ap (λ k. with_key (λ a. a.row) k (accessors_from 0 0 csts)) (zero_plus i)
                    ∙ with_key-accessors_from 0 0 csts i es here
                    ∙ ap₂ (λ k j. row_accessors k j es) (sym (zero_plus (offset i csts)))
                        (sym (zero_plus i))))
    ]
