-- ===== src/SparseMatrix/Tests.antt =====
-- A small matrix (lib/src/sparse-matrix.hpp).
use baryonyx.Base.{ℕ, ◌<◌, ◌≤◌, ◌≡◌, refl, List, [], ◌∷◌, map, some, arith, All, length}
use baryonyx.Base.Int.{pos, negsuc}
use baryonyx.Problem.{FunctionElement}
use baryonyx.Samples.{el}
use baryonyx.SparseMatrix.{
  RowValue, ColValue, SparseMatrix, accessors_from, row_accessors, row_value, col_value,
  make_matrix, row, column,
}
use baryonyx.SparseMatrix.Sorted.{with_key}
use baryonyx.SparseMatrix.Accessors.{InColumns}
use baryonyx.SparseMatrix.Entries.{make_matrix-entries, row-make_matrix}

abbrev second : List FunctionElement
second = el (pos 1) 2 ∷ el (negsuc 0) 0 ∷ []

abbrev elements : List (List FunctionElement)
elements = (el (pos 1) 0 ∷ []) ∷ second ∷ []

elements-InColumns : All (InColumns 3) elements
elements-InColumns = ((omega arith, tt), ((omega arith, (omega arith, tt)), tt))

some_entry : 1 ≤ length (accessors_from 0 0 elements)
unfolding accessors_from
some_entry = omega arith

make_matrix-entries_example :
    (m : SparseMatrix) × (make_matrix elements 3 ≡ some m)
    × ((i : ℕ)
        → i < 2
        → row m i ≡ some (map row_value (with_key (λ a. a.row) i (accessors_from 0 0 elements))))
    × ((j : ℕ)
        → j < 3
        → column m j ≡ some (map col_value (with_key (λ a. a.col) j (accessors_from 0 0 elements))))
make_matrix-entries_example = make_matrix-entries elements 3 elements-InColumns some_entry

abbrev matrix : SparseMatrix
matrix = record {
  rows_access = 0 ∷ 1 ∷ 3 ∷ [];
  cols_access = 0 ∷ 2 ∷ 2 ∷ 3 ∷ [];
  rows_values = at 0 0 ∷ at 1 2 ∷ at 2 0 ∷ [];
  cols_values = under 0 0 ∷ under 2 1 ∷ under 1 1 ∷ [];
}
  where
    at : ℕ → ℕ → RowValue
    at n c = record { value = n; column = c }

    under : ℕ → ℕ → ColValue
    under n r = record { value = n; row = r }

makes_matrix : make_matrix elements 3 ≡ some matrix
unfolding make_matrix
makes_matrix = refl

row-make_matrix_example : row matrix 1 ≡ some (map row_value (row_accessors 1 1 second))
row-make_matrix_example =
    row-make_matrix elements 3 matrix 1 second elements-InColumns makes_matrix refl
