-- ===== src/SparseMatrix.antt =====
-- The sparse matrix of lib/src/sparse-matrix.hpp. Its constraints are given by their elements; `rows`
-- is their number.
use baryonyx.Base.{
  ℕ, zero, suc, ◌+◌, ◌-◌, Bool, List, [], ◌∷◌, ◌++◌, map, ◌&&◌, ◌==◌, if◌then◌else◌, Option, none,
  some, length, get_or, set, take, drop, replicate, ltb,
}
use baryonyx.Base.Sort.{sort_by}
use baryonyx.Problem.{FunctionElement}
pub mod Runs
pub mod Sorted
pub mod Blocks
pub mod Accessors
pub mod Entries
mod Tests

-- An entry of a row: its number, and its column.
pub record RowValue : Type 0 where
  pub value : ℕ
  pub column : ℕ

pub record ColValue : Type 0 where
  pub value : ℕ
  pub row : ℕ

pub record Access : Type 0 where
  pub row : ℕ
  pub col : ℕ
  pub id : ℕ

pub record SparseMatrix : Type 0 where
  pub rows_access : List ℕ
  pub cols_access : List ℕ
  pub rows_values : List RowValue
  pub cols_values : List ColValue

-- `accessors.emplace_back` for the elements of a row, with the number that `accessors[i].id = i` gives.
unfoldable pub row_accessors : ℕ → ℕ → List FunctionElement → List Access
row_accessors id row [] = []
row_accessors id row (e ∷ es) =
    record { row = row; col = e.variable_index; id = id } ∷ row_accessors (suc id) row es

unfoldable pub accessors_from : ℕ → ℕ → List (List FunctionElement) → List Access
unfolding row_accessors
accessors_from id row [] = []
accessors_from id row (es ∷ csts) =
    row_accessors id row es ++ accessors_from (id + length es) (suc row) csts

abbrev pub row_value : Access → RowValue
row_value a = record { value = a.id; column = a.col }

abbrev pub col_value : Access → ColValue
col_value a = record { value = a.id; row = a.row }

-- The loop that counts the entries of each row, or of each column: `row`, `nb_row` and `rinit`.
pub record Counting : Type 0 where
  pub current : ℕ
  pub number : ℕ
  pub init : List ℕ

unfoldable pub count_key : Counting → ℕ → Counting
count_key s k =
    if s.current == k
    then record { current = s.current; number = suc s.number; init = s.init }
    else record { current = k; number = 1; init = set s.init s.current s.number }

unfoldable pub count_keys : Counting → List ℕ → List ℕ
unfolding count_key
count_keys s [] = set s.init s.current s.number
count_keys s (k ∷ ks) = count_keys (count_key s k) ks

-- From the first entry on, for `n` rows or columns: `rinit` or `cinit`.
unfoldable pub count_accesses : ℕ → List ℕ → List ℕ
unfolding count_keys
count_accesses n [] = replicate n 0
count_accesses n (k ∷ ks) =
    count_keys (record { current = k; number = 0; init = replicate n 0 }) (k ∷ ks)

-- `m_rows_access` of `rinit`.
unfoldable pub access_from : ℕ → List ℕ → List ℕ
access_from start [] = start ∷ []
access_from start (c ∷ cs) = start ∷ access_from (start + c) cs

abbrev pub by_column : Access → Access → Bool
by_column lhs rhs = ltb lhs.col rhs.col

unfoldable pub build : ℕ → ℕ → List Access → SparseMatrix
unfolding count_accesses access_from sort_by
build rows cols accessors =
    let sorted = sort_by by_column accessors in
    record {
      rows_access = access_from 0 (count_accesses rows (map (λ b. b.row) accessors));
      cols_access = access_from 0 (count_accesses cols (map (λ b. b.col) sorted));
      rows_values = map row_value accessors;
      cols_values = map col_value sorted;
    }

-- The constructor; it reads `accessors[0]`, so that there must be an entry.
unfoldable pub make_matrix : List (List FunctionElement) → ℕ → Option SparseMatrix
unfolding accessors_from build
make_matrix csts cols =
    let accessors = accessors_from 0 0 csts in
    if length accessors == 0 then none else some (build (length csts) cols accessors)

-- The entries between two positions.
abbrev pub slice {ℓ} : {A : Type ℓ} → ℕ → ℕ → List A → List A
slice begin end xs = take (end - begin) (drop begin xs)

-- `row(i)` and `column(i)`; `m_is_valid_index` is expected.
unfoldable pub row : SparseMatrix → ℕ → Option (List RowValue)
row m i =
    if ltb i (length m.rows_access - 1)
    then some (slice (get_or m.rows_access i 0) (get_or m.rows_access (suc i) 0) m.rows_values)
    else none

unfoldable pub column : SparseMatrix → ℕ → Option (List ColValue)
column m i =
    if ltb i (length m.cols_access - 1)
    then some (slice (get_or m.cols_access i 0) (get_or m.cols_access (suc i) 0) m.cols_values)
    else none
