-- ===== src/SparseMatrix/Accessors.antt =====
-- The entries of lib/src/sparse-matrix.hpp before they are sorted (`accessors`).
use baryonyx.Base.{
  ℕ, zero, suc, ◌+◌, ◌<◌, ◌≤◌, ◌≡◌, refl, sym, ap, ap₂, ◌∙◌, true, false, List, [], ◌∷◌, ◌++◌, ◌==◌,
  arith, All, some, length, get_elem?,
}
use mathlib.Core.Option.{some-injective}
use baryonyx.Problem.{FunctionElement}
use baryonyx.SparseMatrix.{Access, row_accessors, accessors_from}
use baryonyx.SparseMatrix.Runs.{Ascending}
use baryonyx.SparseMatrix.Sorted.{with_key, keys}
use baryonyx.SparseMatrix.Blocks.{with_key-above}

abbrev pub InColumns : ℕ → List FunctionElement → Type 0
InColumns cols = All (λ e. e.variable_index < cols)

row_accessors-cols :
    (id r cols : ℕ) (es : List FunctionElement) (ys : List Access)
    → InColumns cols es
    → All (λ k. k < cols) (keys (λ a. a.col) ys)
    → All (λ k. k < cols) (keys (λ a. a.col) (row_accessors id r es ++ ys))
unfolding row_accessors
row_accessors-cols id r cols [] ys h k = k
row_accessors-cols id r cols (e ∷ es) ys h k = (h.0, row_accessors-cols (suc id) r cols es ys h.1 k)

pub accessors_from-cols :
    (id r cols : ℕ) (csts : List (List FunctionElement))
    → All (InColumns cols) csts
    → All (λ k. k < cols) (keys (λ a. a.col) (accessors_from id r csts))
unfolding accessors_from
accessors_from-cols id r cols [] h = tt
accessors_from-cols id r cols (es ∷ csts) h =
    row_accessors-cols id r cols es (accessors_from (id + length es) (suc r) csts) h.0
      (accessors_from-cols (id + length es) (suc r) cols csts h.1)

Ascending-le : (b r : ℕ) (ks : List ℕ) → b ≤ r → Ascending r ks → Ascending b ks
Ascending-le b r [] h asc = tt
Ascending-le b r (k ∷ ks) h asc = (omega arith, asc.1)

row_accessors-rows :
    (id r n b : ℕ) (es : List FunctionElement) (ys : List Access)
    → r < n
    → b ≤ r
    → Ascending r (keys (λ a. a.row) ys)
    → All (λ k. k < n) (keys (λ a. a.row) ys)
    → Ascending b (keys (λ a. a.row) (row_accessors id r es ++ ys))
      × All (λ k. k < n) (keys (λ a. a.row) (row_accessors id r es ++ ys))
unfolding row_accessors
row_accessors-rows id r n b [] ys h k asc all = (Ascending-le b r (keys (λ a. a.row) ys) k asc, all)
row_accessors-rows id r n b (e ∷ es) ys h k asc all =
    let rest = row_accessors-rows (suc id) r n r es ys h (omega arith) asc all in
    ((k, rest.0), (h, rest.1))

pub accessors_from-rows :
    (id r n : ℕ) (csts : List (List FunctionElement))
    → r + length csts ≤ n
    → Ascending r (keys (λ a. a.row) (accessors_from id r csts))
      × All (λ k. k < n) (keys (λ a. a.row) (accessors_from id r csts))
unfolding accessors_from
accessors_from-rows id r n [] h = (tt, tt)
accessors_from-rows id r n (es ∷ csts) h =
    let rest = accessors_from-rows (id + length es) (suc r) n csts (omega arith) in
    let ys = accessors_from (id + length es) (suc r) csts in
    row_accessors-rows id r n r es ys (omega arith) (omega arith)
      (Ascending-le r (suc r) (keys (λ a. a.row) ys) (omega arith) rest.0) rest.1

-- How many elements stand before those of a constraint.
abbrev pub offset : ℕ → List (List FunctionElement) → ℕ
offset zero csts = 0
offset (suc i) [] = 0
offset (suc i) (es ∷ csts) = length es + offset i csts

row_accessors_other :
    (id r j : ℕ) (es : List FunctionElement) (ys : List Access)
    → (r == j) ≡ false
    → with_key (λ a. a.row) j (row_accessors id r es ++ ys) ≡ with_key (λ a. a.row) j ys
unfolding row_accessors
row_accessors_other id r j [] ys h = refl
row_accessors_other id r j (e ∷ es) ys h = rw h (row_accessors_other (suc id) r j es ys h)

row_accessors_same :
    (id r j : ℕ) (es : List FunctionElement) (ys : List Access)
    → (r == j) ≡ true
    → with_key (λ a. a.row) j (row_accessors id r es ++ ys)
      ≡ row_accessors id r es ++ with_key (λ a. a.row) j ys
unfolding row_accessors
row_accessors_same id r j [] ys h = refl
row_accessors_same id r j (e ∷ es) ys h = rw h (
    ap (λ t. record { row = r; col = e.variable_index; id = id } ∷ t)
      (row_accessors_same (suc id) r j es ys h))

add_zero : (n : ℕ) → n ≡ n + 0
add_zero n = omega arith

add_suc : (m n : ℕ) → m + suc n ≡ suc m + n
add_suc m n = omega arith

plus_assoc : (a b c : ℕ) → a + b + c ≡ a + (b + c)
plus_assoc a b c = omega arith

append_nil : {A : Type 0} (xs : List A) → xs ++ [] ≡ xs
append_nil [] = refl
append_nil (x ∷ xs) = ap (λ t. x ∷ t) (append_nil xs)

-- The entries of a row are those of the elements of its constraint, with the numbers from the offset
-- on.
pub with_key-accessors_from :
    (id r : ℕ) (csts : List (List FunctionElement)) (i : ℕ) (es : List FunctionElement)
    → get_elem? csts i ≡ some es
    → with_key (λ a. a.row) (r + i) (accessors_from id r csts)
      ≡ row_accessors (id + offset i csts) (r + i) es
unfolding accessors_from
with_key-accessors_from id r [] i es e = cc
with_key-accessors_from id r (fs ∷ csts) zero es e =
    let ys = accessors_from (id + length fs) (suc r) csts in
    let above =
      accessors_from-rows (id + length fs) (suc r) (suc r + length csts) csts (omega arith) in
    let same : (r == r + 0) ≡ true = ground arith in
    row_accessors_same id r (r + 0) fs ys same
    ∙ ap (λ t. row_accessors id r fs ++ t)
        (with_key-above (λ a. a.row) (r + 0) (suc r) ys (omega arith) above.0)
    ∙ append_nil (row_accessors id r fs)
    ∙ ap₂ (λ n k. row_accessors n k fs) (add_zero id) (add_zero r)
    ∙ ap (row_accessors (id + 0) (r + 0)) (some-injective fs es e)
with_key-accessors_from id r (fs ∷ csts) (suc i) es e =
    let ys = accessors_from (id + length fs) (suc r) csts in
    let other : (r == r + suc i) ≡ false = ground arith in
    row_accessors_other id r (r + suc i) fs ys other
    ∙ ap (λ k. with_key (λ a. a.row) k ys) (add_suc r i)
    ∙ with_key-accessors_from (id + length fs) (suc r) csts i es e
    ∙ ap₂ (λ n k. row_accessors n k es) (plus_assoc id (length fs) (offset i csts))
        (sym (add_suc r i))
