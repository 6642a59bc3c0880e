-- ===== src/SparseMatrix/Runs.antt =====
-- The loop of lib/src/sparse-matrix.hpp that counts the entries of each row or column.
use baryonyx.Base.{
  ℕ, zero, suc, ◌+◌, ◌<◌, ◌≤◌, ◌≡◌, refl, sym, subst, ◌∙◌, List, [], ◌∷◌, ◌==◌, ==_iff,
  if◌then◌else◌, inl, inr, arith, All, length, get_or, set, length-set, replicate, length-replicate,
  count, Bool-cases,
}
use baryonyx.SparseMatrix.{Counting, count_key, count_keys, count_accesses}

-- The keys do not fall, from `b` on.
abbrev pub Ascending : ℕ → List ℕ → Type 0
Ascending b [] = Unit
Ascending b (k ∷ ks) = (b ≤ k) × Ascending k ks

get_or-set :
    (xs : List ℕ) (i v j : ℕ)
    → i < length xs
    → get_or (set xs i v) j 0 ≡ (if i == j then v else get_or xs j 0)
get_or-set [] i v j h = absurd (omega arith)
get_or-set (x ∷ xs) zero v zero h = refl
get_or-set (x ∷ xs) zero v (suc j) h = ground arith
get_or-set (x ∷ xs) (suc i) v zero h = ground arith
get_or-set (x ∷ xs) (suc i) v (suc j) h = get_or-set xs i v j (omega arith) ∙ ground arith

-- What is counted of the key `j`.
abbrev counted : Counting → ℕ → ℕ
counted s j = if s.current == j then s.number else get_or s.init j 0

abbrev Fresh : Counting → Type 0
Fresh s = (j : ℕ) → s.current < j → get_or s.init j 0 ≡ 0

count_keys-count :
    (s : Counting) (ks : List ℕ) (j : ℕ)
    → Ascending s.current ks
    → s.current < length s.init
    → All (λ k. k < length s.init) ks
    → Fresh s
    → get_or (count_keys s ks) j 0 ≡ counted s j + count j ks
unfolding count_keys count_key
count_keys-count s [] j asc below all fresh =
    omega (arith, get_or-set s.init s.current s.number j below)
count_keys-count s (k ∷ ks) j asc below all fresh = elim (Bool-cases (s.current == k)) [
  | inl same ↦
      let e : s.current ≡ k = (==_iff s.current k).0 same in
      let t : Counting = record { current = s.current; number = suc s.number; init = s.init } in
      let ih =
        count_keys-count t ks j (subst (λ b. Ascending b ks) (sym e) asc.1) below all.1 fresh in
      rw same (ground (arith, ih, e))
  | inr other ↦
      let t : Counting = record { current = k; number = 1; init = set s.init s.current s.number } in
      let size = length-set s.init s.current s.number in
      let low : s.current < k = ground arith in
      let written = λ (i : ℕ). get_or-set s.init s.current s.number i below in
      let fresh' : Fresh t = λ i h. ground (arith, written i, fresh i (omega arith)) in
      let ih =
        count_keys-count t ks j asc.1 (omega (arith, size, all.0))
          (subst (λ n. All (λ i. i < n) ks) (sym size) all.1) fresh' in
      rw other (ground (arith, ih, written j, fresh k low))
]

get_or-replicate : (n j : ℕ) → get_or {A = ℕ} (replicate n 0) j 0 ≡ 0
get_or-replicate zero j = refl
get_or-replicate (suc n) zero = refl
get_or-replicate (suc n) (suc j) = get_or-replicate n j

-- On keys that do not fall, the entry of `j` is how often `j` stands there.
pub count_accesses-count :
    (n : ℕ) (ks : List ℕ) (j : ℕ)
    → Ascending 0 ks
    → All (λ k. k < n) ks
    → get_or (count_accesses n ks) j 0 ≡ count j ks
unfolding count_accesses
count_accesses-count n [] j asc all = get_or-replicate n j
count_accesses-count n (k ∷ ks) j asc all =
    let start : Counting = record { current = k; number = 0; init = replicate n 0 } in
    let size : length {A = ℕ} (replicate n 0) ≡ n = length-replicate n 0 in
    let ih =
      count_keys-count start (k ∷ ks) j (omega arith, asc.1) (omega (arith, size, all.0))
        (subst (λ m. All (λ i. i < m) (k ∷ ks)) (sym size) all) (λ i _. get_or-replicate n i) in
    ground (arith, ih, get_or-replicate n j)
