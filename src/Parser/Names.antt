-- ===== src/Parser/Names.antt =====
-- The names of the variables and the hash map `m_cache_variable` of lib/src/parser.cpp.
use Prim.Native.String.{String}
use text.Mathlib.Text.{◌==◌ as ◌=ₛ◌}
use text.Mathlib.TextEquality.{eq_iff}
use baryonyx.Base.{
  ℕ, zero, suc, ◌≡◌, ◌↔◌, ◌⊎◌, refl, sym, ap, subst, ◌∙◌, List, [], ◌∷◌, ◌++◌, if◌then◌else◌,
  Option, none, some, inl, inr, get_elem?, length, Bool-cases, Option-cases, get_elem?-append_left,
  get_elem?-append_end,
}
use mathlib.Core.Option.{some-injective}
use baryonyx.Parser.State.{NameIndex, find_index}

-- The map finds the index of each name, and no other.
abbrev pub Indexes : NameIndex → List String → Type 0
Indexes cache names =
    (i : ℕ) (name : String) → (find_index cache name ≡ some i) ↔ (get_elem? names i ≡ some name)

abbrev found_or : Option ℕ → Option ℕ → Option ℕ
found_or none o = o
found_or (some i) o = some i

find_index-append :
    (cache : NameIndex) (v x : String) (n : ℕ)
    → find_index (cache ++ (v, n) ∷ []) x
      ≡ found_or (find_index cache x) (if v =ₛ x then some n else none)
unfolding find_index
find_index-append [] v x n = refl
find_index-append ((w, k) ∷ cache) v x n = elim (Bool-cases (w =ₛ x)) [
  | inl e ↦ rw e
  | inr e ↦ rw (e, find_index-append cache v x n)
]

get_elem?-append_cases {ℓ} :
    {A : Type ℓ} (xs : List A) (a x : A) (i : ℕ)
    → get_elem? (xs ++ a ∷ []) i ≡ some x
    → (get_elem? xs i ≡ some x) ⊎ ((i ≡ length xs) × (a ≡ x))
get_elem?-append_cases [] a x zero e = inr (refl, cc)
get_elem?-append_cases [] a x (suc i) e = cc
get_elem?-append_cases (y ∷ xs) a x zero e = inl e
get_elem?-append_cases (y ∷ xs) a x (suc i) e = elim (get_elem?-append_cases xs a x i e) [
  | inl h ↦ inl h
  | inr h ↦ inr (ap suc h.0, h.1)
]

module _ (cache : NameIndex) (names : List String) (v : String) (h : Indexes cache names)
    (fresh : find_index cache v ≡ none) where
  index_name :
      (i : ℕ) (x : String)
      → find_index (cache ++ (v, length names) ∷ []) x ≡ some i
      → get_elem? (names ++ v ∷ []) i ≡ some x
  index_name i x e = elim (Option-cases (find_index cache x)) [
    | inl unset ↦ elim (Bool-cases (v =ₛ x)) [
      | inl same ↦
          let p : some (length names) ≡ some i =
            sym (rw (find_index-append cache v x (length names), unset, same)) ∙ e in
          let q : length names ≡ i = some-injective _ _ p in
          subst (λ j. get_elem? (names ++ v ∷ []) j ≡ some x) q
            (get_elem?-append_end names v ∙ ap some ((eq_iff v x).0 same))
      | inr other ↦
          let p : none ≡ some i =
            sym (rw (find_index-append cache v x (length names), unset, other)) ∙ e in
          cc
    ]
    | inr (j, found) ↦
        let p : some j ≡ some i =
          sym (rw (find_index-append cache v x (length names), found)) ∙ e in
        let q : j ≡ i = some-injective _ _ p in
        get_elem?-append_left names (v ∷ []) i ((h i x).0 (found ∙ ap some q))
  ]

  name_index :
      (i : ℕ) (x : String)
      → get_elem? (names ++ v ∷ []) i ≡ some x
      → find_index (cache ++ (v, length names) ∷ []) x ≡ some i
  name_index i x e = elim (get_elem?-append_cases names v x i e) [
    | inl old ↦ rw (find_index-append cache v x (length names), (h i x).1 old)
    | inr (at_end, same) ↦
        let test = (eq_iff v x).1 same in
        let unset : find_index cache x ≡ none = subst (λ y. find_index cache y ≡ none) same fresh in
        rw (find_index-append cache v x (length names), unset, test, at_end)
  ]

  pub Indexes-append : Indexes (cache ++ (v, length names) ∷ []) (names ++ v ∷ [])
  Indexes-append i x = (index_name i x, name_index i x)
