-- ===== src/Preprocess/Copy/Value.antt =====
-- The objective function of the preprocessed problem (`objective_function_exclude_copy` of
-- lib/src/preprocessor.cpp) against that of the problem, on whole factors.
use baryonyx.Base.{
  ℕ, ◌≡◌, refl, sym, ap, ◌∙◌, Bool, true, false, List, [], ◌∷◌, ◌++◌, inl, inr, if◌then◌else◌,
}
use baryonyx.Base.Int.{
  ℤ, pos, ◌+ℤ◌, ◌*ℤ◌, int_laws, parts, *ℤ-one, *ℤ-zero, zero-*ℤ, +ℤ-zero, zero-+ℤ, +ℤ_assoc,
}
use baryonyx.Base.Result.{ok}
use baryonyx.Double.{integers}
use baryonyx.Problem.{ObjectiveFunction, ObjectiveFunctionElement, ObjectiveQuadraticElement}
use baryonyx.Solution.{add_elements, add_quadratic, objective_value}
use baryonyx.Preprocess.{bit}
use baryonyx.Preprocess.Reduce.{bits}
use baryonyx.Preprocess.Mapping.{Mapped, kept, fixed, mapped}
use baryonyx.Preprocess.Objective.{
  MergeObjective, copy_linear, copy_quadratic, copy_quadratic_element, copy_merged,
  objective_function_exclude_copy,
}
use baryonyx.Preprocess.Copy.Constraints.{restore, restore-kept, restore-fixed, Mapped-cases}

abbrev Linear : Type 0
Linear = List (ObjectiveFunctionElement ℤ)

abbrev Quadratic : Type 0
Quadratic = List (ObjectiveQuadraticElement ℤ)

unfoldable lin : Linear → (ℕ → ℤ) → ℤ
lin [] x = pos 0
lin (e ∷ es) x = e.factor *ℤ x e.variable_index +ℤ lin es x

unfoldable quad : Quadratic → (ℕ → ℤ) → ℤ
quad [] x = pos 0
quad (q ∷ qs) x = q.factor *ℤ x q.variable_index_a *ℤ x q.variable_index_b +ℤ quad qs x

add_elements-lin :
    (ret : ℤ) (es : Linear) (x : ℕ → ℤ) → add_elements integers ret es x ≡ ret +ℤ lin es x
unfolding add_elements lin
add_elements-lin ret [] x = sym (+ℤ-zero ret)
add_elements-lin ret (e ∷ es) x =
    add_elements-lin (ret +ℤ e.factor *ℤ x e.variable_index) es x ∙ +ℤ_assoc ret _ _

add_quadratic-quad :
    (ret : ℤ) (qs : Quadratic) (x : ℕ → ℤ) → add_quadratic integers ret qs x ≡ ret +ℤ quad qs x
unfolding add_quadratic quad
add_quadratic-quad ret [] x = sym (+ℤ-zero ret)
add_quadratic-quad ret (q ∷ qs) x =
    add_quadratic-quad (ret +ℤ q.factor *ℤ x q.variable_index_a *ℤ x q.variable_index_b) qs x
    ∙ +ℤ_assoc ret _ _

abbrev total : ObjectiveFunction ℤ → (ℕ → ℤ) → ℤ
total o x = o.value +ℤ lin o.elements x +ℤ quad o.qelements x

objective_value-total :
    (o : ObjectiveFunction ℤ) (x : ℕ → ℤ) → objective_value integers o x ≡ total o x
unfolding objective_value
objective_value-total o x =
    add_quadratic-quad _ o.qelements x
    ∙ ap (λ t. t +ℤ quad o.qelements x) (add_elements-lin o.value o.elements x)

lin-append_one :
    (es : Linear) (e : ObjectiveFunctionElement ℤ) (x : ℕ → ℤ)
    → lin (es ++ e ∷ []) x ≡ lin es x +ℤ e.factor *ℤ x e.variable_index
unfolding lin
lin-append_one [] e x = +ℤ-zero _ ∙ sym (zero-+ℤ _)
lin-append_one (d ∷ es) e x =
    ap (λ t. d.factor *ℤ x d.variable_index +ℤ t) (lin-append_one es e x) ∙ sym (+ℤ_assoc _ _ _)

quad-append_one :
    (qs : Quadratic) (q : ObjectiveQuadraticElement ℤ) (x : ℕ → ℤ)
    → quad (qs ++ q ∷ []) x ≡ quad qs x +ℤ q.factor *ℤ x q.variable_index_a *ℤ x q.variable_index_b
unfolding quad
quad-append_one [] q x = +ℤ-zero _ ∙ sym (zero-+ℤ _)
quad-append_one (d ∷ qs) q x =
    ap (λ t. d.factor *ℤ x d.variable_index_a *ℤ x d.variable_index_b +ℤ t) (quad-append_one qs q x)
    ∙ sym (+ℤ_assoc _ _ _)

-- What the copy of a quadratic element adds beyond its value: the factor, where one variable is
-- fixed to 0 and the other, which stays, is 1.
abbrev surplus : (ℕ → Bool) → ℤ → Mapped → Mapped → ℤ
surplus y factor (fixed false) (kept b) = factor *ℤ bit (y b)
surplus y factor (kept a) (fixed false) = factor *ℤ bit (y a)
surplus y factor _ _ = pos 0

unfoldable pub excess : List Mapped → (ℕ → Bool) → Quadratic → ℤ
excess mapping y [] = pos 0
excess mapping y (q ∷ qs) =
    surplus y q.factor (mapped mapping q.variable_index_a) (mapped mapping q.variable_index_b)
    +ℤ excess mapping y qs

abbrev value_of_mapped : (ℕ → Bool) → Mapped → ℤ
value_of_mapped y (kept c) = bit (y c)
value_of_mapped y (fixed v) = bit v

bits-restore :
    (mapping : List Mapped) (y : ℕ → Bool) (i : ℕ)
    → bits (restore mapping y) i ≡ value_of_mapped y (mapped mapping i)
unfolding restore
bits-restore mapping y i = elim (Mapped-cases (mapped mapping i)) [
  | inl (c, m) ↦ rw (m, restore) refl
  | inr (v, m) ↦ rw (m, restore) refl
]

-- One quadratic element.
copy_quadratic_element-total :
    (y : ℕ → Bool) (ret : ObjectiveFunction ℤ) (factor : ℤ) (a b : Mapped)
    → total (copy_quadratic_element integers ret factor a b) (bits y)
      ≡ total ret (bits y)
        +ℤ factor *ℤ value_of_mapped y a *ℤ value_of_mapped y b
        +ℤ surplus y factor a b
unfolding copy_quadratic_element
copy_quadratic_element-total y ret factor (fixed true) (fixed true) =
    omega (int_laws, parts (*ℤ-one factor), parts (*ℤ-one (factor *ℤ pos 1)))
copy_quadratic_element-total y ret factor (fixed true) (fixed false) =
    omega (int_laws, parts (*ℤ-zero (factor *ℤ pos 1)))
copy_quadratic_element-total y ret factor (fixed false) (fixed v) =
    rw (*ℤ-zero factor) (omega (int_laws, parts (zero-*ℤ (bit v))))
copy_quadratic_element-total y ret factor (fixed true) (kept b) = rw (*ℤ-one factor) (
    omega (
      int_laws,
      parts (lin-append_one ret.elements (record { factor = factor; variable_index = b }) (bits y)),
    ))
copy_quadratic_element-total y ret factor (fixed false) (kept b) = rw (*ℤ-zero factor) (
    omega (
      int_laws,
      parts (zero-*ℤ (bit (y b))),
      parts (lin-append_one ret.elements (record { factor = factor; variable_index = b }) (bits y)),
    ))
copy_quadratic_element-total y ret factor (kept a) (fixed true) = omega (
  int_laws,
  parts (*ℤ-one (factor *ℤ bit (y a))),
  parts (lin-append_one ret.elements (record { factor = factor; variable_index = a }) (bits y)),
)
copy_quadratic_element-total y ret factor (kept a) (fixed false) = omega (
  int_laws,
  parts (*ℤ-zero (factor *ℤ bit (y a))),
  parts (lin-append_one ret.elements (record { factor = factor; variable_index = a }) (bits y)),
)
copy_quadratic_element-total y ret factor (kept a) (kept b) = omega (
  int_laws,
  parts (
      quad-append_one ret.qelements
        (record { factor = factor; variable_index_a = a; variable_index_b = b }) (bits y)),
)

copy_quadratic-total :
    (mapping : List Mapped) (y : ℕ → Bool) (qs : Quadratic) (ret : ObjectiveFunction ℤ)
    → total (copy_quadratic integers mapping ret qs) (bits y)
      ≡ total ret (bits y) +ℤ quad qs (bits (restore mapping y)) +ℤ excess mapping y qs
unfolding copy_quadratic quad excess
copy_quadratic-total mapping y [] ret = omega int_laws
copy_quadratic-total mapping y (q ∷ qs) ret =
    let a = mapped mapping q.variable_index_a in
    let b = mapped mapping q.variable_index_b in
    let next = copy_quadratic_element integers ret q.factor a b in
    rw (bits-restore mapping y q.variable_index_a, bits-restore mapping y q.variable_index_b)
      (sum_up _ _ _ _ _ _ _ (copy_quadratic-total mapping y qs next)
        (copy_quadratic_element-total y ret q.factor a b))
  where
    sum_up : (t n r p s u v : ℤ) → t ≡ n +ℤ u +ℤ v → n ≡ r +ℤ p +ℤ s → t ≡ r +ℤ (p +ℤ u) +ℤ (s +ℤ v)
    sum_up t n r p s u v h k = let e = parts h in let f = parts k in omega int_laws

kept_step : (t v l q u p l' : ℤ) → t ≡ v +ℤ l' +ℤ q +ℤ u → l' ≡ l +ℤ p → t ≡ v +ℤ l +ℤ q +ℤ (p +ℤ u)
kept_step t v l q u p l' h k = let e = parts h in let f = parts k in omega int_laws

fixed_step :
    (ret : ObjectiveFunction ℤ) (b : Bool) (f t l q u : ℤ)
    → (let o = if b then record ret { value = ret.value +ℤ f } else ret in
        t ≡ o.value +ℤ l +ℤ q +ℤ u)
    → t ≡ ret.value +ℤ l +ℤ q +ℤ (f *ℤ bit b +ℤ u)
fixed_step ret true f t l q u h = let e = parts h in omega (int_laws, parts (*ℤ-one f))
fixed_step ret false f t l q u h = let e = parts h in omega (int_laws, parts (*ℤ-zero f))

same_parts :
    (ret : ObjectiveFunction ℤ) (b : Bool) (f : ℤ) (x : ℕ → ℤ)
    → (let o = if b then record ret { value = ret.value +ℤ f } else ret in
        total o x ≡ o.value +ℤ lin ret.elements x +ℤ quad ret.qelements x)
same_parts ret true f x = refl
same_parts ret false f x = refl

copy_linear-total :
    (mapping : List Mapped) (y : ℕ → Bool) (es : Linear) (ret : ObjectiveFunction ℤ)
    → total (copy_linear integers mapping ret es) (bits y)
      ≡ total ret (bits y) +ℤ lin es (bits (restore mapping y))
unfolding copy_linear lin
copy_linear-total mapping y [] ret = sym (+ℤ-zero _)
copy_linear-total mapping y (e ∷ es) ret = elim (Mapped-cases (mapped mapping e.variable_index)) [
  | inl (c, m) ↦
      rw (m, copy_linear, restore-kept mapping y e.variable_index c m)
        (kept_step _ ret.value (lin ret.elements (bits y)) (quad ret.qelements (bits y)) _ _ _
          (copy_linear-total mapping y es (record ret {
            elements = ret.elements ++ record { factor = e.factor; variable_index = c } ∷ [];
          }))
          (lin-append_one ret.elements (record { factor = e.factor; variable_index = c }) (bits y)))
  | inr (v, m) ↦
      let next = if v then record ret { value = ret.value +ℤ e.factor } else ret in
      rw (m, copy_linear, restore-fixed mapping y e.variable_index v m)
        (fixed_step ret v e.factor _ (lin ret.elements (bits y)) (quad ret.qelements (bits y)) _ (
          copy_linear-total mapping y es next
          ∙ ap (λ t. t +ℤ lin es (bits (restore mapping y))) (same_parts ret v e.factor (bits y))))
]

-- Nothing that `make_lp_from_bqp_objective` leaves to merge.
abbrev pub nothing : MergeObjective ℤ
nothing = record { elements = []; value = pos 0 }

-- With nothing to merge, the objective function of the copy has at every assignment the value that
-- the original has at the assignment that it stands for, and in excess the factor of each quadratic
-- element with one variable that is fixed to 0 and one that stays and is 1. The factors are whole.
pub objective_function_exclude_copy-value :
    (mapping : List Mapped) (o : ObjectiveFunction ℤ) (y : ℕ → Bool)
    → (c : ObjectiveFunction ℤ) × (objective_function_exclude_copy integers mapping o nothing
        ≡ ok c)
      × (objective_value integers c (bits y)
          ≡ objective_value integers o (bits (restore mapping y)) +ℤ excess mapping y o.qelements)
unfolding objective_function_exclude_copy copy_merged lin quad
objective_function_exclude_copy-value mapping o y =
    let start : ObjectiveFunction ℤ = record {
      elements = [];
      qelements = [];
      value = o.value +ℤ pos 0;
    } in
    let l = copy_linear integers mapping start o.elements in
    let c = copy_quadratic integers mapping l o.qelements in
    (
      c,
      refl,
      objective_value-total c (bits y)
          ∙ sum_all _ _ _ _ _ _ (copy_linear-total mapping y o.elements start)
              (copy_quadratic-total mapping y o.qelements l)
          ∙ ap (λ t. t +ℤ excess mapping y o.qelements)
              (sym (objective_value-total o (bits (restore mapping y)))),
    )
  where
    sum_all :
        (t l v u q w : ℤ)
        → l ≡ v +ℤ pos 0 +ℤ pos 0 +ℤ pos 0 +ℤ u
        → t ≡ l +ℤ q +ℤ w
        → t ≡ v +ℤ u +ℤ q +ℤ w
    sum_all t l v u q w h k = let e = parts h in let f = parts k in omega int_laws
