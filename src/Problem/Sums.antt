-- ===== src/Problem/Sums.antt =====
-- Laws of `compute_function` (lib/src/lpcore.cpp): the running sum against a plain recursion, and
-- what it does not depend on.
use mathlib.Core.List.{Permᴰ}
use baryonyx.Base.{ℕ, ◌≡◌, refl, sym, List, [], ◌∷◌, ◌++◌, ◌∙◌, ap, All}
use baryonyx.Base.Int.{ℤ, pos, ◌+ℤ◌, ◌*ℤ◌, +ℤ-zero, zero-+ℤ, +ℤ_assoc, +ℤ_left_comm}
use baryonyx.Problem.{FunctionElement, compute_from, compute_function}

-- The sum as a recursion on the elements.
unfoldable pub dot : List FunctionElement → (ℕ → ℤ) → ℤ
dot [] x = pos 0
dot (f ∷ fct) x = x f.variable_index *ℤ f.factor +ℤ dot fct x

pub compute_from-dot :
    (v : ℤ) (fct : List FunctionElement) (x : ℕ → ℤ) → compute_from v fct x ≡ v +ℤ dot fct x
unfolding compute_from dot
compute_from-dot v [] x = sym (+ℤ-zero v)
compute_from-dot v (f ∷ fct) x =
    compute_from-dot (v +ℤ x f.variable_index *ℤ f.factor) fct x ∙ +ℤ_assoc v _ _

pub compute_function-dot :
    (fct : List FunctionElement) (x : ℕ → ℤ) → compute_function fct x ≡ dot fct x
unfolding compute_function
compute_function-dot fct x = compute_from-dot (pos 0) fct x ∙ zero-+ℤ (dot fct x)

pub dot-append :
    (es fs : List FunctionElement) (x : ℕ → ℤ) → dot (es ++ fs) x ≡ dot es x +ℤ dot fs x
unfolding dot
dot-append [] fs x = sym (zero-+ℤ (dot fs x))
dot-append (e ∷ es) fs x =
    ap (λ t. x e.variable_index *ℤ e.factor +ℤ t) (dot-append es fs x) ∙ sym (+ℤ_assoc _ _ _)

-- The order of the elements does not matter.
pub dot-permᴰ : {es fs : List FunctionElement} (x : ℕ → ℤ) → Permᴰ es fs → dot es x ≡ dot fs x
unfolding dot
dot-permᴰ x Permᴰ.nil = refl
dot-permᴰ x (Permᴰ.cons {l₁ = es} {l₂ = fs} e p) = rw (e, dot-permᴰ x p)
dot-permᴰ x (Permᴰ.swap {l = es} e f) = rw (e, f) (+ℤ_left_comm _ _ (dot es x))
dot-permᴰ x (Permᴰ.trans p q) = dot-permᴰ x p ∙ dot-permᴰ x q

-- Only the variables that the elements name are read.
pub dot-congr :
    (fct : List FunctionElement) (x y : ℕ → ℤ)
    → All (λ e. x e.variable_index ≡ y e.variable_index) fct
    → dot fct x ≡ dot fct y
unfolding dot
dot-congr [] x y h = refl
dot-congr (e ∷ es) x y h = rw (h.0, dot-congr es x y h.1)
