-- ===== src/Double.antt =====
-- The floating point operations that the source uses, as a parameter: `float`, `double` or
-- `long double`. What the operations return is left open.
use baryonyx.Base.{Bool}
use baryonyx.Base.Int.{ℤ, pos, ◌+ℤ◌, ◌*ℤ◌, ltb_ℤ, eqb_ℤ}

pub record Double : Type 1 where
  pub D : Type 0
  pub zero : D
  pub of_int : ℤ → D
  pub ◌⊕◌ : D → D → D
  pub ◌⊗◌ : D → D → D
  pub ◌÷◌ : D → D → D
  pub ltb : D → D → Bool
  pub eqb : D → D → Bool
  infixl 65 ◌⊕◌
  infixl 70 ◌⊗◌ ◌÷◌

-- Whole numbers in the place of floating point numbers, on which the sums and products are exact; the
-- division is left out.
abbrev pub integers : Double
integers = record {
  D = ℤ;
  zero = pos 0;
  of_int = λ a. a;
  ◌⊕◌ = λ a b. a +ℤ b;
  ◌⊗◌ = λ a b. a *ℤ b;
  ◌÷◌ = λ a b. a;
  ltb = ltb_ℤ;
  eqb = eqb_ℤ;
}
