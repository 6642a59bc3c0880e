-- ===== src/Parser/Bounds.antt =====
-- The readers of the section of bounds of lib/src/parser.cpp.
use Prim.Native.String.{String}
use text.Mathlib.Text.{◌==◌ as ◌=ₛ◌}
use baryonyx.Base.{ℕ, suc, ◌+◌, ◌||◌, ◌==◌, if◌then◌else◌, Option, none, some}
use baryonyx.Base.Int.{pos, negsuc}
use baryonyx.Double.{Double}
use baryonyx.Problem.{OperatorType}
use baryonyx.Parser.{Scanner}
use baryonyx.Parser.Chars.{starts_with_number, starts_with_name, starts_with_operator}
use baryonyx.Parser.Lexer.{Tokens, peek}
use baryonyx.Parser.Readers.{OperatorToken, read_operator, read_name, read_real}

pub record SubBoundToken (D : Type 0) : Type 0 where
  pub value : D
  pub read : ℕ
  pub op : OperatorType

pub record BoundToken (D : Type 0) : Type 0 where
  pub min_value : D
  pub max_value : D
  pub name : String
  pub read : ℕ

infixl 5 ◌>>=ₒ◌
abbrev pub ◌>>=ₒ◌ : {A B : Type 0} → Option A → (A → Option B) → Option B
none >>=ₒ f = none
some a >>=ₒ f = f a

module _ {fl : Double} (sc : Scanner fl) where
  open fl use {D, zero, of_int, ◌⊗◌, ltb}

  abbrev pub bound_sign : String → D
  bound_sign buf = if buf =ₛ "-" then of_int (negsuc 0) else of_int (pos 1)

  unfoldable pub read_left_bound_token :
      String → String → String → String → Option (SubBoundToken D)
  unfolding read_real read_operator
  read_left_bound_token buf_1 buf_2 buf_3 buf_4 =
      if (buf_1 =ₛ "+") || (buf_1 =ₛ "-")
      then (read_real sc buf_2 >>=ₒ λ value. read_operator buf_3 buf_4 >>=ₒ λ o.
          some (record { value = value ⊗ bound_sign buf_1; read = o.read + 2; op = o.op }))
      else (read_real sc buf_1 >>=ₒ λ value. read_operator buf_2 buf_3 >>=ₒ λ o.
          some (record { value = value ⊗ of_int (pos 1); read = o.read + 1; op = o.op }))

  -- A signed number after an operator of `read` tokens.
  abbrev pub read_bound_value : OperatorToken → String → String → Option (SubBoundToken D)
  read_bound_value o buf_1 buf_2 =
      if (buf_1 =ₛ "+") || (buf_1 =ₛ "-")
      then (read_real sc buf_2 >>=ₒ λ value.
          some (record { value = bound_sign buf_1 ⊗ value; read = o.read + 2; op = o.op }))
      else (read_real sc buf_1 >>=ₒ λ value.
          some (record { value = of_int (pos 1) ⊗ value; read = o.read + 1; op = o.op }))

  unfoldable pub read_right_bound_token :
      String → String → String → String → Option (SubBoundToken D)
  unfolding read_operator
  read_right_bound_token buf_1 buf_2 buf_3 buf_4 = read_operator buf_1 buf_2 >>=ₒ λ o.
      if o.read == 1 then read_bound_value o buf_2 buf_3 else read_bound_value o buf_3 buf_4

  -- Behind the number and the name at `read`.
  unfoldable pub read_upper_bound : SubBoundToken D → String → ℕ → Tokens → Option (BoundToken D)
  unfolding starts_with_operator read_right_bound_token
  read_upper_bound left name read tokens =
      if starts_with_operator (peek tokens read)
      then (read_right_bound_token (peek tokens read) (peek tokens (read + 1))
            (peek tokens (read + 2)) (peek tokens (read + 3))
          >>=ₒ λ right.
              if ltb right.value left.value
              then none
              else some (record {
                min_value = left.value;
                max_value = right.value;
                name = name;
                read = read + right.read;
              }))
      else some
          (record { min_value = left.value; max_value = sc.infinity; name = name; read = read + 1 })

  unfoldable pub read_bound_of_name : String → Tokens → Option (BoundToken D)
  unfolding starts_with_operator read_right_bound_token
  read_bound_of_name name tokens =
      if starts_with_operator (peek tokens 1)
      then (read_right_bound_token (peek tokens 1) (peek tokens 2) (peek tokens 3) (peek tokens 4)
          >>=ₒ λ right. some (record {
            min_value = zero;
            max_value = right.value;
            name = name;
            read = 1 + right.read;
          }))
      else some
          (record { min_value = sc.neg_infinity; max_value = sc.infinity; name = name; read = 1 })

  unfoldable pub read_bound : Tokens → Option (BoundToken D)
  unfolding starts_with_number starts_with_name read_name read_left_bound_token read_upper_bound
      read_bound_of_name
  read_bound tokens =
      if starts_with_number (peek tokens 0)
      then (read_left_bound_token (peek tokens 0) (peek tokens 1) (peek tokens 2) (peek tokens 3)
          >>=ₒ λ left. read_name (peek tokens left.read) >>=ₒ λ name.
              read_upper_bound left name (suc left.read) tokens)
      else if starts_with_name (peek tokens 0)
      then (read_name (peek tokens 0) >>=ₒ λ name. read_bound_of_name name tokens)
      else none
