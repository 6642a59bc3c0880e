-- ===== src/Parser/Readers.antt =====
-- The readers of lib/src/parser.cpp that look at a few tokens: numbers, names, operators, elements of
-- functions, and the titles of the sections. A `std::optional` is an `Option`.
use Prim.Native.String.{String}
use text.Mathlib.Text.{◌==◌ as ◌=ₛ◌}
use baryonyx.Base.{
  ℕ, suc, ◌+◌, Bool, true, ◌&&◌, ◌||◌, ◌==◌, not, if◌then◌else◌, Option, none, some, ltb,
}
use baryonyx.Base.Int.{pos, negsuc}
use baryonyx.Double.{Double}
use baryonyx.Problem.{ObjectiveFunctionType, OperatorType}
use baryonyx.Parser.{Scanner}
use baryonyx.Parser.Chars.{
  are_equal, is_empty, head, is_char_name, is_number, is_keyword, starts_with_name,
}

pub record OperatorToken : Type 0 where
  pub op : OperatorType
  pub read : ℕ

pub record RealToken (D : Type 0) : Type 0 where
  pub value : D
  pub read : ℕ

pub record FunctionElementToken (D : Type 0) : Type 0 where
  pub factor : D
  pub name : String
  pub read : ℕ

abbrev pub size : String → ℕ
size String.[] = 0
size (String.◌∷◌ c s) = suc (size s)

abbrev pub all_name : String → Bool
all_name String.[] = true
all_name (String.◌∷◌ c s) = is_char_name (Prim.Native.Char.code c) && all_name s

unfoldable pub read_name : String → Option String
unfolding is_char_name
read_name buf = if all_name buf then some buf else none

unfoldable pub read_operator : String → String → Option OperatorToken
read_operator buf_1 buf_2 =
    if buf_1 =ₛ "<"
    then some (record { op = OperatorType.less; read = if buf_2 =ₛ "=" then 2 else 1 })
    else if buf_1 =ₛ ">"
    then some (record { op = OperatorType.greater; read = if buf_2 =ₛ "=" then 2 else 1 })
    else if buf_1 =ₛ "="
    then (if buf_2 =ₛ "<"
        then some (record { op = OperatorType.less; read = 2 })
        else if buf_2 =ₛ "="
        then some (record { op = OperatorType.equal; read = 2 })
        else if buf_2 =ₛ ">"
        then some (record { op = OperatorType.greater; read = 2 })
        else some (record { op = OperatorType.equal; read = 1 }))
    else none

unfoldable pub is_objective_function : String → Bool
unfolding is_keyword is_number is_char_name
is_objective_function buf =
    not (is_empty buf)
    && not (is_keyword buf)
    && ((buf =ₛ "+") || (buf =ₛ "-") || is_number (head buf) || is_char_name (head buf))

unfoldable pub read_objective_type : String → Option ObjectiveFunctionType
unfolding are_equal
read_objective_type token =
    if are_equal token "maximize" || are_equal token "maximum" || are_equal token "max"
    then some ObjectiveFunctionType.maximize
    else if are_equal token "minimize" || are_equal token "minimum" || are_equal token "min"
    then some ObjectiveFunctionType.minimize
    else none

unfoldable pub try_read_objective_label : String → String → ℕ
unfolding is_keyword are_equal
try_read_objective_label first second =
    if is_keyword first then 0 else if are_equal second ":" then 2 else 0

unfoldable pub read_subject_to : String → String → String → ℕ
unfolding are_equal
read_subject_to buf_1 buf_2 buf_3 =
    if are_equal buf_1 "st"
      || are_equal buf_1 "st."
      || are_equal buf_1 "s.t"
      || are_equal buf_1 "s.t."
    then (if are_equal buf_2 ":" then 2 else 1)
    else if are_equal buf_1 "subject" && are_equal buf_2 "to"
    then (if are_equal buf_3 ":" then 3 else 2)
    else if are_equal buf_1 "sush" && are_equal buf_2 "that"
    then (if are_equal buf_3 ":" then 3 else 2)
    else 0

unfoldable pub read_bounds : String → String → ℕ
unfolding are_equal
read_bounds buf_1 buf_2 =
    if are_equal buf_1 "bounds" || are_equal buf_1 "bound"
    then (if are_equal buf_2 ":" then 2 else 1)
    else 0

unfoldable pub read_binary : String → String → ℕ
unfolding are_equal
read_binary buf_1 buf_2 =
    if are_equal buf_1 "binary" || are_equal buf_1 "binaries" || are_equal buf_1 "bin"
    then (if are_equal buf_2 ":" then 2 else 1)
    else 0

unfoldable pub read_general : String → String → ℕ
unfolding are_equal
read_general buf_1 buf_2 =
    if are_equal buf_1 "general" || are_equal buf_1 "generals" || are_equal buf_1 "gen"
    then (if are_equal buf_2 ":" then 2 else 1)
    else 0

unfoldable pub read_end : String → String → ℕ
unfolding are_equal
read_end buf_1 buf_2 = if are_equal buf_1 "end" then (if are_equal buf_2 ":" then 2 else 1) else 0

unfoldable pub starts_with_quadratic : String → String → Bool
starts_with_quadratic buf_1 buf_2 =
    (buf_1 =ₛ "[") || (buf_1 =ₛ "+") && (buf_2 =ₛ "[") || (buf_1 =ₛ "-") && (buf_2 =ₛ "[")

-- The text that follows a number of `read` tokens, of the three next ones.
unfoldable pub to_read : ℕ → String → String → String → String
to_read read buf_1 buf_2 buf_3 = if read == 0 then buf_1 else if read == 1 then buf_2 else buf_3

module _ {fl : Double} (sc : Scanner fl) where
  open fl use {D, of_int, ◌⊗◌}

  -- `read_real(buf)`. The write behind the buffer of 320 characters, for a text of that size, is left
  -- out.
  unfoldable pub read_real : String → Option D
  unfolding are_equal
  read_real buf =
      if not (ltb (size buf) 3) && are_equal buf "inf"
      then some sc.infinity
      else if ltb 320 (size buf)
      then none
      else sc.scan buf

  -- `read_real(buf_1, buf_2)`, which always returns a token.
  unfoldable pub read_signed_real : String → String → RealToken D
  unfolding read_real
  read_signed_real buf_1 buf_2 =
      if buf_1 =ₛ "-"
      then elim (read_real buf_2) [
        | none ↦ record { value = of_int (negsuc 0); read = 1 }
        | some v ↦ record { value = of_int (negsuc 0) ⊗ v; read = 2 }
      ]
      else if buf_1 =ₛ "+"
      then elim (read_real buf_2) [
        | none ↦ record { value = of_int (pos 1); read = 1 }
        | some v ↦ record { value = v; read = 2 }
      ]
      else elim (read_real buf_1) [
        | none ↦ record { value = of_int (pos 1); read = 0 }
        | some v ↦ record { value = v; read = 1 }
      ]

  -- `read_quadratic_element(buf_1, buf_2, buf_3)`.
  unfoldable pub read_quadratic_tokens : String → String → String → Option (FunctionElementToken D)
  unfolding read_signed_real is_keyword starts_with_name read_name to_read
  read_quadratic_tokens buf_1 buf_2 buf_3 =
      let real = read_signed_real buf_1 buf_2 in
      let name = to_read real.read buf_1 buf_2 buf_3 in
      if is_keyword name || not (starts_with_name name) then none else elim (read_name name) [
        | none ↦ none
        | some n ↦ some (record { factor = real.value; name = n; read = real.read + 1 })
      ]

  unfoldable pub read_function_element : String → String → String → Option (FunctionElementToken D)
  unfolding read_signed_real is_keyword starts_with_name read_name to_read
  read_function_element buf_1 buf_2 buf_3 =
      let real = read_signed_real buf_1 buf_2 in
      let name = to_read real.read buf_1 buf_2 buf_3 in
      if not (is_keyword name) && starts_with_name name
      then elim (read_name name) [
        | none ↦ none
        | some n ↦ some (record { factor = real.value; name = n; read = real.read + 1 })
      ]
      else some (record { factor = real.value; name = ""; read = real.read })
