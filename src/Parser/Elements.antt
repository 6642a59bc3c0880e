-- ===== src/Parser/Elements.antt =====
-- The loops of lib/src/parser.cpp over the elements of a function: the quadratic elements of the
-- objective function and the elements of a constraint.
use Prim.Native.String.{String}
use text.Mathlib.Text.{◌==◌ as ◌=ₛ◌}
use baryonyx.Base.{
  ℕ, zero, suc, ◌+◌, ◌-◌, Bool, List, [], ◌∷◌, ◌&&◌, ◌||◌, ◌==◌, not, if◌then◌else◌, none, some,
  ltb, length, get_elem?,
}
use baryonyx.Base.Int.{ℤ, pos, ◌+ℤ◌}
use baryonyx.Base.Result.{Result, ok, err, ◌>>=◌}
use baryonyx.Double.{Double}
use baryonyx.Problem.{FunctionElement, ObjectiveQuadraticElement}
use baryonyx.Parser.{Scanner}
use baryonyx.Parser.Chars.{is_empty}
use baryonyx.Parser.Lexer.{Tokens, peek}
use baryonyx.Parser.Readers.{FunctionElementToken, read_name, read_quadratic_tokens}
use baryonyx.Parser.State.{
  ProblemParser, Parsing, FileFormatErrorTag, Stop, pop_front, value_or, get_or_assign_variable,
}

-- `while (test) body`, on a state with the stream in it.
module _ {D S : Type 0} (stream : S → Parsing D) (test : S → Bool)
    (body : S → Result (Stop D) S) where
  abbrev pub run_while : ℕ → S → Result (Stop D) S
  run_while zero s = if test s then err (Stop.out_of_fuel (stream s).parser) else ok s
  run_while (suc fuel) s = if test s then (body s >>= λ t. run_while fuel t) else ok s

  -- One round more than there are tokens.
  abbrev pub repeat : S → Result (Stop D) S
  repeat s = run_while (suc (length (stream s).tokens)) s

abbrev pub itself : {A : Type 0} → A → A
itself a = a

-- The word of the token at `i`, or of the last one before it: at the end of the input all words have
-- been read.
abbrev pub last_read : ℕ → ℕ → Tokens → ℕ
last_read word i [] = word
last_read word zero (t ∷ ts) = t.word
last_read word (suc i) (t ∷ ts) = last_read t.word i ts

-- Whether the place of the word `word` is not read over, when the last token of the buffer is the one
-- at `i` of `tokens`.
unfoldable pub is_kept : ℕ → ℕ → Tokens → Bool
is_kept i word tokens = ltb (last_read word i tokens) (word + 10)

abbrev pub word_at : Tokens → ℕ → ℕ
word_at tokens i = elim (get_elem? tokens i) [ none ↦ 0 | some t ↦ t.word ]

module _ {D : Type 0} where
  abbrev pub first : Parsing D → String
  first s = peek s.tokens 0

  abbrev pub second : Parsing D → String
  second s = peek s.tokens 1

  abbrev pub third : Parsing D → String
  third s = peek s.tokens 2

  abbrev pub with_parser : Parsing D → ProblemParser D → Parsing D
  with_parser s p = record { tokens = s.tokens; parser = p }

  -- A name whose place is not read over.
  abbrev pub assign_kept : Bool → String → Parsing D → Result (Stop D) (ℕ × Parsing D)
  assign_kept kept name s =
      if kept
      then (get_or_assign_variable name s.parser >>= λ (id, p). ok (id, with_parser s p))
      else err Stop.overwritten

-- An element of a constraint; `it->factor += factor` where the variable is there already.
unfoldable pub add_element : ℤ → ℕ → List FunctionElement → List FunctionElement
add_element factor id [] = record { factor = factor; variable_index = id } ∷ []
add_element factor id (e ∷ es) =
    let rest = add_element factor id es in
    if e.variable_index == id
    then record { factor = e.factor +ℤ factor; variable_index = e.variable_index } ∷ es
    else e ∷ rest

module _ {fl : Double} (sc : Scanner fl) where
  open fl use {D, of_int, ◌⊕◌, ◌⊗◌, ◌÷◌}

  abbrev pub same_pair : ℕ → ℕ → ObjectiveQuadraticElement D → Bool
  same_pair id1 id2 e =
      (e.variable_index_a == id1) && (e.variable_index_b == id2)
      || (e.variable_index_a == id2) && (e.variable_index_b == id1)

  unfoldable pub add_to_quadratic :
      D → ℕ → ℕ → List (ObjectiveQuadraticElement D) → List (ObjectiveQuadraticElement D)
  add_to_quadratic factor id1 id2 [] =
      record { factor = factor; variable_index_a = id1; variable_index_b = id2 } ∷ []
  add_to_quadratic factor id1 id2 (e ∷ es) =
      let rest = add_to_quadratic factor id1 id2 es in
      if same_pair id1 id2 e then record e { factor = e.factor ⊕ factor } ∷ es else e ∷ rest

  abbrev pub add_quadratic : D → ℕ → ℕ → Parsing D → Parsing D
  add_quadratic factor id1 id2 s = with_parser s (record s.parser {
    problem = record s.parser.problem {
      objective = record s.parser.problem.objective {
        qelements = add_to_quadratic factor id1 id2 s.parser.problem.objective.qelements;
      };
    };
  })

  abbrev pub half : D → D → D
  half factor sign_factor = factor ⊗ sign_factor ÷ of_int (pos 2)

  -- After the factor and the first name: a product, a square, or nothing that is kept.
  unfoldable pub read_product :
      D → ℕ → FunctionElementToken D → Parsing D → Result (Stop D) (Parsing D)
  unfolding read_name is_kept add_to_quadratic
  read_product sign_factor word fct s = do
    name ← value_or FileFormatErrorTag.bad_objective_quadratic (read_name (second s))
    (id1, t) ← assign_kept (is_kept 9 word s.tokens) fct.name s
    (id2, p) ← get_or_assign_variable name t.parser
    pop_front 2 (add_quadratic (half fct.factor sign_factor) id1 id2 (with_parser t p))

  -- The number of tokens of `^ 2` or `^2`.
  abbrev pub square_size : Parsing D → ℕ
  square_size s = if (first s =ₛ "^") && (second s =ₛ "2") then 2 else 1

  unfoldable pub read_square :
      D → ℕ → FunctionElementToken D → Parsing D → Result (Stop D) (Parsing D)
  unfolding is_kept add_to_quadratic
  read_square sign_factor word fct s = do
    t ← pop_front (square_size s) s
    (id, u) ← assign_kept (is_kept (9 + square_size s) word s.tokens) fct.name t
    ok (add_quadratic (half fct.factor sign_factor) id id u)

  unfoldable pub read_quadratic_step : D → Parsing D → Result (Stop D) (Parsing D)
  unfolding read_quadratic_tokens read_product read_square
  read_quadratic_step sign_factor s = do
    fct ←
        value_or FileFormatErrorTag.bad_objective_quadratic
          (read_quadratic_tokens sc (first s) (second s) (third s))
    t ← pop_front fct.read s
    if first t =ₛ "*"
        then read_product sign_factor (word_at s.tokens (fct.read - 1)) fct t
        else if (first t =ₛ "^") || (first t =ₛ "^2")
        then read_square sign_factor (word_at s.tokens (fct.read - 1)) fct t
        else ok t

  abbrev pub in_brackets : Parsing D → Bool
  in_brackets s = not (is_empty (first s)) && not (first s =ₛ "]")

  -- The `/2` behind the brackets.
  unfoldable pub read_half : Parsing D → Result (Stop D) (Parsing D)
  read_half v =
      if (first v =ₛ "/") && (second v =ₛ "2")
      then pop_front 2 v
      else if first v =ₛ "/2"
      then pop_front 1 v
      else err (Stop.format FileFormatErrorTag.bad_objective_quadratic)

  -- `read_quadratic_element(buf, p, sign_factor)`.
  unfoldable pub read_quadratic_element : D → Parsing D → Result (Stop D) (Parsing D)
  unfolding read_quadratic_step read_half
  read_quadratic_element sign_factor s =
      if first s =ₛ "["
      then (pop_front 1 s >>= λ t.
          repeat itself in_brackets (read_quadratic_step sign_factor) t >>= λ u.
          pop_front 1 u >>= λ v. read_half v)
      else err (Stop.format FileFormatErrorTag.bad_objective_quadratic)
