-- ===== src/Parser/Grammar.antt =====
-- `parse` and `make_problem` of lib/src/parser.cpp: the sections of a problem, in their order.
use Prim.Native.String.{String}
use text.Mathlib.Text.{◌==◌ as ◌=ₛ◌}
use baryonyx.Base.{
  ℕ, suc, ◌+◌, Bool, List, [], ◌∷◌, ◌++◌, ◌&&◌, ◌==◌, not, if◌then◌else◌, ltb, length,
}
use baryonyx.Base.Int.{pos, negsuc}
use baryonyx.Base.Result.{Result, ok, err, ◌>>=◌}
use baryonyx.Double.{Double}
use baryonyx.Problem.{FunctionElement, Constraint, ObjectiveFunctionType, OperatorType, RawProblem}
use baryonyx.Parser.{Scanner}
use baryonyx.Parser.Chars.{is_empty, is_keyword, starts_with_name, starts_with_operator}
use baryonyx.Parser.Lexer.{Reading, fits, tokens_of}
use baryonyx.Parser.Readers.{
  read_function_element, read_operator, read_signed_real, read_objective_type,
  try_read_objective_label, read_subject_to, read_bounds, read_binary, read_general, read_end,
  starts_with_quadratic,
}
use baryonyx.Parser.Bounds.{read_bound}
use baryonyx.Parser.State.{
  ProblemParser, Parsing, FileFormatErrorTag, Stop, pop_front, value_or, get_or_assign_variable,
  append_to_objective, set_boolean_variable, set_integer_variable, set_bound_variable, index_limit,
}
use baryonyx.Parser.Elements.{
  repeat, itself, first, second, third, with_parser, add_element, read_quadratic_element,
}

abbrev pub add_constraint : {D : Type 0} → OperatorType → Constraint → RawProblem D → RawProblem D
add_constraint OperatorType.equal c pb = record pb {
  equal_constraints = pb.equal_constraints ++ c ∷ [];
}
add_constraint OperatorType.greater c pb = record pb {
  greater_constraints = pb.greater_constraints ++ c ∷ [];
}
add_constraint OperatorType.less c pb = record pb {
  less_constraints = pb.less_constraints ++ c ∷ [];
}

module _ {D : Type 0} where
  -- `if (auto read = ...; read) pop_front(read)`.
  abbrev pub pop_some : ℕ → Parsing D → Result (Stop D) (Parsing D)
  pop_some read s = if read == 0 then ok s else pop_front read s

  abbrev pub before_keyword : Parsing D → Bool
  before_keyword s = not (is_keyword (first s))

  unfoldable pub parse_label : Parsing D → Result (Stop D) (String × Parsing D)
  unfolding starts_with_name
  parse_label s =
      if starts_with_name (first s) && (second s =ₛ ":")
      then (pop_front 2 s >>= λ t. ok (first s, t))
      else ok ("", s)

  unfoldable pub parse_binary : Parsing D → Result (Stop D) (Parsing D)
  unfolding set_boolean_variable
  parse_binary s =
      value_or FileFormatErrorTag.bad_binary (set_boolean_variable (first s) s.parser) >>= λ p.
      pop_front 1 (with_parser s p)

  unfoldable pub parse_general : Parsing D → Result (Stop D) (Parsing D)
  unfolding set_integer_variable
  parse_general s =
      value_or FileFormatErrorTag.bad_general (set_integer_variable (first s) s.parser) >>= λ p.
      pop_front 1 (with_parser s p)

  unfoldable pub parse_binaries : Parsing D → Result (Stop D) (Parsing D)
  unfolding read_binary parse_binary
  parse_binaries s =
      if read_binary (first s) (second s) == 0
      then ok s
      else (pop_front (read_binary (first s) (second s)) s >>= λ t.
          repeat itself before_keyword parse_binary t)

  unfoldable pub parse_generals : Parsing D → Result (Stop D) (Parsing D)
  unfolding read_general parse_general
  parse_generals s =
      if read_general (first s) (second s) == 0
      then ok s
      else (pop_front (read_general (first s) (second s)) s >>= λ t.
          repeat itself before_keyword parse_general t)

  unfoldable pub parse_end : Parsing D → Result (Stop D) (Parsing D)
  unfolding read_end
  parse_end s =
      if read_end (first s) (second s) == 0
      then err (Stop.format FileFormatErrorTag.bad_end)
      else (pop_front (read_end (first s) (second s)) s >>= λ t.
          if is_empty (first t) then ok t else err (Stop.format FileFormatErrorTag.bad_end_of_file))

module _ {fl : Double} (sc : Scanner fl) where
  open fl use {D, zero as zero_d, of_int}

  unfoldable pub parse_linear_element : Parsing D → Result (Stop D) (Parsing D)
  unfolding read_function_element append_to_objective
  parse_linear_element s =
      value_or FileFormatErrorTag.bad_objective
        (read_function_element sc (first s) (second s) (third s))
      >>= λ elem.
          append_to_objective fl elem s.parser >>= λ p. pop_front elem.read (with_parser s p)

  unfoldable pub parse_objective_element : Parsing D → Result (Stop D) (Parsing D)
  unfolding starts_with_quadratic parse_linear_element
  parse_objective_element s =
      if starts_with_quadratic (first s) (second s)
      then (if first s =ₛ "-"
          then (pop_front 1 s >>= λ t. read_quadratic_element sc (of_int (negsuc 0)) t)
          else if first s =ₛ "+"
          then (pop_front 1 s >>= λ t. read_quadratic_element sc (of_int (pos 1)) t)
          else read_quadratic_element sc (of_int (pos 1)) s)
      else parse_linear_element s

  -- An element of a constraint.
  unfoldable pub parse_element :
      List FunctionElement × Parsing D → Result (Stop D) (List FunctionElement × Parsing D)
  unfolding read_function_element get_or_assign_variable add_element
  parse_element (elements, s) =
      value_or FileFormatErrorTag.bad_constraint
        (read_function_element sc (first s) (second s) (third s))
      >>= λ elem. get_or_assign_variable elem.name s.parser >>= λ (id, p).
          pop_front elem.read (with_parser s p) >>= λ t.
          ok (add_element (sc.truncate elem.factor) id elements, t)

  abbrev pub before_operator : List FunctionElement × Parsing D → Bool
  before_operator (elements, s) = not (is_empty (first s)) && not (starts_with_operator (first s))

  -- The operator and the value, and the new constraint.
  unfoldable pub parse_right_side :
      ℕ → String → List FunctionElement × Parsing D → Result (Stop D) (Parsing D)
  unfolding read_operator read_signed_real
  parse_right_side id label (elements, s) = do
    o ← value_or FileFormatErrorTag.bad_constraint (read_operator (first s) (second s))
    t ← pop_front o.read s
    u ← pop_front (read_signed_real sc (first t) (second t)).read t
    ok (
        with_parser u (record u.parser {
          problem =
              add_constraint o.op
                (record {
                  label = label;
                  elements = elements;
                  value = sc.truncate (read_signed_real sc (first t) (second t)).value;
                  id = pos id;
                })
                u.parser.problem;
        }))

  unfoldable pub parse_constraint : ℕ × Parsing D → Result (Stop D) (ℕ × Parsing D)
  unfolding parse_label parse_element starts_with_operator parse_right_side
  parse_constraint (id, s) = do
    (label, t) ← parse_label s
    e ← parse_element ([], t)
    f ← repeat (λ x. x.1) before_operator parse_element e
    u ← parse_right_side id label f
    ok (suc id, u)

  abbrev pub in_constraints : ℕ × Parsing D → Bool
  in_constraints (id, s) = not (is_empty (first s)) && not (is_keyword (first s))

  unfoldable pub check_constraints : ℕ × Parsing D → Result (Stop D) (Parsing D)
  check_constraints (id, s) =
      let pb = s.parser.problem in
      if ltb index_limit
        (length pb.equal_constraints + length pb.greater_constraints + length pb.less_constraints)
      then err (Stop.format FileFormatErrorTag.too_many_constraints)
      else ok s

  unfoldable pub parse_constraints : Parsing D → Result (Stop D) (Parsing D)
  unfolding read_subject_to is_keyword parse_constraint check_constraints
  parse_constraints s =
      if read_subject_to (first s) (second s) (third s) == 0
      then ok s
      else (pop_front (read_subject_to (first s) (second s) (third s)) s >>= λ t.
          repeat (λ x. x.1) in_constraints parse_constraint (0, t) >>= λ u. check_constraints u)

  unfoldable pub parse_bound : Parsing D → Result (Stop D) (Parsing D)
  unfolding read_bound set_bound_variable
  parse_bound s = value_or FileFormatErrorTag.bad_bound (read_bound sc s.tokens) >>= λ bound.
      value_or FileFormatErrorTag.bad_bound (set_bound_variable sc bound s.parser) >>= λ p.
      pop_front bound.read (with_parser s p)

  unfoldable pub parse_bounds : Parsing D → Result (Stop D) (Parsing D)
  unfolding read_bounds is_keyword parse_bound
  parse_bounds s =
      if read_bounds (first s) (second s) == 0
      then ok s
      else (pop_front (read_bounds (first s) (second s)) s >>= λ t.
          repeat itself before_keyword parse_bound t)

  unfoldable pub parse_objective_type : Parsing D → Result (Stop D) (Parsing D)
  unfolding read_objective_type
  parse_objective_type s =
      value_or FileFormatErrorTag.bad_objective_function_type (read_objective_type (first s))
      >>= λ type.
          pop_front 1
            (with_parser s (record s.parser { problem = record s.parser.problem { type = type } }))

  unfoldable pub parse_objective : Parsing D → Result (Stop D) (Parsing D)
  unfolding parse_objective_type try_read_objective_label is_keyword parse_objective_element
  parse_objective s = do
    t ← parse_objective_type s
    u ← pop_some (try_read_objective_label (first t) (second t)) t
    repeat itself before_keyword parse_objective_element u

  unfoldable pub parse : Parsing D → Result (Stop D) (Parsing D)
  unfolding parse_objective parse_constraints parse_bounds parse_binaries parse_generals parse_end
  parse s = do
    t ← parse_objective s
    u ← parse_constraints t
    v ← parse_bounds u
    w ← parse_binaries v
    x ← parse_generals w
    parse_end x

  -- The constructor of `problem_parser`.
  abbrev pub new_parser : ProblemParser D
  new_parser =
      let pb : RawProblem D = record {
        objective = record { elements = []; qelements = []; value = zero_d };
        equal_constraints = [];
        greater_constraints = [];
        less_constraints = [];
        vars = record { names = []; values = [] };
        type = ObjectiveFunctionType.maximize;
      } in
      record { problem = pb; cache_variable = [] }

  unfoldable pub make_problem : String → Result (Stop D) (RawProblem D)
  unfolding fits tokens_of parse
  make_problem is =
      if fits (Reading.between "") is
      then (parse (record { tokens = tokens_of is; parser = new_parser }) >>= λ s.
          ok s.parser.problem)
      else err Stop.word_too_long
