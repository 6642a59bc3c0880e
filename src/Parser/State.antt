-- ===== src/Parser/State.antt =====
-- `problem_parser` of lib/src/parser.cpp, and how a run of the parser stops. The hash map
-- `m_cache_variable` is an association list.
use Prim.Native.String.{String}
use text.Mathlib.Text.{◌==◌ as ◌=ₛ◌}
use baryonyx.Base.{
  ℕ, List, [], ◌∷◌, ◌++◌, ◌&&◌, ◌==◌, if◌then◌else◌, Option, none, some, ltb, length, drop, modify,
}
use baryonyx.Base.Int.{pos, int_min, int_max}
use baryonyx.Base.Result.{Result, ok, err, ◌>>=◌}
use baryonyx.Double.{Double}
use baryonyx.Problem.{VariableType, VariableValue, ObjectiveFunctionElement, RawProblem}
use baryonyx.Parser.{Scanner}
use baryonyx.Parser.Chars.{is_empty}
use baryonyx.Parser.Lexer.{Tokens}
use baryonyx.Parser.Readers.{FunctionElementToken}
use baryonyx.Parser.Bounds.{BoundToken}

abbrev pub NameIndex : Type 0
NameIndex = List (String × ℕ)

pub record ProblemParser (D : Type 0) : Type 0 where
  pub problem : RawProblem D
  pub cache_variable : NameIndex

-- The stream, as the tokens that are left, and the problem so far.
pub record Parsing (D : Type 0) : Type 0 where
  pub tokens : Tokens
  pub parser : ProblemParser D

pub data FileFormatErrorTag : Type 0 where
  bad_end_of_file bad_general bad_binary bad_objective_function_type : FileFormatErrorTag
  bad_objective bad_objective_quadratic bad_bound bad_end : FileFormatErrorTag
  bad_constraint too_many_variables too_many_constraints : FileFormatErrorTag

-- How the parser stops before its end: an error of the input, a failing `bx_expects`, or a name whose
-- place was read over, so that the code goes on with other characters; or a word that does not fit its
-- place. The last is a loop that uses up its fuel.
pub data Stop (D : Type 0) : Type 0 where
  format : FileFormatErrorTag → Stop D
  precondition overwritten word_too_long : Stop D
  out_of_fuel : ProblemParser D → Stop D

unfoldable pub find_index : NameIndex → String → Option ℕ
find_index [] value = none
find_index ((name, id) ∷ cache) value = if name =ₛ value then some id else find_index cache value

abbrev pub new_value : VariableValue
new_value = record { min_value = pos 0; max_value = int_max; type = VariableType.real }

abbrev pub index_limit : ℕ
index_limit = 2147483647

module _ {D : Type 0} where
  -- `pop_front(size)`; its `bx_expects` wants a size from 1 to 9.
  unfoldable pub pop_front : ℕ → Parsing D → Result (Stop D) (Parsing D)
  pop_front size s =
      if ltb 0 size && ltb size 10
      then ok (record { tokens = drop size s.tokens; parser = s.parser })
      else err Stop.precondition

  -- An error of the input if there is no value.
  abbrev pub value_or : {A : Type 0} → FileFormatErrorTag → Option A → Result (Stop D) A
  value_or tag none = err (Stop.format tag)
  value_or tag (some a) = ok a

  -- `get_or_assign_variable`, with its `-1` as `too_many_variables`.
  unfoldable pub add_variable : String → ProblemParser D → ProblemParser D
  add_variable value p = record {
    problem = record p.problem {
      vars = record {
        names = p.problem.vars.names ++ value ∷ [];
        values = p.problem.vars.values ++ new_value ∷ [];
      };
    };
    cache_variable = p.cache_variable ++ (value, length p.cache_variable) ∷ [];
  }

  unfoldable pub get_or_assign_variable :
      String → ProblemParser D → Result (Stop D) (ℕ × ProblemParser D)
  unfolding find_index add_variable
  get_or_assign_variable value p = elim (find_index p.cache_variable value) [
    | some id ↦ ok (id, p)
    | none ↦
        if ltb index_limit (length p.cache_variable)
        then err (Stop.format FileFormatErrorTag.too_many_variables)
        else ok (length p.cache_variable, add_variable value p)
  ]

  unfoldable pub get_variable : String → ProblemParser D → Option ℕ
  unfolding find_index
  get_variable value p = find_index p.cache_variable value

  abbrev pub change_value : ℕ → (VariableValue → VariableValue) → ProblemParser D → ProblemParser D
  change_value id f p = record p {
    problem = record p.problem {
      vars = record { names = p.problem.vars.names; values = modify p.problem.vars.values id f };
    };
  }

  -- The bounds and the type of the variable with a name are changed, if there is one.
  unfoldable pub set_named :
      (VariableValue → VariableValue) → String → ProblemParser D → Option (ProblemParser D)
  unfolding get_variable
  set_named f value p = elim (get_variable value p) [
    | none ↦ none
    | some id ↦ some (change_value id f p)
  ]

  unfoldable pub set_boolean_variable : String → ProblemParser D → Option (ProblemParser D)
  unfolding set_named
  set_boolean_variable value p =
      set_named (λ v. record { min_value = pos 0; max_value = pos 1; type = VariableType.binary })
        value p

  unfoldable pub set_integer_variable : String → ProblemParser D → Option (ProblemParser D)
  unfolding set_named
  set_integer_variable value p = set_named (λ v. record v { type = VariableType.general }) value p

module _ (fl : Double) where
  open fl use {D, ◌⊕◌}

  unfoldable pub add_to_linear :
      D → ℕ → List (ObjectiveFunctionElement D) → List (ObjectiveFunctionElement D)
  add_to_linear factor id [] = record { factor = factor; variable_index = id } ∷ []
  add_to_linear factor id (e ∷ es) =
      let rest = add_to_linear factor id es in
      if e.variable_index == id
      then record { factor = e.factor ⊕ factor; variable_index = e.variable_index } ∷ es
      else e ∷ rest

  unfoldable pub append_to_objective :
      FunctionElementToken D → ProblemParser D → Result (Stop D) (ProblemParser D)
  unfolding add_to_linear
  append_to_objective elem p =
      if is_empty elem.name
      then ok (record p {
        problem = record p.problem {
          objective = record p.problem.objective {
            value = p.problem.objective.value ⊕ elem.factor;
          };
        };
      })
      else (get_or_assign_variable elem.name p >>= λ (id, q). ok (record q {
        problem = record q.problem {
          objective = record q.problem.objective {
            elements = add_to_linear elem.factor id q.problem.objective.elements;
          };
        };
      }))

module _ {fl : Double} (sc : Scanner fl) where
  open fl use {D, eqb}

  unfoldable pub set_bound_variable : BoundToken D → ProblemParser D → Option (ProblemParser D)
  unfolding set_named
  set_bound_variable bound p =
      set_named
        (λ v. record {
          min_value =
              if eqb bound.min_value sc.neg_infinity then int_min else sc.truncate bound.min_value;
          max_value =
              if eqb bound.max_value sc.infinity then int_max else sc.truncate bound.max_value;
          type = v.type;
        })
        bound.name p
