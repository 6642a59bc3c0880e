-- ===== src/Parser/Tests.antt =====
-- Runs of the parser (lib/src/parser.cpp) on small texts, with whole numbers in the place of `double`.
use Prim.Native.Char.{code}
use Prim.Native.String.{String}
use baryonyx.Base.{
  arith, ◌==◌, ℕ, ◌+◌, ◌-◌, ◌*◌, ◌≡◌, refl, Bool, [], ◌∷◌, if◌then◌else◌, Option, none, some,
}
use baryonyx.Base.Int.{ℤ, pos, negsuc, ◌+ℤ◌, ◌*ℤ◌}
use baryonyx.Base.Result.{Result, ok, err}
use baryonyx.Double.{integers}
use baryonyx.Problem.{
  RawProblem, ObjectiveFunctionElement, ObjectiveFunctionType, VariableValue, VariableType,
  OperatorType, problem_of_raw, compute_function,
}
use baryonyx.Samples.{el, cst}
use baryonyx.Preprocess.Sound.{MeetsAll}
use baryonyx.Preprocess.Begin.{InBounds}
use baryonyx.Preprocess.Copy.{preprocess}
use baryonyx.Preprocess.Copy.Feasible.{HasSolution}
use baryonyx.Parser.{Scanner}
use baryonyx.Parser.Chars.{is_digit}
use baryonyx.Parser.Lexer.{fits, tokens_of}
use baryonyx.Parser.Elements.{read_quadratic_element}
use baryonyx.Parser.State.{FileFormatErrorTag, Stop, ProblemParser, pop_front}
use baryonyx.Parser.Invariant.{WellFormedProblem, Blank}
use baryonyx.Parser.Sections.{make_problem-WellFormedProblem, make_problem_ends}
use baryonyx.Parser.Lossless.{join, texts, Plain, tokens_of-join}
use baryonyx.Parser.Preprocessed.{preprocess-make_problem}
use baryonyx.Parser.Grammar.{make_problem, new_parser}

-- The digits at the start.
abbrev digits : ℕ → String → ℕ
digits n String.[] = n
digits n (String.◌∷◌ c s) =
    let rest = digits (10 * n + (code c - 48)) s in if is_digit (code c) then rest else n

abbrev scan_digits : String → Option ℤ
scan_digits String.[] = none
scan_digits (String.◌∷◌ c s) =
    if is_digit (code c) then some (pos (digits (code c - 48) s)) else none

abbrev digit_scanner : Scanner integers
digit_scanner = record {
  infinity = pos 1000000000000;
  neg_infinity = negsuc 999999999999;
  truncate = λ a. a;
  scan = scan_digits;
}

abbrev small_text : String
small_text = "maximize\nobj: 2x + 3y - z\nst\nc1: x + y <= 1\n x - z >= 0\nbinaries\nx y z\nend\n"

abbrev small_problem : RawProblem ℤ
small_problem = record {
  objective = record {
    elements = fct (pos 2) 0 ∷ fct (pos 3) 1 ∷ fct (negsuc 0) 2 ∷ [];
    qelements = [];
    value = pos 0;
  };
  equal_constraints = [];
  greater_constraints = cst "" (el (pos 1) 0 ∷ el (negsuc 0) 2 ∷ []) (pos 0) (pos 1) ∷ [];
  less_constraints = cst "c1" (el (pos 1) 0 ∷ el (pos 1) 1 ∷ []) (pos 1) (pos 0) ∷ [];
  vars = record { names = "x" ∷ "y" ∷ "z" ∷ []; values = binary ∷ binary ∷ binary ∷ [] };
  type = ObjectiveFunctionType.maximize;
}
  where
    fct : ℤ → ℕ → ObjectiveFunctionElement ℤ
    fct f i = record { factor = f; variable_index = i }

    binary : VariableValue
    binary = record { min_value = pos 0; max_value = pos 1; type = VariableType.binary }

reads_small_text : make_problem digit_scanner small_text ≡ ok small_problem
unfolding make_problem pop_front
reads_small_text = refl

make_problem_example : WellFormedProblem small_problem
make_problem_example =
    make_problem-WellFormedProblem digit_scanner refl small_text small_problem reads_small_text

-- A lone number in a constraint gives a variable the empty name; then the binaries never end.
abbrev endless_text : String
endless_text = "max x st 3 >= 2 binary x "

abbrev endless_parser : ProblemParser ℤ
endless_parser = state_of (make_problem digit_scanner endless_text)
  where
    state_of : Result (Stop ℤ) (RawProblem ℤ) → ProblemParser ℤ
    state_of (err (Stop.out_of_fuel p)) = p
    state_of _ = new_parser digit_scanner

runs_endless_text : make_problem digit_scanner endless_text ≡ err (Stop.out_of_fuel endless_parser)
unfolding make_problem pop_front
runs_endless_text = refl

make_problem_ends_example : Blank endless_parser
make_problem_ends_example =
    make_problem_ends digit_scanner refl endless_text endless_parser runs_endless_text

abbrev words_text : String
words_text = "2x >=1"

words_text-Plain : Plain words_text
words_text-Plain = (
  (λ e. omega arith, λ e. omega arith),
  (
    (λ e. omega arith, λ e. omega arith),
    (
      (λ e. omega arith, λ e. omega arith),
      (
        (λ e. omega arith, λ e. omega arith),
        ((λ e. omega arith, λ e. omega arith), ((λ e. omega arith, λ e. omega arith), tt)),
      ),
    ),
  ),
)

tokens_of-join_example : join (texts (tokens_of words_text)) ≡ "2x>=1"
unfolding fits
tokens_of-join_example = tokens_of-join words_text words_text-Plain refl

-- The word `end` is read into the place of the name `x` before it is looked up.
make_problem-overwritten :
    make_problem digit_scanner "maximize [ x ^ 2 ] / 2 st x <= 1 end" ≡ err Stop.overwritten
unfolding make_problem pop_front read_quadratic_element
make_problem-overwritten = refl

-- A word ends at a NUL.
tokens_of_nul : texts (tokens_of "ab\0cd e") ≡ "ab" ∷ "e" ∷ []
unfolding tokens_of
tokens_of_nul = refl

-- The first word of a line that is left out is a token if the input ends behind the line.
make_problem-trailing_comment :
    make_problem digit_scanner "max x end\n\\ done\n"
    ≡ err (Stop.format FileFormatErrorTag.bad_end_of_file)
unfolding make_problem pop_front
make_problem-trailing_comment = refl

abbrev solution : ℕ → Bool
solution i = i == 0

solution-MeetsAll : MeetsAll (problem_of_raw small_problem) solution
unfolding compute_function ◌+ℤ◌ ◌*ℤ◌ problem_of_raw
solution-MeetsAll OperatorType.equal = tt
solution-MeetsAll OperatorType.greater = (refl, tt)
solution-MeetsAll OperatorType.less = (refl, tt)

solution-InBounds : InBounds solution 0 (problem_of_raw small_problem).vars.values
unfolding problem_of_raw
solution-InBounds =
    (omega arith, omega arith, (omega arith, omega arith, (omega arith, omega arith, tt)))

preprocess-make_problem_example : HasSolution (preprocess integers (problem_of_raw small_problem))
preprocess-make_problem_example =
    preprocess-make_problem digit_scanner refl small_text small_problem solution reads_small_text
      solution-MeetsAll solution-InBounds
