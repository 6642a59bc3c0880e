-- ===== src/Samples.antt =====
-- Problems on which the tests of the other modules run.
use Prim.Native.String.{String}
use baryonyx.Base.{ℕ, zero, suc, Bool, true, false, List, [], ◌∷◌}
use baryonyx.Base.Int.{ℤ, pos}
use baryonyx.Problem.{
  FunctionElement, Constraint, Problem, RawProblem, VariableValue, maximize, binary, inequalities_z,
}

abbrev pub el : ℤ → ℕ → FunctionElement
el f i = record { factor = f; variable_index = i }

abbrev pub cst : String → List FunctionElement → ℤ → ℤ → Constraint
cst label es value id = record { label = label; elements = es; value = value; id = id }

abbrev bounds : VariableValue
bounds = record { min_value = pos 0; max_value = pos 1; type = binary }

-- maximize 5 a + b + 2 a c + 4 c c, with a + b = 1, a + b + c <= 2, b + c <= 2, 2 c >= 1, and d in
-- the objective function only.
abbrev pub sample : Problem ℤ
sample = record {
  objective = record {
    elements =
        record { factor = pos 5; variable_index = 0 }
        ∷ record { factor = pos 1; variable_index = 1 }
        ∷ record { factor = pos 7; variable_index = 3 }
        ∷ [];
    qelements =
        record { factor = pos 2; variable_index_a = 0; variable_index_b = 2 }
        ∷ record { factor = pos 4; variable_index_a = 2; variable_index_b = 2 }
        ∷ [];
    value = pos 0;
  };
  equal_constraints = cst "e" (el (pos 1) 0 ∷ el (pos 1) 1 ∷ []) (pos 1) (pos 0) ∷ [];
  greater_constraints = cst "g" (el (pos 2) 2 ∷ []) (pos 1) (pos 1) ∷ [];
  less_constraints =
      cst "l" (el (pos 1) 0 ∷ el (pos 1) 1 ∷ el (pos 1) 2 ∷ []) (pos 2) (pos 2)
      ∷ cst "m" (el (pos 1) 1 ∷ el (pos 1) 2 ∷ []) (pos 2) (pos 3)
      ∷ [];
  vars = record {
    names = "a" ∷ "b" ∷ "c" ∷ "d" ∷ [];
    values = bounds ∷ bounds ∷ bounds ∷ bounds ∷ [];
  };
  affected_vars = record { names = []; values = [] };
  type = maximize;
  problem_type = inequalities_z;
}

-- a and c, not b and d.
abbrev pub solution : ℕ → Bool
solution zero = true
solution (suc (suc zero)) = true
solution _ = false

-- The same with a linear objective function.
abbrev pub linear_sample : Problem ℤ
linear_sample = record sample {
  objective = record { elements = sample.objective.elements; qelements = []; value = pos 0 };
}

-- The problem before any preprocessing.
abbrev pub raw_sample : RawProblem ℤ
raw_sample = record {
  objective = sample.objective;
  equal_constraints = sample.equal_constraints;
  greater_constraints = sample.greater_constraints;
  less_constraints = sample.less_constraints;
  vars = sample.vars;
  type = maximize;
}
