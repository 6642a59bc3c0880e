-- ===== src/Parser/Invariant.antt =====
-- What `problem_parser` (lib/src/parser.cpp) keeps.
use Prim.Native.String.{String}
use baryonyx.Base.{
  ℕ, suc, ◌-◌, ◌<◌, ◌≤◌, ◌≡◌, ◌≢◌, refl, sym, subst, ◌∙◌, List, [], ◌∷◌, ◌++◌, Option, none, some,
  inl, inr, arith, All, All-map, get_elem?, get_elem?-bound, length, length-append, length-modify,
  ltb, length-drop, Bool-cases, Option-cases, tests,
}
use mathlib.Core.Option.{some-injective}
use baryonyx.Base.Result.{Result, Sat, ◌>>=◌, bind-Sat}
use baryonyx.Problem.{
  FunctionElement, Constraint, ObjectiveFunctionElement, ObjectiveQuadraticElement, RawProblem,
  VariableValue,
}
use baryonyx.Parser.State.{
  ProblemParser, Parsing, FileFormatErrorTag, Stop, find_index, index_limit, pop_front, value_or,
  new_value, add_variable, get_or_assign_variable, get_variable, change_value,
}
use baryonyx.Parser.Names.{Indexes, Indexes-append}

-- Each variable occurs once.
abbrev pub Once : List FunctionElement → Type 0
Once [] = Unit
Once (e ∷ es) = All (λ f. e.variable_index ≢ f.variable_index) es × Once es

abbrev pub Below : ℕ → List FunctionElement → Type 0
Below n = All (λ e. e.variable_index < n)

abbrev pub GoodConstraint : ℕ → Constraint → Type 0
GoodConstraint n c = Below n c.elements × Once c.elements

pub Below-le : (n m : ℕ) (es : List FunctionElement) → n ≤ m → Below n es → Below m es
Below-le n m es k h = All-map _ _ (λ e a. omega arith) es h

constraints_le :
    (n m : ℕ) (cs : List Constraint) → n ≤ m → All (GoodConstraint n) cs → All (GoodConstraint m) cs
constraints_le n m cs k h = All-map _ _ (λ c (a, b). (Below-le n m c.elements k a, b)) cs h

-- The variables of an objective function and of the constraints are among `n`.
pub record Ranged {D : Type 0} (n : ℕ) (es : List (ObjectiveFunctionElement D))
    (qs : List (ObjectiveQuadraticElement D)) (equal greater less : List Constraint) : Type 0 where
  pub linear : All (λ e. e.variable_index < n) es
  pub quadratic : All (λ e. (e.variable_index_a < n) × (e.variable_index_b < n)) qs
  pub equals : All (GoodConstraint n) equal
  pub greaters : All (GoodConstraint n) greater
  pub lesses : All (GoodConstraint n) less

abbrev pub RangedProblem : {D : Type 0} → ℕ → RawProblem D → Type 0
RangedProblem n pb =
    Ranged n pb.objective.elements pb.objective.qelements pb.equal_constraints
      pb.greater_constraints pb.less_constraints

module _ {D : Type 0} where
  pub record WellFormed (p : ProblemParser D) : Type 0 where
    pub cached : length p.cache_variable ≡ length p.problem.vars.names
    pub valued : length p.problem.vars.values ≡ length p.problem.vars.names
    pub indexes : Indexes p.cache_variable p.problem.vars.names
    pub ranged : RangedProblem (length p.problem.vars.names) p.problem

  -- A loop is out of fuel only where a variable has the empty name.
  abbrev pub Blank : ProblemParser D → Type 0
  Blank p = (i : ℕ) × (get_variable "" p ≡ some i)

  abbrev pub Ends : Stop D → Type 0
  Ends (Stop.out_of_fuel p) = Blank p
  Ends _ = Unit

  -- What the problem of a text is: bounds for every name, no name twice, and only its own variables in
  -- the objective function and the constraints, there each once.
  pub record WellFormedProblem (pb : RawProblem D) : Type 0 where
    pub valued : length pb.vars.values ≡ length pb.vars.names
    pub distinct :
        (i j : ℕ) (name : String)
        → get_elem? pb.vars.names i ≡ some name
        → get_elem? pb.vars.names j ≡ some name
        → i ≡ j
    pub ranged : RangedProblem (length pb.vars.names) pb

  pub WellFormed-problem : (p : ProblemParser D) → WellFormed p → WellFormedProblem p.problem
  WellFormed-problem p w = record {
    valued = w.valued;
    distinct =
        λ i j name a b. some-injective i j (sym ((w.indexes i name).1 a) ∙ (w.indexes j name).1 b);
    ranged = w.ranged;
  }

  pub Ranged-le : (n m : ℕ) (pb : RawProblem D) → n ≤ m → RangedProblem n pb → RangedProblem m pb
  Ranged-le n m pb k r = record {
    linear = All-map _ _ (λ e a. omega arith) pb.objective.elements r.linear;
    quadratic =
        All-map _ _ (λ e (a, b). (omega arith, omega arith)) pb.objective.qelements r.quadratic;
    equals = constraints_le n m pb.equal_constraints k r.equals;
    greaters = constraints_le n m pb.greater_constraints k r.greaters;
    lesses = constraints_le n m pb.less_constraints k r.lesses;
  }

  abbrev pub n_variables : ProblemParser D → ℕ
  n_variables p = length p.problem.vars.names

  -- A token at least is gone, if there is one.
  abbrev pub Popped : ℕ → (ProblemParser D → Type 0) → Parsing D → Type 0
  Popped n P t = P t.parser × (length t.tokens ≤ n - 1)

  pub pop_front-Sat :
      (P : ProblemParser D → Type 0) (size : ℕ) (s : Parsing D)
      → P s.parser
      → Sat (Popped (length s.tokens) P) Ends (pop_front size s)
  unfolding pop_front
  pop_front-Sat P size s h = elim (Bool-cases (ltb 0 size)) [
    | inl e ↦ elim (Bool-cases (ltb size 10)) [
      | inl f ↦ rw (e, f) (h, omega (tests, length-drop size s.tokens))
      | inr f ↦ rw (e, f) tt
    ]
    | inr e ↦ rw e tt
  ]

  n_variables-add_variable :
      (value : String) (p : ProblemParser D)
      → n_variables (add_variable value p) ≡ suc (n_variables p)
  unfolding add_variable
  n_variables-add_variable value p = omega (arith, length-append p.problem.vars.names (value ∷ []))

  WellFormed-add_variable :
      (value : String) (p : ProblemParser D)
      → WellFormed p
      → find_index p.cache_variable value ≡ none
      → WellFormed (add_variable value p)
  unfolding add_variable
  WellFormed-add_variable value p w fresh =
      let names = p.problem.vars.names in
      let values = p.problem.vars.values in
      let cache = p.cache_variable in
      let more = length-append names (value ∷ []) in
      record {
        cached = omega (arith, w.cached, more, length-append cache ((value, length cache) ∷ []));
        valued = omega (arith, w.valued, more, length-append values (new_value ∷ []));
        indexes =
            subst (λ n. Indexes (cache ++ (value, n) ∷ []) (names ++ value ∷ [])) (sym w.cached)
              (Indexes-append cache names value w.indexes fresh);
        ranged =
            Ranged-le (length names) (length (names ++ value ∷ [])) p.problem (omega (arith, more))
              w.ranged;
      }

  -- After `get_or_assign_variable`: the index is one of a variable, and no variable is lost.
  pub record Assigned (p : ProblemParser D) (r : ℕ × ProblemParser D) : Type 0 where
    pub well_formed : WellFormed r.1
    pub index : r.0 < n_variables r.1
    pub more : n_variables p ≤ n_variables r.1

  pub get_or_assign_variable-Sat :
      (value : String) (p : ProblemParser D)
      → WellFormed p
      → Sat (Assigned p) Ends (get_or_assign_variable value p)
  unfolding get_or_assign_variable
  get_or_assign_variable-Sat value p w = elim (Option-cases (find_index p.cache_variable value)) [
    | inl fresh ↦ elim (Bool-cases (ltb index_limit (length p.cache_variable))) [
      | inl full ↦ rw (fresh, get_or_assign_variable, full) tt
      | inr space ↦
          let more = n_variables-add_variable value p in
          rw (fresh, get_or_assign_variable, space)
            (record {
              well_formed = WellFormed-add_variable value p w fresh;
              index = omega (arith, more, w.cached);
              more = omega (arith, more);
            })
    ]
    | inr (id, found) ↦
        rw (found, get_or_assign_variable)
          (record {
            well_formed = w;
            index = get_elem?-bound p.problem.vars.names id ((w.indexes id value).0 found);
            more = omega arith;
          })
  ]

  pub WellFormed-change_value :
      (id : ℕ) (f : VariableValue → VariableValue) (p : ProblemParser D)
      → WellFormed p
      → WellFormed (change_value id f p)
  WellFormed-change_value id f p w = record {
    cached = w.cached;
    valued = length-modify p.problem.vars.values id f ∙ w.valued;
    indexes = w.indexes;
    ranged = w.ranged;
  }

module _ {D B : Type 0} (R : B → Type 0) where
  -- The next statement of a function, after one that may stop.
  pub bind_value-Sat :
      {A : Type 0} (tag : FileFormatErrorTag) (o : Option A) (f : A → Result (Stop D) B)
      → ((a : A) → o ≡ some a → Sat R Ends (f a))
      → Sat R Ends (value_or tag o >>= f)
  bind_value-Sat tag none f k = tt
  bind_value-Sat tag (some a) f k = k a refl

  pub bind_pop-Sat :
      (P : ProblemParser D → Type 0) (size : ℕ) (s : Parsing D) (f : Parsing D → Result (Stop D) B)
      → P s.parser
      → ((t : Parsing D) → Popped (length s.tokens) P t → Sat R Ends (f t))
      → Sat R Ends (pop_front size s >>= f)
  bind_pop-Sat P size s f h k =
      bind-Sat Ends (Popped (length s.tokens) P) R (pop_front size s) f (pop_front-Sat P size s h) k

  pub bind_assign-Sat :
      (name : String) (p : ProblemParser D) (f : ℕ × ProblemParser D → Result (Stop D) B)
      → WellFormed p
      → ((r : ℕ × ProblemParser D) → Assigned p r → Sat R Ends (f r))
      → Sat R Ends (get_or_assign_variable name p >>= f)
  bind_assign-Sat name p f w k =
      bind-Sat Ends (Assigned p) R (get_or_assign_variable name p) f
        (get_or_assign_variable-Sat name p w) k
