-- ===== src/Parser/Constraints.antt =====
-- The constraints in lib/src/parser.cpp: what the parser keeps while it reads them.
use Prim.Native.String.{String}
use text.Mathlib.Text.{◌==◌ as ◌=ₛ◌}
use baryonyx.Base.{
  ℕ, suc, ◌+◌, ◌-◌, ◌<◌, ◌≤◌, ◌≡◌, ◌≢◌, true, List, [], ◌∷◌, ◌==◌, ◌&&◌, arith, All, All-append,
  length, Bool-cases, inl, inr, ltb,
}
use baryonyx.Base.Int.{ℤ}
use baryonyx.Base.Result.{ok, Sat, bind-Sat, Sat-map}
use baryonyx.Double.{Double}
use baryonyx.Problem.{FunctionElement, Constraint, OperatorType, RawProblem}
use baryonyx.Parser.{Scanner}
use baryonyx.Parser.Chars.{starts_with_name}
use baryonyx.Parser.Readers.{read_function_element, read_operator, read_subject_to}
use baryonyx.Parser.State.{ProblemParser, Parsing, index_limit}
use baryonyx.Parser.Invariant.{
  WellFormed, RangedProblem, Ends, Popped, Below, Below-le, Once, GoodConstraint, n_variables,
  bind_value-Sat, bind_pop-Sat, bind_assign-Sat,
}
use baryonyx.Parser.Elements.{first, second, third, repeat, add_element}
use baryonyx.Parser.Grammar.{
  add_constraint, parse_label, parse_element, before_operator, parse_right_side, parse_constraint,
  in_constraints, check_constraints, parse_constraints,
}
use baryonyx.Parser.Loops.{repeat-Sat, nonempty_length}

Below-add_element :
    (factor : ℤ) (n id : ℕ) (es : List FunctionElement)
    → id < n
    → Below n es
    → Below n (add_element factor id es)
unfolding add_element
Below-add_element factor n id [] h a = (h, tt)
Below-add_element factor n id (e ∷ es) h a = elim (Bool-cases (e.variable_index == id)) [
  | inl same ↦ rw same a
  | inr other ↦ rw other (a.0, Below-add_element factor n id es h a.1)
]

abbrev Apart : ℕ → List FunctionElement → Type 0
Apart i = All (λ f. i ≢ f.variable_index)

Apart-add_element :
    (factor : ℤ) (i id : ℕ) (es : List FunctionElement)
    → i ≢ id
    → Apart i es
    → Apart i (add_element factor id es)
unfolding add_element
Apart-add_element factor i id [] h a = (h, tt)
Apart-add_element factor i id (e ∷ es) h a = elim (Bool-cases (e.variable_index == id)) [
  | inl same ↦ rw same a
  | inr other ↦ rw other (a.0, Apart-add_element factor i id es h a.1)
]

Once-add_element :
    (factor : ℤ) (id : ℕ) (es : List FunctionElement) → Once es → Once (add_element factor id es)
unfolding add_element
Once-add_element factor id [] a = (tt, tt)
Once-add_element factor id (e ∷ es) a = elim (Bool-cases (e.variable_index == id)) [
  | inl same ↦ rw same a
  | inr other ↦
      let differ : e.variable_index ≢ id = λ p. ground arith in
      rw other (
        Apart-add_element factor e.variable_index id es differ a.0,
        Once-add_element factor id es a.1,
      )
]

module _ {D : Type 0} where
  -- The elements so far are good for the variables so far.
  abbrev GoodState : List FunctionElement × Parsing D → Type 0
  GoodState (es, s) = WellFormed s.parser × Below (n_variables s.parser) es × Once es

  abbrev Shorter : Parsing D → Parsing D → Type 0
  Shorter s = Popped (length s.tokens) WellFormed

  abbrev NotLonger : Parsing D → Parsing D → Type 0
  NotLonger s t = WellFormed t.parser × (length t.tokens ≤ length s.tokens)

  parse_label-Sat :
      (s : Parsing D) → WellFormed s.parser → Sat (λ (label, t). NotLonger s t) Ends (parse_label s)
  unfolding parse_label
  parse_label-Sat s w = elim (Bool-cases (starts_with_name (first s) && (second s =ₛ ":"))) [
    | inl e ↦ rw e (
        bind_pop-Sat (λ (label, t). NotLonger s t) WellFormed _ _ _ w
          (λ t (a, i). (a, omega arith)))
    | inr e ↦ rw e (w, omega arith)
  ]

  RangedProblem-add_constraint :
      (op : OperatorType) (n : ℕ) (c : Constraint) (pb : RawProblem D)
      → GoodConstraint n c
      → RangedProblem n pb
      → RangedProblem n (add_constraint op c pb)
  RangedProblem-add_constraint OperatorType.equal n c pb g r = record {
    linear = r.linear;
    quadratic = r.quadratic;
    equals = All-append (GoodConstraint n) pb.equal_constraints (c ∷ []) r.equals (g, tt);
    greaters = r.greaters;
    lesses = r.lesses;
  }
  RangedProblem-add_constraint OperatorType.greater n c pb g r = record {
    linear = r.linear;
    quadratic = r.quadratic;
    equals = r.equals;
    greaters = All-append (GoodConstraint n) pb.greater_constraints (c ∷ []) r.greaters (g, tt);
    lesses = r.lesses;
  }
  RangedProblem-add_constraint OperatorType.less n c pb g r = record {
    linear = r.linear;
    quadratic = r.quadratic;
    equals = r.equals;
    greaters = r.greaters;
    lesses = All-append (GoodConstraint n) pb.less_constraints (c ∷ []) r.lesses (g, tt);
  }

  WellFormed-add_constraint :
      (op : OperatorType) (c : Constraint) (p : ProblemParser D)
      → WellFormed p
      → GoodConstraint (n_variables p) c
      → WellFormed (record p { problem = add_constraint op c p.problem })
  WellFormed-add_constraint OperatorType.equal c p w g = record {
    cached = w.cached;
    valued = w.valued;
    indexes = w.indexes;
    ranged = RangedProblem-add_constraint OperatorType.equal (n_variables p) c p.problem g w.ranged;
  }
  WellFormed-add_constraint OperatorType.greater c p w g = record {
    cached = w.cached;
    valued = w.valued;
    indexes = w.indexes;
    ranged =
        RangedProblem-add_constraint OperatorType.greater (n_variables p) c p.problem g w.ranged;
  }
  WellFormed-add_constraint OperatorType.less c p w g = record {
    cached = w.cached;
    valued = w.valued;
    indexes = w.indexes;
    ranged = RangedProblem-add_constraint OperatorType.less (n_variables p) c p.problem g w.ranged;
  }

module _ {fl : Double} (sc : Scanner fl) where
  open fl use {D}

  -- An element uses a token up, if there is one.
  abbrev Grown : ℕ → List FunctionElement × Parsing D → Type 0
  Grown n (es, s) = GoodState (es, s) × (length s.tokens ≤ n - 1)

  parse_element-Sat :
      (es : List FunctionElement) (s : Parsing D)
      → GoodState (es, s)
      → Sat (Grown (length s.tokens)) Ends (parse_element sc (es, s))
  unfolding parse_element
  parse_element-Sat es s (w, below, once) =
      let R = Grown (length s.tokens) in
      bind_value-Sat R _ (read_function_element sc (first s) (second s) (third s)) _ (λ elem _.
        bind_assign-Sat R _ _ _ w (λ (id, p) a.
          let good : ProblemParser D → Type 0 =
            λ q. WellFormed q × (id < n_variables q) × (n_variables s.parser ≤ n_variables q) in
          bind_pop-Sat R good _ _ _ (a.well_formed, a.index, a.more)
            (λ t ((v, i, more), fewer). (
              (
                v,
                Below-add_element (sc.truncate elem.factor) (n_variables t.parser) id es i
                    (Below-le (n_variables s.parser) (n_variables t.parser) es more below),
                Once-add_element (sc.truncate elem.factor) id es once,
              ),
              omega arith,
            ))))

  elements-Sat :
      (x : List FunctionElement × Parsing D)
      → GoodState x
      → Sat
          (λ y. GoodState y × (length y.1.tokens ≤ length x.1.tokens))
          Ends
          (repeat (λ y. y.1) (before_operator sc) (parse_element sc) x)
  elements-Sat x g =
      repeat-Sat (λ y. y.1) (before_operator sc) (parse_element sc) GoodState
        (λ (es, s) h test.
          let some_left = nonempty_length s.tokens _ test in
          Sat-map Ends (Grown (length s.tokens)) _ _ (λ y (a, i). (a, omega arith))
            (parse_element-Sat es s h))
        x g

  parse_right_side-Sat :
      (id : ℕ) (label : String) (es : List FunctionElement) (s : Parsing D)
      → GoodState (es, s)
      → Sat (Shorter s) Ends (parse_right_side sc id label (es, s))
  unfolding parse_right_side
  parse_right_side-Sat id label es s g =
      let good : ProblemParser D → Type 0 =
        λ q. WellFormed q × Below (n_variables q) es × Once es in
      bind_value-Sat (Shorter s) _ (read_operator (first s) (second s)) _ (λ o _.
        bind_pop-Sat (Shorter s) good _ _ _ g (λ t (a, i).
          bind_pop-Sat (Shorter s) good _ _ _ a (λ u ((w, below, once), j).
            (WellFormed-add_constraint o.op _ u.parser w (below, once), omega arith))))

  abbrev GoodCount : ℕ × Parsing D → Type 0
  GoodCount (id, s) = WellFormed s.parser

  abbrev Fewer : ℕ → ℕ × Parsing D → Type 0
  Fewer n (id, s) = WellFormed s.parser × (length s.tokens < n)

  parse_constraint-Sat :
      (id : ℕ) (s : Parsing D)
      → WellFormed s.parser
      → in_constraints sc (id, s) ≡ true
      → Sat (Fewer (length s.tokens)) Ends (parse_constraint sc (id, s))
  unfolding parse_constraint
  parse_constraint-Sat id s w test =
      let some_left = nonempty_length s.tokens _ test in
      let R = Fewer (length s.tokens) in
      bind-Sat Ends (λ (label, t). NotLonger s t) R _ _ (parse_label-Sat s w)
        (λ (label, t) (a, i).
          bind-Sat Ends (Grown (length t.tokens)) R _ _ (parse_element-Sat [] t (a, tt, tt))
            (λ (es, u) (b, j).
              bind-Sat Ends (λ y. GoodState y × (length y.1.tokens ≤ length u.tokens)) R _ _
                (elements-Sat (es, u) b)
                (λ (fs, v) (c, k).
                  bind-Sat Ends (Shorter v) R _ (λ u. ok (suc id, u))
                    (parse_right_side-Sat id label fs v c) (λ x (d, l). (d, omega arith)))))

  check_constraints-Sat :
      (id : ℕ) (s : Parsing D)
      → WellFormed s.parser
      → Sat (λ t. WellFormed t.parser) Ends (check_constraints sc (id, s))
  unfolding check_constraints
  check_constraints-Sat id s w =
      elim (Bool-cases (
        ltb index_limit (
          length s.parser.problem.equal_constraints
          + length s.parser.problem.greater_constraints
          + length s.parser.problem.less_constraints))) [ inl e ↦ rw e tt | inr e ↦ rw e w ]

  pub parse_constraints-Sat :
      (s : Parsing D)
      → WellFormed s.parser
      → Sat (λ t. WellFormed t.parser) Ends (parse_constraints sc s)
  unfolding parse_constraints
  parse_constraints-Sat s w =
      elim (Bool-cases (read_subject_to (first s) (second s) (third s) == 0)) [
        | inl e ↦ rw e w
        | inr e ↦ rw e (
            bind_pop-Sat (λ t. WellFormed t.parser) WellFormed _ _ _ w
              (λ t (a, i).
                bind-Sat Ends (λ u. GoodCount u × (length u.1.tokens ≤ length t.tokens))
                  (λ t. WellFormed t.parser) _ _
                  (repeat-Sat (λ x. x.1) (in_constraints sc) (parse_constraint sc) GoodCount
                    (λ (id, u) c test. parse_constraint-Sat id u c test) (0, t) a)
                  (λ (id, u) (b, j). check_constraints-Sat id u b)))
      ]
