-- ===== src/Parser/Objective.antt =====
-- The objective function in lib/src/parser.cpp: what the parser keeps while it reads it.
use text.Mathlib.Text.{◌==◌ as ◌=ₛ◌}
use baryonyx.Base.{
  ℕ, ◌<◌, ◌≤◌, ◌≡◌, refl, List, [], ◌∷◌, ◌==◌, arith, All, length, Bool-cases, inl, inr, none,
}
use baryonyx.Base.Result.{err, ◌>>=◌, Sat, bind-Sat, Sat-map}
use baryonyx.Double.{Double}
use baryonyx.Problem.{ObjectiveFunctionElement}
use baryonyx.Parser.{Scanner}
use baryonyx.Parser.Chars.{is_empty}
use baryonyx.Parser.Lexer.{Tokens}
use baryonyx.Parser.Readers.{
  FunctionElementToken, read_function_element, starts_with_quadratic, read_objective_type,
  try_read_objective_label,
}
use baryonyx.Parser.State.{
  ProblemParser, Parsing, Stop, pop_front, add_to_linear, append_to_objective,
}
use baryonyx.Parser.Invariant.{
  WellFormed, Ends, Popped, n_variables, pop_front-Sat, bind_value-Sat, bind_pop-Sat,
  bind_assign-Sat,
}
use baryonyx.Parser.Elements.{first, second, third, with_parser, itself, read_quadratic_element}
use baryonyx.Parser.Grammar.{
  pop_some, before_keyword, parse_linear_element, parse_objective_element, parse_objective_type,
  parse_objective,
}
use baryonyx.Parser.Loops.{repeat-Sat}
use baryonyx.Parser.Quadratic.{read_quadratic_element-Sat}

module _ {D : Type 0} where
  abbrev NotLonger : Parsing D → Parsing D → Type 0
  NotLonger s t = WellFormed t.parser × (length t.tokens ≤ length s.tokens)

  pub pop_some-Sat :
      (read : ℕ) (s : Parsing D) → WellFormed s.parser → Sat (NotLonger s) Ends (pop_some read s)
  pop_some-Sat read s w = elim (Bool-cases (read == 0)) [
    | inl e ↦ rw e (w, omega arith)
    | inr e ↦ rw e (
        Sat-map Ends (Popped (length s.tokens) WellFormed) (NotLonger s) _
          (λ t (a, i). (a, omega arith)) (pop_front-Sat WellFormed read s w))
  ]

module _ {fl : Double} (sc : Scanner fl) where
  open fl use {D}

  abbrev InLinear : ℕ → List (ObjectiveFunctionElement D) → Type 0
  InLinear n = All (λ e. e.variable_index < n)

  All-add_to_linear :
      (factor : D) (n id : ℕ) (es : List (ObjectiveFunctionElement D))
      → id < n
      → InLinear n es
      → InLinear n (add_to_linear fl factor id es)
  unfolding add_to_linear
  All-add_to_linear factor n id [] h a = (h, tt)
  All-add_to_linear factor n id (e ∷ es) h a = elim (Bool-cases (e.variable_index == id)) [
    | inl same ↦ rw same a
    | inr other ↦ rw other (a.0, All-add_to_linear factor n id es h a.1)
  ]

  append_to_objective-Sat :
      (elem : FunctionElementToken D) (p : ProblemParser D)
      → WellFormed p
      → Sat WellFormed Ends (append_to_objective fl elem p)
  unfolding append_to_objective
  append_to_objective-Sat elem p w = elim (Bool-cases (is_empty elem.name)) [
    | inl e ↦
        rw e
          (record { cached = w.cached; valued = w.valued; indexes = w.indexes; ranged = w.ranged })
    | inr e ↦ rw e (
        bind_assign-Sat WellFormed _ _ _ w (λ (id, q) a. record {
          cached = a.well_formed.cached;
          valued = a.well_formed.valued;
          indexes = a.well_formed.indexes;
          ranged = record {
            linear =
                All-add_to_linear elem.factor (n_variables q) id q.problem.objective.elements
                  a.index a.well_formed.ranged.linear;
            quadratic = a.well_formed.ranged.quadratic;
            equals = a.well_formed.ranged.equals;
            greaters = a.well_formed.ranged.greaters;
            lesses = a.well_formed.ranged.lesses;
          };
        }))
  ]

  abbrev Shorter : Parsing D → Parsing D → Type 0
  Shorter s = Popped (length s.tokens) WellFormed

  abbrev Fewer : Parsing D → Parsing D → Type 0
  Fewer s t = WellFormed t.parser × (length t.tokens < length s.tokens)

  parse_objective_type-Sat :
      (s : Parsing D) → WellFormed s.parser → Sat (Shorter s) Ends (parse_objective_type sc s)
  unfolding parse_objective_type
  parse_objective_type-Sat s w =
      bind_value-Sat (Shorter s) _ (read_objective_type (first s)) _ (λ type _.
        pop_front-Sat WellFormed 1 _
          (record { cached = w.cached; valued = w.valued; indexes = w.indexes; ranged = w.ranged }))

  linear-Sat :
      (s : Parsing D) → WellFormed s.parser → Sat (Shorter s) Ends (parse_linear_element sc s)
  unfolding parse_linear_element
  linear-Sat s w =
      bind_value-Sat (Shorter s) _ (read_function_element sc (first s) (second s) (third s)) _
        (λ elem _.
          bind-Sat Ends WellFormed (Shorter s) _ _ (append_to_objective-Sat elem s.parser w)
            (λ p v. pop_front-Sat WellFormed elem.read (with_parser s p) v))

  signed_quadratic-Sat :
      (factor : D) (s : Parsing D)
      → WellFormed s.parser
      → Sat (Shorter s) Ends (pop_front 1 s >>= λ t. read_quadratic_element sc factor t)
  signed_quadratic-Sat factor s w = bind_pop-Sat (Shorter s) WellFormed _ _ _ w (λ t (a, i).
      Sat-map Ends (Shorter t) (Shorter s) _ (λ u (b, j). (b, omega arith))
        (read_quadratic_element-Sat sc factor t a))

  element-Sat :
      (s : Parsing D) → WellFormed s.parser → Sat (Shorter s) Ends (parse_objective_element sc s)
  unfolding parse_objective_element
  element-Sat s w = elim (Bool-cases (starts_with_quadratic (first s) (second s))) [
    | inl e ↦ elim (Bool-cases (first s =ₛ "-")) [
      | inl f ↦ rw (e, f) (signed_quadratic-Sat _ s w)
      | inr f ↦ elim (Bool-cases (first s =ₛ "+")) [
        | inl g ↦ rw (e, f, g) (signed_quadratic-Sat _ s w)
        | inr g ↦ rw (e, f, g) (read_quadratic_element-Sat sc _ s w)
      ]
    ]
    | inr e ↦ rw e (linear-Sat s w)
  ]

  module _ (scan_empty : sc.scan "" ≡ none) where
    -- At the end of the input, the element has no token to pop.
    element_at_end :
        (p : ProblemParser D)
        → parse_objective_element sc (record { tokens = []; parser = p }) ≡ err Stop.precondition
    unfolding parse_objective_element starts_with_quadratic parse_linear_element
        read_function_element pop_front append_to_objective
    element_at_end p = rw scan_empty refl

    parse_objective_element-Fewer :
        (ts : Tokens) (p : ProblemParser D)
        → WellFormed p
        → Sat
            (Fewer (record { tokens = ts; parser = p }))
            Ends
            (parse_objective_element sc (record { tokens = ts; parser = p }))
    parse_objective_element-Fewer [] p w = rw (element_at_end p) tt
    parse_objective_element-Fewer (t ∷ ts) p w =
        let s : Parsing D = record { tokens = t ∷ ts; parser = p } in
        Sat-map Ends (Shorter s) (Fewer s) _ (λ u (a, i). (a, omega arith)) (element-Sat s w)

    pub parse_objective-Sat :
        (s : Parsing D)
        → WellFormed s.parser
        → Sat (λ t. WellFormed t.parser) Ends (parse_objective sc s)
    unfolding parse_objective
    parse_objective-Sat s w =
        bind-Sat Ends (Shorter s) (λ t. WellFormed t.parser) _ _ (parse_objective_type-Sat s w)
          (λ t (a, i).
            bind-Sat Ends (NotLonger t) (λ t. WellFormed t.parser)
              (pop_some (try_read_objective_label (first t) (second t)) t) _
              (pop_some-Sat (try_read_objective_label (first t) (second t)) t a)
              (λ u (b, j).
                Sat-map Ends (NotLonger u) (λ t. WellFormed t.parser) _ (λ v (c, k). c)
                  (repeat-Sat itself before_keyword (parse_objective_element sc)
                    (λ v. WellFormed v.parser)
                    (λ v c _. parse_objective_element-Fewer v.tokens v.parser c) u b)))
