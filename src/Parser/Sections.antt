-- ===== src/Parser/Sections.antt =====
-- The bounds, binaries and generals in lib/src/parser.cpp, and `parse` with all its sections: what the
-- parser keeps, and that it ends.
use Prim.Native.String.{String}
use baryonyx.Base.{
  ℕ, ◌-◌, ◌<◌, ◌≤◌, ◌≡◌, ◌⊎◌, refl, ap, ◌∙◌, [], ◌∷◌, ◌==◌, arith, length, Bool-cases, Option-cases,
  inl, inr, none, some,
}
use baryonyx.Base.Result.{ok, err, ◌>>=◌, Sat, bind-Sat, Sat-map, Sat_ok, Sat_err}
use baryonyx.Double.{Double}
use baryonyx.Problem.{RawProblem, VariableValue}
use baryonyx.Parser.{Scanner}
use baryonyx.Parser.Chars.{is_empty}
use baryonyx.Parser.Lexer.{Reading, fits, Tokens, peek, tokens_of}
use baryonyx.Parser.Readers.{read_bounds, read_binary, read_general, read_end}
use baryonyx.Parser.Bounds.{read_bound}
use baryonyx.Parser.State.{
  ProblemParser, Parsing, FileFormatErrorTag, Stop, pop_front, find_index, get_variable,
  set_boolean_variable, set_integer_variable, set_bound_variable, set_named, value_or,
}
use baryonyx.Parser.Invariant.{
  WellFormed, WellFormedProblem, WellFormed-problem, Ends, Blank, Popped, pop_front-Sat,
  bind_value-Sat, bind_pop-Sat, WellFormed-change_value,
}
use baryonyx.Parser.Elements.{first, second, with_parser, itself}
use baryonyx.Parser.Grammar.{
  before_keyword, parse_binary, parse_general, parse_binaries, parse_generals, parse_bound,
  parse_bounds, parse_end, parse, new_parser, make_problem,
}
use baryonyx.Parser.Loops.{repeat-Sat, repeat-Sat_at_end}
use baryonyx.Parser.Objective.{parse_objective-Sat}
use baryonyx.Parser.Constraints.{parse_constraints-Sat}

module _ {D : Type 0} where
  abbrev Good : Parsing D → Type 0
  Good t = WellFormed t.parser

  -- After a name of a section: it is one token less, or the name is empty and the end was there.
  abbrev FewerOrBlank : Parsing D → Parsing D → Type 0
  FewerOrBlank s t =
      Good t
      × ((length t.tokens < length s.tokens) ⊎ Blank t.parser)
      × (Blank s.parser → Blank t.parser)

  Blank-at_end :
      (ts : Tokens) (p : ProblemParser D) (t : Parsing D) (id : ℕ)
      → get_variable (peek ts 0) p ≡ some id
      → t.parser.cache_variable ≡ p.cache_variable
      → length t.tokens ≤ length ts - 1
      → (length t.tokens < length ts) ⊎ Blank t.parser
  unfolding get_variable
  Blank-at_end [] p t id found same fewer = inr (id, ap (λ cache. find_index cache "") same ∙ found)
  Blank-at_end (x ∷ ts) p t id found same fewer = inl (omega arith)

  set_named-Sat :
      (tag : FileFormatErrorTag) (f : VariableValue → VariableValue) (s : Parsing D)
      → Good s
      → Sat
          (FewerOrBlank s)
          Ends
          (value_or tag (set_named f (first s) s.parser) >>= λ p. pop_front 1 (with_parser s p))
  unfolding set_named
  set_named-Sat tag f s w = elim (Option-cases (get_variable (first s) s.parser)) [
    | inl unset ↦ rw (unset, set_named) tt
    | inr (id, found) ↦
        let P : ProblemParser D → Type 0 =
          λ q. WellFormed q × (q.cache_variable ≡ s.parser.cache_variable) in
        rw (found, set_named)
          (Sat-map Ends (Popped (length s.tokens) P) (FewerOrBlank s) _
            (λ t ((v, same), fewer). (
              v,
              Blank-at_end s.tokens s.parser t id found same fewer,
              λ (i, e). (i, ap (λ cache. find_index cache "") same ∙ e),
            ))
            (pop_front-Sat P 1 _ (WellFormed-change_value id f s.parser w, refl)))
  ]

  pub parse_binaries-Sat : (s : Parsing D) → Good s → Sat Good Ends (parse_binaries s)
  unfolding parse_binaries parse_binary set_boolean_variable
  parse_binaries-Sat s w = elim (Bool-cases (read_binary (first s) (second s) == 0)) [
    | inl e ↦ rw e w
    | inr e ↦ rw e (
        bind_pop-Sat Good WellFormed _ _ _ w (λ t (a, i).
          repeat-Sat_at_end itself before_keyword parse_binary Good (λ u b _. set_named-Sat _ _ u b)
            t a))
  ]

  pub parse_generals-Sat : (s : Parsing D) → Good s → Sat Good Ends (parse_generals s)
  unfolding parse_generals parse_general set_integer_variable
  parse_generals-Sat s w = elim (Bool-cases (read_general (first s) (second s) == 0)) [
    | inl e ↦ rw e w
    | inr e ↦ rw e (
        bind_pop-Sat Good WellFormed _ _ _ w (λ t (a, i).
          repeat-Sat_at_end itself before_keyword parse_general Good
            (λ u b _. set_named-Sat _ _ u b) t a))
  ]

  pub parse_end-Sat : (s : Parsing D) → Good s → Sat Good Ends (parse_end s)
  unfolding parse_end
  parse_end-Sat s w = elim (Bool-cases (read_end (first s) (second s) == 0)) [
    | inl e ↦ rw e tt
    | inr e ↦ rw e (
        bind_pop-Sat Good WellFormed _ _ _ w
          (λ t (a, i). elim (Bool-cases (is_empty (first t))) [ inl f ↦ rw f a | inr f ↦ rw f tt ]))
  ]

  set_named-WellFormed :
      (tag : FileFormatErrorTag) (f : VariableValue → VariableValue) (name : String)
      (p : ProblemParser D)
      → WellFormed p
      → Sat WellFormed Ends (value_or {D = D} tag (set_named f name p))
  unfolding set_named
  set_named-WellFormed tag f name p w = elim (Option-cases (get_variable name p)) [
    | inl unset ↦ rw (unset, set_named) tt
    | inr (id, found) ↦ rw (found, set_named) (WellFormed-change_value id f p w)
  ]

module _ {fl : Double} (sc : Scanner fl) where
  open fl use {D}

  abbrev Fewer : Parsing D → Parsing D → Type 0
  Fewer s t = WellFormed t.parser × (length t.tokens < length s.tokens)

  parse_bound-Sat :
      (ts : Tokens) (p : ProblemParser D)
      → WellFormed p
      → Sat
          (Fewer (record { tokens = ts; parser = p }))
          Ends
          (parse_bound sc (record { tokens = ts; parser = p }))
  unfolding parse_bound set_bound_variable read_bound
  parse_bound-Sat [] p w = tt
  parse_bound-Sat (x ∷ ts) p w =
      let s : Parsing D = record { tokens = x ∷ ts; parser = p } in
      bind_value-Sat (Fewer s) _ (read_bound sc (x ∷ ts)) _ (λ bound _.
        bind-Sat Ends WellFormed (Fewer s) _ _ (set_named-WellFormed _ _ bound.name p w) (λ q v.
          Sat-map Ends (Popped (length s.tokens) WellFormed) (Fewer s) _
            (λ t (a, i). (a, omega arith))
            (pop_front-Sat WellFormed bound.read (with_parser s q) v)))

  parse_bounds-Sat : (s : Parsing D) → Good s → Sat Good Ends (parse_bounds sc s)
  unfolding parse_bounds
  parse_bounds-Sat s w = elim (Bool-cases (read_bounds (first s) (second s) == 0)) [
    | inl e ↦ rw e w
    | inr e ↦ rw e (
        bind_pop-Sat Good WellFormed _ _ _ w (λ t (a, i).
          Sat-map Ends _ Good _ (λ u (b, j). b)
            (repeat-Sat itself before_keyword (parse_bound sc) Good
              (λ u b _. parse_bound-Sat u.tokens u.parser b) t a)))
  ]

  module _ (scan_empty : sc.scan "" ≡ none) where
    parse-Sat : (s : Parsing D) → Good s → Sat Good Ends (parse sc s)
    unfolding parse
    parse-Sat s w = bind-Sat Ends Good Good _ _ (parse_objective-Sat sc scan_empty s w) (λ t a.
        bind-Sat Ends Good Good _ _ (parse_constraints-Sat sc t a) (λ u b.
          bind-Sat Ends Good Good _ _ (parse_bounds-Sat u b) (λ v c.
            bind-Sat Ends Good Good _ _ (parse_binaries-Sat v c) (λ x d.
              bind-Sat Ends Good Good _ _ (parse_generals-Sat x d) (λ y e. parse_end-Sat y e)))))

    new_parser-WellFormed : WellFormed (new_parser sc)
    unfolding find_index
    new_parser-WellFormed = record {
      cached = refl;
      valued = refl;
      indexes = λ i name. (λ e. cc, λ e. cc);
      ranged = record { linear = tt; quadratic = tt; equals = tt; greaters = tt; lesses = tt };
    }

    make_problem-Sat : (is : String) → Sat WellFormedProblem Ends (make_problem sc is)
    unfolding make_problem
    make_problem-Sat is =
        let start : Parsing D = record { tokens = tokens_of is; parser = new_parser sc } in
        elim (Bool-cases (fits (Reading.between "") is)) [
          | inl e ↦ rw e (
              bind-Sat Ends Good WellFormedProblem _ (λ s. ok s.parser.problem)
                (parse-Sat start new_parser-WellFormed) (λ s w. WellFormed-problem s.parser w))
          | inr e ↦ rw e tt
        ]

    -- The problem that is read from a text has bounds for each name, no name twice, and in the objective
    -- function and the constraints only its own variables, in a constraint each once. `sscanf` reads no
    -- number from the empty text.
    pub make_problem-WellFormedProblem :
        (is : String) (pb : RawProblem D) → make_problem sc is ≡ ok pb → WellFormedProblem pb
    make_problem-WellFormedProblem is pb e =
        Sat_ok Ends WellFormedProblem (make_problem sc is) pb e (make_problem-Sat is)

    -- The fuel of every loop of the parser is enough, or a variable has the empty name. `sscanf` reads
    -- no number from the empty text.
    pub make_problem_ends :
        (is : String) (p : ProblemParser D)
        → make_problem sc is ≡ err (Stop.out_of_fuel p)
        → Blank p
    make_problem_ends is p e =
        Sat_err Ends WellFormedProblem (make_problem sc is) (Stop.out_of_fuel p) e
          (make_problem-Sat is)
