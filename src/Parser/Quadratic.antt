-- ===== src/Parser/Quadratic.antt =====
-- The quadratic elements of the objective function in lib/src/parser.cpp, and what the parser keeps
-- while it reads them.
use Prim.Native.String.{String}
use text.Mathlib.Text.{◌==◌ as ◌=ₛ◌}
use baryonyx.Base.{
  ℕ, ◌+◌, ◌-◌, ◌<◌, ◌≤◌, ◌≡◌, refl, Bool, true, List, [], ◌∷◌, ◌&&◌, ◌||◌, arith, All, length,
  Bool-cases, inl, inr,
}
use baryonyx.Base.Result.{Sat, bind-Sat, Sat-map}
use baryonyx.Double.{Double}
use baryonyx.Problem.{ObjectiveQuadraticElement}
use baryonyx.Parser.{Scanner}
use baryonyx.Parser.Readers.{FunctionElementToken, read_name, read_quadratic_tokens}
use baryonyx.Parser.State.{Parsing}
use baryonyx.Parser.Invariant.{
  WellFormed, Ends, Popped, Assigned, n_variables, pop_front-Sat, bind_value-Sat, bind_pop-Sat,
  bind_assign-Sat, get_or_assign_variable-Sat,
}
use baryonyx.Parser.Elements.{
  first, second, third, with_parser, is_kept, word_at, assign_kept, same_pair, add_to_quadratic,
  add_quadratic, half, square_size, read_product, read_square, read_quadratic_step, in_brackets,
  itself, read_half, read_quadratic_element,
}
use baryonyx.Parser.Loops.{repeat-Sat, nonempty_length}

module _ {D : Type 0} where
  -- The word of the name is not read over, and the stream stays where it is.
  abbrev AssignedHere : Parsing D → ℕ × Parsing D → Type 0
  AssignedHere s (id, t) = Assigned s.parser (id, t.parser) × (length t.tokens ≡ length s.tokens)

  assign_kept-Sat :
      (kept : Bool) (name : String) (s : Parsing D)
      → WellFormed s.parser
      → Sat (AssignedHere s) Ends (assign_kept kept name s)
  assign_kept-Sat kept name s w = elim (Bool-cases kept) [
    | inl e ↦ rw e (
        bind-Sat Ends (Assigned s.parser) (AssignedHere s) _ _
          (get_or_assign_variable-Sat name s.parser w) (λ (id, p) a. (a, refl)))
    | inr e ↦ rw e tt
  ]

module _ {fl : Double} (sc : Scanner fl) where
  open fl use {D}

  InPairs : ℕ → List (ObjectiveQuadraticElement D) → Type 0
  InPairs n = All (λ e. (e.variable_index_a < n) × (e.variable_index_b < n))

  All-add_to_quadratic :
      (factor : D) (n id1 id2 : ℕ) (es : List (ObjectiveQuadraticElement D))
      → id1 < n
      → id2 < n
      → InPairs n es
      → InPairs n (add_to_quadratic sc factor id1 id2 es)
  unfolding InPairs add_to_quadratic
  All-add_to_quadratic factor n id1 id2 [] h k a = ((h, k), tt)
  All-add_to_quadratic factor n id1 id2 (e ∷ es) h k a =
      elim (Bool-cases (same_pair sc id1 id2 e)) [
        | inl same ↦ rw same a
        | inr other ↦ rw other (a.0, All-add_to_quadratic factor n id1 id2 es h k a.1)
      ]

  WellFormed-add_quadratic :
      (factor : D) (id1 id2 : ℕ) (s : Parsing D)
      → id1 < n_variables s.parser
      → id2 < n_variables s.parser
      → WellFormed s.parser
      → WellFormed (add_quadratic sc factor id1 id2 s).parser
  unfolding InPairs
  WellFormed-add_quadratic factor id1 id2 s h k w = record {
    cached = w.cached;
    valued = w.valued;
    indexes = w.indexes;
    ranged = record {
      linear = w.ranged.linear;
      quadratic =
          All-add_to_quadratic factor (n_variables s.parser) id1 id2
            s.parser.problem.objective.qelements h k w.ranged.quadratic;
      equals = w.ranged.equals;
      greaters = w.ranged.greaters;
      lesses = w.ranged.lesses;
    };
  }

  abbrev Shorter : Parsing D → Parsing D → Type 0
  Shorter s = Popped (length s.tokens) WellFormed

  abbrev Fewer : Parsing D → Parsing D → Type 0
  Fewer s t = WellFormed t.parser × (length t.tokens < length s.tokens)

  abbrev NotLonger : Parsing D → Parsing D → Type 0
  NotLonger s t = WellFormed t.parser × (length t.tokens ≤ length s.tokens)

  read_product-Sat :
      (sign_factor : D) (word : ℕ) (fct : FunctionElementToken D) (s : Parsing D)
      → WellFormed s.parser
      → Sat (NotLonger s) Ends (read_product sc sign_factor word fct s)
  unfolding read_product
  read_product-Sat sign_factor word fct s w =
      bind_value-Sat (NotLonger s) _ (read_name (second s)) _ (λ name _.
        bind-Sat Ends (AssignedHere s) (NotLonger s) _ _
          (assign_kept-Sat (is_kept 9 word s.tokens) fct.name s w)
          (λ (id1, t) (a, same). bind_assign-Sat (NotLonger s) _ _ _ a.well_formed (λ (id2, p) b.
            Sat-map Ends (Popped (length t.tokens) WellFormed) (NotLonger s) _
              (λ u (v, k). (v, omega arith))
              (pop_front-Sat WellFormed 2 _ (
                WellFormed-add_quadratic (half sc fct.factor sign_factor) id1 id2 (with_parser t p)
                  (omega (arith, a.index, b.more)) b.index b.well_formed)))))

  read_square-Sat :
      (sign_factor : D) (word : ℕ) (fct : FunctionElementToken D) (s : Parsing D)
      → WellFormed s.parser
      → Sat (NotLonger s) Ends (read_square sc sign_factor word fct s)
  unfolding read_square
  read_square-Sat sign_factor word fct s w =
      bind_pop-Sat (NotLonger s) WellFormed _ _ _ w (λ t (v, fewer).
        bind-Sat Ends (AssignedHere t) (NotLonger s) _ _
          (assign_kept-Sat (is_kept (9 + square_size sc s) word s.tokens) fct.name t v)
          (λ (id, u) (a, same). (
            WellFormed-add_quadratic (half sc fct.factor sign_factor) id id u a.index a.index
                a.well_formed,
            omega arith,
          )))

  read_quadratic_step-Sat :
      (sign_factor : D) (s : Parsing D)
      → WellFormed s.parser
      → in_brackets sc s ≡ true
      → Sat (Fewer s) Ends (read_quadratic_step sc sign_factor s)
  unfolding read_quadratic_step
  read_quadratic_step-Sat sign_factor s w test =
      bind_value-Sat (Fewer s) _ (read_quadratic_tokens sc (first s) (second s) (third s)) _
        (λ fct _. bind_pop-Sat (Fewer s) WellFormed _ _ _ w (λ t (v, fewer).
          let word = word_at s.tokens (fct.read - 1) in
          let some_left = nonempty_length s.tokens _ test in
          let shorter : (u : Parsing D) → NotLonger t u → Fewer s u =
            λ u (a, b). (a, omega arith) in
          elim (Bool-cases (first t =ₛ "*")) [
            | inl e ↦ rw e (
                Sat-map Ends (NotLonger t) (Fewer s) _ shorter
                  (read_product-Sat sign_factor word fct t v))
            | inr e ↦ elim (Bool-cases ((first t =ₛ "^") || (first t =ₛ "^2"))) [
              | inl f ↦
                  rw (e, f)
                    (Sat-map Ends (NotLonger t) (Fewer s) _ shorter
                      (read_square-Sat sign_factor word fct t v))
              | inr f ↦ rw (e, f) (v, omega arith)
            ]
          ]))

  read_half-Sat :
      (s v : Parsing D)
      → WellFormed v.parser
      → length v.tokens ≤ length s.tokens - 1
      → Sat (Shorter s) Ends (read_half sc v)
  unfolding read_half
  read_half-Sat s v w h =
      let shorter : (u : Parsing D) → Shorter v u → Shorter s u = λ u (a, b). (a, omega arith) in
      elim (Bool-cases ((first v =ₛ "/") && (second v =ₛ "2"))) [
        | inl e ↦
            rw e (Sat-map Ends (Shorter v) (Shorter s) _ shorter (pop_front-Sat WellFormed 2 v w))
        | inr e ↦ elim (Bool-cases (first v =ₛ "/2")) [
          | inl f ↦
              rw (e, f)
                (Sat-map Ends (Shorter v) (Shorter s) _ shorter (pop_front-Sat WellFormed 1 v w))
          | inr f ↦ rw (e, f) tt
        ]
      ]

  pub read_quadratic_element-Sat :
      (sign_factor : D) (s : Parsing D)
      → WellFormed s.parser
      → Sat (Shorter s) Ends (read_quadratic_element sc sign_factor s)
  unfolding read_quadratic_element
  read_quadratic_element-Sat sign_factor s w = elim (Bool-cases (first s =ₛ "[")) [
    | inl e ↦ rw e (
        bind_pop-Sat (Shorter s) WellFormed _ _ _ w (λ t (a, i).
          bind-Sat Ends (NotLonger t) (Shorter s) _ _
            (repeat-Sat itself (in_brackets sc) (read_quadratic_step sc sign_factor)
              (λ u. WellFormed u.parser) (read_quadratic_step-Sat sign_factor) t a)
            (λ u (b, j).
              bind_pop-Sat (Shorter s) WellFormed _ _ _ b
                (λ v (c, k). read_half-Sat s v c (omega arith)))))
    | inr e ↦ rw e tt
  ]
