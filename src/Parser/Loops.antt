-- ===== src/Parser/Loops.antt =====
-- The loops of lib/src/parser.cpp: what a body keeps, and the fuel.
use baryonyx.Base.{
  ℕ, zero, suc, ◌<◌, ◌≤◌, ◌≡◌, ◌⊎◌, [], ◌∷◌, ◌&&◌, not, inl, inr, Bool, true, arith, length,
  Bool-cases,
}
use baryonyx.Base.Result.{Result, Sat, bind-Sat, Sat-map}
use baryonyx.Parser.Chars.{is_empty}
use baryonyx.Parser.Lexer.{Tokens, peek}
use baryonyx.Parser.State.{Parsing, Stop}
use baryonyx.Parser.Invariant.{Ends, Blank}
use baryonyx.Parser.Elements.{run_while, repeat}

pub nonempty_length :
    (ts : Tokens) (b : Bool) → (not (is_empty (peek ts 0)) && b) ≡ true → 0 < length ts
nonempty_length [] b h = cc
nonempty_length (t ∷ ts) b h = omega arith

module _ {D S : Type 0} (stream : S → Parsing D) (test : S → Bool) (body : S → Result (Stop D) S)
    (I : S → Type 0) where
  abbrev left : S → ℕ
  left s = length (stream s).tokens

  abbrev Fewer : S → S → Type 0
  Fewer s t = I t × (left t < left s)

  abbrev NoMore : S → S → Type 0
  NoMore s t = I t × (left t ≤ left s)

  abbrev FewerOrBlank : S → S → Type 0
  FewerOrBlank s t =
      I t
      × ((left t < left s) ⊎ Blank (stream t).parser)
      × (Blank (stream s).parser → Blank (stream t).parser)

  enough :
      (s t : S) {fuel : ℕ}
      → (left t < left s) ⊎ Blank (stream t).parser
      → (Blank (stream s).parser → Blank (stream t).parser)
      → (left s < suc fuel) ⊎ Blank (stream s).parser
      → (left t < fuel) ⊎ Blank (stream t).parser
  enough s t (inr b) l h = inr b
  enough s t (inl k) l (inr b) = inr (l b)
  enough s t (inl k) l (inl h) = inl (omega arith)

  -- Of a body that uses a token up, the fuel is enough.
  module _ (shrinks : (s : S) → I s → test s ≡ true → Sat (Fewer s) Ends (body s)) where
    run_while-Sat :
        (fuel : ℕ) (s : S)
        → I s
        → left s < fuel
        → Sat (NoMore s) Ends (run_while stream test body fuel s)
    run_while-Sat zero s i h = absurd (omega arith)
    run_while-Sat (suc fuel) s i h = elim (Bool-cases (test s)) [
      | inl e ↦ rw e (
          bind-Sat Ends (Fewer s) (NoMore s) (body s) (run_while stream test body fuel)
            (shrinks s i e)
            (λ t (j, k).
              Sat-map Ends (NoMore t) (NoMore s) _ (λ u (a, b). (a, omega arith))
                (run_while-Sat fuel t j (omega arith))))
      | inr e ↦ rw e (i, omega arith)
    ]

    pub repeat-Sat : (s : S) → I s → Sat (NoMore s) Ends (repeat stream test body s)
    repeat-Sat s i = run_while-Sat (suc (left s)) s i (omega arith)

  -- A body that goes on at the end of the input if a variable has the empty name.
  module _ (body-Sat : (s : S) → I s → test s ≡ true → Sat (FewerOrBlank s) Ends (body s)) where
    run_while-Sat_at_end :
        (fuel : ℕ) (s : S)
        → I s
        → (left s < fuel) ⊎ Blank (stream s).parser
        → Sat I Ends (run_while stream test body fuel s)
    run_while-Sat_at_end zero s i (inl h) = absurd (omega arith)
    run_while-Sat_at_end zero s i (inr b) = elim (Bool-cases (test s)) [
      | inl e ↦ rw e b
      | inr e ↦ rw e i
    ]
    run_while-Sat_at_end (suc fuel) s i h = elim (Bool-cases (test s)) [
      | inl e ↦ rw e (
          bind-Sat Ends (FewerOrBlank s) I (body s) (run_while stream test body fuel)
            (body-Sat s i e) (λ t (j, k, l). run_while-Sat_at_end fuel t j (enough s t k l h)))
      | inr e ↦ rw e i
    ]

    pub repeat-Sat_at_end : (s : S) → I s → Sat I Ends (repeat stream test body s)
    repeat-Sat_at_end s i = run_while-Sat_at_end (suc (left s)) s i (inl (omega arith))
