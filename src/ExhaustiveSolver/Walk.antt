-- ===== src/ExhaustiveSolver/Walk.antt =====
-- The loops over the walkers in `build_constraints` (lib/src/exhaustive-solver.hpp).
use mathlib.Core.List.{append_assoc, reverse-cons}
use baryonyx.Base.{
  ℕ, zero, suc, ◌+◌, ◌≤◌, ◌≡◌, ◌⊎◌, refl, sym, ap, subst, ◌∙◌, Bool, true, false, List, [], ◌∷◌,
  ◌++◌, reverse, inl, inr, arith, Option, some, length, replicate, All, ◌||◌, length-append,
  length-replicate, All-append,
}
use baryonyx.Base.Int.{ℤ}
use baryonyx.Base.Result.{loop}
use baryonyx.ExhaustiveSolver.{Found, evaluate, all_walkers, walk, rounds}

abbrev pub IsIn : List Bool → List (List Bool) → Type 0
IsIn w [] = ⊥
IsIn w (v ∷ vs) = (w ≡ v) ⊎ IsIn w vs

pub IsIn-left : (w : List Bool) (us vs : List (List Bool)) → IsIn w us → IsIn w (us ++ vs)
IsIn-left w [] vs h = elim h [ ]
IsIn-left w (u ∷ us) vs (inl e) = inl e
IsIn-left w (u ∷ us) vs (inr h) = inr (IsIn-left w us vs h)

pub IsIn-right : (w : List Bool) (us vs : List (List Bool)) → IsIn w vs → IsIn w (us ++ vs)
IsIn-right w [] vs h = h
IsIn-right w (u ∷ us) vs h = inr (IsIn-right w us vs h)

-- The places in what one more walker looks at.
module _ (w u v : List Bool) (us vs : List (List Bool)) where
  abbrev both : List (List Bool)
  both = us ++ u ∷ (vs ++ v ∷ [])

  in_first : IsIn w us → IsIn w both
  in_first h = IsIn-left w us (u ∷ (vs ++ v ∷ [])) h

  is_middle : w ≡ u → IsIn w both
  is_middle e = IsIn-right w us (u ∷ (vs ++ v ∷ [])) (inl e)

  in_second : IsIn w vs → IsIn w both
  in_second h = IsIn-right w us (u ∷ (vs ++ v ∷ [])) (inr (IsIn-left w vs (v ∷ []) h))

  is_last : w ≡ v → IsIn w both
  is_last e = IsIn-right w us (u ∷ (vs ++ v ∷ [])) (inr (IsIn-right w vs (v ∷ []) (inl e)))

pub loop-append :
    {S A : Type 0} (f : S → A → S) (s : S) (xs ys : List A)
    → loop f s (xs ++ ys) ≡ loop f (loop f s xs) ys
loop-append f s [] ys = refl
loop-append f s (x ∷ xs) ys = loop-append f (f s x) xs ys

zeros_snoc :
    (n : ℕ) (rest : List Bool)
    → false ∷ (replicate n false ++ rest) ≡ replicate n false ++ false ∷ rest
zeros_snoc zero rest = refl
zeros_snoc (suc n) rest = ap (λ t. false ∷ t) (zeros_snoc n rest)

pub turn : (b : Bool) (rest low : List Bool) → reverse rest ++ b ∷ low ≡ reverse (b ∷ rest) ++ low
turn b rest low =
    sym (ap (λ t. t ++ low) (reverse-cons b rest) ∙ append_assoc (reverse rest) (b ∷ []) low)

abbrev pub any : List Bool → Bool
any [] = false
any (b ∷ bs) = b || any bs

pub any-replicate : (bs : List Bool) → any bs ≡ false → bs ≡ replicate (length bs) false
any-replicate [] e = refl
any-replicate (false ∷ bs) e = ap (λ t. false ∷ t) (any-replicate bs e)
any-replicate (true ∷ bs) e = ground arith

plus_one : (n : ℕ) → n + 1 ≡ suc n
plus_one n = omega arith

pub length-reverse : (w : List Bool) → length (reverse w) ≡ length w
length-reverse [] = refl
length-reverse (b ∷ w) =
    ap length (reverse-cons b w)
    ∙ length-append (reverse w) (b ∷ [])
    ∙ ap (λ n. n + 1) (length-reverse w)
    ∙ plus_one (length w)

sum_of : (a b c d N : ℕ) → a ≡ c → b ≡ d → c + d ≡ N → a + b ≡ N
sum_of a b c d N e h k = omega arith

pub size : (z N : ℕ) (rest : List Bool) → length rest + z ≡ N → length (all_walkers z rest) ≡ N
size z N rest e =
    length-append (reverse rest) (replicate z false)
    ∙ sum_of (length (reverse rest)) (length (replicate z false)) (length rest) z N
        (length-reverse rest) (length-replicate z false) e

fuel_split : (r f : ℕ) → r + (1 + (r + 1)) + f ≡ r + suc (r + suc f)
fuel_split r f = omega arith

low_covers :
    (n : ℕ) (rest : List Bool) (firsts seconds : List (List Bool))
    → ((low : List Bool) → length low ≡ n → 1 ≤ n → IsIn (reverse (false ∷ rest) ++ low) firsts)
    → ((low : List Bool) → length low ≡ n → 1 ≤ n → IsIn (reverse (true ∷ rest) ++ low) seconds)
    → (low : List Bool) → length low ≡ suc n
    → IsIn
        (reverse rest ++ low)
        (firsts ++ all_walkers n (false ∷ rest) ∷ (seconds ++ all_walkers n (true ∷ rest) ∷ []))
low_covers n rest firsts seconds h k [] e = absurd (omega arith)
low_covers zero rest firsts seconds h k (false ∷ b ∷ low) e = absurd (omega arith)
low_covers zero rest firsts seconds h k (true ∷ b ∷ low) e = absurd (omega arith)
low_covers zero rest firsts seconds h k (false ∷ []) e =
    is_middle (reverse rest ++ false ∷ []) (all_walkers 0 (false ∷ rest))
      (all_walkers 0 (true ∷ rest)) firsts seconds (turn false rest [])
low_covers zero rest firsts seconds h k (true ∷ []) e =
    is_last (reverse rest ++ true ∷ []) (all_walkers 0 (false ∷ rest)) (all_walkers 0 (true ∷ rest))
      firsts seconds (turn true rest [])
low_covers (suc n) rest firsts seconds h k (false ∷ low) e =
    in_first (reverse rest ++ false ∷ low) (all_walkers (suc n) (false ∷ rest))
      (all_walkers (suc n) (true ∷ rest)) firsts seconds
      (subst (λ t. IsIn t firsts) (sym (turn false rest low)) (h low (omega arith) (omega arith)))
low_covers (suc n) rest firsts seconds h k (true ∷ low) e =
    in_second (reverse rest ++ true ∷ low) (all_walkers (suc n) (false ∷ rest))
      (all_walkers (suc n) (true ∷ rest)) firsts seconds
      (subst (λ t. IsIn t seconds) (sym (turn true rest low)) (k low (omega arith) (omega arith)))

module _ (factors : List ℤ) (bk_min bk_max : ℤ) where
  abbrev pub step : Found → List Bool → Found
  step = evaluate factors bk_min bk_max

  abbrev pub go : ℕ → ℕ → List Bool → Found → Option Found
  go = walk factors bk_min bk_max

  pub walk_end : (f z : ℕ) (s : Found) → go f z [] s ≡ some s
  unfolding walk
  walk_end f z s = refl

  pub walk_false :
      (f z : ℕ) (rest : List Bool) (s : Found)
      → go (suc f) z (false ∷ rest) s
        ≡ go f 0 (replicate z false ++ true ∷ rest) (step s (all_walkers z (false ∷ rest)))
  unfolding walk
  walk_false f z rest s = refl

  pub walk_true :
      (f z : ℕ) (rest : List Bool) (s : Found)
      → go (suc f) z (true ∷ rest) s ≡ go f (suc z) rest (step s (all_walkers z (true ∷ rest)))
  unfolding walk
  walk_true f z rest s = refl

  -- From `n` walkers at 0 before `rest` to the next round on `rest`: what is looked at on the way, which
  -- is every choice of the `n`, if there is one.
  pub record Low (n : ℕ) (rest : List Bool) (s : Found) : Type 0 where
    pub seen : List (List Bool)
    pub runs :
        (f : ℕ) → go (rounds n + f) 0 (replicate n false ++ rest) s ≡ go f n rest (loop step s seen)
    pub covers : (low : List Bool) → length low ≡ n → 1 ≤ n → IsIn (reverse rest ++ low) seen
    pub sizes : (N : ℕ) → length rest + n ≡ N → All (λ w. length w ≡ N) seen

  Low-runs :
      (n : ℕ) (rest : List Bool) (s : Found) (first : Low n (false ∷ rest) s)
      (second : Low n (true ∷ rest) (step (loop step s first.seen) (all_walkers n (false ∷ rest))))
      (f : ℕ)
      → go (rounds (suc n) + f) 0 (replicate (suc n) false ++ rest) s
        ≡ go f (suc n) rest (
            loop step s (
              first.seen
              ++ all_walkers n (false ∷ rest) ∷ (second.seen ++ all_walkers n (true ∷ rest) ∷ [])))
  Low-runs n rest s first second f =
      ap (λ k. go k 0 (false ∷ (replicate n false ++ rest)) s) (fuel_split (rounds n) f)
      ∙ ap (λ l. go (rounds n + suc (rounds n + suc f)) 0 l s) (zeros_snoc n rest)
      ∙ first.runs (suc (rounds n + suc f))
      ∙ walk_false (rounds n + suc f) n rest (loop step s first.seen)
      ∙ second.runs (suc f)
      ∙ walk_true f n rest (loop step _ second.seen)
      ∙ ap (λ t. go f (suc n) rest t)
          (sym (loop-append step _ second.seen (all_walkers n (true ∷ rest) ∷ [])))
      ∙ ap (λ t. go f (suc n) rest t) (sym (loop-append step s first.seen _))

  pub Low-walk : (n : ℕ) (rest : List Bool) (s : Found) → Low n rest s
  Low-walk zero rest s = record {
    seen = [];
    runs = λ f. ap (λ k. go k 0 rest s) (omega arith);
    covers = λ low e h. absurd (omega arith);
    sizes = λ N e. tt;
  }
  Low-walk (suc n) rest s =
      let first = Low-walk n (false ∷ rest) s in
      let second =
        Low-walk n (true ∷ rest) (step (loop step s first.seen) (all_walkers n (false ∷ rest))) in
      record {
        seen =
            first.seen
            ++ all_walkers n (false ∷ rest) ∷ (second.seen ++ all_walkers n (true ∷ rest) ∷ []);
        runs = Low-runs n rest s first second;
        covers =
            λ low e h. low_covers n rest first.seen second.seen first.covers second.covers low e;
        sizes = λ N e.
            All-append (λ w. length w ≡ N) first.seen _ (first.sizes N (omega arith))
              (
                size n N (false ∷ rest) (omega arith),
                All-append (λ w. length w ≡ N) second.seen _ (second.sizes N (omega arith))
                    (size n N (true ∷ rest) (omega arith), tt),
              );
      }
