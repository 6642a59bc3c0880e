-- ===== src/Parser/Lossless.antt =====
-- The tokens of a text (`stream_buffer` of lib/src/parser.cpp), put together again.
use Prim.Native.Char.{Char, code}
use Prim.Native.String.{String, ◌++◌ as ◌++ₛ◌}
use text.Mathlib.TextLemmas.{nil-append, cons-append, append-nil, append_assoc}
use baryonyx.Base.{
  ℕ, suc, ◌≡◌, ◌≢◌, refl, sym, ap, subst, ◌∙◌, Bool, true, false, List, [], ◌∷◌, ◌++◌, map, ◌&&◌,
  ◌||◌, ◌==◌, not, if◌then◌else◌, none, some, arith, inl, inr, Bool-cases,
}
use baryonyx.Parser.Chars.{is_empty, is_separator, is_number}
use baryonyx.Parser.Lexer.{
  Reading, is_space, char_text, read_char, words_from, Growing, start_token, cut_char, cut_word,
  Tokens, tag_tokens, tokens_of_words, tokens_of, good_after, fits, c_string, words_of, in_place,
}

abbrev pub join : List String → String
join [] = ""
join (s ∷ ss) = s ++ₛ join ss

join-append : (xs ys : List String) → join (xs ++ ys) ≡ join xs ++ₛ join ys
join-append [] ys = sym (nil-append (join ys))
join-append (x ∷ xs) ys =
    ap (λ t. x ++ₛ t) (join-append xs ys) ∙ sym (append_assoc x (join xs) (join ys))

char_text-append : (c : Char) (s : String) → char_text c ++ₛ s ≡ String.◌∷◌ c s
char_text-append c s = cons-append c "" s ∙ ap (λ u. String.◌∷◌ c u) (nil-append s)

abbrev pending : Growing → String
pending none = ""
pending (some (number, t)) = t

join-start_token : (c : Char) → join (start_token c).0 ++ₛ pending (start_token c).1 ≡ char_text c
unfolding start_token
join-start_token c = elim (Bool-cases (is_separator (code c))) [
  | inl e ↦ rw e (append-nil _ ∙ append-nil _)
  | inr e ↦ rw e (nil-append _)
]

join-cut_char :
    (g : Growing) (c : Char)
    → join (cut_char g c).0 ++ₛ pending (cut_char g c).1 ≡ pending g ++ₛ char_text c
unfolding cut_char
join-cut_char none c = join-start_token c ∙ sym (nil-append (char_text c))
join-cut_char (some (number, t)) c =
    elim (Bool-cases (is_separator (code c) || number && not (is_number (code c)))) [
      | inl e ↦ rw e (
          append_assoc t (join (start_token c).0) (pending (start_token c).1)
          ∙ ap (λ u. t ++ₛ u) (join-start_token c))
      | inr e ↦ rw e (nil-append _)
    ]

join-cut_word : (g : Growing) (s : String) → join (cut_word g s) ≡ pending g ++ₛ s
unfolding cut_word
join-cut_word none String.[] = sym (append-nil "")
join-cut_word (some (number, t)) String.[] = refl
join-cut_word g (String.◌∷◌ c s) =
    let rest = join-cut_word (cut_char g c).1 s in
    join-append (cut_char g c).0 (cut_word (cut_char g c).1 s)
    ∙ ap (λ u. join (cut_char g c).0 ++ₛ u) rest
    ∙ sym (append_assoc (join (cut_char g c).0) (pending (cut_char g c).1) s)
    ∙ ap (λ u. u ++ₛ s) (join-cut_char g c)
    ∙ append_assoc (pending g) (char_text c) s
    ∙ ap (λ u. pending g ++ₛ u) (char_text-append c s)

-- No line is left out, and there is no NUL.
abbrev pub Plain : String → Type 0
Plain String.[] = Unit
Plain (String.◌∷◌ c s) = ((code c ≢ 92) × (code c ≢ 0)) × Plain s

abbrev NulFree : String → Type 0
NulFree String.[] = Unit
NulFree (String.◌∷◌ c s) = (code c ≢ 0) × NulFree s

NulFree-char_text : (w : String) (c : Char) → NulFree w → code c ≢ 0 → NulFree (w ++ₛ char_text c)
NulFree-char_text String.[] c h k = subst NulFree (sym (nil-append (char_text c))) (k, tt)
NulFree-char_text (String.◌∷◌ d w) c h k =
    subst NulFree (sym (cons-append d w (char_text c))) (h.0, NulFree-char_text w c h.1 k)

NulFree-c_string : (w : String) → NulFree w → c_string w ≡ w
NulFree-c_string String.[] h = refl
NulFree-c_string (String.◌∷◌ c w) h =
    let f : (code c == 0) ≡ false = ground arith in
    rw f (ap (λ t. String.◌∷◌ c t) (NulFree-c_string w h.1))

join-words_of : (w : String) → NulFree w → join (words_of w) ≡ w
join-words_of w h = rw (NulFree-c_string w h) (join_one w)
  where
    join_one : (w : String) → join (if is_empty w then [] else w ∷ []) ≡ w
    join_one String.[] = refl
    join_one (String.◌∷◌ c w) = append-nil _

abbrev pub without_space : String → String
without_space String.[] = ""
without_space (String.◌∷◌ c s) =
    let rest = without_space s in if is_space (code c) then rest else String.◌∷◌ c rest

-- The place has a word that will be a token as it is.
abbrev IsPlain : Reading → Type 0
IsPlain (Reading.between w) = w ≡ ""
IsPlain (Reading.in_word w) = NulFree w
IsPlain (Reading.in_comment word w) = ⊥

join-words_from :
    (r : Reading) (s : String)
    → IsPlain r
    → Plain s
    → join (words_from r s) ≡ in_place r ++ₛ without_space s
unfolding words_from read_char
join-words_from (Reading.between w) String.[] h p = rw h (sym (append-nil ""))
join-words_from (Reading.in_word w) String.[] h p = join-words_of w h ∙ sym (append-nil w)
join-words_from (Reading.between w) (String.◌∷◌ c s) h (p, q) =
    elim (Bool-cases (is_space (code c))) [
      | inl e ↦ rw e (join-words_from (Reading.between w) s h q)
      | inr e ↦
          let f : (code c == 92) ≡ false = ground arith in
          rw (e, f, h)
            (join-words_from (Reading.in_word (char_text c)) s (p.1, tt) q
              ∙ char_text-append c (without_space s)
              ∙ sym (nil-append _))
    ]
join-words_from (Reading.in_word w) (String.◌∷◌ c s) h (p, q) =
    elim (Bool-cases (is_space (code c))) [
      | inl e ↦ rw e (
          join-append (words_of w) (words_from (Reading.between "") s)
          ∙ ap (λ u. u ++ₛ join (words_from (Reading.between "") s)) (join-words_of w h)
          ∙ ap (λ u. w ++ₛ u)
              (join-words_from (Reading.between "") s refl q ∙ nil-append (without_space s)))
      | inr e ↦ rw e (
          join-words_from (Reading.in_word (w ++ₛ char_text c)) s (NulFree-char_text w c h p.1) q
          ∙ append_assoc w (char_text c) (without_space s)
          ∙ ap (λ u. w ++ₛ u) (char_text-append c (without_space s)))
    ]
join-words_from (Reading.in_comment word w) s h p = elim h [ ]

abbrev pub texts : Tokens → List String
texts = map (λ t. t.text)

texts-append : (ts us : Tokens) → texts (ts ++ us) ≡ texts ts ++ texts us
texts-append [] us = refl
texts-append (t ∷ ts) us = ap (λ v. t.text ∷ v) (texts-append ts us)

texts-tag_tokens : (n : ℕ) (ws : List String) → texts (tag_tokens n ws) ≡ ws
texts-tag_tokens n [] = refl
texts-tag_tokens n (w ∷ ws) = ap (λ v. w ∷ v) (texts-tag_tokens n ws)

join-tokens_of_words :
    (good : Bool) (n : ℕ) (ws : List String) → join (texts (tokens_of_words good n ws)) ≡ join ws
unfolding tokens_of_words
join-tokens_of_words true n [] = append-nil ""
join-tokens_of_words false n [] = refl
join-tokens_of_words good n (w ∷ ws) =
    let front = tag_tokens n (cut_word none w) in
    let rest = tokens_of_words good (suc n) ws in
    ap join (texts-append front rest)
    ∙ join-append (texts front) (texts rest)
    ∙ ap (λ t. t ++ₛ join (texts rest))
        (ap join (texts-tag_tokens n (cut_word none w)) ∙ join-cut_word none w ∙ nil-append w)
    ∙ ap (λ t. w ++ₛ t) (join-tokens_of_words good (suc n) ws)

-- The tokens of a text with neither NUL nor the character that leaves a line out, every word of which
-- fits its place, are, put together, the text without its white space.
pub tokens_of-join :
    (is : String)
    → Plain is
    → fits (Reading.between "") is ≡ true
    → join (texts (tokens_of is)) ≡ without_space is
unfolding tokens_of
tokens_of-join is plain h =
    join-tokens_of_words (good_after (Reading.between "") is) 0 (words_from (Reading.between "") is)
    ∙ join-words_from (Reading.between "") is refl plain
    ∙ nil-append (without_space is)
