-- ===== src/Parser/Lexer.antt =====
-- `stream_buffer` of lib/src/parser.cpp: the words of the input, the tokens of a word, and the buffer
-- of ten tokens as the tokens that are left.
-- A token keeps the number of its word: its characters lie in the place of that word, which the tenth
-- word after it is read into. A place has 512 bytes, of which the last is for the NUL behind the word.
use Prim.Native.Char.{code}
use Prim.Native.String.{String, ◌++◌ as ◌++ₛ◌}
use baryonyx.Base.{
  ℕ, zero, suc, Bool, true, false, List, [], ◌∷◌, ◌++◌, ◌&&◌, ◌||◌, ◌==◌, not, if◌then◌else◌,
  Option, none, some, ltb,
}
use baryonyx.Parser.Chars.{is_empty, is_separator, is_number, starts_with_a_number, one_of}

-- The loop over `is >> buffer`. A word that starts with `\` is left out with the rest of its line, of
-- which `true` stands for the word itself; between the words, what the place has of such a word.
pub data Reading : Type 0 where
  between : String → Reading
  in_word : String → Reading
  in_comment : Bool → String → Reading

abbrev pub is_space : ℕ → Bool
is_space c = one_of c (32 ∷ 9 ∷ 10 ∷ 11 ∷ 12 ∷ 13 ∷ [])

abbrev pub char_text : Prim.Native.Char.Char → String
char_text c = String.◌∷◌ c String.[]

-- The characters before the first NUL.
abbrev pub c_string : String → String
c_string String.[] = ""
c_string (String.◌∷◌ c s) = let rest = c_string s in if code c == 0 then "" else String.◌∷◌ c rest

-- What is read into a place: a word that starts with NUL is left out.
abbrev pub words_of : String → List String
words_of w = if is_empty (c_string w) then [] else c_string w ∷ []

-- One character: the words that end at it, and what follows.
unfoldable pub read_char : Reading → Prim.Native.Char.Char → List String × Reading
read_char (between w) c =
    if is_space (code c)
    then ([], between w)
    else if code c == 92
    then ([], in_comment true (char_text c))
    else ([], in_word (char_text c))
read_char (in_word w) c =
    if is_space (code c) then (words_of w, between "") else ([], in_word (w ++ₛ char_text c))
read_char (in_comment word w) c =
    if code c == 10
    then ([], between w)
    else if word && not (is_space (code c))
    then ([], in_comment true (w ++ₛ char_text c))
    else ([], in_comment false w)

-- What the place has at the end of the input: the last word, or a word with `\` behind whose line
-- there is no other, since the read fails there before it writes.
abbrev pub in_place : Reading → String
in_place (between w) = w
in_place (in_word w) = w
in_place (in_comment word w) = w

unfoldable pub words_from : Reading → String → List String
unfolding read_char
words_from r String.[] = words_of (in_place r)
words_from r (String.◌∷◌ c s) = (read_char r c).0 ++ words_from (read_char r c).1 s

-- Whether the last place that is read into is left empty.
unfoldable pub good_after : Reading → String → Bool
unfolding read_char
good_after r String.[] = is_empty (c_string (in_place r))
good_after r (String.◌∷◌ c s) = good_after (read_char r c).1 s

abbrev pub size : String → ℕ
size String.[] = 0
size (String.◌∷◌ c s) = suc (size s)

-- Whether every word that is read into a place fits it; the source does
-- not test it, and the model does before it reads.
unfoldable pub fits : Reading → String → Bool
unfolding read_char
fits r String.[] = ltb (size (in_place r)) 512
fits r (String.◌∷◌ c s) = ltb (size (in_place r)) 512 && fits (read_char r c).1 s

-- `next_token` in a word: the token so far, and whether it starts like a number.
abbrev pub Growing : Type 0
Growing = Option (Bool × String)

unfoldable pub start_token : Prim.Native.Char.Char → List String × Growing
unfolding is_separator starts_with_a_number
start_token c =
    if is_separator (code c)
    then (char_text c ∷ [], none)
    else ([], some (starts_with_a_number (code c), char_text c))

unfoldable pub cut_char : Growing → Prim.Native.Char.Char → List String × Growing
unfolding start_token is_number
cut_char none c = start_token c
cut_char (some (number, t)) c =
    if is_separator (code c) || number && not (is_number (code c))
    then (t ∷ (start_token c).0, (start_token c).1)
    else ([], some (number, t ++ₛ char_text c))

abbrev pub last_token : Growing → List String
last_token none = []
last_token (some (number, t)) = t ∷ []

unfoldable pub cut_word : Growing → String → List String
unfolding cut_char
cut_word g String.[] = last_token g
cut_word g (String.◌∷◌ c s) = (cut_char g c).0 ++ cut_word (cut_char g c).1 s

pub record Token : Type 0 where
  pub text : String
  pub word : ℕ

abbrev pub Tokens : Type 0
Tokens = List Token

abbrev pub tag_tokens : ℕ → List String → Tokens
tag_tokens n [] = []
tag_tokens n (t ∷ ts) = record { text = t; word = n } ∷ tag_tokens n ts

-- The tokens of all words, and where the last place is left empty, the empty token.
unfoldable pub tokens_of_words : Bool → ℕ → List String → Tokens
unfolding cut_word
tokens_of_words good n [] = if good then record { text = ""; word = n } ∷ [] else []
tokens_of_words good n (w ∷ ws) = tag_tokens n (cut_word none w) ++ tokens_of_words good (suc n) ws

unfoldable pub tokens_of : String → Tokens
unfolding words_from good_after tokens_of_words
tokens_of input = tokens_of_words (good_after (between "") input) 0 (words_from (between "") input)

-- `first()`, `second()` and the other places of the buffer; empty from the end of the input on.
abbrev pub peek : Tokens → ℕ → String
peek [] i = ""
peek (t ∷ ts) zero = t.text
peek (t ∷ ts) (suc i) = peek ts i
