-- ===== src/Parser/Chars.antt =====
-- The characters and keywords of lib/src/parser.cpp. `tolower` is that of the C locale.
use Prim.Native.Char.{code}
use Prim.Native.String.{String}
use baryonyx.Base.{
  ℕ, ◌+◌, Bool, true, false, List, [], ◌∷◌, ◌&&◌, ◌||◌, ◌==◌, not, if◌then◌else◌, leb,
}

unfoldable pub lower : ℕ → ℕ
lower c = if leb b'A' c && leb c b'Z' then c + 32 else c

unfoldable pub are_equal : String → String → Bool
unfolding lower
are_equal String.[] String.[] = true
are_equal (String.◌∷◌ c s) (String.◌∷◌ d t) = (lower (code c) == lower (code d)) && are_equal s t
are_equal _ _ = false

abbrev pub is_empty : String → Bool
is_empty String.[] = true
is_empty (String.◌∷◌ c s) = false

-- `str[0]`, and 0 for the empty text.
abbrev pub head : String → ℕ
head String.[] = 0
head (String.◌∷◌ c s) = code c

abbrev pub one_of : ℕ → List ℕ → Bool
one_of c [] = false
one_of c (d ∷ ds) = (c == d) || one_of c ds

unfoldable pub is_char_operator : ℕ → Bool
is_char_operator c = one_of c (b'<' ∷ b'>' ∷ b'=' ∷ [])

unfoldable pub starts_with_operator : String → Bool
unfolding is_char_operator
starts_with_operator str = not (is_empty str) && is_char_operator (head str)

abbrev pub is_digit : ℕ → Bool
is_digit c = leb b'0' c && leb c b'9'

unfoldable pub is_char_name : ℕ → Bool
is_char_name c =
    (leb b'a' c && leb c b'z')
    || (leb b'A' c && leb c b'Z')
    || is_digit c
    || one_of c (
        b'!' ∷ b'"' ∷ b'#' ∷ b'$' ∷ b'%' ∷ b'&' ∷ b'(' ∷ b')' ∷ b',' ∷ b'.' ∷ b';' ∷ b'?' ∷ b'@'
        ∷ b'_' ∷ b'{' ∷ b'}' ∷ b'~' ∷ [])

unfoldable pub starts_with_name : String → Bool
unfolding is_char_name
starts_with_name str = not (is_empty str) && is_char_name (head str)

unfoldable pub is_number : ℕ → Bool
is_number c = is_digit c || one_of c (b'.' ∷ b'e' ∷ b'E' ∷ b'-' ∷ b'+' ∷ [])

unfoldable pub starts_with_a_number : ℕ → Bool
starts_with_a_number c = is_digit c || one_of c (b'.' ∷ b'-' ∷ b'+' ∷ [])

unfoldable pub starts_with_number : String → Bool
unfolding is_number are_equal
starts_with_number str =
    if is_empty str
    then false
    else if one_of (head str) (b'i' ∷ b'I' ∷ [])
        && (are_equal str "infinity" || are_equal str "inf")
    then true
    else is_number (head str)

unfoldable pub is_separator : ℕ → Bool
is_separator c = one_of c (b'<' ∷ b'=' ∷ b'>' ∷ b':' ∷ b'-' ∷ b'+' ∷ b'[' ∷ b']' ∷ b'*' ∷ b'^' ∷ [])

abbrev pub keywords : List String
keywords =
    "binary" ∷ "binaries" ∷ "bin" ∷ "bound" ∷ "bounds" ∷ "general" ∷ "generals" ∷ "gen" ∷ "end"
    ∷ "st" ∷ "subject" ∷ "sush" ∷ "s.t." ∷ "st." ∷ []

abbrev pub equals_one : List String → String → Bool
equals_one [] str = false
equals_one (k ∷ ks) str = are_equal k str || equals_one ks str

unfoldable pub is_keyword : String → Bool
unfolding are_equal
is_keyword str = equals_one keywords str
