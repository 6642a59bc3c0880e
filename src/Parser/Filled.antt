-- ===== src/Parser/Filled.antt =====
-- The end of the input in the tokens of a text (`stream_buffer` of lib/src/parser.cpp).
use Prim.Native.Char.{Char}
use Prim.Native.String.{String, ◌++◌ as ◌++ₛ◌}
use baryonyx.Base.{◌≡◌, ◌⊎◌, false, List, [], ◌∷◌, ◌++◌, none, some, All}
use baryonyx.Parser.Chars.{is_empty}
use baryonyx.Parser.Lexer.{Growing, Tokens}

-- Every token but the last has a text.
abbrev pub EmptyAtEnd : Tokens → Type 0
EmptyAtEnd [] = Unit
EmptyAtEnd (t ∷ ts) = ((is_empty t.text ≡ false) ⊎ (ts ≡ [])) × EmptyAtEnd ts

abbrev Filled : List String → Type 0
Filled = All (λ s. is_empty s ≡ false)

abbrev FilledGrowing : Growing → Type 0
FilledGrowing none = Unit
FilledGrowing (some (number, t)) = is_empty t ≡ false
