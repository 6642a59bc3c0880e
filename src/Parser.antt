-- ===== src/Parser.antt =====
-- The parser of problems in the lp format: lib/src/parser.cpp.
-- A text is a `String`, whose characters are the bytes. The C library's `sscanf` and the conversion of
-- a `double` to an `int` are the parameter `Scanner`.
use Prim.Native.String.{String}
use baryonyx.Base.{Option}
use baryonyx.Base.Int.{ℤ}
use baryonyx.Double.{Double}
pub mod Chars
pub mod Lexer
pub mod Readers
pub mod Bounds
pub mod State
pub mod Elements
pub mod Names
pub mod Invariant
pub mod Loops
pub mod Quadratic
pub mod Objective
pub mod Constraints
pub mod Sections
pub mod Lossless
pub mod Preprocessed
pub mod Filled
pub mod Grammar
mod Tests

pub record Scanner (fl : Double) : Type 0 where
  pub infinity : fl.D
  pub neg_infinity : fl.D
  pub truncate : fl.D → ℤ
  pub scan : String → Option fl.D
