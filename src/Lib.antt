-- ===== src/Lib.antt =====
-- Verification of baryonyx, a solver for 0-1 linear problems with a quadratic objective function.
--
-- The program reads a problem (lib/src/parser.cpp), shrinks it (lib/src/preprocessor.cpp), merges the
-- constraints on the same function (lib/src/merged-constraint.cpp), and gives the result to a solver
-- that works on Lagrange multipliers (lib/src/itm-*). This library models these parts up to the
-- solvers, and some of what the solvers share:
--
-- - Problem: the records of lib/include/baryonyx/core and lib/src/problem.hpp, the choice of a solver
--   (`problem::which_problem_type`), and `compute_function` of lib/src/lpcore.cpp.
-- - Parser: lib/src/parser.cpp. Chars has the characters and keywords, Lexer the words and tokens of
--   `stream_buffer`, Readers and Bounds what looks at a few tokens, State `problem_parser`, Elements
--   and Grammar the loops and sections of `parse`. Invariant, Names and Loops are about the state, the
--   map of the names and the loops, Quadratic, Objective, Constraints and Sections about the parts of
--   `parse`, Lossless and Filled about the tokens, Preprocessed about a text that is preprocessed.
-- - Preprocess: lib/src/preprocessor.cpp. Preprocess has the loop `affects` and what it calls,
--   Start the constructor and the rules at the start of a run, Mapping and Objective the unused
--   variables and the objective function, Copy the problem that is left. The other children prove:
--   Reduce, Values, Visit, Visits, Propagate and Cache follow the invariant of Invariant through
--   `affects`, Rules and Begin follow the rules at the start, Sound joins them; Cover and Unused
--   are about the unused variables, Copy.Constraints, Copy.Assign and Copy.Live about the
--   constraints that are copied and their assignments, Copy.Value about the objective function,
--   Copy.Names about the names of the variables, and Copy.Feasible about the whole runs.
-- - Merge: lib/src/merged-constraint.cpp. Sound is about one constraint that is added, Equivalence about
--   a whole list of them, Orders about each order of the lists.
-- - Solution: the check of a solution and the value of the objective function in lib/src/lpcore.cpp.
-- - Solver: the check of an assignment that the solvers share, in lib/src/itm-common.hpp. Violated is
--   about the list of the violated constraints.
-- - SparseMatrix: lib/src/sparse-matrix.hpp. Runs is about the loop that counts, Sorted and Blocks about
--   lists in the order of a key, Accessors and Entries about the entries of rows and columns.
-- - Solver.Inequalities101: the constructor of lib/src/itm-solver-inequalities-101.cpp. Sums and Valid
--   are about the check of an assignment, Merged about the solver of a problem whose constraints are
--   merged.
-- - ExhaustiveSolver: lib/src/exhaustive-solver.hpp. Walk, Rest and Whole are about the loops over the
--   walkers, Choice has what a choice is apart from the code, Choices, Entries and Built are about the
--   table that they make, Best about the search in it, Selected and Rows about what `solve` returns,
--   Solved about the whole.
-- - BitArray: lib/src/bit-array.hpp. Words is about one block, Bits about the bits of an array, Assign
--   about the copy of a range.
-- - Base, Double and Parameters: vectors, integers, exceptions, sorting, the floating point operations
--   as a parameter, and the order parameter of the merge. Samples and the modules Tests hold small
--   problems and runs.
--
-- How the code corresponds to the model. A `std::vector` is a list, an unordered map an association
-- list. `int` is a mathematical integer: sums and products are not wrapped, and where a theorem
-- needs that a sum fits an `int`, it is a hypothesis. `double` is a type with operations of which
-- nothing is assumed; where a theorem is about values of the objective function, they are whole
-- numbers, and where it is about a best cost, that comparisons are ordered is a hypothesis. A class
-- is a record of what changes, its methods are functions from it to it. A failing `bx_assert` or
-- `bx_expects`, `bx_reach`, and a read past the end are errors, but for the checks of the copied
-- problem in `make_problem` of the preprocessor and the reads of its `mapping` and of the names: of
-- a problem with a name for each variable, and no variable without bounds in a constraint or in the
-- objective function, these do not fail. The three kinds of constraints go through code that
-- differs only in the comparison; the model has it once, for an `OperatorType`. The loop `affects`
-- runs on fuel: one more than the length of the stack and the number of constraints is enough,
-- since each round takes an entry off the stack and an entry is put on it only as a constraint is
-- dropped. A loop of the parser runs on one round more than there are tokens. A text is a list of
-- bytes; its tokens are made at once, each with the number of its word, since the ten places of
-- words are used in turn: where the code reads a name whose place was read over, the model stops,
-- as it does where a word does not fit its place of 512 bytes. `sscanf` and the conversion of a
-- `double` to an `int` are parameters. The loops over the walkers run on fuel: on `n` walkers that
-- is `rounds n`, the number 2 ^ (n + 1) - 2 of the rounds from 0 in all of them to the end.
--
-- Not modelled: logging and the file preprocessed.lp that a run writes, the text pool of the names,
-- memory measures, the command line and the R package, the printing of a problem, the branch and
-- bound solver, the optimizers, and what the solvers do with the multipliers.
pub mod Base
pub mod BitArray
pub mod Double
pub mod ExhaustiveSolver
pub mod Parameters
pub mod Problem
pub mod Samples
pub mod Merge
pub mod Parser
pub mod Preprocess
pub mod Solution
pub mod Solver
pub mod SparseMatrix
