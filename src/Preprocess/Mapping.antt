-- ===== src/Preprocess/Mapping.antt =====
-- The unused variables and the mapping from the problem's variables to those of the copy
-- (`is_unused_variable` and `make_problem` of lib/src/preprocessor.cpp).
use baryonyx.Base.{
  ℕ, zero, suc, Bool, true, false, List, [], ◌∷◌, ◌&&◌, ◌==◌, if◌then◌else◌, none, some, get_or,
}
use baryonyx.Preprocess.{VariableAccess, VariableValues, Progress, find_value}

unfoldable pub all_dropped : List ℕ → List ℕ → Bool
all_dropped counters [] = true
all_dropped counters (cst ∷ csts) =
    if get_or counters cst 0 == 0 then all_dropped counters csts else false

-- `is_unused_variable`: no constraint that is left has the variable.
unfoldable pub is_unused : Progress → VariableAccess → Bool
unfolding all_dropped
is_unused s a =
    all_dropped s.equal_constraints a.in_equal_constraints
    && all_dropped s.greater_constraints a.in_greater_constraints
    && all_dropped s.less_constraints a.in_less_constraints

-- An entry of `mapping`: the new index of a variable that stays, or the value of one that goes.
pub data Mapped : Type 0 where
  kept : ℕ → Mapped
  fixed : Bool → Mapped

unfoldable pub mapping_from : VariableValues → ℕ → ℕ → ℕ → List Mapped
unfolding find_value
mapping_from vars i c zero = []
mapping_from vars i c (suc n) = elim (find_value vars i) [
  | none ↦ kept c ∷ mapping_from vars (suc i) (suc c) n
  | some v ↦ fixed v ∷ mapping_from vars (suc i) c n
]

-- `mapping[i]`. A read past the end, of a variable that the problem does not have, is undefined in the
-- source; here it is the value 0.
abbrev pub mapped : List Mapped → ℕ → Mapped
mapped mapping i = get_or mapping i (fixed false)
