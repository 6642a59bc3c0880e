-- ===== src/Merge/Tests.antt =====
-- Runs of the merge of constraints on a small problem.
use baryonyx.Base.{ℕ, arith}
use baryonyx.Base.Int.{ℤ, ◌+ℤ◌, ◌*ℤ◌}
use baryonyx.Preprocess.{bit}
use baryonyx.Merge.{make_merged_constraints}
use baryonyx.Merge.Equivalence.{MeetsAll, SumsFit}
use baryonyx.Merge.Orders.{Faithful, make_merged_constraints-Faithful}
use baryonyx.Parameters.{memory}
use baryonyx.Double.{integers}
use baryonyx.Samples.{sample, solution}
use baryonyx.Problem.{compute_function}

abbrev x : ℕ → ℤ
x i = bit (solution i)

sample-SumsFit : SumsFit x sample
unfolding compute_function ◌+ℤ◌ ◌*ℤ◌
sample-SumsFit = (
  ((omega arith, omega arith), ((omega arith, omega arith), tt)),
  ((omega arith, omega arith), tt),
)

make_merged_constraints_example :
    Faithful x (MeetsAll x sample) (make_merged_constraints integers memory sample)
make_merged_constraints_example =
    make_merged_constraints-Faithful integers memory sample x sample-SumsFit
