-- ===== src/Parameters.antt =====
-- The enumerations of `solver_parameters` in lib/include/baryonyx/core that the models branch on.
pub data PreConstraintOrder : Type 0 where
  none memory : PreConstraintOrder
  less_greater_equal less_equal_greater greater_less_equal : PreConstraintOrder
  greater_equal_less equal_less_greater equal_greater_less : PreConstraintOrder
  p1 p2 p3 p4 : PreConstraintOrder
