-- ===== src/Coding/Plan.antt =====
-- include/codedllm/coding/plan.hpp: what the planner produces and the codec executes.
use coded_llm.Base.{ℕ, Bool, false, List, []}

pub record XorOperation : Type 0 where
  pub output : ℕ
  pub sources : List ℕ

-- `dependencies` has, for each operation, the indices of the operations that must precede it.
pub record DecodePlan : Type 0 where
  pub operations : List XorOperation
  pub dependencies : List (List ℕ)
  pub is_recoverable : Bool

abbrev pub unrecoverable : DecodePlan
unrecoverable = record { operations = []; dependencies = []; is_recoverable = false }
