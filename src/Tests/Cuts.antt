-- ===== src/Tests/Cuts.antt =====
-- The reduction of a scenario of which only the operation `clear` fails.
use kernel_bridge_concurrent.Common.{ℕ, ◌+◌, ◌≡◌, refl, some, List, [], ◌∷◌, pos}
use kernel_bridge_concurrent.Contract.Ops.{Op, read, write, resize, clear, capacity}
use kernel_bridge_concurrent.Runner.{
  Signature, Status, passes, fails, clear_name, ret_field, Evaluation,
}
use kernel_bridge_concurrent.Runner.Reduction.{Reduced, answered, reduce_scenario}
use kernel_bridge_concurrent.Runner.Reduction.Answers.{IsReduced, reduce_scenario-IsReduced}

abbrev symptom : Signature
symptom = record {
  operation = clear_name;
  fields = ret_field ∷ [];
  expected_errno = pos 0;
  actual_errno = pos 0;
}

-- The first `clear` fails.
abbrev status_of : ℕ → List Op → Status
status_of index [] = passes
status_of index (clear ∷ ops) = fails index symptom
status_of index (read count ∷ ops) = status_of (index + 1) ops
status_of index (write text ∷ ops) = status_of (index + 1) ops
status_of index (resize requested ∷ ops) = status_of (index + 1) ops
status_of index (capacity ∷ ops) = status_of (index + 1) ops

abbrev evaluator : ℕ → List Op → Evaluation
evaluator n ops = record { status = status_of 0 ops; history = [] }

abbrev operations : List Op
operations = capacity ∷ read 0 ∷ clear ∷ capacity ∷ []

reduce_scenario-IsReduced_example :
    (out : Reduced) × (reduce_scenario evaluator operations 10 ≡ answered (some out))
    × IsReduced evaluator operations 10 2 symptom out
reduce_scenario-IsReduced_example = reduce_scenario-IsReduced evaluator operations 10 2 symptom refl
