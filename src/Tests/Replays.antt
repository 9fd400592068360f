-- ===== src/Tests/Replays.antt =====
-- The reduction of a concurrent workload that fails while it has a `clear`.
use kernel_bridge_concurrent.Common.{
  ◌==◌, ℕ, ◌≡◌, refl, Bool, true, false, Option, none, some, List, [], ◌∷◌, length, if◌then◌else◌,
}
use kernel_bridge_concurrent.Contract.Ops.{Op, read, write, resize, clear, capacity}
use kernel_bridge_concurrent.Contract.Validate.{validate, validate_ops, validate_op}
use kernel_bridge_concurrent.Concurrency.{Plan, returns, validate_worker_plan}
use kernel_bridge_concurrent.Replay.{
  refused, Answer, reduce_load, chunk, Load, Trial, passed, no_order, Summary, answered, Ran, ran,
  raised, out_of_fuel, reduce_concurrent,
}
use kernel_bridge_concurrent.Replay.Answers.{Reduces, reduce_concurrent-Reduces}

abbrev has_clear : List Op → Bool
has_clear [] = false
has_clear (clear ∷ ops) = true
has_clear (read count ∷ ops) = has_clear ops
has_clear (write text ∷ ops) = has_clear ops
has_clear (resize requested ∷ ops) = has_clear ops
has_clear (capacity ∷ ops) = has_clear ops

abbrev replayed : ℕ → Load → Option Trial
replayed n l = some (record {
  status = if has_clear l.operations then no_order else passed;
  executed = length l.operations;
  explored = 1;
})

abbrev shared_plan : Plan
shared_plan = record {
  scenario = record {
    version = 1;
    capacity = 256;
    operations = capacity ∷ read 0 ∷ clear ∷ capacity ∷ [];
  };
  worker_ids = none;
  jitter = 0;
}

abbrev owners : List ℕ
owners = 0 ∷ 1 ∷ 0 ∷ 1 ∷ []

shared_plan_assigned : validate_worker_plan shared_plan 2 ≡ returns owners
unfolding validate_worker_plan validate validate_ops validate_op
shared_plan_assigned = refl

reduce_concurrent-Reduces_example :
    (found : Ran Summary) × (reduce_concurrent replayed chunk 2 10 shared_plan 2 100
      ≡ answered found)
    × Reduces replayed chunk 2 10
        (record { operations = shared_plan.scenario.operations; worker_ids = owners })
        found
reduce_concurrent-Reduces_example =
    reduce_concurrent-Reduces replayed chunk 2 10 shared_plan 2 100 owners shared_plan_assigned refl
      refl refl

abbrev left_of : Answer → List Op
left_of (answered (ran out)) = out.reduced.operations
left_of (answered raised) = []
left_of (answered out_of_fuel) = []
left_of (refused e) = []

reduced_to_clear : left_of (reduce_concurrent replayed chunk 2 10 shared_plan 2 100) ≡ clear ∷ []
unfolding reduce_concurrent reduce_load validate validate_ops validate_op
reduced_to_clear = refl

-- The fifth run, the first of the second candidate, raises, and nothing catches it.
abbrev failing_late : ℕ → Load → Option Trial
failing_late n l = if n == 4 then none else replayed n l

propagated : reduce_concurrent failing_late chunk 2 10 shared_plan 2 100 ≡ answered raised
unfolding reduce_concurrent reduce_load validate validate_ops validate_op
propagated = refl
