-- ===== src/Tests/Histories.antt =====
-- Recorded histories.
use kernel_bridge_concurrent.Common.{◌<◌, ◌≢◌, map, ℕ, ◌≡◌, refl, some, List, [], ◌∷◌}
use kernel_bridge_concurrent.Contract.Model
use kernel_bridge_concurrent.History.Search.Spec.{IsLinearization}
use kernel_bridge_concurrent.History.Search.Budget.{transitions}
use kernel_bridge_concurrent.History.Check.Verdicts.{
  pass-IsLinearization, fail-no-IsLinearization, exhausted-lt-transitions,
  check_history-ne-out_of_fuel,
}
use kernel_bridge_concurrent.History.Check.{raises, out_of_fuel}
use kernel_bridge_concurrent.Contract.Ops.{
  Op, read, write, Reply, success, success_data, Text-discrete, Reply-discrete,
}
use kernel_bridge_concurrent.Contract.Hex.{from_hex, hex}
use kernel_bridge_concurrent.Contract.Model.{apply, write_bytes, read_bytes}
use kernel_bridge_concurrent.Contract.Validate.{validate, validate_ops, validate_op}
use kernel_bridge_concurrent.History.Prefix.{
  counterexample, reduce_history_prefix, try_sizes, sorted_events,
}
use kernel_bridge_concurrent.History.Prefix.Cuts.{
  IsCounterexample, reduce_history_prefix-IsCounterexample,
}
use kernel_bridge_concurrent.History.Events.{Event, predecessors}
use kernel_bridge_concurrent.History.Search.{
  search, candidates_from, try_all, attempt, explore, matches,
}
use kernel_bridge_concurrent.History.Check.{
  pass, fail, inconclusive, budget_exhausted, check_history, scanned, scan_events, without_gaps,
  validated, run_search,
}

abbrev event : ℕ → ℕ → ℕ → ℕ → ℕ → Op → Reply → Event
event index worker sequence started finished operation actual = record {
  index = index;
  worker = worker;
  sequence = sequence;
  started = started;
  finished = finished;
  operation = operation;
  actual = some actual;
}

abbrev abc : List ℕ
abc = 65 ∷ 66 ∷ 67 ∷ []

-- The text 414243.
abbrev abc_hex : List ℕ
abc_hex = 52 ∷ 49 ∷ 52 ∷ 50 ∷ 52 ∷ 51 ∷ []

-- A read that overlaps the write and sees its bytes.
abbrev overlapping : List Event
overlapping =
    event 0 1 0 5 20 (read 3) (success_data 3 abc)
    ∷ event 1 0 0 1 10 (write abc_hex) (success 3)
    ∷ []

-- The same read, finished before the write starts.
abbrev too_early : List Event
too_early =
    event 0 1 0 1 4 (read 3) (success_data 3 abc)
    ∷ event 1 0 0 5 10 (write abc_hex) (success 3)
    ∷ []

program : Unit {0}
unfolding check_history scanned scan_events without_gaps validated run_search validate validate_ops
    validate_op predecessors search candidates_from try_all attempt explore matches apply
    write_bytes read_bytes from_hex hex Text-discrete Reply-discrete
program = tt

check-overlapping : check_history 256 overlapping 2 10000 ≡ pass (1 ∷ 0 ∷ []) 3
unfolding program
check-overlapping = refl

check-too_early : check_history 256 too_early 2 10000 ≡ fail 1
unfolding program
check-too_early = refl

check_exhausted : check_history 256 overlapping 2 1 ≡ inconclusive budget_exhausted 1
unfolding program
check_exhausted = refl

pass-IsLinearization_example :
    (events : List Event) × IsLinearization (Model.create 256) overlapping events
    × ◌≡◌ {A = List ℕ} (1 ∷ 0 ∷ []) (map (λ e. e.index) events)
pass-IsLinearization_example = pass-IsLinearization 256 overlapping 2 10000 check-overlapping

fail-no-IsLinearization_example : ¬ IsLinearization (Model.create 256) too_early too_early
fail-no-IsLinearization_example =
    fail-no-IsLinearization 256 too_early 2 10000 check-too_early too_early

exhausted-lt-transitions_example : 1 < transitions 2
exhausted-lt-transitions_example = exhausted-lt-transitions 256 overlapping 2 1 check_exhausted

check_history-ne-out_of_fuel_example : check_history 256 overlapping 2 1 ≢ raises out_of_fuel
check_history-ne-out_of_fuel_example = check_history-ne-out_of_fuel 256 overlapping 2 1

-- The event of `too_early` that its prefix keeps.
abbrev kept_read : List Event
kept_read = event 0 1 0 1 4 (read 3) (success_data 3 abc) ∷ []

reduce-too_early : reduce_history_prefix 256 10000 too_early ≡ counterexample kept_read 2
unfolding program reduce_history_prefix try_sizes sorted_events
reduce-too_early = refl

reduce_history_prefix-IsCounterexample_example : IsCounterexample 256 10000 too_early kept_read
reduce_history_prefix-IsCounterexample_example =
    reduce_history_prefix-IsCounterexample 256 10000 too_early kept_read 2 reduce-too_early
