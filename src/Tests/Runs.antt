-- ===== src/Tests/Runs.antt =====
-- Scenarios evaluated on the simulator.
use kernel_bridge_concurrent.Contract.Hex.{from_hex, hex}
use kernel_bridge_concurrent.Contract.Validate.{validate_ops, validate_op, validate_text}
use kernel_bridge_concurrent.Backends.{append_loop, pop_loop, write_queue, read_queue}
use kernel_bridge_concurrent.Contract.Ops.{Text-discrete}
use kernel_bridge_concurrent.Contract.Model.{read_bytes, write_bytes, create}
use kernel_bridge_concurrent.Common.{refl}
use kernel_bridge_concurrent.Contract.Model.Fifo.{Runs}
use kernel_bridge_concurrent.Contract.Model.{apply, Model}
use kernel_bridge_concurrent.Runner.Agreement.{pass-Runs, fail-Detected, actual_of, Detected}
use kernel_bridge_concurrent.Runner.{
  differing, run, passes, fails, Signature, Entry, read_name, data_field, errno_field, ret_field,
}
use kernel_bridge_concurrent.Common.{map, length, some, none, List, pos, ◌≡◌, ℕ, [], ◌∷◌}
use kernel_bridge_concurrent.Contract.Ops.{
  success_data, Reply, success, eagain, Op, failure, read, write,
}
use kernel_bridge_concurrent.Contract.Validate.{validate, Scenario}
use kernel_bridge_concurrent.Backends.{apply_locked, no_fault, false_eof}
use kernel_bridge_concurrent.Runner.{Evaluation, evaluate}
use kernel_bridge_concurrent.Runner.NoFault.{simulated-IsComplete, IsComplete, simulated}

-- Two bytes are written, one is read, then one more than is left.
abbrev scenario : Scenario
scenario = record {
  version = 1;
  capacity = 256;
  operations = write (48 ∷ 97 ∷ 48 ∷ 98 ∷ []) ∷ read 1 ∷ read 2 ∷ read 1 ∷ [];
}

abbrev entry : ℕ → Op → Reply → Reply → Entry
entry index op expected actual = record {
  index = index;
  operation = op;
  expected = expected;
  actual = actual;
}

abbrev first_entries : List Entry → List Entry
first_entries rest =
    entry 0 (write (48 ∷ 97 ∷ 48 ∷ 98 ∷ [])) (success 2) (success 2)
    ∷ entry 1 (read 1) (success_data 1 (10 ∷ [])) (success_data 1 (10 ∷ []))
    ∷ entry 2 (read 2) (success_data 1 (11 ∷ [])) (success_data 1 (11 ∷ []))
    ∷ rest

abbrev good_run : Evaluation
good_run = record {
  status = passes;
  history = first_entries (entry 3 (read 1) (failure eagain) (failure eagain) ∷ []);
}

abbrev symptom : Signature
symptom = record {
  operation = read_name;
  fields = data_field ∷ errno_field ∷ ret_field ∷ [];
  expected_errno = pos 11;
  actual_errno = pos 0;
}

abbrev bad_run : Evaluation
bad_run = record {
  status = fails 3 symptom;
  history = first_entries (entry 3 (read 1) (failure eagain) (success_data 0 []) ∷ []);
}

validate-scenario : validate scenario ≡ none
unfolding validate validate_ops validate_op validate_text hex from_hex Text-discrete
validate-scenario = refl

evaluate-no_fault : evaluate (simulated no_fault) scenario ≡ some good_run
unfolding evaluate run differing apply write_bytes read_bytes apply_locked write_queue read_queue
    append_loop pop_loop hex from_hex Text-discrete validate_ops validate_op
evaluate-no_fault = refl

evaluate-false_eof : evaluate (simulated false_eof) scenario ≡ some bad_run
unfolding evaluate run differing apply write_bytes read_bytes apply_locked write_queue read_queue
    append_loop pop_loop hex from_hex Text-discrete validate_ops validate_op
evaluate-false_eof = refl

simulated-IsComplete_example :
    (ev : Evaluation) × (evaluate (simulated no_fault) scenario ≡ some ev)
    × IsComplete scenario.operations ev
simulated-IsComplete_example = simulated-IsComplete scenario validate-scenario

pass-Runs_example :
    (last : Model) × Runs (create 256) scenario.operations (map actual_of good_run.history) last
pass-Runs_example = pass-Runs (simulated no_fault) scenario good_run evaluate-no_fault refl

fail-Detected_example :
    Detected (create 256) scenario.operations bad_run.history × (4 ≡ length bad_run.history)
fail-Detected_example = fail-Detected (simulated false_eof) scenario bad_run evaluate-false_eof refl
