-- ===== src/Lib.antt =====
-- The test laboratory of a Linux ring buffer device, lab/*.py: it runs operations on the device
-- or on a simulator of it, judges the replies by a reference model of the device's contract, and
-- reduces what fails to fewer operations.
--
-- How the parts work together. A scenario is a capacity and a list of operations, which
-- `generate` of lab/contract.py makes and `validate` checks. A backend of lab/backends.py answers
-- operations: the simulator there and its variant with controlled faults in
-- lab/research_targets.py keep a queue of bytes, LinuxDevice calls the operating system.
-- `evaluate` of lab/runner.py runs a scenario on a backend and on the reference model side by
-- side. `evaluate_concurrent` of lab/concurrency.py runs it in threads, which record events with
-- their times, and `check_history` of lab/history.py searches for an order of the events that the
-- reference model explains. Three engines cut down what fails: `reduce_scenario` of lab/runner.py
-- a sequential scenario, `reduce_concurrent` of lab/replay.py a concurrent one, and `reduce` of
-- lab/dradd.py a workload under dependency constraints, whose deletions it accepts by repeated
-- trials of an adapter of lab/research_targets.py. `reduce_history_prefix` of lab/history.py cuts
-- a recorded history. `exchange` of lab/benchmark.py sends a payload through a transport and
-- reads it back. `execute_job` of lab/research.py stores a result of `reduce`, which `verify`
-- checks.
--
-- Which file models which part.
-- - Common: Boolean tests, results that may fail, lists and integers over the native numbers, sets
--   as lists.
-- - Contract/Hex: `bytes.fromhex` and `bytes.hex` as the contract uses them. Contract/Ops:
--   operations and replies. Contract/Model: the class ReferenceModel (its bounds in Model/Bounds,
--   what a run of it reads and writes in Model/Fifo). Contract/Validate: `validate`, once the
--   fields of a scenario have their types. Contract/Generate: `generate`, over a source of random
--   numbers. All of lab/contract.py.
-- - Backends: the class SimulatedDevice of lab/backends.py, its faults included (Backends/Agrees
--   is about the one without a fault).
-- - Backends/Linux: the class LinuxDevice of lab/backends.py from its `__enter__` on, as a state
--   monad over a record of system calls, a parameter. Linux/Descriptors is about its descriptor,
--   Linux/Restored about the capacity of the device; Linux/Tidy and Linux/Steady hold their
--   lemmas.
-- - Targets: the class ResearchDevice of lab/research_targets.py (Targets/Faults: the operations
--   that each controlled fault strikes). Targets/Fifo: the class FIFOAdapter on the simulator.
--   Targets/Register: the class RegisterAdapter, an adapter of Dradd/Reduce (Register/Deleted and
--   Register/Stale: when its trials fail). Targets/Fixtures: `fixture`.
-- - Runner: `evaluate` of lab/runner.py. A backend is the record Target, a parameter, since it
--   may be the real device; exceptions are `none`. Runner/Replies and Runner/Agreement say what a
--   verdict shows; Runner/NoFault runs the simulator. Runner/Reduction: `reduce_scenario`, over a
--   numbered sequence of evaluations (Reduction/Progress, Reduction/Ends, Reduction/Answers).
-- - History/Events, History/Search, History/Check: the recorded events, the inner function
--   `search` and the rest of `check_history` of lab/history.py. The modules below History/Search
--   state what a linearization is (Spec), and relate the search, its answers and its number of
--   steps to it.
-- - History/Prefix: `reduce_history_prefix` (Prefix/Cuts: what its counterexamples are).
-- - Concurrency: `validate_worker_plan` of lab/concurrency.py and the checks of
--   `evaluate_concurrent`. Concurrency/Threads: its threads, a relation of steps: a clock that
--   never goes back, and the moves of a thread from the start of a call over the answer of the
--   device and the end of the call to the record of its event. Threads/Flights, Sequences,
--   Traces, Backward and Runs relate a run to an order of its events. A call of the device and an
--   entry in the history are one step each, for which the source holds a lock; the barrier is left
--   out, since it only rules out some orders of the steps. Concurrency/Evaluation: the outcomes of
--   `evaluate_concurrent`; Evaluation/Alarms: those on a backend that answers as the reference
--   model.
-- - Replay: `reduce_concurrent` of lab/replay.py, over a numbered sequence of evaluations,
--   an exception of which ends the search (Replay/Loads, Groups, Keeps, Cases, Ends, Answers).
-- - Dradd/Workload: the class Workload of lab/dradd.py with `valid`, `prune` and
--   (Workload/Candidates) `candidate`. Dradd/Build: the checks of its constructor; Dradd/Order:
--   the depth-first search for cycles among them. Dradd/Trials: `trial_summary`, `accepted`,
--   `rejection`. Dradd/Reduce: `reduce`, whose parameters are an adapter, a policy and the
--   operations on floats that it uses; Reduce/Cases and Reduce/Keeps are the cases of an attempt
--   and what they keep, Reduce/Decided is about the trials of a group, Reduce/Ends about
--   termination, Reduce/Results and Reduce/Confirmed about the result.
-- - Research: `execute_job` of lab/research.py and the checks of `verify` on what it stores for
--   one job, the equality of two workloads being a parameter (Research/Counted, Verified). Seeds,
--   hashes, files and processes are not modelled.
-- - Benchmark: `exchange` of lab/benchmark.py, over a transport that is a parameter
--   (Benchmark/Echo and Benchmark/Ends are about its result and its end).
-- - Tests: runs on small inputs, and each theorem at an input that meets its hypotheses.
--
-- Representation. Texts are lists of code points, byte strings lists of numbers, sets of
-- operation numbers increasing lists. A mask of an `int` is a list of Booleans. An exception is
-- `none` or a constructor of the component's own type of errors. A method that changes its object
-- returns the new state. The lock of the simulator is held for a whole call, so a call is one
-- step. LinuxDevice has no lock; a theorem about concurrent runs on a backend has as hypothesis
-- that each call takes effect at one moment between its start and its end.
--
-- Fuel. `search` of check_history recurses on the number of events, each step marks one event.
-- The loop of `prune` has one more than the number of its operations, each round but the last
-- drops one. The search of `reduce` has two more than `max_candidates`, each sweep but the last
-- attempts a candidate; the outer loops of `reduce_scenario` and `reduce_concurrent` have one
-- more than their budgets for the same reason. The search for cycles has one more than the number
-- of operations, since an operation under visit is not visited again. The loops of `exchange`
-- have one for each byte.
--
-- Not modelled. Floats (the quotient, the Wilson interval and their comparison are parameters of
-- `accepted`) and the measured times; random numbers, which are parameters; files, processes and
-- the operating system, whose calls are parameters: hence the constructor of LinuxDevice, which
-- runs a program to read the ABI, the command lines, the reports and the evidence files. The
-- sleeps of threads are steps of the clock, and the callback `record` of `evaluate_concurrent` is
-- left out. Types of JSON fields: a scenario, an event or a workload enters the model once its
-- fields have their types, so the error branches on wrong types are left out. The trials of
-- FIFOAdapter on a device.
pub mod Common
pub mod Contract
pub mod Backends
pub mod History
pub mod Dradd
pub mod Runner
pub mod Concurrency
pub mod Replay
pub mod Targets
pub mod Research
pub mod Benchmark
pub mod Tests
