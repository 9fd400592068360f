-- ===== src/Tests/Reductions.antt =====
-- The reduction of a workload of three operations, of which one alone fails.
use kernel_bridge_concurrent.Dradd.Reduce.Keeps.{IsSound}
use kernel_bridge_concurrent.Research.{verify_result, JobResult, execute_job, holdout_from}
use kernel_bridge_concurrent.Research.Verified.{execute_job-verified}
use kernel_bridge_concurrent.Common.{
  ℕ, ◌*◌, ◌/◌, ◌≡◌, refl, ◌≢◌, ◌↔◌, Bool, true, false, ◌||◌, none, some, List, [], ◌∷◌, arith, leb,
  ◌==◌,
}
use mathlib.Core.List.{Memᴰ}
use kernel_bridge_concurrent.Contract.Ops.{Text-discrete}
use kernel_bridge_concurrent.Dradd.Workload.{same_list, is_empty}
use kernel_bridge_concurrent.Dradd.Workload.Sets.{same_list_iff, Within, all_in-Within}
use kernel_bridge_concurrent.Dradd.Workload.Prune.{
  prune_greatest, prune-IsValid, valid_iff, IsValid, IsClosed,
}
use kernel_bridge_concurrent.Dradd.Reduce.{Phase, initial, candidate, confirmation}
use kernel_bridge_concurrent.Dradd.Trials.{
  no_counts, Statistics, success_reproducer, target_failure_not_reproduced, invalid_candidate,
}
use kernel_bridge_concurrent.Dradd.Reduce.Results.{reduce-total}
use kernel_bridge_concurrent.Dradd.Workload.{
  Workload, contract_required, optional_heuristic, valid, ids, prune, prune_loop, supported,
  required, all_required,
}
use kernel_bridge_concurrent.Dradd.Workload.Candidates.{Candidate, project}
use kernel_bridge_concurrent.Dradd.Trials.{
  Floats, Trial, failed, passed, trial_summary, accepted, rejection, count_trials, count_trial,
  count_failure,
}
use kernel_bridge_concurrent.Dradd.Reduce.{
  Adapter, Policy, dradd, Group, Reduction, reduce, search, sweep, attempt, replay, run_trials,
  offsets_from,
}
use kernel_bridge_concurrent.Dradd.Reduce.Results.{reduce-KeepsAccounts, KeepsAccounts}
use kernel_bridge_concurrent.Dradd.Reduce.Confirmed.{
  reduce-IsReproduced, IsReproduced, reduce-IsSound,
}

-- The third operation requires the first; the edge of the second is only a heuristic.
abbrev workload : Workload ℕ
workload = record {
  operations = 5 ∷ 6 ∷ 7 ∷ [];
  worker_ids = 0 ∷ 1 ∷ 0 ∷ [];
  workers = 2;
  dependencies =
      record { operation = 2; requires = 0; kind = contract_required }
      ∷ record { operation = 1; requires = 0; kind = optional_heuristic }
      ∷ [];
}

abbrev has : ℕ → List ℕ → Bool
has x [] = false
has x (y ∷ ys) = x == y || has x ys

abbrev outcome_of : Bool → Trial
outcome_of true = record { status = failed; signature = some (1 ∷ []) }
outcome_of false = record { status = passed; signature = none }

-- It fails wherever the operation 7 is left.
abbrev adapter : Adapter ℕ
adapter = record {
  signature = 1 ∷ [];
  accepts = λ c. true;
  execute = λ c seed. some (outcome_of (has 7 c.workload.operations));
}

-- Percentages in place of floats.
abbrev percents : Floats ℕ
percents = record { ratio = λ a b. a * 100 / b; wilson_low = λ a b. 0; at_least = λ a b. leb b a }

abbrev policy : Policy ℕ
policy = record {
  strategy = dradd;
  trials = 2;
  max_executions = 20;
  max_candidates = 10;
  threshold = 60;
  one = 100;
  lower_bound = none;
  seed = 42;
}

abbrev hits : List Trial
hits = outcome_of true ∷ outcome_of true ∷ []

abbrev misses : List Trial
misses = outcome_of false ∷ outcome_of false ∷ []

abbrev two_hits : Statistics
two_hits = record { counts = record no_counts { target = 2 }; attempted = 2 }

abbrev two_passes : Statistics
two_passes = record { counts = record no_counts { passes = 2 }; attempted = 2 }

abbrev good : Phase → List ℕ → Group
good phase kept = record {
  phase = phase;
  kept = kept;
  trials = hits;
  statistics = some two_hits;
  is_accepted = true;
  state = success_reproducer;
}

abbrev bad : List ℕ → Group
bad kept = record {
  phase = candidate;
  kept = kept;
  trials = misses;
  statistics = some two_passes;
  is_accepted = false;
  state = target_failure_not_reproduced;
}

abbrev void : Group
void = record {
  phase = candidate;
  kept = [];
  trials = [];
  statistics = none;
  is_accepted = false;
  state = invalid_candidate;
}

abbrev groups : List Group
groups =
    good initial (0 ∷ 1 ∷ 2 ∷ [])
    ∷ void
    ∷ bad (0 ∷ 1 ∷ [])
    ∷ bad (1 ∷ [])
    ∷ good candidate (0 ∷ 2 ∷ [])
    ∷ void
    ∷ bad (0 ∷ [])
    ∷ good confirmation (0 ∷ 2 ∷ [])
    ∷ []

abbrev result : Reduction ℕ
result = record {
  signature = 1 ∷ [];
  max_executions = 20;
  reduced = project workload (0 ∷ 2 ∷ []);
  statistics = two_hits;
  progress = record {
    current = 0 ∷ 2 ∷ [];
    granularity = 2;
    groups = groups;
    attempts = 6;
    invalid = 2;
    executions = 12;
  };
  is_exhausted = false;
  confirmed = true;
  outcome = success_reproducer;
}

reduce-workload : reduce workload adapter percents policy ≡ some result
unfolding reduce search sweep attempt replay run_trials offsets_from trial_summary accepted
    rejection count_trials count_trial count_failure valid all_required required prune prune_loop
    supported project Text-discrete
reduce-workload = refl

valid-workload : valid workload (ids workload) ≡ true
unfolding valid all_required required Text-discrete
valid-workload = refl

reduce-KeepsAccounts_example : KeepsAccounts workload adapter percents policy result.progress
reduce-KeepsAccounts_example =
    reduce-KeepsAccounts workload adapter percents policy result (omega arith) reduce-workload

reduce-IsReproduced_example :
    (valid workload (0 ∷ 2 ∷ []) ≡ true)
    × IsReproduced workload adapter percents policy result.progress
reduce-IsReproduced_example =
    reduce-IsReproduced workload adapter percents policy result valid-workload reduce-workload refl

reduce-IsSound_example : IsSound workload adapter percents policy (good initial (0 ∷ 1 ∷ 2 ∷ []))
reduce-IsSound_example =
    reduce-IsSound workload adapter percents policy result valid-workload reduce-workload
      (good initial (0 ∷ 1 ∷ 2 ∷ [])) (Memᴰ.head refl)

reduce-total_example : reduce workload adapter percents policy ≢ none
reduce-total_example = reduce-total workload adapter percents policy

valid-part : valid workload (0 ∷ 2 ∷ []) ≡ true
unfolding valid all_required required Text-discrete
valid-part = refl

valid_iff_example : (valid workload (0 ∷ 2 ∷ []) ≡ true) ↔ IsValid workload (0 ∷ 2 ∷ [])
valid_iff_example = valid_iff workload (0 ∷ 2 ∷ [])

part-IsClosed : IsClosed workload.dependencies (0 ∷ 2 ∷ [])
part-IsClosed = ((valid_iff workload (0 ∷ 2 ∷ [])).0 valid-part).closed

prune_greatest_example :
    IsClosed workload.dependencies (prune workload (2 ∷ 1 ∷ 0 ∷ []))
    × Within (prune workload (2 ∷ 1 ∷ 0 ∷ [])) (2 ∷ 1 ∷ 0 ∷ [])
    × Within (0 ∷ 2 ∷ []) (prune workload (2 ∷ 1 ∷ 0 ∷ []))
prune_greatest_example =
    prune_greatest workload (2 ∷ 1 ∷ 0 ∷ []) (0 ∷ 2 ∷ []) part-IsClosed
      (all_in-Within (0 ∷ 2 ∷ []) (2 ∷ 1 ∷ 0 ∷ []) refl)

prune-left : is_empty (prune workload (1 ∷ 2 ∷ [])) ≡ false
unfolding prune prune_loop supported required Text-discrete
prune-left = refl

prune-IsValid_example : valid workload (prune workload (1 ∷ 2 ∷ [])) ≡ true
prune-IsValid_example =
    prune-IsValid workload (1 ∷ 2 ∷ []) (all_in-Within (1 ∷ 2 ∷ []) (ids workload) refl) prune-left

abbrev job : JobResult ℕ
job = record { reduction = result; holdout = hits; holdout_statistics = two_hits }

execute_job-workload : execute_job workload adapter percents policy 2 ≡ some job
unfolding execute_job holdout_from reduce search sweep attempt replay run_trials offsets_from
    trial_summary accepted rejection count_trials count_trial count_failure valid all_required
    required prune prune_loop supported project Text-discrete
execute_job-workload = refl

-- Two workloads of numbers are the same where they keep the same operations of the source.
abbrev same_ids : Candidate ℕ → Candidate ℕ → Bool
same_ids c d = same_list c.original_ids d.original_ids

same_ids_refl : (c : Candidate ℕ) → same_ids c c ≡ true
same_ids_refl c = (same_list_iff c.original_ids c.original_ids).1 refl

execute_job-verified_example : verify_result same_ids workload job ≡ none
execute_job-verified_example =
    execute_job-verified same_ids workload adapter percents policy job 2 same_ids_refl
      valid-workload (omega arith) execute_job-workload
