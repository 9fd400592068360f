-- ===== src/Research.antt =====
-- `execute_job` of lab/research.py, and the checks of `verify` on the result of one job.
pub mod Counted
pub mod Verified
use kernel_bridge_concurrent.Common.{
  ◌>>=◌, zero, suc, ℕ, ◌+◌, Bool, true, false, not, ◌&&◌, ◌||◌, Option, none, some, List, [], ◌∷◌,
  leb, ◌==◌, if◌then◌else◌, length,
}
use kernel_bridge_concurrent.Dradd.Workload.{Workload, valid}
use kernel_bridge_concurrent.Dradd.Workload.Candidates.{Candidate, candidate}
use kernel_bridge_concurrent.Dradd.Trials.{
  Floats, Trial, trial_summary, Statistics, State, success_reproducer,
  target_failure_not_reproduced, invalid_candidate, different_failure, incomplete_execution,
  environment_error,
}
use kernel_bridge_concurrent.Dradd.Reduce.{
  reduce, Policy, Adapter, Phase, initial, confirmation, Group, Reduction, Progress,
}

-- The ValueErrors of `verify`, in their order, with the KeyError of a group that has no statistics
-- and the IndexError where there is no group.
pub data VerifyError : Type 0 where
  bad_projection invalid_executed bad_dependencies no_statistics bad_statistics : VerifyError
  bad_budget no_group bad_final unconfirmed bad_holdout : VerifyError

-- What `execute_job` stores, and `verify` reads back.
pub record JobResult (A : Type 0) : Type 0 where
  pub reduction : Reduction A
  pub holdout : List Trial
  pub holdout_statistics : Statistics

abbrev pub is_invalid : State → Bool
is_invalid invalid_candidate = true
is_invalid success_reproducer = false
is_invalid target_failure_not_reproduced = false
is_invalid different_failure = false
is_invalid incomplete_execution = false
is_invalid environment_error = false

abbrev pub is_confirmation : Phase → Bool
is_confirmation confirmation = true
is_confirmation initial = false
is_confirmation Phase.candidate = false

-- `==` of the statistics of two groups, whose frequencies are functions of the counts.
abbrev pub same_statistics : Statistics → Statistics → Bool
same_statistics s t =
    s.counts.target == t.counts.target
    && s.counts.passes == t.counts.passes
    && s.counts.different == t.counts.different
    && s.counts.timeout == t.counts.timeout
    && s.counts.incomplete == t.counts.incomplete
    && s.counts.environment == t.counts.environment
    && s.attempted == t.attempted

abbrev pub first_error : Option VerifyError → Option VerifyError → Option VerifyError
first_error none other = other
first_error (some e) other = some e

-- The error, unless the test holds.
abbrev pub unless : Bool → VerifyError → Option VerifyError
unless test e = if test then none else some e

-- The trials from the offset `i` on. `none` is an exception of the adapter, or of `trial_summary` on
-- a result that is no dictionary.
unfoldable pub holdout_from :
    {A : Type 0} → Adapter A → Candidate A → ℕ → ℕ → ℕ → Option (List Trial)
holdout_from adapter c seed i zero = some []
holdout_from adapter c seed i (suc n) = do
  t ← adapter.execute c (seed + 1000000 + i)
  rest ← holdout_from adapter c seed (suc i) n
  some (t ∷ rest)

-- From the call of `reduce` on, with the adapter that the request asks for. `none` is an exception;
-- the search of `reduce` does not run out of fuel.
unfoldable pub execute_job :
    {A F : Type 0} → Workload A → Adapter A → Floats F → Policy F → ℕ → Option (JobResult A)
unfolding holdout_from
execute_job source adapter floats policy holdout_trials = do
  result ← reduce source adapter floats policy
  holdout ← holdout_from adapter result.reduced policy.seed 0 holdout_trials
  some (record {
    reduction = result;
    holdout = holdout;
    holdout_statistics = trial_summary holdout adapter.signature;
  })

-- `same` is `==` of two workloads.
module _ {A : Type 0} (same : Candidate A → Candidate A → Bool) (source : Workload A) where
  abbrev pub verify_statistics : List ℕ → List Trial → Option Statistics → Option VerifyError
  verify_statistics signature trials none = some no_statistics
  verify_statistics signature trials (some s) =
      unless (same_statistics (trial_summary trials signature) s) bad_statistics

  abbrev pub verify_group : List ℕ → Group → Option VerifyError
  verify_group signature g =
      if is_invalid g.state
      then unless (length g.trials == 0) invalid_executed
      else first_error (unless (valid source g.kept) bad_dependencies)
          (verify_statistics signature g.trials g.statistics)

  unfoldable pub verify_groups : List ℕ → List Group → Option VerifyError
  verify_groups signature [] = none
  verify_groups signature (g ∷ groups) =
      first_error (verify_group signature g) (verify_groups signature groups)

  -- `executions` of the loop.
  unfoldable pub executions_of : List Group → ℕ
  executions_of [] = 0
  executions_of (g ∷ groups) =
      if is_invalid g.state then executions_of groups else length g.trials + executions_of groups

  -- result["groups"][-1]
  unfoldable pub last_group : List Group → Option Group
  last_group [] = none
  last_group (g ∷ []) = some g
  last_group (g ∷ h ∷ groups) = last_group (h ∷ groups)

  abbrev pub verify_budget : Reduction A → Option VerifyError
  verify_budget out =
      let executions = executions_of out.progress.groups in
      unless (executions == out.progress.executions && leb executions out.max_executions) bad_budget

  abbrev pub verify_final : Statistics → Option Statistics → Option VerifyError
  verify_final final none = some no_statistics
  verify_final final (some s) = unless (same_statistics final s) bad_final

  -- The final statistics, and the phase of a confirmed result.
  abbrev pub verify_last : Reduction A → Option Group → Option VerifyError
  verify_last out none = some no_group
  verify_last out (some g) =
      first_error (verify_final out.statistics g.statistics)
        (unless (not out.confirmed || is_confirmation g.phase) unconfirmed)

  abbrev pub verify_holdout : JobResult A → Option VerifyError
  verify_holdout job =
      unless
        (same_statistics (trial_summary job.holdout job.reduction.signature) job.holdout_statistics)
        bad_holdout

  -- `candidate` raises a ValueError of its own, which counts as one of the projection.
  abbrev pub verify_projection : Candidate A → Option (Candidate A) → Option VerifyError
  verify_projection reduced none = some bad_projection
  verify_projection reduced (some c) = unless (same c reduced) bad_projection

  -- The checks of one job; `none` is that none of them raises.
  unfoldable pub verify_result : JobResult A → Option VerifyError
  unfolding verify_groups executions_of last_group
  verify_result job =
      let out = job.reduction in
      let projection = verify_projection out.reduced (candidate source out.reduced.original_ids) in
      first_error projection (
        first_error (verify_groups out.signature out.progress.groups) (
          first_error (verify_budget out)
            (first_error (verify_last out (last_group out.progress.groups)) (verify_holdout job))))
