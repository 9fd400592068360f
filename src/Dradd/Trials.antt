-- ===== src/Dradd/Trials.antt =====
-- `trial_summary`, `accepted` and `rejection` of lab/dradd.py.
use kernel_bridge_concurrent.Common.{
  ℕ, ◌+◌, Bool, true, ◌&&◌, ◌||◌, Option, none, some, List, [], ◌∷◌, ltb, ◌==◌, if◌then◌else◌,
  length,
}
use kernel_bridge_concurrent.Dradd.Workload.{same_list}

-- The status that an adapter reports; `unknown` is any other text or none.
pub data Status : Type 0 where
  failed passed timed_out environment_failed unknown : Status

pub record Trial : Type 0 where
  pub status : Status
  pub signature : Option (List ℕ)

pub record Counts : Type 0 where
  pub target : ℕ
  pub passes : ℕ
  pub different : ℕ
  pub timeout : ℕ
  pub incomplete : ℕ
  pub environment : ℕ

abbrev pub no_counts : Counts
no_counts = record {
  target = 0;
  passes = 0;
  different = 0;
  timeout = 0;
  incomplete = 0;
  environment = 0;
}

-- A failure with no signature text counts as incomplete.
unfoldable pub count_failure : List ℕ → Option (List ℕ) → Counts → Counts
count_failure expected none k = record k { incomplete = k.incomplete + 1 }
count_failure expected (some text) k =
    if same_list text expected
    then record k { target = k.target + 1 }
    else record k { different = k.different + 1 }

unfoldable pub count_trial : List ℕ → Status → Option (List ℕ) → Counts → Counts
unfolding count_failure
count_trial expected failed signature k = count_failure expected signature k
count_trial expected passed signature k = record k { passes = k.passes + 1 }
count_trial expected timed_out signature k = record k { timeout = k.timeout + 1 }
count_trial expected environment_failed signature k = record k { environment = k.environment + 1 }
count_trial expected unknown signature k = record k { incomplete = k.incomplete + 1 }

unfoldable pub count_trials : List ℕ → List Trial → Counts → Counts
unfolding count_trial
count_trials expected [] k = k
count_trials expected (t ∷ trials) k =
    count_trials expected trials (count_trial expected t.status t.signature k)

-- The statistics of a group; `frequency` and `wilson95` are computed from them where they are read.
pub record Statistics : Type 0 where
  pub counts : Counts
  pub attempted : ℕ

abbrev pub valid_count : Counts → ℕ
valid_count k = k.target + k.passes + k.different

unfoldable pub trial_summary : List Trial → List ℕ → Statistics
unfolding count_trials
trial_summary trials expected = record {
  counts = count_trials expected trials no_counts;
  attempted = length trials;
}

-- Python's floats: the quotient of two counts, the lower end of their Wilson interval, and the
-- comparison `>=`.
pub record Floats (F : Type 0) : Type 0 where
  pub ratio : ℕ → ℕ → F
  pub wilson_low : ℕ → ℕ → F
  pub at_least : F → F → Bool

module _ {F : Type 0} (floats : Floats F) where
  abbrev pub above_bound : Counts → Option F → Bool
  above_bound k none = true
  above_bound k (some bound) = floats.at_least (floats.wilson_low k.target (valid_count k)) bound

  unfoldable pub accepted : Statistics → ℕ → F → Option F → Bool
  accepted s n threshold lower_bound =
      valid_count s.counts == n
      && ltb 0 s.counts.target
      && floats.at_least (floats.ratio s.counts.target (valid_count s.counts)) threshold
      && above_bound s.counts lower_bound

-- The states of a group.
pub data State : Type 0 where
  success_reproducer target_failure_not_reproduced invalid_candidate : State
  different_failure incomplete_execution environment_error : State

unfoldable pub rejection : Statistics → State
rejection s =
    if ltb 0 s.counts.environment
    then environment_error
    else if ltb 0 s.counts.timeout || ltb 0 s.counts.incomplete
    then incomplete_execution
    else if ltb 0 s.counts.different
    then different_failure
    else target_failure_not_reproduced
