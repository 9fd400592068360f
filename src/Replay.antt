-- ===== src/Replay.antt =====
-- `reduce_concurrent` of lab/replay.py.
pub mod Loads
pub mod Groups
pub mod Keeps
pub mod Cases
pub mod Ends
pub mod Answers
use kernel_bridge_concurrent.Common.{
  ◌>>=◌, ℕ, zero, suc, ◌+◌, ◌-◌, ◌*◌, ◌/◌, min, max, Bool, true, false, not, ◌&&◌, ◌||◌, Option,
  none, some, List, [], ◌∷◌, ◌++◌, ltb, leb, ◌==◌, if◌then◌else◌, between, length, take, drop,
}
use kernel_bridge_concurrent.Contract.Ops.{Op}
use kernel_bridge_concurrent.Contract.Validate.{Invalid, validate}
use kernel_bridge_concurrent.Concurrency.{Plan, assignments_of, all_below}

pub data Strategy : Type 0 where
  single chunk : Strategy

pub data Phase : Type 0 where
  initial candidate confirmation : Phase

-- The status of a result; `no_order` is a failure whose reason is "no legal FIFO ordering".
pub data Status : Type 0 where
  passed no_order failed_otherwise unclear : Status

-- What is read of a result of the evaluator: its status, the length of its history, and `explored`.
pub record Trial : Type 0 where
  pub status : Status
  pub executed : ℕ
  pub explored : ℕ

-- The fields of a scenario that a deletion changes.
pub record Load : Type 0 where
  pub operations : List Op
  pub worker_ids : List ℕ

pub record Counts : Type 0 where
  pub passes : ℕ
  pub failures : ℕ
  pub inconclusive : ℕ

pub record Group : Type 0 where
  pub phase : Phase
  pub load : Load
  pub counts : Counts
  pub matched : ℕ
  pub trials : List Trial

-- The variables of the search.
pub record Progress : Type 0 where
  pub current : Load
  pub attempts : ℕ
  pub granularity : ℕ
  pub evidence : List Group

abbrev pub count_status : Status → Counts → Counts
count_status passed k = record k { passes = k.passes + 1 }
count_status no_order k = record k { failures = k.failures + 1 }
count_status failed_otherwise k = record k { failures = k.failures + 1 }
count_status unclear k = record k { inconclusive = k.inconclusive + 1 }

abbrev pub counts_of : List Trial → Counts
counts_of [] = record { passes = 0; failures = 0; inconclusive = 0 }
counts_of (t ∷ trials) = count_status t.status (counts_of trials)

abbrev pub is_match : Status → Bool
is_match passed = false
is_match no_order = true
is_match failed_otherwise = false
is_match unclear = false

unfoldable pub matched_of : List Trial → ℕ
matched_of [] = 0
matched_of (t ∷ trials) =
    let rest = matched_of trials in if is_match t.status then rest + 1 else rest

abbrev pub is_single : Strategy → Bool
is_single single = true
is_single chunk = false

-- [xs[i] for i in range(len(xs)) if not start <= i < start + width]
abbrev pub outside {ℓ} : {A : Type ℓ} → ℕ → ℕ → List A → List A
outside start width xs = take start xs ++ drop (start + width) xs

abbrev pub without : Load → ℕ → ℕ → Load
without l start width = record {
  operations = outside start width l.operations;
  worker_ids = outside start width l.worker_ids;
}

abbrev pub is_nil : List Op → Bool
is_nil [] = true
is_nil (op ∷ ops) = false

-- What has come to an end: by an exception of the evaluator, or since the fuel of the model is spent.
pub data Ran (A : Type 0) : Type 0 where
  ran : A → Ran A
  raised out_of_fuel : Ran A

-- The evaluator, whose runs are numbered in the order in which they are made: threads may take
-- turns differently each time. `none` is an exception, such as that of `evaluate_concurrent` for a
-- jitter_us out of its range, which nothing here catches.
module _ (evaluator : ℕ → Load → Option Trial) (strategy : Strategy) (trials budget : ℕ) where
  unfoldable pub run_trials : Load → ℕ → ℕ → Option (List Trial)
  run_trials l first zero = some []
  run_trials l first (suc n) = do
    t ← evaluator first l
    rest ← run_trials l (suc first) n
    some (t ∷ rest)

  unfoldable pub replay : List Group → Load → Phase → Option Group
  unfolding run_trials matched_of
  replay evidence l phase = do
    results ← run_trials l (length evidence * trials) trials
    some (record {
      phase = phase;
      load = l;
      counts = counts_of results;
      matched = matched_of results;
      trials = results;
    })

  -- `matched == trials`
  abbrev pub is_reproduced : Group → Bool
  is_reproduced g = g.matched == trials

  abbrev pub with_group : Progress → Group → Progress
  with_group p g = record p { evidence = p.evidence ++ g ∷ [] }

  abbrev pub tried_of : Progress → Group → Progress
  tried_of p group = with_group (record p { attempts = p.attempts + 1 }) group

  abbrev pub taken_of : Progress → Load → Group → Progress
  taken_of p left group = record (tried_of p group) {
    current = left;
    granularity = max 2 (p.granularity - 1);
  }

  -- What follows the replay of a candidate.
  abbrev pub after_group :
      (Progress → Option (Progress × Bool))
      → Progress
      → Load
      → Option Group
      → Option (Progress × Bool)
  after_group again p left none = none
  after_group again p left (some group) =
      let others = again (tried_of p group) in
      if is_reproduced group
      then some (taken_of p left group, true)
      else if leb budget (p.attempts + 1)
      then some (tried_of p group, false)
      else others

  -- The loop over the starts, of which `fuel` are left; the flag is `changed`.
  unfoldable pub scan : ℕ → ℕ → ℕ → Progress → Option (Progress × Bool)
  unfolding replay
  scan zero start width p = some (p, false)
  scan (suc fuel) start width p =
      let left = without p.current start width in
      let skipped = scan fuel (start + width) width p in
      let judged =
        after_group (λ q. scan fuel (start + width) width q) p left
          (replay p.evidence left candidate) in
      if not (ltb start (length p.current.operations))
      then some (p, false)
      else if is_nil left.operations
      then skipped
      else judged

  abbrev pub width_of : Progress → ℕ
  width_of p =
      if is_single strategy
      then 1
      else (length p.current.operations + p.granularity - 1) / p.granularity

  abbrev pub after_scan : (Progress → Ran Progress) → Option (Progress × Bool) → Ran Progress
  after_scan again none = raised
  after_scan again (some (p, true)) = again p
  after_scan again (some (p, false)) =
      let size = length p.current.operations in
      let finer = again (record p { granularity = min size (p.granularity * 2) }) in
      if is_single strategy || leb size p.granularity then ran p else finer

  -- The outer loop.
  unfoldable pub cut_down : ℕ → Progress → Ran Progress
  unfolding scan
  cut_down zero p = out_of_fuel
  cut_down (suc fuel) p =
      let size = length p.current.operations in
      let deeper = after_scan (cut_down fuel) (scan size 0 (width_of p) p) in
      if ltb 1 size && ltb p.attempts budget then deeper else ran p

pub data Result : Type 0 where
  reproducer_found inconclusive_run reproduction_failed : Result

-- The summary.
pub record Summary : Type 0 where
  pub reduced : Load
  pub outcome : Result
  pub confirmed : Bool
  pub attempts : ℕ
  pub counts : Counts
  pub evidence : List Group
  pub tried : ℕ
  pub candidate_executed : ℕ
  pub total_executed : ℕ
  pub explored : ℕ

-- `total_trials`, `total_operations_executed` and `search_transitions`
abbrev pub total_trials : List Group → ℕ
total_trials [] = 0
total_trials (g ∷ groups) = length g.trials + total_trials groups

abbrev pub executed_in : List Trial → ℕ
executed_in [] = 0
executed_in (t ∷ trials) = t.executed + executed_in trials

abbrev pub explored_in : List Trial → ℕ
explored_in [] = 0
explored_in (t ∷ trials) = t.explored + explored_in trials

abbrev pub total_operations : List Group → ℕ
total_operations [] = 0
total_operations (g ∷ groups) = executed_in g.trials + total_operations groups

abbrev pub transitions : List Group → ℕ
transitions [] = 0
transitions (g ∷ groups) = explored_in g.trials + transitions groups

abbrev pub is_candidate : Phase → Bool
is_candidate initial = false
is_candidate candidate = true
is_candidate confirmation = false

-- `candidate_operations_executed`
abbrev pub candidate_operations : List Group → ℕ
candidate_operations [] = 0
candidate_operations (g ∷ groups) =
    let rest = candidate_operations groups in
    if is_candidate g.phase then executed_in g.trials + rest else rest

abbrev pub outcome_of : Bool → Counts → Result
outcome_of confirmed k =
    if confirmed
    then reproducer_found
    else if not (k.inconclusive == 0)
    then inconclusive_run
    else reproduction_failed

abbrev pub summary_of : Progress → Bool → Group → Summary
summary_of p confirmed final = record {
  reduced = p.current;
  outcome = outcome_of confirmed final.counts;
  confirmed = confirmed;
  attempts = p.attempts;
  counts = final.counts;
  evidence = p.evidence;
  tried = total_trials p.evidence;
  candidate_executed = candidate_operations p.evidence;
  total_executed = total_operations p.evidence;
  explored = transitions p.evidence;
}

-- The ValueErrors.
pub data Refusal : Type 0 where
  invalid_scenario : Invalid → Refusal
  bad_size bad_policy bad_owners bad_search_budget : Refusal

-- What the checks refuse, or what comes of the search.
pub data Answer : Type 0 where
  refused : Refusal → Answer
  answered : Ran Summary → Answer

module _ (evaluator : ℕ → Load → Option Trial) (strategy : Strategy) (trials budget : ℕ) where
  abbrev pub confirmed_by : Progress → Group → Summary
  confirmed_by p final =
      summary_of (with_group evaluator strategy trials budget p final)
        (is_reproduced evaluator strategy trials budget final) final

  abbrev pub confirmed_of : Progress → Option Group → Ran Summary
  confirmed_of p none = raised
  confirmed_of p (some final) = ran (confirmed_by p final)

  abbrev pub confirm : Ran Progress → Ran Summary
  confirm raised = raised
  confirm out_of_fuel = out_of_fuel
  confirm (ran p) =
      confirmed_of p (replay evaluator strategy trials budget p.evidence p.current confirmation)

  abbrev pub begun : Load → Group → Progress
  begun l first = record { current = l; attempts = 0; granularity = 2; evidence = first ∷ [] }

  -- What follows the first replay.
  abbrev pub after_first : Load → Option Group → Ran Summary
  after_first l none = raised
  after_first l (some first) =
      let found =
        confirm (cut_down evaluator strategy trials budget (suc budget) (begun l first)) in
      if is_reproduced evaluator strategy trials budget first
      then found
      else ran (summary_of (begun l first) false first)

  -- The function after its checks.
  unfoldable pub reduce_load : Load → Ran Summary
  unfolding cut_down replay
  reduce_load l = after_first l (replay evaluator strategy trials budget [] l initial)

  abbrev pub owned : Plan → ℕ → ℕ → List ℕ → Answer
  owned plan workers search_budget owners =
      if not (length owners == length plan.scenario.operations) || not (all_below workers owners)
      then refused bad_owners
      else if not (between 1 100000 search_budget)
      then refused bad_search_budget
      else answered
          (reduce_load (record { operations = plan.scenario.operations; worker_ids = owners }))

  abbrev pub checked : Plan → ℕ → ℕ → Option Invalid → Answer
  checked plan workers search_budget (some e) = refused (invalid_scenario e)
  checked plan workers search_budget none =
      let size = length plan.scenario.operations in
      if not (between 2 4 workers) || not (between 1 12 size)
      then refused bad_size
      else if not (between 1 20 trials) || not (between 1 100 budget)
      then refused bad_policy
      else owned plan workers search_budget (assignments_of workers size plan.worker_ids)

  unfoldable pub reduce_concurrent : Plan → ℕ → ℕ → Answer
  reduce_concurrent plan workers search_budget =
      checked plan workers search_budget (validate plan.scenario)
