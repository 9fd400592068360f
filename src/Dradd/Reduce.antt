-- ===== src/Dradd/Reduce.antt =====
-- The function `reduce` of lab/dradd.py.
pub mod Cases
pub mod Keeps
pub mod Ends
pub mod Results
pub mod Decided
pub mod Confirmed
use kernel_bridge_concurrent.Common.{
  ℕ, zero, suc, ◌+◌, ◌-◌, ◌*◌, ◌/◌, min, max, Bool, true, false, not, ◌&&◌, ◌||◌, Option, none,
  some, List, [], ◌∷◌, ◌++◌, ltb, leb, if◌then◌else◌, length, take, drop,
}
use kernel_bridge_concurrent.Dradd.Workload.{Workload, valid, prune, ids}
use kernel_bridge_concurrent.Dradd.Workload.Candidates.{Candidate, project}
use kernel_bridge_concurrent.Dradd.Trials.{
  Trial, environment_failed, Statistics, trial_summary, Floats, accepted, State, success_reproducer,
  invalid_candidate, rejection,
}

pub data Strategy : Type 0 where
  single chunk legacy dependency reproduction dradd : Strategy

pub data Phase : Type 0 where
  initial candidate confirmation : Phase

-- What a target offers. `execute` is given the seed of the trial, which no two trials share; none
-- stands for an exception or a result that is no dictionary.
pub record Adapter (A : Type 0) : Type 0 where
  pub signature : List ℕ
  pub accepts : Candidate A → Bool
  pub execute : Candidate A → ℕ → Option Trial

-- The arguments of `reduce`, after its checks.
pub record Policy (F : Type 0) : Type 0 where
  pub strategy : Strategy
  pub trials : ℕ
  pub max_executions : ℕ
  pub max_candidates : ℕ
  pub threshold : F
  pub one : F
  pub lower_bound : Option F
  pub seed : ℕ

-- The group of an invalid candidate has no statistics.
pub record Group : Type 0 where
  pub phase : Phase
  pub kept : List ℕ
  pub trials : List Trial
  pub statistics : Option Statistics
  pub is_accepted : Bool
  pub state : State

-- The variables of the search.
pub record Progress : Type 0 where
  pub current : List ℕ
  pub granularity : ℕ
  pub groups : List Group
  pub attempts : ℕ
  pub invalid : ℕ
  pub executions : ℕ

-- How a sweep over the offsets ends.
pub data Ending : Type 0 where
  changed unchanged exhausted : Ending

abbrev pub is_guided : Strategy → Bool
is_guided dependency = true
is_guided dradd = true
is_guided _ = false

abbrev pub is_repeated : Strategy → Bool
is_repeated reproduction = true
is_repeated dradd = true
is_repeated _ = false

abbrev pub is_single : Strategy → Bool
is_single single = true
is_single _ = false

abbrev pub is_dependency : Strategy → Bool
is_dependency dependency = true
is_dependency _ = false

-- range(0, size, width), from `offset` on, for a width above 0.
unfoldable pub offsets_from : ℕ → ℕ → ℕ → ℕ → List ℕ
offsets_from zero offset size width = []
offsets_from (suc fuel) offset size width =
    let rest = offset ∷ offsets_from fuel (offset + width) size width in
    if ltb offset size then rest else []

abbrev pub or_environment : Option Trial → Trial
or_environment none = record { status = environment_failed; signature = none }
or_environment (some t) = t

-- The result, whose `reduced` is the projection to what is left: `replay` has taken it before, so
-- `candidate` raises nothing here.
pub record Reduction (A : Type 0) : Type 0 where
  pub signature : List ℕ
  pub max_executions : ℕ
  pub reduced : Candidate A
  pub statistics : Statistics
  pub progress : Progress
  pub is_exhausted : Bool
  pub confirmed : Bool
  pub outcome : State

module _ {A F : Type 0} (source : Workload A) (adapter : Adapter A) (floats : Floats F)
    (policy : Policy F) where
  abbrev pub candidate_trials : ℕ
  candidate_trials = if is_dependency policy.strategy then 1 else policy.trials

  abbrev pub decision_threshold : F
  decision_threshold = if is_repeated policy.strategy then policy.threshold else policy.one

  abbrev pub used_bound : Option F
  used_bound = if is_repeated policy.strategy then policy.lower_bound else none

  -- `for _ in range(n)`: the trials, whose seeds go on from `executions`.
  unfoldable pub run_trials : Candidate A → ℕ → ℕ → List Trial
  run_trials c executions zero = []
  run_trials c executions (suc n) =
      or_environment (adapter.execute c (policy.seed + executions))
      ∷ run_trials c (suc executions) n

  abbrev pub state_of : Bool → Statistics → State
  state_of true stats = success_reproducer
  state_of false stats = rejection stats

  -- One group of trials of what is kept. The callers have tested `source.valid(keep)`.
  unfoldable pub replay : Progress → List ℕ → Phase → ℕ → F → Group
  unfolding run_trials
  replay p keep phase n required_rate =
      let raw = run_trials (project source keep) p.executions n in
      let stats = trial_summary raw adapter.signature in
      let ok = accepted floats stats n required_rate used_bound in
      record {
        phase = phase;
        kept = keep;
        trials = raw;
        statistics = some stats;
        is_accepted = ok;
        state = state_of ok stats;
      }

  abbrev pub rejected_group : List ℕ → Group
  rejected_group keep = record {
    phase = candidate;
    kept = keep;
    trials = [];
    statistics = none;
    is_accepted = false;
    state = invalid_candidate;
  }

  -- The progress after a group of `n` trials.
  abbrev pub recorded : Progress → Group → ℕ → Progress
  recorded p g n = record p { groups = p.groups ++ g ∷ []; executions = p.executions + n }

  abbrev pub shortened : List ℕ → ℕ → ℕ → List ℕ
  shortened current offset width =
      let keep = take offset current ++ drop (offset + width) current in
      if is_guided policy.strategy then prune source keep else keep

  -- The candidate is neither invalid nor refused by the adapter.
  abbrev pub is_runnable : List ℕ → Bool
  is_runnable keep = valid source keep && adapter.accepts (project source keep)

  -- One round of the loop over the offsets; `unchanged` goes on with the next offset.
  unfoldable pub attempt : Progress → ℕ → ℕ → Progress × Ending
  unfolding replay
  attempt p offset width =
      let keep = shortened p.current offset width in
      let tried = record p { attempts = p.attempts + 1 } in
      let refused = record tried {
        invalid = tried.invalid + 1;
        groups = tried.groups ++ rejected_group keep ∷ [];
      } in
      let group = replay tried keep candidate candidate_trials decision_threshold in
      let ran = recorded tried group candidate_trials in
      let taken = record ran { current = keep; granularity = max 2 (ran.granularity - 1) } in
      if leb policy.max_candidates p.attempts
      then (p, exhausted)
      else if not (is_runnable keep)
      then (refused, unchanged)
      else if ltb policy.max_executions (p.executions + candidate_trials + policy.trials)
      then (tried, exhausted)
      else if group.is_accepted
      then (taken, changed)
      else (ran, unchanged)

  abbrev pub go_on : Progress × Ending → (Progress → Progress × Ending) → Progress × Ending
  go_on (p, unchanged) rest = rest p
  go_on (p, changed) rest = (p, changed)
  go_on (p, exhausted) rest = (p, exhausted)

  unfoldable pub sweep : ℕ → List ℕ → Progress → Progress × Ending
  sweep width [] p = (p, unchanged)
  sweep width (offset ∷ offsets) p = go_on (attempt p offset width) (λ q. sweep width offsets q)

  abbrev pub width_of : Progress → ℕ
  width_of p =
      let size = length p.current in
      if is_single policy.strategy then 1 else (size + p.granularity - 1) / p.granularity

  -- `none` is the end of the fuel. The flag is `exhausted`.
  abbrev pub after_sweep :
      (Progress → Option (Progress × Bool)) → ℕ → Progress × Ending → Option (Progress × Bool)
  after_sweep again size (p, changed) = again p
  after_sweep again size (p, exhausted) = some (p, true)
  after_sweep again size (p, unchanged) =
      let finer = again (record p { granularity = min size (p.granularity * 2) }) in
      if is_single policy.strategy || leb size p.granularity then some (p, false) else finer

  unfoldable pub search : ℕ → Progress → Option (Progress × Bool)
  unfolding sweep offsets_from
  search zero p = none
  search (suc fuel) p =
      let size = length p.current in
      let swept = sweep (width_of p) (offsets_from size 0 size (width_of p)) p in
      let deeper = after_sweep (search fuel) size swept in
      if ltb 1 size then deeper else some (p, false)

  abbrev pub start : Progress
  start = record {
    current = ids source;
    granularity = 2;
    groups = [];
    attempts = 0;
    invalid = 0;
    executions = 0;
  }

  -- The statistics that `replay` returns with a group.
  abbrev pub statistics_of : Group → Statistics
  statistics_of group = trial_summary group.trials adapter.signature

  abbrev pub outcome_of : Bool → Statistics → State
  outcome_of confirmed final = if confirmed then success_reproducer else rejection final

  -- The result of a search that ends with `p`, where `final` is the last group of trials.
  abbrev pub concluded : Progress → Bool → Bool → Group → Reduction A
  concluded p flag confirmed final = record {
    signature = adapter.signature;
    max_executions = policy.max_executions;
    reduced = project source p.current;
    statistics = statistics_of final;
    progress = p;
    is_exhausted = flag;
    confirmed = confirmed;
    outcome = outcome_of confirmed (statistics_of final);
  }

  -- The final group, whose trials are reserved.
  abbrev pub confirm : Progress × Bool → Reduction A
  confirm (p, flag) =
      let final = replay p p.current confirmation policy.trials policy.threshold in
      concluded (recorded p final policy.trials) flag final.is_accepted final

  abbrev pub mapped : Option (Progress × Bool) → Option (Reduction A)
  mapped none = none
  mapped (some r) = some (confirm r)

  unfoldable pub reduce : Option (Reduction A)
  reduce =
      let first = replay start (ids source) initial policy.trials policy.threshold in
      let begun = recorded start first policy.trials in
      let found = mapped (search (suc (suc policy.max_candidates)) begun) in
      if first.is_accepted then found else some (concluded begun false false first)
