-- ===== src/Dradd/Reduce/Cases.antt =====
-- The ways in which one candidate of `reduce` is dealt with.
use kernel_bridge_concurrent.Common.{
  ℕ, ◌+◌, ◌-◌, ◌≤◌, ◌<◌, max, ◌≡◌, inl, inr, true, List, [], ◌∷◌, ◌++◌, arith, ltb, leb, Bool-cases,
}
use kernel_bridge_concurrent.Dradd.Workload.{Workload, valid}
use kernel_bridge_concurrent.Dradd.Trials.{Floats}
use kernel_bridge_concurrent.Dradd.Reduce.{
  Adapter, Policy, Group, Progress, Ending, changed, unchanged, exhausted, candidate,
  candidate_trials, decision_threshold, replay, rejected_group, recorded, shortened, is_runnable,
  attempt,
}

module _ {A F : Type 0} (source : Workload A) (adapter : Adapter A) (floats : Floats F)
    (policy : Policy F) where
  abbrev pub tried : Progress → Progress
  tried p = record p { attempts = p.attempts + 1 }

  abbrev pub refused : Progress → List ℕ → Progress
  refused p keep = record (tried p) {
    invalid = p.invalid + 1;
    groups = p.groups ++ rejected_group source adapter floats policy keep ∷ [];
  }

  abbrev pub group_of : Progress → List ℕ → Group
  group_of p keep =
      replay source adapter floats policy (tried p) keep candidate
        (candidate_trials source adapter floats policy)
        (decision_threshold source adapter floats policy)

  abbrev pub ran : Progress → List ℕ → Progress
  ran p keep =
      recorded source adapter floats policy (tried p) (group_of p keep)
        (candidate_trials source adapter floats policy)

  abbrev pub taken : Progress → List ℕ → Progress
  taken p keep = record (ran p keep) { current = keep; granularity = max 2 (p.granularity - 1) }

  -- The result `r` of one attempt to keep `keep`.
  pub data Attempted (p : Progress) (keep : List ℕ) (r : Progress × Ending) : Type 0 where
    over : policy.max_candidates ≤ p.attempts → r ≡ (p, exhausted) → Attempted p keep r
    not_run :
        p.attempts < policy.max_candidates → r ≡ (refused p keep, unchanged) → Attempted p keep r
    no_room : p.attempts < policy.max_candidates → r ≡ (tried p, exhausted) → Attempted p keep r
    accepted :
        p.attempts < policy.max_candidates
        → valid source keep ≡ true
        → p.executions + candidate_trials source adapter floats policy + policy.trials
          ≤ policy.max_executions
        → (group_of p keep).is_accepted ≡ true
        → r ≡ (taken p keep, changed)
        → Attempted p keep r
    rejected :
        p.attempts < policy.max_candidates
        → valid source keep ≡ true
        → p.executions + candidate_trials source adapter floats policy + policy.trials
          ≤ policy.max_executions
        → r ≡ (ran p keep, unchanged)
        → Attempted p keep r

  pub attempt-Attempted :
      (p : Progress) (offset width : ℕ)
      → Attempted p
          (shortened source adapter floats policy p.current offset width)
          (attempt source adapter floats policy p offset width)
  unfolding attempt
  attempt-Attempted p offset width =
      let keep = shortened source adapter floats policy p.current offset width in
      elim (Bool-cases (leb policy.max_candidates p.attempts)) [
        | inl full ↦ over (ground arith) (rw full)
        | inr room ↦ elim (Bool-cases (is_runnable source adapter floats policy keep)) [
          | inr bad ↦ not_run (ground arith) (rw (room, bad))
          | inl good ↦
              elim (Bool-cases (
                ltb policy.max_executions
                  (p.executions + candidate_trials source adapter floats policy + policy.trials))) [
                    | inl above ↦ no_room (ground arith) (rw (room, good, above))
                    | inr within ↦ elim (Bool-cases (group_of p keep).is_accepted) [
                      | inl yes_group ↦
                          accepted (ground arith) (ground arith) (ground arith) yes_group
                            (rw (room, good, within, yes_group))
                      | inr no_group ↦
                          rejected (ground arith) (ground arith) (ground arith)
                            (rw (room, good, within, no_group))
                    ]
                  ]
        ]
      ]
