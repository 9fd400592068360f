-- ===== src/Research/Verified.antt =====
-- `verify` of lab/research.py accepts what `execute_job` stores.
use kernel_bridge_concurrent.Common.{
  ◌||◌, ℕ, ◌*◌, ◌≤◌, ◌≡◌, ◌≢◌, refl, sym, ◌∙◌, subst, inl, inr, Bool, true, false, none, some, List,
  [], ◌∷◌, ◌++◌, leb, length, arith, ==_iff, Option-cases, not,
}
use mathlib.Core.Option.{some-injective}
use mathlib.Core.List.{Memᴰ}
use kernel_bridge_concurrent.Dradd.Workload.{Workload, valid, ids}
use kernel_bridge_concurrent.Dradd.Workload.Candidates.{Candidate, candidate, project}
use kernel_bridge_concurrent.Dradd.Trials.{
  Statistics, trial_summary, Floats, State, success_reproducer, target_failure_not_reproduced,
  invalid_candidate, different_failure, incomplete_execution, environment_error,
}
use kernel_bridge_concurrent.Dradd.Reduce.{
  Adapter, Policy, Group, Progress, Reduction, Phase, confirmation, reduce, confirm, replay,
  initial, start, statistics_of,
}
use kernel_bridge_concurrent.Dradd.Reduce.Keeps.{IsSound, total_trials}
use kernel_bridge_concurrent.Dradd.Reduce.Results.{
  first, stopped, last, at_once, searched, reduce-Reduced, reduce-KeepsAccounts, KeepsAccounts,
}
use kernel_bridge_concurrent.Dradd.Reduce.Confirmed.{reduce-IsSound, searched-IsBacked}
use kernel_bridge_concurrent.Research.Counted.{IsCounted, reduce-AllCounted}
use kernel_bridge_concurrent.Research.{
  is_invalid, is_confirmation, verify_group, verify_groups, executions_of, last_group,
  same_statistics, verify_budget, verify_last, verify_projection, execute_job, holdout_from,
  JobResult, verify_result,
}

none-ne {ℓ} : {A : Type ℓ} {x : A} → none ≢ some x
none-ne e = cc

or-true : (b : Bool) → (b || true) ≡ true
or-true true = refl
or-true false = refl

is_invalid-ne : (s : State) → s ≢ invalid_candidate → is_invalid s ≡ false
is_invalid-ne success_reproducer h = refl
is_invalid-ne target_failure_not_reproduced h = refl
is_invalid-ne invalid_candidate h = absurd (h refl)
is_invalid-ne different_failure h = refl
is_invalid-ne incomplete_execution h = refl
is_invalid-ne environment_error h = refl

same_statistics_refl : (s : Statistics) → same_statistics s s ≡ true
same_statistics_refl s = ground arith

module _ {A F : Type 0} (same : Candidate A → Candidate A → Bool) (source : Workload A)
    (adapter : Adapter A) (floats : Floats F) (policy : Policy F) where
  last_group-append : (gs : List Group) (g : Group) → last_group same source (gs ++ g ∷ []) ≡ some g
  unfolding last_group
  last_group-append [] g = refl
  last_group-append (x ∷ []) g = refl
  last_group-append (x ∷ y ∷ gs) g = last_group-append (y ∷ gs) g

  -- The groups are sound and counted.
  abbrev AllGood : List Group → Type 0
  AllGood gs =
      (g : Group)
      → Memᴰ g gs
      → IsSound source adapter floats policy g × IsCounted source adapter floats policy g

  good_group :
      (g : Group)
      → IsSound source adapter floats policy g
      → IsCounted source adapter floats policy g
      → verify_group same source adapter.signature g ≡ none
  good_group g (inl (bad, no_trials)) c = rw (bad, (==_iff (length g.trials) 0).1 no_trials) refl
  good_group g (inr (good, ok)) (inl bad) = absurd (good bad)
  good_group g (inr (good, ok)) (inr counted) =
      rw
        (
          is_invalid-ne g.state good,
          ok,
          counted,
          same_statistics_refl (trial_summary g.trials adapter.signature),
        )
        refl

  good_groups :
      (gs : List Group) → AllGood gs → verify_groups same source adapter.signature gs ≡ none
  unfolding verify_groups
  good_groups [] all = refl
  good_groups (g ∷ gs) all =
      let (sound, counted) = all g (Memᴰ.head refl) in
      rw (good_group g sound counted) (good_groups gs (λ h m. all h (Memᴰ.tail m)))

  good_executions : (gs : List Group) → AllGood gs → executions_of same source gs ≡ total_trials gs
  unfolding executions_of
  good_executions [] all = refl
  good_executions (g ∷ gs) all =
      let rest = good_executions gs (λ h m. all h (Memᴰ.tail m)) in
      elim (all g (Memᴰ.head refl)).0 [
        | inl (bad, no_trials) ↦ rw bad (omega (arith, rest, no_trials))
        | inr (good, ok) ↦ rw (is_invalid-ne g.state good) (omega (arith, rest))
      ]

  phase-replay :
      (p : Progress) (keep : List ℕ) (phase : Phase) (n : ℕ) (rate : F)
      → (replay source adapter floats policy p keep phase n rate).phase ≡ phase
  unfolding replay
  phase-replay p keep phase n rate = refl

  statistics-replay :
      (p : Progress) (keep : List ℕ) (phase : Phase) (n : ℕ) (rate : F)
      → (replay source adapter floats policy p keep phase n rate).statistics
        ≡ some (
            statistics_of source adapter floats policy
              (replay source adapter floats policy p keep phase n rate))
  unfolding replay
  statistics-replay p keep phase n rate = refl

  -- What is kept is valid, the result is stored with the projection to it, and its last group has
  -- the statistics of the result and is a confirmation if the result is confirmed.
  record IsFinal (out : Reduction A) : Type 0 where
    pub kept_valid : valid source out.progress.current ≡ true
    pub stored : out.reduced ≡ project source out.progress.current
    pub same_signature : out.signature ≡ adapter.signature
    pub same_budget : out.max_executions ≡ policy.max_executions
    pub ending : Group
    pub is_last : last_group same source out.progress.groups ≡ some ending
    pub same_end : ending.statistics ≡ some out.statistics
    pub confirmed_last : (not out.confirmed || is_confirmation ending.phase) ≡ true

  confirm-IsFinal :
      (found : Progress × Bool)
      → valid source found.0.current ≡ true
      → IsFinal (confirm source adapter floats policy found)
  confirm-IsFinal (p, flag) ok =
      let group = last source adapter floats policy p in
      record {
        kept_valid = ok;
        stored = refl;
        same_signature = refl;
        same_budget = refl;
        ending = group;
        is_last = last_group-append p.groups group;
        same_end = statistics-replay p p.current confirmation policy.trials policy.threshold;
        confirmed_last =
            rw (phase-replay p p.current confirmation policy.trials policy.threshold)
              (or-true (not group.is_accepted));
      }

  stopped-IsFinal :
      valid source (ids source) ≡ true → IsFinal (stopped source adapter floats policy)
  unfolding last_group
  stopped-IsFinal ok = record {
    kept_valid = ok;
    stored = refl;
    same_signature = refl;
    same_budget = refl;
    ending = first source adapter floats policy;
    is_last = refl;
    same_end =
        statistics-replay (start source adapter floats policy) (ids source) initial policy.trials
          policy.threshold;
    confirmed_last = refl;
  }

  reduce-IsFinal :
      (out : Reduction A)
      → valid source (ids source) ≡ true
      → reduce source adapter floats policy ≡ some out
      → IsFinal out
  reduce-IsFinal out ok e = elim (reduce-Reduced source adapter floats policy out e) [
    | at_once no_group stop ↦ subst IsFinal stop (stopped-IsFinal ok)
    | searched found yes_group more stop ↦ subst IsFinal stop (
        confirm-IsFinal found
          (searched-IsBacked source adapter floats policy found ok yes_group more).kept_valid)
  ]

  budget-fits :
      (out : Reduction A)
      → KeepsAccounts source adapter floats policy out.progress
      → AllGood out.progress.groups
      → IsFinal out
      → verify_budget same source out ≡ none
  budget-fits out k all f =
      let total = good_executions out.progress.groups all in
      let equal = (==_iff _ _).1 (total ∙ sym k.counted) in
      let within : leb (executions_of same source out.progress.groups) out.max_executions ≡ true =
        ground (arith, total, k.counted, k.within_budget, f.same_budget) in
      rw (equal, within) refl

  last-fits :
      (out : Reduction A)
      → IsFinal out
      → verify_last same source out (last_group same source out.progress.groups) ≡ none
  last-fits out f =
      rw (f.is_last, f.same_end, same_statistics_refl out.statistics, f.confirmed_last) refl

  projection-fits :
      (out : Reduction A)
      → ((c : Candidate A) → same c c ≡ true)
      → IsFinal out
      → verify_projection same source out.reduced (candidate source out.reduced.original_ids) ≡ none
  unfolding candidate project
  projection-fits out reflexive f =
      rw (f.stored, f.kept_valid, reflexive (project source out.progress.current)) refl

  job_inv :
      (job : JobResult A) (n : ℕ)
      → execute_job source adapter floats policy n ≡ some job
      → (reduce source adapter floats policy ≡ some job.reduction)
        × (job.holdout_statistics ≡ trial_summary job.holdout adapter.signature)
  unfolding execute_job
  job_inv job n e = elim (Option-cases (reduce source adapter floats policy)) [
    | inl nothing ↦ absurd (none-ne (rw nothing at e))
    | inr (out, more) ↦ elim (Option-cases (holdout_from adapter out.reduced policy.seed 0 n)) [
      | inl nothing ↦ absurd (none-ne (rw (more, nothing) at e))
      | inr (holdout, all) ↦
          subst
            (λ (j : JobResult A).
              (reduce source adapter floats policy ≡ some j.reduction)
              × (j.holdout_statistics ≡ trial_summary j.holdout adapter.signature))
            (some-injective _ _ (rw (more, all) at e)) (more, refl)
    ]
  ]

  -- Of a workload that is itself valid, where two groups of trials fit the budget and the equality
  -- of workloads is reflexive, `verify` raises nothing on what `execute_job` stores.
  pub execute_job-verified :
      (job : JobResult A) (holdout_trials : ℕ)
      → ((c : Candidate A) → same c c ≡ true)
      → valid source (ids source) ≡ true
      → 2 * policy.trials ≤ policy.max_executions
      → execute_job source adapter floats policy holdout_trials ≡ some job
      → verify_result same source job ≡ none
  unfolding verify_result
  execute_job-verified job holdout_trials reflexive ok reserve e =
      let (more, counted) = job_inv job holdout_trials e in
      let out = job.reduction in
      let f = reduce-IsFinal out ok more in
      let all : AllGood out.progress.groups = λ g m. (
        reduce-IsSound source adapter floats policy out ok more g m,
        reduce-AllCounted source adapter floats policy out more g m,
      ) in
      rw
        (
          projection-fits out reflexive f,
          f.same_signature,
          good_groups out.progress.groups all,
          budget-fits out (reduce-KeepsAccounts source adapter floats policy out reserve more) all
              f,
          last-fits out f,
          counted,
          same_statistics_refl (trial_summary job.holdout adapter.signature),
        )
        refl
