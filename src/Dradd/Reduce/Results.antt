-- ===== src/Dradd/Reduce/Results.antt =====
-- What `reduce` promises of its result.
use kernel_bridge_concurrent.Dradd.Workload.Candidates.{project}
use kernel_bridge_concurrent.Dradd.Reduce.Keeps.{
  length-run_trials, attempted-IsBounded, total_trials-append, search-keeps, total_trials,
  IsBounded,
}
use kernel_bridge_concurrent.Common.{some-ne, subst, length, ℕ, ◌≤◌, List, ◌*◌, refl}
use mathlib.Core.Option.{some-injective}
use kernel_bridge_concurrent.Common.{
  if-true, ◌∙◌, if-false, Option, sym, suc, ◌≡◌, ◌≢◌, inl, inr, Bool, true, false, none, some,
  arith, Bool-cases,
}
use kernel_bridge_concurrent.Dradd.Workload.{Workload, ids}
use kernel_bridge_concurrent.Dradd.Trials.{Floats}
use kernel_bridge_concurrent.Dradd.Reduce.{
  project, Phase, mapped, Adapter, Policy, Group, Progress, Reduction, initial, confirmation,
  replay, recorded, start, concluded, confirm, search, reduce,
}
use kernel_bridge_concurrent.Dradd.Reduce.Ends.{search-total}

none-ne {ℓ} : {A : Type ℓ} {x : A} → none ≢ some x
none-ne e = cc

module _ {A F : Type 0} (source : Workload A) (adapter : Adapter A) (floats : Floats F)
    (policy : Policy F) where
  -- The group of the trials that `reduce` runs before its search, and the progress after it.
  abbrev pub first : Group
  first =
      replay source adapter floats policy (start source adapter floats policy) (ids source) initial
        policy.trials policy.threshold

  abbrev pub begun : Progress
  begun =
      recorded source adapter floats policy (start source adapter floats policy) first policy.trials

  abbrev pub last : Progress → Group
  last p =
      replay source adapter floats policy p p.current confirmation policy.trials policy.threshold

  abbrev pub stopped : Reduction A
  stopped = concluded source adapter floats policy begun false false first

  -- The result is that of an initial group that was not accepted, or the confirmation of the end of
  -- a search.
  pub data Reduced (out : Reduction A) : Type 0 where
    at_once : first.is_accepted ≡ false → stopped ≡ out → Reduced out
    searched :
        (found : Progress × Bool)
        → first.is_accepted ≡ true
        → search source adapter floats policy (suc (suc policy.max_candidates)) begun ≡ some found
        → confirm source adapter floats policy found ≡ out
        → Reduced out

  mapped_inv :
      (o : Option (Progress × Bool)) (out : Reduction A)
      → mapped source adapter floats policy o ≡ some out
      → (found : Progress × Bool) × (o ≡ some found)
        × (confirm source adapter floats policy found ≡ out)
  mapped_inv none out e = absurd (none-ne e)
  mapped_inv (some found) out e = (found, refl, some-injective _ _ e)

  pub reduce-Reduced :
      (out : Reduction A) → reduce source adapter floats policy ≡ some out → Reduced out
  unfolding reduce
  reduce-Reduced out e = elim (Bool-cases first.is_accepted) [
    | inr no_group ↦ at_once no_group (some-injective _ _ (sym (if-false _ no_group) ∙ e))
    | inl yes_group ↦
        let (found, more, same) = mapped_inv _ out (sym (if-true _ yes_group) ∙ e) in
        searched found yes_group more same
  ]

  mapped-none :
      (o : Option (Progress × Bool)) → mapped source adapter floats policy o ≡ none → o ≡ none
  mapped-none none e = refl
  mapped-none (some found) e = absurd (some-ne e)

  -- The fuel of the search is enough.
  pub reduce-total : reduce source adapter floats policy ≢ none
  unfolding reduce
  reduce-total e = elim (Bool-cases first.is_accepted) [
    | inr no_group ↦ some-ne (sym (if-false _ no_group) ∙ e)
    | inl yes_group ↦
        search-total source adapter floats policy (suc (suc policy.max_candidates)) begun
          (omega arith) (omega arith) (mapped-none _ (sym (if-true _ yes_group) ∙ e))
  ]

  length-replay :
      (p : Progress) (keep : List ℕ) (phase : Phase) (n : ℕ) (rate : F)
      → length (replay source adapter floats policy p keep phase n rate).trials ≡ n
  unfolding replay
  length-replay p keep phase n rate =
      length-run_trials source adapter floats policy (project source keep) p.executions n

  -- The accounts of a result.
  pub record KeepsAccounts (p : Progress) : Type 0 where
    pub within_budget : p.executions ≤ policy.max_executions
    pub counted : p.executions ≡ total_trials p.groups
    pub attempts_fit : p.attempts ≤ policy.max_candidates

  begun-IsBounded :
      2 * policy.trials ≤ policy.max_executions → IsBounded source adapter floats policy begun
  begun-IsBounded reserve = record {
    fits = omega arith;
    counted = omega (
      arith,
      length-replay (start source adapter floats policy) (ids source) initial policy.trials
          policy.threshold,
    );
    attempts_fit = omega arith;
  }

  confirm-KeepsAccounts :
      (found : Progress × Bool)
      → IsBounded source adapter floats policy found.0
      → KeepsAccounts (confirm source adapter floats policy found).progress
  confirm-KeepsAccounts (p, flag) b = record {
    within_budget = b.fits;
    counted = omega (
      arith,
      b.counted,
      total_trials-append p.groups (last p),
      length-replay p p.current confirmation policy.trials policy.threshold,
    );
    attempts_fit = b.attempts_fit;
  }

  searched-IsBounded :
      (found : Progress × Bool)
      → 2 * policy.trials ≤ policy.max_executions
      → search source adapter floats policy (suc (suc policy.max_candidates)) begun ≡ some found
      → IsBounded source adapter floats policy found.0
  searched-IsBounded found reserve e =
      search-keeps source adapter floats policy (IsBounded source adapter floats policy)
        (λ p keep r a b. attempted-IsBounded source adapter floats policy p keep a b)
        (λ p g b. record { fits = b.fits; counted = b.counted; attempts_fit = b.attempts_fit })
        (suc (suc policy.max_candidates)) begun (begun-IsBounded reserve) e

  -- Where two groups of trials fit the budget, which the final group needs to be reserved, the
  -- result of `reduce` keeps to its budgets: the executions that it reports are those of all of its
  -- groups and at most `max_executions`, and it evaluates at most `max_candidates` candidates.
  pub reduce-KeepsAccounts :
      (out : Reduction A)
      → 2 * policy.trials ≤ policy.max_executions
      → reduce source adapter floats policy ≡ some out
      → KeepsAccounts out.progress
  reduce-KeepsAccounts out reserve e = elim (reduce-Reduced out e) [
    | at_once no_group same ↦
        let b = begun-IsBounded reserve in
        subst (λ (o : Reduction A). KeepsAccounts o.progress) same
          (record { within_budget = omega arith; counted = b.counted; attempts_fit = omega arith })
    | searched found yes_group more same ↦
        subst (λ (o : Reduction A). KeepsAccounts o.progress) same
          (confirm-KeepsAccounts found (searched-IsBounded found reserve more))
  ]
