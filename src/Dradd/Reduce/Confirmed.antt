-- ===== src/Dradd/Reduce/Confirmed.antt =====
-- What a result of `reduce` shows of the reduced workload.
use kernel_bridge_concurrent.Dradd.Workload.Candidates.{project}
use kernel_bridge_concurrent.Dradd.Reduce.Decided.{Decided, accepted-Holds}
use kernel_bridge_concurrent.Common.{
  ◌+◌, ℕ, suc, ◌<◌, ◌≡◌, refl, sym, subst, ◌≢◌, Bool, true, false, some,
}
use mathlib.Core.List.{Memᴰ}
use mathlib.Core.List.Memᴰ
use kernel_bridge_concurrent.Dradd.Workload.{Workload, valid, ids}
use kernel_bridge_concurrent.Dradd.Trials.{Floats}
use kernel_bridge_concurrent.Dradd.Reduce.{
  used_bound, project, Adapter, Policy, Group, Progress, Reduction, confirmation, replay, confirm,
  search, reduce,
}
use kernel_bridge_concurrent.Dradd.Reduce.Keeps.{
  append-IsSound, replay-IsSound, IsSound, IsBacked, attempted-IsBacked, search-keeps,
}
use kernel_bridge_concurrent.Dradd.Reduce.Results.{
  first, begun, last, at_once, searched, reduce-Reduced,
}

true-ne : false ≢ true
true-ne e = cc

module _ {A F : Type 0} (source : Workload A) (adapter : Adapter A) (floats : Floats F)
    (policy : Policy F) where
  -- A final group of the kept operations: its trials are the last `trials` of the executions, each
  -- was decided, at least one shows the signature, and those that do are frequent enough.
  pub record IsReproduced (p : Progress) : Type 0 where
    pub group : Group
    pub recorded_last : Memᴰ group p.groups
    pub of_current : group.kept ≡ p.current
    pub in_phase : group.phase ≡ confirmation
    pub before : ℕ
    pub all_executed : before + policy.trials ≡ p.executions
    pub hits : ℕ
    pub decided :
        Decided adapter policy.seed
          (project source p.current)
          before
          group.trials
          policy.trials
          hits
    pub some_hit : 0 < hits
    pub frequent : floats.at_least (floats.ratio hits policy.trials) policy.threshold ≡ true

  kept-last : (p : Progress) → (last source adapter floats policy p).kept ≡ p.current
  unfolding replay
  kept-last p = refl

  phase-last : (p : Progress) → (last source adapter floats policy p).phase ≡ confirmation
  unfolding replay
  phase-last p = refl

  kept-first : (first source adapter floats policy).kept ≡ ids source
  unfolding replay
  kept-first = refl

  begun-IsBacked :
      valid source (ids source) ≡ true
      → (first source adapter floats policy).is_accepted ≡ true
      → IsBacked source adapter floats policy (begun source adapter floats policy)
  begun-IsBacked ok yes_group = record {
    kept_valid = ok;
    sound = λ g m.
        subst (IsSound source adapter floats policy) (sym (Memᴰ.eq_of_singleton m))
          (replay-IsSound source adapter floats policy _ _ _ _ _ ok);
    backer = first source adapter floats policy;
    recorded = Memᴰ.head refl;
    of_current = kept-first;
    was_accepted = yes_group;
  }

  pub searched-IsBacked :
      (found : Progress × Bool)
      → valid source (ids source) ≡ true
      → (first source adapter floats policy).is_accepted ≡ true
      → search source adapter floats policy
          (suc (suc policy.max_candidates))
          (begun source adapter floats policy)
        ≡ some found
      → IsBacked source adapter floats policy found.0
  searched-IsBacked found ok yes_group e =
      search-keeps source adapter floats policy (IsBacked source adapter floats policy)
        (λ p keep r a b. attempted-IsBacked source adapter floats policy p keep a b)
        (λ p g b. record {
          kept_valid = b.kept_valid;
          sound = b.sound;
          backer = b.backer;
          recorded = b.recorded;
          of_current = b.of_current;
          was_accepted = b.was_accepted;
        })
        (suc (suc policy.max_candidates)) (begun source adapter floats policy)
        (begun-IsBacked ok yes_group) e

  first-IsSound :
      valid source (ids source) ≡ true
      → (g : Group) → Memᴰ g (begun source adapter floats policy).groups
      → IsSound source adapter floats policy g
  first-IsSound ok g m =
      subst (IsSound source adapter floats policy) (sym (Memᴰ.eq_of_singleton m))
        (replay-IsSound source adapter floats policy _ _ _ _ _ ok)

  confirm-IsSound :
      (found : Progress × Bool)
      → IsBacked source adapter floats policy found.0
      → (g : Group) → Memᴰ g (confirm source adapter floats policy found).progress.groups
      → IsSound source adapter floats policy g
  confirm-IsSound (p, flag) b g m =
      append-IsSound source adapter floats policy p.groups (last source adapter floats policy p)
        b.sound (replay-IsSound source adapter floats policy _ _ _ _ _ b.kept_valid) g m

  confirmed-IsReproduced :
      (found : Progress × Bool)
      → (last source adapter floats policy found.0).is_accepted ≡ true
      → IsReproduced (confirm source adapter floats policy found).progress
  unfolding replay
  confirmed-IsReproduced (p, flag) h =
      let a =
        accepted-Holds source adapter floats policy (project source p.current) p.executions
          policy.trials policy.threshold (used_bound source adapter floats policy) h in
      record {
        group = last source adapter floats policy p;
        recorded_last = Memᴰ.append_right p.groups (Memᴰ.head refl);
        of_current = kept-last p;
        in_phase = phase-last p;
        before = p.executions;
        all_executed = refl;
        hits = a.hits;
        decided = a.decided;
        some_hit = a.some_hit;
        frequent = a.frequent;
      }

  -- A result that `reduce` reports as confirmed, of a workload that is itself valid, is backed by
  -- what was run: the reduced operations are a valid selection, and there is a final group whose
  -- trials are the last `trials` executions of them, one for each seed in turn, in which each passed
  -- or failed with a signature, at least one failed with the signature of the adapter, and the share
  -- of those in all the trials of the group reaches the threshold.
  pub reduce-IsReproduced :
      (out : Reduction A)
      → valid source (ids source) ≡ true
      → reduce source adapter floats policy ≡ some out
      → out.confirmed ≡ true
      → (valid source out.progress.current ≡ true) × IsReproduced out.progress
  reduce-IsReproduced out ok e yes_confirmed =
      elim (reduce-Reduced source adapter floats policy out e) [
        | at_once no_group same ↦
            absurd
              (true-ne (subst (λ (o : Reduction A). o.confirmed ≡ true) (sym same) yes_confirmed))
        | searched found yes_group more same ↦
            subst
              (λ (o : Reduction A).
                (valid source o.progress.current ≡ true) × IsReproduced o.progress)
              same
              (
                (searched-IsBacked found ok yes_group more).kept_valid,
                confirmed-IsReproduced found
                    (subst (λ (o : Reduction A). o.confirmed ≡ true) (sym same) yes_confirmed),
              )
      ]

  -- Every group of a result of `reduce`, of a workload that is itself valid, either is that of an
  -- invalid candidate and ran nothing, or has another state and is of a valid selection of the
  -- operations.
  pub reduce-IsSound :
      (out : Reduction A)
      → valid source (ids source) ≡ true
      → reduce source adapter floats policy ≡ some out
      → (g : Group) → Memᴰ g out.progress.groups
      → IsSound source adapter floats policy g
  reduce-IsSound out ok e g m = elim (reduce-Reduced source adapter floats policy out e) [
    | at_once no_group same ↦
        first-IsSound ok g (subst (λ (o : Reduction A). Memᴰ g o.progress.groups) (sym same) m)
    | searched found yes_group more same ↦
        confirm-IsSound found (searched-IsBacked found ok yes_group more) g
          (subst (λ (o : Reduction A). Memᴰ g o.progress.groups) (sym same) m)
  ]
