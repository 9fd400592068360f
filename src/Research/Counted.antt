-- ===== src/Research/Counted.antt =====
-- The statistics that the groups of `reduce` carry are those of their trials.
use kernel_bridge_concurrent.Common.{
  ℕ, ◌≡◌, refl, sym, subst, inl, inr, ◌⊎◌, Bool, some, List, ◌∷◌, [], ◌++◌, suc,
}
use mathlib.Core.List.{Memᴰ}
use mathlib.Core.List.Memᴰ
use kernel_bridge_concurrent.Dradd.Workload.{Workload}
use kernel_bridge_concurrent.Dradd.Trials.{Floats, trial_summary, invalid_candidate}
use kernel_bridge_concurrent.Dradd.Reduce.{
  Adapter, Policy, Group, Progress, Reduction, Ending, Phase, replay, reduce, rejected_group,
  search,
}
use kernel_bridge_concurrent.Dradd.Reduce.Cases.{
  group_of, Attempted, over, not_run, no_room, accepted, rejected,
}
use kernel_bridge_concurrent.Dradd.Reduce.Keeps.{search-keeps}
use kernel_bridge_concurrent.Dradd.Reduce.Results.{begun, last, at_once, searched, reduce-Reduced}

module _ {A F : Type 0} (source : Workload A) (adapter : Adapter A) (floats : Floats F)
    (policy : Policy F) where
  -- A group of an invalid candidate, or one whose statistics are those of its trials.
  abbrev pub IsCounted : Group → Type 0
  IsCounted g =
      (g.state ≡ invalid_candidate)
      ⊎ (g.statistics ≡ some (trial_summary g.trials adapter.signature))

  abbrev AllCounted : List Group → Type 0
  AllCounted gs = (g : Group) → Memᴰ g gs → IsCounted g

  replay-IsCounted :
      (p : Progress) (keep : List ℕ) (phase : Phase) (n : ℕ) (rate : F)
      → IsCounted (replay source adapter floats policy p keep phase n rate)
  unfolding replay
  replay-IsCounted p keep phase n rate = inr refl

  append-AllCounted :
      (gs : List Group) (g : Group) → AllCounted gs → IsCounted g → AllCounted (gs ++ g ∷ [])
  append-AllCounted gs g all ok h m = elim (Memᴰ.append_cases gs m) [
    | inl old ↦ all h old
    | inr new ↦ subst IsCounted (sym (Memᴰ.eq_of_singleton new)) ok
  ]

  attempted-AllCounted :
      (p : Progress) (keep : List ℕ) (r : Progress × Ending)
      → Attempted source adapter floats policy p keep r
      → AllCounted p.groups
      → AllCounted r.0.groups
  attempted-AllCounted p keep r (over full e) all =
      subst (λ (x : Progress × Ending). AllCounted x.0.groups) (sym e) all
  attempted-AllCounted p keep r (not_run room e) all =
      subst (λ (x : Progress × Ending). AllCounted x.0.groups) (sym e)
        (append-AllCounted p.groups (rejected_group source adapter floats policy keep) all
          (inl refl))
  attempted-AllCounted p keep r (no_room room e) all =
      subst (λ (x : Progress × Ending). AllCounted x.0.groups) (sym e) all
  attempted-AllCounted p keep r (accepted room ok fits yes_group e) all =
      subst (λ (x : Progress × Ending). AllCounted x.0.groups) (sym e)
        (append-AllCounted p.groups (group_of source adapter floats policy p keep) all
          (replay-IsCounted _ keep _ _ _))
  attempted-AllCounted p keep r (rejected room ok fits e) all =
      subst (λ (x : Progress × Ending). AllCounted x.0.groups) (sym e)
        (append-AllCounted p.groups (group_of source adapter floats policy p keep) all
          (replay-IsCounted _ keep _ _ _))

  begun-AllCounted : AllCounted (begun source adapter floats policy).groups
  begun-AllCounted g m = subst IsCounted (sym (Memᴰ.eq_of_singleton m)) (replay-IsCounted _ _ _ _ _)

  searched-AllCounted :
      (found : Progress × Bool)
      → search source adapter floats policy
          (suc (suc policy.max_candidates))
          (begun source adapter floats policy)
        ≡ some found
      → AllCounted found.0.groups
  searched-AllCounted found e =
      search-keeps source adapter floats policy (λ p. AllCounted p.groups)
        (λ p keep r a b. attempted-AllCounted p keep r a b) (λ p g b. b)
        (suc (suc policy.max_candidates)) (begun source adapter floats policy) begun-AllCounted e

  pub reduce-AllCounted :
      (out : Reduction A)
      → reduce source adapter floats policy ≡ some out
      → (g : Group) → Memᴰ g out.progress.groups
      → IsCounted g
  reduce-AllCounted out e = elim (reduce-Reduced source adapter floats policy out e) [
    | at_once no_group same ↦
        subst (λ (o : Reduction A). AllCounted o.progress.groups) same begun-AllCounted
    | searched found yes_group more same ↦
        subst (λ (o : Reduction A). AllCounted o.progress.groups) same
          (append-AllCounted found.0.groups (last source adapter floats policy found.0)
            (searched-AllCounted found more) (replay-IsCounted _ _ _ _ _))
  ]
