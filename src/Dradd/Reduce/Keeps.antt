-- ===== src/Dradd/Reduce/Keeps.antt =====
-- What the search of `reduce` keeps: its budgets, and what its groups of trials show.
use mathlib.Core.Option.{some-injective}
use kernel_bridge_concurrent.Common.{
  ℕ, zero, suc, ◌+◌, ◌*◌, ◌≤◌, ◌<◌, min, ◌≡◌, refl, sym, ap, ◌∙◌, subst, ◌⊎◌, ◌≢◌, inl, inr, Bool,
  true, false, ◌||◌, Option, some, List, [], ◌∷◌, ◌++◌, arith, ltb, leb, Bool-cases, length,
}
use mathlib.Core.List.{Memᴰ}
use mathlib.Core.List.Memᴰ
use kernel_bridge_concurrent.Dradd.Workload.{Workload, valid}
use kernel_bridge_concurrent.Dradd.Workload.Candidates.{Candidate, project}
use kernel_bridge_concurrent.Dradd.Trials.{Floats, Statistics, invalid_candidate, rejection}
use kernel_bridge_concurrent.Dradd.Reduce.{
  Phase, state_of, Adapter, Policy, Group, Progress, Ending, changed, unchanged, exhausted,
  candidate_trials, run_trials, replay, rejected_group, shortened, attempt, go_on, sweep,
  after_sweep, search, width_of, offsets_from, is_single,
}
use kernel_bridge_concurrent.Dradd.Reduce.Cases.{
  group_of, ran, taken, Attempted, over, not_run, no_room, accepted, rejected, attempt-Attempted,
}

-- The trials of all groups.
abbrev pub total_trials : List Group → ℕ
total_trials [] = 0
total_trials (g ∷ gs) = length g.trials + total_trials gs

pub total_trials-append :
    (gs : List Group) (g : Group) → total_trials (gs ++ g ∷ []) ≡ total_trials gs + length g.trials
total_trials-append [] g = omega arith
total_trials-append (h ∷ gs) g = omega (arith, total_trials-append gs g)

module _ {A F : Type 0} (source : Workload A) (adapter : Adapter A) (floats : Floats F)
    (policy : Policy F) where
  pub length-run_trials :
      (c : Candidate A) (executions n : ℕ)
      → length (run_trials source adapter floats policy c executions n) ≡ n
  unfolding run_trials
  length-run_trials c executions zero = refl
  length-run_trials c executions (suc n) = ap suc (length-run_trials c (suc executions) n)

  -- A group is one of an invalid candidate and has no trials, or its selection is valid.
  abbrev pub IsSound : Group → Type 0
  IsSound g =
      ((g.state ≡ invalid_candidate) × (length g.trials ≡ 0))
      ⊎ ((g.state ≢ invalid_candidate) × (valid source g.kept ≡ true))

  state_of-ne :
      (b : Bool) (stats : Statistics)
      → state_of source adapter floats policy b stats ≢ invalid_candidate
  unfolding rejection
  state_of-ne true stats e = cc
  state_of-ne false stats e = ground arith

  -- A group of trials of a valid selection is sound.
  pub replay-IsSound :
      (p : Progress) (keep : List ℕ) (phase : Phase) (n : ℕ) (rate : F)
      → valid source keep ≡ true
      → IsSound (replay source adapter floats policy p keep phase n rate)
  unfolding replay
  replay-IsSound p keep phase n rate ok = inr (state_of-ne _ _, ok)

  pub record IsBounded (p : Progress) : Type 0 where
    pub fits : p.executions + policy.trials ≤ policy.max_executions
    pub counted : p.executions ≡ total_trials p.groups
    pub attempts_fit : p.attempts ≤ policy.max_candidates

  pub record IsBacked (p : Progress) : Type 0 where
    pub kept_valid : valid source p.current ≡ true
    pub sound : (g : Group) → Memᴰ g p.groups → IsSound g
    pub backer : Group
    pub recorded : Memᴰ backer p.groups
    pub of_current : backer.kept ≡ p.current
    pub was_accepted : backer.is_accepted ≡ true

  length-group_of :
      (p : Progress) (keep : List ℕ)
      → length (group_of source adapter floats policy p keep).trials
        ≡ candidate_trials source adapter floats policy
  unfolding replay
  length-group_of p keep =
      length-run_trials (project source keep) p.executions
        (candidate_trials source adapter floats policy)

  kept-group_of :
      (p : Progress) (keep : List ℕ) → (group_of source adapter floats policy p keep).kept ≡ keep
  unfolding replay
  kept-group_of p keep = refl

  taken-IsBounded :
      (p : Progress) (keep : List ℕ)
      → p.attempts < policy.max_candidates
      → p.executions + candidate_trials source adapter floats policy + policy.trials
        ≤ policy.max_executions
      → IsBounded p
      → IsBounded (taken source adapter floats policy p keep)
  taken-IsBounded p keep room fits b = record {
    fits = fits;
    counted = omega (
      arith,
      b.counted,
      total_trials-append p.groups (group_of source adapter floats policy p keep),
      length-group_of p keep,
    );
    attempts_fit = omega arith;
  }

  ran-IsBounded :
      (p : Progress) (keep : List ℕ)
      → p.attempts < policy.max_candidates
      → p.executions + candidate_trials source adapter floats policy + policy.trials
        ≤ policy.max_executions
      → IsBounded p
      → IsBounded (ran source adapter floats policy p keep)
  ran-IsBounded p keep room fits b =
      let t = taken-IsBounded p keep room fits b in
      record { fits = t.fits; counted = t.counted; attempts_fit = t.attempts_fit }

  pub attempted-IsBounded :
      (p : Progress) (keep : List ℕ) {r : Progress × Ending}
      → Attempted source adapter floats policy p keep r
      → IsBounded p
      → IsBounded r.0
  attempted-IsBounded p keep (over full e) b =
      subst (λ (x : Progress × Ending). IsBounded x.0) (sym e) b
  attempted-IsBounded p keep (not_run room e) b =
      subst (λ (x : Progress × Ending). IsBounded x.0) (sym e)
        (record {
          fits = b.fits;
          counted = omega (
            arith,
            b.counted,
            total_trials-append p.groups (rejected_group source adapter floats policy keep),
          );
          attempts_fit = omega arith;
        })
  attempted-IsBounded p keep (no_room room e) b =
      subst (λ (x : Progress × Ending). IsBounded x.0) (sym e)
        (record { fits = b.fits; counted = b.counted; attempts_fit = omega arith })
  attempted-IsBounded p keep (accepted room ok fits yes_group e) b =
      subst (λ (x : Progress × Ending). IsBounded x.0) (sym e) (taken-IsBounded p keep room fits b)
  attempted-IsBounded p keep (rejected room ok fits e) b =
      subst (λ (x : Progress × Ending). IsBounded x.0) (sym e) (ran-IsBounded p keep room fits b)

  pub append-IsSound :
      (gs : List Group) (g : Group)
      → ((h : Group) → Memᴰ h gs → IsSound h)
      → IsSound g
      → (h : Group) → Memᴰ h (gs ++ g ∷ [])
      → IsSound h
  append-IsSound gs g all ok h m = elim (Memᴰ.append_cases gs m) [
    | inl old ↦ all h old
    | inr new ↦ subst IsSound (sym (Memᴰ.eq_of_singleton new)) ok
  ]

  -- The groups go on to back the progress when more are added.
  more-IsBacked :
      (p : Progress) (q : Progress) (g : Group)
      → q.current ≡ p.current
      → q.groups ≡ p.groups ++ g ∷ []
      → IsSound g
      → IsBacked p
      → IsBacked q
  more-IsBacked p q g same more ok b = record {
    kept_valid = subst (λ c. valid source c ≡ true) (sym same) b.kept_valid;
    sound = λ h m. append-IsSound p.groups g b.sound ok h (subst (λ gs. Memᴰ h gs) more m);
    backer = b.backer;
    recorded = subst (λ gs. Memᴰ b.backer gs) (sym more) (Memᴰ.append_left (g ∷ []) b.recorded);
    of_current = b.of_current ∙ sym same;
    was_accepted = b.was_accepted;
  }

  pub attempted-IsBacked :
      (p : Progress) (keep : List ℕ) {r : Progress × Ending}
      → Attempted source adapter floats policy p keep r
      → IsBacked p
      → IsBacked r.0
  attempted-IsBacked p keep (over full e) b =
      subst (λ (x : Progress × Ending). IsBacked x.0) (sym e) b
  attempted-IsBacked p keep (not_run room e) b =
      subst (λ (x : Progress × Ending). IsBacked x.0) (sym e)
        (more-IsBacked p _ (rejected_group source adapter floats policy keep) refl refl
          (inl (refl, refl)) b)
  attempted-IsBacked p keep (no_room room e) b =
      subst (λ (x : Progress × Ending). IsBacked x.0) (sym e)
        (record {
          kept_valid = b.kept_valid;
          sound = b.sound;
          backer = b.backer;
          recorded = b.recorded;
          of_current = b.of_current;
          was_accepted = b.was_accepted;
        })
  attempted-IsBacked p keep (accepted room ok fits yes_group e) b =
      subst (λ (x : Progress × Ending). IsBacked x.0) (sym e)
        (record {
          kept_valid = ok;
          sound =
              append-IsSound p.groups (group_of source adapter floats policy p keep) b.sound
                (replay-IsSound _ keep _ _ _ ok);
          backer = group_of source adapter floats policy p keep;
          recorded = Memᴰ.append_right p.groups (Memᴰ.head refl);
          of_current = kept-group_of p keep;
          was_accepted = yes_group;
        })
  attempted-IsBacked p keep (rejected room ok fits e) b =
      subst (λ (x : Progress × Ending). IsBacked x.0) (sym e)
        (more-IsBacked p _ (group_of source adapter floats policy p keep) refl refl
          (replay-IsSound _ keep _ _ _ ok) b)

  -- What every attempt keeps, and a change of granularity, the search keeps.
  module _ (P : Progress → Type 0)
      (keeps : (p : Progress) (keep : List ℕ) (r : Progress × Ending)
        → Attempted source adapter floats policy p keep r
        → P p
        → P r.0)
      (regrains : (p : Progress) (g : ℕ) → P p → P (record p { granularity = g })) where
    go_on-keeps :
        (r : Progress × Ending) (rest : Progress → Progress × Ending)
        → P r.0
        → ((q : Progress) → P q → P (rest q).0)
        → P (go_on source adapter floats policy r rest).0
    go_on-keeps (p, unchanged) rest h k = k p h
    go_on-keeps (p, changed) rest h k = h
    go_on-keeps (p, exhausted) rest h k = h

    sweep-keeps :
        (width : ℕ) (offsets : List ℕ) (p : Progress)
        → P p
        → P (sweep source adapter floats policy width offsets p).0
    unfolding sweep
    sweep-keeps width [] p h = h
    sweep-keeps width (offset ∷ offsets) p h =
        go_on-keeps (attempt source adapter floats policy p offset width)
          (λ q. sweep source adapter floats policy width offsets q)
          (keeps p (shortened source adapter floats policy p.current offset width) _
            (attempt-Attempted source adapter floats policy p offset width) h)
          (λ q k. sweep-keeps width offsets q k)

    after_sweep-keeps :
        (again : Progress → Option (Progress × Bool)) (size : ℕ) (r : Progress × Ending)
        {out : Progress × Bool}
        → P r.0
        → ((q : Progress) (o : Progress × Bool) → P q → again q ≡ some o → P o.0)
        → after_sweep source adapter floats policy again size r ≡ some out
        → P out.0
    after_sweep-keeps again size (p, changed) {out} h k e = k p out h e
    after_sweep-keeps again size (p, exhausted) {out} h k e =
        subst (λ (x : Progress × Bool). P x.0) (some-injective (p, true) out e) h
    after_sweep-keeps again size (p, unchanged) {out} h k e =
        elim (Bool-cases (is_single policy.strategy || leb size p.granularity)) [
          | inl stop ↦
              subst (λ (x : Progress × Bool). P x.0) (some-injective (p, false) out (rw stop at e))
                h
          | inr on ↦ k _ out (regrains p (min size (p.granularity * 2)) h) (rw on at e)
        ]

    pub search-keeps :
        (fuel : ℕ) (p : Progress) {out : Progress × Bool}
        → P p
        → search source adapter floats policy fuel p ≡ some out
        → P out.0
    unfolding search
    search-keeps zero p h e = cc
    search-keeps (suc fuel) p {out} h e = elim (Bool-cases (ltb 1 (length p.current))) [
      | inl more ↦
          after_sweep-keeps (search source adapter floats policy fuel) (length p.current) _
            (sweep-keeps (width_of source adapter floats policy p)
              (offsets_from (length p.current) 0 (length p.current)
                (width_of source adapter floats policy p))
              p h)
            (λ q o k f. search-keeps fuel q k f) (rw more at e)
      | inr done ↦
          subst (λ (x : Progress × Bool). P x.0) (some-injective (p, false) out (rw done at e)) h
    ]
