-- ===== src/Replay/Groups.antt =====
-- What a group of replays shows.
use kernel_bridge_concurrent.Common.{
  ℕ, zero, ◌+◌, ◌*◌, ◌≤◌, ◌≡◌, refl, ap, inl, inr, true, List, [], ◌∷◌, ◌++◌, arith, length,
  Bool-cases, Option, none, some, >>=-eq-some, >>=-eq-none, some-ne, subst, ◌∙◌, suc, ==_iff,
}
use mathlib.Core.Option.{some-injective}
use kernel_bridge_concurrent.Replay.{
  Status, passed, no_order, failed_otherwise, unclear, Trial, Load, Phase, Group, is_match,
  matched_of, run_trials, replay, is_reproduced, Strategy, total_trials,
}

-- Each trial failed, since no order explains its history.
abbrev pub AllUnordered : List Trial → Type 0
AllUnordered [] = Unit
AllUnordered (t ∷ trials) = (t.status ≡ no_order) × AllUnordered trials

is_match-no_order : (s : Status) → is_match s ≡ true → s ≡ no_order
is_match-no_order passed h = cc
is_match-no_order no_order h = refl
is_match-no_order failed_otherwise h = cc
is_match-no_order unclear h = cc

matched_of-le : (trials : List Trial) → matched_of trials ≤ length trials
unfolding matched_of
matched_of-le [] = omega arith
matched_of-le (t ∷ trials) = ground (arith, matched_of-le trials)

matched_of-AllUnordered :
    (trials : List Trial) → matched_of trials ≡ length trials → AllUnordered trials
unfolding matched_of
matched_of-AllUnordered [] h = tt
matched_of-AllUnordered (t ∷ trials) h = elim (Bool-cases (is_match t.status)) [
  | inl yes_match ↦ (
    is_match-no_order t.status yes_match,
    matched_of-AllUnordered trials (omega (arith, rw yes_match at h)),
  )
  | inr no_match ↦ absurd (omega (arith, rw no_match at h, matched_of-le trials))
]

pub total_trials-append :
    (gs : List Group) (g : Group) → total_trials (gs ++ g ∷ []) ≡ total_trials gs + length g.trials
total_trials-append [] g = omega arith
total_trials-append (h ∷ gs) g = omega (arith, total_trials-append gs g)

AllUnordered-matched :
    (trials : List Trial) → AllUnordered trials → matched_of trials ≡ length trials
unfolding matched_of
AllUnordered-matched [] all = refl
AllUnordered-matched (t ∷ trials) (here, all) =
    rw here (omega (arith, AllUnordered-matched trials all))

module _ (evaluator : ℕ → Load → Option Trial) (strategy : Strategy) (trials budget : ℕ) where
  -- Some evaluation raises an exception.
  pub record Raises : Type 0 where
    pub number : ℕ
    pub load : Load
    pub raises : evaluator number load ≡ none

  -- The trials are evaluations of the load, from the one numbered `first` on.
  abbrev pub Evaluated : Load → ℕ → List Trial → Type 0
  Evaluated l first [] = Unit
  Evaluated l first (t ∷ results) = (evaluator first l ≡ some t) × Evaluated l (suc first) results

  -- A group of replays.
  pub record IsReplay (l : Load) (phase : Phase) (g : Group) : Type 0 where
    pub of_load : g.load ≡ l
    pub in_phase : g.phase ≡ phase
    pub first : ℕ
    pub evaluated : Evaluated l first g.trials
    pub every_trial : length g.trials ≡ trials
    pub shown : is_reproduced evaluator strategy trials budget g ≡ true → AllUnordered g.trials
    pub unshown : AllUnordered g.trials → is_reproduced evaluator strategy trials budget g ≡ true

  run_trials-Evaluated :
      (l : Load) (first n : ℕ) (results : List Trial)
      → run_trials evaluator strategy trials budget l first n ≡ some results
      → Evaluated l first results × (length results ≡ n)
  unfolding run_trials
  run_trials-Evaluated l first zero results e =
      subst (λ (r : List Trial). Evaluated l first r × (length r ≡ 0)) (some-injective _ _ e)
        (tt, refl)
  run_trials-Evaluated l first (suc n) results e =
      let (t, here, more) = >>=-eq-some (evaluator first l) _ e in
      let (rest, found, same) =
        >>=-eq-some (run_trials evaluator strategy trials budget l (suc first) n) _ more in
      let (evaluated, size) = run_trials-Evaluated l (suc first) n rest found in
      subst (λ (r : List Trial). Evaluated l first r × (length r ≡ suc n)) (some-injective _ _ same)
        ((here, evaluated), ap suc size)

  run_trials-Raises :
      (l : Load) (first n : ℕ)
      → run_trials evaluator strategy trials budget l first n ≡ none
      → Raises
  unfolding run_trials
  run_trials-Raises l first zero e = absurd (some-ne e)
  run_trials-Raises l first (suc n) e = elim (>>=-eq-none (evaluator first l) _ e) [
    | inl here ↦ record { number = first; load = l; raises = here }
    | inr (t, here, more) ↦
        elim (>>=-eq-none (run_trials evaluator strategy trials budget l (suc first) n) _ more) [
          | inl found ↦ run_trials-Raises l (suc first) n found
          | inr (rest, found, last) ↦ absurd (some-ne last)
        ]
  ]

  pub replay-Raises :
      (gs : List Group) (l : Load) (phase : Phase)
      → replay evaluator strategy trials budget gs l phase ≡ none
      → Raises
  unfolding replay
  replay-Raises gs l phase e =
      elim (>>=-eq-none (run_trials evaluator strategy trials budget l (length gs * trials) trials)
        _ e) [
          | inl found ↦ run_trials-Raises l (length gs * trials) trials found
          | inr (results, found, last) ↦ absurd (some-ne last)
        ]

  -- A group that is reproduced failed in the wanted way in each of its trials.
  pub replay-IsReplay :
      (gs : List Group) (l : Load) (phase : Phase) (g : Group)
      → replay evaluator strategy trials budget gs l phase ≡ some g
      → IsReplay l phase g
  unfolding replay
  replay-IsReplay gs l phase g e =
      let (results, found, same) =
        >>=-eq-some (run_trials evaluator strategy trials budget l (length gs * trials) trials) _
          e in
      let (evaluated, size) = run_trials-Evaluated l (length gs * trials) trials results found in
      subst (IsReplay l phase) (some-injective _ _ same) (record {
        of_load = refl;
        in_phase = refl;
        first = length gs * trials;
        evaluated = evaluated;
        every_trial = size;
        shown = λ h. matched_of-AllUnordered results (ground (arith, h, size));
        unshown = λ all. (==_iff _ _).1 (AllUnordered-matched results all ∙ size);
      })
