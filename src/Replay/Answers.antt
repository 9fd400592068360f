-- ===== src/Replay/Answers.antt =====
-- What `reduce_concurrent` answers.
use kernel_bridge_concurrent.Common.{
  ℕ, suc, ◌+◌, ◌*◌, ◌≤◌, ◌<◌, ◌≡◌, refl, sym, ap, ◌∙◌, ◌⊎◌, ◌↔◌, inl, inr, Bool, true, false, not,
  Option, none, some, List, arith, Bool-cases, length, between, ◌==◌, ==_iff, [], ◌∷◌,
}
use mathlib.Core.List.{Sublistᴰ}
use mathlib.Core.List.Sublistᴰ
use kernel_bridge_concurrent.Concurrency.{Plan, returns, validate_worker_plan}
use kernel_bridge_concurrent.Concurrency.Plans.{IsAssignment, validate_worker_plan-IsAssignment}
use kernel_bridge_concurrent.Replay.{
  Strategy, Load, Trial, Group, Progress, initial, confirmation, Counts, reproducer_found,
  outcome_of, Summary, answered, begun, confirm, confirmed_by, confirmed_of, after_first, Ran, ran,
  raised, summary_of, replay, is_reproduced, reduce_load, owned, reduce_concurrent,
}
use kernel_bridge_concurrent.Replay.Loads.{owned_ops}
use kernel_bridge_concurrent.Replay.Groups.{
  AllUnordered, Raises, IsReplay, replay-Raises, replay-IsReplay, total_trials-append,
}
use kernel_bridge_concurrent.Replay.Keeps.{
  IsBacked, IsShown, IsKept, replay-IsBacked, replay-IsShown, IsBacked-more, IsShown-more,
}
use kernel_bridge_concurrent.Replay.Ends.{Ended, fails, ends, cut_down-Ended}

outcome_of-reproducer : (b : Bool) (k : Counts) → (outcome_of b k ≡ reproducer_found) ↔ (b ≡ true)
outcome_of-reproducer true k = (λ e. refl, λ e. refl)
outcome_of-reproducer false k = elim (Bool-cases (not (k.inconclusive == 0))) [
  | inl some_unclear ↦ (λ e. cc (rw some_unclear at e), λ e. cc)
  | inr clear_all ↦ (λ e. cc (rw clear_all at e), λ e. cc)
]

module _ (evaluator : ℕ → Load → Option Trial) (strategy : Strategy) (trials budget : ℕ) where
  -- How far the function came: the first group did not fail in the wanted way in each trial, and
  -- nothing more was run; or it did, and a group was run for each candidate and the confirmation.
  pub data Account (whole : Load) (out : Summary) : Type 0 where
    stopped :
        (g : Group)
        → out.evidence ≡ g ∷ []
        → (g.phase ≡ initial) × (g.load ≡ whole)
        → ¬ AllUnordered g.trials
        → (out.attempts ≡ 0) × (out.tried ≡ trials)
        → out.confirmed ≡ false
        → Account whole out
    went_on :
        IsShown evaluator strategy trials budget initial whole out.evidence
        → out.tried ≡ (out.attempts + 2) * trials
        → Account whole out

  -- What is left of the load `whole`: operations of it in their order, each with its worker, which
  -- are all of it or failed in each trial of a recorded group of evaluations of them; candidates
  -- within the budget; an account of the groups; and a reproducer is claimed exactly where the
  -- confirmation failed in each trial.
  pub record IsReduction (whole : Load) (out : Summary) : Type 0 where
    pub part : Sublistᴰ (owned_ops out.reduced) (owned_ops whole)
    pub seen :
        (out.reduced ≡ whole) ⊎ IsBacked evaluator strategy trials budget out.reduced out.evidence
    pub within : out.attempts ≤ budget
    pub account : Account whole out
    pub claim : (out.outcome ≡ reproducer_found) ↔ (out.confirmed ≡ true)
    pub evidenced :
        out.confirmed ≡ true
        → IsShown evaluator strategy trials budget confirmation out.reduced out.evidence

  -- A reduction, or the exception of an evaluation.
  pub data Reduces (whole : Load) : Ran Summary → Type 0 where
    propagates : Raises evaluator strategy trials budget → Reduces whole raised
    reduces : {out : Summary} → IsReduction whole out → Reduces whole (ran out)

  begun-IsKept :
      (l : Load) (g : Group)
      → length l.worker_ids ≡ length l.operations
      → 0 < length l.operations
      → IsReplay evaluator strategy trials budget l initial g
      → is_reproduced evaluator strategy trials budget g ≡ true
      → IsKept evaluator strategy trials budget l (begun evaluator strategy trials budget l g)
  begun-IsKept l g same some_left r yes_group = record {
    part = Sublistᴰ.refl (owned_ops l);
    owned = same;
    some_left = some_left;
    within = omega arith;
    coarse = omega arith;
    counted = omega (arith, r.every_trial);
    backed = replay-IsBacked evaluator strategy trials budget l initial [] g r yes_group;
    begun = replay-IsShown evaluator strategy trials budget l initial [] g r yes_group;
  }

  confirmed-IsReduction :
      (whole : Load) (p : Progress) (g : Group)
      → IsKept evaluator strategy trials budget whole p
      → IsReplay evaluator strategy trials budget p.current confirmation g
      → IsReduction whole (confirmed_by evaluator strategy trials budget p g)
  confirmed-IsReduction whole p g k r = record {
    part = k.part;
    seen = inr (IsBacked-more evaluator strategy trials budget p.current p.evidence g k.backed);
    within = k.within;
    account =
        went_on (IsShown-more evaluator strategy trials budget initial whole p.evidence g k.begun)
          (omega (arith, k.counted, total_trials-append p.evidence g, r.every_trial));
    claim = outcome_of-reproducer (is_reproduced evaluator strategy trials budget g) g.counts;
    evidenced =
        replay-IsShown evaluator strategy trials budget p.current confirmation p.evidence g r;
  }

  confirmed-Reduces :
      (whole : Load) (p : Progress) (o : Option Group)
      → IsKept evaluator strategy trials budget whole p
      → replay evaluator strategy trials budget p.evidence p.current confirmation ≡ o
      → Reduces whole (confirmed_of evaluator strategy trials budget p o)
  confirmed-Reduces whole p none k e =
      propagates
        (replay-Raises evaluator strategy trials budget p.evidence p.current confirmation e)
  confirmed-Reduces whole p (some g) k e = reduces (
      confirmed-IsReduction whole p g k
        (replay-IsReplay evaluator strategy trials budget p.evidence p.current confirmation g e))

  confirm-Reduces :
      (whole : Load) {r : Ran Progress}
      → Ended evaluator strategy trials budget whole r
      → Reduces whole (confirm evaluator strategy trials budget r)
  confirm-Reduces whole (fails r) = propagates r
  confirm-Reduces whole (ends {p = p} k) = confirmed-Reduces whole p _ k refl

  stopped-IsReduction :
      (l : Load) (g : Group)
      → IsReplay evaluator strategy trials budget l initial g
      → is_reproduced evaluator strategy trials budget g ≡ false
      → IsReduction l (summary_of (begun evaluator strategy trials budget l g) false g)
  stopped-IsReduction l g r no_group = record {
    part = Sublistᴰ.refl (owned_ops l);
    seen = inl refl;
    within = omega arith;
    account =
        stopped g refl (r.in_phase, r.of_load) (λ all. cc (r.unshown all, no_group))
          (refl, omega (arith, r.every_trial)) refl;
    claim = outcome_of-reproducer false g.counts;
    evidenced = λ h. cc;
  }

  first-Reduces :
      (l : Load) (o : Option Group)
      → length l.worker_ids ≡ length l.operations
      → 0 < length l.operations
      → replay evaluator strategy trials budget [] l initial ≡ o
      → Reduces l (after_first evaluator strategy trials budget l o)
  first-Reduces l none same some_left e =
      propagates (replay-Raises evaluator strategy trials budget [] l initial e)
  first-Reduces l (some g) same some_left e =
      let r = replay-IsReplay evaluator strategy trials budget [] l initial g e in
      elim (Bool-cases (is_reproduced evaluator strategy trials budget g)) [
        | inr no_group ↦ rw no_group (reduces (stopped-IsReduction l g r no_group))
        | inl yes_group ↦ rw yes_group (
            confirm-Reduces l (
              cut_down-Ended evaluator strategy trials budget (suc budget) l
                (begun evaluator strategy trials budget l g) (omega arith)
                (begun-IsKept l g same some_left r yes_group)))
      ]

  -- The function after its checks.
  reduce_load-Reduces :
      (l : Load)
      → length l.worker_ids ≡ length l.operations
      → 0 < length l.operations
      → Reduces l (reduce_load evaluator strategy trials budget l)
  unfolding reduce_load
  reduce_load-Reduces l same some_left = first-Reduces l _ same some_left refl

  reduce_concurrent-eq :
      (plan : Plan) (workers search_budget : ℕ) (owners : List ℕ)
      → IsAssignment plan workers owners
      → between 1 20 trials ≡ true
      → between 1 100 budget ≡ true
      → between 1 100000 search_budget ≡ true
      → reduce_concurrent evaluator strategy trials budget plan workers search_budget
        ≡ answered (
            reduce_load evaluator strategy trials budget
              (record { operations = plan.scenario.operations; worker_ids = owners }))
  unfolding reduce_concurrent
  reduce_concurrent-eq plan workers search_budget owners a few room enough =
      let size = length plan.scenario.operations in
      let two_to_four : between 2 4 workers ≡ true = ground (arith, a.few_workers) in
      let one_to_twelve : between 1 12 size ≡ true = ground (arith, a.few_operations) in
      let of_all : (length owners == size) ≡ true =
        (==_iff (length owners) size).1 a.every_operation in
      let at_owners =
        ap (owned evaluator strategy trials budget plan workers search_budget) (sym a.chosen) in
      let accepted : owned evaluator strategy trials budget plan workers search_budget owners
          ≡ answered (
              reduce_load evaluator strategy trials budget
                (record { operations = plan.scenario.operations; worker_ids = owners })) =
        rw (of_all, a.every_owner, enough) refl in
      rw (a.valid_scenario, two_to_four, one_to_twelve, few, room) (at_owners ∙ accepted)

  -- For every plan that `validate_worker_plan` accepts, within the bounds of its other arguments,
  -- `reduce_concurrent` comes to an end with what its search gives: the exception of an evaluation
  -- that raised one, or a reduction of the plan's operations and their workers. A reduction is of
  -- operations of it in their order, each with its worker, which are all of it or failed in each
  -- trial of a recorded group of evaluations of them, after candidates within the budget. Either the
  -- first group did not fail in each trial and nothing more was run, or it did, with a group of
  -- trials for the start, each candidate and the confirmation. A reproducer is claimed exactly where
  -- it is confirmed, which each trial of a recorded confirmation of what is left bears out.
  pub reduce_concurrent-Reduces :
      (plan : Plan) (workers search_budget : ℕ) (owners : List ℕ)
      → validate_worker_plan plan workers ≡ returns owners
      → between 1 20 trials ≡ true
      → between 1 100 budget ≡ true
      → between 1 100000 search_budget ≡ true
      → (found : Ran Summary) × (reduce_concurrent evaluator strategy trials budget plan workers
            search_budget
          ≡ answered found)
        × Reduces (record { operations = plan.scenario.operations; worker_ids = owners }) found
  reduce_concurrent-Reduces plan workers search_budget owners accepted few room enough =
      let a = validate_worker_plan-IsAssignment plan workers owners accepted in
      (
        _,
        reduce_concurrent-eq plan workers search_budget owners a few room enough,
        reduce_load-Reduces (record { operations = plan.scenario.operations; worker_ids = owners })
            a.every_operation (ground (arith, a.few_operations)),
      )
