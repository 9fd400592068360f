-- ===== src/Replay/Keeps.antt =====
-- What the search of `reduce_concurrent` keeps.
use kernel_bridge_concurrent.Common.{
  ℕ, ◌+◌, ◌*◌, ◌≤◌, ◌<◌, ◌≡◌, refl, true, false, List, [], ◌∷◌, ◌++◌, arith, length, Option,
}
use mathlib.Core.List.{Sublistᴰ, Memᴰ}
use mathlib.Core.List.Sublistᴰ
use kernel_bridge_concurrent.Contract.Ops.{Op}
use kernel_bridge_concurrent.Replay.{
  Strategy, Load, Trial, Group, Phase, Progress, initial, candidate, without, is_nil, is_reproduced,
  tried_of, taken_of, total_trials,
}
use kernel_bridge_concurrent.Replay.Loads.{owned_ops, without-Sublist, length-without}
use kernel_bridge_concurrent.Replay.Groups.{AllUnordered, Evaluated, IsReplay, total_trials-append}

pub Memᴰ-last {ℓ} : {A : Type ℓ} (x : A) (xs : List A) → Memᴰ x (xs ++ x ∷ [])
Memᴰ-last x [] = Memᴰ.head refl
Memᴰ-last x (y ∷ xs) = Memᴰ.tail (Memᴰ-last x xs)

pub Memᴰ-more {ℓ} : {A : Type ℓ} {x : A} {xs : List A} (ys : List A) → Memᴰ x xs → Memᴰ x (xs ++ ys)
Memᴰ-more ys (Memᴰ.head e) = Memᴰ.head e
Memᴰ-more ys (Memᴰ.tail m) = Memᴰ.tail (Memᴰ-more ys m)

some_left-lt : (ops : List Op) → is_nil ops ≡ false → 0 < length ops
some_left-lt [] h = cc
some_left-lt (op ∷ ops) h = omega arith

module _ (evaluator : ℕ → Load → Option Trial) (strategy : Strategy) (trials budget : ℕ) where
  -- A recorded group of `trials` evaluations of the load, each of which failed in the wanted way.
  pub record IsBacked (l : Load) (groups : List Group) : Type 0 where
    pub backer : Group
    pub recorded : Memᴰ backer groups
    pub of_load : backer.load ≡ l
    pub first : ℕ
    pub evaluated : Evaluated evaluator strategy trials budget l first backer.trials
    pub every_trial : length backer.trials ≡ trials
    pub unordered : AllUnordered backer.trials

  -- A recorded group of the phase, of `trials` evaluations of the load, each of which failed in the
  -- wanted way.
  pub record IsShown (phase : Phase) (l : Load) (groups : List Group) : Type 0 where
    pub group : Group
    pub recorded : Memᴰ group groups
    pub in_phase : group.phase ≡ phase
    pub of_load : group.load ≡ l
    pub first : ℕ
    pub evaluated : Evaluated evaluator strategy trials budget l first group.trials
    pub every_trial : length group.trials ≡ trials
    pub unordered : AllUnordered group.trials

  -- Of the load at the start, `whole`.
  pub record IsKept (whole : Load) (p : Progress) : Type 0 where
    pub part : Sublistᴰ (owned_ops p.current) (owned_ops whole)
    pub owned : length p.current.worker_ids ≡ length p.current.operations
    pub some_left : 0 < length p.current.operations
    pub within : p.attempts ≤ budget
    pub coarse : 2 ≤ p.granularity
    pub counted : total_trials p.evidence ≡ p.attempts * trials + trials
    pub backed : IsBacked p.current p.evidence
    pub begun : IsShown initial whole p.evidence

  pub replay-IsBacked :
      (l : Load) (phase : Phase) (groups : List Group) (g : Group)
      → IsReplay evaluator strategy trials budget l phase g
      → is_reproduced evaluator strategy trials budget g ≡ true
      → IsBacked l (groups ++ g ∷ [])
  replay-IsBacked l phase groups g r yes_group = record {
    backer = g;
    recorded = Memᴰ-last g groups;
    of_load = r.of_load;
    first = r.first;
    evaluated = r.evaluated;
    every_trial = r.every_trial;
    unordered = r.shown yes_group;
  }

  pub replay-IsShown :
      (l : Load) (phase : Phase) (groups : List Group) (g : Group)
      → IsReplay evaluator strategy trials budget l phase g
      → is_reproduced evaluator strategy trials budget g ≡ true
      → IsShown phase l (groups ++ g ∷ [])
  replay-IsShown l phase groups g r yes_group = record {
    group = g;
    recorded = Memᴰ-last g groups;
    in_phase = r.in_phase;
    of_load = r.of_load;
    first = r.first;
    evaluated = r.evaluated;
    every_trial = r.every_trial;
    unordered = r.shown yes_group;
  }

  pub IsBacked-more :
      (l : Load) (groups : List Group) (g : Group)
      → IsBacked l groups
      → IsBacked l (groups ++ g ∷ [])
  IsBacked-more l groups g b = record {
    backer = b.backer;
    recorded = Memᴰ-more (g ∷ []) b.recorded;
    of_load = b.of_load;
    first = b.first;
    evaluated = b.evaluated;
    every_trial = b.every_trial;
    unordered = b.unordered;
  }

  pub IsShown-more :
      (phase : Phase) (l : Load) (groups : List Group) (g : Group)
      → IsShown phase l groups
      → IsShown phase l (groups ++ g ∷ [])
  IsShown-more phase l groups g b = record {
    group = b.group;
    recorded = Memᴰ-more (g ∷ []) b.recorded;
    in_phase = b.in_phase;
    of_load = b.of_load;
    first = b.first;
    evaluated = b.evaluated;
    every_trial = b.every_trial;
    unordered = b.unordered;
  }

  counted-tried :
      (p : Progress) (g : Group)
      → length g.trials ≡ trials
      → total_trials p.evidence ≡ p.attempts * trials + trials
      → total_trials (tried_of evaluator strategy trials budget p g).evidence
        ≡ (p.attempts + 1) * trials + trials
  counted-tried p g size h = omega (arith, h, total_trials-append p.evidence g, size)

  pub tried-IsKept :
      (whole : Load) (p : Progress) (left : Load) (g : Group)
      → p.attempts < budget
      → IsReplay evaluator strategy trials budget left candidate g
      → IsKept whole p
      → IsKept whole (tried_of evaluator strategy trials budget p g)
  tried-IsKept whole p left g room r k = record {
    part = k.part;
    owned = k.owned;
    some_left = k.some_left;
    within = omega arith;
    coarse = k.coarse;
    counted = counted-tried p g r.every_trial k.counted;
    backed = IsBacked-more p.current p.evidence g k.backed;
    begun = IsShown-more initial whole p.evidence g k.begun;
  }

  pub taken-IsKept :
      (whole : Load) (p : Progress) (start width : ℕ) (g : Group)
      → p.attempts < budget
      → is_nil (without p.current start width).operations ≡ false
      → IsReplay evaluator strategy trials budget (without p.current start width) candidate g
      → is_reproduced evaluator strategy trials budget g ≡ true
      → IsKept whole p
      → IsKept whole (taken_of evaluator strategy trials budget p (without p.current start width) g)
  taken-IsKept whole p start width g room some_here r yes_group k = record {
    part = Sublistᴰ.trans (without-Sublist p.current start width) k.part;
    owned = length-without p.current start width k.owned;
    some_left = some_left-lt (without p.current start width).operations some_here;
    within = omega arith;
    coarse = omega arith;
    counted = counted-tried p g r.every_trial k.counted;
    backed = replay-IsBacked (without p.current start width) candidate p.evidence g r yes_group;
    begun = IsShown-more initial whole p.evidence g k.begun;
  }

  pub refined-IsKept :
      (whole : Load) (p : Progress) (g : ℕ)
      → 2 ≤ g
      → IsKept whole p
      → IsKept whole (record p { granularity = g })
  refined-IsKept whole p g coarse k = record {
    part = k.part;
    owned = k.owned;
    some_left = k.some_left;
    within = k.within;
    coarse = coarse;
    counted = k.counted;
    backed = k.backed;
    begun = k.begun;
  }
