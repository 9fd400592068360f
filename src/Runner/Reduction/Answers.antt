-- ===== src/Runner/Reduction/Answers.antt =====
-- What `reduce_scenario` answers.
use mathlib.Core.List.{Sublistᴰ}
use mathlib.Core.List.Sublistᴰ
use kernel_bridge_concurrent.Common.{
  ◌↔◌, if_pos, if_neg, ℕ, suc, ◌+◌, ◌≤◌, ◌≡◌, refl, ap, ◌∙◌, ◌⊎◌, inl, inr, true, some, List, arith,
  Option-cases, take,
}
use kernel_bridge_concurrent.Contract.Ops.{Op}
use kernel_bridge_concurrent.Runner.{Signature, Status, passes, inconclusive, fails, Evaluation}
use kernel_bridge_concurrent.Runner.Reduction.{
  Cut, cut_down, Reduced, answered, reduce_scenario, from_status, confirm_cut, first_cut, matches,
  Signature-discrete,
}
use kernel_bridge_concurrent.Runner.Reduction.Progress.{IsKept, cut_down-IsKept}
use kernel_bridge_concurrent.Runner.Reduction.Ends.{cut_down-total}

fails-injective : (i j : ℕ) (s t : Signature) → fails i s ≡ fails j t → s ≡ t
fails-injective i j s t e = cc

-- The signature is shown exactly by a failure with that signature.
matches_iff :
    (wanted : Signature) (s : Status)
    → (matches wanted s ≡ true) ↔ ((index : ℕ) × (s ≡ fails index wanted))
matches_iff wanted passes = (λ h. cc, λ f. cc f.1)
matches_iff wanted inconclusive = (λ h. cc, λ f. cc f.1)
matches_iff wanted (fails index sig) = elim (Signature-discrete sig wanted) [
  | yes same ↦ rw (if_pos _ same) (λ h. (index, ap (fails index) same), λ f. refl)
  | no other ↦
      rw (if_neg _ other) (λ h. cc, λ f. absurd (other (fails-injective index f.0 sig wanted f.1)))
]

module _ (evaluator : ℕ → List Op → Evaluation) (ops : List Op) (budget index : ℕ)
    (sig : Signature) where
  -- The evaluation of that number failed with the signature.
  abbrev pub Fails : ℕ → List Op → Type 0
  Fails n candidate = (at : ℕ) × ((evaluator n candidate).status ≡ fails at sig)

  -- Operations up to the failure, in their order; no more candidates than the budget; either nothing
  -- was cut, or an evaluation of what is left failed with the signature; and it is confirmed exactly
  -- if one evaluation more fails with it.
  pub record IsReduced (out : Reduced) : Type 0 where
    pub part : Sublistᴰ out.operations (take (index + 1) ops)
    pub within : out.attempts ≤ budget
    pub seen :
        (out.operations ≡ take (index + 1) ops)
        ⊎ ((n : ℕ) × (n ≤ out.attempts) × Fails n out.operations)
    pub confirmation : (out.confirmed ≡ true) ↔ Fails (out.attempts + 1) out.operations

  first-IsKept : IsKept evaluator sig budget (take (index + 1) ops) (first_cut ops index)
  first-IsKept = record {
    part = Sublistᴰ.refl (take (index + 1) ops);
    within = omega arith;
    coarse = omega arith;
    seen = inl refl;
  }

  abbrev reduced_of : Cut → Reduced
  reduced_of c = record {
    operations = c.operations;
    attempts = c.attempts;
    confirmed = matches sig (evaluator (c.attempts + 1) c.operations).status;
  }

  kept-IsReduced :
      (c : Cut) → IsKept evaluator sig budget (take (index + 1) ops) c → IsReduced (reduced_of c)
  kept-IsReduced c k = record {
    part = k.part;
    within = k.within;
    seen = elim k.seen [
      | inl same ↦ inl same
      | inr (n, early, shown) ↦
          inr (n, early, (matches_iff sig (evaluator n c.operations).status).0 shown)
    ];
    confirmation = matches_iff sig (evaluator (c.attempts + 1) c.operations).status;
  }

  -- Of a scenario that fails, `reduce_scenario` always gives a reduced one: it is made of operations
  -- of the scenario up to its failure, in their order, at most `budget` candidates were evaluated, it
  -- is the scenario up to its failure or an evaluation of it failed with the same signature, and it
  -- is confirmed exactly if one evaluation more fails with that signature.
  pub reduce_scenario-IsReduced :
      (evaluator 0 ops).status ≡ fails index sig
      → (out : Reduced) × (reduce_scenario evaluator ops budget ≡ answered (some out))
        × IsReduced out
  unfolding reduce_scenario
  reduce_scenario-IsReduced failed =
      elim (Option-cases (cut_down evaluator sig budget (suc budget) (first_cut ops index))) [
        | inl over ↦ absurd (
            cut_down-total evaluator sig budget (suc budget) (take (index + 1) ops)
              (first_cut ops index) (omega arith) first-IsKept over)
        | inr (c, found) ↦ (
          reduced_of c,
          ap (from_status evaluator ops budget) failed
              ∙ ap (λ o. answered (confirm_cut evaluator sig o)) found,
          kept-IsReduced c (
              cut_down-IsKept evaluator sig budget (suc budget) (take (index + 1) ops)
                (first_cut ops index) c first-IsKept found),
        )
      ]
