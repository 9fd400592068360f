-- ===== src/Runner/Reduction.antt =====
-- The function `reduce_scenario` of lab/runner.py.
pub mod Progress
pub mod Ends
pub mod Answers
use kernel_bridge_concurrent.Common.{
  ℕ, zero, suc, ◌+◌, ◌-◌, ◌*◌, ◌/◌, ◌%◌, ◌^◌, ◌≤◌, ◌<◌, min, max, ◌≡◌, refl, sym, ap, ◌∙◌, subst,
  ◌≢◌, ◌↔◌, ◌⊎◌, inl, inr, ite, if_pos, if_neg, Bool, true, false, not, ◌&&◌, ◌||◌, Option, none,
  some, List, [], ◌∷◌, ◌++◌, map, append-nil, append_assoc, arith, ltb, leb, ◌==◌, if◌then◌else◌,
  between, Bool-cases, Option-cases, length, take, drop, get_or, set, get_elem?, ℤ, pos, negsuc,
}
use native.Mathlib.Decide.{ℕ_discrete}
use kernel_bridge_concurrent.Contract.Ops.{Op}
use kernel_bridge_concurrent.Runner.{Signature, Status, passes, inconclusive, fails, Evaluation}

unfoldable pub Signature-discrete : Discrete Signature
unfolding ℕ_discrete
Signature-discrete = hlevel ℕ_discrete

-- `observed["status"] == "fail" and observed["signature"] == original["signature"]`
abbrev pub matches : Signature → Status → Bool
matches wanted (fails index sig) = ite (Signature-discrete sig wanted) true false
matches wanted passes = false
matches wanted inconclusive = false

-- The variables of the loop.
pub record Cut : Type 0 where
  pub operations : List Op
  pub attempts : ℕ
  pub granularity : ℕ

-- `operations[:start] + operations[start + chunk:]`
abbrev pub without : List Op → ℕ → ℕ → List Op
without ops start chunk = take start ops ++ drop (start + chunk) ops

abbrev pub is_nil : List Op → Bool
is_nil [] = true
is_nil (op ∷ ops) = false

abbrev pub chunk_of : Cut → ℕ
chunk_of c = (length c.operations + c.granularity - 1) / c.granularity

-- The evaluations, numbered in the order in which they are made: a device may answer differently
-- each time.
module _ (evaluator : ℕ → List Op → Evaluation) (wanted : Signature) (budget : ℕ) where
  abbrev pub shows : ℕ → List Op → Bool
  shows n ops = matches wanted (evaluator n ops).status

  -- The loop over the starts, of which `fuel` are left; the flag is `changed`.
  unfoldable pub scan : ℕ → ℕ → ℕ → Cut → Cut × Bool
  scan zero start chunk c = (c, false)
  scan (suc fuel) start chunk c =
      let candidate = without c.operations start chunk in
      let tried = record c { attempts = c.attempts + 1 } in
      let taken = record tried {
        operations = candidate;
        granularity = max 2 (c.granularity - 1);
      } in
      let skipped = scan fuel (start + chunk) chunk c in
      let others = scan fuel (start + chunk) chunk tried in
      if not (ltb start (length c.operations))
      then (c, false)
      else if is_nil candidate
      then skipped
      else if shows (c.attempts + 1) candidate
      then (taken, true)
      else if leb budget (c.attempts + 1)
      then (tried, false)
      else others

  abbrev pub after_scan : (Cut → Option Cut) → Cut × Bool → Option Cut
  after_scan again (c, true) = again c
  after_scan again (c, false) =
      let size = length c.operations in
      let finer = again (record c { granularity = min size (c.granularity * 2) }) in
      if leb size c.granularity then some c else finer

  -- The outer loop; `none` is the end of the fuel.
  unfoldable pub cut_down : ℕ → Cut → Option Cut
  unfolding scan
  cut_down zero c = none
  cut_down (suc fuel) c =
      let deeper = after_scan (cut_down fuel) (scan (length c.operations) 0 (chunk_of c) c) in
      if ltb 1 (length c.operations) && ltb c.attempts budget then deeper else some c

pub record Reduced : Type 0 where
  pub operations : List Op
  pub attempts : ℕ
  pub confirmed : Bool

abbrev pub confirm_cut : (ℕ → List Op → Evaluation) → Signature → Option Cut → Option Reduced
confirm_cut evaluator wanted none = none
confirm_cut evaluator wanted (some c) = some (record {
  operations = c.operations;
  attempts = c.attempts;
  confirmed = matches wanted (evaluator (c.attempts + 1) c.operations).status;
})

abbrev pub first_cut : List Op → ℕ → Cut
first_cut ops index = record { operations = take (index + 1) ops; attempts = 0; granularity = 2 }

-- `refused` is the ValueError of a scenario that does not fail.
pub data Answer : Type 0 where
  refused : Answer
  answered : Option Reduced → Answer

abbrev pub from_status : (ℕ → List Op → Evaluation) → List Op → ℕ → Status → Answer
from_status evaluator ops budget (fails index sig) =
    answered
      (confirm_cut evaluator sig (cut_down evaluator sig budget (suc budget) (first_cut ops index)))
from_status evaluator ops budget passes = refused
from_status evaluator ops budget inconclusive = refused

unfoldable pub reduce_scenario : (ℕ → List Op → Evaluation) → List Op → ℕ → Answer
reduce_scenario evaluator ops budget = from_status evaluator ops budget (evaluator 0 ops).status
