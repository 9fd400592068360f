-- ===== src/Concurrency.antt =====
-- `validate_worker_plan` of lab/concurrency.py, and the checks at the start of
-- `evaluate_concurrent`.
pub mod Threads
pub mod Plans
pub mod Evaluation
use kernel_bridge_concurrent.Common.{
  ℕ, zero, suc, ◌+◌, ◌-◌, ◌*◌, ◌/◌, ◌%◌, ◌^◌, ◌≤◌, ◌<◌, min, max, ◌≡◌, refl, sym, ap, ◌∙◌, subst,
  ◌≢◌, ◌↔◌, ◌⊎◌, inl, inr, ite, if_pos, if_neg, Bool, true, false, not, ◌&&◌, ◌||◌, Option, none,
  some, List, [], ◌∷◌, ◌++◌, map, append-nil, append_assoc, arith, ltb, leb, ◌==◌, if◌then◌else◌,
  between, Bool-cases, Option-cases, length, take, drop, get_or, set, get_elem?, ℤ, pos, negsuc,
}
use kernel_bridge_concurrent.Contract.Ops.{Op}
use kernel_bridge_concurrent.Contract.Validate.{Scenario, Invalid, validate}
use kernel_bridge_concurrent.History.Check.{max_history}

-- A scenario with the fields that a concurrent run reads; `none` is a missing `worker_ids`.
pub record Plan : Type 0 where
  pub scenario : Scenario
  pub worker_ids : Option (List ℕ)
  pub jitter : ℕ

-- The messages of the ValueErrors.
pub data PlanError : Type 0 where
  invalid_scenario : Invalid → PlanError
  bad_size bad_assignment bad_jitter bad_search_budget : PlanError

-- [i % workers for i in range(i, i + n)]
abbrev pub round_robin : ℕ → ℕ → ℕ → List ℕ
round_robin workers i zero = []
round_robin workers i (suc n) = i % workers ∷ round_robin workers (suc i) n

abbrev pub assignments_of : ℕ → ℕ → Option (List ℕ) → List ℕ
assignments_of workers size none = round_robin workers 0 size
assignments_of workers size (some owners) = owners

-- all(0 <= w < workers for w in assignments)
abbrev pub all_below : ℕ → List ℕ → Bool
all_below workers [] = true
all_below workers (w ∷ owners) = ltb w workers && all_below workers owners

-- The assignments that are returned, or the error that is raised.
pub data Checked : Type 0 where
  rejects : PlanError → Checked
  returns : List ℕ → Checked

abbrev pub assigned : ℕ → ℕ → List ℕ → Checked
assigned workers size owners =
    if not (length owners == size) || not (all_below workers owners)
    then rejects bad_assignment
    else returns owners

abbrev pub sized : Plan → ℕ → Option Invalid → Checked
sized plan workers (some e) = rejects (invalid_scenario e)
sized plan workers none =
    let size = length plan.scenario.operations in
    if not (between 2 4 workers) || not (between 1 max_history size)
    then rejects bad_size
    else assigned workers size (assignments_of workers size plan.worker_ids)

unfoldable pub validate_worker_plan : Plan → ℕ → Checked
validate_worker_plan plan workers = sized plan workers (validate plan.scenario)

abbrev pub ready_for : Plan → ℕ → Checked → Checked
ready_for plan budget (rejects e) = rejects e
ready_for plan budget (returns owners) =
    if not (leb plan.jitter 10000)
    then rejects bad_jitter
    else if not (between 1 100000 budget)
    then rejects bad_search_budget
    else returns owners

-- The checks before `evaluate_concurrent` opens the device.
unfoldable pub prepare : Plan → ℕ → ℕ → Checked
unfolding validate_worker_plan
prepare plan workers budget = ready_for plan budget (validate_worker_plan plan workers)
