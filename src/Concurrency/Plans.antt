-- ===== src/Concurrency/Plans.antt =====
-- What `validate_worker_plan` accepts.
use native.Mathlib.Nat.{mod-lt}
use kernel_bridge_concurrent.Common.{
  ◌∙◌, ◌+◌, get_elem?, ==_iff, lt→ltb, ℕ, zero, suc, ◌%◌, ◌≤◌, ◌<◌, ◌≡◌, refl, sym, ap, subst, inl,
  inr, true, not, ◌||◌, Option, none, some, List, arith, ◌==◌, between, Bool-cases, length,
}
use kernel_bridge_concurrent.Contract.Validate.{Invalid, validate}
use kernel_bridge_concurrent.History.Check.{max_history}
use kernel_bridge_concurrent.Concurrency.{
  Plan, returns, round_robin, assignments_of, all_below, assigned, sized, validate_worker_plan,
}

length-round_robin : (workers i n : ℕ) → length (round_robin workers i n) ≡ n
length-round_robin workers i zero = refl
length-round_robin workers i (suc n) = ap suc (length-round_robin workers (suc i) n)

all_below-round_robin :
    (workers i n : ℕ) → 0 < workers → all_below workers (round_robin workers i n) ≡ true
all_below-round_robin workers i zero some_worker = refl
all_below-round_robin workers i (suc n) some_worker =
    rw (lt→ltb (i % workers) workers (mod-lt i some_worker))
      (all_below-round_robin workers (suc i) n some_worker)

-- An assignment of each of the operations of a valid scenario to one of the workers.
pub record IsAssignment (plan : Plan) (workers : ℕ) (owners : List ℕ) : Type 0 where
  pub valid_scenario : validate plan.scenario ≡ none
  pub few_workers : (2 ≤ workers) × (workers ≤ 4)
  pub few_operations :
      (1 ≤ length plan.scenario.operations) × (length plan.scenario.operations ≤ max_history)
  pub chosen : owners ≡ assignments_of workers (length plan.scenario.operations) plan.worker_ids
  pub every_operation : length owners ≡ length plan.scenario.operations
  pub every_owner : all_below workers owners ≡ true

assigned-returns :
    (workers size : ℕ) (owners out : List ℕ)
    → assigned workers size owners ≡ returns out
    → (owners ≡ out) × (length owners ≡ size) × (all_below workers owners ≡ true)
assigned-returns workers size owners out e =
    elim (Bool-cases (not (length owners == size) || not (all_below workers owners))) [
      | inl bad ↦ cc (rw bad at e)
      | inr good ↦ (ground (arith, rw good at e), ground arith, ground arith)
    ]

sized-returns :
    (plan : Plan) (workers : ℕ) (o : Option Invalid) (out : List ℕ)
    → validate plan.scenario ≡ o
    → sized plan workers o ≡ returns out
    → IsAssignment plan workers out
sized-returns plan workers (some i) out same e = cc
sized-returns plan workers none out same e =
    let size = length plan.scenario.operations in
    let owners = assignments_of workers size plan.worker_ids in
    elim (Bool-cases (not (between 2 4 workers) || not (between 1 max_history size))) [
      | inl bad ↦ cc (rw bad at e)
      | inr good ↦
          let (chosen, counted, below) = assigned-returns workers size owners out (rw good at e) in
          record {
            valid_scenario = same;
            few_workers = (ground (arith, good), ground (arith, good));
            few_operations = (ground (arith, good), ground (arith, good));
            chosen = sym chosen;
            every_operation = subst (λ l. length l ≡ size) chosen counted;
            every_owner = subst (λ l. all_below workers l ≡ true) chosen below;
          }
    ]

-- What `validate_worker_plan` returns assigns every operation of a valid scenario of 1 to 12
-- operations to one of its 2 to 4 workers.
pub validate_worker_plan-IsAssignment :
    (plan : Plan) (workers : ℕ) (owners : List ℕ)
    → validate_worker_plan plan workers ≡ returns owners
    → IsAssignment plan workers owners
unfolding validate_worker_plan
validate_worker_plan-IsAssignment plan workers owners e =
    sized-returns plan workers (validate plan.scenario) owners refl e

get_elem?-round_robin :
    (workers first n i : ℕ)
    → i < n
    → get_elem? (round_robin workers first n) i ≡ some ((first + i) % workers)
get_elem?-round_robin workers first zero i less = absurd (omega arith)
get_elem?-round_robin workers first (suc n) zero less = ap (λ x. some (x % workers)) (omega arith)
get_elem?-round_robin workers first (suc n) (suc i) less =
    get_elem?-round_robin workers (suc first) n i (omega arith)
    ∙ ap (λ x. some (x % workers)) (omega arith)

round_robin-accepted :
    (plan : Plan) (workers : ℕ)
    → validate plan.scenario ≡ none
    → between 2 4 workers ≡ true
    → between 1 max_history (length plan.scenario.operations) ≡ true
    → plan.worker_ids ≡ none
    → validate_worker_plan plan workers
      ≡ returns (round_robin workers 0 (length plan.scenario.operations))
unfolding validate_worker_plan
round_robin-accepted plan workers ok few some_left unnamed =
    let size = length plan.scenario.operations in
    rw (
      ok,
      few,
      some_left,
      unnamed,
      (==_iff (length (round_robin workers 0 size)) size).1 (length-round_robin workers 0 size),
      all_below-round_robin workers 0 size (ground (arith, few)),
    )

-- A valid scenario of 1 to 12 operations that names no owners is accepted for 2 to 4 workers, with
-- one owner for each operation: that of the operation numbered `i` is `i` modulo the workers.
pub validate_worker_plan-round_robin :
    (plan : Plan) (workers : ℕ)
    → validate plan.scenario ≡ none
    → between 2 4 workers ≡ true
    → between 1 max_history (length plan.scenario.operations) ≡ true
    → plan.worker_ids ≡ none
    → (owners : List ℕ) × (validate_worker_plan plan workers ≡ returns owners)
      × (length owners ≡ length plan.scenario.operations)
      × ((i : ℕ) → i < length plan.scenario.operations → get_elem? owners i ≡ some (i % workers))
validate_worker_plan-round_robin plan workers ok few some_left unnamed =
    let size = length plan.scenario.operations in
    (
      round_robin workers 0 size,
      round_robin-accepted plan workers ok few some_left unnamed,
      length-round_robin workers 0 size,
      λ i less.
          get_elem?-round_robin workers 0 size i less ∙ ap (λ x. some (x % workers)) (omega arith),
    )
