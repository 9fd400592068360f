-- ===== src/Targets/Fixtures.antt =====
-- `fixture` of lab/research_targets.py. The positions that the random numbers choose are a parameter.
pub mod Accepted
use native.Mathlib.Nat.{mod-lt}
use kernel_bridge_concurrent.Common.{
  ℕ, zero, suc, ◌+◌, ◌-◌, ◌%◌, ◌≤◌, ◌<◌, ◌≡◌, refl, sym, ap, ◌∙◌, inl, inr, Bool, true, false, not,
  ◌&&◌, ◌||◌, Option, none, some, List, [], ◌∷◌, ◌++◌, elem, ltb, ◌==◌, if◌then◌else◌, between,
  length, arith, Bool-cases, lt→ltb, ==_iff, append-nil,
}
use kernel_bridge_concurrent.Contract.Ops.{Op, read, write, resize, clear, capacity}
use kernel_bridge_concurrent.Contract.Validate.{
  Invalid, Scenario, validate, validate_op, validate_ops, validate_text, or_error,
}
use kernel_bridge_concurrent.Backends.{
  Fault, no_fault, wrong_eagain, short_write, capacity_corruption, clear_noop, intermittent_eof,
  false_eof, reverse_read, resize_loss,
}
use kernel_bridge_concurrent.Concurrency.{
  Plan, returns, assigned, sized, validate_worker_plan, all_below,
}
use kernel_bridge_concurrent.Dradd.Workload.{Edge, contract_required, Workload}

pub data Density : Type 0 where
  sparse dense : Density
  no_edges : Density

-- "010203"
abbrev pub three_bytes : List ℕ
three_bytes = 48 ∷ 49 ∷ 48 ∷ 50 ∷ 48 ∷ 51 ∷ []

-- cores[fault]
abbrev pub core_of : Fault → List Op
core_of no_fault = read 1 ∷ []
core_of false_eof = read 1 ∷ []
core_of wrong_eagain = read 1 ∷ []
core_of intermittent_eof = read 1 ∷ []
core_of short_write = write three_bytes ∷ []
core_of capacity_corruption = capacity ∷ []
core_of reverse_read = write three_bytes ∷ read 3 ∷ []
core_of resize_loss = write three_bytes ∷ resize 512 ∷ read 3 ∷ []
core_of clear_noop = write three_bytes ∷ clear ∷ read 3 ∷ []

-- The operations from `i` on; `none` is the StopIteration of a core that is used up.
abbrev pub and_then : Op → Option (List Op) → Option (List Op)
and_then op none = none
and_then op (some ops) = some (op ∷ ops)

abbrev pub next_of : List Op → (List Op → Option (List Op)) → Option (List Op)
next_of [] go = none
next_of (op ∷ core) go = and_then op (go core)

unfoldable pub placed : List ℕ → ℕ → ℕ → List Op → Option (List Op)
placed positions i zero core = some []
placed positions i (suc n) core =
    let chosen = next_of core (placed positions (suc i) n) in
    let filler = and_then capacity (placed positions (suc i) n core) in
    if elem i positions then chosen else filler

-- The owners from `i` on, for two workers or more.
unfoldable pub placed_owners : List ℕ → ℕ → ℕ → ℕ → List ℕ
placed_owners positions workers i zero = []
placed_owners positions workers i (suc n) =
    (if elem i positions then 0 else 1 + i % (workers - 1))
    ∷ placed_owners positions workers (suc i) n

abbrev pub is_bound : Density → ℕ → Bool
is_bound dense i = true
is_bound sparse i = i % 3 == 0
is_bound no_edges i = false

-- The dependencies from `i` on.
unfoldable pub placed_edges : Density → ℕ → ℕ → List Edge
placed_edges density i zero = []
placed_edges density i (suc n) =
    let rest = placed_edges density (suc i) n in
    if is_bound density i
    then record { operation = i; requires = i - 1; kind = contract_required } ∷ rest
    else rest

abbrev pub workload_of : Density → List ℕ → ℕ → ℕ → Option (List Op) → Option (Workload Op)
workload_of density positions size workers none = none
workload_of density positions size workers (some ops) = some (record {
  operations = ops;
  worker_ids = placed_owners positions workers 0 size;
  workers = workers;
  dependencies = placed_edges density 1 (size - 1);
})

-- `none` is an exception.
unfoldable pub fixture : Fault → Density → List ℕ → ℕ → ℕ → Option (Workload Op)
unfolding placed placed_owners placed_edges
fixture fault density positions size workers =
    if between 4 12 size
    then workload_of density positions size workers (placed positions 0 size (core_of fault))
    else none

-- The workload as a scenario of `validate_worker_plan`.
abbrev pub plan_of : Workload Op → Plan
plan_of w = record {
  scenario = record { version = 1; capacity = 256; operations = w.operations };
  worker_ids = some w.worker_ids;
  jitter = 0;
}
