-- ===== src/Targets/Fixtures/Accepted.antt =====
-- What `fixture` makes can be run.
use native.Mathlib.Nat.{mod-lt}
use kernel_bridge_concurrent.Common.{
  ℕ, zero, suc, ◌+◌, ◌-◌, ◌%◌, ◌≤◌, ◌<◌, ◌≡◌, refl, sym, ap, ◌∙◌, inl, inr, true, false, none, some,
  List, [], ◌∷◌, elem, ◌==◌, if◌then◌else◌, between, length, arith, Bool-cases, ==_iff,
}
use kernel_bridge_concurrent.Contract.Ops.{Op, capacity, Text-discrete}
use kernel_bridge_concurrent.Contract.Validate.{validate, validate_op, validate_ops, validate_text}
use kernel_bridge_concurrent.Contract.Hex.{from_hex, hex}
use kernel_bridge_concurrent.Backends.{
  Fault, no_fault, wrong_eagain, short_write, capacity_corruption, clear_noop, intermittent_eof,
  false_eof, reverse_read, resize_loss,
}
use kernel_bridge_concurrent.Concurrency.{returns, validate_worker_plan, all_below}
use kernel_bridge_concurrent.Dradd.Workload.{Workload}
use kernel_bridge_concurrent.Runner.NoFault.{or_error-none}
use kernel_bridge_concurrent.Targets.Fixtures.{
  Density, core_of, and_then, placed, placed_owners, placed_edges, fixture, plan_of,
}

-- How many of the numbers from `i` on are among the positions.
abbrev pub count_in : List ℕ → ℕ → ℕ → ℕ
count_in positions i zero = 0
count_in positions i (suc n) = (if elem i positions then 1 else 0) + count_in positions (suc i) n

-- The operations of the worker 0, in their order.
abbrev pub of_zero : List Op → List ℕ → List Op
of_zero [] ws = []
of_zero (op ∷ ops) [] = []
of_zero (op ∷ ops) (w ∷ ws) = if w == 0 then op ∷ of_zero ops ws else of_zero ops ws

length-placed_owners :
    (positions : List ℕ) (workers i n : ℕ) → length (placed_owners positions workers i n) ≡ n
unfolding placed_owners
length-placed_owners positions workers i zero = refl
length-placed_owners positions workers i (suc n) =
    ap suc (length-placed_owners positions workers (suc i) n)

placed_owners-below :
    (positions : List ℕ) (workers i n : ℕ)
    → 2 ≤ workers
    → all_below workers (placed_owners positions workers i n) ≡ true
unfolding placed_owners
placed_owners-below positions workers i zero h = refl
placed_owners-below positions workers i (suc n) h =
    let some_other : 0 < workers - 1 = omega arith in
    ground (arith, h, placed_owners-below positions workers (suc i) n h, mod-lt i some_other)

-- What is placed from `i` on: the core, with a filler between, as a valid sequence.
record IsSpread (positions : List ℕ) (workers i n : ℕ) (core ops : List Op) : Type 0 where
  pub is_placed : placed positions i n core ≡ some ops
  pub full : length ops ≡ n
  pub accepted : validate_ops ops ≡ none
  pub on_zero : of_zero ops (placed_owners positions workers i n) ≡ core

validate_ops-cons :
    (op : Op) (ops : List Op)
    → validate_ops (op ∷ ops) ≡ none
    → (validate_op op ≡ none) × (validate_ops ops ≡ none)
unfolding validate_ops
validate_ops-cons op ops h = or_error-none (validate_op op) (validate_ops ops) h

core-IsSpread :
    (positions : List ℕ) (workers i n : ℕ) (op : Op) (core ops : List Op)
    → elem i positions ≡ true
    → validate_op op ≡ none
    → IsSpread positions workers (suc i) n core ops
    → IsSpread positions workers i (suc n) (op ∷ core) (op ∷ ops)
unfolding placed placed_owners validate_ops
core-IsSpread positions workers i n op core ops here ok p = record {
  is_placed = rw here (ap (and_then op) p.is_placed);
  full = ap suc p.full;
  accepted = rw ok p.accepted;
  on_zero = rw here (ap (λ l. op ∷ l) p.on_zero);
}

suc-ne : (n : ℕ) → (1 + n == 0) ≡ false
suc-ne n = ground arith

filler-IsSpread :
    (positions : List ℕ) (workers i n : ℕ) (core ops : List Op)
    → elem i positions ≡ false
    → IsSpread positions workers (suc i) n core ops
    → IsSpread positions workers i (suc n) core (capacity ∷ ops)
unfolding placed placed_owners validate_ops validate_op
filler-IsSpread positions workers i n core ops other p = record {
  is_placed = rw other (ap (and_then capacity) p.is_placed);
  full = ap suc p.full;
  accepted = p.accepted;
  on_zero = rw (other, suc-ne (i % (workers - 1))) p.on_zero;
}

placed-IsSpread :
    (positions : List ℕ) (workers i n : ℕ) (core : List Op)
    → count_in positions i n ≡ length core
    → validate_ops core ≡ none
    → (ops : List Op) × IsSpread positions workers i n core ops
unfolding placed validate_ops
placed-IsSpread positions workers i zero [] counted ok =
    ([], record { is_placed = refl; full = refl; accepted = refl; on_zero = refl })
placed-IsSpread positions workers i zero (op ∷ core) counted ok = absurd (omega arith)
placed-IsSpread positions workers i (suc n) [] counted ok = elim (Bool-cases (elem i positions)) [
  | inl here ↦ absurd (omega (arith, rw here at counted))
  | inr other ↦
      let (ops, p) =
        placed-IsSpread positions workers (suc i) n [] (omega (arith, rw other at counted)) ok in
      (capacity ∷ ops, filler-IsSpread positions workers i n [] ops other p)
]
placed-IsSpread positions workers i (suc n) (op ∷ core) counted ok =
    elim (Bool-cases (elem i positions)) [
      | inl here ↦
          let (head_ok, core_ok) = validate_ops-cons op core ok in
          let (ops, p) =
            placed-IsSpread positions workers (suc i) n core (omega (arith, rw here at counted))
              core_ok in
          (op ∷ ops, core-IsSpread positions workers i n op core ops here head_ok p)
      | inr other ↦
          let (ops, p) =
            placed-IsSpread positions workers (suc i) n (op ∷ core)
              (omega (arith, rw other at counted)) ok in
          (capacity ∷ ops, filler-IsSpread positions workers i n (op ∷ core) ops other p)
    ]

core_of-valid : (fault : Fault) → validate_ops (core_of fault) ≡ none
unfolding validate_ops validate_op validate_text from_hex hex Text-discrete
core_of-valid no_fault = refl
core_of-valid false_eof = refl
core_of-valid wrong_eagain = refl
core_of-valid intermittent_eof = refl
core_of-valid short_write = refl
core_of-valid capacity_corruption = refl
core_of-valid reverse_read = refl
core_of-valid resize_loss = refl
core_of-valid clear_noop = refl

-- A workload of `size` operations that `validate_worker_plan` accepts, whose worker 0 has the core.
pub record IsFixture (fault : Fault) (size workers : ℕ) (w : Workload Op) : Type 0 where
  pub sized_as : length w.operations ≡ size
  pub runs : validate_worker_plan (plan_of w) workers ≡ returns w.worker_ids
  pub core_on_zero : of_zero w.operations w.worker_ids ≡ core_of fault

plan_of-accepted :
    (w : Workload Op) (workers : ℕ)
    → validate_ops w.operations ≡ none
    → between 4 12 (length w.operations) ≡ true
    → between 2 4 workers ≡ true
    → length w.worker_ids ≡ length w.operations
    → all_below workers w.worker_ids ≡ true
    → validate_worker_plan (plan_of w) workers ≡ returns w.worker_ids
unfolding validate_worker_plan validate
plan_of-accepted w workers ok fits few same below =
    let size = length w.operations in
    let not_many : between 1 10000 size ≡ true = ground (arith, fits) in
    let up_to_twelve : between 1 12 size ≡ true = ground (arith, fits) in
    rw (not_many, ok, few, up_to_twelve, (==_iff (length w.worker_ids) size).1 same, below) refl

-- For two to four workers, a size that it accepts, and as many positions below the size as the core
-- of the fault has operations, `fixture` gives a workload of that size that `validate_worker_plan`
-- accepts, in which worker 0 has the operations of the core and no other, in their order.
pub fixture-IsFixture :
    (fault : Fault) (density : Density) (positions : List ℕ) (size workers : ℕ)
    → between 4 12 size ≡ true
    → between 2 4 workers ≡ true
    → count_in positions 0 size ≡ length (core_of fault)
    → (w : Workload Op) × (fixture fault density positions size workers ≡ some w)
      × IsFixture fault size workers w
unfolding fixture
fixture-IsFixture fault density positions size workers fits few counted =
    let (ops, p) =
      placed-IsSpread positions workers 0 size (core_of fault) counted (core_of-valid fault) in
    let w : Workload Op = record {
      operations = ops;
      worker_ids = placed_owners positions workers 0 size;
      workers = workers;
      dependencies = placed_edges density 1 (size - 1);
    } in
    (
      w,
      rw (fits, p.is_placed) refl,
      record {
        sized_as = p.full;
        runs =
            plan_of-accepted w workers p.accepted (ap (between 4 12) p.full ∙ fits) few
              (length-placed_owners positions workers 0 size ∙ sym p.full)
              (placed_owners-below positions workers 0 size (ground (arith, few)));
        core_on_zero = p.on_zero;
      },
    )
