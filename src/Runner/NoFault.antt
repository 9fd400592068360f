-- ===== src/Runner/NoFault.antt =====
-- `evaluate` on the simulator, as `main` of lab/runner.py sets it up.
use kernel_bridge_concurrent.Common.{
  ℕ, suc, ◌≡◌, refl, sym, ap, ◌∙◌, subst, ◌≢◌, true, Option, none, some, List, [], ◌∷◌, map, arith,
}
use mathlib.Core.Option
use kernel_bridge_concurrent.Contract.Hex.{from_hex}
use kernel_bridge_concurrent.Contract.Ops.{Op, read, write, resize, clear, capacity, Reply}
use kernel_bridge_concurrent.Contract.Model.{Model, create, apply, write_payload}
use kernel_bridge_concurrent.Contract.Model.Bounds.{IsValid, apply-IsValid}
use kernel_bridge_concurrent.Contract.Validate.{
  Scenario, Invalid, validate, validate_op, validate_ops, validate_text, or_error,
}
use kernel_bridge_concurrent.Backends.{Fault, no_fault, Device, apply_locked}
use kernel_bridge_concurrent.Backends.Agrees.{simulate, lifted, apply_locked-eq-apply}
use kernel_bridge_concurrent.Runner.{
  Target, Entry, passes, Evaluation, differing, judged, run, validated, evaluate,
}
use kernel_bridge_concurrent.Runner.Replies.{differing_self}

-- The factory of the simulator with a fault; its `__exit__` does nothing.
abbrev pub simulated : Fault → Target Device
simulated f = record {
  enter = λ limit. some (record { capacity = limit; queue = []; fault = f });
  perform = apply_locked;
  leave = λ d. true;
}

validate_text-ne : (text : List ℕ) → validate_text text none ≢ none
unfolding validate_text
validate_text-ne text h = cc

validate_op-write :
    (text : List ℕ) → validate_op (write text) ≡ none → validate_text text (from_hex text) ≡ none
unfolding validate_op
validate_op-write text h = ground arith

write_payload-total :
    (m : Model) (text : List ℕ) (o : Option (List ℕ))
    → validate_text text o ≡ none
    → (m' : Model) × (r : Reply) × (write_payload m o ≡ some (m', r))
unfolding write_payload
write_payload-total m text none h = absurd (validate_text-ne text h)
write_payload-total m text (some payload) h = (_, _, refl)

-- An operation that `validate` accepts is one that the model answers.
apply-total :
    (m : Model) (op : Op)
    → validate_op op ≡ none
    → (m' : Model) × (r : Reply) × (apply m op ≡ some (m', r))
unfolding apply
apply-total m (write text) h = write_payload-total m text (from_hex text) (validate_op-write text h)
apply-total m (read wanted) h = (_, _, refl)
apply-total m (resize requested) h = (_, _, refl)
apply-total m clear h = (_, _, refl)
apply-total m capacity h = (_, _, refl)

pub or_error-none : (a b : Option Invalid) → or_error a b ≡ none → (a ≡ none) × (b ≡ none)
or_error-none none b h = (refl, h)
or_error-none (some e) b h = cc

abbrev pub operation_of : Entry → Op
operation_of e = e.operation

-- An evaluation that passes and records all of the operations.
pub record IsComplete (ops : List Op) (ev : Evaluation) : Type 0 where
  pub passed_all : ev.status ≡ passes
  pub recorded_all : map operation_of ev.history ≡ ops

judged-IsComplete :
    (index : ℕ) (op : Op) (ops : List Op) (r : Reply) (d : Device) (rest : Evaluation)
    → IsComplete ops rest
    → IsComplete (op ∷ ops) (judged (simulated no_fault) index op r r d (differing r r) rest)
judged-IsComplete index op ops r d rest c =
    subst (λ fs. IsComplete (op ∷ ops) (judged (simulated no_fault) index op r r d fs rest))
      (sym (differing_self r))
      (record { passed_all = c.passed_all; recorded_all = ap (λ os. op ∷ os) c.recorded_all })

run-IsComplete :
    (index : ℕ) (ops : List Op) (m : Model)
    → IsValid m
    → validate_ops ops ≡ none
    → IsComplete ops (run (simulated no_fault) index ops m (simulate m))
unfolding run validate_ops
run-IsComplete index [] m fits h = record { passed_all = refl; recorded_all = refl }
run-IsComplete index (op ∷ ops) m fits h =
    let (ok, others) = or_error-none (validate_op op) (validate_ops ops) h in
    let (m', r, step) = apply-total m op ok in
    let answer = apply_locked-eq-apply m op fits ∙ ap (Option.map lifted) step in
    rw (step, answer)
      (judged-IsComplete index op ops r (simulate m')
        (run (simulated no_fault) (suc index) ops m' (simulate m'))
        (run-IsComplete (suc index) ops m' (apply-IsValid m op step fits) others))

validate-validate_ops : (s : Scenario) → validate s ≡ none → validate_ops s.operations ≡ none
unfolding validate
validate-validate_ops s h = ground arith

-- A scenario that `validate` accepts passes on the simulator without a fault, to its last
-- operation: the check raises no false alarm.
pub simulated-IsComplete :
    (s : Scenario)
    → validate s ≡ none
    → (ev : Evaluation) × (evaluate (simulated no_fault) s ≡ some ev) × IsComplete s.operations ev
unfolding evaluate
simulated-IsComplete s ok = (
  run (simulated no_fault) 0 s.operations (create s.capacity) (simulate (create s.capacity)),
  ap (validated (simulated no_fault) s) ok,
  run-IsComplete 0 s.operations (create s.capacity) (omega arith) (validate-validate_ops s ok),
)
