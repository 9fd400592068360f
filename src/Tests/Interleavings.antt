-- ===== src/Tests/Interleavings.antt =====
-- Two workers of which one reads before the other's write is answered.
use kernel_bridge_concurrent.Concurrency.Plans.{validate_worker_plan-round_robin}
use kernel_bridge_concurrent.Common.{◌%◌, get_elem?, ◌<◌, length, ℕ, refl}
use kernel_bridge_concurrent.History.Events.{Event}
use kernel_bridge_concurrent.Concurrency.Threads.{ready}
use kernel_bridge_concurrent.Common.{◌≡◌, refl, none, some, List, [], ◌∷◌, arith}
use kernel_bridge_concurrent.Contract.Ops.{Op, read, write, success, failure, eagain, Text-discrete}
use kernel_bridge_concurrent.Contract.Hex.{from_hex, hex}
use kernel_bridge_concurrent.Contract.Validate.{validate, validate_ops, validate_op, validate_text}
use kernel_bridge_concurrent.Backends.{
  Device, no_fault, apply_locked, write_queue, read_queue, append_loop,
}
use kernel_bridge_concurrent.Backends.Agrees.{model}
use kernel_bridge_concurrent.History.Check.{check_history}
use kernel_bridge_concurrent.Runner.{Target}
use kernel_bridge_concurrent.Runner.NoFault.{simulated}
use kernel_bridge_concurrent.Concurrency.{Plan, prepare, validate_worker_plan, returns}
use kernel_bridge_concurrent.Concurrency.Threads.{
  Call, System, Reaches, here, next, move, tick, invoke, answer, stamp, publish,
}
use kernel_bridge_concurrent.Concurrency.Evaluation.{interpreted, Evaluates, captured, begin}
use kernel_bridge_concurrent.Concurrency.Evaluation.Alarms.{
  IsNoAlarm, Evaluates-IsNoAlarm, simulated-IsAtomic, IsSimulated,
}

abbrev pub one_byte : Op
one_byte = write (48 ∷ 97 ∷ [])

abbrev pub plan : Plan
plan = record {
  scenario = record { version = 1; capacity = 256; operations = one_byte ∷ read 1 ∷ [] };
  worker_ids = none;
  jitter = 0;
}

abbrev pub empty_device : Device
empty_device = record { capacity = 256; queue = []; fault = no_fault }

abbrev pub filled_device : Device
filled_device = record { capacity = 256; queue = 10 ∷ []; fault = no_fault }

abbrev writing : Call
writing = record { index = 0; operation = one_byte }

abbrev reading : Call
reading = record { index = 1; operation = read 1 }

apply_locked-writing : apply_locked empty_device one_byte ≡ some (filled_device, success 1)
unfolding apply_locked write_queue append_loop from_hex
apply_locked-writing = refl

apply_locked-reading : apply_locked empty_device (read 1) ≡ some (empty_device, failure eagain)
unfolding apply_locked read_queue
apply_locked-reading = refl

pub prepare-plan : prepare plan 2 1000 ≡ returns (0 ∷ 1 ∷ [])
unfolding prepare validate_worker_plan validate validate_ops validate_op validate_text from_hex hex
    Text-discrete
prepare-plan = refl

abbrev pub history : List Event
history =
    record {
      index = 1;
      worker = 1;
      sequence = 0;
      started = 7;
      finished = 9;
      operation = read 1;
      actual = some (failure eagain);
    }
    ∷ record {
      index = 0;
      worker = 0;
      sequence = 0;
      started = 7;
      finished = 9;
      operation = one_byte;
      actual = some (success 1);
    }
    ∷ []

abbrev pub last : System Device
last = record {
  clock = 9;
  device = filled_device;
  history = history;
  pool =
      record { worker = 0; sequence = 1; todo = []; phase = ready }
      ∷ record { worker = 1; sequence = 1; todo = []; phase = ready }
      ∷ [];
}

-- The run on a backend that answers these two calls as the simulator does.
pub plan_run :
    (target : Target Device)
    → target.perform empty_device one_byte ≡ some (filled_device, success 1)
    → target.perform empty_device (read 1) ≡ some (empty_device, failure eagain)
    → Reaches target (begin plan 2 (0 ∷ 1 ∷ []) 7 empty_device) last
plan_run target wrote found = next (move [] _ _ refl (invoke writing [] refl refl)) (
    next (move (_ ∷ []) [] _ refl (invoke reading [] refl refl)) (
      next (move (_ ∷ []) [] _ refl (answer reading [] 7 _ refl refl found)) (
        next (move [] _ _ refl (answer writing [] 7 _ refl refl wrote)) (
          next (tick 9 (omega arith)) (
            next (move [] _ _ refl (stamp 7 _ refl)) (
              next (move (_ ∷ []) [] _ refl (stamp 7 _ refl)) (
                next (move (_ ∷ []) [] _ refl (publish reading [] 7 9 _ refl refl))
                  (next (move [] _ _ refl (publish writing [] 7 9 _ refl refl)) here))))))))

plan-Reaches : Reaches (simulated no_fault) (begin plan 2 (0 ∷ 1 ∷ []) 7 empty_device) last
plan-Reaches = plan_run (simulated no_fault) apply_locked-writing apply_locked-reading

plan-Evaluates :
    Evaluates
      (simulated no_fault)
      plan
      2
      1000
      (interpreted history (check_history 256 history 2 1000))
plan-Evaluates =
    captured (0 ∷ 1 ∷ []) 7 empty_device last prepare-plan refl plan-Reaches
      (refl, refl, (refl, refl, tt)) refl

Evaluates-IsNoAlarm_example : IsNoAlarm (interpreted history (check_history 256 history 2 1000))
Evaluates-IsNoAlarm_example =
    Evaluates-IsNoAlarm (simulated no_fault) model IsSimulated plan 2 1000 simulated-IsAtomic
      plan-Evaluates

validate_worker_plan-plan : validate_worker_plan plan 2 ≡ returns (0 ∷ 1 ∷ [])
unfolding validate_worker_plan validate validate_ops validate_op validate_text from_hex hex
    Text-discrete
validate_worker_plan-plan = refl

validate-plan : validate plan.scenario ≡ none
unfolding validate validate_ops validate_op validate_text from_hex hex Text-discrete
validate-plan = refl

validate_worker_plan-round_robin_example :
    (found : List ℕ) × (validate_worker_plan plan 4 ≡ returns found)
    × (length found ≡ 2)
    × ((i : ℕ) → i < 2 → get_elem? found i ≡ some (i % 4))
validate_worker_plan-round_robin_example =
    validate_worker_plan-round_robin plan 4 validate-plan refl refl refl
