-- ===== src/Targets/Fifo.antt =====
-- The class FIFOAdapter of lab/research_targets.py, on the simulator. A trial runs threads, so
-- `execute` is a relation.
use kernel_bridge_concurrent.Common.{
  leb, ◌&&◌, ℕ, ◌≡◌, ◌≢◌, refl, sym, ap, ◌∙◌, Bool, true, false, not, ◌||◌, Option, none, some,
  List, [], ◌∷◌,
}
use kernel_bridge_concurrent.Backends.{
  Device, Fault, no_fault, wrong_eagain, short_write, capacity_corruption, clear_noop,
  intermittent_eof, false_eof, reverse_read, resize_loss, apply_locked,
}
use kernel_bridge_concurrent.Backends.Agrees.{model}
use kernel_bridge_concurrent.Contract.Ops.{Op}
use kernel_bridge_concurrent.History.Check.{pass, fail, inconclusive, raises}
use kernel_bridge_concurrent.Dradd.Trials.{
  Trial, Status, failed, passed, environment_failed, unknown,
}
use kernel_bridge_concurrent.Runner.{Target}
use kernel_bridge_concurrent.Concurrency.{Plan}
use kernel_bridge_concurrent.Concurrency.Threads.Backward.{IsAtomic}
use kernel_bridge_concurrent.Concurrency.Evaluation.{
  execution_error, invalid_capture, Outcome, refuses, unusable, judged, Evaluates,
}
use kernel_bridge_concurrent.Concurrency.Evaluation.Alarms.{
  IsNoAlarm, Evaluates-IsNoAlarm, IsSimulated, simulated-IsAtomic,
}
use kernel_bridge_concurrent.Targets.{active_fault, research_device, research_locked}

abbrev pub is_intermittent : Fault → Bool
is_intermittent intermittent_eof = true
is_intermittent no_fault = false
is_intermittent wrong_eagain = false
is_intermittent short_write = false
is_intermittent capacity_corruption = false
is_intermittent clear_noop = false
is_intermittent false_eof = false
is_intermittent reverse_read = false
is_intermittent resize_loss = false

-- `active`, where `below` is whether the random number of the trial is below the probability.
abbrev pub is_active : Fault → Bool → Bool
is_active fault below = not (is_intermittent fault) || below

-- The checks of `__init__`: `fair` is whether the probability is between 0 and 1.
abbrev pub is_no_fault : Fault → Bool
is_no_fault no_fault = true
is_no_fault wrong_eagain = false
is_no_fault short_write = false
is_no_fault capacity_corruption = false
is_no_fault clear_noop = false
is_no_fault intermittent_eof = false
is_no_fault false_eof = false
is_no_fault reverse_read = false
is_no_fault resize_loss = false

abbrev pub configured : Fault → Bool → ℕ → Bool → Bool → Bool
configured fault fair delay_us device exclusive =
    fair && leb delay_us 10000 && (not device || exclusive && is_no_fault fault)

-- The factory without a device.
abbrev pub researched : Fault → Bool → Target Device
researched fault active = record {
  enter = λ limit. some (research_device limit fault active);
  perform = research_locked;
  leave = λ d. true;
}

-- "FIFO:NO_LEGAL_ORDER"
abbrev pub no_order_text : List ℕ
no_order_text =
    70 ∷ 73 ∷ 70 ∷ 79 ∷ 58 ∷ 78 ∷ 79 ∷ 95 ∷ 76 ∷ 69 ∷ 71 ∷ 65 ∷ 76 ∷ 95 ∷ 79 ∷ 82 ∷ 68 ∷ 69 ∷ 82
    ∷ []

abbrev pub of_status : Status → Option Trial
of_status s = some (record { status = s; signature = none })

-- The status and the signature that `execute` makes of a result; `none` is an exception.
abbrev pub classified : Outcome → Option Trial
classified (refuses e) = none
classified (unusable execution_error h) = of_status environment_failed
classified (unusable invalid_capture h) = of_status unknown
classified (judged (pass order k) h) = of_status passed
classified (judged (fail k) h) = some (record { status = failed; signature = some no_order_text })
classified (judged (inconclusive reason k) h) = of_status unknown
classified (judged (raises e) h) = none

pub data Executes (fault : Fault) (plan : Plan) (workers budget : ℕ) (below : Bool)
    : Option Trial → Type 0 where
  executed :
      (out : Outcome)
      → Evaluates (researched fault (is_active fault below)) plan workers budget out
      → Executes fault plan workers budget below (classified out)

-- The trial is not one of a failure.
abbrev pub IsQuiet : Option Trial → Type 0
IsQuiet none = Unit
IsQuiet (some t) = t.status ≢ failed

classified-IsQuiet : (out : Outcome) → IsNoAlarm out → IsQuiet (classified out)
classified-IsQuiet (refuses e) h = tt
classified-IsQuiet (unusable execution_error l) h = λ e. cc
classified-IsQuiet (unusable invalid_capture l) h = λ e. cc
classified-IsQuiet (judged (pass order k) l) h = λ e. cc
classified-IsQuiet (judged (fail k) l) h = absurd h
classified-IsQuiet (judged (inconclusive reason k) l) h = λ e. cc
classified-IsQuiet (judged (raises e) l) h = tt

research_locked-healthy :
    (d : Device) (op : Op) → d.fault ≡ no_fault → research_locked d op ≡ apply_locked d op
unfolding research_locked
research_locked-healthy d op h = rw h refl

researched-IsAtomic :
    (fault : Fault) (active : Bool)
    → active_fault fault active ≡ no_fault
    → IsAtomic (researched fault active) model IsSimulated
researched-IsAtomic fault active off = record {
  entered = λ limit d e.
      simulated-IsAtomic.entered limit d
        (ap (λ f. some (record { capacity = limit; queue = []; fault = f })) (sym off) ∙ e);
  performed = λ d op d' r s e.
      simulated-IsAtomic.performed d op d' r s (sym (research_locked-healthy d op s.healthy) ∙ e);
}

-- A trial of the adapter whose fault is none, or is the intermittent one and stays off, is never
-- one of a failure, however its threads take turns.
pub Executes-IsQuiet :
    (fault : Fault) (plan : Plan) (workers budget : ℕ) (below : Bool) {t : Option Trial}
    → active_fault fault (is_active fault below) ≡ no_fault
    → Executes fault plan workers budget below t
    → IsQuiet t
Executes-IsQuiet fault plan workers budget below off (executed out run) = classified-IsQuiet out (
    Evaluates-IsNoAlarm (researched fault (is_active fault below)) model IsSimulated plan workers
      budget (researched-IsAtomic fault (is_active fault below) off) run)
