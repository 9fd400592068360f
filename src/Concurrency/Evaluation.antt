-- ===== src/Concurrency/Evaluation.antt =====
-- `evaluate_concurrent` of lab/concurrency.py. How its threads take turns is not determined, so it
-- is a relation between its arguments and its outcomes.
pub mod Alarms
use kernel_bridge_concurrent.Common.{
  ℕ, zero, suc, ◌+◌, ◌-◌, ◌*◌, ◌/◌, ◌%◌, ◌^◌, ◌≤◌, ◌<◌, min, max, ◌≡◌, refl, sym, ap, ◌∙◌, subst,
  ◌≢◌, ◌↔◌, ◌⊎◌, inl, inr, ite, if_pos, if_neg, Bool, true, false, not, ◌&&◌, ◌||◌, Option, none,
  some, List, [], ◌∷◌, ◌++◌, map, append-nil, append_assoc, arith, ltb, leb, ◌==◌, if◌then◌else◌,
  between, Bool-cases, Option-cases, length, take, drop, get_or, set, get_elem?, ℤ, pos, negsuc,
}
use kernel_bridge_concurrent.History.Events.{Event}
use kernel_bridge_concurrent.History.Check.{
  Verdict, pass, fail, inconclusive, raises, check_history,
}
use kernel_bridge_concurrent.Runner.{Target}
use kernel_bridge_concurrent.Concurrency.{Plan, PlanError, Checked, rejects, returns, prepare}
use kernel_bridge_concurrent.Concurrency.Threads.{Thread, ready, threads_from, System, Reaches}

pub data FailureClass : Type 0 where
  execution_error invalid_capture : FailureClass

-- A ValueError that is raised, a result that is inconclusive, or the result of the check.
pub data Outcome : Type 0 where
  refuses : PlanError → Outcome
  unusable : FailureClass → List Event → Outcome
  judged : Verdict → List Event → Outcome

-- The result of `check_history`, or what it raises.
abbrev pub interpreted : List Event → Verdict → Outcome
interpreted h (raises e) = unusable invalid_capture h
interpreted h (pass order k) = judged (pass order k) h
interpreted h (fail k) = judged (fail k) h
interpreted h (inconclusive reason k) = judged (inconclusive reason k) h

-- The threads have come to the end of their loops.
abbrev pub IsOver : List Thread → Type 0
IsOver [] = Unit
IsOver (th ∷ pool) = (th.phase ≡ ready) × (th.todo ≡ []) × IsOver pool

abbrev pub begin : {D : Type 0} → Plan → ℕ → List ℕ → ℕ → D → System D
begin plan workers owners clock d = record {
  clock = clock;
  device = d;
  history = [];
  pool = threads_from 0 workers owners plan.scenario.operations;
}

module _ {D : Type 0} (target : Target D) (plan : Plan) (workers budget : ℕ) where
  pub data Evaluates : Outcome → Type 0 where
    refused : (e : PlanError) → prepare plan workers budget ≡ rejects e → Evaluates (refuses e)
    unopened :
        (owners : List ℕ)
        → prepare plan workers budget ≡ returns owners
        → target.enter plan.scenario.capacity ≡ none
        → Evaluates (unusable execution_error [])
    -- The barrier breaks where a worker does not come within its five seconds; no worker has called
    -- the device then.
    timed_out :
        (owners : List ℕ) (d : D)
        → prepare plan workers budget ≡ returns owners
        → target.enter plan.scenario.capacity ≡ some d
        → Evaluates (unusable execution_error [])
    unclosed :
        (owners : List ℕ) (clock : ℕ) (d : D) (end : System D)
        → prepare plan workers budget ≡ returns owners
        → target.enter plan.scenario.capacity ≡ some d
        → Reaches target (begin plan workers owners clock d) end
        → IsOver end.pool
        → target.leave end.device ≡ false
        → Evaluates (unusable execution_error end.history)
    captured :
        (owners : List ℕ) (clock : ℕ) (d : D) (end : System D)
        → prepare plan workers budget ≡ returns owners
        → target.enter plan.scenario.capacity ≡ some d
        → Reaches target (begin plan workers owners clock d) end
        → IsOver end.pool
        → target.leave end.device ≡ true
        → Evaluates (
            interpreted end.history (
              check_history plan.scenario.capacity end.history
                (length plan.scenario.operations)
                budget))
