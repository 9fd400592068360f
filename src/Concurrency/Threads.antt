-- ===== src/Concurrency/Threads.antt =====
-- The workers of `evaluate_concurrent` as threads that take turns. A step is what nothing can
-- interrupt: a reading of the clock, a call of the device, which answers at one moment between its
-- start and its end, an entry in the history. The lock of the device makes a call of it one step and
-- `history_lock` makes an entry one. The barrier at the start only rules out some orders of the
-- steps: all orders are allowed here, those with a barrier among them, and its timeout is an
-- exception, after which nothing is checked.
pub mod Flights
pub mod Sequences
pub mod Traces
pub mod Backward
pub mod Runs
use kernel_bridge_concurrent.Common.{
  ℕ, zero, suc, ◌≤◌, ◌≡◌, Option, none, some, List, [], ◌∷◌, ◌++◌, ◌==◌, if◌then◌else◌,
}
use kernel_bridge_concurrent.Contract.Ops.{Op, Reply}
use kernel_bridge_concurrent.History.Events.{Event}
use kernel_bridge_concurrent.Runner.{Target}

-- An index into the operations, with the operation there.
pub record Call : Type 0 where
  pub index : ℕ
  pub operation : Op

-- Where a worker stands in the body of its loop, with the values that it holds there; the reply is
-- `none` where the call has raised an exception.
pub data Phase : Type 0 where
  ready : Phase
  called : ℕ → Phase
  returned : ℕ → Option Reply → Phase
  stamped : ℕ → Option Reply → ℕ → Phase

-- `todo` starts with the call that is under way; `sequence` counts those that are over.
pub record Thread : Type 0 where
  pub worker : ℕ
  pub sequence : ℕ
  pub todo : List Call
  pub phase : Phase

-- The event of the call that is under way.
abbrev pub event_of : Thread → Call → ℕ → Option Reply → ℕ → Event
event_of th c started actual finished = record {
  index = c.index;
  worker = th.worker;
  sequence = th.sequence;
  started = started;
  finished = finished;
  operation = c.operation;
  actual = actual;
}

-- `if "error" in event: break`
abbrev pub after_event : Option Reply → List Call → List Call
after_event none rest = []
after_event (some r) rest = rest

-- [(i, op) for i, owner in enumerate(assignments) if owner == worker_id]
abbrev pub calls_of : ℕ → ℕ → List ℕ → List Op → List Call
calls_of worker i [] ops = []
calls_of worker i (w ∷ owners) [] = []
calls_of worker i (w ∷ owners) (op ∷ ops) =
    let rest = calls_of worker (suc i) owners ops in
    if w == worker then record { index = i; operation = op } ∷ rest else rest

-- The workers from the one numbered `worker` on, as they are submitted.
abbrev pub threads_from : ℕ → ℕ → List ℕ → List Op → List Thread
threads_from worker zero owners ops = []
threads_from worker (suc n) owners ops =
    record { worker = worker; sequence = 0; todo = calls_of worker 0 owners ops; phase = ready }
    ∷ threads_from (suc worker) n owners ops

pub record System (D : Type 0) : Type 0 where
  pub clock : ℕ
  pub device : D
  pub history : List Event
  pub pool : List Thread

module _ {D : Type 0} (target : Target D) where
  -- A call that raises may leave the device in any state.
  -- One step of one thread at a time of the clock: the device, the history and the thread before,
  -- and after.
  pub data Move (clock : ℕ) (d : D) (h : List Event) (th : Thread)
      : D → List Event → Thread → Type 0 where
    invoke :
        (c : Call) (rest : List Call)
        → th.todo ≡ c ∷ rest
        → th.phase ≡ ready
        → Move clock d h th d h (record th { phase = called clock })
    answer :
        (c : Call) (rest : List Call) (started : ℕ) (r : Reply) {d' : D}
        → th.todo ≡ c ∷ rest
        → th.phase ≡ called started
        → target.perform d c.operation ≡ some (d', r)
        → Move clock d h th d' h (record th { phase = returned started (some r) })
    raise :
        (c : Call) (rest : List Call) (started : ℕ) {d' : D}
        → th.todo ≡ c ∷ rest
        → th.phase ≡ called started
        → target.perform d c.operation ≡ none
        → Move clock d h th d' h (record th { phase = returned started none })
    stamp :
        (started : ℕ) (actual : Option Reply)
        → th.phase ≡ returned started actual
        → Move clock d h th d h (record th { phase = stamped started actual clock })
    publish :
        (c : Call) (rest : List Call) (started finished : ℕ) (actual : Option Reply)
        → th.todo ≡ c ∷ rest
        → th.phase ≡ stamped started actual finished
        → Move clock d h th d (h ++ event_of th c started actual finished ∷ []) (record {
          worker = th.worker;
          sequence = suc th.sequence;
          todo = after_event actual rest;
          phase = ready;
        })

  -- One step of the system: the clock goes on, or one of the threads moves.
  pub data Step (s : System D) : System D → Type 0 where
    tick : (later : ℕ) → s.clock ≤ later → Step s (record s { clock = later })
    move :
        (before after : List Thread) (th : Thread) {d : D} {h : List Event} {th' : Thread}
        → s.pool ≡ before ++ th ∷ after
        → Move s.clock s.device s.history th d h th'
        → Step s (record { clock = s.clock; device = d; history = h; pool = before ++ th' ∷ after })

  pub data Reaches : System D → System D → Type 0 where
    here : {s : System D} → Reaches s s
    next : {s t u : System D} → Step s t → Reaches t u → Reaches s u
