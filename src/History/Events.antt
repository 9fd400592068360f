-- ===== src/History/Events.antt =====
-- The events of a recorded history, and the real-time and program order between them: the first
-- loops of `check_history` in lab/history.py.
use kernel_bridge_concurrent.Common.{
  ℕ, suc, Option, none, some, List, [], ◌∷◌, ◌<◌, ◌⊎◌, ◌≡◌, Bool, false, ◌&&◌, ◌||◌, ltb, ◌==◌,
  if◌then◌else◌,
}
use kernel_bridge_concurrent.Contract.Ops.{Op, Reply}

-- `actual` is absent where the worker recorded an error in its place.
pub record Event : Type 0 where
  pub index : ℕ
  pub worker : ℕ
  pub sequence : ℕ
  pub started : ℕ
  pub finished : ℕ
  pub operation : Op
  pub actual : Option Reply

-- `other` comes before `event` in the program order of their worker.
abbrev pub same_worker_before : Event → Event → Bool
same_worker_before other event = other.worker == event.worker && ltb other.sequence event.sequence

-- The bit of `other` in the predecessors of `event`.
abbrev pub precedes : Event → Event → Bool
precedes other event = ltb other.finished event.started || same_worker_before other event

-- The same, as a statement about the recorded times and sequence numbers.
abbrev pub Precedes : Event → Event → Type 0
Precedes other event =
    (other.finished < event.started)
    ⊎ (other.worker ≡ event.worker) × (other.sequence < event.sequence)

unfoldable pub push_bit : ℕ → Event → ℕ → Event → Option (List Bool) → Option (List Bool)
push_bit i event j other none = none
push_bit i event j other (some bits) =
    if i == j
    then some (false ∷ bits)
    else if same_worker_before other event && ltb event.started other.finished
    then none
    else some (precedes other event ∷ bits)

-- The bits of one event, at position `i`, against the events from position `j` on; `none` is the
-- ValueError for overlapping or reversed calls within one worker.
unfoldable pub predecessor_bits : ℕ → Event → ℕ → List Event → Option (List Bool)
unfolding push_bit
predecessor_bits i event j [] = some []
predecessor_bits i event j (other ∷ rest) =
    push_bit i event j other (predecessor_bits i event (suc j) rest)

unfoldable pub push_row : Option (List Bool) → Option (List (List Bool)) → Option (List (List Bool))
push_row (some row) (some rows) = some (row ∷ rows)
push_row (some row) none = none
push_row none rows = none

-- `predecessors`, for the events from position `i` on. A mask is the list of its bits, the lowest
-- first.
unfoldable pub predecessors_from : List Event → ℕ → List Event → Option (List (List Bool))
unfolding predecessor_bits push_row
predecessors_from history i [] = some []
predecessors_from history i (event ∷ rest) =
    push_row (predecessor_bits i event 0 history) (predecessors_from history (suc i) rest)

unfoldable pub predecessors : List Event → Option (List (List Bool))
unfolding predecessors_from
predecessors history = predecessors_from history 0 history
