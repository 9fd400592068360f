-- ===== src/Backends.antt =====
-- lab/backends.py: the class SimulatedDevice.
pub mod Agrees
pub mod Linux
use kernel_bridge_concurrent.Common.{
  ℕ, zero, suc, ◌+◌, Option, none, some, List, [], ◌∷◌, ◌++◌, Bool, true, false, not, ◌&&◌, ◌||◌,
  length, ltb, ◌==◌, if◌then◌else◌,
}
use mathlib.Core.List.{reverse}
use kernel_bridge_concurrent.Contract.Hex.{from_hex}
use kernel_bridge_concurrent.Contract.Ops.{
  Op, read, write, resize, clear, capacity, Reply, success, success_data, failure, eagain, einval,
  emsgsize,
}

-- The names of `FAULTS` in lab/research_targets.py. SimulatedDevice itself tells the first four
-- apart, and treats any other as `no_fault`.
pub data Fault : Type 0 where
  no_fault false_eof reverse_read resize_loss : Fault
  wrong_eagain short_write capacity_corruption clear_noop intermittent_eof : Fault

-- The lock is not a field: `apply` holds it for the whole of `_apply_locked`, so a call is one step.
pub record Device : Type 0 where
  pub capacity : ℕ
  pub queue : List ℕ
  pub fault : Fault

abbrev pub create : ℕ → Fault → Device
create limit fault = record { capacity = limit; queue = []; fault = fault }

-- `for value in payload`: the queue, and the number transferred.
unfoldable pub append_loop : ℕ → List ℕ → ℕ → List ℕ → List ℕ × ℕ
append_loop limit queue done [] = (queue, done)
append_loop limit queue done (v ∷ vs) = elim (length queue == limit) [
  | true ↦ (queue, done)
  | false ↦ append_loop limit (queue ++ v ∷ []) (done + 1) vs
]

-- `for _ in range(count)`: the values popped, and the queue left.
unfoldable pub pop_loop : ℕ → List ℕ → List ℕ → List ℕ × List ℕ
pop_loop zero values queue = (values, queue)
pop_loop (suc n) values [] = (values, [])
pop_loop (suc n) values (v ∷ queue) = pop_loop n (values ++ v ∷ []) queue

unfoldable pub write_queue : Device → List ℕ → Device × Reply
write_queue d payload =
    if not (length payload == 0) && (length d.queue == d.capacity)
    then (d, failure eagain)
    else let (queue, done) = append_loop d.capacity d.queue 0 payload in
      (record d { queue = queue }, success done)

-- `values.reverse()` under the fault.
abbrev pub ordered : Fault → List ℕ → List ℕ
ordered reverse_read values = reverse values
ordered _ values = values

-- The reply to a read of an empty queue.
abbrev pub empty_reply : Fault → Reply
empty_reply false_eof = success_data 0 []
empty_reply _ = failure eagain

unfoldable pub read_queue : Device → ℕ → Device × Reply
read_queue d wanted =
    if not (wanted == 0) && (length d.queue == 0)
    then (d, empty_reply d.fault)
    else let (values, queue) = pop_loop wanted [] d.queue in
      let shown = ordered d.fault values in
      (record d { queue = queue }, success_data (length shown) shown)

-- `queue.clear()` under the fault.
abbrev pub kept : Fault → List ℕ → List ℕ
kept resize_loss queue = []
kept _ queue = queue

unfoldable pub resize_queue : Device → ℕ → Device × Reply
resize_queue d requested =
    if ltb requested 256 || ltb 65536 requested
    then (d, failure einval)
    else if ltb requested (length d.queue)
    then (d, failure emsgsize)
    else (record d { capacity = requested; queue = kept d.fault d.queue }, success 0)

unfoldable pub write_decoded : Device → Option (List ℕ) → Option (Device × Reply)
write_decoded d none = none
write_decoded d (some payload) = some (write_queue d payload)

-- `none` is the ValueError of `bytes.fromhex`.
unfoldable pub apply_locked : Device → Op → Option (Device × Reply)
unfolding write_decoded
apply_locked d (write text) = write_decoded d (from_hex text)
apply_locked d (read wanted) = some (read_queue d wanted)
apply_locked d (resize requested) = some (resize_queue d requested)
apply_locked d clear = some (record d { queue = [] }, success 0)
apply_locked d capacity = some (d, success d.capacity)
