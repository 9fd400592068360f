-- ===== src/Backends/Agrees.antt =====
-- The simulator without a fault against the reference model, which is written another way.
use kernel_bridge_concurrent.Common.{
  take-min-length, refl, some, none, Option, drop-min, take-min, ℕ, zero, suc, ◌+◌, ◌-◌, min, ◌≡◌,
  ap, ◌∙◌, sym, List, [], ◌∷◌, ◌++◌, append-nil, append_assoc, length, take, drop, arith,
  length-take, length-append,
}
use kernel_bridge_concurrent.Contract.Ops.{Op, read, write, resize, clear, capacity, Reply}
use kernel_bridge_concurrent.Contract.Model.{
  write_payload, Model, write_bytes, read_bytes, resize_to, apply,
}
use mathlib.Core.Option
use kernel_bridge_concurrent.Contract.Hex.{from_hex}
use kernel_bridge_concurrent.Contract.Model.Bounds.{IsValid}
use kernel_bridge_concurrent.Backends.{
  write_decoded, apply_locked, Device, no_fault, append_loop, pop_loop, write_queue, read_queue,
  resize_queue,
}

-- The reference model that holds the same bytes.
abbrev pub model : Device → Model
model d = record { capacity = d.capacity; bytes = d.queue }

-- A reference model as a simulator without a fault.
abbrev pub simulate : Model → Device
simulate m = record { capacity = m.capacity; queue = m.bytes; fault = no_fault }

append_loop_lem :
    (limit : ℕ) (queue : List ℕ) (done room : ℕ) (payload : List ℕ)
    → limit ≡ length queue + room
    → append_loop limit queue done payload
      ≡ (queue ++ take room payload, done + min (length payload) room)
unfolding append_loop
append_loop_lem limit queue done zero [] h = ground (arith, append-nil queue)
append_loop_lem limit queue done (suc room) [] h = ground (arith, append-nil queue)
append_loop_lem limit queue done zero (v ∷ vs) h = ground (arith, append-nil queue)
append_loop_lem limit queue done (suc room) (v ∷ vs) h = ground (
  arith,
  append_loop_lem limit (queue ++ v ∷ []) (done + 1) room vs,
  length-append queue (v ∷ []),
  append_assoc queue (v ∷ []) (take room vs),
)

pub pop_loop_lem :
    (wanted : ℕ) (values queue : List ℕ)
    → pop_loop wanted values queue ≡ (values ++ take wanted queue, drop wanted queue)
unfolding pop_loop
pop_loop_lem zero values queue = ap (λ l. (l, queue)) (sym (append-nil values))
pop_loop_lem (suc n) values [] = ap (λ l. (l, [])) (sym (append-nil values))
pop_loop_lem (suc n) values (v ∷ queue) =
    pop_loop_lem n (values ++ v ∷ []) queue
    ∙ ap (λ l. (l, drop n queue)) (append_assoc values (v ∷ []) (take n queue))

abbrev pub lifted : Model × Reply → Device × Reply
lifted (m, r) = (simulate m, r)

write_agrees :
    (m : Model) (payload : List ℕ)
    → IsValid m
    → write_queue (simulate m) payload ≡ lifted (write_bytes m payload)
unfolding write_queue write_bytes
write_agrees m payload h =
    let room = m.capacity - length m.bytes in
    ground (
      arith,
      append_loop_lem m.capacity m.bytes 0 room payload,
      take-min-length room payload,
      append-nil m.bytes,
    )

read_agrees :
    (m : Model) (wanted : ℕ) → read_queue (simulate m) wanted ≡ lifted (read_bytes m wanted)
unfolding read_queue read_bytes
read_agrees m wanted = ground (
  arith,
  pop_loop_lem wanted [] m.bytes,
  take-min wanted m.bytes,
  drop-min wanted m.bytes,
  length-take wanted m.bytes,
)

resize_agrees :
    (m : Model) (requested : ℕ)
    → resize_queue (simulate m) requested ≡ lifted (resize_to m requested)
unfolding resize_queue resize_to
resize_agrees m requested = ground arith

decoded_agrees :
    (m : Model) (decoded : Option (List ℕ))
    → IsValid m
    → write_decoded (simulate m) decoded ≡ Option.map lifted (write_payload m decoded)
unfolding write_decoded write_payload
decoded_agrees m none h = refl
decoded_agrees m (some payload) h = ap some (write_agrees m payload h)

-- On every operation, errors included, the simulator without a fault gives the reply of the
-- reference model and goes to the same state.
pub apply_locked-eq-apply :
    (m : Model) (op : Op)
    → IsValid m
    → apply_locked (simulate m) op ≡ Option.map lifted (apply m op)
unfolding apply_locked apply
apply_locked-eq-apply m (write text) h = decoded_agrees m (from_hex text) h
apply_locked-eq-apply m (read wanted) h = ap some (read_agrees m wanted)
apply_locked-eq-apply m (resize requested) h = ap some (resize_agrees m requested)
apply_locked-eq-apply m clear h = refl
apply_locked-eq-apply m capacity h = refl
