-- ===== src/Contract/Model/Bounds.antt =====
-- The bytes of a model fit its capacity.
use kernel_bridge_concurrent.Common.{
  Option, List, ℕ, ◌-◌, ◌≤◌, min, ◌≡◌, none, some, length, take, length-append, length-take,
  length-drop, arith,
}
use kernel_bridge_concurrent.Contract.Ops.{Op, read, write, resize, clear, capacity, Reply}
use kernel_bridge_concurrent.Contract.Model.{
  from_hex, Model, write_payload, write_bytes, read_bytes, resize_to, apply,
}

abbrev pub IsValid : Model → Type 0
IsValid m = length m.bytes ≤ m.capacity

write_bytes-IsValid : (m : Model) (payload : List ℕ) → IsValid m → IsValid (write_bytes m payload).0
unfolding write_bytes
write_bytes-IsValid m payload h = ground (
  arith,
  length-append m.bytes (take (min (length payload) (m.capacity - length m.bytes)) payload),
  length-take (min (length payload) (m.capacity - length m.bytes)) payload,
)

read_bytes-IsValid : (m : Model) (wanted : ℕ) → IsValid m → IsValid (read_bytes m wanted).0
unfolding read_bytes
read_bytes-IsValid m wanted h = ground (arith, length-drop (min wanted (length m.bytes)) m.bytes)

resize_to-IsValid : (m : Model) (requested : ℕ) → IsValid m → IsValid (resize_to m requested).0
unfolding resize_to
resize_to-IsValid m requested h = ground arith

write_payload-IsValid :
    (m : Model) (decoded : Option (List ℕ)) {m' : Model} {r : Reply}
    → write_payload m decoded ≡ some (m', r)
    → IsValid m
    → IsValid m'
unfolding write_payload
write_payload-IsValid m none e h = cc
write_payload-IsValid m (some payload) e h = ground (arith, write_bytes-IsValid m payload h)

-- Every operation keeps the bytes within the capacity.
pub apply-IsValid :
    (m : Model) (op : Op) {m' : Model} {r : Reply}
    → apply m op ≡ some (m', r)
    → IsValid m
    → IsValid m'
unfolding apply
apply-IsValid m (write text) e h = write_payload-IsValid m (from_hex text) e h
apply-IsValid m (read wanted) e h = ground (arith, read_bytes-IsValid m wanted h)
apply-IsValid m (resize requested) e h = ground (arith, resize_to-IsValid m requested h)
apply-IsValid m clear e h = ground arith
apply-IsValid m capacity e h = ground arith
