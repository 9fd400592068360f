-- ===== src/Contract/Model.antt =====
-- The class ReferenceModel of lab/contract.py.
pub mod Bounds
pub mod Fifo
use kernel_bridge_concurrent.Common.{
  ℕ, ◌-◌, min, Option, none, some, List, [], ◌++◌, Bool, true, false, not, ◌&&◌, length, take, drop,
  ltb, leb, between, ◌==◌, if◌then◌else◌,
}
use kernel_bridge_concurrent.Contract.Hex.{from_hex}
use kernel_bridge_concurrent.Contract.Ops.{
  Op, read, write, resize, clear, capacity, Reply, success, success_data, failure, eagain, einval,
  emsgsize, min_capacity, max_capacity,
}

pub record Model : Type 0 where
  pub capacity : ℕ
  pub bytes : List ℕ

abbrev pub create : ℕ → Model
create limit = record { capacity = limit; bytes = [] }

-- The bytes fit the capacity in every model that `create` and `apply` build, so the difference
-- `capacity - len(data)` of the source is never negative.
unfoldable pub write_bytes : Model → List ℕ → Model × Reply
write_bytes m payload =
    let count = min (length payload) (m.capacity - length m.bytes) in
    if not (length payload == 0) && (count == 0)
    then (m, failure eagain)
    else (record m { bytes = m.bytes ++ take count payload }, success count)

unfoldable pub read_bytes : Model → ℕ → Model × Reply
read_bytes m wanted =
    let count = min wanted (length m.bytes) in
    if not (wanted == 0) && (count == 0)
    then (m, failure eagain)
    else (record m { bytes = drop count m.bytes }, success_data count (take count m.bytes))

unfoldable pub resize_to : Model → ℕ → Model × Reply
resize_to m requested =
    if not (between min_capacity max_capacity requested)
    then (m, failure einval)
    else if ltb requested (length m.bytes)
    then (m, failure emsgsize)
    else (record m { capacity = requested }, success 0)

unfoldable pub write_payload : Model → Option (List ℕ) → Option (Model × Reply)
write_payload m none = none
write_payload m (some payload) = some (write_bytes m payload)

-- `none` is the ValueError of `bytes.fromhex`.
unfoldable pub apply : Model → Op → Option (Model × Reply)
unfolding write_payload
apply m (write text) = write_payload m (from_hex text)
apply m (read wanted) = some (read_bytes m wanted)
apply m (resize requested) = some (resize_to m requested)
apply m clear = some (record m { bytes = [] }, success 0)
apply m capacity = some (m, success m.capacity)
