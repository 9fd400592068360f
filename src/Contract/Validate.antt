-- ===== src/Contract/Validate.antt =====
-- `validate` of lab/contract.py, from the point on where a scenario's fields have their types.
use kernel_bridge_concurrent.Common.{
  ℕ, ◌*◌, ◌^◌, ite, not, Option, none, some, List, [], ◌∷◌, ltb, leb, ◌==◌, if◌then◌else◌, between,
  length,
}
use kernel_bridge_concurrent.Contract.Hex.{hex, from_hex}
use kernel_bridge_concurrent.Contract.Ops.{
  Op, read, write, resize, clear, capacity, min_capacity, max_capacity, max_operations,
  max_transfer, Text-discrete,
}

pub record Scenario : Type 0 where
  pub version : ℕ
  pub capacity : ℕ
  pub operations : List Op

-- The messages of the ValueErrors.
pub data Invalid : Type 0 where
  bad_version bad_capacity bad_operation_count : Invalid
  bad_read_count bad_resize_capacity long_write invalid_hex noncanonical_hex : Invalid

unfoldable pub validate_text : List ℕ → Option (List ℕ) → Option Invalid
validate_text text none = some invalid_hex
validate_text text (some decoded) =
    ite (Text-discrete (hex decoded) text) none (some noncanonical_hex)

-- The checks of one operation; `none` is that it passes.
unfoldable pub validate_op : Op → Option Invalid
unfolding validate_text
validate_op (read count) = if leb count max_transfer then none else some bad_read_count
validate_op (resize requested) = if ltb requested (2 ^ 64) then none else some bad_resize_capacity
validate_op (write text) =
    if ltb (max_transfer * 2) (length text)
    then some long_write
    else validate_text text (from_hex text)
validate_op clear = none
validate_op capacity = none

-- The first error counts.
abbrev pub or_error : Option Invalid → Option Invalid → Option Invalid
or_error none other = other
or_error (some e) other = some e

unfoldable pub validate_ops : List Op → Option Invalid
validate_ops [] = none
validate_ops (op ∷ ops) = or_error (validate_op op) (validate_ops ops)

unfoldable pub validate : Scenario → Option Invalid
validate s =
    if not (s.version == 1)
    then some bad_version
    else if not (between min_capacity max_capacity s.capacity)
    then some bad_capacity
    else if not (between 1 max_operations (length s.operations))
    then some bad_operation_count
    else validate_ops s.operations
