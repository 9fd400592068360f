-- ===== src/Tests/Devices.antt =====
-- The reference model and the simulated device.
use kernel_bridge_concurrent.Common.{◌≡◌, refl, some, List, [], ◌∷◌, ◌++◌, arith}
use mathlib.Core.Option
use kernel_bridge_concurrent.Contract.Ops.{Op, read, write, Reply, success, success_data}
use kernel_bridge_concurrent.Contract.Hex.{from_hex, hex}
use kernel_bridge_concurrent.Contract.Hex.Laws.{from_hex-hex}
use kernel_bridge_concurrent.Contract.Model.{Model, apply, write_bytes, read_bytes}
use kernel_bridge_concurrent.Contract.Model.Bounds.{IsValid, apply-IsValid}
use kernel_bridge_concurrent.Contract.Model.Fifo.{Runs, here, next, received, sent, received-sent}
use kernel_bridge_concurrent.Backends.{apply_locked}
use kernel_bridge_concurrent.Backends.Agrees.{simulate, lifted, apply_locked-eq-apply}

-- Five bytes in a buffer of capacity 256.
abbrev some_bytes : Model
some_bytes = record { capacity = 256; bytes = 1 ∷ 2 ∷ 3 ∷ 4 ∷ 5 ∷ [] }

abbrev after_read : Model
after_read = record { capacity = 256; bytes = 4 ∷ 5 ∷ [] }

abbrev after_write : Model
after_write = record { capacity = 256; bytes = 4 ∷ 5 ∷ 10 ∷ 11 ∷ [] }

abbrev script : List Op
script = read 3 ∷ write (48 ∷ 97 ∷ 48 ∷ 98 ∷ []) ∷ []

abbrev replies : List Reply
replies = success_data 3 (1 ∷ 2 ∷ 3 ∷ []) ∷ success 2 ∷ []

apply-read : apply some_bytes (read 3) ≡ some (after_read, success_data 3 (1 ∷ 2 ∷ 3 ∷ []))
unfolding apply read_bytes hex
apply-read = refl

apply-write : apply after_read (write (48 ∷ 97 ∷ 48 ∷ 98 ∷ [])) ≡ some (after_write, success 2)
unfolding apply write_bytes from_hex
apply-write = refl

script-Runs : Runs some_bytes script replies after_write
script-Runs = next apply-read (next apply-write here)

from_hex-hex_example : from_hex (hex (65 ∷ 255 ∷ [])) ≡ some (65 ∷ 255 ∷ [])
from_hex-hex_example = from_hex-hex (65 ∷ 255 ∷ []) (omega arith)

apply-IsValid_example : IsValid after_read
apply-IsValid_example = apply-IsValid some_bytes (read 3) apply-read (omega arith)

received-sent_example :
    received script replies ++ after_write.bytes ≡ some_bytes.bytes ++ sent script replies
received-sent_example = received-sent script-Runs (omega arith) tt

apply_locked-eq-apply_example :
    apply_locked (simulate some_bytes) (read 3) ≡ Option.map lifted (apply some_bytes (read 3))
apply_locked-eq-apply_example = apply_locked-eq-apply some_bytes (read 3) (omega arith)
