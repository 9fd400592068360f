-- ===== src/Tests/Faulty.antt =====
-- Controlled faults on a queue of two bytes and on an empty one.
use kernel_bridge_concurrent.Common.{◌≡◌, refl, ◌≢◌, [], ◌∷◌}
use mathlib.Core.Option
use kernel_bridge_concurrent.Contract.Ops.{read}
use kernel_bridge_concurrent.Backends.{Device, no_fault, wrong_eagain, apply_locked}
use kernel_bridge_concurrent.Targets.{research_locked}
use kernel_bridge_concurrent.Targets.Faults.{
  with_fault, retag, research_locked-retag, research_locked-ne,
}

abbrev filled : Device
filled = record { capacity = 256; queue = 7 ∷ 8 ∷ []; fault = no_fault }

abbrev drained : Device
drained = record { capacity = 256; queue = []; fault = no_fault }

research_locked-retag_example :
    research_locked (with_fault wrong_eagain filled) (read 1)
    ≡ Option.map (retag wrong_eagain) (apply_locked (with_fault no_fault filled) (read 1))
research_locked-retag_example = research_locked-retag wrong_eagain filled (read 1) refl

research_locked-ne_example :
    research_locked (with_fault wrong_eagain drained) (read 1)
    ≢ Option.map (retag wrong_eagain) (apply_locked (with_fault no_fault drained) (read 1))
research_locked-ne_example = research_locked-ne wrong_eagain drained (read 1) refl refl
