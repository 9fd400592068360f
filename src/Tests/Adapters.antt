-- ===== src/Tests/Adapters.antt =====
-- The adapters of the research targets, and their fixtures.
use kernel_bridge_concurrent.Common.{◌≡◌, ◌↔◌, refl, true, false, some, List, [], ◌∷◌}
use kernel_bridge_concurrent.Contract.Hex.{from_hex}
use kernel_bridge_concurrent.Contract.Ops.{Op, read, success, failure, eagain}
use kernel_bridge_concurrent.Backends.{
  intermittent_eof, resize_loss, apply_locked, write_queue, read_queue, append_loop,
}
use kernel_bridge_concurrent.Concurrency.Evaluation.{interpreted, Evaluates, captured}
use kernel_bridge_concurrent.History.Check.{check_history}
use kernel_bridge_concurrent.Dradd.Workload.{Workload}
use kernel_bridge_concurrent.Targets.{research_locked}
use kernel_bridge_concurrent.Targets.Fifo.{
  researched, classified, executed, IsQuiet, Executes-IsQuiet,
}
use kernel_bridge_concurrent.Targets.Fixtures.{sparse, fixture}
use kernel_bridge_concurrent.Targets.Fixtures.Accepted.{IsFixture, fixture-IsFixture}
use kernel_bridge_concurrent.Targets.Register.{
  RegisterOp, put, delete, get, noop, empty_register, run_register,
}
use kernel_bridge_concurrent.Targets.Register.Deleted.{IsStale}
use kernel_bridge_concurrent.Targets.Register.Stale.{mismatch_iff_IsStale}
use kernel_bridge_concurrent.Tests.Interleavings.{
  one_byte, plan, empty_device, filled_device, history, last, plan_run, prepare-plan,
}

research_locked-writing : research_locked empty_device one_byte ≡ some (filled_device, success 1)
unfolding research_locked apply_locked write_queue append_loop from_hex
research_locked-writing = refl

research_locked-reading :
    research_locked empty_device (read 1) ≡ some (empty_device, failure eagain)
unfolding research_locked apply_locked read_queue
research_locked-reading = refl

inactive-Evaluates :
    Evaluates
      (researched intermittent_eof false)
      plan
      2
      1000
      (interpreted history (check_history 256 history 2 1000))
inactive-Evaluates =
    captured (0 ∷ 1 ∷ []) 7 empty_device last prepare-plan refl
      (plan_run (researched intermittent_eof false) research_locked-writing research_locked-reading)
      (refl, refl, (refl, refl, tt)) refl

Executes-IsQuiet_example :
    IsQuiet (classified (interpreted history (check_history 256 history 2 1000)))
Executes-IsQuiet_example =
    Executes-IsQuiet intermittent_eof plan 2 1000 false refl (executed _ inactive-Evaluates)

abbrev deleted_read : List RegisterOp
deleted_read = noop ∷ put ∷ delete ∷ get ∷ []

mismatch_iff_IsStale_example :
    ((run_register deleted_read empty_register).mismatch ≡ true) ↔ IsStale deleted_read
mismatch_iff_IsStale_example = mismatch_iff_IsStale deleted_read

fixture-IsFixture_example :
    (w : Workload Op) × (fixture resize_loss sparse (1 ∷ 4 ∷ 6 ∷ []) 8 2 ≡ some w)
    × IsFixture resize_loss 8 2 w
fixture-IsFixture_example = fixture-IsFixture resize_loss sparse (1 ∷ 4 ∷ 6 ∷ []) 8 2 refl refl refl
