-- ===== src/Targets.antt =====
-- The class ResearchDevice of lab/research_targets.py: the simulator with the controlled faults.
pub mod Faults
pub mod Fifo
pub mod Fixtures
pub mod Register
use kernel_bridge_concurrent.Common.{
  ℕ, zero, suc, ◌+◌, ◌-◌, ◌*◌, ◌/◌, ◌%◌, ◌^◌, ◌≤◌, ◌<◌, min, max, ◌≡◌, refl, sym, ap, ◌∙◌, subst,
  ◌≢◌, ◌↔◌, ◌⊎◌, inl, inr, ite, if_pos, if_neg, Bool, true, false, not, ◌&&◌, ◌||◌, Option, none,
  some, List, [], ◌∷◌, ◌++◌, map, append-nil, append_assoc, arith, ltb, leb, ◌==◌, if◌then◌else◌,
  between, Bool-cases, Option-cases, length, take, drop, get_or, set, get_elem?, ℤ, pos, negsuc,
}
use kernel_bridge_concurrent.Contract.Ops.{
  Op, read, write, resize, clear, capacity, Reply, success, success_data, failure, einval,
}
use kernel_bridge_concurrent.Backends.{
  Device, Fault, no_fault, wrong_eagain, short_write, capacity_corruption, clear_noop,
  intermittent_eof, false_eof, reverse_read, resize_loss, apply_locked,
}

-- `__init__`: the fault counts only where the device is active.
abbrev pub active_fault : Fault → Bool → Fault
active_fault fault true = fault
active_fault fault false = no_fault

abbrev pub research_device : ℕ → Fault → Bool → Device
research_device limit fault active = record {
  capacity = limit;
  queue = [];
  fault = active_fault fault active;
}

-- A read of at least one byte finds the queue empty.
abbrev pub is_starved : Device → ℕ → Bool
is_starved d wanted = not (wanted == 0) && (length d.queue == 0)

abbrev pub wrong_eagain_locked : Device → Op → Option (Device × Reply)
wrong_eagain_locked d (read wanted) =
    if is_starved d wanted then some (d, failure einval) else apply_locked d (read wanted)
wrong_eagain_locked d op = apply_locked d op

-- `op["data"][:-2]`
abbrev pub short_write_locked : Device → Op → Option (Device × Reply)
short_write_locked d (write text) =
    if length text == 0
    then apply_locked d (write text)
    else apply_locked d (write (take (length text - 2) text))
short_write_locked d op = apply_locked d op

abbrev pub capacity_corruption_locked : Device → Op → Option (Device × Reply)
capacity_corruption_locked d capacity = some (d, success (d.capacity + 1))
capacity_corruption_locked d op = apply_locked d op

abbrev pub clear_noop_locked : Device → Op → Option (Device × Reply)
clear_noop_locked d clear = some (d, success 0)
clear_noop_locked d op = apply_locked d op

abbrev pub intermittent_eof_locked : Device → Op → Option (Device × Reply)
intermittent_eof_locked d (read wanted) =
    if is_starved d wanted then some (d, success_data 0 []) else apply_locked d (read wanted)
intermittent_eof_locked d op = apply_locked d op

abbrev pub under : Fault → Device → Op → Option (Device × Reply)
under wrong_eagain d op = wrong_eagain_locked d op
under short_write d op = short_write_locked d op
under capacity_corruption d op = capacity_corruption_locked d op
under clear_noop d op = clear_noop_locked d op
under intermittent_eof d op = intermittent_eof_locked d op
under no_fault d op = apply_locked d op
under false_eof d op = apply_locked d op
under reverse_read d op = apply_locked d op
under resize_loss d op = apply_locked d op

unfoldable pub research_locked : Device → Op → Option (Device × Reply)
research_locked d op = under d.fault d op
