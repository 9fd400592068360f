-- ===== src/Targets/Faults.antt =====
-- Where the controlled faults show.
use kernel_bridge_concurrent.Contract.Hex.{from_hex}
use kernel_bridge_concurrent.Backends.Agrees.{pop_loop_lem}
use kernel_bridge_concurrent.Backends.{ordered, empty_reply, kept}
use mathlib.Core.List.{reverse}
use kernel_bridge_concurrent.Common.{
  ◌≢◌, if-true, if-false, sym, length-take, ◌∙◌, subst, ap, ℕ, ◌≤◌, min, ◌≡◌, refl, inl, inr, Bool,
  true, false, not, ◌&&◌, Option, none, some, List, [], ◌∷◌, arith, ltb, ◌==◌, Bool-cases, length,
}
use mathlib.Core.Option
use mathlib.Core.List.{reverse}
use kernel_bridge_concurrent.Contract.Ops.{success, Op, read, write, resize, clear, capacity, Reply}
use kernel_bridge_concurrent.Backends.{
  ordered, Device, Fault, no_fault, wrong_eagain, short_write, capacity_corruption, clear_noop,
  intermittent_eof, false_eof, reverse_read, resize_loss, apply_locked, write_decoded, write_queue,
  read_queue, resize_queue, pop_loop,
}
use kernel_bridge_concurrent.Targets.{research_locked, is_starved}

-- The operations that a fault may change.
abbrev pub triggers : Fault → Device → Op → Bool
triggers no_fault d op = false
triggers false_eof d (read wanted) = is_starved d wanted
triggers wrong_eagain d (read wanted) = is_starved d wanted
triggers intermittent_eof d (read wanted) = is_starved d wanted
triggers reverse_read d (read wanted) = ltb 1 (min wanted (length d.queue))
triggers resize_loss d (resize requested) = not (length d.queue == 0)
triggers short_write d (write text) = not (length text == 0)
triggers capacity_corruption d capacity = true
triggers clear_noop d clear = not (length d.queue == 0)
triggers f d op = false

-- The same device with another fault.
abbrev pub with_fault : Fault → Device → Device
with_fault f d = record d { fault = f }

abbrev pub retag : Fault → Device × Reply → Device × Reply
retag f (d, r) = (with_fault f d, r)

healthy_read :
    (f : Fault) (d : Device) (wanted : ℕ)
    → ordered f (pop_loop wanted [] d.queue).0 ≡ (pop_loop wanted [] d.queue).0
    → is_starved d wanted ≡ false
    → apply_locked (with_fault f d) (read wanted)
      ≡ Option.map (retag f) (apply_locked (with_fault no_fault d) (read wanted))
unfolding apply_locked read_queue
healthy_read f d wanted same fed = rw (fed, same) refl

-- `write` does not look at the fault.
decoded-retag :
    (f : Fault) (d : Device) (decoded : Option (List ℕ))
    → write_decoded (with_fault f d) decoded
      ≡ Option.map (retag f) (write_decoded (with_fault no_fault d) decoded)
unfolding write_decoded write_queue
decoded-retag f d none = refl
decoded-retag f d (some payload) =
    elim (Bool-cases (not (length payload == 0) && (length d.queue == d.capacity))) [
      | inl full ↦ rw full refl
      | inr room ↦ rw room refl
    ]

resize-retag :
    (f : Fault) (d : Device) (requested : ℕ)
    → kept f d.queue ≡ d.queue
    → resize_queue (with_fault f d) requested
      ≡ retag f (resize_queue (with_fault no_fault d) requested)
unfolding resize_queue
resize-retag f d requested same = ground (arith, same)

empty_of_length : {A : Type 0} (xs : List A) → length xs ≡ 0 → xs ≡ []
empty_of_length [] h = refl
empty_of_length (x ∷ xs) h = absurd (omega (arith, h))

reverse_short : (xs : List ℕ) → length xs ≤ 1 → reverse xs ≡ xs
reverse_short [] h = refl
reverse_short (x ∷ []) h = refl
reverse_short (x ∷ y ∷ xs) h = absurd (omega (arith, h))

read-retag :
    (f : Fault) (d : Device) (wanted : ℕ)
    → empty_reply f ≡ empty_reply no_fault
    → ordered f (pop_loop wanted [] d.queue).0 ≡ (pop_loop wanted [] d.queue).0
    → apply_locked (with_fault f d) (read wanted)
      ≡ Option.map (retag f) (apply_locked (with_fault no_fault d) (read wanted))
unfolding apply_locked read_queue
read-retag f d wanted empty same = elim (Bool-cases (is_starved d wanted)) [
  | inl starved ↦ rw (starved, empty) refl
  | inr fed ↦ rw (fed, same) refl
]

apply_locked-retag :
    (f : Fault) (d : Device) (op : Op)
    → ((wanted : ℕ)
        → op ≡ read wanted
        → apply_locked (with_fault f d) (read wanted)
          ≡ Option.map (retag f) (apply_locked (with_fault no_fault d) (read wanted)))
    → ((requested : ℕ) → op ≡ resize requested → kept f d.queue ≡ d.queue)
    → apply_locked (with_fault f d) op
      ≡ Option.map (retag f) (apply_locked (with_fault no_fault d) op)
unfolding apply_locked
apply_locked-retag f d (read wanted) reads resizes = reads wanted refl
apply_locked-retag f d (write text) reads resizes = decoded-retag f d (from_hex text)
apply_locked-retag f d (resize requested) reads resizes =
    ap some (resize-retag f d requested (resizes requested refl))
apply_locked-retag f d clear reads resizes = refl
apply_locked-retag f d capacity reads resizes = refl

-- A fault that SimulatedDevice does not know.
plain-retag :
    (f : Fault) (d : Device) (op : Op)
    → empty_reply f ≡ empty_reply no_fault
    → ((values : List ℕ) → ordered f values ≡ values)
    → kept f d.queue ≡ d.queue
    → apply_locked (with_fault f d) op
      ≡ Option.map (retag f) (apply_locked (with_fault no_fault d) op)
plain-retag f d op empty same keep =
    apply_locked-retag f d op
      (λ wanted e. read-retag f d wanted empty (same (pop_loop wanted [] d.queue).0))
      (λ requested e. keep)

length-pop_loop :
    (wanted : ℕ) (queue : List ℕ) → length (pop_loop wanted [] queue).0 ≡ min wanted (length queue)
length-pop_loop wanted queue =
    ap (λ (p : List ℕ × List ℕ). length p.0) (pop_loop_lem wanted [] queue)
    ∙ length-take wanted queue

-- A fault shows only on the operations that it is meant for: on any other, the device answers as
-- the simulator without a fault, and goes to the same queue and capacity.
pub research_locked-retag :
    (f : Fault) (d : Device) (op : Op)
    → triggers f d op ≡ false
    → research_locked (with_fault f d) op
      ≡ Option.map (retag f) (apply_locked (with_fault no_fault d) op)
unfolding research_locked apply_locked
research_locked-retag no_fault d op h = plain-retag no_fault d op refl (λ v. refl) refl
research_locked-retag false_eof d op h =
    apply_locked-retag false_eof d op
      (λ wanted e.
        healthy_read false_eof d wanted refl (subst (λ o. triggers false_eof d o ≡ false) e h))
      (λ requested e. refl)
research_locked-retag reverse_read d op h =
    apply_locked-retag reverse_read d op
      (λ wanted e.
        let few = subst (λ o. triggers reverse_read d o ≡ false) e h in
        read-retag reverse_read d wanted refl (
          reverse_short (pop_loop wanted [] d.queue).0
            (ground (arith, length-pop_loop wanted d.queue, few))))
      (λ requested e. refl)
research_locked-retag resize_loss d op h =
    apply_locked-retag resize_loss d op (λ wanted e. read-retag resize_loss d wanted refl refl)
      (λ requested e.
        let none_lost = subst (λ o. triggers resize_loss d o ≡ false) e h in
        sym (empty_of_length d.queue (ground (arith, none_lost))))
research_locked-retag wrong_eagain d (read wanted) h =
    if-false _ h ∙ plain-retag wrong_eagain d (read wanted) refl (λ v. refl) refl
research_locked-retag wrong_eagain d op h = plain-retag wrong_eagain d op refl (λ v. refl) refl
research_locked-retag intermittent_eof d (read wanted) h =
    if-false _ h ∙ plain-retag intermittent_eof d (read wanted) refl (λ v. refl) refl
research_locked-retag intermittent_eof d op h =
    plain-retag intermittent_eof d op refl (λ v. refl) refl
research_locked-retag short_write d (write text) h =
    if-true {b = length text == 0} _ (ground (arith, h))
    ∙ plain-retag short_write d (write text) refl (λ v. refl) refl
research_locked-retag short_write d op h = plain-retag short_write d op refl (λ v. refl) refl
research_locked-retag capacity_corruption d capacity h = cc
research_locked-retag capacity_corruption d op h =
    plain-retag capacity_corruption d op refl (λ v. refl) refl
research_locked-retag clear_noop d clear h =
    ap (λ q. some (record { capacity = d.capacity; queue = q; fault = clear_noop }, success 0))
      (empty_of_length d.queue (ground (arith, h)))
research_locked-retag clear_noop d op h = plain-retag clear_noop d op refl (λ v. refl) refl

-- The faults that nothing can hide, where they strike.
abbrev pub is_certain : Fault → Bool
is_certain false_eof = true
is_certain wrong_eagain = true
is_certain intermittent_eof = true
is_certain capacity_corruption = true
is_certain clear_noop = true
is_certain f = false

-- Such a fault always changes the reply or the queue of an operation that it strikes.
pub research_locked-ne :
    (f : Fault) (d : Device) (op : Op)
    → is_certain f ≡ true
    → triggers f d op ≡ true
    → research_locked (with_fault f d) op
      ≢ Option.map (retag f) (apply_locked (with_fault no_fault d) op)
unfolding research_locked apply_locked read_queue
research_locked-ne false_eof d (read wanted) c h e = ground (arith, rw h at e)
research_locked-ne wrong_eagain d (read wanted) c h e = ground (arith, rw h at e)
research_locked-ne intermittent_eof d (read wanted) c h e = ground (arith, rw h at e)
research_locked-ne clear_noop d clear c h e = ground (arith, e, h)
research_locked-ne capacity_corruption d capacity c h e = ground (arith, e)
research_locked-ne f d op c h e = cc
