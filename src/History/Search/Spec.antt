-- ===== src/History/Search/Spec.antt =====
-- What the search looks for: an order of the recorded calls that the sequential model explains and
-- that respects the observed real time.
use mathlib.Core.List.{Mem, Perm}
use kernel_bridge_concurrent.Common.{◌≡◌, List, [], ◌∷◌, some}
use kernel_bridge_concurrent.Contract.Ops.{Reply}
use kernel_bridge_concurrent.Contract.Model.{Model, apply}
use kernel_bridge_concurrent.History.Events.{Event, Precedes}

-- No event stands behind one that it precedes.
abbrev pub Respects : List Event → Type 0
Respects [] = Unit
Respects (e ∷ es) = ((q : Event) → Mem q es → ¬ Precedes q e) × Respects es

-- Run one after the other from `m`, the operations give the recorded replies.
pub data Replays : Model → List Event → Type 0 where
  done : {m : Model} → Replays m []
  step :
      {m m' : Model} {e : Event} {r : Reply} {es : List Event}
      → apply m e.operation ≡ some (m', r)
      → e.actual ≡ some r
      → Replays m' es
      → Replays m (e ∷ es)

-- `order` is a legal sequential explanation of `events` from the model `m`.
pub record IsLinearization (m : Model) (events order : List Event) : Type 0 where
  pub perm : Perm order events
  pub respects : Respects order
  pub replays : Replays m order
