-- ===== src/History/Search/Candidates.antt =====
-- The candidates of a history: one for each event, with its position and its predecessors.
use mathlib.Core.List.{Memᴰ}
use kernel_bridge_concurrent.Common.{
  ◌≤◌, subst, Bool-cases, ℕ, ◌≡◌, List, some, Bool, true, false, map, arith, length, get_elem?, inl,
  inr, ◌↔◌,
}
use kernel_bridge_concurrent.History.Events.{Event, precedes, Precedes}
use kernel_bridge_concurrent.History.Search.{Candidate, blocked}
use kernel_bridge_concurrent.History.Search.Remaining.{remaining, blocked_of_mem, mem_of_blocked}

-- The test is the order between the recorded times and sequence numbers.
pub precedes_iff : (q e : Event) → (precedes q e ≡ true) ↔ Precedes q e
precedes_iff q e = ground arith

module _ (history : List Event) where
  -- The candidate stands for the event at position `i`.
  pub record IsAt (c : Candidate) (i : ℕ) : Type 0 where
    pub position : c.position ≡ i
    pub event : get_elem? history i ≡ some c.event
    pub timely : c.event.started ≤ c.event.finished
    pub row : c.row ≡ map (λ q. precedes q c.event) history

  -- The candidates stand for the events of the history, in its order.
  pub record Covers (cs : List Candidate) : Type 0 where
    pub each : (c : Candidate) → Memᴰ c cs → (i : ℕ) × IsAt c i
    pub all :
        (i : ℕ) (e : Event) → get_elem? history i ≡ some e → (c : Candidate) × Memᴰ c cs × IsAt c i

  pub not_blocked :
      (mask : List Bool) (c : Candidate) {i : ℕ}
      → length mask ≡ length history
      → IsAt c i
      → blocked c.row mask ≡ false
      → (q : Event) → Memᴰ q (remaining mask history)
      → ¬ Precedes q c.event
  not_blocked mask c h a free q m before =
      let hit =
        blocked_of_mem (λ e. precedes e c.event) mask history h m
          ((precedes_iff q c.event).1 before) in
      cc (hit, subst (λ row. blocked row mask ≡ false) a.row free)

  pub free_of_first :
      (mask : List Bool) (c : Candidate) {i : ℕ}
      → length mask ≡ length history
      → IsAt c i
      → ((q : Event) → Memᴰ q (remaining mask history) → ¬ Precedes q c.event)
      → blocked c.row mask ≡ false
  free_of_first mask c h a first = elim (Bool-cases (blocked c.row mask)) [
    | inl hit ↦
        let (q, m, before) =
          mem_of_blocked (λ e. precedes e c.event) mask history h
            (subst (λ row. blocked row mask ≡ true) a.row hit) in
        absurd (first q m ((precedes_iff q c.event).0 before))
    | inr free ↦ free
  ]
