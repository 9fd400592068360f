-- ===== src/History/Search/Sound.antt =====
-- An order that the search returns is a linearization.
use mathlib.Core.HLevel.{⊥_prop}
use mathlib.Core.Logic.{∥∥₁_elim}
use mathlib.Core.List.{Perm, mem-cons_of_mem}
use mathlib.Core.List.Perm
use kernel_bridge_concurrent.Common.{
  get_elem?, subst, length-set, Bool-cases, ap, sym, ◌∙◌, ℕ, zero, suc, ◌≡◌, List, [], ◌∷◌, ◌++◌,
  some, Bool, true, false, get_or, set, inl, inr, length, map, append-nil, append_assoc,
}
use kernel_bridge_concurrent.Contract.Ops.{Reply}
use kernel_bridge_concurrent.Contract.Model.{Model, apply}
use kernel_bridge_concurrent.History.Events.{Event}
use kernel_bridge_concurrent.History.Search.{Step, Candidate, blocked, complete, found, search}
use kernel_bridge_concurrent.History.Search.Spec.{done, step, IsLinearization}
use kernel_bridge_concurrent.History.Search.Remaining.{
  remaining, remaining-complete, remaining-set-perm,
}
use kernel_bridge_concurrent.History.Search.Candidates.{IsAt, Covers, not_blocked}
use kernel_bridge_concurrent.History.Search.Steps.{
  found-injective, search-complete, search-zero, search-suc, found≢absent, found≢exhausted,
  found≢invalid, some_answers, IsTaken-of_answer,
}

module _ (history : List Event) where
  -- The events of an order, with the indexes that the search reports.
  pub record Explains (mask : List Bool) (m : Model) (order answer : List ℕ) : Type 0 where
    pub events : List Event
    pub linear : IsLinearization m (remaining mask history) events
    pub reported : answer ≡ order ++ map (λ e. e.index) events

  Explains-complete :
      (mask : List Bool) (m : Model) (order : List ℕ)
      → length mask ≡ length history
      → complete mask ≡ true
      → Explains mask m order order
  Explains-complete mask m order h c = record {
    events = [];
    linear = record {
      perm = subst (λ es. Perm [] es) (sym (remaining-complete mask history h c)) Perm.rfl;
      respects = tt;
      replays = done;
    };
    reported = sym (append-nil order);
  }

  Explains-taken :
      (mask : List Bool) (m : Model) (order answer : List ℕ) (c : Candidate) (i : ℕ) {m' : Model}
      {r : Reply}
      → length mask ≡ length history
      → IsAt history c i
      → get_or mask c.position false ≡ false
      → blocked c.row mask ≡ false
      → apply m c.event.operation ≡ some (m', r)
      → c.event.actual ≡ some r
      → Explains (set mask c.position true) m' (order ++ c.event.index ∷ []) answer
      → Explains mask m order answer
  Explains-taken mask m order answer c i h at free first applied actual below =
      let out : Perm (c.event ∷ remaining (set mask c.position true) history)
          (remaining mask history) =
        remaining-set-perm mask history c.position h
          (subst (λ k. get_elem? history k ≡ some c.event) (sym at.position) at.event) free in
      record {
        events = c.event ∷ below.events;
        linear = record {
          perm = Perm.trans (Perm.cons c.event below.linear.perm) out;
          respects = (
            λ q m before.
                ∥∥₁_elim
                  ((Perm.mem_iff out).0
                    (mem-cons_of_mem c.event ((Perm.mem_iff below.linear.perm).0 m)))
                  ⊥_prop (λ left. not_blocked history mask c h at first q left before),
            below.linear.respects,
          );
          replays = step applied actual below.linear.replays;
        };
        reported =
            below.reported
            ∙ append_assoc order (c.event.index ∷ []) (map (λ e. e.index) below.events);
      }

  module _ (budget : ℕ) (cs : List Candidate) (covers : Covers history cs) where
    pub search-Explains :
        (fuel : ℕ) (mask : List Bool) (m : Model) (order : List ℕ) (explored : ℕ) {answer : List ℕ}
        {after : ℕ}
        → length mask ≡ length history
        → search budget cs fuel mask m order explored ≡ (found answer, after)
        → Explains mask m order answer
    search-Explains zero mask m order explored h e = elim (Bool-cases (complete mask)) [
      | inl all ↦
          subst (Explains mask m order)
            (found-injective (sym (search-complete budget cs zero mask m order explored all) ∙ e))
            (Explains-complete mask m order h all)
      | inr left ↦
          cc (ap (λ (s : Step). s.0) (sym (search-zero budget cs mask m order explored left) ∙ e))
    ]
    search-Explains (suc fuel) mask m order explored {answer} h e =
        elim (Bool-cases (complete mask)) [
          | inl all ↦
              subst (Explains mask m order)
                (found-injective
                  (sym (search-complete budget cs (suc fuel) mask m order explored all) ∙ e))
                (Explains-complete mask m order h all)
          | inr left ↦
              let (c, mem, before, answers) =
                some_answers budget (search budget cs fuel) mask m order explored cs
                  (found≢absent answer)
                  (sym (search-suc budget cs fuel mask m order explored left) ∙ e) in
              let taken =
                IsTaken-of_answer budget (search budget cs fuel) mask m order c before
                  (found≢absent answer) (found≢exhausted answer) (found≢invalid answer) answers in
              let (i, at) = covers.each c mem in
              Explains-taken mask m order answer c i h at taken.free taken.first taken.applied
                taken.actual
                (search-Explains fuel (set mask c.position true) taken.model
                  (order ++ c.event.index ∷ []) (suc before) (length-set mask c.position true ∙ h)
                  taken.below)
        ]
