-- ===== src/Concurrency/Threads/Backward.antt =====
-- A run of the threads against a device that answers as the reference model: from its end back to
-- its start, the order of the answers explains the history.
use mathlib.Core.HLevel.{⊥_prop}
use mathlib.Core.Logic.{∥∥₁_elim}
use kernel_bridge_concurrent.Common.{
  ℕ, suc, ◌≤◌, ◌≡◌, refl, sym, ap, ◌∙◌, subst, ◌≢◌, inl, inr, none, some, List, [], ◌∷◌, ◌++◌,
  append_assoc, arith,
}
use mathlib.Core.List.{Mem, Memᴰ, Perm, perm_middle}
use mathlib.Core.List.Memᴰ
use mathlib.Core.List.Perm
use kernel_bridge_concurrent.Contract.Ops.{Op, Reply}
use kernel_bridge_concurrent.Contract.Model.{Model, create, apply}
use kernel_bridge_concurrent.History.Events.{Event, Precedes}
use kernel_bridge_concurrent.History.Search.Spec.{Respects, Replays, step}
use kernel_bridge_concurrent.Runner.{Target}
use kernel_bridge_concurrent.Concurrency.Threads.{Thread}
use kernel_bridge_concurrent.Concurrency.Threads.Flights.{Part, Completes, Around, Completes-join}
use kernel_bridge_concurrent.Concurrency.Threads.Sequences.{
  low, AtLeast, Fresh, Fresh-set, Fresh-answer, Fresh-at, Distinct, Begun, Begun-at,
}
use kernel_bridge_concurrent.Concurrency.Threads.Traces.{
  Traced, quiet, answering, publishing, failing,
}

-- A backend that answers each call at one moment, as the reference model does, while its state is
-- one that fits. It may still raise an exception.
pub record IsAtomic {D : Type 0} (target : Target D) (model : D → Model) (Fits : D → Type 0)
    : Type 0 where
  pub entered :
      (limit : ℕ) (d : D) → target.enter limit ≡ some d → Fits d × (model d ≡ create limit)
  pub performed :
      (d : D) (op : Op) (d' : D) (r : Reply)
      → Fits d
      → target.perform d op ≡ some (d', r)
      → Fits d' × (apply (model d) op ≡ some (model d', r))

answer-perm :
    (e : Event) (h left right order : List Event)
    → Perm (h ++ ((left ++ (e ∷ right)) ++ order)) (h ++ ((left ++ right) ++ (e ∷ order)))
answer-perm e h left right order = Perm.append_left h (
    Perm.trans (Perm.append_right order (perm_middle left right))
      (Perm.symm (perm_middle (left ++ right) order)))

publish-perm :
    (e : Event) (h left right order : List Event)
    → Perm ((h ++ e ∷ []) ++ ((left ++ right) ++ order)) (h ++ ((left ++ (e ∷ right)) ++ order))
publish-perm e h left right order =
    subst (λ l. Perm l (h ++ ((left ++ (e ∷ right)) ++ order)))
      (sym (append_assoc h (e ∷ []) ((left ++ right) ++ order)))
      (Perm.append_left h (Perm.append_right order (Perm.symm (perm_middle left right))))

module _ {D : Type 0} (target : Target D) (model : D → Model) (Fits : D → Type 0)
    (atomic : IsAtomic target model Fits) (end : List Event)
    (answered : (q : Event) → Mem q end → q.actual ≢ none) where
  -- The history at the end is what is published already, the calls under way and the calls that the
  -- device has still to answer, in the order of its answers, which the reference model gives too if
  -- the device fits now.
  pub record Explained (clock : ℕ) (d : D) (h : List Event) (pool : List Thread) : Type 0 where
    pub flights : List Event
    pub order : List Event
    pub completes : Completes clock pool flights
    pub perm : Perm end (h ++ (flights ++ order))
    pub replays : Fits d → Replays (model d) order
    pub respects : Respects order
    pub later : (q : Event) → Memᴰ q order → clock ≤ q.finished
    pub fresh : Fresh pool order

  -- Nothing that the device answers later comes before what it answers now.
  first-Respects :
      (clock : ℕ) (e : Event) (order : List Event)
      → e.started ≤ clock
      → ((q : Event) → Memᴰ q order → clock ≤ q.finished)
      → AtLeast e.worker (suc e.sequence) order
      → (q : Event) → Mem q order
      → ¬ Precedes q e
  first-Respects clock e order begun later least q m (inl before) =
      ∥∥₁_elim m ⊥_prop (λ k. omega (arith, later q k, before, begun))
  first-Respects clock e order begun later least q m (inr (same, before)) =
      ∥∥₁_elim m ⊥_prop (λ k. omega (arith, least q k same, before))

  module _ (clock : ℕ) (d d' : D) (h h' : List Event) (before after : List Thread)
      (th th' : Thread) where
    quiet-Explained :
        (x : Explained clock d' h' (before ++ th' ∷ after))
        (a : Around clock before after th' x.flights)
        → Part clock th a.here
        → d' ≡ d
        → h' ≡ h
        → th'.worker ≡ th.worker
        → low th' ≡ low th
        → Explained clock d h (before ++ th ∷ after)
    quiet-Explained x a p same_d same_h same lows = record {
      flights = a.left ++ (a.here ++ a.right);
      order = x.order;
      completes = Completes-join clock before after th a.left a.here a.right a.first p a.last;
      perm =
          subst (λ l. Perm end (l ++ ((a.left ++ (a.here ++ a.right)) ++ x.order))) same_h
            (subst (λ l. Perm end (h' ++ (l ++ x.order))) a.joined x.perm);
      replays = subst (λ y. Fits y → Replays (model y) x.order) same_d x.replays;
      respects = x.respects;
      later = x.later;
      fresh = Fresh-set before after th th' x.order same lows x.fresh;
    }

    publishing-Explained :
        (x : Explained clock d' h' (before ++ th' ∷ after))
        (a : Around clock before after th' x.flights) (e : Event)
        → a.here ≡ []
        → Part clock th (e ∷ [])
        → d' ≡ d
        → h' ≡ h ++ e ∷ []
        → th'.worker ≡ th.worker
        → low th' ≡ low th
        → Explained clock d h (before ++ th ∷ after)
    publishing-Explained x a e none_here p same_d more same lows = record {
      flights = a.left ++ ((e ∷ []) ++ a.right);
      order = x.order;
      completes = Completes-join clock before after th a.left (e ∷ []) a.right a.first p a.last;
      perm =
          Perm.trans
            (subst (λ l. Perm end (l ++ ((a.left ++ a.right) ++ x.order))) more
              (subst (λ l. Perm end (h' ++ (l ++ x.order)))
                (a.joined ∙ ap (λ l. a.left ++ (l ++ a.right)) none_here) x.perm))
            (publish-perm e h a.left a.right x.order);
      replays = subst (λ y. Fits y → Replays (model y) x.order) same_d x.replays;
      respects = x.respects;
      later = x.later;
      fresh = Fresh-set before after th th' x.order same lows x.fresh;
    }

    answering-Explained :
        (x : Explained clock d' h' (before ++ th' ∷ after))
        (a : Around clock before after th' x.flights) (e : Event) (r : Reply)
        → Distinct (before ++ th ∷ after)
        → a.here ≡ e ∷ []
        → Part clock th []
        → h' ≡ h
        → th'.worker ≡ th.worker
        → e.worker ≡ th.worker
        → e.sequence ≡ low th
        → low th' ≡ suc (low th)
        → clock ≤ e.finished
        → e.started ≤ clock
        → e.actual ≡ some r
        → target.perform d e.operation ≡ some (d', r)
        → Explained clock d h (before ++ th ∷ after)
    answering-Explained x a e r apart here_e p same_h same owner at_low lows ends begun actual
          gives =
        record {
          flights = a.left ++ ([] ++ a.right);
          order = e ∷ x.order;
          completes = Completes-join clock before after th a.left [] a.right a.first p a.last;
          perm =
              Perm.trans
                (subst (λ l. Perm end (l ++ ((a.left ++ (e ∷ a.right)) ++ x.order))) same_h
                  (subst (λ l. Perm end (h' ++ (l ++ x.order)))
                    (a.joined ∙ ap (λ l. a.left ++ (l ++ a.right)) here_e) x.perm))
                (answer-perm e h a.left a.right x.order);
          replays = λ fits.
              let (fits_after, applied) = atomic.performed d e.operation d' r fits gives in
              step applied actual (x.replays fits_after);
          respects = (
            first-Respects clock e x.order begun x.later (λ q m w. omega (
              arith,
              Fresh-at before after th' x.order x.fresh q m (w ∙ owner ∙ sym same),
              at_low,
              lows,
            )),
            x.respects,
          );
          later = later_of_first;
          fresh = Fresh-answer before after th th' e x.order same owner at_low lows apart x.fresh;
        }
      where
        later_of_first : (q : Event) → Memᴰ q (e ∷ x.order) → clock ≤ q.finished
        later_of_first q (Memᴰ.head same_e) = rw same_e ends
        later_of_first q (Memᴰ.tail m) = x.later q m

    failing-absurd :
        (x : Explained clock d' h' (before ++ th' ∷ after))
        (a : Around clock before after th' x.flights) (e : Event)
        → a.here ≡ e ∷ []
        → e.actual ≡ none
        → ⊥
    failing-absurd x a e here_e bad =
        answered e
          ((Perm.mem_iff (
              subst (λ l. Perm end (h' ++ (l ++ x.order)))
                (a.joined ∙ ap (λ l. a.left ++ (l ++ a.right)) here_e) x.perm)).1
            ∣ Memᴰ.append_right h'
              (Memᴰ.append_left x.order (Memᴰ.append_right a.left (Memᴰ.head refl))) ∣₁)
          bad

    pub Traced-Explained :
        (x : Explained clock d' h' (before ++ th' ∷ after))
        (a : Around clock before after th' x.flights)
        → Distinct (before ++ th ∷ after)
        → Begun clock (before ++ th ∷ after)
        → th'.worker ≡ th.worker
        → Traced target clock d h th d' h' th' a.here
        → Explained clock d h (before ++ th ∷ after)
    Traced-Explained x a apart begun same (quiet p same_d same_h lows) =
        quiet-Explained x a p same_d same_h same lows
    Traced-Explained x a apart begun same (publishing e none_here p same_d more lows) =
        publishing-Explained x a e none_here p same_d more same lows
    Traced-Explained x a apart begun same
          (answering e r here_e p same_h owner at_low lows ends starts actual gives) =
        answering-Explained x a e r apart here_e p same_h same owner at_low lows ends
          (starts (Begun-at clock before after th begun)) actual gives
    Traced-Explained x a apart begun same (failing e here_e bad) =
        absurd (failing-absurd x a e here_e bad)
