-- ===== src/History/Prefix/Cuts.antt =====
-- What a counterexample of `reduce_history_prefix` is.
use mathlib.Core.List.{Perm}
use mathlib.Core.List.Perm
use kernel_bridge_concurrent.Common.{
  ◌⊎◌, ℕ, zero, suc, ◌+◌, ◌≤◌, ◌≡◌, refl, sym, subst, inl, inr, false, List, [], ◌∷◌, length, take,
  drop, arith, Bool-cases,
}
use kernel_bridge_concurrent.Contract.Model
use kernel_bridge_concurrent.History.Events.{Event}
use kernel_bridge_concurrent.History.Check.{
  Verdict, pass, fail, inconclusive, raises, check_history,
}
use kernel_bridge_concurrent.History.Check.Verdicts.{fail-no-IsLinearization}
use kernel_bridge_concurrent.History.Search.Spec.{IsLinearization}
use kernel_bridge_concurrent.History.Prefix.{
  key_lt, insert_event, sorted_events, latest_end, is_overlapping, renumbered, PrefixResult,
  counterexample, if_failed, candidate_of, try_sizes, of_original, reduce_history_prefix,
}

-- Each event starts at the time or later.
abbrev pub AllFrom : ℕ → List Event → Type 0
AllFrom n [] = Unit
AllFrom n (e ∷ es) = (n ≤ e.started) × AllFrom n es

-- No event starts before one that stands before it.
abbrev IsByStart : List Event → Type 0
IsByStart [] = Unit
IsByStart (e ∷ es) = AllFrom e.started es × IsByStart es

-- Every event of the first list ends before any of the second starts.
abbrev pub AllBefore : List Event → List Event → Type 0
AllBefore [] others = Unit
AllBefore (e ∷ kept) others = AllFrom (suc e.finished) others × AllBefore kept others

le-AllFrom : (n m : ℕ) (es : List Event) → n ≤ m → AllFrom m es → AllFrom n es
le-AllFrom n m [] less a = tt
le-AllFrom n m (e ∷ es) less (h, a) = (omega arith, le-AllFrom n m es less a)

insert_event-AllFrom :
    (n : ℕ) (e : Event) (es : List Event)
    → n ≤ e.started
    → AllFrom n es
    → AllFrom n (insert_event e es)
insert_event-AllFrom n e [] low a = (low, tt)
insert_event-AllFrom n e (f ∷ fs) low (h, a) = elim (Bool-cases (key_lt f e)) [
  | inl before ↦ rw before (h, insert_event-AllFrom n e fs low a)
  | inr after ↦ rw after (low, (h, a))
]

insert_event-IsByStart :
    (e : Event) (es : List Event) → IsByStart es → IsByStart (insert_event e es)
insert_event-IsByStart e [] s = (tt, tt)
insert_event-IsByStart e (f ∷ fs) (a, s) = elim (Bool-cases (key_lt f e)) [
  | inl before ↦ rw before (
    insert_event-AllFrom f.started e fs (ground (arith, before)) a,
    insert_event-IsByStart e fs s,
  )
  | inr after ↦
      let low : e.started ≤ f.started = ground (arith, after) in
      rw after ((low, le-AllFrom e.started f.started fs low a), (a, s))
]

sorted_events-IsByStart : (es : List Event) → IsByStart (sorted_events es)
unfolding sorted_events
sorted_events-IsByStart [] = tt
sorted_events-IsByStart (e ∷ es) =
    insert_event-IsByStart e (sorted_events es) (sorted_events-IsByStart es)

drop-IsByStart : (n : ℕ) (es : List Event) → IsByStart es → IsByStart (drop n es)
drop-IsByStart zero es s = s
drop-IsByStart (suc n) [] s = tt
drop-IsByStart (suc n) (e ∷ es) (a, s) = drop-IsByStart n es s

latest_end-AllBefore :
    (kept others : List Event) → AllFrom (suc (latest_end kept)) others → AllBefore kept others
latest_end-AllBefore [] others a = tt
latest_end-AllBefore (e ∷ kept) others a = (
  le-AllFrom (suc e.finished) (suc (latest_end (e ∷ kept))) others (omega arith) a,
  latest_end-AllBefore kept others
      (le-AllFrom (suc (latest_end kept)) (suc (latest_end (e ∷ kept))) others (omega arith) a),
)

-- A cut that no event runs across.
quiet-AllBefore :
    (kept others : List Event)
    → IsByStart others
    → is_overlapping kept others ≡ false
    → AllBefore kept others
quiet-AllBefore kept [] s quiet = latest_end-AllBefore kept [] tt
quiet-AllBefore kept (e ∷ others) (a, s) quiet =
    let apart : suc (latest_end kept) ≤ e.started = ground (arith, quiet) in
    latest_end-AllBefore kept (e ∷ others)
      (apart, le-AllFrom (suc (latest_end kept)) e.started others apart a)

insert_event-Perm : (e : Event) (es : List Event) → Perm (insert_event e es) (e ∷ es)
insert_event-Perm e [] = Perm.refl (e ∷ [])
insert_event-Perm e (f ∷ fs) = elim (Bool-cases (key_lt f e)) [
  | inl before ↦ rw before (Perm.trans (Perm.cons f (insert_event-Perm e fs)) (Perm.swap e f fs))
  | inr after ↦ rw after (Perm.refl (e ∷ f ∷ fs))
]

sorted_events-Perm : (es : List Event) → Perm (sorted_events es) es
unfolding sorted_events
sorted_events-Perm [] = Perm.refl []
sorted_events-Perm (e ∷ es) =
    Perm.trans (insert_event-Perm e (sorted_events es)) (Perm.cons e (sorted_events-Perm es))

module _ (limit budget : ℕ) (history : List Event) where
  -- The first events of the history in the order of their starts, with new indexes, cut where each
  -- of them has ended before any of the others starts, of which no order is a linearization.
  pub record IsCounterexample (found : List Event) : Type 0 where
    pub size : ℕ
    pub same_events : Perm (sorted_events history) history
    pub is_prefix : found ≡ renumbered 0 (take size (sorted_events history))
    pub apart : AllBefore (take size (sorted_events history)) (drop size (sorted_events history))
    pub illegal : (order : List Event) → ¬ IsLinearization (Model.create limit) found order

  if_failed-inv :
      (v : Verdict) (mine others : PrefixResult) (found : List Event) (checks : ℕ)
      → if_failed v mine others ≡ counterexample found checks
      → ((k : ℕ) × (v ≡ fail k) × (mine ≡ counterexample found checks))
        ⊎ (others ≡ counterexample found checks)
  if_failed-inv (fail k) mine others found checks e = inl (k, refl, e)
  if_failed-inv (pass order k) mine others found checks e = inr e
  if_failed-inv (inconclusive reason k) mine others found checks e = inr e
  if_failed-inv (raises f) mine others found checks e = cc

  try_sizes-IsCounterexample :
      (left size tried : ℕ) (found : List Event) (checks : ℕ)
      → try_sizes limit budget history left size tried ≡ counterexample found checks
      → IsCounterexample found
  unfolding try_sizes
  try_sizes-IsCounterexample zero size tried found checks e = cc
  try_sizes-IsCounterexample (suc left) size tried found checks e =
      let ordered = sorted_events history in
      let candidate = candidate_of limit budget history size in
      elim (Bool-cases (is_overlapping (take size ordered) (drop size ordered))) [
        | inl across ↦
            try_sizes-IsCounterexample left (suc size) tried found checks (rw across at e)
        | inr quiet ↦
            elim (if_failed-inv (check_history limit candidate size budget)
              (counterexample candidate (tried + 1))
              (try_sizes limit budget history left (suc size) (tried + 1)) found checks
              (rw quiet at e)) [
                | inr later ↦
                    try_sizes-IsCounterexample left (suc size) (tried + 1) found checks later
                | inl (k, failed, mine) ↦
                    let same : candidate ≡ found = cc in
                    record {
                      size = size;
                      same_events = sorted_events-Perm history;
                      is_prefix = sym same;
                      apart =
                          quiet-AllBefore (take size ordered) (drop size ordered)
                            (drop-IsByStart size ordered (sorted_events-IsByStart history)) quiet;
                      illegal = λ order l.
                          fail-no-IsLinearization limit candidate size budget failed order (
                            subst (λ h. IsLinearization (Model.create limit) h order) (sym same) l);
                    }
              ]
      ]

  of_original-IsCounterexample :
      (v : Verdict) (found : List Event) (checks : ℕ)
      → of_original limit budget history v ≡ counterexample found checks
      → IsCounterexample found
  of_original-IsCounterexample (fail k) found checks e =
      try_sizes-IsCounterexample (length history) 1 1 found checks e
  of_original-IsCounterexample (pass order k) found checks e = cc
  of_original-IsCounterexample (inconclusive reason k) found checks e = cc
  of_original-IsCounterexample (raises f) found checks e = cc

  -- A counterexample that `reduce_history_prefix` reports is made of the first events of the
  -- history in the order of their starts, with new indexes, cut where each of them has ended before
  -- any of the others starts, and no order of it is a linearization.
  pub reduce_history_prefix-IsCounterexample :
      (found : List Event) (checks : ℕ)
      → reduce_history_prefix limit budget history ≡ counterexample found checks
      → IsCounterexample found
  unfolding reduce_history_prefix
  reduce_history_prefix-IsCounterexample found checks e =
      of_original-IsCounterexample (check_history limit history (length history) budget) found
        checks e
