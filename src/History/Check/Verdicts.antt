-- ===== src/History/Check/Verdicts.antt =====
-- What the verdicts of `check_history` say of the recorded history.
use kernel_bridge_concurrent.Common.{
  ℕ, ◌≤◌, ◌<◌, ◌≡◌, refl, sym, ap, subst, ◌≢◌, List, [], map, arith, length,
}
use kernel_bridge_concurrent.Contract.Model
use kernel_bridge_concurrent.History.Events.{Event}
use kernel_bridge_concurrent.History.Search.{
  Step, found, absent, exhausted, invalid, starved, candidates_from,
}
use kernel_bridge_concurrent.History.Search.Spec.{IsLinearization}
use kernel_bridge_concurrent.History.Search.Sound.{search-Explains}
use kernel_bridge_concurrent.History.Search.Complete.{search-absent}
use kernel_bridge_concurrent.History.Search.Budget.{transitions, search-Within, search-ne-starved}
use kernel_bridge_concurrent.History.Search.Enumerate.{Covers-candidates, free_count-candidates}
use kernel_bridge_concurrent.History.Check.{
  pass, fail, inconclusive, raises, budget_exhausted, out_of_fuel, verdict, empty_mask,
  check_history,
}
use kernel_bridge_concurrent.History.Check.Inversion.{
  check_history-IsSearched, length-empty_mask, remaining-empty_mask,
}

verdict-pass : (s : Step) {order : List ℕ} {k : ℕ} → verdict s ≡ pass order k → s ≡ (found order, k)
verdict-pass (found w, k) e = ground arith
verdict-pass (absent, k) e = cc
verdict-pass (exhausted, k) e = cc
verdict-pass (invalid, k) e = cc
verdict-pass (starved, k) e = cc

verdict-fail : (s : Step) {k : ℕ} → verdict s ≡ fail k → s ≡ (absent, k)
verdict-fail (found w, k) e = cc
verdict-fail (absent, k) e = ground arith
verdict-fail (exhausted, k) e = cc
verdict-fail (invalid, k) e = cc
verdict-fail (starved, k) e = cc

verdict-exhausted :
    (s : Step) {k : ℕ} → verdict s ≡ inconclusive budget_exhausted k → s ≡ (exhausted, k)
verdict-exhausted (found w, k) e = cc
verdict-exhausted (absent, k) e = cc
verdict-exhausted (exhausted, k) e = ground arith
verdict-exhausted (invalid, k) e = cc
verdict-exhausted (starved, k) e = cc

verdict-starved : (s : Step) → verdict s ≡ raises out_of_fuel → s ≡ (starved, s.1)
verdict-starved (found w, k) e = cc
verdict-starved (absent, k) e = cc
verdict-starved (exhausted, k) e = cc
verdict-starved (invalid, k) e = cc
verdict-starved (starved, k) e = refl

le_of_eq : {a b : ℕ} → a ≡ b → a ≤ b
le_of_eq e = omega arith

module _ (limit : ℕ) (history : List Event) (expected_count budget : ℕ) where
  -- When the check passes, the order that it reports is that of a linearization of the recorded
  -- history: all of its events, none behind one that it precedes in real time or in program order,
  -- with the replies of the reference model from an empty buffer of the capacity.
  pub pass-IsLinearization :
      {order : List ℕ} {explored : ℕ}
      → check_history limit history expected_count budget ≡ pass order explored
      → (events : List Event) × IsLinearization (Model.create limit) history events
        × (order ≡ map (λ e. e.index) events)
  pass-IsLinearization {order} {explored} e =
      let checked = check_history-IsSearched limit history expected_count budget e tt in
      let made =
        search-Explains history budget (candidates_from 0 history checked.rows)
          (Covers-candidates history checked.timely checked.made) (length history)
          (empty_mask history) (Model.create limit) [] 0 (length-empty_mask history)
          (verdict-pass _ checked.answered) in
      (
        made.events,
        subst (λ l. IsLinearization (Model.create limit) l made.events)
            (remaining-empty_mask history) made.linear,
        made.reported,
      )

  -- When the check fails, no order of the recorded events is a linearization.
  pub fail-no-IsLinearization :
      {explored : ℕ}
      → check_history limit history expected_count budget ≡ fail explored
      → (events : List Event) → ¬ IsLinearization (Model.create limit) history events
  fail-no-IsLinearization {explored} e events l =
      let checked = check_history-IsSearched limit history expected_count budget e tt in
      search-absent budget history (candidates_from 0 history checked.rows)
        (Covers-candidates history checked.timely checked.made) (length history)
        (empty_mask history) (Model.create limit) [] 0 explored (length-empty_mask history)
        (verdict-fail _ checked.answered) events
        (subst (λ l. IsLinearization (Model.create limit) l events)
          (sym (remaining-empty_mask history)) l)

  -- The search gives up only over a budget below the number of transitions of a full search.
  pub exhausted-lt-transitions :
      {explored : ℕ}
      → check_history limit history expected_count budget ≡ inconclusive budget_exhausted explored
      → budget < transitions (length history)
  exhausted-lt-transitions {explored} e =
      let checked = check_history-IsSearched limit history expected_count budget e tt in
      let within =
        search-Within budget history (candidates_from 0 history checked.rows)
          (Covers-candidates history checked.timely checked.made)
          (free_count-candidates history checked.timely checked.made) (length history)
          (length history) (empty_mask history) (Model.create limit) [] 0
          (length-empty_mask history) (ap length (remaining-empty_mask history)) in
      let bound = within.1 (ap (λ (s : Step). s.0) (verdict-exhausted _ checked.answered)) in
      omega arith

  -- The fuel of the search is enough.
  pub check_history-ne-out_of_fuel :
      check_history limit history expected_count budget ≢ raises out_of_fuel
  check_history-ne-out_of_fuel e =
      let checked = check_history-IsSearched limit history expected_count budget e tt in
      search-ne-starved budget history (candidates_from 0 history checked.rows)
        (Covers-candidates history checked.timely checked.made)
        (free_count-candidates history checked.timely checked.made) (length history)
        (empty_mask history) (Model.create limit) [] 0 _ (length-empty_mask history)
        (le_of_eq (ap length (remaining-empty_mask history))) (verdict-starved _ checked.answered)
