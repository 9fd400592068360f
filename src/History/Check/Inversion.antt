-- ===== src/History/Check/Inversion.antt =====
-- A verdict of the search comes from a history that has passed every check before it.
use kernel_bridge_concurrent.Common.{
  range_from, ℕ, suc, ◌≡◌, refl, sym, ap, subst, inl, inr, Bool, Option, none, some, List, [], ◌∷◌,
  map, arith, ◌==◌, between, Bool-cases, length,
}
use kernel_bridge_concurrent.Contract.Model
use kernel_bridge_concurrent.Contract.Validate.{Invalid, validate}
use kernel_bridge_concurrent.History.Events.{Event, predecessors}
use kernel_bridge_concurrent.History.Search.{search, candidates_from}
use kernel_bridge_concurrent.History.Search.Enumerate.{Timely}
use kernel_bridge_concurrent.History.Search.Remaining.{remaining}
use kernel_bridge_concurrent.History.Check.{
  Verdict, pass, fail, inconclusive, raises, budget_exhausted, out_of_fuel, Scan, ends, seen,
  scan_events, empty_mask, verdict, run_search, validated, scanned, check_history, same_set,
  without_gaps, max_history,
}

-- The verdicts that only the search gives.
abbrev pub FromSearch : Verdict → Type 0
FromSearch (pass order k) = Unit
FromSearch (fail k) = Unit
FromSearch (inconclusive budget_exhausted k) = Unit
FromSearch (raises out_of_fuel) = Unit
FromSearch _ = ⊥

-- The loop over the events ends with no verdict of the search, or has found each event timely.
abbrev pub Screened : List Event → Scan → Type 0
Screened es (ends v) = ¬ FromSearch v
Screened es (seen indexes) = Timely es

pub scan_events-Screened :
    (indexes : List ℕ) (sequences : List (ℕ × ℕ)) (es : List Event)
    → Screened es (scan_events indexes sequences es)
unfolding scan_events
scan_events-Screened indexes sequences [] = tt
scan_events-Screened indexes sequences (e ∷ es) =
    ground (arith, scan_events-Screened (e.index ∷ indexes) ((e.worker, e.sequence) ∷ sequences) es)

pub length-empty_mask : (history : List Event) → length (empty_mask history) ≡ length history
length-empty_mask [] = refl
length-empty_mask (e ∷ es) = ap suc (length-empty_mask es)

pub remaining-empty_mask : (history : List Event) → remaining (empty_mask history) history ≡ history
remaining-empty_mask [] = refl
remaining-empty_mask (e ∷ es) = ap (λ l. e ∷ l) (remaining-empty_mask es)

-- The search whose answer is the verdict.
pub record IsSearched (limit budget : ℕ) (history : List Event) (v : Verdict) : Type 0 where
  pub timely : Timely history
  pub rows : List (List Bool)
  pub made : predecessors history ≡ some rows
  pub answered :
      verdict (
        search budget
          (candidates_from 0 history rows)
          (length history)
          (empty_mask history)
          (Model.create limit)
          []
          0)
      ≡ v

run_search-IsSearched :
    (limit budget : ℕ) (history : List Event) (o : Option (List (List Bool))) {v : Verdict}
    → Timely history
    → predecessors history ≡ o
    → run_search limit budget history o ≡ v
    → FromSearch v
    → IsSearched limit budget history v
unfolding run_search
run_search-IsSearched limit budget history none timely made e from =
    absurd (subst FromSearch (sym e) from)
run_search-IsSearched limit budget history (some rows) timely made e from = record {
  timely = timely;
  rows = rows;
  made = made;
  answered = e;
}

validated-IsSearched :
    (limit budget : ℕ) (history : List Event) (o : Option Invalid) {v : Verdict}
    → Timely history
    → validated limit budget history o ≡ v
    → FromSearch v
    → IsSearched limit budget history v
unfolding validated
validated-IsSearched limit budget history (some i) timely e from =
    absurd (subst FromSearch (sym e) from)
validated-IsSearched limit budget history none timely e from =
    run_search-IsSearched limit budget history (predecessors history) timely refl e from

scanned-IsSearched :
    (limit budget : ℕ) (history : List Event) (s : Scan) {v : Verdict}
    → Screened history s
    → scanned limit budget history s ≡ v
    → FromSearch v
    → IsSearched limit budget history v
unfolding scanned
scanned-IsSearched limit budget history (ends w) screened e from =
    absurd (screened (subst FromSearch (sym e) from))
scanned-IsSearched limit budget history (seen indexes) timely e from =
    elim (Bool-cases (same_set indexes (range_from 0 (length history)))) [
      | inr other ↦ absurd (subst FromSearch (sym (rw other at e)) from)
      | inl same ↦ elim (Bool-cases (without_gaps history history)) [
        | inr gap ↦ absurd (subst FromSearch (sym (rw (same, gap) at e)) from)
        | inl full ↦
            validated-IsSearched limit budget history
              (validate (record {
                version = 1;
                capacity = limit;
                operations = map (λ z. z.operation) history;
              }))
              timely (rw (same, full) at e) from
      ]
    ]

pub check_history-IsSearched :
    (limit : ℕ) (history : List Event) (expected_count budget : ℕ) {v : Verdict}
    → check_history limit history expected_count budget ≡ v
    → FromSearch v
    → IsSearched limit budget history v
unfolding check_history
check_history-IsSearched limit history expected_count budget e from =
    elim (Bool-cases (between 1 100000 budget)) [
      | inr bad ↦ absurd (subst FromSearch (sym (rw bad at e)) from)
      | inl good ↦ elim (Bool-cases (between 1 max_history expected_count)) [
        | inr bad ↦ absurd (subst FromSearch (sym (rw (good, bad) at e)) from)
        | inl counted ↦ elim (Bool-cases (length history == expected_count)) [
          | inr short ↦ absurd (subst FromSearch (sym (rw (good, counted, short) at e)) from)
          | inl whole ↦
              scanned-IsSearched limit budget history (scan_events [] [] history)
                (scan_events-Screened [] [] history) (rw (good, counted, whole) at e) from
        ]
      ]
    ]
