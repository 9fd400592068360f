-- ===== src/History/Check.antt =====
-- `check_history` of lab/history.py, from the point on where the events have their types.
pub mod Inversion
pub mod Verdicts
pub mod Answered
use kernel_bridge_concurrent.Common.{
  range_from, elem, all_in, ℕ, zero, suc, ite, Bool, true, false, not, ◌&&◌, ◌||◌, Option, none,
  some, List, [], ◌∷◌, map, ltb, leb, ◌==◌, if◌then◌else◌, between, length,
}
use kernel_bridge_concurrent.Contract.Ops.{Text-discrete}
use kernel_bridge_concurrent.Contract.Validate.{Invalid, validate}
use kernel_bridge_concurrent.Contract.Model
use kernel_bridge_concurrent.History.Events.{Event, predecessors}
use kernel_bridge_concurrent.History.Search.{
  found, absent, exhausted, invalid, starved, Step, search, candidates_from,
}

abbrev pub max_history : ℕ
max_history = 12

pub data Reason : Type 0 where
  incomplete_history worker_failed budget_exhausted : Reason

-- The ValueErrors. `out_of_fuel` is none of the program's: see `check_history-ne-out_of_fuel`.
pub data CheckError : Type 0 where
  bad_budget bad_expected_count completes_before_invocation duplicate_index : CheckError
  duplicate_sequence indexes_not_covering sequence_gap overlapping_calls : CheckError
  invalid_scenario : Invalid → CheckError
  bad_operation out_of_fuel : CheckError

-- The result that is returned, with the count `explored`, or the error that is raised.
pub data Verdict : Type 0 where
  pass : List ℕ → ℕ → Verdict
  fail : ℕ → Verdict
  inconclusive : Reason → ℕ → Verdict
  raises : CheckError → Verdict

abbrev pub elem_pair : ℕ → ℕ → List (ℕ × ℕ) → Bool
elem_pair a b [] = false
elem_pair a b ((c, d) ∷ rest) = a == c && b == d || elem_pair a b rest

-- `for event in history`: a verdict ends the loop; else the indexes that it collected.
pub data Scan : Type 0 where
  ends : Verdict → Scan
  seen : List ℕ → Scan

unfoldable pub scan_events : List ℕ → List (ℕ × ℕ) → List Event → Scan
scan_events indexes sequences [] = seen indexes
scan_events indexes sequences (e ∷ es) =
    let rest = scan_events (e.index ∷ indexes) ((e.worker, e.sequence) ∷ sequences) es in
    if ltb e.finished e.started
    then ends (raises completes_before_invocation)
    else if elem e.index indexes
    then ends (raises duplicate_index)
    else if elem_pair e.worker e.sequence sequences
    then ends (raises duplicate_sequence)
    else elim e.actual [ none ↦ ends (inconclusive worker_failed 0) | some r ↦ rest ]

-- Equality of the two sets.
abbrev pub same_set : List ℕ → List ℕ → Bool
same_set xs ys = all_in xs ys && all_in ys xs

abbrev pub insert_sorted : ℕ → List ℕ → List ℕ
insert_sorted x [] = x ∷ []
insert_sorted x (y ∷ ys) =
    let rest = y ∷ ys in let deeper = y ∷ insert_sorted x ys in if leb x y then x ∷ rest else deeper

abbrev pub sorted : List ℕ → List ℕ
sorted [] = []
sorted (x ∷ xs) = insert_sorted x (sorted xs)

abbrev pub sequences_of : ℕ → List Event → List ℕ
sequences_of worker [] = []
sequences_of worker (e ∷ es) =
    let rest = sequences_of worker es in if e.worker == worker then e.sequence ∷ rest else rest

-- A worker that has several events is looked at as often, where the source makes a set of them.
unfoldable pub without_gaps : List Event → List Event → Bool
unfolding Text-discrete
without_gaps history [] = true
without_gaps history (e ∷ es) =
    let sequences = sorted (sequences_of e.worker history) in
    ite (Text-discrete sequences (range_from 0 (length sequences))) (without_gaps history es) false

abbrev pub verdict : Step → Verdict
verdict (found order, explored) = pass order explored
verdict (absent, explored) = fail explored
verdict (exhausted, explored) = inconclusive budget_exhausted explored
verdict (invalid, explored) = raises bad_operation
verdict (starved, explored) = raises out_of_fuel

-- `mask = 0`
abbrev pub empty_mask : List Event → List Bool
empty_mask [] = []
empty_mask (e ∷ es) = false ∷ empty_mask es

unfoldable pub run_search : ℕ → ℕ → List Event → Option (List (List Bool)) → Verdict
run_search limit budget history none = raises overlapping_calls
run_search limit budget history (some rows) = verdict (
    search budget (candidates_from 0 history rows) (length history) (empty_mask history)
      (Model.create limit) [] 0)

unfoldable pub validated : ℕ → ℕ → List Event → Option Invalid → Verdict
validated limit budget history (some e) = raises (invalid_scenario e)
validated limit budget history none = run_search limit budget history (predecessors history)

unfoldable pub scanned : ℕ → ℕ → List Event → Scan → Verdict
scanned limit budget history (ends v) = v
scanned limit budget history (seen indexes) =
    if not (same_set indexes (range_from 0 (length history)))
    then raises indexes_not_covering
    else if not (without_gaps history history)
    then raises sequence_gap
    else validated limit budget history (
        validate
          (record { version = 1; capacity = limit; operations = map (λ e. e.operation) history }))

unfoldable pub check_history : ℕ → List Event → ℕ → ℕ → Verdict
check_history limit history expected_count budget =
    if not (between 1 100000 budget)
    then raises bad_budget
    else if not (between 1 max_history expected_count)
    then raises bad_expected_count
    else if not (length history == expected_count)
    then inconclusive incomplete_history 0
    else scanned limit budget history (scan_events [] [] history)
