-- ===== src/History/Prefix.antt =====
-- `reduce_history_prefix` of lab/history.py.
pub mod Cuts
use kernel_bridge_concurrent.Common.{
  ℕ, zero, suc, ◌+◌, max, Bool, true, false, not, ◌&&◌, ◌||◌, List, [], ◌∷◌, ltb, leb, ◌==◌,
  if◌then◌else◌, length, take, drop,
}
use kernel_bridge_concurrent.History.Events.{Event}
use kernel_bridge_concurrent.History.Check.{
  Verdict, pass, fail, inconclusive, raises, CheckError, check_history,
}

-- The order of the keys (started, worker, sequence).
abbrev pub key_lt : Event → Event → Bool
key_lt e f =
    ltb e.started f.started
    || e.started == f.started
      && (ltb e.worker f.worker || e.worker == f.worker && ltb e.sequence f.sequence)

abbrev pub insert_event : Event → List Event → List Event
insert_event e [] = e ∷ []
insert_event e (f ∷ fs) =
    let later = f ∷ insert_event e fs in if key_lt f e then later else e ∷ f ∷ fs

-- sorted(history, key=...)
unfoldable pub sorted_events : List Event → List Event
sorted_events [] = []
sorted_events (e ∷ es) = insert_event e (sorted_events es)

-- max(e["finished_ns"] for e in events), of some events.
abbrev pub latest_end : List Event → ℕ
latest_end [] = 0
latest_end (e ∷ es) = max e.finished (latest_end es)

-- An event still runs, or ends, when the first of the others starts.
abbrev pub is_overlapping : List Event → List Event → Bool
is_overlapping kept [] = false
is_overlapping kept (e ∷ others) = leb e.started (latest_end kept)

-- The indexes from `i` on.
abbrev pub renumbered : ℕ → List Event → List Event
renumbered i [] = []
renumbered i (e ∷ es) = record e { index = i } ∷ renumbered (suc i) es

-- The classification, with the history that is returned and the number of checks.
pub data PrefixResult : Type 0 where
  inconclusive_history no_counterexample : List Event → ℕ → PrefixResult
  counterexample : List Event → ℕ → PrefixResult
  check_raises : CheckError → PrefixResult

-- Goes on where the check of a candidate does not fail.
abbrev pub if_failed : Verdict → PrefixResult → PrefixResult → PrefixResult
if_failed (fail k) found others = found
if_failed (pass order k) found others = others
if_failed (inconclusive reason k) found others = others
if_failed (raises e) found others = check_raises e

module _ (limit budget : ℕ) (history : List Event) where
  abbrev pub candidate_of : ℕ → List Event
  candidate_of size = renumbered 0 (take size (sorted_events history))

  -- The loop over the sizes, of which `left` are left.
  unfoldable pub try_sizes : ℕ → ℕ → ℕ → PrefixResult
  try_sizes zero size checks = inconclusive_history history checks
  try_sizes (suc left) size checks =
      let ordered = sorted_events history in
      let candidate = candidate_of size in
      let skipped = try_sizes left (suc size) checks in
      let others = try_sizes left (suc size) (checks + 1) in
      let checked =
        if_failed (check_history limit candidate size budget)
          (counterexample candidate (checks + 1)) others in
      if is_overlapping (take size ordered) (drop size ordered) then skipped else checked

  abbrev pub of_original : Verdict → PrefixResult
  of_original (fail k) = try_sizes (length history) 1 1
  of_original (pass order k) = no_counterexample history 1
  of_original (inconclusive reason k) = inconclusive_history history 1
  of_original (raises e) = check_raises e

  unfoldable pub reduce_history_prefix : PrefixResult
  unfolding try_sizes
  reduce_history_prefix = of_original (check_history limit history (length history) budget)
