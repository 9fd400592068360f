-- ===== src/History/Check/Answered.antt =====
-- A history that the check searches has a reply to each of its calls.
use kernel_bridge_concurrent.History.Check.Inversion.{FromSearch}
use kernel_bridge_concurrent.Common.{
  ℕ, ◌≡◌, refl, subst, ◌≢◌, inl, inr, none, List, [], ◌∷◌, arith, ◌==◌, between, Bool-cases, length,
}
use mathlib.Core.List.{Memᴰ}
use mathlib.Core.List.Memᴰ
use kernel_bridge_concurrent.History.Events.{Event}
use kernel_bridge_concurrent.History.Check.{
  fail, Scan, ends, seen, scan_events, scanned, check_history, max_history,
}
use kernel_bridge_concurrent.History.Check.Inversion.{Screened, scan_events-Screened}

abbrev pub AllAnswered : List Event → Type 0
AllAnswered [] = Unit
AllAnswered (e ∷ es) = (e.actual ≢ none) × AllAnswered es

scan_events-AllAnswered :
    (indexes : List ℕ) (sequences : List (ℕ × ℕ)) (es : List Event) (found : List ℕ)
    → scan_events indexes sequences es ≡ seen found
    → AllAnswered es
unfolding scan_events
scan_events-AllAnswered indexes sequences [] found h = tt
scan_events-AllAnswered indexes sequences (e ∷ es) found h = (
  ground arith,
  scan_events-AllAnswered (e.index ∷ indexes) ((e.worker, e.sequence) ∷ sequences) es found
      (ground arith),
)

pub answered_of : (es : List Event) → AllAnswered es → (q : Event) → Memᴰ q es → q.actual ≢ none
answered_of [] h q m = absurd (Memᴰ.not-nil m)
answered_of (e ∷ es) (h, others) q (Memᴰ.head same) = rw same h
answered_of (e ∷ es) (h, others) q (Memᴰ.tail m) = answered_of es others q m

scanned-AllAnswered :
    (limit budget : ℕ) (history : List Event) (s : Scan) (k : ℕ)
    → Screened history s
    → scan_events [] [] history ≡ s
    → scanned limit budget history s ≡ fail k
    → AllAnswered history
unfolding scanned
scanned-AllAnswered limit budget history (ends v) k screened same e =
    absurd (subst (λ w. ¬ FromSearch w) e screened tt)
scanned-AllAnswered limit budget history (seen found) k screened same e =
    scan_events-AllAnswered [] [] history found same

pub fail-AllAnswered :
    (limit : ℕ) (history : List Event) (expected_count budget k : ℕ)
    → check_history limit history expected_count budget ≡ fail k
    → AllAnswered history
unfolding check_history
fail-AllAnswered limit history expected_count budget k e =
    elim (Bool-cases (between 1 100000 budget)) [
      | inr bad ↦ cc (rw bad at e)
      | inl good ↦ elim (Bool-cases (between 1 max_history expected_count)) [
        | inr bad ↦ cc (rw (good, bad) at e)
        | inl counted ↦ elim (Bool-cases (length history == expected_count)) [
          | inr short ↦ cc (rw (good, counted, short) at e)
          | inl whole ↦
              scanned-AllAnswered limit budget history (scan_events [] [] history) k
                (scan_events-Screened [] [] history) refl (rw (good, counted, whole) at e)
        ]
      ]
    ]
