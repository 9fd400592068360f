-- ===== src/History/Search/Enumerate.antt =====
-- The candidates that `check_history` builds stand for the events of the history, in its order.
use kernel_bridge_concurrent.History.Search.Remaining.{remaining}
use mathlib.Core.List.{Memᴰ}
use kernel_bridge_concurrent.History.Search.Candidates.{IsAt, Covers}
use kernel_bridge_concurrent.History.Search.Budget.{free_count}
use mathlib.Core.List.Memᴰ
use mathlib.Core.Option.{some-injective}
use native.Mathlib.Nat.{add-zero, zero-add}
use kernel_bridge_concurrent.Common.{
  ==_iff, ℕ, zero, suc, ◌+◌, ◌≤◌, ◌≡◌, refl, sym, ap, ◌∙◌, subst, inl, inr, Bool, true, false,
  Option, none, some, List, [], ◌∷◌, map, arith, ◌==◌, Bool-cases, length, get_or, get_elem?,
}
use kernel_bridge_concurrent.History.Events.{
  Event, precedes, predecessor_bits, predecessors_from, predecessors, push_bit, push_row,
}
use kernel_bridge_concurrent.History.Search.{Candidate, candidates_from}

-- Every event returns no earlier than it starts.
abbrev pub Timely : List Event → Type 0
Timely [] = Unit
Timely (e ∷ es) = (e.started ≤ e.finished) × Timely es

precedes_self : (e : Event) → e.started ≤ e.finished → precedes e e ≡ false
precedes_self e h = ground arith

push_bit-some :
    (i : ℕ) (e : Event) (j : ℕ) (q : Event) (rest : Option (List Bool)) {row : List Bool}
    → e.started ≤ e.finished
    → (i ≡ j → q ≡ e)
    → push_bit i e j q rest ≡ some row
    → (bits : List Bool) × (rest ≡ some bits) × (row ≡ precedes q e ∷ bits)
unfolding push_bit
push_bit-some i e j q none h at made = cc
push_bit-some i e j q (some bits) h at made = (
  bits,
  refl,
  elim (Bool-cases (i == j)) [
    | inl same ↦ ground (arith, at ((==_iff i j).0 same), precedes_self e h)
    | inr other ↦ ground arith
  ],
)

-- A row has the order of its event against every event, its own position included.
predecessor_bits-eq-map :
    (i : ℕ) (e : Event) (j : ℕ) (es : List Event) {row : List Bool}
    → e.started ≤ e.finished
    → ((k : ℕ) (q : Event) → get_elem? es k ≡ some q → i ≡ j + k → q ≡ e)
    → predecessor_bits i e j es ≡ some row
    → row ≡ map (λ q. precedes q e) es
unfolding predecessor_bits
predecessor_bits-eq-map i e j [] h at made = cc
predecessor_bits-eq-map i e j (q ∷ es) {row} h at made =
    let (bits, rest, front) =
      push_bit-some i e j q (predecessor_bits i e (suc j) es) h (λ same. at 0 q refl (omega arith))
        made in
    front
    ∙ ap (λ r. precedes q e ∷ r)
        (predecessor_bits-eq-map i e (suc j) es h
          (λ k p found shift. at (suc k) p found (omega arith)) rest)

push_row-some :
    (a : Option (List Bool)) (b : Option (List (List Bool))) {rows : List (List Bool)}
    → push_row a b ≡ some rows
    → (row : List Bool) × (rest : List (List Bool)) × (a ≡ some row)
      × (b ≡ some rest)
      × (rows ≡ row ∷ rest)
unfolding push_row
push_row-some (some row) (some rest) e =
    (row, rest, refl, refl, sym (some-injective (row ∷ rest) _ e))
push_row-some (some row) none e = cc
push_row-some none b e = cc

-- Candidates that stand for the events of `es`, whose positions in `history` begin at `i`.
abbrev pub Enumerates : List Event → ℕ → List Event → List Candidate → Type 0
Enumerates history i [] [] = Unit
Enumerates history i [] (c ∷ cs) = ⊥
Enumerates history i (e ∷ es) [] = ⊥
Enumerates history i (e ∷ es) (c ∷ cs) =
    (c.position ≡ i)
    × (c.event ≡ e)
    × (c.row ≡ map (λ q. precedes q e) history)
    × Enumerates history (suc i) es cs

-- `es` is what stands in `history` from position `i` on.
abbrev IsFrom : List Event → ℕ → List Event → Type 0
IsFrom history i es = (k : ℕ) → get_elem? es k ≡ get_elem? history (i + k)

shift_suc : (i k : ℕ) → i + suc k ≡ suc i + k
shift_suc i k = omega arith

from_zero : (i k : ℕ) → i ≡ 0 + k → k ≡ i
from_zero i k h = omega arith

IsFrom-tail :
    (history : List Event) (i : ℕ) (e : Event) (es : List Event)
    → IsFrom history i (e ∷ es)
    → IsFrom history (suc i) es
IsFrom-tail history i e es at k = at (suc k) ∙ ap (get_elem? history) (shift_suc i k)

IsFrom-head :
    (history : List Event) (i : ℕ) (e : Event) (es : List Event)
    → IsFrom history i (e ∷ es)
    → get_elem? history i ≡ some e
IsFrom-head history i e es at = sym (at 0 ∙ ap (get_elem? history) (add-zero i))

Enumerates-candidates :
    (history : List Event) (i : ℕ) (es : List Event) {rows : List (List Bool)}
    → Timely es
    → IsFrom history i es
    → predecessors_from history i es ≡ some rows
    → Enumerates history i es (candidates_from i es rows)
unfolding predecessors_from candidates_from
Enumerates-candidates history i [] h at made = tt
Enumerates-candidates history i (e ∷ es) h at made =
    let (row, rest, this, others, both) =
      push_row-some (predecessor_bits i e 0 history) (predecessors_from history (suc i) es) made in
    rw both (
      refl,
      refl,
      predecessor_bits-eq-map i e 0 history h.0
          (λ k q found same. some-injective q e (
            sym found
            ∙ ap (get_elem? history) (from_zero i k same)
            ∙ IsFrom-head history i e es at))
          this,
      Enumerates-candidates history (suc i) es h.1 (IsFrom-tail history i e es at) others,
    )

module _ (history : List Event) where
  IsAt-first :
      (i : ℕ) (e : Event) (es : List Event) (c : Candidate) (cs : List Candidate)
      → Timely (e ∷ es)
      → IsFrom history i (e ∷ es)
      → Enumerates history i (e ∷ es) (c ∷ cs)
      → IsAt history c i
  IsAt-first i e es c cs h at all = record {
    position = all.0;
    event = IsFrom-head history i e es at ∙ ap some (sym all.1);
    timely = subst (λ (z : Event). z.started ≤ z.finished) (sym all.1) h.0;
    row = subst (λ (z : Event). c.row ≡ map (λ q. precedes q z) history) (sym all.1) all.2;
  }

  Enumerates-each :
      (i : ℕ) (es : List Event) (cs : List Candidate)
      → Timely es
      → IsFrom history i es
      → Enumerates history i es cs
      → (c : Candidate) → Memᴰ c cs
      → (k : ℕ) × IsAt history c k
  Enumerates-each i [] [] h at all c m = absurd (Memᴰ.not-nil m)
  Enumerates-each i [] (x ∷ cs) h at all c m = absurd all
  Enumerates-each i (e ∷ es) [] h at all c m = absurd all
  Enumerates-each i (e ∷ es) (x ∷ cs) h at all c (Memᴰ.head same) =
      (i, subst (λ z. IsAt history z i) (sym same) (IsAt-first i e es x cs h at all))
  Enumerates-each i (e ∷ es) (x ∷ cs) h at all c (Memᴰ.tail m) =
      Enumerates-each (suc i) es cs h.1 (IsFrom-tail history i e es at) all.3 c m

  Enumerates-all :
      (i : ℕ) (es : List Event) (cs : List Candidate)
      → Timely es
      → IsFrom history i es
      → Enumerates history i es cs
      → (k : ℕ) (e : Event) → get_elem? es k ≡ some e
      → (c : Candidate) × Memᴰ c cs × IsAt history c (i + k)
  Enumerates-all i [] cs h at all k e found = cc
  Enumerates-all i (x ∷ es) [] h at all k e found = absurd all
  Enumerates-all i (x ∷ es) (c ∷ cs) h at all zero e found = (
    c,
    Memᴰ.head refl,
    subst (IsAt history c) (sym (add-zero i)) (IsAt-first i x es c cs h at all),
  )
  Enumerates-all i (x ∷ es) (c ∷ cs) h at all (suc k) e found =
      let (d, m, there) =
        Enumerates-all (suc i) es cs h.1 (IsFrom-tail history i x es at) all.3 k e found in
      (d, Memᴰ.tail m, subst (IsAt history d) (sym (shift_suc i k)) there)

  Enumerates-count :
      (i : ℕ) (es : List Event) (cs : List Candidate) (mask bits : List Bool)
      → length bits ≡ length es
      → ((k : ℕ) → get_or mask (i + k) false ≡ get_or bits k false)
      → Enumerates history i es cs
      → free_count mask cs ≡ length (remaining bits es)
  Enumerates-count i [] [] mask bits n same all = refl
  Enumerates-count i [] (c ∷ cs) mask bits n same all = absurd all
  Enumerates-count i (e ∷ es) [] mask bits n same all = absurd all
  Enumerates-count i (e ∷ es) (c ∷ cs) mask [] n same all = absurd (omega arith)
  Enumerates-count i (e ∷ es) (c ∷ cs) mask (b ∷ bits) n same all =
      counted b (ap (λ j. get_or mask j false) (all.0 ∙ sym (add-zero i)) ∙ same 0) (
        Enumerates-count (suc i) es cs mask bits (omega arith)
          (λ k. ap (λ j. get_or mask j false) (sym (shift_suc i k)) ∙ same (suc k)) all.3)
    where
      counted :
          (b : Bool)
          → get_or mask c.position false ≡ b
          → free_count mask cs ≡ length (remaining bits es)
          → free_count mask (c ∷ cs) ≡ length (remaining (b ∷ bits) (e ∷ es))
      counted true bit ih = rw bit ih
      counted false bit ih = rw bit (ap suc ih)

-- The candidates of a history whose predecessors are in order stand for its events.
pub Covers-candidates :
    (history : List Event) {rows : List (List Bool)}
    → Timely history
    → predecessors history ≡ some rows
    → Covers history (candidates_from 0 history rows)
unfolding predecessors
Covers-candidates history {rows} h made =
    let at : IsFrom history 0 history = λ k. ap (get_elem? history) (sym (zero-add k)) in
    let all = Enumerates-candidates history 0 history h at made in
    record {
      each = Enumerates-each history 0 history (candidates_from 0 history rows) h at all;
      all = λ k e found.
          let (c, m, there) =
            Enumerates-all history 0 history (candidates_from 0 history rows) h at all k e found in
          (c, m, subst (IsAt history c) (zero-add k) there);
    }

pub free_count-candidates :
    (history : List Event) {rows : List (List Bool)}
    → Timely history
    → predecessors history ≡ some rows
    → (mask : List Bool) → length mask ≡ length history
    → free_count mask (candidates_from 0 history rows) ≡ length (remaining mask history)
unfolding predecessors
free_count-candidates history {rows} h made mask n =
    Enumerates-count history 0 history (candidates_from 0 history rows) mask mask n
      (λ k. ap (λ j. get_or mask j false) (zero-add k))
      (Enumerates-candidates history 0 history h (λ k. ap (get_elem? history) (sym (zero-add k)))
        made)
