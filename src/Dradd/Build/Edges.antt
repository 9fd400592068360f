-- ===== src/Dradd/Build/Edges.antt =====
-- The edges and the graph of a workload stay within its operations.
use mathlib.Core.Option.{some-injective}
use kernel_bridge_concurrent.Common.{
  ℕ, zero, suc, ◌+◌, ◌≤◌, ◌<◌, ◌≡◌, refl, inl, inr, ◌&&◌, Option, none, some, List, [], ◌∷◌, ◌==◌,
  if◌then◌else◌, length, take, get_elem?, arith, Bool-cases, range_from, length-take,
}
use kernel_bridge_concurrent.Dradd.Workload.{Edge, is_required, required}
use kernel_bridge_concurrent.Dradd.Workload.Sets.{
  In, In-cons, In-tail, IsIncreasing, IsIncreasing-cons,
}
use kernel_bridge_concurrent.Dradd.Build.{
  is_bad, was_seen, is_against, scan_edges, latest, latest_of, and_parent, graph_of,
}

pub range_from-lt : (i n x : ℕ) → In x (range_from i n) → (i ≤ x) × (x < i + n)
range_from-lt i zero x m = cc
range_from-lt i (suc n) x m = elim (In-cons x i (range_from (suc i) n) m) [
  | inl same ↦ (omega arith, omega arith)
  | inr later ↦ let (low, high) = range_from-lt (suc i) n x later in (omega arith, omega arith)
]

pub lt-range_from : (i n x : ℕ) → i ≤ x → x < i + n → In x (range_from i n)
lt-range_from i zero x low high = absurd (omega arith)
lt-range_from i (suc n) x low high = elim (Bool-cases (x == i)) [
  | inl same ↦ rw same refl
  | inr other ↦
      In-tail x i (range_from (suc i) n)
        (lt-range_from (suc i) n x (ground (arith, low, other)) (omega arith))
]

pub range_from-IsIncreasing : (i n : ℕ) → IsIncreasing (range_from i n)
range_from-IsIncreasing i zero = tt
range_from-IsIncreasing i (suc n) =
    IsIncreasing-cons i (range_from (suc i) n)
      (λ z m. let (low, high) = range_from-lt (suc i) n z m in omega arith)
      (range_from-IsIncreasing (suc i) n)

-- Each edge joins two different operations.
pub scan_edges-fits :
    (owners : List ℕ) (n : ℕ) (seen edges : List Edge)
    → scan_edges owners n seen edges ≡ none
    → (i p : ℕ) → In p (required edges i)
    → p < n
unfolding scan_edges required
scan_edges-fits owners n seen [] h i p m = cc
scan_edges-fits owners n seen (e ∷ edges) h i p m = elim (Bool-cases (is_bad n e)) [
  | inl bad ↦ cc (rw bad at h)
  | inr good ↦ elim (Bool-cases (was_seen e seen)) [
    | inl again ↦ cc (rw (good, again) at h)
    | inr new ↦ elim (Bool-cases (is_against owners e)) [
      | inl wrong ↦ cc (rw (good, new, wrong) at h)
      | inr right ↦
          let rest = scan_edges-fits owners n (e ∷ seen) edges (rw (good, new, right) at h) i p in
          elim (Bool-cases (is_required e.kind && e.operation == i)) [
            | inr other ↦ rest (rw other at m)
            | inl here ↦ elim (In-cons p e.requires (required edges i) (rw here at m)) [
              | inl same ↦ ground (arith, good, same)
              | inr later ↦ rest later
            ]
          ]
    ]
  ]
]

-- The operation found is one of the list.
latest-lt :
    (w j n : ℕ) (owners : List ℕ) (found : Option ℕ) (p : ℕ)
    → j + length owners ≤ n
    → ((q : ℕ) → found ≡ some q → q < n)
    → latest w j owners found ≡ some p
    → p < n
latest-lt w j n [] found p fits low e = low p e
latest-lt w j n (o ∷ owners) found p fits low e =
    latest-lt w (suc j) n owners (if o == w then some j else found) p (omega arith)
      (λ q f. elim (Bool-cases (o == w)) [
        | inl same ↦ omega (arith, some-injective j q (rw same at f))
        | inr other ↦ low q (rw other at f)
      ])
      e

latest_of-lt :
    (o : Option ℕ) (owners : List ℕ) (p : ℕ) → latest_of o owners ≡ some p → p < length owners
latest_of-lt none owners p e = cc
latest_of-lt (some w) owners p e =
    latest-lt w 0 (length owners) owners none p (omega arith) (λ q f. cc) e

and_parent-lt :
    (o : Option ℕ) (parents : List ℕ) (n p : ℕ)
    → ((q : ℕ) → o ≡ some q → q < n)
    → (In p parents → p < n)
    → In p (and_parent o parents)
    → p < n
and_parent-lt none parents n p low others m = others m
and_parent-lt (some q) parents n p low others m = elim (In-cons p q parents m) [
  | inl same ↦ omega (arith, low q refl)
  | inr later ↦ others later
]

pub graph_of-lt :
    (owners : List ℕ) (n : ℕ) (edges : List Edge)
    → length owners ≡ n
    → scan_edges owners n [] edges ≡ none
    → (i p : ℕ) → In p (graph_of owners edges i)
    → p < n
unfolding graph_of
graph_of-lt owners n edges same fits i p m =
    and_parent-lt (latest_of (get_elem? owners i) (take i owners)) (required edges i) n p
      (λ q e.
        omega (arith, latest_of-lt (get_elem? owners i) (take i owners) q e, length-take i owners))
      (scan_edges-fits owners n [] edges fits i p) m
