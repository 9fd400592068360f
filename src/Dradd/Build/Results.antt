-- ===== src/Dradd/Build/Results.antt =====
-- What the constructor of Workload accepts and rejects.
use mathlib.Core.Option.{some-injective}
use kernel_bridge_concurrent.Common.{take, get_elem?, subst, sym}
use kernel_bridge_concurrent.Dradd.Workload.Sets.{In-head, In-tail, In-cons}
use kernel_bridge_concurrent.Dradd.Build.{latest_of, and_parent}
use kernel_bridge_concurrent.Dradd.Order.Sound.{IsOrdered-part}
use kernel_bridge_concurrent.Common.{
  ℕ, zero, suc, ◌<◌, ◌≡◌, ◌≢◌, refl, inl, inr, Bool, true, false, not, ◌||◌, Option, none, some,
  List, [], ◌∷◌, ◌==◌, between, length, arith, Bool-cases, range_from,
}
use kernel_bridge_concurrent.Dradd.Workload.{
  Edge, Workload, required, ids, valid, all_required, sorted_set, is_empty,
}
use kernel_bridge_concurrent.Dradd.Workload.Sets.{
  In, Within, Within-all_in, sorted_set_of_IsIncreasing, same_list_iff,
}
use kernel_bridge_concurrent.Dradd.Order.{Walk, cyclic, spent, ended, visit}
use kernel_bridge_concurrent.Dradd.Order.Sound.{
  IsOrdered, IsCyclic, over-IsVisited, visit-IsVisited, over-IsCyclic, visit-IsCyclic,
}
use kernel_bridge_concurrent.Dradd.Order.Enough.{visits-ne-spent}
use kernel_bridge_concurrent.Dradd.Build.{
  BuildError, bad_shape, bad_reference, duplicate, against_order, cyclic_order, out_of_fuel,
  scan_edges, is_bad, was_seen, is_against, graph_of, of_walk, or_walk, walk, build,
}
use kernel_bridge_concurrent.Dradd.Build.Edges.{
  range_from-lt, lt-range_from, range_from-IsIncreasing, scan_edges-fits, graph_of-lt,
}
use kernel_bridge_concurrent.Concurrency.{all_below}

-- The cases of the check of the edges.
data ScanCase : Option BuildError → Type 0 where
  passes_scan : ScanCase none
  fails_scan : (e : BuildError) → e ≢ cyclic_order → e ≢ out_of_fuel → ScanCase (some e)

scan_edges-cases :
    (owners : List ℕ) (n : ℕ) (seen edges : List Edge) → ScanCase (scan_edges owners n seen edges)
unfolding scan_edges
scan_edges-cases owners n seen [] = passes_scan
scan_edges-cases owners n seen (e ∷ edges) = elim (Bool-cases (is_bad n e)) [
  | inl bad ↦ rw bad (fails_scan bad_reference (λ f. cc) (λ f. cc))
  | inr good ↦ elim (Bool-cases (was_seen e seen)) [
    | inl again ↦ rw (good, again) (fails_scan duplicate (λ f. cc) (λ f. cc))
    | inr new ↦ elim (Bool-cases (is_against owners e)) [
      | inl wrong ↦ rw (good, new, wrong) (fails_scan against_order (λ f. cc) (λ f. cc))
      | inr right ↦ rw (good, new, right) (scan_edges-cases owners n (e ∷ seen) edges)
    ]
  ]
]

of_walk-none : (w : Walk) → of_walk w ≡ none → (done : List ℕ) × (w ≡ ended done)
of_walk-none cyclic e = cc
of_walk-none spent e = cc
of_walk-none (ended done) e = (done, refl)

of_walk-cyclic : (w : Walk) → of_walk w ≡ some cyclic_order → w ≡ cyclic
of_walk-cyclic cyclic e = refl
of_walk-cyclic spent e = cc
of_walk-cyclic (ended done) e = cc

of_walk-spent : (w : Walk) → of_walk w ≡ some out_of_fuel → w ≡ spent
of_walk-spent cyclic e = cc
of_walk-spent spent e = refl
of_walk-spent (ended done) e = cc

In-and_parent :
    (o : Option ℕ) (parents : List ℕ) (p : ℕ) → In p parents → In p (and_parent o parents)
In-and_parent none parents p m = m
In-and_parent (some q) parents p m = In-tail p q parents m

and_parent-more :
    (o : Option ℕ) (parents : List ℕ) (p : ℕ) → In p (and_parent o []) → In p (and_parent o parents)
and_parent-more none parents p m = cc
and_parent-more (some q) parents p m = elim (In-cons p q [] m) [
  | inl same ↦ subst (λ x. In x (q ∷ parents)) (sym same) (In-head q parents)
  | inr nowhere ↦ cc
]

module _ {ℓ} {A : Type ℓ} (w : Workload A) where
  abbrev edges_fit : Option BuildError
  edges_fit = scan_edges w.worker_ids (length w.operations) [] w.dependencies

  abbrev is_misshapen : Bool
  is_misshapen =
      not (between 1 12 (length w.operations))
      || not (between 1 4 w.workers)
      || not (length w.worker_ids == length w.operations)
      || not (all_below w.workers w.worker_ids)

  -- How the constructor ends.
  data BuildCase : Option BuildError → Type 0 where
    misshapen : BuildCase (some bad_shape)
    bad_edges : (e : BuildError) → e ≢ cyclic_order → e ≢ out_of_fuel → BuildCase (some e)
    walked : is_misshapen ≡ false → edges_fit ≡ none → BuildCase (of_walk (walk w))

  or_walk-case :
      is_misshapen ≡ false
      → (o : Option BuildError) → edges_fit ≡ o
      → ScanCase o
      → BuildCase (or_walk o (of_walk (walk w)))
  or_walk-case shape o same passes_scan = walked shape same
  or_walk-case shape o same (fails_scan e f g) = bad_edges e f g

  build-case : BuildCase (build w)
  unfolding build
  build-case = elim (Bool-cases is_misshapen) [
    | inl bad ↦ rw bad misshapen
    | inr good ↦ rw good (
        or_walk-case good edges_fit refl
          (scan_edges-cases w.worker_ids (length w.operations) [] w.dependencies))
  ]

  abbrev pub graph : ℕ → List ℕ
  graph = graph_of w.worker_ids w.dependencies

  -- The operation of the same worker before one, as a list.
  abbrev pub previous : ℕ → List ℕ
  previous i = and_parent (latest_of (get_elem? w.worker_ids i) (take i w.worker_ids)) []

  -- An order of all operations, the last one first, in which each comes after its prerequisites and
  -- after the operation of its worker before it; and the whole of them is a valid selection.
  pub record IsBuilt : Type 0 where
    pub order : List ℕ
    pub every_id : Within (ids w) order
    pub after_required : IsOrdered (required w.dependencies) order
    pub after_previous : IsOrdered previous order
    pub whole_valid : valid w (ids w) ≡ true

  required-graph : (i : ℕ) → Within (required w.dependencies i) (graph i)
  unfolding graph_of
  required-graph i p m =
      In-and_parent (latest_of (get_elem? w.worker_ids i) (take i w.worker_ids))
        (required w.dependencies i) p m

  previous-graph : (i : ℕ) → Within (previous i) (graph i)
  unfolding graph_of
  previous-graph i p m =
      and_parent-more (latest_of (get_elem? w.worker_ids i) (take i w.worker_ids))
        (required w.dependencies i) p m

  all_required-fits :
      (n : ℕ) (some_ids : List ℕ)
      → ((i p : ℕ) → In p (required w.dependencies i) → p < n)
      → all_required w.dependencies some_ids (range_from 0 n) ≡ true
  unfolding all_required
  all_required-fits n [] fits = refl
  all_required-fits n (i ∷ some_ids) fits =
      rw
        (
          Within-all_in (required w.dependencies i) (range_from 0 n)
              (λ p m. lt-range_from 0 n p (omega arith) (omega (arith, fits i p m))),
          all_required-fits n some_ids fits,
        )
        refl

  some_ids_left : (n : ℕ) → 0 < n → is_empty (range_from 0 n) ≡ false
  some_ids_left zero h = absurd (omega arith)
  some_ids_left (suc n) h = refl

  whole-valid : is_misshapen ≡ false → edges_fit ≡ none → valid w (ids w) ≡ true
  unfolding valid
  whole-valid shape fits =
      let n = length w.operations in
      rw
        (
          some_ids_left n (ground (arith, shape)),
          (same_list_iff (sorted_set (ids w)) (ids w)).1
              (sorted_set_of_IsIncreasing (ids w) (range_from-IsIncreasing 0 n)),
          Within-all_in (ids w) (ids w) (λ x m. m),
          all_required-fits n (ids w) (scan_edges-fits w.worker_ids n [] w.dependencies fits),
        )
        refl

  walked-IsBuilt : is_misshapen ≡ false → edges_fit ≡ none → of_walk (walk w) ≡ none → IsBuilt
  unfolding walk
  walked-IsBuilt shape fits e =
      let n = length w.operations in
      let (done, found) = of_walk-none (walk w) e in
      let visited =
        over-IsVisited graph (λ i d. visit graph (suc n) i [] d)
          (λ i d d' o f. visit-IsVisited graph (suc n) i [] d d' o f) (ids w) [] done tt found in
      record {
        order = done;
        every_id = visited.has_all;
        after_required =
            IsOrdered-part graph (required w.dependencies) done required-graph visited.ordered;
        after_previous = IsOrdered-part graph previous done previous-graph visited.ordered;
        whole_valid = whole-valid shape fits;
      }

  case-IsBuilt : (o : Option BuildError) → o ≡ none → BuildCase o → IsBuilt
  case-IsBuilt o e misshapen = cc
  case-IsBuilt o e (bad_edges f g h) = cc
  case-IsBuilt o e (walked shape fits) = walked-IsBuilt shape fits e

  -- Of a workload that the constructor accepts, there is an order of all operations in which each
  -- comes after its prerequisites and after the operation of its worker before it, and all of them
  -- together are a valid selection.
  pub build-IsBuilt : build w ≡ none → IsBuilt
  build-IsBuilt e = case-IsBuilt (build w) e build-case

  walked-IsCyclic : of_walk (walk w) ≡ some cyclic_order → IsCyclic graph
  unfolding walk
  walked-IsCyclic e =
      let n = length w.operations in
      over-IsCyclic graph (λ i d. visit graph (suc n) i [] d) (ids w)
        (λ i d m f. visit-IsCyclic graph (suc n) i [] d (λ x none_yet. cc) f) []
        (of_walk-cyclic (walk w) e)

  case-IsCyclic : (o : Option BuildError) → o ≡ some cyclic_order → BuildCase o → IsCyclic graph
  case-IsCyclic o e misshapen = cc
  case-IsCyclic o e (bad_edges f g h) = absurd (g (some-injective f cyclic_order e))
  case-IsCyclic o e (walked shape fits) = walked-IsCyclic e

  -- Where the constructor complains of a cycle, there is one: some operation is above itself, by
  -- prerequisites and the program order of the workers.
  pub build-IsCyclic : build w ≡ some cyclic_order → IsCyclic graph
  build-IsCyclic e = case-IsCyclic (build w) e build-case

  walked-ne-fuel : is_misshapen ≡ false → edges_fit ≡ none → of_walk (walk w) ≢ some out_of_fuel
  unfolding walk
  walked-ne-fuel shape fits e =
      let n = length w.operations in
      visits-ne-spent graph n
        (graph_of-lt w.worker_ids n w.dependencies (ground (arith, shape)) fits) (ids w) []
        (λ i m. let (low, high) = range_from-lt 0 n i m in omega arith) (of_walk-spent (walk w) e)

  case-ne-fuel : (o : Option BuildError) → BuildCase o → o ≢ some out_of_fuel
  case-ne-fuel o misshapen e = cc
  case-ne-fuel o (bad_edges f g h) e = h (some-injective f out_of_fuel e)
  case-ne-fuel o (walked shape fits) e = walked-ne-fuel shape fits e

  -- The search for cycles ends: its fuel, one unit more than the operations, never runs out.
  pub build-ne-out_of_fuel : build w ≢ some out_of_fuel
  build-ne-out_of_fuel = case-ne-fuel (build w) build-case
