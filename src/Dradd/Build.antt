-- ===== src/Dradd/Build.antt =====
-- The checks of the constructor of Workload in lab/dradd.py, once the fields have their types.
pub mod Edges
pub mod Results
use kernel_bridge_concurrent.Common.{
  ℕ, suc, Bool, true, false, not, ◌&&◌, ◌||◌, Option, none, some, List, [], ◌∷◌, ltb, ◌==◌,
  if◌then◌else◌, between, length, take, get_elem?,
}
use kernel_bridge_concurrent.Dradd.Workload.{
  Kind, hard_structural, contract_required, conservative_inferred, optional_heuristic, is_required,
  Edge, Workload, required, ids,
}
use kernel_bridge_concurrent.Dradd.Order.{Walk, cyclic, spent, ended, over, visit}
use kernel_bridge_concurrent.Concurrency.{all_below}

-- The ValueErrors; `out_of_fuel` is the end of the fuel.
pub data BuildError : Type 0 where
  bad_shape bad_reference duplicate against_order cyclic_order out_of_fuel : BuildError

abbrev pub same_kind : Kind → Kind → Bool
same_kind hard_structural hard_structural = true
same_kind contract_required contract_required = true
same_kind conservative_inferred conservative_inferred = true
same_kind optional_heuristic optional_heuristic = true
same_kind _ _ = false

abbrev pub same_edge : Edge → Edge → Bool
same_edge e f = e.operation == f.operation && e.requires == f.requires && same_kind e.kind f.kind

abbrev pub was_seen : Edge → List Edge → Bool
was_seen e [] = false
was_seen e (f ∷ seen) = same_edge e f || was_seen e seen

abbrev pub same_owner : Option ℕ → Option ℕ → Bool
same_owner (some v) (some w) = v == w
same_owner _ _ = false

-- The program order of a worker runs against the edge.
abbrev pub is_against : List ℕ → Edge → Bool
is_against owners e =
    is_required e.kind
    && same_owner (get_elem? owners e.operation) (get_elem? owners e.requires)
    && ltb e.operation e.requires

abbrev pub is_bad : ℕ → Edge → Bool
is_bad n e = not (ltb e.operation n && ltb e.requires n) || e.operation == e.requires

-- The loop over the edges; `none` is that it passes.
unfoldable pub scan_edges : List ℕ → ℕ → List Edge → List Edge → Option BuildError
scan_edges owners n seen [] = none
scan_edges owners n seen (e ∷ edges) =
    let rest = scan_edges owners n (e ∷ seen) edges in
    if is_bad n e
    then some bad_reference
    else if was_seen e seen
    then some duplicate
    else if is_against owners e
    then some against_order
    else rest

-- `last.get(w)` after the owners, of which the first is at `j`.
abbrev pub latest : ℕ → ℕ → List ℕ → Option ℕ → Option ℕ
latest w j [] found = found
latest w j (o ∷ owners) found = latest w (suc j) owners (if o == w then some j else found)

abbrev pub latest_of : Option ℕ → List ℕ → Option ℕ
latest_of none owners = none
latest_of (some w) owners = latest w 0 owners none

abbrev pub and_parent : Option ℕ → List ℕ → List ℕ
and_parent none parents = parents
and_parent (some p) parents = p ∷ parents

-- graph[i]: the required edges, and the operation of the same worker before `i`.
unfoldable pub graph_of : List ℕ → List Edge → ℕ → List ℕ
graph_of owners edges i =
    and_parent (latest_of (get_elem? owners i) (take i owners)) (required edges i)

abbrev pub of_walk : Walk → Option BuildError
of_walk cyclic = some cyclic_order
of_walk spent = some out_of_fuel
of_walk (ended done) = none

-- The loop of visits over all operations.
unfoldable pub walk {ℓ} : {A : Type ℓ} → Workload A → Walk
walk w =
    let n = length w.operations in
    over (λ i done. visit (graph_of w.worker_ids w.dependencies) (suc n) i [] done) (ids w) []

abbrev pub or_walk : Option BuildError → Option BuildError → Option BuildError
or_walk none later = later
or_walk (some e) later = some e

-- The constructor; `none` is that it raises nothing.
unfoldable pub build {ℓ} : {A : Type ℓ} → Workload A → Option BuildError
build w =
    let n = length w.operations in
    let edges_fit = scan_edges w.worker_ids n [] w.dependencies in
    if not (between 1 12 n)
      || not (between 1 4 w.workers)
      || not (length w.worker_ids == n)
      || not (all_below w.workers w.worker_ids)
    then some bad_shape
    else or_walk edges_fit (of_walk (walk w))
