-- ===== src/Dradd/Workload/Candidates.antt =====
-- `candidate`: the projection of a workload to the operations that are kept.
use kernel_bridge_concurrent.Common.{
  ℕ, suc, Option, none, some, List, [], ◌∷◌, ◌==◌, if◌then◌else◌, get_elem?,
}
use kernel_bridge_concurrent.Dradd.Workload.{Edge, Workload, valid}

-- A candidate records where its operations stood in the source.
pub record Candidate {ℓ} (A : Type ℓ) : Type ℓ where
  pub workload : Workload A
  pub original_ids : List ℕ

pub keep_one {ℓ} : {A : Type ℓ} → Option A → List A → List A
keep_one none rest = rest
keep_one (some x) rest = x ∷ rest

-- [xs[i] for i in keep]; `valid` rules an index out of range out.
unfoldable pub pick {ℓ} : {A : Type ℓ} → List A → List ℕ → List A
unfolding keep_one
pick xs [] = []
pick xs (i ∷ keep) = keep_one (get_elem? xs i) (pick xs keep)

-- mapping[old], where `new` is the number of the first of `keep`.
unfoldable pub renumber : ℕ → List ℕ → ℕ → Option ℕ
renumber new [] old = none
renumber new (i ∷ keep) old =
    let rest = renumber (suc new) keep old in if i == old then some new else rest

pub keep_edge : Edge → Option ℕ → Option ℕ → List Edge → List Edge
keep_edge e (some a) (some b) rest = record e { operation = a; requires = b } ∷ rest
keep_edge e (some a) none rest = rest
keep_edge e none b rest = rest

-- The edges between operations that are kept, renumbered.
unfoldable pub project_edges : List ℕ → List Edge → List Edge
unfolding keep_edge renumber
project_edges keep [] = []
project_edges keep (e ∷ edges) =
    keep_edge e (renumber 0 keep e.operation) (renumber 0 keep e.requires)
      (project_edges keep edges)

unfoldable pub project {ℓ} : {A : Type ℓ} → Workload A → List ℕ → Candidate A
unfolding pick project_edges
project w keep = record {
  workload = record {
    operations = pick w.operations keep;
    worker_ids = pick w.worker_ids keep;
    workers = w.workers;
    dependencies = project_edges keep w.dependencies;
  };
  original_ids = keep;
}

-- `none` is the ValueError.
unfoldable pub candidate {ℓ} : {A : Type ℓ} → Workload A → List ℕ → Option (Candidate A)
unfolding project valid
candidate w keep = if valid w keep then some (project w keep) else none
