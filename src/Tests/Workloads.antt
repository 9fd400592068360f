-- ===== src/Tests/Workloads.antt =====
-- A workload that the constructor accepts, and one with a cycle through two workers.
use kernel_bridge_concurrent.Common.{ℕ, ◌≡◌, ◌≢◌, refl, none, some, [], ◌∷◌}
use kernel_bridge_concurrent.Dradd.Workload.{Workload, hard_structural, contract_required, required}
use kernel_bridge_concurrent.Dradd.Order.{over, visit}
use kernel_bridge_concurrent.Dradd.Order.Sound.{IsCyclic}
use kernel_bridge_concurrent.Dradd.Build.{
  build, walk, graph_of, scan_edges, cyclic_order, out_of_fuel,
}
use kernel_bridge_concurrent.Dradd.Build.Results.{
  IsBuilt, graph, build-IsBuilt, build-IsCyclic, build-ne-out_of_fuel,
}

abbrev layered : Workload ℕ
layered = record {
  operations = 5 ∷ 6 ∷ 7 ∷ 8 ∷ [];
  worker_ids = 0 ∷ 1 ∷ 0 ∷ 1 ∷ [];
  workers = 2;
  dependencies =
      record { operation = 0; requires = 1; kind = contract_required }
      ∷ record { operation = 3; requires = 2; kind = hard_structural }
      ∷ [];
}

-- 0 waits for 3, which comes after 1, which waits for 2, which comes after 0.
abbrev crossed : Workload ℕ
crossed = record {
  operations = 5 ∷ 6 ∷ 7 ∷ 8 ∷ [];
  worker_ids = 0 ∷ 1 ∷ 0 ∷ 1 ∷ [];
  workers = 2;
  dependencies =
      record { operation = 0; requires = 3; kind = contract_required }
      ∷ record { operation = 1; requires = 2; kind = hard_structural }
      ∷ [];
}

build-layered : build layered ≡ none
unfolding build walk over visit graph_of scan_edges required
build-layered = refl

build-crossed : build crossed ≡ some cyclic_order
unfolding build walk over visit graph_of scan_edges required
build-crossed = refl

build-IsBuilt_example : IsBuilt layered
build-IsBuilt_example = build-IsBuilt layered build-layered

build-IsCyclic_example : IsCyclic (graph crossed)
build-IsCyclic_example = build-IsCyclic crossed build-crossed

build-ne-out_of_fuel_example : build crossed ≢ some out_of_fuel
build-ne-out_of_fuel_example = build-ne-out_of_fuel crossed
