-- ===== src/Dradd/Order.antt =====
-- The depth-first search at the end of the constructor of Workload in lab/dradd.py.
pub mod Enough
pub mod Sound
use kernel_bridge_concurrent.Common.{
  ℕ, zero, suc, Bool, true, false, List, [], ◌∷◌, elem, if◌then◌else◌,
}

-- What a visit leads to: the ValueError, or the operations that are done, the last one first.
-- `spent` is the end of the fuel.
pub data Walk : Type 0 where
  cyclic spent : Walk
  ended : List ℕ → Walk

abbrev pub onward : Walk → (List ℕ → Walk) → Walk
onward cyclic go = cyclic
onward spent go = spent
onward (ended done) go = go done

-- A loop of visits.
unfoldable pub over : (ℕ → List ℕ → Walk) → List ℕ → List ℕ → Walk
over visit [] done = ended done
over visit (i ∷ ids) done = onward (visit i done) (over visit ids)

unfoldable pub visit : (ℕ → List ℕ) → ℕ → ℕ → List ℕ → List ℕ → Walk
unfolding over
visit graph zero i visiting done = spent
visit graph (suc fuel) i visiting done =
    let parents = over (λ p d. visit graph fuel p (i ∷ visiting) d) (graph i) done in
    let deeper = onward parents (λ d. ended (i ∷ d)) in
    if elem i visiting then cyclic else if elem i done then ended done else deeper
