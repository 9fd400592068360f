-- ===== src/Tests/Generated.antt =====
-- A generated scenario, from a source that counts.
use native.Mathlib.Nat.{mod-lt}
use kernel_bridge_concurrent.Common.{ℕ, suc, ◌%◌, ◌<◌, ◌≡◌, refl, none, some, length}
use kernel_bridge_concurrent.Contract.Validate.{Scenario, validate}
use kernel_bridge_concurrent.Contract.Generate.{Random, generate}
use kernel_bridge_concurrent.Contract.Generate.Valid.{generate-valid}

abbrev counting : Random ℕ
counting = record { below = λ s n. (suc s, s % n) }

counting-lt : (s n : ℕ) → 0 < n → (counting.below s n).1 < n
counting-lt s n h = mod-lt s h

generate-valid_example :
    (scenario : Scenario) × (generate counting 5 20 ≡ some scenario)
    × (length scenario.operations ≡ 20)
    × (validate scenario ≡ none)
generate-valid_example = generate-valid counting counting-lt 5 20 refl
