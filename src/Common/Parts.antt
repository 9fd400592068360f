-- ===== src/Common/Parts.antt =====
-- What is left of a list when a part of it is cut out.
use Prim.Native.Nat.{ℕ, zero, suc, ◌≤◌}
use mathlib.Core.Path.{refl}
use mathlib.Core.List.{List, [], ◌∷◌, ◌++◌, Sublistᴰ}
use mathlib.Core.List.Sublistᴰ
use native.Mathlib.Omega.{arith}
use kernel_bridge_concurrent.Common.Lists.{take, drop}

pub drop-Sublist {ℓ} : {A : Type ℓ} (n : ℕ) (xs : List A) → Sublistᴰ (drop n xs) xs
drop-Sublist zero xs = Sublistᴰ.refl xs
drop-Sublist (suc n) [] = Sublistᴰ.slnil
drop-Sublist (suc n) (x ∷ xs) = Sublistᴰ.cons (drop-Sublist n xs)

pub cut-Sublist {ℓ} :
    {A : Type ℓ} (start stop : ℕ) (xs : List A)
    → start ≤ stop
    → Sublistᴰ (take start xs ++ drop stop xs) xs
cut-Sublist zero stop xs h = drop-Sublist stop xs
cut-Sublist (suc start) zero xs h = absurd (omega arith)
cut-Sublist (suc start) (suc stop) [] h = Sublistᴰ.slnil
cut-Sublist (suc start) (suc stop) (x ∷ xs) h =
    Sublistᴰ.cons-cons refl (cut-Sublist start stop xs (omega arith))
