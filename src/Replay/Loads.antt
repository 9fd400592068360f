-- ===== src/Replay/Loads.antt =====
-- A deletion keeps the order of the operations, each with its worker.
use kernel_bridge_concurrent.Common.{
  ◌++◌, ◌≤◌, ◌-◌, ℕ, zero, suc, ◌+◌, ◌≡◌, refl, sym, subst, List, [], ◌∷◌, length, take, drop,
  length-append, length-take, length-drop, arith, min,
}
use mathlib.Core.List.{Sublistᴰ}
use mathlib.Core.List.Sublistᴰ
use kernel_bridge_concurrent.Contract.Ops.{Op}
use kernel_bridge_concurrent.Replay.{Load, outside, without}

abbrev pub pairs : List Op → List ℕ → List (Op × ℕ)
pairs [] ws = []
pairs (op ∷ ops) [] = []
pairs (op ∷ ops) (w ∷ ws) = (op, w) ∷ pairs ops ws

-- The operations of a load in their order, each with its worker.
abbrev pub owned_ops : Load → List (Op × ℕ)
owned_ops l = pairs l.operations l.worker_ids

nil-Sublist : (xs : List (Op × ℕ)) → Sublistᴰ [] xs
nil-Sublist [] = Sublistᴰ.slnil
nil-Sublist (x ∷ xs) = Sublistᴰ.cons (nil-Sublist xs)

pairs-nil : (ops : List Op) → pairs ops [] ≡ []
pairs-nil [] = refl
pairs-nil (op ∷ ops) = refl

pairs-drop-Sublist :
    (n : ℕ) (ops : List Op) (ws : List ℕ) → Sublistᴰ (pairs (drop n ops) (drop n ws)) (pairs ops ws)
pairs-drop-Sublist zero ops ws = Sublistᴰ.refl (pairs ops ws)
pairs-drop-Sublist (suc n) [] ws = Sublistᴰ.slnil
pairs-drop-Sublist (suc n) (op ∷ ops) [] =
    subst (λ l. Sublistᴰ l []) (sym (pairs-nil (drop n ops))) Sublistᴰ.slnil
pairs-drop-Sublist (suc n) (op ∷ ops) (w ∷ ws) = Sublistᴰ.cons (pairs-drop-Sublist n ops ws)

-- What stands before `start` and from `stop` on.
cut-Sublist :
    (start stop : ℕ) (ops : List Op) (ws : List ℕ)
    → start ≤ stop
    → Sublistᴰ
        (pairs (take start ops ++ drop stop ops) (take start ws ++ drop stop ws))
        (pairs ops ws)
cut-Sublist zero stop ops ws h = pairs-drop-Sublist stop ops ws
cut-Sublist (suc start) zero ops ws h = absurd (omega arith)
cut-Sublist (suc start) (suc stop) [] ws h = Sublistᴰ.slnil
cut-Sublist (suc start) (suc stop) (op ∷ ops) [] h = Sublistᴰ.slnil
cut-Sublist (suc start) (suc stop) (op ∷ ops) (w ∷ ws) h =
    Sublistᴰ.cons-cons refl (cut-Sublist start stop ops ws (omega arith))

pub without-Sublist :
    (l : Load) (start width : ℕ) → Sublistᴰ (owned_ops (without l start width)) (owned_ops l)
without-Sublist l start width =
    cut-Sublist start (start + width) l.operations l.worker_ids (omega arith)

pub length-outside {ℓ} :
    {A : Type ℓ} (start width : ℕ) (xs : List A)
    → length (outside start width xs) ≡ min start (length xs) + (length xs - (start + width))
length-outside start width xs = omega (
  arith,
  length-append (take start xs) (drop (start + width) xs),
  length-take start xs,
  length-drop (start + width) xs,
)

pub length-without :
    (l : Load) (start width : ℕ)
    → length l.worker_ids ≡ length l.operations
    → length (without l start width).worker_ids ≡ length (without l start width).operations
length-without l start width same =
    omega (arith, length-outside start width l.operations, length-outside start width l.worker_ids)
