-- ===== src/Common/Chunks.antt =====
-- The size of a part of a list that is cut in equal parts.
use Prim.Native.Nat.{ℕ, zero, suc, ◌+◌, ◌-◌, ◌*◌, ◌≤◌, ◌<◌}
use mathlib.Core.Path.{◌≡◌, ap}
use native.Mathlib.Omega.{arith}
use native.Mathlib.Decide.{dec_lt}

-- One chunk of two elements or more, cut in two parts or more, is not all of them.
expand : (a b t : ℕ) → (suc a + t) * suc (suc b) ≡ a + (a + (a * b + (b + (2 + (t + (t + t * b))))))
expand a b t = omega arith

pub chunk-lt : (n g q r : ℕ) → 2 ≤ n → 2 ≤ g → n + g - 1 ≡ q * g + r → q < n
chunk-lt zero g q r hn hg e = absurd (omega arith)
chunk-lt (suc a) zero q r hn hg e = absurd (omega arith)
chunk-lt (suc a) (suc zero) q r hn hg e = absurd (omega arith)
chunk-lt (suc a) (suc (suc b)) q r hn hg e = elim (dec_lt q (suc a)) [
  | yes less ↦ less
  | no more ↦
      let t = q - suc a in
      let same : q ≡ suc a + t = omega arith in
      absurd (omega (arith, expand a b t, ap (λ x. x * suc (suc b)) same, e, hn))
]
