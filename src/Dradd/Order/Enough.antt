-- ===== src/Dradd/Order/Enough.antt =====
-- The fuel of the depth-first search is enough: an operation under visit is not visited again.
use kernel_bridge_concurrent.Common.{
  ℕ, zero, suc, ◌+◌, ◌≤◌, ◌<◌, ◌≡◌, ◌≢◌, refl, ap, ◌∙◌, inl, inr, false, List, [], ◌∷◌, elem, ◌==◌,
  if◌then◌else◌, arith, Bool-cases, ==_iff,
}
use kernel_bridge_concurrent.Dradd.Workload.Sets.{In, In-head, In-tail}
use kernel_bridge_concurrent.Dradd.Order.{Walk, cyclic, spent, ended, onward, over, visit}
use kernel_bridge_concurrent.Dradd.Order.Sound.{onward-spent}

-- How many of the numbers below `n` are not in the list.
abbrev pub missing : ℕ → List ℕ → ℕ
missing zero xs = 0
missing (suc n) xs = (if elem n xs then 0 else 1) + missing n xs

missing-le : (n : ℕ) (xs : List ℕ) → missing n xs ≤ n
missing-le zero xs = omega arith
missing-le (suc n) xs = ground (arith, missing-le n xs)

missing-cons-le : (n i : ℕ) (xs : List ℕ) → missing n (i ∷ xs) ≤ missing n xs
missing-cons-le zero i xs = omega arith
missing-cons-le (suc n) i xs = ground (arith, missing-cons-le n i xs)

missing-cons-lt :
    (n i : ℕ) (xs : List ℕ) → i < n → elem i xs ≡ false → missing n (i ∷ xs) < missing n xs
missing-cons-lt zero i xs less new = absurd (omega arith)
missing-cons-lt (suc n) i xs less new = elim (Bool-cases (n == i)) [
  | inl same ↦
      let e = (==_iff n i).0 same in
      let new_here : elem n xs ≡ false = ap (λ k. elem k xs) e ∙ new in
      rw (same, new_here) (omega (arith, missing-cons-le n i xs))
  | inr other ↦ rw other (ground (arith, missing-cons-lt n i xs (ground (arith, less, other)) new))
]

module _ (graph : ℕ → List ℕ) (n : ℕ) (inside : (i p : ℕ) → In p (graph i) → p < n) where
  over-ne-spent :
      (go : ℕ → List ℕ → Walk) (ids d : List ℕ)
      → ((i : ℕ) (q : List ℕ) → In i ids → go i q ≢ spent)
      → over go ids d ≢ spent
  unfolding over
  over-ne-spent go [] d fine e = cc
  over-ne-spent go (i ∷ ids) d fine e = elim (onward-spent (go i d) (over go ids) e) [
    | inl here ↦ fine i d (In-head i ids) here
    | inr (d1, first, rest) ↦ over-ne-spent go ids d1 (λ j q m. fine j q (In-tail j i ids m)) rest
  ]

  onward_added-spent : (w : Walk) (i : ℕ) → onward w (λ d. ended (i ∷ d)) ≡ spent → w ≡ spent
  onward_added-spent cyclic i e = cc
  onward_added-spent spent i e = refl
  onward_added-spent (ended d) i e = cc

  visit-ne-spent :
      (fuel i : ℕ) (visiting d : List ℕ)
      → i < n
      → missing n visiting < fuel
      → visit graph fuel i visiting d ≢ spent
  unfolding visit
  visit-ne-spent zero i visiting d less enough e = omega arith
  visit-ne-spent (suc fuel) i visiting d less enough e = elim (Bool-cases (elem i visiting)) [
    | inl amid ↦ cc (rw amid at e)
    | inr fresh ↦ elim (Bool-cases (elem i d)) [
      | inl was_done ↦ cc (rw (fresh, was_done) at e)
      | inr new ↦
          over-ne-spent (λ p q. visit graph fuel p (i ∷ visiting) q) (graph i) d
            (λ p q m.
              visit-ne-spent fuel p (i ∷ visiting) q (inside i p m)
                (omega (arith, missing-cons-lt n i visiting less fresh)))
            (onward_added-spent _ i (rw (fresh, new) at e))
    ]
  ]

  -- The visits of all ids, with fuel above their number.
  pub visits-ne-spent :
      (ids d : List ℕ)
      → ((i : ℕ) → In i ids → i < n)
      → over (λ i q. visit graph (suc n) i [] q) ids d ≢ spent
  visits-ne-spent ids d bounded =
      over-ne-spent (λ i q. visit graph (suc n) i [] q) ids d
        (λ i q m. visit-ne-spent (suc n) i [] q (bounded i m) (omega (arith, missing-le n [])))
