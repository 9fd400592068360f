-- ===== src/History/Search/Remaining.antt =====
-- The events that a mask leaves, and how a mask and a row of bits bear on them.
use mathlib.Core.Option.{some-injective}
use mathlib.Core.List.{Memᴰ, Perm}
use mathlib.Core.List.Perm
use mathlib.Core.List.Memᴰ
use kernel_bridge_concurrent.Common.{
  subst, Bool-cases, inl, inr, ℕ, zero, suc, ◌≡◌, refl, ap, sym, List, [], ◌∷◌, some, Bool, true,
  false, map, arith, length, get_or, set, get_elem?, inl, inr,
}
use kernel_bridge_concurrent.History.Search.{complete, blocked}

module _ {ℓ} {A : Type ℓ} where
  -- The elements whose bit is not set.
  abbrev pub remaining : List Bool → List A → List A
  remaining mask [] = []
  remaining [] (x ∷ xs) = x ∷ xs
  remaining (true ∷ mask) (x ∷ xs) = remaining mask xs
  remaining (false ∷ mask) (x ∷ xs) = x ∷ remaining mask xs

  pub remaining-complete :
      (mask : List Bool) (xs : List A)
      → length mask ≡ length xs
      → complete mask ≡ true
      → remaining mask xs ≡ []
  remaining-complete mask [] h c = refl
  remaining-complete [] (x ∷ xs) h c = absurd (omega arith)
  remaining-complete (true ∷ mask) (x ∷ xs) h c = remaining-complete mask xs (omega arith) c
  remaining-complete (false ∷ mask) (x ∷ xs) h c = cc

  -- To set the bit of an element is to take it out.
  pub remaining-set-perm :
      (mask : List Bool) (xs : List A) (i : ℕ) {x : A}
      → length mask ≡ length xs
      → get_elem? xs i ≡ some x
      → get_or mask i false ≡ false
      → Perm (x ∷ remaining (set mask i true) xs) (remaining mask xs)
  remaining-set-perm mask [] i h at free = cc
  remaining-set-perm [] (x ∷ xs) i h at free = absurd (omega arith)
  remaining-set-perm (true ∷ mask) (x ∷ xs) zero h at free = cc
  remaining-set-perm (false ∷ mask) (x ∷ xs) zero {x = y} h at free =
      subst (λ z. Perm (z ∷ remaining mask xs) (x ∷ remaining mask xs)) (some-injective x y at)
        Perm.rfl
  remaining-set-perm (true ∷ mask) (x ∷ xs) (suc i) h at free =
      remaining-set-perm mask xs i (omega arith) at free
  remaining-set-perm (false ∷ mask) (x ∷ xs) (suc i) {x = y} h at free =
      Perm.trans (Perm.swap x y (remaining (set mask i true) xs))
        (Perm.cons x (remaining-set-perm mask xs i (omega arith) at free))

  -- What is left stands at a position whose bit is not set.
  pub remaining-at :
      (mask : List Bool) (xs : List A) {x : A}
      → length mask ≡ length xs
      → Memᴰ x (remaining mask xs)
      → (i : ℕ) × (get_elem? xs i ≡ some x) × (get_or mask i false ≡ false)
  remaining-at mask [] h m = absurd (Memᴰ.not-nil m)
  remaining-at [] (x ∷ xs) h m = absurd (omega arith)
  remaining-at (true ∷ mask) (x ∷ xs) h m =
      let (i, at, free) = remaining-at mask xs (omega arith) m in (suc i, at, free)
  remaining-at (false ∷ mask) (x ∷ xs) h (Memᴰ.head e) = (0, ap some (sym e), refl)
  remaining-at (false ∷ mask) (x ∷ xs) h (Memᴰ.tail m) =
      let (i, at, free) = remaining-at mask xs (omega arith) m in (suc i, at, free)

  -- A row blocks exactly if one of its elements is left.
  pub blocked_of_mem :
      (p : A → Bool) (mask : List Bool) (xs : List A) {x : A}
      → length mask ≡ length xs
      → Memᴰ x (remaining mask xs)
      → p x ≡ true
      → blocked (map p xs) mask ≡ true
  blocked_of_mem p mask [] h m e = absurd (Memᴰ.not-nil m)
  blocked_of_mem p [] (x ∷ xs) h m e = absurd (omega arith)
  blocked_of_mem p (true ∷ mask) (x ∷ xs) h m e =
      ground (arith, blocked_of_mem p mask xs (omega arith) m e)
  blocked_of_mem p (false ∷ mask) (x ∷ xs) h (Memᴰ.head q) e = rw (← q, e)
  blocked_of_mem p (false ∷ mask) (x ∷ xs) h (Memᴰ.tail m) e =
      ground (arith, blocked_of_mem p mask xs (omega arith) m e)

  pub mem_of_blocked :
      (p : A → Bool) (mask : List Bool) (xs : List A)
      → length mask ≡ length xs
      → blocked (map p xs) mask ≡ true
      → (x : A) × Memᴰ x (remaining mask xs) × (p x ≡ true)
  mem_of_blocked p mask [] h e = cc
  mem_of_blocked p [] (x ∷ xs) h e = absurd (omega arith)
  mem_of_blocked p (true ∷ mask) (x ∷ xs) h e =
      mem_of_blocked p mask xs (omega arith) (ground arith)
  mem_of_blocked p (false ∷ mask) (x ∷ xs) h e = elim (Bool-cases (p x)) [
    | inl hit ↦ (x, Memᴰ.head refl, hit)
    | inr miss ↦
        let (y, m, hit) = mem_of_blocked p mask xs (omega arith) (ground arith) in
        (y, Memᴰ.tail m, hit)
  ]

  -- Setting one bit takes one element out.
  pub length-remaining-set :
      (mask : List Bool) (xs : List A) (i : ℕ) {x : A}
      → length mask ≡ length xs
      → get_elem? xs i ≡ some x
      → get_or mask i false ≡ false
      → suc (length (remaining (set mask i true) xs)) ≡ length (remaining mask xs)
  length-remaining-set mask [] i h at free = cc
  length-remaining-set [] (x ∷ xs) i h at free = absurd (omega arith)
  length-remaining-set (true ∷ mask) (x ∷ xs) zero h at free = cc
  length-remaining-set (false ∷ mask) (x ∷ xs) zero h at free = refl
  length-remaining-set (true ∷ mask) (x ∷ xs) (suc i) h at free =
      length-remaining-set mask xs i (omega arith) at free
  length-remaining-set (false ∷ mask) (x ∷ xs) (suc i) h at free =
      ap suc (length-remaining-set mask xs i (omega arith) at free)

  -- A mask that leaves nothing is complete.
  pub complete_of_remaining :
      (mask : List Bool) (xs : List A)
      → length mask ≡ length xs
      → length (remaining mask xs) ≡ 0
      → complete mask ≡ true
  complete_of_remaining [] xs h e = refl
  complete_of_remaining (b ∷ mask) [] h e = absurd (omega arith)
  complete_of_remaining (true ∷ mask) (x ∷ xs) h e = complete_of_remaining mask xs (omega arith) e
  complete_of_remaining (false ∷ mask) (x ∷ xs) h e = absurd (omega arith)
