-- ===== src/Dradd/Workload/Sets.antt =====
-- Increasing lists as sets.
use kernel_bridge_concurrent.Common.{
  inr, inl, elem, all_in, ℕ, ◌<◌, ◌≡◌, refl, ap, ◌∙◌, ◌↔◌, ◌⊎◌, if_pos, if_neg, true, ◌||◌, List,
  [], ◌∷◌, arith, ◌==◌,
}
use kernel_bridge_concurrent.Contract.Ops.{Text-discrete}
use kernel_bridge_concurrent.Dradd.Workload.{insert, sorted_set, same_list}

-- The library's membership of numbers, by the test of the program.
abbrev pub In : ℕ → List ℕ → Type 0
In x xs = elem x xs ≡ true

abbrev pub Within : List ℕ → List ℕ → Type 0
Within xs ys = (x : ℕ) → In x xs → In x ys

pub In-cons : (x y : ℕ) (ys : List ℕ) → In x (y ∷ ys) → (x ≡ y) ⊎ In x ys
In-cons x y ys h = ground arith

pub In-head : (x : ℕ) (ys : List ℕ) → In x (x ∷ ys)
In-head x ys = ground arith

pub In-tail : (x y : ℕ) (ys : List ℕ) → In x ys → In x (y ∷ ys)
In-tail x y ys h = ground arith

pub all_in-Within : (xs ys : List ℕ) → all_in xs ys ≡ true → Within xs ys
all_in-Within [] ys h x m = cc
all_in-Within (z ∷ xs) ys h x m =
    ground (arith, all_in-Within xs ys (ground arith) x, In-cons x z xs m)

pub Within-all_in : (xs ys : List ℕ) → Within xs ys → all_in xs ys ≡ true
Within-all_in [] ys h = refl
Within-all_in (z ∷ xs) ys h =
    ground (arith, h z (In-head z xs), Within-all_in xs ys (λ x m. h x (In-tail x z xs m)))

-- Increasing, from a number on.
abbrev pub IsIncreasing : List ℕ → Type 0
IsIncreasing [] = Unit
IsIncreasing (x ∷ []) = Unit
IsIncreasing (x ∷ y ∷ ys) = (x < y) × IsIncreasing (y ∷ ys)

pub elem-insert : (x y : ℕ) (ys : List ℕ) → elem x (insert y ys) ≡ (x == y || elem x ys)
elem-insert x y [] = refl
elem-insert x y (z ∷ ys) = ground (arith, elem-insert x y ys)

pub elem-sorted_set : (x : ℕ) (xs : List ℕ) → elem x (sorted_set xs) ≡ elem x xs
elem-sorted_set x [] = refl
elem-sorted_set x (y ∷ ys) =
    elem-insert x y (sorted_set ys) ∙ ap (λ b. x == y || b) (elem-sorted_set x ys)

pub insert-IsIncreasing : (x : ℕ) (ys : List ℕ) → IsIncreasing ys → IsIncreasing (insert x ys)
insert-IsIncreasing x [] h = tt
insert-IsIncreasing x (y ∷ []) h = ground arith
insert-IsIncreasing x (y ∷ z ∷ ys) h = ground (arith, insert-IsIncreasing x (z ∷ ys) h.1)

pub sorted_set-IsIncreasing : (xs : List ℕ) → IsIncreasing (sorted_set xs)
sorted_set-IsIncreasing [] = tt
sorted_set-IsIncreasing (x ∷ xs) =
    insert-IsIncreasing x (sorted_set xs) (sorted_set-IsIncreasing xs)

-- An increasing list is its own sorted set.
pub sorted_set_of_IsIncreasing : (xs : List ℕ) → IsIncreasing xs → sorted_set xs ≡ xs
sorted_set_of_IsIncreasing [] h = refl
sorted_set_of_IsIncreasing (x ∷ []) h = refl
sorted_set_of_IsIncreasing (x ∷ y ∷ ys) h =
    ap (insert x) (sorted_set_of_IsIncreasing (y ∷ ys) h.1) ∙ ground arith

pub same_list_iff : (xs ys : List ℕ) → (same_list xs ys ≡ true) ↔ (xs ≡ ys)
same_list_iff xs ys = elim (Text-discrete xs ys) [
  | yes e ↦ rw (if_pos _ e) (λ _. e, λ _. refl)
  | no ne ↦ rw (if_neg _ ne) (λ f. cc, λ e. absurd (ne e))
]

-- The first of an increasing list is below the others.
pub IsIncreasing-lt : (x : ℕ) (ys : List ℕ) → IsIncreasing (x ∷ ys) → (z : ℕ) → In z ys → x < z
IsIncreasing-lt x [] h z m = cc
IsIncreasing-lt x (y ∷ ys) h z m = elim (In-cons z y ys m) [
  | inl same ↦ omega arith
  | inr later ↦ omega (arith, IsIncreasing-lt y ys h.1 z later)
]

pub IsIncreasing-tail : (x : ℕ) (ys : List ℕ) → IsIncreasing (x ∷ ys) → IsIncreasing ys
IsIncreasing-tail x [] h = tt
IsIncreasing-tail x (y ∷ ys) h = h.1

pub IsIncreasing-cons :
    (x : ℕ) (ys : List ℕ) → ((z : ℕ) → In z ys → x < z) → IsIncreasing ys → IsIncreasing (x ∷ ys)
IsIncreasing-cons x [] below h = tt
IsIncreasing-cons x (y ∷ ys) below h = (below y (In-head y ys), h)

pub Within-trans : (xs ys zs : List ℕ) → Within xs ys → Within ys zs → Within xs zs
Within-trans xs ys zs h k x m = k x (h x m)
