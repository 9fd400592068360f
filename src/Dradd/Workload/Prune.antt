-- ===== src/Dradd/Workload/Prune.antt =====
-- `prune` keeps the largest part of a selection in which every operation has its prerequisites.
use kernel_bridge_concurrent.Common.{
  ==_iff, dec_lt, all_in, elem, ℕ, zero, suc, ◌≤◌, ◌<◌, ◌≡◌, refl, sym, ap, ◌∙◌, subst, ◌↔◌, inl,
  inr, true, false, ◌&&◌, List, [], ◌∷◌, arith, ◌==◌, Bool-cases, length,
}
use kernel_bridge_concurrent.Dradd.Workload.{
  Edge, Workload, required, all_required, supported, prune_loop, prune, valid, ids, is_empty,
  same_list, sorted_set,
}
use kernel_bridge_concurrent.Dradd.Workload.Sets.{
  In, Within, In-cons, In-head, In-tail, all_in-Within, Within-all_in, IsIncreasing,
  elem-sorted_set, sorted_set-IsIncreasing, sorted_set_of_IsIncreasing, same_list_iff,
  IsIncreasing-lt, IsIncreasing-tail, IsIncreasing-cons, Within-trans,
}

module _ (edges : List Edge) where
  -- Every operation of the selection has its prerequisites in it.
  abbrev pub IsClosed : List ℕ → Type 0
  IsClosed kept = (i : ℕ) → In i kept → Within (required edges i) kept

  elem-supported :
      (kept rest : List ℕ) (x : ℕ)
      → elem x (supported edges kept rest) ≡ (elem x rest && all_in (required edges x) kept)
  unfolding supported
  elem-supported kept [] x = refl
  elem-supported kept (i ∷ rest) x = elim (Bool-cases (x == i)) [
    | inl same ↦
        let e = (==_iff x i).0 same in
        ground (arith, elem-supported kept rest x, e, ap (λ k. all_in (required edges k) kept) e)
    | inr other ↦ ground (arith, elem-supported kept rest x)
  ]

  length-supported-le : (kept rest : List ℕ) → length (supported edges kept rest) ≤ length rest
  unfolding supported
  length-supported-le kept [] = omega arith
  length-supported-le kept (i ∷ rest) = ground (arith, length-supported-le kept rest)

  -- What leaves as many operations leaves them all.
  supported-eq_of_length :
      (kept rest : List ℕ)
      → length rest ≤ length (supported edges kept rest)
      → supported edges kept rest ≡ rest
  unfolding supported
  supported-eq_of_length kept [] h = refl
  supported-eq_of_length kept (i ∷ rest) h =
      ground (arith, supported-eq_of_length kept rest, length-supported-le kept rest)

  supported-IsIncreasing :
      (kept rest : List ℕ) → IsIncreasing rest → IsIncreasing (supported edges kept rest)
  unfolding supported
  supported-IsIncreasing kept [] h = tt
  supported-IsIncreasing kept (i ∷ rest) h = elim (Bool-cases (all_in (required edges i) kept)) [
    | inl has ↦ rw has (
        IsIncreasing-cons i (supported edges kept rest)
          (λ z m. IsIncreasing-lt i rest h z (ground (arith, elem-supported kept rest z)))
          (supported-IsIncreasing kept rest (IsIncreasing-tail i rest h)))
    | inr lacks ↦ rw lacks (supported-IsIncreasing kept rest (IsIncreasing-tail i rest h))
  ]

  supported-Within : (kept : List ℕ) → Within (supported edges kept kept) kept
  supported-Within kept x m = ground (arith, elem-supported kept kept x)

  -- A closed part of the selection survives each round.
  Within-supported :
      (part kept : List ℕ)
      → IsClosed part
      → Within part kept
      → Within part (supported edges kept kept)
  Within-supported part kept closed inside x m = ground (
    arith,
    elem-supported kept kept x,
    inside x m,
    Within-all_in (required edges x) kept
        (Within-trans (required edges x) part kept (closed x m) inside),
  )

  IsClosed-supported : (kept : List ℕ) → supported edges kept kept ≡ kept → IsClosed kept
  IsClosed-supported kept same i m =
      all_in-Within (required edges i) kept
        (ground (arith, elem-supported kept kept i, ap (elem i) same))

  length-supported-lt :
      (kept : List ℕ)
      → same_list (supported edges kept kept) kept ≡ false
      → length (supported edges kept kept) < length kept
  length-supported-lt kept other =
      elim (dec_lt (length (supported edges kept kept)) (length kept)) [
        | yes p ↦ p
        | no n ↦ cc (
          (same_list_iff (supported edges kept kept) kept).1
              (supported-eq_of_length kept kept (omega arith)),
          other,
        )
      ]

  prune_loop-IsClosed :
      (fuel : ℕ) (kept : List ℕ) → length kept < fuel → IsClosed (prune_loop edges fuel kept)
  unfolding prune_loop
  prune_loop-IsClosed zero kept h = absurd (omega arith)
  prune_loop-IsClosed (suc fuel) kept h =
      elim (Bool-cases (same_list (supported edges kept kept) kept)) [
        | inl same ↦ rw same (IsClosed-supported kept ((same_list_iff _ kept).0 same))
        | inr other ↦ rw other (
            prune_loop-IsClosed fuel (supported edges kept kept)
              (omega (arith, length-supported-lt kept other)))
      ]

  Within-prune_loop :
      (fuel : ℕ) (part kept : List ℕ)
      → IsClosed part
      → Within part kept
      → Within part (prune_loop edges fuel kept)
  unfolding prune_loop
  Within-prune_loop zero part kept closed inside = inside
  Within-prune_loop (suc fuel) part kept closed inside =
      elim (Bool-cases (same_list (supported edges kept kept) kept)) [
        | inl same ↦ rw same inside
        | inr other ↦ rw other (
            Within-prune_loop fuel part (supported edges kept kept) closed
              (Within-supported part kept closed inside))
      ]

  prune_loop-Within : (fuel : ℕ) (kept : List ℕ) → Within (prune_loop edges fuel kept) kept
  unfolding prune_loop
  prune_loop-Within zero kept = λ x m. m
  prune_loop-Within (suc fuel) kept =
      elim (Bool-cases (same_list (supported edges kept kept) kept)) [
        | inl same ↦ rw same (λ x m. m)
        | inr other ↦ rw other (
            Within-trans _ (supported edges kept kept) kept
              (prune_loop-Within fuel (supported edges kept kept)) (supported-Within kept))
      ]

  prune_loop-IsIncreasing :
      (fuel : ℕ) (kept : List ℕ) → IsIncreasing kept → IsIncreasing (prune_loop edges fuel kept)
  unfolding prune_loop
  prune_loop-IsIncreasing zero kept h = h
  prune_loop-IsIncreasing (suc fuel) kept h =
      elim (Bool-cases (same_list (supported edges kept kept) kept)) [
        | inl same ↦ rw same h
        | inr other ↦ rw other (
            prune_loop-IsIncreasing fuel (supported edges kept kept)
              (supported-IsIncreasing kept kept h))
      ]

module _ {ℓ} {A : Type ℓ} (w : Workload A) where
  -- In what `prune` keeps, every operation has the prerequisites that the workload requires.
  pub prune-IsClosed : (keep : List ℕ) → IsClosed w.dependencies (prune w keep)
  unfolding prune
  prune-IsClosed keep =
      prune_loop-IsClosed w.dependencies (suc (length (sorted_set keep))) (sorted_set keep)
        (omega arith)

  sorted_set-Within : (keep : List ℕ) → Within (sorted_set keep) keep
  sorted_set-Within keep x m = sym (elem-sorted_set x keep) ∙ m

  pub prune-Within : (keep : List ℕ) → Within (prune w keep) keep
  unfolding prune
  prune-Within keep =
      Within-trans (prune w keep) (sorted_set keep) keep
        (prune_loop-Within w.dependencies (suc (length (sorted_set keep))) (sorted_set keep))
        (sorted_set-Within keep)

  -- `prune` keeps the largest selection of the given operations in which each has its
  -- prerequisites: one that has them all, part of the given, and with every other such part in it.
  pub prune_greatest :
      (keep part : List ℕ)
      → IsClosed w.dependencies part
      → Within part keep
      → IsClosed w.dependencies (prune w keep)
        × Within (prune w keep) keep
        × Within part (prune w keep)
  unfolding prune
  prune_greatest keep part closed inside = (
    prune-IsClosed keep,
    prune-Within keep,
    Within-prune_loop w.dependencies (suc (length (sorted_set keep))) part (sorted_set keep) closed
        (λ x m. elem-sorted_set x keep ∙ inside x m),
  )

  pub prune-IsIncreasing : (keep : List ℕ) → IsIncreasing (prune w keep)
  unfolding prune
  prune-IsIncreasing keep =
      prune_loop-IsIncreasing w.dependencies (suc (length (sorted_set keep))) (sorted_set keep)
        (sorted_set-IsIncreasing keep)

  all_required-true :
      (keep kept : List ℕ)
      → ((i : ℕ) → In i keep → Within (required w.dependencies i) kept)
      → all_required w.dependencies keep kept ≡ true
  unfolding all_required
  all_required-true [] kept h = refl
  all_required-true (i ∷ keep) kept h = ground (
    arith,
    Within-all_in (required w.dependencies i) kept (h i (In-head i keep)),
    all_required-true keep kept (λ j m. h j (In-tail j i keep m)),
  )

  required_of_all :
      (keep kept : List ℕ)
      → all_required w.dependencies keep kept ≡ true
      → (i : ℕ) → In i keep
      → Within (required w.dependencies i) kept
  unfolding all_required
  required_of_all [] kept h i m = cc
  required_of_all (j ∷ keep) kept h i m = elim (In-cons i j keep m) [
    | inl same ↦
        subst (λ k. Within (required w.dependencies k) kept) (sym same)
          (all_in-Within (required w.dependencies j) kept (ground arith))
    | inr later ↦ required_of_all keep kept (ground arith) i later
  ]

  -- The test `valid` in words.
  pub record IsValid (keep : List ℕ) : Type 0 where
    pub nonempty : is_empty keep ≡ false
    pub increasing : IsIncreasing keep
    pub known : Within keep (ids w)
    pub closed : IsClosed w.dependencies keep

  -- `valid` tests that a selection is not empty, increasing, made of the workload's operations, and
  -- closed under the prerequisites.
  pub valid_iff : (keep : List ℕ) → (valid w keep ≡ true) ↔ IsValid keep
  unfolding valid
  valid_iff keep = (
    λ h. record {
      nonempty = ground arith;
      increasing =
          subst IsIncreasing ((same_list_iff (sorted_set keep) keep).0 (ground arith))
            (sorted_set-IsIncreasing keep);
      known = all_in-Within keep (ids w) (ground arith);
      closed = required_of_all keep keep (ground arith);
    },
    λ v. rw (
      v.nonempty,
      (same_list_iff (sorted_set keep) keep).1 (sorted_set_of_IsIncreasing keep v.increasing),
      Within-all_in keep (ids w) v.known,
      all_required-true keep keep v.closed,
    ),
  )

  -- A selection that is pruned to something is valid, if all its operations are the workload's.
  pub prune-IsValid :
      (keep : List ℕ)
      → Within keep (ids w)
      → is_empty (prune w keep) ≡ false
      → valid w (prune w keep) ≡ true
  prune-IsValid keep known some_left = (valid_iff (prune w keep)).1 (record {
    nonempty = some_left;
    increasing = prune-IsIncreasing keep;
    known = Within-trans (prune w keep) keep (ids w) (prune-Within keep) known;
    closed = prune-IsClosed keep;
  })
