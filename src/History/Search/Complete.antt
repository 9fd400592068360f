-- ===== src/History/Search/Complete.antt =====
-- Where the search answers None there is no linearization.
use mathlib.Core.Option.{some-injective}
use mathlib.Core.Logic.Or
use mathlib.Core.List.{mem-cons}
use mathlib.Core.HLevel.{⊥_prop}
use mathlib.Core.Logic.{∥∥₁_elim}
use mathlib.Core.List.{Memᴰ, Perm, mem-cons_self}
use mathlib.Core.List.Perm
use kernel_bridge_concurrent.Common.{
  ◌≤◌, subst, length-set, Bool-cases, ap, sym, ◌∙◌, ℕ, zero, suc, ◌≡◌, List, [], ◌∷◌, ◌++◌, some,
  Bool, true, false, arith, get_or, set, get_elem?, inl, inr, length,
}
use kernel_bridge_concurrent.Contract.Ops.{Reply}
use kernel_bridge_concurrent.Contract.Model.{Model, apply}
use kernel_bridge_concurrent.History.Events.{Event, Precedes}
use kernel_bridge_concurrent.History.Search.{Step, Candidate, complete, absent, search}
use kernel_bridge_concurrent.History.Search.Spec.{Respects, Replays, step, IsLinearization}
use kernel_bridge_concurrent.History.Search.Remaining.{
  complete_of_remaining, remaining, remaining-set-perm, remaining-at,
}
use kernel_bridge_concurrent.History.Search.Candidates.{Covers, free_of_first}
use kernel_bridge_concurrent.History.Search.Steps.{
  all_absent, below_of_absent, search-complete, search-suc, search-zero,
}

not_before_self : (e : Event) → e.started ≤ e.finished → ¬ Precedes e e
not_before_self e timely (inl h) = omega arith
not_before_self e timely (inr h) = omega arith

-- What may come first in a linearization has no predecessor among what is left.
first_of_linear :
    (mask : List Bool) (history : List Event) (x : Event) (es : List Event)
    → x.started ≤ x.finished
    → Perm (x ∷ es) (remaining mask history)
    → Respects (x ∷ es)
    → (q : Event) → Memᴰ q (remaining mask history)
    → ¬ Precedes q x
first_of_linear mask history x es timely perm respects q left before =
    Or.elim ⊥_prop (mem-cons.0 ((Perm.mem_iff perm).1 ∣ left ∣₁))
      (λ same. not_before_self x timely (subst (λ e. Precedes e x) same before))
      (λ later. respects.0 q later before)

module _ (budget : ℕ) (history : List Event) (cs : List Candidate)
    (covers : Covers history cs) where
  abbrev Hopeless : ℕ → Type 0
  Hopeless fuel =
      (mask : List Bool) (m : Model) (order : List ℕ) (explored after : ℕ) (es : List Event)
      → length mask ≡ length history
      → search budget cs fuel mask m order explored ≡ (absent, after)
      → Perm es (remaining mask history)
      → Respects es
      → ¬ Replays m es

  not_complete :
      (fuel : ℕ) (mask : List Bool) (m : Model) (order : List ℕ) (explored : ℕ) {after : ℕ}
      → search budget cs fuel mask m order explored ≡ (absent, after)
      → complete mask ≡ false
  not_complete fuel mask m order explored e = elim (Bool-cases (complete mask)) [
    | inl all ↦ cc (
        ap (λ (s : Step). s.0) (sym (search-complete budget cs fuel mask m order explored all) ∙ e))
    | inr left ↦ left
  ]

  taken-Hopeless :
      (fuel : ℕ) (mask : List Bool) (m : Model) (order : List ℕ) (explored after : ℕ) (x : Event)
      (es : List Event) {m' : Model} {r : Reply}
      → Hopeless fuel
      → length mask ≡ length history
      → search budget cs (suc fuel) mask m order explored ≡ (absent, after)
      → Perm (x ∷ es) (remaining mask history)
      → Respects (x ∷ es)
      → apply m x.operation ≡ some (m', r)
      → x.actual ≡ some r
      → Replays m' es
      → Memᴰ x (remaining mask history)
      → ⊥
  taken-Hopeless fuel mask m order explored after x es {m'} {r} below h e perm respects applied
        actual rest left =
      let (i, at, free) = remaining-at mask history h left in
      let (c, mem, is_at) = covers.all i x at in
      let same : c.event ≡ x = some-injective c.event x (sym is_at.event ∙ at) in
      let free' : get_or mask c.position false ≡ false =
        subst (λ k. get_or mask k false ≡ false) (sym is_at.position) free in
      let first =
        first_of_linear mask history x es
          (subst (λ (z : Event). z.started ≤ z.finished) same is_at.timely) perm respects in
      let (before, rest_count, tried) =
        all_absent budget (search budget cs fuel) mask m order explored cs
          (sym (
              search-suc budget cs fuel mask m order explored
                (not_complete (suc fuel) mask m order explored e))
            ∙ e)
          c mem in
      let deeper =
        below_of_absent budget (search budget cs fuel) mask m order c before tried free'
          (free_of_first history mask c h is_at (
            subst (λ (z : Event). (q : Event) → Memᴰ q (remaining mask history) → ¬ Precedes q z)
              (sym same) first))
          (subst (λ (z : Event). apply m z.operation ≡ some (m', r)) (sym same) applied)
          (subst (λ (z : Event). z.actual ≡ some r) (sym same) actual) in
      let out =
        remaining-set-perm mask history c.position h
          (subst (λ k. get_elem? history k ≡ some x) (sym is_at.position) at) free' in
      below (set mask c.position true) m' (order ++ c.event.index ∷ []) (suc before) rest_count es
        (length-set mask c.position true ∙ h) deeper
        (Perm.cons_inv (Perm.trans perm (Perm.symm out))) respects.1 rest

  absent-Hopeless : (fuel : ℕ) → Hopeless fuel
  absent-Hopeless fuel mask m order explored after [] h e perm respects replays = cc (
    not_complete fuel mask m order explored e,
    complete_of_remaining mask history h (ap length (Perm.eq-nil (Perm.symm perm))),
  )
  absent-Hopeless zero mask m order explored after (x ∷ es) h e perm respects replays = cc (
      ap (λ (s : Step). s.0)
        (sym (
            search-zero budget cs mask m order explored (not_complete zero mask m order explored e))
          ∙ e))
  absent-Hopeless (suc fuel) mask m order explored after (x ∷ es) h e perm respects
        (step applied actual rest) =
      ∥∥₁_elim ((Perm.mem_iff perm).0 mem-cons_self) ⊥_prop (
        taken-Hopeless fuel mask m order explored after x es (absent-Hopeless fuel) h e perm
          respects applied actual rest)

  -- The answer None refutes every order of the events that are left.
  pub search-absent :
      (fuel : ℕ) (mask : List Bool) (m : Model) (order : List ℕ) (explored after : ℕ)
      → length mask ≡ length history
      → search budget cs fuel mask m order explored ≡ (absent, after)
      → (es : List Event) → ¬ IsLinearization m (remaining mask history) es
  search-absent fuel mask m order explored after h e es l =
      absent-Hopeless fuel mask m order explored after es h e l.perm l.respects l.replays
