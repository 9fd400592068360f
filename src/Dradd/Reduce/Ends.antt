-- ===== src/Dradd/Reduce/Ends.antt =====
-- The search of `reduce` ends: each sweep makes an attempt or is over.
use kernel_bridge_concurrent.Common.{
  some-ne, ℕ, zero, suc, ◌+◌, ◌≤◌, ◌<◌, ◌≡◌, refl, sym, ap, subst, ◌≢◌, ◌⊎◌, inl, inr, Bool, ◌||◌,
  Option, none, List, [], ◌∷◌, arith, ltb, leb, Bool-cases, length,
}
use kernel_bridge_concurrent.Dradd.Workload.{Workload}
use kernel_bridge_concurrent.Dradd.Trials.{Floats}
use kernel_bridge_concurrent.Dradd.Reduce.{
  Adapter, Policy, Progress, Ending, changed, unchanged, exhausted, attempt, go_on, sweep,
  after_sweep, search, width_of, offsets_from, is_single,
}
use kernel_bridge_concurrent.Dradd.Reduce.Cases.{
  Attempted, over, not_run, no_room, accepted, rejected, attempt-Attempted,
}

offsets_from-suc :
    (size width : ℕ)
    → offsets_from (suc size) 0 (suc size) width
      ≡ 0 ∷ offsets_from size (0 + width) (suc size) width
unfolding offsets_from
offsets_from-suc size width = ground arith

module _ {A F : Type 0} (source : Workload A) (adapter : Adapter A) (floats : Floats F)
    (policy : Policy F) where
  -- Attempts are never lost, and stay within what is allowed.
  record IsAhead (p q : Progress) : Type 0 where
    pub not_fewer : p.attempts ≤ q.attempts
    pub within : p.attempts ≤ policy.max_candidates → q.attempts ≤ policy.max_candidates

  attempted-IsAhead :
      (p : Progress) (keep : List ℕ) (r : Progress × Ending)
      → Attempted source adapter floats policy p keep r
      → IsAhead p r.0
  attempted-IsAhead p keep r (over full e) =
      subst (λ (x : Progress × Ending). IsAhead p x.0) (sym e)
        (record { not_fewer = omega arith; within = λ h. h })
  attempted-IsAhead p keep r (not_run room e) =
      subst (λ (x : Progress × Ending). IsAhead p x.0) (sym e)
        (record { not_fewer = omega arith; within = λ h. omega arith })
  attempted-IsAhead p keep r (no_room room e) =
      subst (λ (x : Progress × Ending). IsAhead p x.0) (sym e)
        (record { not_fewer = omega arith; within = λ h. omega arith })
  attempted-IsAhead p keep r (accepted room ok fits yes_group e) =
      subst (λ (x : Progress × Ending). IsAhead p x.0) (sym e)
        (record { not_fewer = omega arith; within = λ h. omega arith })
  attempted-IsAhead p keep r (rejected room ok fits e) =
      subst (λ (x : Progress × Ending). IsAhead p x.0) (sym e)
        (record { not_fewer = omega arith; within = λ h. omega arith })

  -- An attempt that does not end the search is counted.
  attempted-lt :
      (p : Progress) (keep : List ℕ) (r : Progress × Ending)
      → Attempted source adapter floats policy p keep r
      → (r.1 ≡ exhausted) ⊎ (p.attempts < r.0.attempts)
  attempted-lt p keep r (over full e) = inl (ap (λ (x : Progress × Ending). x.1) e)
  attempted-lt p keep r (not_run room e) =
      inr (subst (λ (x : Progress × Ending). p.attempts < x.0.attempts) (sym e) (omega arith))
  attempted-lt p keep r (no_room room e) = inl (ap (λ (x : Progress × Ending). x.1) e)
  attempted-lt p keep r (accepted room ok fits yes_group e) =
      inr (subst (λ (x : Progress × Ending). p.attempts < x.0.attempts) (sym e) (omega arith))
  attempted-lt p keep r (rejected room ok fits e) =
      inr (subst (λ (x : Progress × Ending). p.attempts < x.0.attempts) (sym e) (omega arith))

  go_on-IsAhead :
      (p : Progress) (r : Progress × Ending) (rest : Progress → Progress × Ending)
      → IsAhead p r.0
      → ((q : Progress) → IsAhead q (rest q).0)
      → IsAhead p (go_on source adapter floats policy r rest).0
  go_on-IsAhead p (q, unchanged) rest h k = record {
    not_fewer = omega (arith, h.not_fewer, (k q).not_fewer);
    within = λ b. (k q).within (h.within b);
  }
  go_on-IsAhead p (q, changed) rest h k = h
  go_on-IsAhead p (q, exhausted) rest h k = h

  sweep-IsAhead :
      (width : ℕ) (offsets : List ℕ) (p : Progress)
      → IsAhead p (sweep source adapter floats policy width offsets p).0
  unfolding sweep
  sweep-IsAhead width [] p = record { not_fewer = omega arith; within = λ h. h }
  sweep-IsAhead width (offset ∷ offsets) p =
      go_on-IsAhead p (attempt source adapter floats policy p offset width)
        (λ q. sweep source adapter floats policy width offsets q)
        (attempted-IsAhead p _ _ (attempt-Attempted source adapter floats policy p offset width))
        (λ q. sweep-IsAhead width offsets q)

  go_on-lt :
      (p : Progress) (r : Progress × Ending) (rest : Progress → Progress × Ending)
      → (r.1 ≡ exhausted) ⊎ (p.attempts < r.0.attempts)
      → ((q : Progress) → IsAhead q (rest q).0)
      → ((go_on source adapter floats policy r rest).1 ≡ exhausted)
        ⊎ (p.attempts < (go_on source adapter floats policy r rest).0.attempts)
  go_on-lt p (q, unchanged) rest (inl e) k = cc
  go_on-lt p (q, unchanged) rest (inr l) k = inr (omega (arith, (k q).not_fewer))
  go_on-lt p (q, changed) rest h k = h
  go_on-lt p (q, exhausted) rest h k = inl refl

  sweep-lt :
      (width offset : ℕ) (offsets : List ℕ) (p : Progress)
      → ((sweep source adapter floats policy width (offset ∷ offsets) p).1 ≡ exhausted)
        ⊎ (p.attempts < (sweep source adapter floats policy width (offset ∷ offsets) p).0.attempts)
  unfolding sweep
  sweep-lt width offset offsets p =
      go_on-lt p (attempt source adapter floats policy p offset width)
        (λ q. sweep source adapter floats policy width offsets q)
        (attempted-lt p _ _ (attempt-Attempted source adapter floats policy p offset width))
        (λ q. sweep-IsAhead width offsets q)

  -- Over the whole range of two operations or more there is an offset to try.
  whole_sweep-lt :
      (size width : ℕ) (p : Progress)
      → 0 < size
      → ((sweep source adapter floats policy width (offsets_from size 0 size width) p).1
          ≡ exhausted)
        ⊎ (p.attempts
            < (sweep source adapter floats policy width
                (offsets_from size 0 size width)
                p).0.attempts)
  whole_sweep-lt zero width p some_left = absurd (omega arith)
  whole_sweep-lt (suc size) width p some_left =
      subst
        (λ os.
          ((sweep source adapter floats policy width os p).1 ≡ exhausted)
          ⊎ (p.attempts < (sweep source adapter floats policy width os p).0.attempts))
        (sym (offsets_from-suc size width)) (sweep-lt width 0 _ p)

  after_sweep-total :
      (again : Progress → Option (Progress × Bool)) (size : ℕ) (r : Progress × Ending) (n : ℕ)
      → (r.1 ≡ exhausted) ⊎ (n < r.0.attempts)
      → r.0.attempts ≤ policy.max_candidates
      → ((q : Progress) → n < q.attempts → q.attempts ≤ policy.max_candidates → again q ≢ none)
      → after_sweep source adapter floats policy again size r ≢ none
  after_sweep-total again size (p, exhausted) n l b k e = cc
  after_sweep-total again size (p, changed) n (inl x) b k e = cc
  after_sweep-total again size (p, changed) n (inr l) b k e = k p l b e
  after_sweep-total again size (p, unchanged) n (inl x) b k e = cc
  after_sweep-total again size (p, unchanged) n (inr l) b k e =
      elim (Bool-cases (is_single policy.strategy || leb size p.granularity)) [
        | inl stop ↦ some-ne (rw stop at e)
        | inr on ↦ k _ l b (rw on at e)
      ]

  pub search-total :
      (fuel : ℕ) (p : Progress)
      → p.attempts ≤ policy.max_candidates
      → policy.max_candidates < p.attempts + fuel
      → search source adapter floats policy fuel p ≢ none
  unfolding search
  search-total zero p b enough e = omega arith
  search-total (suc fuel) p b enough e = elim (Bool-cases (ltb 1 (length p.current))) [
    | inr done ↦ some-ne (rw done at e)
    | inl more ↦
        let width = width_of source adapter floats policy p in
        let size = length p.current in
        after_sweep-total (search source adapter floats policy fuel) size
          (sweep source adapter floats policy width (offsets_from size 0 size width) p) p.attempts
          (whole_sweep-lt size width p (ground arith))
          ((sweep-IsAhead width (offsets_from size 0 size width) p).within b)
          (λ q l c. search-total fuel q c (omega arith)) (rw more at e)
  ]
