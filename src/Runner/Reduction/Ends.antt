-- ===== src/Runner/Reduction/Ends.antt =====
-- The loops of `reduce_scenario` end, and what its answer is.
use kernel_bridge_concurrent.Common.{
  chunk-lt, some-ne, if-true, if-false, length-drop, ℕ, zero, suc, ◌+◌, ◌-◌, ◌%◌, ◌≤◌, ◌<◌, ◌≡◌,
  refl, sym, ◌∙◌, ◌≢◌, inl, inr, Bool, true, false, ◌&&◌, Option, none, List, [], ◌∷◌, arith, ltb,
  leb, Bool-cases, length,
}
use native.Mathlib.Nat.{div-add-mod}
use kernel_bridge_concurrent.Contract.Ops.{Op}
use kernel_bridge_concurrent.Runner.{Signature, Evaluation}
use kernel_bridge_concurrent.Runner.Reduction.{
  Cut, without, is_nil, chunk_of, shows, scan, after_scan, cut_down,
}
use kernel_bridge_concurrent.Runner.Reduction.Progress.{IsKept, scan-IsKept}

is_nil_of_length : (ops : List Op) → 0 < length ops → is_nil ops ≡ false
is_nil_of_length [] h = absurd (omega arith)
is_nil_of_length (op ∷ ops) h = refl

chunk_of-lt :
    (c : Cut) → 1 < length c.operations → 2 ≤ c.granularity → chunk_of c < length c.operations
chunk_of-lt c many coarse =
    chunk-lt (length c.operations) c.granularity (chunk_of c)
      ((length c.operations + c.granularity - 1) % c.granularity) many coarse
      (omega (arith, div-add-mod (length c.operations + c.granularity - 1) c.granularity))

without-some :
    (ops : List Op) (chunk : ℕ) → chunk < length ops → is_nil (without ops 0 chunk) ≡ false
without-some ops chunk less =
    is_nil_of_length (without ops 0 chunk) (omega (arith, length-drop (0 + chunk) ops))

module _ (evaluator : ℕ → List Op → Evaluation) (wanted : Signature) (budget : ℕ) where
  scan-le :
      (fuel start chunk : ℕ) (c : Cut)
      → c.attempts ≤ (scan evaluator wanted budget fuel start chunk c).0.attempts
  unfolding scan
  scan-le zero start chunk c = omega arith
  scan-le (suc fuel) start chunk c =
      let candidate = without c.operations start chunk in
      elim (Bool-cases (ltb start (length c.operations))) [
        | inr over ↦ rw over (omega arith)
        | inl inside ↦ elim (Bool-cases (is_nil candidate)) [
          | inl empty ↦ rw (inside, empty) (scan-le fuel (start + chunk) chunk c)
          | inr some_left ↦
              elim (Bool-cases (shows evaluator wanted budget (c.attempts + 1) candidate)) [
                | inl yes_shown ↦ rw (inside, some_left, yes_shown) (omega arith)
                | inr no_shown ↦ elim (Bool-cases (leb budget (c.attempts + 1))) [
                  | inl spent ↦ rw (inside, some_left, no_shown, spent) (omega arith)
                  | inr left ↦
                      rw (inside, some_left, no_shown, left)
                        (omega (
                          arith,
                          scan-le fuel (start + chunk) chunk
                              (record c { attempts = c.attempts + 1 }),
                        ))
                ]
              ]
        ]
      ]

  -- A scan whose first candidate is not empty makes an attempt.
  scan-lt :
      (fuel start chunk : ℕ) (c : Cut)
      → start < length c.operations
      → is_nil (without c.operations start chunk) ≡ false
      → c.attempts < (scan evaluator wanted budget (suc fuel) start chunk c).0.attempts
  unfolding scan
  scan-lt fuel start chunk c less some_left =
      let candidate = without c.operations start chunk in
      let inside : ltb start (length c.operations) ≡ true = ground (arith, less) in
      elim (Bool-cases (shows evaluator wanted budget (c.attempts + 1) candidate)) [
        | inl yes_shown ↦ rw (inside, some_left, yes_shown) (omega arith)
        | inr no_shown ↦ elim (Bool-cases (leb budget (c.attempts + 1))) [
          | inl spent ↦ rw (inside, some_left, no_shown, spent) (omega arith)
          | inr left ↦
              rw (inside, some_left, no_shown, left)
                (omega (
                  arith,
                  scan-le fuel (start + chunk) chunk (record c { attempts = c.attempts + 1 }),
                ))
        ]
      ]

  whole_scan-lt :
      (size chunk : ℕ) (c : Cut)
      → size ≡ length c.operations
      → chunk < length c.operations
      → c.attempts < (scan evaluator wanted budget size 0 chunk c).0.attempts
  whole_scan-lt zero chunk c same less = absurd (omega arith)
  whole_scan-lt (suc size) chunk c same less =
      scan-lt size 0 chunk c (omega arith) (without-some c.operations chunk less)

  after_scan-total :
      (again : Cut → Option Cut) (r : Cut × Bool) (n : ℕ) (whole : List Op)
      → n < r.0.attempts
      → IsKept evaluator wanted budget whole r.0
      → ((c : Cut) → n < c.attempts → IsKept evaluator wanted budget whole c → again c ≢ none)
      → after_scan evaluator wanted budget again r ≢ none
  after_scan-total again (c, true) n whole less k goes e = goes c less k e
  after_scan-total again (c, false) n whole less k goes e =
      elim (Bool-cases (leb (length c.operations) c.granularity)) [
        | inl fine ↦ some-ne (sym (if-true _ fine) ∙ e)
        | inr coarse_still ↦
            goes _ less
              (record {
                part = k.part;
                within = k.within;
                coarse = ground (arith, coarse_still, k.coarse);
                seen = k.seen;
              })
              (sym (if-false _ coarse_still) ∙ e)
      ]

  pub cut_down-total :
      (fuel : ℕ) (whole : List Op) (c : Cut)
      → budget < c.attempts + fuel
      → IsKept evaluator wanted budget whole c
      → cut_down evaluator wanted budget fuel c ≢ none
  unfolding cut_down
  cut_down-total zero whole c enough k e = omega (arith, k.within)
  cut_down-total (suc fuel) whole c enough k e =
      elim (Bool-cases (ltb 1 (length c.operations) && ltb c.attempts budget)) [
        | inr done ↦ some-ne (sym (if-false _ done) ∙ e)
        | inl more ↦
            after_scan-total (cut_down evaluator wanted budget fuel)
              (scan evaluator wanted budget (length c.operations) 0 (chunk_of c) c) c.attempts whole
              (whole_scan-lt (length c.operations) (chunk_of c) c refl
                (chunk_of-lt c (ground (arith, more)) k.coarse))
              (scan-IsKept evaluator wanted budget (length c.operations) 0 (chunk_of c) whole c
                (ground (arith, more)) k)
              (λ d less l. cut_down-total fuel whole d (omega arith) l) (sym (if-true _ more) ∙ e)
      ]
