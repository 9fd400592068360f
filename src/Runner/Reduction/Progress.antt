-- ===== src/Runner/Reduction/Progress.antt =====
-- The loops of `reduce_scenario` keep to the budget and end.
use mathlib.Core.Option.{some-injective}
use mathlib.Core.List.{Sublistᴰ}
use mathlib.Core.List.Sublistᴰ
use kernel_bridge_concurrent.Common.{
  cut-Sublist, if-false, if-true, ℕ, zero, suc, ◌+◌, ◌≤◌, ◌<◌, ◌≡◌, sym, ◌∙◌, subst, ◌⊎◌, inl, inr,
  Bool, true, false, ◌&&◌, Option, some, List, arith, ltb, leb, Bool-cases, length,
}
use kernel_bridge_concurrent.Contract.Ops.{Op}
use kernel_bridge_concurrent.Runner.{Signature, Evaluation}
use kernel_bridge_concurrent.Runner.Reduction.{
  Cut, without, is_nil, chunk_of, shows, scan, after_scan, cut_down,
}

module _ (evaluator : ℕ → List Op → Evaluation) (wanted : Signature) (budget : ℕ) where
  -- What the loops keep: operations in their order, no more attempts than the budget, and where something
  -- was cut, an evaluation that showed it.
  pub record IsKept (whole : List Op) (c : Cut) : Type 0 where
    pub part : Sublistᴰ c.operations whole
    pub within : c.attempts ≤ budget
    pub coarse : 2 ≤ c.granularity
    pub seen :
        (c.operations ≡ whole)
        ⊎ ((n : ℕ) × (n ≤ c.attempts) × (shows evaluator wanted budget n c.operations ≡ true))

  counted-IsKept :
      (whole : List Op) (c : Cut)
      → c.attempts < budget
      → IsKept whole c
      → IsKept whole (record c { attempts = c.attempts + 1 })
  counted-IsKept whole c room k = record {
    part = k.part;
    within = omega arith;
    coarse = k.coarse;
    seen = elim k.seen [
      | inl same ↦ inl same
      | inr (n, early, shown) ↦ inr (n, omega arith, shown)
    ];
  }

  pub scan-IsKept :
      (fuel start chunk : ℕ) (whole : List Op) (c : Cut)
      → c.attempts < budget
      → IsKept whole c
      → IsKept whole (scan evaluator wanted budget fuel start chunk c).0
  unfolding scan
  scan-IsKept zero start chunk whole c room k = k
  scan-IsKept (suc fuel) start chunk whole c room k =
      let candidate = without c.operations start chunk in
      elim (Bool-cases (ltb start (length c.operations))) [
        | inr over ↦ rw over k
        | inl inside ↦ elim (Bool-cases (is_nil candidate)) [
          | inl empty ↦ rw (inside, empty) (scan-IsKept fuel (start + chunk) chunk whole c room k)
          | inr some_left ↦
              elim (Bool-cases (shows evaluator wanted budget (c.attempts + 1) candidate)) [
                | inl yes_shown ↦
                    rw (inside, some_left, yes_shown)
                      (record {
                        part =
                            Sublistᴰ.trans
                              (cut-Sublist start (start + chunk) c.operations (omega arith)) k.part;
                        within = omega arith;
                        coarse = omega arith;
                        seen = inr (c.attempts + 1, omega arith, yes_shown);
                      })
                | inr no_shown ↦ elim (Bool-cases (leb budget (c.attempts + 1))) [
                  | inl spent ↦
                      rw (inside, some_left, no_shown, spent) (counted-IsKept whole c room k)
                  | inr left ↦
                      rw (inside, some_left, no_shown, left)
                        (scan-IsKept fuel (start + chunk) chunk whole
                          (record c { attempts = c.attempts + 1 }) (ground (arith, left))
                          (counted-IsKept whole c room k))
                ]
              ]
        ]
      ]

  after_scan-IsKept :
      (again : Cut → Option Cut) (whole : List Op) (r : Cut × Bool) (out : Cut)
      → IsKept whole r.0
      → ((c : Cut) → IsKept whole c → again c ≡ some out → IsKept whole out)
      → after_scan evaluator wanted budget again r ≡ some out
      → IsKept whole out
  after_scan-IsKept again whole (c, true) out k goes e = goes c k e
  after_scan-IsKept again whole (c, false) out k goes e =
      elim (Bool-cases (leb (length c.operations) c.granularity)) [
        | inl fine ↦
            subst (λ (x : Cut). IsKept whole x) (some-injective c out (sym (if-true _ fine) ∙ e)) k
        | inr coarse_still ↦
            goes _
              (record {
                part = k.part;
                within = k.within;
                coarse = ground (arith, coarse_still, k.coarse);
                seen = k.seen;
              })
              (sym (if-false _ coarse_still) ∙ e)
      ]

  pub cut_down-IsKept :
      (fuel : ℕ) (whole : List Op) (c out : Cut)
      → IsKept whole c
      → cut_down evaluator wanted budget fuel c ≡ some out
      → IsKept whole out
  unfolding cut_down
  cut_down-IsKept zero whole c out k e = cc
  cut_down-IsKept (suc fuel) whole c out k e =
      elim (Bool-cases (ltb 1 (length c.operations) && ltb c.attempts budget)) [
        | inr done ↦
            subst (λ (x : Cut). IsKept whole x) (some-injective c out (sym (if-false _ done) ∙ e)) k
        | inl more ↦
            after_scan-IsKept (cut_down evaluator wanted budget fuel) whole
              (scan evaluator wanted budget (length c.operations) 0 (chunk_of c) c) out
              (scan-IsKept (length c.operations) 0 (chunk_of c) whole c (ground (arith, more)) k)
              (λ d l f. cut_down-IsKept fuel whole d out l f) (sym (if-true _ more) ∙ e)
      ]
