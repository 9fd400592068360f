-- ===== src/Replay/Ends.antt =====
-- The search of `reduce_concurrent` ends.
use native.Mathlib.Nat.{div-add-mod}
use kernel_bridge_concurrent.Common.{
  true, ℕ, zero, suc, ◌+◌, ◌-◌, ◌%◌, ◌*◌, ◌≤◌, ◌<◌, min, ◌≡◌, refl, inl, inr, Bool, false, ◌&&◌,
  ◌||◌, Option, List, [], ◌∷◌, arith, ltb, leb, Bool-cases, length, chunk-lt,
}
use kernel_bridge_concurrent.Contract.Ops.{Op}
use kernel_bridge_concurrent.Replay.{
  Strategy, single, chunk, Load, Trial, Progress, without, is_nil, is_single, after_scan, cut_down,
  width_of, Ran, ran, raised,
}
use kernel_bridge_concurrent.Replay.Loads.{length-outside}
use kernel_bridge_concurrent.Replay.Groups.{Raises}
use kernel_bridge_concurrent.Replay.Keeps.{IsKept, refined-IsKept}
use kernel_bridge_concurrent.Replay.Cases.{Scanned, raises, scans, first-Scanned}

is_nil_of_length : (ops : List Op) → 0 < length ops → is_nil ops ≡ false
is_nil_of_length [] h = absurd (omega arith)
is_nil_of_length (op ∷ ops) h = refl

module _ (evaluator : ℕ → Load → Option Trial) (strategy : Strategy) (trials budget : ℕ) where
  -- The search ends with an exception or with a progress that keeps what it should.
  pub data Ended (whole : Load) : Ran Progress → Type 0 where
    fails : Raises evaluator strategy trials budget → Ended whole raised
    ends : {p : Progress} → IsKept evaluator strategy trials budget whole p → Ended whole (ran p)

  width_of-lt :
      (s : Strategy) (p : Progress)
      → 1 < length p.current.operations
      → 2 ≤ p.granularity
      → width_of evaluator s trials budget p < length p.current.operations
  width_of-lt single p many coarse = many
  width_of-lt chunk p many coarse =
      let size = length p.current.operations in
      chunk-lt size p.granularity (width_of evaluator chunk trials budget p)
        ((size + p.granularity - 1) % p.granularity) many coarse
        (omega (arith, div-add-mod (size + p.granularity - 1) p.granularity))

  first_left :
      (p : Progress) (width : ℕ)
      → width < length p.current.operations
      → is_nil (without p.current 0 width).operations ≡ false
  first_left p width less =
      is_nil_of_length (without p.current 0 width).operations
        (omega (arith, length-outside 0 width p.current.operations))

  after_scan-Ended :
      (again : Progress → Ran Progress) (whole : Load) (n : ℕ) {o : Option (Progress × Bool)}
      → Scanned evaluator strategy trials budget whole n o
      → ((q : Progress)
          → n ≤ q.attempts
          → IsKept evaluator strategy trials budget whole q
          → Ended whole (again q))
      → Ended whole (after_scan evaluator strategy trials budget again o)
  after_scan-Ended again whole n (raises r) goes = fails r
  after_scan-Ended again whole n (scans {p = p} {flag = true} k grown) goes = goes p grown k
  after_scan-Ended again whole n (scans {p = p} {flag = false} k grown) goes =
      let size = length p.current.operations in
      let finer = record p { granularity = min size (p.granularity * 2) } in
      elim (Bool-cases (is_single strategy || leb size p.granularity)) [
        | inl fine ↦ rw fine (ends k)
        | inr coarse_still ↦ rw coarse_still (
            goes finer grown (
              refined-IsKept evaluator strategy trials budget whole p _
                (ground (arith, coarse_still, k.coarse)) k))
      ]

  -- The fuel is enough.
  pub cut_down-Ended :
      (fuel : ℕ) (whole : Load) (p : Progress)
      → budget < p.attempts + fuel
      → IsKept evaluator strategy trials budget whole p
      → Ended whole (cut_down evaluator strategy trials budget fuel p)
  unfolding cut_down
  cut_down-Ended zero whole p enough k = absurd (omega (arith, k.within))
  cut_down-Ended (suc fuel) whole p enough k =
      let size = length p.current.operations in
      let width = width_of evaluator strategy trials budget p in
      elim (Bool-cases (ltb 1 size && ltb p.attempts budget)) [
        | inr done ↦ rw done (ends k)
        | inl more ↦
            let scanned =
              first-Scanned evaluator strategy trials budget size width whole p refl
                (ground (arith, more)) (ground (arith, more)) k
                (first_left p width (width_of-lt strategy p (ground (arith, more)) k.coarse)) in
            rw more (
              after_scan-Ended (cut_down evaluator strategy trials budget fuel) whole
                (p.attempts + 1) scanned
                (λ q less l. cut_down-Ended fuel whole q (omega (arith, less, enough)) l))
      ]
