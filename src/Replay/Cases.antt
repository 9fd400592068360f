-- ===== src/Replay/Cases.antt =====
-- The cases of a round of the loop over the starts.
use kernel_bridge_concurrent.Common.{
  ℕ, zero, suc, ◌+◌, ◌≤◌, ◌<◌, ◌≡◌, refl, inl, inr, Bool, true, false, Option, none, some, arith,
  ltb, leb, Bool-cases, length,
}
use kernel_bridge_concurrent.Replay.{
  Strategy, Load, Trial, Group, Progress, candidate, without, is_nil, is_reproduced, replay, scan,
  tried_of, after_group,
}
use kernel_bridge_concurrent.Replay.Groups.{Raises, replay-Raises, replay-IsReplay}
use kernel_bridge_concurrent.Replay.Keeps.{IsKept, tried-IsKept, taken-IsKept}

module _ (evaluator : ℕ → Load → Option Trial) (strategy : Strategy) (trials budget : ℕ) where
  -- What a scan leads to, with at least `n` attempts: an exception, or a progress that keeps what it
  -- should.
  pub data Scanned (whole : Load) (n : ℕ) : Option (Progress × Bool) → Type 0 where
    raises : Raises evaluator strategy trials budget → Scanned whole n none
    scans :
        {p : Progress} {flag : Bool}
        → IsKept evaluator strategy trials budget whole p
        → n ≤ p.attempts
        → Scanned whole n (some (p, flag))

  pub Scanned-le :
      {whole : Load} {n m : ℕ} {o : Option (Progress × Bool)}
      → n ≤ m
      → Scanned whole m o
      → Scanned whole n o
  Scanned-le less (raises r) = raises r
  Scanned-le less (scans k grown) = scans k (omega (arith, less, grown))

  -- The candidate is a new attempt, whatever comes of its replay.
  after_group-Scanned :
      (again : Progress → Option (Progress × Bool)) (start width : ℕ) (whole : Load) (p : Progress)
      (o : Option Group)
      → p.attempts < budget
      → is_nil (without p.current start width).operations ≡ false
      → IsKept evaluator strategy trials budget whole p
      → replay evaluator strategy trials budget p.evidence (without p.current start width) candidate
        ≡ o
      → ((q : Progress)
          → q.attempts < budget
          → IsKept evaluator strategy trials budget whole q
          → Scanned whole q.attempts (again q))
      → Scanned whole
          (p.attempts + 1)
          (after_group evaluator strategy trials budget again p (without p.current start width) o)
  after_group-Scanned again start width whole p none room some_here k e goes =
      raises (replay-Raises evaluator strategy trials budget p.evidence _ candidate e)
  after_group-Scanned again start width whole p (some g) room some_here k e goes =
      let left = without p.current start width in
      let r = replay-IsReplay evaluator strategy trials budget p.evidence left candidate g e in
      let tried = tried-IsKept evaluator strategy trials budget whole p left g room r k in
      elim (Bool-cases (is_reproduced evaluator strategy trials budget g)) [
        | inl yes_group ↦ rw yes_group (
            scans
              (taken-IsKept evaluator strategy trials budget whole p start width g room some_here r
                yes_group k)
              (omega arith))
        | inr no_group ↦ elim (Bool-cases (leb budget (p.attempts + 1))) [
          | inl spent ↦ rw (no_group, spent) (scans tried (omega arith))
          | inr more ↦
              rw (no_group, more)
                (goes (tried_of evaluator strategy trials budget p g) (ground (arith, more)) tried)
        ]
      ]

  pub scan-Scanned :
      (fuel start width : ℕ) (whole : Load) (p : Progress)
      → p.attempts < budget
      → IsKept evaluator strategy trials budget whole p
      → Scanned whole p.attempts (scan evaluator strategy trials budget fuel start width p)
  unfolding scan
  scan-Scanned zero start width whole p room k = scans k (omega arith)
  scan-Scanned (suc fuel) start width whole p room k =
      let left = without p.current start width in
      elim (Bool-cases (ltb start (length p.current.operations))) [
        | inr past ↦ rw past (scans k (omega arith))
        | inl inside ↦ elim (Bool-cases (is_nil left.operations)) [
          | inl empty ↦ rw (inside, empty) (scan-Scanned fuel (start + width) width whole p room k)
          | inr some_here ↦
              rw (inside, some_here)
                (Scanned-le (omega arith) (
                  after_group-Scanned _ start width whole p _ room some_here k refl
                    (λ q more l. scan-Scanned fuel (start + width) width whole q more l)))
        ]
      ]

  -- A scan of some operations whose first candidate is not empty makes an attempt.
  pub first-Scanned :
      (size width : ℕ) (whole : Load) (p : Progress)
      → size ≡ length p.current.operations
      → 0 < size
      → p.attempts < budget
      → IsKept evaluator strategy trials budget whole p
      → is_nil (without p.current 0 width).operations ≡ false
      → Scanned whole (p.attempts + 1) (scan evaluator strategy trials budget size 0 width p)
  unfolding scan
  first-Scanned zero width whole p same some_size room k some_here = absurd (omega arith)
  first-Scanned (suc fuel) width whole p same some_size room k some_here =
      let inside : ltb 0 (length p.current.operations) ≡ true = ground (arith, same) in
      rw (inside, some_here)
        (after_group-Scanned _ 0 width whole p _ room some_here k refl
          (λ q more l. scan-Scanned fuel (0 + width) width whole q more l))
