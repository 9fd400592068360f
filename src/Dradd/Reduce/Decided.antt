-- ===== src/Dradd/Reduce/Decided.antt =====
-- What `accepted` of lab/dradd.py shows of the trials of a group.
use kernel_bridge_concurrent.Common.{
  if_neg, if_pos, ℕ, zero, suc, ◌+◌, ◌≤◌, ◌<◌, ◌≡◌, ◌≢◌, refl, ap, subst, true, Option, none, some,
  List, [], ◌∷◌, arith, length,
}
use kernel_bridge_concurrent.Contract.Ops.{Text-discrete}
use kernel_bridge_concurrent.Dradd.Workload.{Workload}
use kernel_bridge_concurrent.Dradd.Workload.Candidates.{Candidate}
use kernel_bridge_concurrent.Dradd.Trials.{
  Floats, Trial, Status, Counts, no_counts, failed, passed, timed_out, environment_failed, unknown,
  count_trial, count_trials, count_failure, trial_summary, accepted, valid_count,
}
use kernel_bridge_concurrent.Dradd.Reduce.{Adapter, Policy, run_trials, or_environment}
use kernel_bridge_concurrent.Dradd.Reduce.Keeps.{length-run_trials}

-- A trial that was decided, and how often it shows the expected signature.
pub data Verdict (expected : List ℕ) (status : Status) (signature : Option (List ℕ))
    : ℕ → Type 0 where
  hit : status ≡ failed → signature ≡ some expected → Verdict expected status signature 1
  other :
      (text : List ℕ)
      → status ≡ failed
      → signature ≡ some text
      → text ≢ expected
      → Verdict expected status signature 0
  pass : status ≡ passed → Verdict expected status signature 0

-- The trials from the execution `before` on, with the number of them and of those that show the
-- signature: each is what the adapter gave for the seed of its turn, and was decided.
pub data Decided {A : Type 0} (adapter : Adapter A) (seed : ℕ) (c : Candidate A)
    : ℕ → List Trial → ℕ → ℕ → Type 0 where
  no_more : {before : ℕ} → Decided adapter seed c before [] 0 0
  one_more :
      {before n hits shown : ℕ} {trials : List Trial} (t : Trial)
      → adapter.execute c (seed + before) ≡ some t
      → Verdict adapter.signature t.status t.signature shown
      → Decided adapter seed c (suc before) trials n hits
      → Decided adapter seed c before (t ∷ trials) (suc n) (shown + hits)

-- A failure is counted as a hit exactly where its text is the expected one.
failure-Verdict :
    (expected : List ℕ) (signature : Option (List ℕ)) (k : Counts)
    → valid_count k < valid_count (count_failure expected signature k)
    → (shown : ℕ) × Verdict expected failed signature shown
      × ((count_failure expected signature k).target ≡ shown + k.target)
      × (valid_count (count_failure expected signature k) ≡ suc (valid_count k))
unfolding count_failure
failure-Verdict expected none k h = absurd (omega arith)
failure-Verdict expected (some text) k h = elim (Text-discrete text expected) [
  | yes e ↦ (1, hit refl (ap some e), rw (if_pos _ e) (omega arith), rw (if_pos _ e) (omega arith))
  | no ne ↦
      (0, other text refl refl ne, rw (if_neg _ ne) (omega arith), rw (if_neg _ ne) (omega arith))
]

trial-Verdict :
    (expected : List ℕ) (status : Status) (signature : Option (List ℕ)) (k : Counts)
    → valid_count k < valid_count (count_trial expected status signature k)
    → (shown : ℕ) × Verdict expected status signature shown
      × ((count_trial expected status signature k).target ≡ shown + k.target)
      × (valid_count (count_trial expected status signature k) ≡ suc (valid_count k))
unfolding count_trial
trial-Verdict expected failed signature k h = failure-Verdict expected signature k h
trial-Verdict expected passed signature k h = (0, pass refl, omega arith, omega arith)
trial-Verdict expected timed_out signature k h = absurd (omega arith)
trial-Verdict expected environment_failed signature k h = absurd (omega arith)
trial-Verdict expected unknown signature k h = absurd (omega arith)

-- A trial adds at most one to the valid ones.
valid-count_trial :
    (expected : List ℕ) (status : Status) (signature : Option (List ℕ)) (k : Counts)
    → valid_count (count_trial expected status signature k) ≤ suc (valid_count k)
unfolding count_trial count_failure
valid-count_trial expected failed none k = omega arith
valid-count_trial expected failed (some text) k = ground arith
valid-count_trial expected passed signature k = omega arith
valid-count_trial expected timed_out signature k = omega arith
valid-count_trial expected environment_failed signature k = omega arith
valid-count_trial expected unknown signature k = omega arith

valid-count_trials :
    (expected : List ℕ) (trials : List Trial) (k : Counts)
    → valid_count (count_trials expected trials k) ≤ valid_count k + length trials
unfolding count_trials
valid-count_trials expected [] k = omega arith
valid-count_trials expected (t ∷ trials) k =
    let next = count_trial expected t.status t.signature k in
    omega (
      arith,
      valid-count_trials expected trials next,
      valid-count_trial expected t.status t.signature k,
    )

module _ {A : Type 0} (adapter : Adapter A) (seed : ℕ) (c : Candidate A) where
  -- All trials were decided, and the hits are counted.
  abbrev AllDecided : ℕ → List Trial → ℕ → Counts → Type 0
  AllDecided before trials n k =
      (hits : ℕ) × Decided adapter seed c before trials n hits
      × ((count_trials adapter.signature trials k).target ≡ hits + k.target)

  abbrev AllCounted : List Trial → ℕ → Counts → Type 0
  AllCounted trials n k = valid_count (count_trials adapter.signature trials k) ≡ valid_count k + n

  trial-AllDecided :
      (before n : ℕ) (o : Option Trial) (trials : List Trial) (k : Counts)
      → adapter.execute c (seed + before) ≡ o
      → length trials ≡ n
      → AllCounted (or_environment o ∷ trials) (suc n) k
      → ((j : Counts) → AllCounted trials n j → AllDecided (suc before) trials n j)
      → AllDecided before (or_environment o ∷ trials) (suc n) k
  unfolding count_trials count_trial
  trial-AllDecided before n none trials k e size all again =
      let failed_there = record k { environment = k.environment + 1 } in
      absurd (omega (arith, size, all, valid-count_trials adapter.signature trials failed_there))
  trial-AllDecided before n (some t) trials k e size all again =
      let next = count_trial adapter.signature t.status t.signature k in
      let more : valid_count k < valid_count next =
        omega (arith, size, all, valid-count_trials adapter.signature trials next) in
      let (shown, verdict, targets, valids) =
        trial-Verdict adapter.signature t.status t.signature k more in
      let (hits, decided, total) = again next (omega (arith, all, valids)) in
      (shown + hits, one_more t e verdict decided, omega (arith, total, targets))

module _ {A F : Type 0} (source : Workload A) (adapter : Adapter A) (floats : Floats F)
    (policy : Policy F) where
  run_trials-AllDecided :
      (c : Candidate A) (before n : ℕ) (k : Counts)
      → AllCounted adapter policy.seed c (run_trials source adapter floats policy c before n) n k
      → AllDecided adapter policy.seed c before
          (run_trials source adapter floats policy c before n)
          n
          k
  unfolding run_trials count_trials
  run_trials-AllDecided c before zero k all = (0, no_more, omega arith)
  run_trials-AllDecided c before (suc n) k all =
      trial-AllDecided adapter policy.seed c before n (adapter.execute c (policy.seed + before))
        (run_trials source adapter floats policy c (suc before) n) k refl
        (length-run_trials source adapter floats policy c (suc before) n) all
        (λ j counted. run_trials-AllDecided c (suc before) n j counted)

  -- What an accepted group shows of its `n` trials.
  pub record Holds (c : Candidate A) (before n : ℕ) (rate : F) : Type 0 where
    pub hits : ℕ
    pub decided :
        Decided adapter policy.seed c before
          (run_trials source adapter floats policy c before n)
          n
          hits
    pub some_hit : 0 < hits
    pub frequent : floats.at_least (floats.ratio hits n) rate ≡ true

  pub accepted-Holds :
      (c : Candidate A) (before n : ℕ) (rate : F) (bound : Option F)
      → accepted floats
          (trial_summary (run_trials source adapter floats policy c before n) adapter.signature)
          n
          rate
          bound
        ≡ true
      → Holds c before n rate
  unfolding accepted trial_summary
  accepted-Holds c before n rate bound h =
      let trials = run_trials source adapter floats policy c before n in
      let counts = count_trials adapter.signature trials no_counts in
      let full : valid_count counts ≡ n = ground arith in
      let all : valid_count counts ≡ valid_count no_counts + n = omega (arith, full) in
      let frequent : floats.at_least (floats.ratio counts.target (valid_count counts)) rate ≡ true =
        ground arith in
      let (hits, decided, total) = run_trials-AllDecided c before n no_counts all in
      let same : counts.target ≡ hits = omega (arith, total) in
      record {
        hits = hits;
        decided = decided;
        some_hit = ground (arith, same);
        frequent =
            subst (λ (x : ℕ). floats.at_least (floats.ratio x n) rate ≡ true) same
              (subst (λ (x : ℕ). floats.at_least (floats.ratio counts.target x) rate ≡ true) full
                frequent);
      }
