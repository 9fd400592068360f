-- ===== src/Runner/Agreement.antt =====
-- What a verdict of `evaluate` shows of the device.
use kernel_bridge_concurrent.Runner.Replies.{differing_self, differing-nil}
use kernel_bridge_concurrent.Contract.Validate.{validate, Scenario}
use mathlib.Core.Option.{some-injective}
use kernel_bridge_concurrent.Common.{
  Option-cases, length, ◌+◌, if-false, if-true, ℕ, suc, ◌≡◌, refl, sym, ap, ◌∙◌, subst, ◌≢◌, inl,
  inr, Option, none, some, List, [], ◌∷◌, map, arith, Bool-cases,
}
use kernel_bridge_concurrent.Contract.Ops.{Op, Reply}
use kernel_bridge_concurrent.Contract.Model.{create, Model, apply}
use kernel_bridge_concurrent.Contract.Model.Fifo.{Runs, here, next}
use kernel_bridge_concurrent.Runner.{
  validated, opened, Scenario, evaluate, Target, Field, Signature, Entry, Status, passes,
  inconclusive, fails, Evaluation, differing, closed, judged, compared, run,
}

inconclusive-ne : inconclusive ≢ passes
inconclusive-ne e = cc

fails-ne : {i : ℕ} {sig : Signature} → fails i sig ≢ passes
fails-ne e = cc

inconclusive-ne-fails : {i : ℕ} {sig : Signature} → inconclusive ≢ fails i sig
inconclusive-ne-fails e = cc

passes-ne : {i : ℕ} {sig : Signature} → passes ≢ fails i sig
passes-ne e = cc

fails-index : {i j : ℕ} {sig sig' : Signature} → fails i sig ≡ fails j sig' → i ≡ j
fails-index e = cc

cons-ne : {f : Field} {fs : List Field} → (f ∷ fs) ≢ []
cons-ne e = cc

none-ne : {v : Evaluation} → none ≢ some v
none-ne e = cc

-- The operations in turn: the device agrees with the model up to the last entry, which differs.
pub data Detected : Model → List Op → List Entry → Type 0 where
  now :
      {m m' : Model} {op : Op} {ops : List Op} {e : Entry}
      → e.operation ≡ op
      → apply m op ≡ some (m', e.expected)
      → e.expected ≢ e.actual
      → Detected m (op ∷ ops) (e ∷ [])
  later :
      {m m' : Model} {op : Op} {ops : List Op} {e : Entry} {es : List Entry}
      → apply m op ≡ some (m', e.actual)
      → Detected m' ops es
      → Detected m (op ∷ ops) (e ∷ es)

abbrev pub actual_of : Entry → Reply
actual_of e = e.actual

module _ {D : Type 0} (target : Target D) where
  closed-passes : (d : D) (st : Status) → closed target d st ≡ passes → st ≡ passes
  closed-passes d st h = elim (Bool-cases (target.leave d)) [
    | inl ok ↦ sym (if-true inconclusive ok) ∙ h
    | inr bad ↦ absurd (inconclusive-ne (sym (if-false st bad) ∙ h))
  ]

  closed-fails :
      (d : D) (st : Status) {i : ℕ} {sig : Signature}
      → closed target d st ≡ fails i sig
      → st ≡ fails i sig
  closed-fails d st h = elim (Bool-cases (target.leave d)) [
    | inl ok ↦ sym (if-true inconclusive ok) ∙ h
    | inr bad ↦ absurd (inconclusive-ne-fails (sym (if-false st bad) ∙ h))
  ]

  -- What is shown for the operations that follow is shown for all.
  judged-Runs :
      (index : ℕ) (op : Op) (ops : List Op) (m m' : Model) (d : D) (expected actual : Reply)
      (fields : List Field) (rest : Evaluation)
      → differing expected actual ≡ fields
      → apply m op ≡ some (m', expected)
      → (rest.status ≡ passes → (last : Model) × Runs m' ops (map actual_of rest.history) last)
      → (judged target index op expected actual d fields rest).status ≡ passes
      → (last : Model) × Runs m
          (op ∷ ops)
          (map actual_of (judged target index op expected actual d fields rest).history)
          last
  judged-Runs index op ops m m' d expected actual [] rest same step follows h =
      let (last, runs) = follows h in
      (
        last,
        next (subst (λ r. apply m op ≡ some (m', r)) (differing-nil expected actual same) step)
            runs,
      )
  judged-Runs index op ops m m' d expected actual (f ∷ fields) rest same step follows h =
      absurd (fails-ne (closed-passes d _ h))

  compared-Runs :
      (rest : Model → D → Evaluation) (index : ℕ) (op : Op) (ops : List Op) (m : Model)
      (o : Option (Model × Reply)) (answer : Option (D × Reply))
      → apply m op ≡ o
      → ((m' : Model) (d' : D)
          → (rest m' d').status ≡ passes
          → (last : Model) × Runs m' ops (map actual_of (rest m' d').history) last)
      → (compared target rest index op o answer).status ≡ passes
      → (last : Model) × Runs m
          (op ∷ ops)
          (map actual_of (compared target rest index op o answer).history)
          last
  compared-Runs rest index op ops m none answer e follows h = absurd (inconclusive-ne h)
  compared-Runs rest index op ops m (some (m', expected)) none e follows h =
      absurd (inconclusive-ne h)
  compared-Runs rest index op ops m (some (m', expected)) (some (d, actual)) e follows h =
      judged-Runs index op ops m m' d expected actual (differing expected actual) (rest m' d) refl e
        (follows m' d) h

  run-Runs :
      (index : ℕ) (ops : List Op) (m : Model) (d : D)
      → (run target index ops m d).status ≡ passes
      → (last : Model) × Runs m ops (map actual_of (run target index ops m d).history) last
  unfolding run
  run-Runs index [] m d h = (m, here)
  run-Runs index (op ∷ ops) m d h =
      compared-Runs (run target (suc index) ops) index op ops m (apply m op) (target.perform d op)
        refl (λ m' d' k. run-Runs (suc index) ops m' d' k) h

  -- What `Detected` is to one operation.
  judged-Detected :
      (index : ℕ) (op : Op) (ops : List Op) (m m' : Model) (d : D) (expected actual : Reply)
      (fields : List Field) (rest : Evaluation) {i : ℕ} {sig : Signature}
      → differing expected actual ≡ fields
      → apply m op ≡ some (m', expected)
      → (rest.status ≡ fails i sig
          → Detected m' ops rest.history × (suc i ≡ suc index + length rest.history))
      → (judged target index op expected actual d fields rest).status ≡ fails i sig
      → Detected m (op ∷ ops) (judged target index op expected actual d fields rest).history
        × (suc i ≡ index + length (judged target index op expected actual d fields rest).history)
  judged-Detected index op ops m m' d expected actual [] rest same step follows h =
      let (found, place) = follows h in
      (
        later (subst (λ r. apply m op ≡ some (m', r)) (differing-nil expected actual same) step)
            found,
        omega (arith, place),
      )
  judged-Detected index op ops m m' d expected actual (f ∷ fields) rest {i} {sig} same step follows
        h =
      (
        now refl step (λ e.
            cons-ne
              (sym same ∙ subst (λ r. differing expected r ≡ []) e (differing_self expected))),
        omega (arith, fails-index (closed-fails d _ h)),
      )

  compared-Detected :
      (rest : Model → D → Evaluation) (index : ℕ) (op : Op) (ops : List Op) (m : Model)
      (o : Option (Model × Reply)) (answer : Option (D × Reply)) {i : ℕ} {sig : Signature}
      → apply m op ≡ o
      → ((m' : Model) (d' : D)
          → (rest m' d').status ≡ fails i sig
          → Detected m' ops (rest m' d').history
            × (suc i ≡ suc index + length (rest m' d').history))
      → (compared target rest index op o answer).status ≡ fails i sig
      → Detected m (op ∷ ops) (compared target rest index op o answer).history
        × (suc i ≡ index + length (compared target rest index op o answer).history)
  compared-Detected rest index op ops m none answer e follows h = absurd (inconclusive-ne-fails h)
  compared-Detected rest index op ops m (some (m', expected)) none e follows h =
      absurd (inconclusive-ne-fails h)
  compared-Detected rest index op ops m (some (m', expected)) (some (d, actual)) e follows h =
      judged-Detected index op ops m m' d expected actual (differing expected actual) (rest m' d)
        refl e (follows m' d) h

  run-Detected :
      (index : ℕ) (ops : List Op) (m : Model) (d : D) {i : ℕ} {sig : Signature}
      → (run target index ops m d).status ≡ fails i sig
      → Detected m ops (run target index ops m d).history
        × (suc i ≡ index + length (run target index ops m d).history)
  unfolding run
  run-Detected index [] m d h = absurd (passes-ne (closed-fails d _ h))
  run-Detected index (op ∷ ops) m d {i} {sig} h =
      compared-Detected (run target (suc index) ops) index op ops m (apply m op)
        (target.perform d op) refl (λ m' d' k. run-Detected (suc index) ops m' d' k) h

  opened_inv :
      (s : Scenario) (o : Option D) (ev : Evaluation) (st : Status)
      → st ≢ inconclusive
      → opened target s o ≡ ev
      → ev.status ≡ st
      → (d : D) × (run target 0 s.operations (create s.capacity) d ≡ ev)
  opened_inv s none ev st other e h =
      absurd (other (sym h ∙ ap (λ (v : Evaluation). v.status) (sym e)))
  opened_inv s (some d) ev st other e h = (d, e)

  evaluated_inv :
      (s : Scenario) (ev : Evaluation) (st : Status)
      → st ≢ inconclusive
      → evaluate target s ≡ some ev
      → ev.status ≡ st
      → (d : D) × (run target 0 s.operations (create s.capacity) d ≡ ev)
  unfolding evaluate
  evaluated_inv s ev st other e h = elim (Option-cases (validate s)) [
    | inr (bad, refused) ↦ absurd (none-ne (sym (ap (validated target s) refused) ∙ e))
    | inl good ↦
        opened_inv s (target.enter s.capacity) ev st other
          (some-injective _ ev (sym (ap (validated target s) good) ∙ e)) h
  ]

  -- When `evaluate` passes, the replies that the device gave to the operations, all of them and in
  -- their order, are those of a run of the reference model from an empty buffer.
  pub pass-Runs :
      (s : Scenario) (ev : Evaluation)
      → evaluate target s ≡ some ev
      → ev.status ≡ passes
      → (last : Model) × Runs (create s.capacity) s.operations (map actual_of ev.history) last
  pass-Runs s ev e h =
      let (d, same) = evaluated_inv s ev passes (λ k. inconclusive-ne (sym k)) e h in
      subst
        (λ (v : Evaluation).
          (last : Model) × Runs (create s.capacity) s.operations (map actual_of v.history) last)
        same
        (run-Runs 0 s.operations (create s.capacity) d
          (subst (λ (v : Evaluation). v.status ≡ passes) (sym same) h))

  -- When `evaluate` fails, the replies of the device agree with a run of the reference model up to
  -- the last operation that the history records, which is the one that the failure names, and there
  -- the device's reply is not the model's.
  pub fail-Detected :
      (s : Scenario) (ev : Evaluation) {i : ℕ} {sig : Signature}
      → evaluate target s ≡ some ev
      → ev.status ≡ fails i sig
      → Detected (create s.capacity) s.operations ev.history × (suc i ≡ length ev.history)
  fail-Detected s ev {i} {sig} e h =
      let (d, same) = evaluated_inv s ev (fails i sig) (λ k. inconclusive-ne-fails (sym k)) e h in
      subst
        (λ (v : Evaluation).
          Detected (create s.capacity) s.operations v.history × (suc i ≡ length v.history))
        same
        (let (found, place) =
            run-Detected 0 s.operations (create s.capacity) d
              (subst (λ (v : Evaluation). v.status ≡ fails i sig) (sym same) h) in
          (found, omega (arith, place)))
