-- ===== src/Benchmark/Ends.antt =====
-- The loops of `exchange` end: each call transfers a byte or aborts.
use kernel_bridge_concurrent.Common.{
  ◌≡◌, length-drop, if-false, if-true, ℕ, zero, suc, ◌-◌, ◌≤◌, ◌<◌, refl, sym, ◌∙◌, ◌≢◌, inl, inr,
  not, ◌&&◌, ◌||◌, Option, none, some, List, [], ◌∷◌, ◌++◌, arith, ltb, leb, ◌==◌, Bool-cases,
  length, drop, ℤ, pos, negsuc,
}
use kernel_bridge_concurrent.Benchmark.{
  Transport, Calls, Ended, aborted, spent, done, sent, send_all, received, receive_all, with_writes,
  then_receive, exchange,
}

aborted-ne-spent : {R : Type 0} (x : Ended R) → x ≡ aborted → x ≢ spent
aborted-ne-spent aborted same e = cc
aborted-ne-spent spent same e = cc
aborted-ne-spent (done r) same e = cc

module _ {T : Type 0} (transport : Transport T) where
  sent-ne-spent :
      (again : T → List ℕ → Calls → Ended (T × Calls)) (left : List ℕ) (k : Calls)
      (o : Option (T × ℤ))
      → ((u : T) (rest : List ℕ) (j : Calls) → length rest < length left → again u rest j ≢ spent)
      → sent transport again left k o ≢ spent
  sent-ne-spent again left k none goes h = cc
  sent-ne-spent again left k (some (u, negsuc n)) goes h = cc
  sent-ne-spent again left k (some (u, pos n)) goes h =
      elim (Bool-cases (not (ltb 0 n && leb n (length left)))) [
        | inl bad ↦ aborted-ne-spent _ (if-true _ bad) h
        | inr good ↦
            goes u (drop n left) _ (ground (arith, good, length-drop n left))
              (sym (if-false _ good) ∙ h)
      ]

  send_all-ne-spent :
      (fuel : ℕ) (t : T) (left : List ℕ) (k : Calls)
      → length left ≤ fuel
      → send_all transport fuel t left k ≢ spent
  unfolding send_all
  send_all-ne-spent fuel t [] k enough h = cc
  send_all-ne-spent zero t (x ∷ left) k enough h = omega arith
  send_all-ne-spent (suc fuel) t (x ∷ left) k enough h =
      sent-ne-spent (send_all transport fuel) (x ∷ left) k (transport.send t (x ∷ left))
        (λ u rest j less. send_all-ne-spent fuel u rest j (omega (arith, less, enough))) h

  received-ne-spent :
      (again : T → ℕ → List ℕ → Calls → Ended (T × List ℕ × Calls)) (remaining : ℕ)
      (chunks : List ℕ) (k : Calls) (o : Option (T × List ℕ))
      → ((u : T) (rest : ℕ) (more : List ℕ) (j : Calls)
          → rest < remaining
          → again u rest more j ≢ spent)
      → received transport again remaining chunks k o ≢ spent
  received-ne-spent again remaining chunks k none goes h = cc
  received-ne-spent again remaining chunks k (some (u, got)) goes h =
      elim (Bool-cases (length got == 0 || ltb remaining (length got))) [
        | inl bad ↦ aborted-ne-spent _ (if-true _ bad) h
        | inr good ↦
            goes u (remaining - length got) (chunks ++ got) _ (ground (arith, good))
              (sym (if-false _ good) ∙ h)
      ]

  receive_all-ne-spent :
      (fuel : ℕ) (t : T) (remaining : ℕ) (chunks : List ℕ) (k : Calls)
      → remaining ≤ fuel
      → receive_all transport fuel t remaining chunks k ≢ spent
  unfolding receive_all
  receive_all-ne-spent fuel t zero chunks k enough h = cc
  receive_all-ne-spent zero t (suc remaining) chunks k enough h = omega arith
  receive_all-ne-spent (suc fuel) t (suc remaining) chunks k enough h =
      received-ne-spent (receive_all transport fuel) (suc remaining) chunks k
        (transport.receive t (suc remaining))
        (λ u rest more j less.
          receive_all-ne-spent fuel u rest more j (omega (arith, less, enough)))
        h

  with_writes-ne-spent :
      (w : Calls) (x : Ended (T × List ℕ × Calls)) → x ≢ spent → with_writes transport w x ≢ spent
  with_writes-ne-spent w aborted other h = cc
  with_writes-ne-spent w spent other h = other refl
  with_writes-ne-spent w (done r) other h = cc

  then_receive-ne-spent :
      (size : ℕ) (x : Ended (T × Calls)) → x ≢ spent → then_receive transport size x ≢ spent
  then_receive-ne-spent size aborted other h = cc
  then_receive-ne-spent size spent other h = other refl
  then_receive-ne-spent size (done (t, writes)) other h =
      with_writes-ne-spent writes _
        (receive_all-ne-spent size t size [] (record { number = 0; short = 0 }) (omega arith)) h

  -- The loops of `exchange` end through any transport: the fuel, one unit for each byte, never runs
  -- out.
  pub exchange-ne-spent : (t : T) (payload : List ℕ) → exchange transport t payload ≢ spent
  unfolding exchange
  exchange-ne-spent t payload =
      then_receive-ne-spent (length payload)
        (send_all transport (length payload) t payload (record { number = 0; short = 0 }))
        (send_all-ne-spent (length payload) t payload (record { number = 0; short = 0 })
          (omega arith))
