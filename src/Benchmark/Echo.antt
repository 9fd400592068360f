-- ===== src/Benchmark/Echo.antt =====
-- `exchange` through a transport that gives back what it took, first in, first out.
use kernel_bridge_concurrent.Benchmark.{spent}
use kernel_bridge_concurrent.Common.{
  ◌-◌, ◌||◌, ◌==◌, length-append, ◌+◌, arith, take-append-drop, if-false, if-true, ℕ, zero, suc,
  ◌≡◌, refl, sym, ap, ◌∙◌, ◌≢◌, inl, inr, not, ◌&&◌, Option, none, some, List, [], ◌∷◌, ◌++◌,
  append-nil, append_assoc, ltb, leb, Bool-cases, length, take, drop, ℤ, pos, negsuc,
}
use kernel_bridge_concurrent.Benchmark.{
  with_writes, received, then_receive, receive_all, arith, exchange, Transport, Calls, Ended,
  aborted, done, sent, send_all,
}

-- What the bytes in the transport are, and what its calls do to them.
pub record IsFifo {T : Type 0} (transport : Transport T) (held : T → List ℕ) : Type 0 where
  pub takes :
      (t t' : T) (bytes : List ℕ) (n : ℕ)
      → transport.send t bytes ≡ some (t', pos n)
      → held t' ≡ held t ++ take n bytes
  pub gives :
      (t t' : T) (limit : ℕ) (bytes : List ℕ)
      → transport.receive t limit ≡ some (t', bytes)
      → held t ≡ bytes ++ held t'

aborted-ne : {R : Type 0} {r : R} → aborted ≢ done r
aborted-ne e = cc

done-injective : {R : Type 0} (a b : R) → done a ≡ done b → a ≡ b
done-injective a b e = cc

prefix-all : (a b c : List ℕ) → a ≡ b ++ c → length b ≡ length a → (b ≡ a) × (c ≡ [])
prefix-all a b [] e h = (sym (append-nil b) ∙ sym e, refl)
prefix-all a b (x ∷ c) e h =
    absurd (omega (arith, h, ap (λ l. length l) e, length-append b (x ∷ c)))

module _ {T : Type 0} (transport : Transport T) (held : T → List ℕ)
    (fifo : IsFifo transport held) where
  sent-held :
      (again : T → List ℕ → Calls → Ended (T × Calls)) (t t' : T) (left : List ℕ) (k k' : Calls)
      (o : Option (T × ℤ))
      → transport.send t left ≡ o
      → ((u : T) (rest : List ℕ) (j : Calls)
          → again u rest j ≡ done (t', k')
          → held t' ≡ held u ++ rest)
      → sent transport again left k o ≡ done (t', k')
      → held t' ≡ held t ++ left
  sent-held again t t' left k k' none e goes h = cc
  sent-held again t t' left k k' (some (u, negsuc n)) e goes h = cc
  sent-held again t t' left k k' (some (u, pos n)) e goes h =
      elim (Bool-cases (not (ltb 0 n && leb n (length left)))) [
        | inl bad ↦ absurd (aborted-ne (sym (if-true _ bad) ∙ h))
        | inr good ↦
            goes u (drop n left) _ (sym (if-false _ good) ∙ h)
            ∙ ap (λ l. l ++ drop n left) (fifo.takes t u left n e)
            ∙ append_assoc (held t) (take n left) (drop n left)
            ∙ ap (λ l. held t ++ l) (take-append-drop n left)
      ]

  send_all-held :
      (fuel : ℕ) (t t' : T) (left : List ℕ) (k k' : Calls)
      → send_all transport fuel t left k ≡ done (t', k')
      → held t' ≡ held t ++ left
  unfolding send_all
  send_all-held fuel t t' [] k k' h =
      ap (λ (p : T × Calls). held p.0) (sym (done-injective (t, k) (t', k') h))
      ∙ sym (append-nil (held t))
  send_all-held zero t t' (x ∷ left) k k' h = cc
  send_all-held (suc fuel) t t' (x ∷ left) k k' h =
      sent-held (send_all transport fuel) t t' (x ∷ left) k k' (transport.send t (x ∷ left)) refl
        (λ u rest j f. send_all-held fuel u t' rest j k' f) h

  -- What the received chunks, the transport and the result of the loop have in common.
  abbrev Received : ℕ → T → List ℕ → T → List ℕ → Type 0
  Received remaining t chunks t' bytes =
      (chunks ++ held t ≡ bytes ++ held t') × (length bytes ≡ length chunks + remaining)

  received-held :
      (again : T → ℕ → List ℕ → Calls → Ended (T × List ℕ × Calls)) (t t' : T) (remaining : ℕ)
      (chunks bytes : List ℕ) (k k' : Calls) (o : Option (T × List ℕ))
      → transport.receive t remaining ≡ o
      → ((u : T) (rest : ℕ) (more : List ℕ) (j : Calls)
          → again u rest more j ≡ done (t', bytes, k')
          → Received rest u more t' bytes)
      → received transport again remaining chunks k o ≡ done (t', bytes, k')
      → Received remaining t chunks t' bytes
  received-held again t t' remaining chunks bytes k k' none e goes h = cc
  received-held again t t' remaining chunks bytes k k' (some (u, got)) e goes h =
      elim (Bool-cases (length got == 0 || ltb remaining (length got))) [
        | inl bad ↦ absurd (aborted-ne (sym (if-true _ bad) ∙ h))
        | inr good ↦
            let (same, size) =
              goes u (remaining - length got) (chunks ++ got) _ (sym (if-false _ good) ∙ h) in
            (
              ap (λ l. chunks ++ l) (fifo.gives t u remaining got e)
                  ∙ sym (append_assoc chunks got (held u))
                  ∙ same,
              ground (arith, size, length-append chunks got, good),
            )
      ]

  receive_all-held :
      (fuel : ℕ) (t t' : T) (remaining : ℕ) (chunks bytes : List ℕ) (k k' : Calls)
      → receive_all transport fuel t remaining chunks k ≡ done (t', bytes, k')
      → Received remaining t chunks t' bytes
  unfolding receive_all
  receive_all-held fuel t t' zero chunks bytes k k' h =
      let same = done-injective (t, chunks, k) (t', bytes, k') h in
      (
        ap (λ (p : T × List ℕ × Calls). p.1 ++ held p.0) same,
        omega (arith, ap (λ (p : T × List ℕ × Calls). length p.1) same),
      )
  receive_all-held zero t t' (suc remaining) chunks bytes k k' h = cc
  receive_all-held (suc fuel) t t' (suc remaining) chunks bytes k k' h =
      received-held (receive_all transport fuel) t t' (suc remaining) chunks bytes k k'
        (transport.receive t (suc remaining)) refl
        (λ u rest more j f. receive_all-held fuel u t' rest more bytes j k' f) h

  with_writes-inv :
      (w : Calls) (x : Ended (T × List ℕ × Calls)) (t' : T) (bytes : List ℕ) (w' r : Calls)
      → with_writes transport w x ≡ done (t', bytes, w', r)
      → x ≡ done (t', bytes, r)
  with_writes-inv w aborted t' bytes w' r h = cc
  with_writes-inv w spent t' bytes w' r h = cc
  with_writes-inv w (done (u, got, k)) t' bytes w' r h =
      ap (λ (p : T × List ℕ × Calls × Calls). done (p.0, p.1, p.3))
        (done-injective (u, got, w, k) (t', bytes, w', r) h)

  then_receive-held :
      (payload : List ℕ) (t t' : T) (x : Ended (T × Calls)) (bytes : List ℕ) (w r : Calls)
      → held t ≡ []
      → ((u : T) (k : Calls) → x ≡ done (u, k) → held u ≡ held t ++ payload)
      → then_receive transport (length payload) x ≡ done (t', bytes, w, r)
      → (bytes ≡ payload) × (held t' ≡ [])
  then_receive-held payload t t' aborted bytes w r none_held sends h = cc
  then_receive-held payload t t' spent bytes w r none_held sends h = cc
  then_receive-held payload t t' (done (u, writes)) bytes w r none_held sends h =
      let (same, size) =
        receive_all-held (length payload) u t' (length payload) [] bytes
          (record { number = 0; short = 0 }) r (with_writes-inv writes _ t' bytes w r h) in
      prefix-all payload bytes (held t')
        (sym (sends u writes refl ∙ ap (λ l. l ++ payload) none_held) ∙ same) (omega (arith, size))

  -- Through a transport that holds nothing and gives back what it took, first in, first out, a
  -- payload comes back as it was sent, however the transfers are cut short, and nothing is left in
  -- the transport, whenever `exchange` returns.
  pub exchange-held :
      (t t' : T) (payload bytes : List ℕ) (w r : Calls)
      → held t ≡ []
      → exchange transport t payload ≡ done (t', bytes, w, r)
      → (bytes ≡ payload) × (held t' ≡ [])
  unfolding exchange
  exchange-held t t' payload bytes w r none_held h =
      then_receive-held payload t t'
        (send_all transport (length payload) t payload (record { number = 0; short = 0 })) bytes w r
        none_held
        (λ u k e. send_all-held (length payload) t u payload (record { number = 0; short = 0 }) k e)
        h
