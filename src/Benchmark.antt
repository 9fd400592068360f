-- ===== src/Benchmark.antt =====
-- `exchange` of lab/benchmark.py: a payload through a transport that may transfer less than asked.
pub mod Echo
pub mod Ends
use kernel_bridge_concurrent.Common.{
  ℕ, zero, suc, ◌+◌, ◌-◌, ◌*◌, ◌/◌, ◌%◌, ◌^◌, ◌≤◌, ◌<◌, min, max, ◌≡◌, refl, sym, ap, ◌∙◌, subst,
  ◌≢◌, ◌↔◌, ◌⊎◌, inl, inr, ite, if_pos, if_neg, Bool, true, false, not, ◌&&◌, ◌||◌, Option, none,
  some, List, [], ◌∷◌, ◌++◌, map, append-nil, append_assoc, arith, ltb, leb, ◌==◌, if◌then◌else◌,
  between, Bool-cases, Option-cases, length, take, drop, get_or, set, get_elem?, ℤ, pos, negsuc,
}

-- The two methods of a transport; `none` is an exception. The count of `send` is what the call
-- returned, which may be invalid.
pub record Transport (T : Type 0) : Type 0 where
  pub send : T → List ℕ → Option (T × ℤ)
  pub receive : T → ℕ → Option (T × List ℕ)

pub record Calls : Type 0 where
  pub number : ℕ
  pub short : ℕ

-- How a loop ends; `spent` is the end of the fuel.
pub data Ended (R : Type 0) : Type 0 where
  aborted spent : Ended R
  done : R → Ended R

-- `short += count < wanted`, and one call more.
abbrev pub count_call : Bool → Calls → Calls
count_call true k = record { number = k.number + 1; short = k.short + 1 }
count_call false k = record { number = k.number + 1; short = k.short }

module _ {T : Type 0} (transport : Transport T) where
  -- `if not 0 < count <= len(payload) - offset`
  abbrev pub sent :
      (T → List ℕ → Calls → Ended (T × Calls)) → List ℕ → Calls → Option (T × ℤ) → Ended (T × Calls)
  sent again left k none = aborted
  sent again left k (some (t, negsuc n)) = aborted
  sent again left k (some (t, pos n)) =
      let rest = again t (drop n left) (count_call (ltb n (length left)) k) in
      if not (ltb 0 n && leb n (length left)) then aborted else rest

  -- The bytes from `offset` on are the list `left`.
  unfoldable pub send_all : ℕ → T → List ℕ → Calls → Ended (T × Calls)
  send_all fuel t [] k = done (t, k)
  send_all zero t (x ∷ left) k = spent
  send_all (suc fuel) t (x ∷ left) k =
      sent (send_all fuel) (x ∷ left) k (transport.send t (x ∷ left))

  abbrev pub received :
      (T → ℕ → List ℕ → Calls → Ended (T × List ℕ × Calls))
      → ℕ
      → List ℕ
      → Calls
      → Option (T × List ℕ)
      → Ended (T × List ℕ × Calls)
  received again remaining chunks k none = aborted
  received again remaining chunks k (some (t, bytes)) =
      let rest =
        again t (remaining - length bytes) (chunks ++ bytes)
          (count_call (ltb (length bytes) remaining) k) in
      if length bytes == 0 || ltb remaining (length bytes) then aborted else rest

  -- The chunks are kept joined.
  unfoldable pub receive_all : ℕ → T → ℕ → List ℕ → Calls → Ended (T × List ℕ × Calls)
  receive_all fuel t zero chunks k = done (t, chunks, k)
  receive_all zero t (suc remaining) chunks k = spent
  receive_all (suc fuel) t (suc remaining) chunks k =
      received (receive_all fuel) (suc remaining) chunks k (transport.receive t (suc remaining))

  abbrev pub with_writes : Calls → Ended (T × List ℕ × Calls) → Ended (T × List ℕ × Calls × Calls)
  with_writes writes aborted = aborted
  with_writes writes spent = spent
  with_writes writes (done (t, bytes, reads)) = done (t, bytes, writes, reads)

  abbrev pub then_receive : ℕ → Ended (T × Calls) → Ended (T × List ℕ × Calls × Calls)
  then_receive size aborted = aborted
  then_receive size spent = spent
  then_receive size (done (t, writes)) =
      with_writes writes (receive_all size t size [] (record { number = 0; short = 0 }))

  unfoldable pub exchange : T → List ℕ → Ended (T × List ℕ × Calls × Calls)
  unfolding send_all receive_all
  exchange t payload =
      then_receive (length payload)
        (send_all (length payload) t payload (record { number = 0; short = 0 }))
