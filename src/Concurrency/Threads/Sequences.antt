-- ===== src/Concurrency/Threads/Sequences.antt =====
-- The sequence numbers that the threads of a pool have left, and that no two of them work for one
-- worker.
use kernel_bridge_concurrent.Common.{
  ℕ, suc, ◌≤◌, ◌≡◌, sym, ◌∙◌, subst, ◌≢◌, List, [], ◌∷◌, ◌++◌, arith,
}
use mathlib.Core.List.{Memᴰ}
use mathlib.Core.List.Memᴰ
use kernel_bridge_concurrent.History.Events.{Event}
use kernel_bridge_concurrent.Concurrency.Threads.{Phase, ready, called, returned, stamped, Thread}

-- The least sequence number of a call of the thread that the device has not answered.
abbrev pub low_of : ℕ → Phase → ℕ
low_of n ready = n
low_of n (called t) = n
low_of n (returned t a) = suc n
low_of n (stamped t a f) = suc n

abbrev pub low : Thread → ℕ
low th = low_of th.sequence th.phase

abbrev pub AtLeast : ℕ → ℕ → List Event → Type 0
AtLeast worker n order = (q : Event) → Memᴰ q order → q.worker ≡ worker → n ≤ q.sequence

-- What a device answers from now on has sequence numbers that the threads have left.
abbrev pub Fresh : List Thread → List Event → Type 0
Fresh [] order = Unit
Fresh (th ∷ pool) order = AtLeast th.worker (low th) order × Fresh pool order

abbrev pub Apart : ℕ → List Thread → Type 0
Apart worker [] = Unit
Apart worker (th ∷ pool) = (th.worker ≢ worker) × Apart worker pool

abbrev pub Distinct : List Thread → Type 0
Distinct [] = Unit
Distinct (th ∷ pool) = Apart th.worker pool × Distinct pool

Apart-set :
    (worker : ℕ) (before after : List Thread) (th th' : Thread)
    → th'.worker ≡ th.worker
    → Apart worker (before ++ th ∷ after)
    → Apart worker (before ++ th' ∷ after)
Apart-set worker [] after th th' same (ne, others) = (λ e. ne (sym same ∙ e), others)
Apart-set worker (u ∷ before) after th th' same (ne, others) =
    (ne, Apart-set worker before after th th' same others)

pub Distinct-set :
    (before after : List Thread) (th th' : Thread)
    → th'.worker ≡ th.worker
    → Distinct (before ++ th ∷ after)
    → Distinct (before ++ th' ∷ after)
Distinct-set [] after th th' same (apart, others) =
    (subst (λ w. Apart w after) (sym same) apart, others)
Distinct-set (u ∷ before) after th th' same (apart, others) = (
  Apart-set u.worker before after th th' same apart,
  Distinct-set before after th th' same others,
)

-- A step that leaves the least number of a thread alone leaves the pool fresh.
pub Fresh-set :
    (before after : List Thread) (th th' : Thread) (order : List Event)
    → th'.worker ≡ th.worker
    → low th' ≡ low th
    → Fresh (before ++ th' ∷ after) order
    → Fresh (before ++ th ∷ after) order
Fresh-set [] after th th' order same lows (least, others) =
    (λ q m e. subst (λ n. n ≤ q.sequence) lows (least q m (e ∙ sym same)), others)
Fresh-set (u ∷ before) after th th' order same lows (least, others) =
    (least, Fresh-set before after th th' order same lows others)

AtLeast-cons :
    (worker n : ℕ) (e : Event) (order : List Event)
    → (e.worker ≡ worker → n ≤ e.sequence)
    → AtLeast worker n order
    → AtLeast worker n (e ∷ order)
AtLeast-cons worker n e order first least q (Memᴰ.head same) at_worker =
    rw same (first (rw same at at_worker))
AtLeast-cons worker n e order first least q (Memᴰ.tail m) at_worker = least q m at_worker

Apart-Fresh :
    (e : Event) (pool : List Thread) (order : List Event)
    → Apart e.worker pool
    → Fresh pool order
    → Fresh pool (e ∷ order)
Apart-Fresh e [] order apart fresh = tt
Apart-Fresh e (u ∷ pool) order (ne, apart) (least, fresh) = (
  AtLeast-cons u.worker (low u) e order (λ same. absurd (ne (sym same))) least,
  Apart-Fresh e pool order apart fresh,
)

Apart-at :
    (worker : ℕ) (before after : List Thread) (th : Thread)
    → Apart worker (before ++ th ∷ after)
    → th.worker ≢ worker
Apart-at worker [] after th (ne, others) = ne
Apart-at worker (u ∷ before) after th (ne, others) = Apart-at worker before after th others

-- The device answers the call of a thread: its event goes before those that follow.
pub Fresh-answer :
    (before after : List Thread) (th th' : Thread) (e : Event) (order : List Event)
    → th'.worker ≡ th.worker
    → e.worker ≡ th.worker
    → e.sequence ≡ low th
    → low th' ≡ suc (low th)
    → Distinct (before ++ th ∷ after)
    → Fresh (before ++ th' ∷ after) order
    → Fresh (before ++ th ∷ after) (e ∷ order)
Fresh-answer [] after th th' e order same owner at_low lows (apart, others) (least, fresh) = (
  AtLeast-cons th.worker (low th) e order (λ x. omega (arith, at_low))
      (λ q m x. omega (arith, least q m (x ∙ sym same), lows)),
  Apart-Fresh e after order (subst (λ w. Apart w after) (sym owner) apart) fresh,
)
Fresh-answer (u ∷ before) after th th' e order same owner at_low lows (apart, others)
      (least, fresh) =
    (
      AtLeast-cons u.worker (low u) e order
          (λ x. absurd (Apart-at u.worker before after th apart (sym owner ∙ x))) least,
      Fresh-answer before after th th' e order same owner at_low lows others fresh,
    )

-- At the place of the thread.
pub Fresh-at :
    (before after : List Thread) (th : Thread) (order : List Event)
    → Fresh (before ++ th ∷ after) order
    → AtLeast th.worker (low th) order
Fresh-at [] after th order (least, others) = least
Fresh-at (u ∷ before) after th order (least, others) = Fresh-at before after th order others

pub Fresh-nil : (pool : List Thread) → Fresh pool []
Fresh-nil [] = tt
Fresh-nil (th ∷ pool) = (λ q m e. absurd (Memᴰ.not-nil m), Fresh-nil pool)

-- The calls under way have started.
abbrev pub IsBegun : ℕ → Phase → Type 0
IsBegun clock (called t) = t ≤ clock
IsBegun clock _ = Unit

abbrev pub Begun : ℕ → List Thread → Type 0
Begun clock [] = Unit
Begun clock (th ∷ pool) = IsBegun clock th.phase × Begun clock pool

IsBegun-le : (a b : ℕ) (p : Phase) → a ≤ b → IsBegun a p → IsBegun b p
IsBegun-le a b (called t) less h = omega (arith, less, h)
IsBegun-le a b ready less h = tt
IsBegun-le a b (returned t r) less h = tt
IsBegun-le a b (stamped t r f) less h = tt

pub Begun-le : (a b : ℕ) (pool : List Thread) → a ≤ b → Begun a pool → Begun b pool
Begun-le a b [] less h = tt
Begun-le a b (th ∷ pool) less (h, others) =
    (IsBegun-le a b th.phase less h, Begun-le a b pool less others)

pub Begun-at :
    (clock : ℕ) (before after : List Thread) (th : Thread)
    → Begun clock (before ++ th ∷ after)
    → IsBegun clock th.phase
Begun-at clock [] after th (h, others) = h
Begun-at clock (u ∷ before) after th (h, others) = Begun-at clock before after th others

pub Begun-set :
    (clock : ℕ) (before after : List Thread) (th th' : Thread)
    → IsBegun clock th'.phase
    → Begun clock (before ++ th ∷ after)
    → Begun clock (before ++ th' ∷ after)
Begun-set clock [] after th th' now (h, others) = (now, others)
Begun-set clock (u ∷ before) after th th' now (h, others) =
    (h, Begun-set clock before after th th' now others)
