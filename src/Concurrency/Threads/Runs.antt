-- ===== src/Concurrency/Threads/Runs.antt =====
-- Whole runs of the threads.
use mathlib.Core.List.Memᴰ
use kernel_bridge_concurrent.Concurrency.Threads.Sequences.{IsBegun}
use kernel_bridge_concurrent.Common.{
  ℕ, zero, suc, ◌<◌, ◌≡◌, refl, sym, subst, ◌≢◌, none, some, List, [], ◌∷◌, ◌++◌, append-nil, arith,
}
use mathlib.Core.List.{Mem, Perm}
use mathlib.Core.List.Perm
use kernel_bridge_concurrent.Contract.Ops.{Op}
use kernel_bridge_concurrent.Contract.Model.{Model, create}
use kernel_bridge_concurrent.History.Events.{Event}
use kernel_bridge_concurrent.History.Search.Spec.{Replays, done, IsLinearization}
use kernel_bridge_concurrent.Runner.{Target}
use kernel_bridge_concurrent.Concurrency.Threads.{
  Thread, threads_from, System, Step, tick, move, Reaches, here, next,
}
use kernel_bridge_concurrent.Concurrency.Threads.Flights.{
  Completes-split, Completes-le, Completes-nil, IsIdle, nil_of_IsIdle,
}
use kernel_bridge_concurrent.Concurrency.Threads.Sequences.{
  Fresh-nil, Apart, Distinct, Distinct-set, Begun, Begun-le, Begun-set,
}
use kernel_bridge_concurrent.Concurrency.Threads.Traces.{Move-Traced, worker-Move, Move-IsBegun}
use kernel_bridge_concurrent.Concurrency.Threads.Backward.{IsAtomic, Explained, Traced-Explained}

idle-Begun : (clock : ℕ) (pool : List Thread) → IsIdle pool → Begun clock pool
idle-Begun clock [] h = tt
idle-Begun clock (th ∷ pool) (h, idle) =
    (subst (IsBegun clock) (sym h) tt, idle-Begun clock pool idle)

threads_from-Apart :
    (worker first n : ℕ) (owners : List ℕ) (ops : List Op)
    → worker < first
    → Apart worker (threads_from first n owners ops)
threads_from-Apart worker first zero owners ops less = tt
threads_from-Apart worker first (suc n) owners ops less = (
  λ e. omega (arith, e, less),
  threads_from-Apart worker (suc first) n owners ops (omega (arith, less)),
)

-- No two of the threads that are submitted work for one worker.
pub threads_from-Distinct :
    (first n : ℕ) (owners : List ℕ) (ops : List Op) → Distinct (threads_from first n owners ops)
threads_from-Distinct first zero owners ops = tt
threads_from-Distinct first (suc n) owners ops = (
  threads_from-Apart first (suc first) n owners ops (omega arith),
  threads_from-Distinct (suc first) n owners ops,
)

pub threads_from-IsIdle :
    (first n : ℕ) (owners : List ℕ) (ops : List Op) → IsIdle (threads_from first n owners ops)
threads_from-IsIdle first zero owners ops = tt
threads_from-IsIdle first (suc n) owners ops = (refl, threads_from-IsIdle (suc first) n owners ops)

module _ {D : Type 0} (target : Target D) (model : D → Model) (Fits : D → Type 0)
    (atomic : IsAtomic target model Fits) where
  -- What every step keeps.
  record IsSound (s : System D) : Type 0 where
    pub distinct : Distinct s.pool
    pub begun : Begun s.clock s.pool

  Step-IsSound : {s t : System D} → Step target s t → IsSound s → IsSound t
  Step-IsSound {s} (tick later less) i = record {
    distinct = i.distinct;
    begun = Begun-le s.clock later s.pool less i.begun;
  }
  Step-IsSound {s} (move before after th {d} {h} {th'} e mv) i = record {
    distinct =
        Distinct-set before after th th' (worker-Move target s.clock mv)
          (subst Distinct e i.distinct);
    begun =
        Begun-set s.clock before after th th' (Move-IsBegun target s.clock mv)
          (subst (Begun s.clock) e i.begun);
  }

  module _ (end : List Event) (answered : (q : Event) → Mem q end → q.actual ≢ none) where
    -- The explanation of the rest of a run.
    abbrev Rest : System D → Type 0
    Rest s = Explained target model Fits atomic end answered s.clock s.device s.history s.pool

    Step-Explained : {s t : System D} → Step target s t → IsSound s → Rest t → Rest s
    Step-Explained {s} (tick later less) i x = record {
      flights = x.flights;
      order = x.order;
      completes = Completes-le s.pool x.flights less x.completes;
      perm = x.perm;
      replays = x.replays;
      respects = x.respects;
      later = λ q m. omega (arith, x.later q m, less);
      fresh = x.fresh;
    }
    Step-Explained {s} (move before after th {d} {h} {th'} e mv) i x =
        let a = Completes-split s.clock before after th' x.flights x.completes in
        subst
          (λ pool. Explained target model Fits atomic end answered s.clock s.device s.history pool)
          (sym e)
          (Traced-Explained target model Fits atomic end answered s.clock s.device d s.history h
            before after th th' x a (subst Distinct e i.distinct) (subst (Begun s.clock) e i.begun)
            (worker-Move target s.clock mv) (Move-Traced target s.clock a.here mv a.part))

    Reaches-Explained :
        {s t : System D} → Reaches target s t → IsSound s → t.history ≡ end → IsIdle t.pool → Rest s
    Reaches-Explained {s} here i same idle = record {
      flights = [];
      order = [];
      completes = Completes-nil s.pool idle;
      perm =
          subst (λ l. Perm end l) (sym (append-nil s.history))
            (subst (λ l. Perm l s.history) same Perm.rfl);
      replays = λ fits. done;
      respects = tt;
      later = λ q m. absurd (Memᴰ.not-nil m);
      fresh = Fresh-nil s.pool;
    }
    Reaches-Explained (next st more) i same idle =
        Step-Explained st i (Reaches-Explained more (Step-IsSound st i) same idle)

  -- A run from a device as it is opened, with idle threads, one for each worker, and no history, to
  -- its end: if no call raised an exception, its history has a linearization.
  pub Reaches-IsLinearization :
      {s t : System D} (limit : ℕ)
      → Reaches target s t
      → target.enter limit ≡ some s.device
      → s.history ≡ []
      → IsIdle s.pool
      → Distinct s.pool
      → IsIdle t.pool
      → ((q : Event) → Mem q t.history → q.actual ≢ none)
      → (order : List Event) × IsLinearization (create limit) t.history order
  Reaches-IsLinearization {s} {t} limit run opened empty ready_all apart idle answered =
      let (fits, fresh_device) = atomic.entered limit s.device opened in
      let i : IsSound s = record {
        distinct = apart;
        begun = idle-Begun s.clock s.pool ready_all;
      } in
      let x = Reaches-Explained t.history answered run i refl idle in
      (
        x.order,
        record {
          perm = Perm.symm (
              subst (λ l. Perm t.history (l ++ x.order))
                (nil_of_IsIdle s.pool x.flights ready_all x.completes)
                (subst (λ l. Perm t.history (l ++ (x.flights ++ x.order))) empty x.perm));
          respects = x.respects;
          replays = subst (λ m. Replays m x.order) fresh_device (x.replays fits);
        },
      )
