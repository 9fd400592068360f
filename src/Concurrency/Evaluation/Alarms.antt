-- ===== src/Concurrency/Evaluation/Alarms.antt =====
-- `evaluate_concurrent` raises no false alarm.
use mathlib.Core.HLevel.{⊥_prop}
use mathlib.Core.Option.{some-injective}
use mathlib.Core.Logic.{∥∥₁_elim}
use kernel_bridge_concurrent.Common.{
  ℕ, ◌≤◌, ◌≡◌, refl, sym, ap, ◌∙◌, subst, ◌≢◌, Option, none, some, List, [], ◌∷◌, arith, length,
}
use mathlib.Core.Option
use kernel_bridge_concurrent.Contract.Ops.{Reply}
use kernel_bridge_concurrent.Contract.Model.{Model, apply}
use kernel_bridge_concurrent.Contract.Model.Bounds.{IsValid, apply-IsValid}
use kernel_bridge_concurrent.Backends.{Device, no_fault, apply_locked}
use kernel_bridge_concurrent.Backends.Agrees.{model, lifted, apply_locked-eq-apply}
use kernel_bridge_concurrent.History.Events.{Event}
use kernel_bridge_concurrent.History.Check.{
  Verdict, pass, fail, inconclusive, raises, check_history,
}
use kernel_bridge_concurrent.History.Check.Verdicts.{fail-no-IsLinearization}
use kernel_bridge_concurrent.History.Check.Answered.{fail-AllAnswered, answered_of}
use kernel_bridge_concurrent.Runner.{Target}
use kernel_bridge_concurrent.Runner.NoFault.{simulated}
use kernel_bridge_concurrent.Concurrency.{Plan}
use kernel_bridge_concurrent.Concurrency.Threads.{Thread}
use kernel_bridge_concurrent.Concurrency.Threads.Flights.{IsIdle}
use kernel_bridge_concurrent.Concurrency.Threads.Backward.{IsAtomic}
use kernel_bridge_concurrent.Concurrency.Threads.Runs.{
  Reaches-IsLinearization, threads_from-IsIdle, threads_from-Distinct,
}
use kernel_bridge_concurrent.Concurrency.Evaluation.{
  Outcome, judged, interpreted, IsOver, Evaluates, refused, unopened, timed_out, unclosed, captured,
}

IsOver-IsIdle : (pool : List Thread) → IsOver pool → IsIdle pool
IsOver-IsIdle [] h = tt
IsOver-IsIdle (th ∷ pool) (h, none_left, over) = (h, IsOver-IsIdle pool over)

-- The outcome is not that of a failure.
abbrev pub IsNoAlarm : Outcome → Type 0
IsNoAlarm (judged (fail k) h) = ⊥
IsNoAlarm out = Unit

interpreted-IsNoAlarm :
    (h : List Event) (v : Verdict) → ((k : ℕ) → v ≢ fail k) → IsNoAlarm (interpreted h v)
interpreted-IsNoAlarm h (pass order k) other = tt
interpreted-IsNoAlarm h (fail k) other = other k refl
interpreted-IsNoAlarm h (inconclusive reason k) other = tt
interpreted-IsNoAlarm h (raises e) other = tt

-- However the workers take turns and the clock goes on, `evaluate_concurrent` never reports a
-- failure of a backend that answers each call at one moment as the reference model does, also where
-- calls of it raise exceptions.
pub Evaluates-IsNoAlarm :
    {D : Type 0} (target : Target D) (model : D → Model) (Fits : D → Type 0) (plan : Plan)
    (workers budget : ℕ) {out : Outcome}
    → IsAtomic target model Fits
    → Evaluates target plan workers budget out
    → IsNoAlarm out
Evaluates-IsNoAlarm target model Fits plan workers budget atomic (refused e p) = tt
Evaluates-IsNoAlarm target model Fits plan workers budget atomic (unopened owners p o) = tt
Evaluates-IsNoAlarm target model Fits plan workers budget atomic (timed_out owners d p o) = tt
Evaluates-IsNoAlarm target model Fits plan workers budget atomic
      (unclosed owners clock d end p o run over left) =
    tt
Evaluates-IsNoAlarm target model Fits plan workers budget atomic
      (captured owners clock d end p o run over left) =
    let limit = plan.scenario.capacity in
    let ops = plan.scenario.operations in
    interpreted-IsNoAlarm end.history (check_history limit end.history (length ops) budget)
      (λ k failed.
        let all = fail-AllAnswered limit end.history (length ops) budget k failed in
        let (order, legal) =
          Reaches-IsLinearization target model Fits atomic limit run o refl
            (threads_from-IsIdle 0 workers owners ops) (threads_from-Distinct 0 workers owners ops)
            (IsOver-IsIdle end.pool over)
            (λ q m e. ∥∥₁_elim m ⊥_prop (λ n. answered_of end.history all q n e)) in
        fail-no-IsLinearization limit end.history (length ops) budget failed order legal)

-- A state of the simulator without a fault.
pub record IsSimulated (d : Device) : Type 0 where
  pub healthy : d.fault ≡ no_fault
  pub fits : length d.queue ≤ d.capacity

lifted-inv :
    (m : Model) (o : Option (Model × Reply)) (d' : Device) (r : Reply)
    → ((m' : Model) (s : Reply) → o ≡ some (m', s) → IsValid m')
    → Option.map lifted o ≡ some (d', r)
    → IsSimulated d' × (o ≡ some (model d', r))
lifted-inv m none d' r valid e = cc
lifted-inv m (some (m', s)) d' r valid e =
    let same = some-injective (lifted (m', s)) (d', r) e in
    (
      record {
        healthy = sym (ap (λ (p : Device × Reply). p.0.fault) same);
        fits =
            subst (λ (d : Device). length d.queue ≤ d.capacity)
              (ap (λ (p : Device × Reply). p.0) same) (valid m' s refl);
      },
      ap (λ (p : Device × Reply). some (model p.0, p.1)) same,
    )

-- The simulator without a fault is such a backend.
pub simulated-IsAtomic : IsAtomic (simulated no_fault) model IsSimulated
simulated-IsAtomic = record {
  entered = λ limit d e.
      let same = some-injective _ d e in
      (subst IsSimulated same (record { healthy = refl; fits = omega arith }), ap model (sym same));
  performed = λ d op d' r s e.
      lifted-inv (model d) (apply (model d) op) d' r
        (λ m' t step. apply-IsValid (model d) op step s.fits)
        (sym (apply_locked-eq-apply (model d) op s.fits)
          ∙ ap (λ f. apply_locked (record { capacity = d.capacity; queue = d.queue; fault = f }) op)
              (sym s.healthy)
          ∙ e);
}
