-- ===== src/Concurrency/Threads/Traces.antt =====
-- What one step of a thread does to the event of its call.
use kernel_bridge_concurrent.Common.{
  ℕ, suc, ◌≤◌, ◌≡◌, refl, sym, ap, ◌∙◌, subst, Option, none, some, List, [], ◌∷◌, ◌++◌, arith,
}
use kernel_bridge_concurrent.Contract.Ops.{Reply}
use kernel_bridge_concurrent.History.Events.{Event}
use kernel_bridge_concurrent.Runner.{Target}
use kernel_bridge_concurrent.Concurrency.Threads.{
  Call, ready, called, returned, stamped, Thread, event_of, Move, invoke, answer, raise, stamp,
  publish,
}
use kernel_bridge_concurrent.Concurrency.Threads.Flights.{
  IsWaiting, Part, waiting, returning, stamping,
}
use kernel_bridge_concurrent.Concurrency.Threads.Sequences.{low, low_of, IsBegun}

called-injective : (s t : ℕ) → called s ≡ called t → s ≡ t
called-injective s t e = cc

returned-injective :
    (s t : ℕ) (a b : Option Reply) → returned s a ≡ returned t b → (s ≡ t) × (a ≡ b)
returned-injective s t a b e = (cc, cc)

stamped-injective :
    (s t : ℕ) (a b : Option Reply) (f g : ℕ)
    → stamped s a f ≡ stamped t b g
    → (s ≡ t) × (a ≡ b) × (f ≡ g)
stamped-injective s t a b f g e = (cc, cc, cc)

first-injective : (c d : Call) (cs ds : List Call) → c ∷ cs ≡ d ∷ ds → c ≡ d
first-injective c d cs ds e = cc

module _ {D : Type 0} (target : Target D) (clock : ℕ) where
  -- Where the device answers, or fails to, the thread gets its event; where it publishes, the event
  -- goes to the history; any other step leaves it alone.
  pub data Traced (d : D) (h : List Event) (th : Thread) (d' : D) (h' : List Event) (th' : Thread)
      (fs : List Event) : Type 0 where
    quiet : Part clock th fs → d' ≡ d → h' ≡ h → low th' ≡ low th → Traced d h th d' h' th' fs
    answering :
        (e : Event) (r : Reply)
        → fs ≡ e ∷ []
        → Part clock th []
        → h' ≡ h
        → e.worker ≡ th.worker
        → e.sequence ≡ low th
        → low th' ≡ suc (low th)
        → clock ≤ e.finished
        → (IsBegun clock th.phase → e.started ≤ clock)
        → e.actual ≡ some r
        → target.perform d e.operation ≡ some (d', r)
        → Traced d h th d' h' th' fs
    publishing :
        (e : Event)
        → fs ≡ []
        → Part clock th (e ∷ [])
        → d' ≡ d
        → h' ≡ h ++ e ∷ []
        → low th' ≡ low th
        → Traced d h th d' h' th' fs
    failing : (e : Event) → fs ≡ e ∷ [] → e.actual ≡ none → Traced d h th d' h' th' fs

  module _ (d : D) (h : List Event) (th : Thread) (fs : List Event) where
    answered-Traced :
        (c : Call) (rest : List Call) (started : ℕ) (r : Reply) (d' : D)
        → th.todo ≡ c ∷ rest
        → th.phase ≡ called started
        → target.perform d c.operation ≡ some (d', r)
        → Part clock (record th { phase = returned started (some r) }) fs
        → Traced d h th d' h (record th { phase = returned started (some r) }) fs
    answered-Traced c rest started r d' todo at_phase gives (waiting w e) = absurd w
    answered-Traced c rest started r d' todo at_phase gives
          (returning c' rest' started' actual finished todo' phase' ends e) =
        let (starts, actuals) = returned-injective started started' (some r) actual phase' in
        answering (event_of th c' started' actual finished) r e
          (waiting (subst IsWaiting (sym at_phase) tt) refl) refl refl
          (ap (low_of th.sequence) (sym at_phase)) (ap suc (ap (low_of th.sequence) (sym at_phase)))
          ends (λ b. subst (λ t. t ≤ clock) starts (subst (IsBegun clock) at_phase b)) (sym actuals)
          (subst (λ (x : Call). target.perform d x.operation ≡ some (d', r))
            (first-injective c c' rest rest' (sym todo ∙ todo')) gives)
    answered-Traced c rest started r d' todo at_phase gives
          (stamping c' rest' started' actual finished todo' phase' e) =
        cc

    raised-Traced :
        (started : ℕ) {d' : D} {h' : List Event}
        → Part clock (record th { phase = returned started none }) fs
        → Traced d h th d' h' (record th { phase = returned started none }) fs
    raised-Traced started (waiting w e) = absurd w
    raised-Traced started (returning c' rest' started' actual finished todo' phase' ends e) =
        failing (event_of th c' started' actual finished) e
          (sym (returned-injective started started' none actual phase').1)
    raised-Traced started (stamping c' rest' started' actual finished todo' phase' e) = cc

    stamped-Traced :
        (started : ℕ) (actual : Option Reply)
        → th.phase ≡ returned started actual
        → Part clock (record th { phase = stamped started actual clock }) fs
        → Traced d h th d h (record th { phase = stamped started actual clock }) fs
    stamped-Traced started actual at_phase (waiting w e) = absurd w
    stamped-Traced started actual at_phase
          (returning c' rest' started' actual' finished todo' phase' ends e) =
        cc
    stamped-Traced started actual at_phase
          (stamping c' rest' started' actual' finished todo' phase' e) =
        let (starts, actuals, ends) =
          stamped-injective started started' actual actual' clock finished phase' in
        quiet
          (returning c' rest' started' actual' finished todo'
            (at_phase ∙ ap (λ s. returned s actual) starts ∙ ap (returned started') actuals)
            (omega (arith, ends)) e)
          refl refl (ap (low_of th.sequence) (sym at_phase))

    ready-Traced :
        (c : Call) (rest todo' : List Call) (started finished : ℕ) (actual : Option Reply)
        → th.todo ≡ c ∷ rest
        → th.phase ≡ stamped started actual finished
        → Part clock
            (record { worker = th.worker; sequence = suc th.sequence; todo = todo'; phase = ready })
            fs
        → Traced d h th d
            (h ++ event_of th c started actual finished ∷ [])
            (record { worker = th.worker; sequence = suc th.sequence; todo = todo'; phase = ready })
            fs
    ready-Traced c rest todo' started finished actual todo at_phase (waiting w e) =
        publishing (event_of th c started actual finished) e
          (stamping c rest started actual finished todo at_phase refl) refl refl
          (ap (low_of th.sequence) (sym at_phase))
    ready-Traced c rest todo' started finished actual todo at_phase
          (returning c' rest' started' actual' finished' todo'' phase' ends e) =
        cc
    ready-Traced c rest todo' started finished actual todo at_phase
          (stamping c' rest' started' actual' finished' todo'' phase' e) =
        cc

    called-Traced :
        th.phase ≡ ready
        → Part clock (record th { phase = called clock }) fs
        → Traced d h th d h (record th { phase = called clock }) fs
    called-Traced at_phase (waiting w e) =
        quiet (waiting (subst IsWaiting (sym at_phase) tt) e) refl refl
          (ap (low_of th.sequence) (sym at_phase))
    called-Traced at_phase (returning c' rest' started' actual' finished' todo' phase' ends e) = cc
    called-Traced at_phase (stamping c' rest' started' actual' finished' todo' phase' e) = cc

  pub Move-Traced :
      {d : D} {h : List Event} {th : Thread} {d' : D} {h' : List Event} {th' : Thread}
      (fs : List Event)
      → Move target clock d h th d' h' th'
      → Part clock th' fs
      → Traced d h th d' h' th' fs
  Move-Traced {d} {h} {th} fs (invoke c rest todo at_phase) p = called-Traced d h th fs at_phase p
  Move-Traced {d} {h} {th} {d'} fs (answer c rest started r todo at_phase gives) p =
      answered-Traced d h th fs c rest started r d' todo at_phase gives p
  Move-Traced {d} {h} {th} fs (raise c rest started todo at_phase gives) p =
      raised-Traced d h th fs started p
  Move-Traced {d} {h} {th} fs (stamp started actual at_phase) p =
      stamped-Traced d h th fs started actual at_phase p
  Move-Traced {d} {h} {th} fs (publish c rest started finished actual todo at_phase) p =
      ready-Traced d h th fs c rest _ started finished actual todo at_phase p

  pub worker-Move :
      {d : D} {h : List Event} {th : Thread} {d' : D} {h' : List Event} {th' : Thread}
      → Move target clock d h th d' h' th'
      → th'.worker ≡ th.worker
  worker-Move (invoke c rest todo at_phase) = refl
  worker-Move (answer c rest started r todo at_phase gives) = refl
  worker-Move (raise c rest started todo at_phase gives) = refl
  worker-Move (stamp started actual at_phase) = refl
  worker-Move (publish c rest started finished actual todo at_phase) = refl

  pub Move-IsBegun :
      {d : D} {h : List Event} {th : Thread} {d' : D} {h' : List Event} {th' : Thread}
      → Move target clock d h th d' h' th'
      → IsBegun clock th'.phase
  Move-IsBegun (invoke c rest todo at_phase) = omega arith
  Move-IsBegun (answer c rest started r todo at_phase gives) = tt
  Move-IsBegun (raise c rest started todo at_phase gives) = tt
  Move-IsBegun (stamp started actual at_phase) = tt
  Move-IsBegun (publish c rest started finished actual todo at_phase) = tt
