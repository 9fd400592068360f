-- ===== src/Concurrency/Threads/Flights.antt =====
-- The threads of a pool: the events of their calls under way, the sequence numbers that they have
-- left, and that no two work for one worker.
use kernel_bridge_concurrent.Common.{
  ℕ, ◌≤◌, ◌≡◌, refl, sym, ap, ◌∙◌, subst, Option, List, [], ◌∷◌, ◌++◌, append_assoc, arith,
}
use kernel_bridge_concurrent.Contract.Ops.{Reply}
use kernel_bridge_concurrent.History.Events.{Event}
use kernel_bridge_concurrent.Concurrency.Threads.{
  Call, Phase, ready, called, returned, stamped, Thread, event_of,
}

-- The device has not answered yet.
abbrev pub IsWaiting : Phase → Type 0
IsWaiting ready = Unit
IsWaiting (called t) = Unit
IsWaiting (returned t a) = ⊥
IsWaiting (stamped t a f) = ⊥

-- The event that a thread will publish for its call: none before the device has answered, and one
-- with an end still to come before it is stamped.
pub data Part (clock : ℕ) (th : Thread) (fs : List Event) : Type 0 where
  waiting : IsWaiting th.phase → fs ≡ [] → Part clock th fs
  returning :
      (c : Call) (rest : List Call) (started : ℕ) (actual : Option Reply) (finished : ℕ)
      → th.todo ≡ c ∷ rest
      → th.phase ≡ returned started actual
      → clock ≤ finished
      → fs ≡ event_of th c started actual finished ∷ []
      → Part clock th fs
  stamping :
      (c : Call) (rest : List Call) (started : ℕ) (actual : Option Reply) (finished : ℕ)
      → th.todo ≡ c ∷ rest
      → th.phase ≡ stamped started actual finished
      → fs ≡ event_of th c started actual finished ∷ []
      → Part clock th fs

-- The events of a whole pool, in its order.
pub data Completes (clock : ℕ) : List Thread → List Event → Type 0 where
  nil : {es : List Event} → es ≡ [] → Completes clock [] es
  cons :
      {th : Thread} {ts : List Thread} {es : List Event} (fs gs : List Event)
      → Part clock th fs
      → Completes clock ts gs
      → es ≡ fs ++ gs
      → Completes clock (th ∷ ts) es

module _ (clock : ℕ) where
  -- The events at one place of a pool.
  pub record Around (before after : List Thread) (th : Thread) (es : List Event) : Type 0 where
    pub left : List Event
    pub here : List Event
    pub right : List Event
    pub first : Completes clock before left
    pub part : Part clock th here
    pub last : Completes clock after right
    pub joined : es ≡ left ++ (here ++ right)

  pub Completes-split :
      (before after : List Thread) (th : Thread) (es : List Event)
      → Completes clock (before ++ th ∷ after) es
      → Around before after th es
  Completes-split [] after th es (cons fs gs p rest e) = record {
    left = [];
    here = fs;
    right = gs;
    first = nil refl;
    part = p;
    last = rest;
    joined = e;
  }
  Completes-split (u ∷ before) after th es (cons fs gs p rest e) =
      let a = Completes-split before after th gs rest in
      record {
        left = fs ++ a.left;
        here = a.here;
        right = a.right;
        first = cons fs a.left p a.first refl;
        part = a.part;
        last = a.last;
        joined = e ∙ ap (λ l. fs ++ l) a.joined ∙ sym (append_assoc fs a.left (a.here ++ a.right));
      }

  pub Completes-join :
      (before after : List Thread) (th : Thread) (left fs right : List Event)
      → Completes clock before left
      → Part clock th fs
      → Completes clock after right
      → Completes clock (before ++ th ∷ after) (left ++ (fs ++ right))
  Completes-join [] after th left fs right (nil e) p last =
      cons fs right p last (ap (λ l. l ++ (fs ++ right)) e)
  Completes-join (u ∷ before) after th left fs right (cons gs more q rest e) p last =
      cons gs (more ++ (fs ++ right)) q (Completes-join before after th more fs right rest p last)
        (ap (λ l. l ++ (fs ++ right)) e ∙ append_assoc gs more (fs ++ right))

Part-le : {a b : ℕ} (th : Thread) (fs : List Event) → a ≤ b → Part b th fs → Part a th fs
Part-le th fs less (waiting w e) = waiting w e
Part-le th fs less (returning c rest t a f todo at_phase ends e) =
    returning c rest t a f todo at_phase (omega (arith, less, ends)) e
Part-le th fs less (stamping c rest t a f todo at_phase e) = stamping c rest t a f todo at_phase e

-- What completes at a later time completes at an earlier one.
pub Completes-le :
    {a b : ℕ} (pool : List Thread) (es : List Event)
    → a ≤ b
    → Completes b pool es
    → Completes a pool es
Completes-le [] es less (nil e) = nil e
Completes-le (th ∷ pool) es less (cons fs gs p rest e) =
    cons fs gs (Part-le th fs less p) (Completes-le pool gs less rest) e

-- Nothing is under way in a pool of threads that are ready.
abbrev pub IsIdle : List Thread → Type 0
IsIdle [] = Unit
IsIdle (th ∷ ts) = (th.phase ≡ ready) × IsIdle ts

pub Completes-nil : {clock : ℕ} (pool : List Thread) → IsIdle pool → Completes clock pool []
Completes-nil [] h = nil refl
Completes-nil (th ∷ pool) (h, idle) =
    cons [] [] (waiting (subst IsWaiting (sym h) tt) refl) (Completes-nil pool idle) refl

Part-nil :
    {clock : ℕ} (th : Thread) (fs : List Event) → th.phase ≡ ready → Part clock th fs → fs ≡ []
Part-nil th fs h (waiting w e) = e
Part-nil th fs h (returning c rest t a f todo at_phase ends e) = cc
Part-nil th fs h (stamping c rest t a f todo at_phase e) = cc

pub nil_of_IsIdle :
    {clock : ℕ} (pool : List Thread) (es : List Event)
    → IsIdle pool
    → Completes clock pool es
    → es ≡ []
nil_of_IsIdle [] es h (nil e) = e
nil_of_IsIdle (th ∷ pool) es (h, idle) (cons fs gs p rest e) =
    rw (Part-nil th fs h p, nil_of_IsIdle pool gs idle rest) at e
