-- ===== src/Backends/Linux/Descriptors.antt =====
-- The descriptor of a LinuxDevice is closed on every path, once.
use kernel_bridge_concurrent.Common.{
  elem, ℕ, ◌≡◌, refl, sym, ap, ◌∙◌, subst, inl, inr, Bool, true, false, Option, none, some, List,
  [], ◌∷◌, Bool-cases,
}
use kernel_bridge_concurrent.Contract.Hex.{from_hex}
use kernel_bridge_concurrent.Contract.Ops.{Op, read, write, resize, clear, capacity, Reply}
use kernel_bridge_concurrent.Backends.Linux.{
  Exn, os_error, value_error, type_error, Result, ok, err, Answered, gives, fails, Os, Handle, M,
  then_do, lifted, on_fd, sys, check_character, remember, set_limit, set_up, tear_down, replied,
  write_payload, attempt_op, perform, is_fatal, cleaned, close_handle, guarded, opened, enter, left,
  torn_down, leave_fd, leave, close_fd, use_device, raised_by, finished, entered, session,
}
use kernel_bridge_concurrent.Backends.Linux.Tidy.{without, without_first, IsTidy}

module _ {W : Type 0} (os : Os W) (opens : W → List ℕ) (tidy : IsTidy os opens) where
  -- The descriptors of others, `o`, and the one that the object has.
  abbrev pub Holds : List ℕ → Option ℕ → W → Type 0
  Holds o none w = opens w ≡ o
  Holds o (some fd) w = (opens w ≡ fd ∷ o) × (elem fd o ≡ false)

  abbrev pub Owns : List ℕ → Handle W → Type 0
  Owns o h = Holds o h.fd h.system

  -- Neither the object's descriptor nor the open ones change.
  record IsKept (h h' : Handle W) : Type 0 where
    pub same_fd : h'.fd ≡ h.fd
    pub same_opens : opens h'.system ≡ opens h.system

  Holds-same :
      (o : List ℕ) (f : Option ℕ) (w w' : W) → opens w' ≡ opens w → Holds o f w → Holds o f w'
  Holds-same o none w w' same x = same ∙ x
  Holds-same o (some fd) w w' same (x, y) = (same ∙ x, y)

  IsKept-Owns : (o : List ℕ) (h h' : Handle W) → IsKept h h' → Owns o h → Owns o h'
  IsKept-Owns o h h' k owns =
      subst (λ f. Holds o f h'.system) (sym k.same_fd)
        (Holds-same o h.fd h.system h'.system k.same_opens owns)

  IsKept-self : (h : Handle W) → IsKept h h
  IsKept-self h = record { same_fd = refl; same_opens = refl }

  IsKept-IsKept : (h i j : Handle W) → IsKept h i → IsKept i j → IsKept h j
  IsKept-IsKept h i j k l = record {
    same_fd = l.same_fd ∙ k.same_fd;
    same_opens = l.same_opens ∙ k.same_opens;
  }

  -- A step keeps them, and a chain of such steps does.
  abbrev Keeps : {A : Type 0} → M W A → Type 0
  Keeps m = (h : Handle W) → IsKept h (m h).0

  then_do-IsKept :
      {A B : Type 0} (h : Handle W) (r : Handle W × Result A) (f : A → M W B)
      → IsKept h r.0
      → ((a : A) → Keeps (f a))
      → IsKept h (then_do r f).0
  unfolding then_do
  then_do-IsKept h (i, ok a) f k goes = IsKept-IsKept h i (f a i).0 k (goes a i)
  then_do-IsKept h (i, err e) f k goes = k

  lifted-IsKept :
      {A : Type 0} (h : Handle W) (r : W × Answered A)
      → opens r.0 ≡ opens h.system
      → IsKept h (lifted h r).0
  lifted-IsKept h (w, gives a) same = record { same_fd = refl; same_opens = same }
  lifted-IsKept h (w, fails code) same = record { same_fd = refl; same_opens = same }

  on_fd-IsKept :
      {A : Type 0} (call : W → ℕ → W × Answered A) (f : Option ℕ) (h : Handle W)
      → ((w : W) (fd : ℕ) → opens (call w fd).0 ≡ opens w)
      → IsKept h (on_fd call f h).0
  on_fd-IsKept call none h same = IsKept-self h
  on_fd-IsKept call (some fd) h same = lifted-IsKept h (call h.system fd) (same h.system fd)

  sys-Keeps :
      {A : Type 0} (call : W → ℕ → W × Answered A)
      → ((w : W) (fd : ℕ) → opens (call w fd).0 ≡ opens w)
      → Keeps (sys call)
  sys-Keeps call same h = on_fd-IsKept call h.fd h same

  set_limit-Keeps : (n : ℕ) → Keeps (set_limit os n)
  unfolding set_limit
  set_limit-Keeps n h =
      on_fd-IsKept (λ w fd. os.set_capacity w fd n) h.fd h (λ w fd. tidy.by_set_capacity w fd n)

  check_character-Keeps : (b : Bool) → Keeps (check_character os b)
  unfolding check_character
  check_character-Keeps true h = IsKept-self h
  check_character-Keeps false h = IsKept-self h

  remember-Keeps : (n : ℕ) → Keeps (remember os n)
  unfolding remember
  remember-Keeps n h = record { same_fd = refl; same_opens = refl }

  set_up-Keeps : Keeps (set_up os)
  unfolding set_up
  set_up-Keeps h = then_do-IsKept h _ _ (sys-Keeps os.is_character tidy.by_is_character h) (λ chr i.
      then_do-IsKept i _ _ (check_character-Keeps chr i) (λ u j.
        then_do-IsKept j _ _ (sys-Keeps os.get_capacity tidy.by_get_capacity j) (λ original k.
          then_do-IsKept k _ _ (remember-Keeps original k) (λ v l.
            then_do-IsKept l _ _ (sys-Keeps os.clear_buffer tidy.by_clear l)
              (λ x m. set_limit-Keeps h.limit m)))))

  tear_down-Keeps : Keeps (tear_down os)
  unfolding tear_down
  tear_down-Keeps h =
      then_do-IsKept h _ _ (sys-Keeps os.clear_buffer tidy.by_clear h)
        (λ u i. set_limit-Keeps h.original i)

  write_payload-Keeps : (o : Option (List ℕ)) → Keeps (write_payload os o)
  write_payload-Keeps none h = IsKept-self h
  write_payload-Keeps (some payload) h =
      on_fd-IsKept (λ w fd. os.write_bytes w fd payload) h.fd h (λ w fd. tidy.by_write w fd payload)

  attempt_op-Keeps : (op : Op) → Keeps (attempt_op os op)
  unfolding attempt_op
  attempt_op-Keeps (read count) h =
      then_do-IsKept h _ _
        (sys-Keeps (λ w fd. os.read_bytes w fd count) (λ w fd. tidy.by_read w fd count) h)
        (λ bytes i. IsKept-self i)
  attempt_op-Keeps (write text) h =
      then_do-IsKept h _ _ (write_payload-Keeps (from_hex text) h) (λ count i. IsKept-self i)
  attempt_op-Keeps clear h =
      then_do-IsKept h _ _ (sys-Keeps os.clear_buffer tidy.by_clear h) (λ u i. IsKept-self i)
  attempt_op-Keeps (resize requested) h =
      then_do-IsKept h _ _ (set_limit-Keeps requested h) (λ u i. IsKept-self i)
  attempt_op-Keeps capacity h =
      then_do-IsKept h _ _ (sys-Keeps os.get_capacity tidy.by_get_capacity h) (λ n i. IsKept-self i)

  replied-IsKept :
      (h : Handle W) (r : Handle W × Result Reply) → IsKept h r.0 → IsKept h (replied os r).0
  replied-IsKept h (i, ok x) k = k
  replied-IsKept h (i, err (os_error code)) k = elim (Bool-cases (is_fatal os code)) [
    | inl fatal ↦ rw fatal k
    | inr mild ↦ rw mild k
  ]
  replied-IsKept h (i, err value_error) k = k
  replied-IsKept h (i, err type_error) k = k

  perform-Owns : (o : List ℕ) (op : Op) (h : Handle W) → Owns o h → Owns o (perform os op h).0
  unfolding perform
  perform-Owns o op h owns =
      IsKept-Owns o h _ (replied-IsKept h (attempt_op os op h) (attempt_op-Keeps op h)) owns

  then_do-Owns :
      {A B : Type 0} (o : List ℕ) (r : Handle W × Result A) (f : A → M W B)
      → Owns o r.0
      → ((a : A) (i : Handle W) → Owns o i → Owns o (f a i).0)
      → Owns o (then_do r f).0
  unfolding then_do
  then_do-Owns o (i, ok a) f owns goes = goes a i owns
  then_do-Owns o (i, err e) f owns goes = owns

  use_device-Owns :
      (o : List ℕ) (ops : List Op) (h : Handle W) → Owns o h → Owns o (use_device os ops h).0
  unfolding use_device
  use_device-Owns o [] h owns = owns
  use_device-Owns o (op ∷ ops) h owns =
      then_do-Owns o (perform os op h) (λ reply. use_device os ops) (perform-Owns o op h owns)
        (λ reply i. use_device-Owns o ops i)

  -- The object has no descriptor, and the open ones are those of others.
  pub record IsClosed (o : List ℕ) (h : Handle W) : Type 0 where
    pub no_fd : h.fd ≡ none
    pub others : opens h.system ≡ o

  lifted-IsClosed :
      {A : Type 0} (o : List ℕ) (h : Handle W) (r : W × Answered A)
      → h.fd ≡ none
      → opens r.0 ≡ o
      → IsClosed o (lifted h r).0
  lifted-IsClosed o h (w, gives a) unheld same = record { no_fd = unheld; others = same }
  lifted-IsClosed o h (w, fails code) unheld same = record { no_fd = unheld; others = same }

  close_fd-IsClosed :
      (o : List ℕ) (f : Option ℕ) (h : Handle W)
      → h.fd ≡ f
      → Holds o f h.system
      → IsClosed o (close_fd os f h).0
  close_fd-IsClosed o none h e held = record { no_fd = e; others = held }
  close_fd-IsClosed o (some fd) h e (held, new) =
      lifted-IsClosed o (record h { fd = none }) (os.close_file h.system fd) refl
        (tidy.closed_one h.system fd ∙ ap (without fd) held ∙ without_first fd o new)

  close_handle-IsClosed : (o : List ℕ) (h : Handle W) → Owns o h → IsClosed o (close_handle os h).0
  unfolding close_handle
  close_handle-IsClosed o h = close_fd-IsClosed o h.fd h refl

  -- What `__enter__` leaves: the device open, or nothing of it.
  abbrev pub Entered : List ℕ → Handle W × Result (Unit {0}) → Type 0
  Entered o (h, ok u) = Owns o h
  Entered o (h, err e) = IsClosed o h

  guarded-Entered :
      (o : List ℕ) (r : Handle W × Result (Unit {0})) → Owns o r.0 → Entered o (guarded os r)
  guarded-Entered o (h, ok u) owns = owns
  guarded-Entered o (h, err e) owns = close_handle-IsClosed o h owns

  opened-Entered :
      (h : Handle W) (r : W × Answered ℕ)
      → h.fd ≡ none
      → os.open_path h.system ≡ r
      → Entered (opens h.system) (opened os h r)
  opened-Entered h (w, gives fd) unheld e =
      guarded-Entered (opens h.system) (set_up os (record h { system = w; fd = some fd })) (
        IsKept-Owns (opens h.system) (record h { system = w; fd = some fd }) _
          (set_up-Keeps (record h { system = w; fd = some fd })) (tidy.opened_new h.system w fd e))
  opened-Entered h (w, fails code) unheld e = record {
    no_fd = unheld;
    others = tidy.not_opened h.system w code e;
  }

  enter-Entered : (h : Handle W) → h.fd ≡ none → Entered (opens h.system) (enter os h)
  unfolding enter
  enter-Entered h unheld = opened-Entered h (os.open_path h.system) unheld refl

  left-IsClosed :
      (o : List ℕ) (e : Option Exn) (r : Handle W × Result (Unit {0}))
      → IsClosed o r.0
      → IsClosed o (left os e r).0
  left-IsClosed o none (h, r) closed = closed
  left-IsClosed o (some e) (h, r) closed = closed

  cleaned-IsClosed :
      (o : List ℕ) (first : Result (Unit {0})) (r : Handle W × Result (Unit {0}))
      → IsClosed o r.0
      → IsClosed o (cleaned first r).0
  cleaned-IsClosed o first (h, ok u) closed = closed
  cleaned-IsClosed o first (h, err e) closed = closed

  leave_fd-IsClosed :
      (o : List ℕ) (f : Option ℕ) (raised : Option Exn) (h : Handle W)
      → h.fd ≡ f
      → Owns o h
      → IsClosed o (leave_fd os f raised h).0
  leave_fd-IsClosed o none raised h e owns =
      left-IsClosed o raised (h, ok tt)
        (record { no_fd = e; others = subst (λ f. Holds o f h.system) e owns })
  leave_fd-IsClosed o (some fd) raised h e owns =
      left-IsClosed o raised (torn_down os (tear_down os h)) (
        cleaned-IsClosed o (tear_down os h).1 (close_handle os (tear_down os h).0) (
          close_handle-IsClosed o (tear_down os h).0
            (IsKept-Owns o h (tear_down os h).0 (tear_down-Keeps h) owns)))

  leave-IsClosed :
      (o : List ℕ) (raised : Option Exn) (h : Handle W)
      → Owns o h
      → IsClosed o (leave os raised h).0
  unfolding leave
  leave-IsClosed o raised h = leave_fd-IsClosed o h.fd raised h refl

  finished-IsClosed :
      (o : List ℕ) (r : Handle W × Result (Unit {0})) → Owns o r.0 → IsClosed o (finished os r).0
  finished-IsClosed o (h, r) owns = leave-IsClosed o (raised_by os r) h owns

  entered-IsClosed :
      (o : List ℕ) (ops : List Op) (r : Handle W × Result (Unit {0}))
      → Entered o r
      → IsClosed o (entered os ops r).0
  entered-IsClosed o ops (h, ok u) owns =
      finished-IsClosed o (use_device os ops h) (use_device-Owns o ops h owns)
  entered-IsClosed o ops (h, err e) closed = closed

  -- After a `with` statement on a device that is not open, whatever its operations and whichever
  -- call fails, the object holds no descriptor and the open descriptors are those of before, when a
  -- call that opens gives a new descriptor, one that closes removes it, and the others leave them.
  pub session-IsClosed :
      (ops : List Op) (h : Handle W) → h.fd ≡ none → IsClosed (opens h.system) (session os ops h).0
  unfolding session
  session-IsClosed ops h unheld =
      entered-IsClosed (opens h.system) ops (enter os h) (enter-Entered h unheld)
