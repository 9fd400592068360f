-- ===== src/Backends/Linux/Restored.antt =====
-- A LinuxDevice leaves the capacity of the device as it was.
use kernel_bridge_concurrent.Common.{
  ℕ, ◌≡◌, refl, sym, ap, ◌∙◌, subst, Bool, true, false, Option, none, some, List,
}
use kernel_bridge_concurrent.Contract.Ops.{Op}
use kernel_bridge_concurrent.Backends.Linux.{
  Exn, Result, ok, err, Answered, gives, fails, Os, Handle, sys, check_character, remember,
  set_limit, set_up, tear_down, cleaned, close_handle, guarded, opened, enter, torn_down, leave_fd,
  leave, close_fd, use_device, raised_by, finished, entered, session,
}
use kernel_bridge_concurrent.Backends.Linux.Steady.{
  then_do-ok, lifted-ok, on_fd-ok, IsSteady, then_do-IsSteady, on_fd-IsSteady, set_limit-IsSteady,
  use_device-IsSteady,
}

-- What the calls of a system do to the capacity of the device: reading it tells it, and setting it
-- sets it where that succeeds.
pub record IsFaithful {W : Type 0} (os : Os W) (limit_of : W → ℕ) : Type 0 where
  pub by_open : (w : W) → limit_of (os.open_path w).0 ≡ limit_of w
  pub by_close : (w : W) (fd : ℕ) → limit_of (os.close_file w fd).0 ≡ limit_of w
  pub by_is_character : (w : W) (fd : ℕ) → limit_of (os.is_character w fd).0 ≡ limit_of w
  pub told : (w w' : W) (fd n : ℕ) → os.get_capacity w fd ≡ (w', gives n) → n ≡ limit_of w
  pub set_to : (w w' : W) (fd n : ℕ) → os.set_capacity w fd n ≡ (w', gives tt) → limit_of w' ≡ n

module _ {W : Type 0} (os : Os W) (limit_of : W → ℕ) (faithful : IsFaithful os limit_of) where
  -- Open, with the capacity of before remembered.
  record IsPrepared (n : ℕ) (h : Handle W) : Type 0 where
    pub fd : ℕ
    pub held : h.fd ≡ some fd
    pub remembered : h.original ≡ n

  IsSteady-IsPrepared : (n : ℕ) (h i : Handle W) → IsSteady h i → IsPrepared n h → IsPrepared n i
  IsSteady-IsPrepared n h i s p = record {
    fd = p.fd;
    held = s.same_fd ∙ p.held;
    remembered = s.same_original ∙ p.remembered;
  }

  check_character-ok :
      (b : Bool) (h h' : Handle W) (u : Unit {0}) → check_character os b h ≡ (h', ok u) → h ≡ h'
  unfolding check_character
  check_character-ok true h h' u e = cc
  check_character-ok false h h' u e = cc

  -- A `try` of `__enter__` that succeeds.
  set_up-IsPrepared :
      (h h' : Handle W) (fd : ℕ) (u : Unit {0})
      → h.fd ≡ some fd
      → set_up os h ≡ (h', ok u)
      → IsPrepared (limit_of h.system) h'
  unfolding set_up remember
  set_up-IsPrepared h h' fd u opened_fd e =
      let (i, chr, is_chr, after_chr) = then_do-ok (sys os.is_character h) _ h' u e in
      let (j, v, checked, after_check) = then_do-ok (check_character os chr i) _ h' u after_chr in
      let (k, n, was, after_was) = then_do-ok (sys os.get_capacity j) _ h' u after_check in
      let (l, t, noted, after_noted) = then_do-ok (remember os n k) _ h' u after_was in
      let (f0, w0, at0, call0, i_is) = on_fd-ok os.is_character h.fd h i chr is_chr in
      let (f1, w1, at1, call1, k_is) = on_fd-ok os.get_capacity j.fd j k n was in
      let i_is_j = check_character-ok chr i j v checked in
      let steady : IsSteady l h' =
        subst (λ (r : Handle W × Result (Unit {0})). IsSteady l r.0) after_noted
          (then_do-IsSteady l _ _ (on_fd-IsSteady os.clear_buffer l.fd l)
            (λ x m. set_limit-IsSteady os h.limit m)) in
      let l_is : record k { original = n } ≡ l =
        ap (λ (r : Handle W × Result (Unit {0})). r.0) noted in
      let before : limit_of w0 ≡ limit_of h.system =
        ap (λ (r : W × Answered Bool). limit_of r.0) (sym call0)
        ∙ faithful.by_is_character h.system f0 in
      IsSteady-IsPrepared (limit_of h.system) l h' steady (record {
        fd = fd;
        held =
            ap (λ (x : Handle W). x.fd) (sym l_is)
            ∙ ap (λ (x : Handle W). x.fd) k_is
            ∙ ap (λ (x : Handle W). x.fd) (sym i_is_j)
            ∙ ap (λ (x : Handle W). x.fd) i_is
            ∙ opened_fd;
        remembered =
            ap (λ (x : Handle W). x.original) (sym l_is)
            ∙ faithful.told j.system w1 f1 n call1
            ∙ ap (λ (x : Handle W). limit_of x.system) (sym i_is_j)
            ∙ ap (λ (x : Handle W). limit_of x.system) i_is
            ∙ before;
      })

  guarded-ok :
      (r : Handle W × Result (Unit {0})) (h' : Handle W) (u : Unit {0})
      → guarded os r ≡ (h', ok u)
      → r ≡ (h', ok u)
  guarded-ok (h, ok v) h' u e = e
  guarded-ok (h, err x) h' u e = cc

  opened-IsPrepared :
      (h h' : Handle W) (r : W × Answered ℕ) (u : Unit {0})
      → limit_of r.0 ≡ limit_of h.system
      → opened os h r ≡ (h', ok u)
      → IsPrepared (limit_of h.system) h'
  opened-IsPrepared h h' (w, gives fd) u same e =
      let mine : Handle W = record h { system = w; fd = some fd } in
      subst (λ n. IsPrepared n h') same
        (set_up-IsPrepared mine h' fd u refl (guarded-ok (set_up os mine) h' u e))
  opened-IsPrepared h h' (w, fails code) u same e = cc

  enter-IsPrepared :
      (h h' : Handle W) (u : Unit {0}) → enter os h ≡ (h', ok u) → IsPrepared (limit_of h.system) h'
  unfolding enter
  enter-IsPrepared h h' u e =
      opened-IsPrepared h h' (os.open_path h.system) u (faithful.by_open h.system) e

  -- A descriptor that is closed without an error leaves the capacity.
  close_fd-limit :
      (f : Option ℕ) (h h' : Handle W) (u : Unit {0})
      → close_fd os f h ≡ (h', ok u)
      → limit_of h'.system ≡ limit_of h.system
  close_fd-limit none h h' u e =
      ap (λ (r : Handle W × Result (Unit {0})). limit_of r.0.system) (sym e)
  close_fd-limit (some fd) h h' u e =
      let (w, called, same) =
        lifted-ok (record h { fd = none }) (os.close_file h.system fd) h' u e in
      ap (λ (x : Handle W). limit_of x.system) same
      ∙ ap (λ (r : W × Answered (Unit {0})). limit_of r.0) (sym called)
      ∙ faithful.by_close h.system fd

  tear_down-limit :
      (h h' : Handle W) (u : Unit {0})
      → tear_down os h ≡ (h', ok u)
      → limit_of h'.system ≡ h.original
  unfolding tear_down set_limit
  tear_down-limit h h' u e =
      let (i, v, cleared, after_clear) = then_do-ok (sys os.clear_buffer h) _ h' u e in
      let (f, w, at, called, h_is) =
        on_fd-ok (λ w fd. os.set_capacity w fd h.original) i.fd i h' u after_clear in
      ap (λ (x : Handle W). limit_of x.system) h_is ∙ faithful.set_to i.system w f h.original called

  cleaned-ok :
      (first : Result (Unit {0})) (r : Handle W × Result (Unit {0})) (h' : Handle W) (u : Unit {0})
      → cleaned first r ≡ (h', ok u)
      → (v : Unit {0}) × (first ≡ ok u) × (r ≡ (h', ok v))
  cleaned-ok first (h, ok v) h' u e = (v, cc, cc)
  cleaned-ok first (h, err x) h' u e = cc

  torn_down-limit :
      (r : Handle W × Result (Unit {0})) (h h' : Handle W) (u : Unit {0})
      → tear_down os h ≡ r
      → torn_down os r ≡ (h', ok u)
      → limit_of h'.system ≡ h.original
  unfolding close_handle
  torn_down-limit (i, r) h h' u same e =
      let (v, fine, closed) = cleaned-ok r (close_handle os i) h' u e in
      close_fd-limit i.fd i h' v closed ∙ tear_down-limit h i u (same ∙ ap (λ x. (i, x)) fine)

  leave_fd-limit :
      (f : Option ℕ) (n : ℕ) (raised : Option Exn) (h h' : Handle W) (u : Unit {0})
      → h.fd ≡ f
      → IsPrepared n h
      → leave_fd os f raised h ≡ (h', ok u)
      → limit_of h'.system ≡ n
  leave_fd-limit none n raised h h' u at p e = cc p.held
  leave_fd-limit (some fd) n none h h' u at p e =
      torn_down-limit (tear_down os h) h h' u refl e ∙ p.remembered
  leave_fd-limit (some fd) n (some x) h h' u at p e = cc

  finished-limit :
      (r : Handle W × Result (Unit {0})) (n : ℕ) (h' : Handle W) (u : Unit {0})
      → IsPrepared n r.0
      → finished os r ≡ (h', ok u)
      → limit_of h'.system ≡ n
  unfolding leave
  finished-limit (h, r) n h' u p e = leave_fd-limit h.fd n (raised_by os r) h h' u refl p e

  entered-limit :
      (ops : List Op) (r : Handle W × Result (Unit {0})) (h h' : Handle W) (u : Unit {0})
      → enter os h ≡ r
      → entered os ops r ≡ (h', ok u)
      → limit_of h'.system ≡ limit_of h.system
  entered-limit ops (i, ok v) h h' u same e =
      finished-limit (use_device os ops i) (limit_of h.system) h' u
        (IsSteady-IsPrepared (limit_of h.system) i (use_device os ops i).0
          (use_device-IsSteady os ops i) (enter-IsPrepared h i v same))
        e
  entered-limit ops (i, err x) h h' u same e = cc

  -- A `with` statement that raises nothing leaves the capacity of the device as it was, also where
  -- its operations set others, when the calls that succeed read and set it.
  pub session-restores :
      (ops : List Op) (h h' : Handle W) (u : Unit {0})
      → session os ops h ≡ (h', ok u)
      → limit_of h'.system ≡ limit_of h.system
  unfolding session
  session-restores ops h h' u e = entered-limit ops (enter os h) h h' u refl e
