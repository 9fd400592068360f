-- ===== src/Backends/Linux/Steady.antt =====
-- No operation of a LinuxDevice changes its descriptor or the capacity that it remembers.
use kernel_bridge_concurrent.Common.{
  ℕ, ◌≡◌, refl, ◌∙◌, inl, inr, Option, none, some, List, [], ◌∷◌, Bool-cases,
}
use kernel_bridge_concurrent.Contract.Hex.{from_hex}
use kernel_bridge_concurrent.Contract.Ops.{Op, read, write, resize, clear, capacity, Reply}
use kernel_bridge_concurrent.Backends.Linux.{
  os_error, value_error, type_error, Result, ok, err, Answered, gives, fails, Os, Handle, M,
  then_do, lifted, on_fd, set_limit, replied, write_payload, attempt_op, perform, is_fatal,
  use_device,
}

module _ {W : Type 0} where
  -- What a chain of two steps that succeeds has done.
  pub then_do-ok :
      {A B : Type 0} (r : Handle W × Result A) (f : A → M W B) (h' : Handle W) (b : B)
      → then_do r f ≡ (h', ok b)
      → (i : Handle W) × (a : A) × (r ≡ (i, ok a)) × (f a i ≡ (h', ok b))
  unfolding then_do
  then_do-ok (i, ok a) f h' b e = (i, a, refl, e)
  then_do-ok (i, err x) f h' b e = cc

  pub lifted-ok :
      {A : Type 0} (h : Handle W) (r : W × Answered A) (h' : Handle W) (a : A)
      → lifted h r ≡ (h', ok a)
      → (w : W) × (r ≡ (w, gives a)) × (h' ≡ record h { system = w })
  lifted-ok h (w, gives b) h' a e = (w, cc, cc)
  lifted-ok h (w, fails code) h' a e = cc

  pub on_fd-ok :
      {A : Type 0} (call : W → ℕ → W × Answered A) (f : Option ℕ) (h h' : Handle W) (a : A)
      → on_fd call f h ≡ (h', ok a)
      → (fd : ℕ) × (w : W) × (f ≡ some fd)
        × (call h.system fd ≡ (w, gives a))
        × (h' ≡ record h { system = w })
  on_fd-ok call none h h' a e = cc
  on_fd-ok call (some fd) h h' a e =
      let (w, called, same) = lifted-ok h (call h.system fd) h' a e in (fd, w, refl, called, same)

  -- The descriptor and the capacity to restore stay.
  pub record IsSteady (h h' : Handle W) : Type 0 where
    pub same_fd : h'.fd ≡ h.fd
    pub same_original : h'.original ≡ h.original

  IsSteady-self : (h : Handle W) → IsSteady h h
  IsSteady-self h = record { same_fd = refl; same_original = refl }

  IsSteady-IsSteady : (h i j : Handle W) → IsSteady h i → IsSteady i j → IsSteady h j
  IsSteady-IsSteady h i j s t = record {
    same_fd = t.same_fd ∙ s.same_fd;
    same_original = t.same_original ∙ s.same_original;
  }

  pub then_do-IsSteady :
      {A B : Type 0} (h : Handle W) (r : Handle W × Result A) (f : A → M W B)
      → IsSteady h r.0
      → ((a : A) (i : Handle W) → IsSteady i (f a i).0)
      → IsSteady h (then_do r f).0
  unfolding then_do
  then_do-IsSteady h (i, ok a) f s goes = IsSteady-IsSteady h i (f a i).0 s (goes a i)
  then_do-IsSteady h (i, err e) f s goes = s

  lifted-IsSteady : {A : Type 0} (h : Handle W) (r : W × Answered A) → IsSteady h (lifted h r).0
  lifted-IsSteady h (w, gives a) = record { same_fd = refl; same_original = refl }
  lifted-IsSteady h (w, fails code) = record { same_fd = refl; same_original = refl }

  pub on_fd-IsSteady :
      {A : Type 0} (call : W → ℕ → W × Answered A) (f : Option ℕ) (h : Handle W)
      → IsSteady h (on_fd call f h).0
  on_fd-IsSteady call none h = IsSteady-self h
  on_fd-IsSteady call (some fd) h = lifted-IsSteady h (call h.system fd)

module _ {W : Type 0} (os : Os W) where
  pub set_limit-IsSteady : (n : ℕ) (h : Handle W) → IsSteady h (set_limit os n h).0
  unfolding set_limit
  set_limit-IsSteady n h = on_fd-IsSteady (λ w fd. os.set_capacity w fd n) h.fd h

  write_payload-IsSteady :
      (o : Option (List ℕ)) (h : Handle W) → IsSteady h (write_payload os o h).0
  write_payload-IsSteady none h = IsSteady-self h
  write_payload-IsSteady (some payload) h =
      on_fd-IsSteady (λ w fd. os.write_bytes w fd payload) h.fd h

  attempt_op-IsSteady : (op : Op) (h : Handle W) → IsSteady h (attempt_op os op h).0
  unfolding attempt_op
  attempt_op-IsSteady (read count) h =
      then_do-IsSteady h _ _ (on_fd-IsSteady (λ w fd. os.read_bytes w fd count) h.fd h)
        (λ bytes i. IsSteady-self i)
  attempt_op-IsSteady (write text) h =
      then_do-IsSteady h _ _ (write_payload-IsSteady (from_hex text) h) (λ n i. IsSteady-self i)
  attempt_op-IsSteady clear h =
      then_do-IsSteady h _ _ (on_fd-IsSteady os.clear_buffer h.fd h) (λ u i. IsSteady-self i)
  attempt_op-IsSteady (resize requested) h =
      then_do-IsSteady h _ _ (set_limit-IsSteady requested h) (λ u i. IsSteady-self i)
  attempt_op-IsSteady capacity h =
      then_do-IsSteady h _ _ (on_fd-IsSteady os.get_capacity h.fd h) (λ n i. IsSteady-self i)

  replied-IsSteady :
      (h : Handle W) (r : Handle W × Result Reply) → IsSteady h r.0 → IsSteady h (replied os r).0
  replied-IsSteady h (i, ok x) s = s
  replied-IsSteady h (i, err (os_error code)) s = elim (Bool-cases (is_fatal os code)) [
    | inl fatal ↦ rw fatal s
    | inr mild ↦ rw mild s
  ]
  replied-IsSteady h (i, err value_error) s = s
  replied-IsSteady h (i, err type_error) s = s

  pub use_device-IsSteady : (ops : List Op) (h : Handle W) → IsSteady h (use_device os ops h).0
  unfolding use_device perform
  use_device-IsSteady [] h = IsSteady-self h
  use_device-IsSteady (op ∷ ops) h =
      then_do-IsSteady h (perform os op h) (λ reply. use_device os ops)
        (replied-IsSteady h (attempt_op os op h) (attempt_op-IsSteady op h))
        (λ reply i. use_device-IsSteady ops i)
