-- ===== src/Backends/Linux.antt =====
-- The class LinuxDevice of lab/backends.py, over the calls of the operating system that it makes.
pub mod Descriptors
pub mod Steady
pub mod Tidy
pub mod Restored
use kernel_bridge_concurrent.Common.{
  ℕ, zero, suc, ◌+◌, ◌-◌, ◌*◌, ◌/◌, ◌%◌, ◌^◌, ◌≤◌, ◌<◌, min, max, ◌≡◌, refl, sym, ap, ◌∙◌, subst,
  ◌≢◌, ◌↔◌, ◌⊎◌, inl, inr, ite, if_pos, if_neg, Bool, true, false, not, ◌&&◌, ◌||◌, Option, none,
  some, List, [], ◌∷◌, ◌++◌, map, append-nil, append_assoc, arith, ltb, leb, ◌==◌, if◌then◌else◌,
  between, Bool-cases, Option-cases, length, take, drop, get_or, set, get_elem?, ℤ, pos, negsuc,
}
use kernel_bridge_concurrent.Contract.Hex.{from_hex}
use kernel_bridge_concurrent.Contract.Ops.{
  Op, read, write, resize, clear, capacity, Reply, success, success_data, failure,
}

-- OSError with its number, the ValueErrors, and the TypeError of a call with no descriptor.
pub data Exn : Type 0 where
  os_error : ℕ → Exn
  value_error type_error : Exn

pub data Result (A : Type 0) : Type 0 where
  ok : A → Result A
  err : Exn → Result A

-- A call of the system: its state after, and a value or the number of an error.
pub data Answered (A : Type 0) : Type 0 where
  gives : A → Answered A
  fails : ℕ → Answered A

-- The system calls of the device, each on a descriptor. `W` is the state of the system, the device
-- in it included.
pub record Os (W : Type 0) : Type 0 where
  pub open_path : W → W × Answered ℕ
  pub is_character : W → ℕ → W × Answered Bool
  pub get_capacity : W → ℕ → W × Answered ℕ
  pub set_capacity : W → ℕ → ℕ → W × Answered (Unit {0})
  pub clear_buffer : W → ℕ → W × Answered (Unit {0})
  pub read_bytes : W → ℕ → ℕ → W × Answered (List ℕ)
  pub write_bytes : W → ℕ → List ℕ → W × Answered ℕ
  pub close_file : W → ℕ → W × Answered (Unit {0})

-- The object, with the state of the system. `limit` is `self.capacity`.
pub record Handle (W : Type 0) : Type 0 where
  pub system : W
  pub fd : Option ℕ
  pub limit : ℕ
  pub original : ℕ

abbrev pub M : Type 0 → Type 0 → Type 0
M W A = Handle W → Handle W × Result A

unfoldable pub then_do : {W A B : Type 0} → Handle W × Result A → (A → M W B) → Handle W × Result B
then_do (h, ok a) f = f a h
then_do (h, err e) f = (h, err e)

infixl 5 ◌>>=◌ ◌>>◌
abbrev pub ◌>>=◌ : {W A B : Type 0} → M W A → (A → M W B) → M W B
◌>>=◌ m f h = then_do (m h) f

abbrev pub ◌>>◌ : {W A B : Type 0} → M W A → M W B → M W B
m >> k = m >>= λ _. k

abbrev pub return : {W A : Type 0} → A → M W A
return a h = (h, ok a)

abbrev pub throw : {W A : Type 0} → Exn → M W A
throw e h = (h, err e)

abbrev pub lifted : {W A : Type 0} → Handle W → W × Answered A → Handle W × Result A
lifted h (w, gives a) = (record h { system = w }, ok a)
lifted h (w, fails code) = (record h { system = w }, err (os_error code))

-- A call on the descriptor of the object.
abbrev pub on_fd : {W A : Type 0} → (W → ℕ → W × Answered A) → Option ℕ → M W A
on_fd call none h = (h, err type_error)
on_fd call (some fd) h = lifted h (call h.system fd)

abbrev pub sys : {W A : Type 0} → (W → ℕ → W × Answered A) → M W A
sys call h = on_fd call h.fd h

-- `finally` and the `except` of `__enter__`: what is raised, with what is done before that.
abbrev pub cleaned : {W A : Type 0} → Result A → Handle W × Result (Unit {0}) → Handle W × Result A
cleaned first (h, ok u) = (h, first)
cleaned first (h, err e) = (h, err e)

abbrev pub kept_error : {W A : Type 0} → Exn → Handle W × Result (Unit {0}) → Handle W × Result A
kept_error e (h, r) = (h, err e)

module _ {W : Type 0} (os : Os W) where
  -- The descriptor is forgotten before it is closed.
  abbrev pub close_fd : Option ℕ → M W (Unit {0})
  close_fd none h = (h, ok tt)
  close_fd (some fd) h = lifted (record h { fd = none }) (os.close_file h.system fd)

  unfoldable pub close_handle : M W (Unit {0})
  close_handle h = close_fd h.fd h

  unfoldable pub check_character : Bool → M W (Unit {0})
  check_character true h = (h, ok tt)
  check_character false h = (h, err value_error)

  unfoldable pub remember : ℕ → M W (Unit {0})
  remember original h = (record h { original = original }, ok tt)

  unfoldable pub set_limit : ℕ → M W (Unit {0})
  set_limit limit h = on_fd (λ w fd. os.set_capacity w fd limit) h.fd h

  -- The body of the `try` in `__enter__`.
  unfoldable pub set_up : M W (Unit {0})
  unfolding check_character remember set_limit
  set_up h =
      (do
        chr ← sys os.is_character
        check_character chr
        original ← sys os.get_capacity
        remember original
        sys os.clear_buffer
        set_limit h.limit)
        h

  abbrev pub guarded : Handle W × Result (Unit {0}) → Handle W × Result (Unit {0})
  guarded (h, ok u) = (h, ok u)
  guarded (h, err e) = kept_error e (close_handle h)

  abbrev pub opened : Handle W → W × Answered ℕ → Handle W × Result (Unit {0})
  opened h (w, gives fd) = guarded (set_up (record h { system = w; fd = some fd }))
  opened h (w, fails code) = (record h { system = w }, err (os_error code))

  unfoldable pub enter : M W (Unit {0})
  unfolding set_up close_handle
  enter h = opened h (os.open_path h.system)

  -- The body of the inner `try` in `__exit__`.
  unfoldable pub tear_down : M W (Unit {0})
  unfolding set_limit
  tear_down h = (do sys os.clear_buffer; set_limit h.original) h

  abbrev pub torn_down : Handle W × Result (Unit {0}) → Handle W × Result (Unit {0})
  torn_down (h, r) = cleaned r (close_handle h)

  -- What the `with` statement raises, of an error in its body and one of the cleaning up.
  abbrev pub left : Option Exn → Handle W × Result (Unit {0}) → Handle W × Result (Unit {0})
  left none (h, r) = (h, r)
  left (some e) (h, r) = (h, err e)

  abbrev pub leave_fd : Option ℕ → Option Exn → M W (Unit {0})
  leave_fd none raised h = left raised (h, ok tt)
  leave_fd (some fd) raised h = left raised (torn_down (tear_down h))

  unfoldable pub leave : Option Exn → M W (Unit {0})
  unfolding tear_down close_handle
  leave raised h = leave_fd h.fd raised h

  -- ENOMEM, EINTR, ENODEV, EIO
  abbrev pub is_fatal : ℕ → Bool
  is_fatal code = code == 12 || code == 4 || code == 19 || code == 5

  -- The `except OSError` of `apply`.
  abbrev pub replied : Handle W × Result Reply → Handle W × Result Reply
  replied (h, ok r) = (h, ok r)
  replied (h, err (os_error code)) =
      if is_fatal code then (h, err (os_error code)) else (h, ok (failure code))
  replied (h, err value_error) = (h, err value_error)
  replied (h, err type_error) = (h, err type_error)

  abbrev pub write_payload : Option (List ℕ) → M W ℕ
  write_payload none h = (h, err value_error)
  write_payload (some payload) h = on_fd (λ w fd. os.write_bytes w fd payload) h.fd h

  unfoldable pub attempt_op : Op → M W Reply
  unfolding set_limit
  attempt_op (read count) h =
      (do
        bytes ← sys (λ w fd. os.read_bytes w fd count)
        return (success_data (length bytes) bytes))
        h
  attempt_op (write text) h = (do count ← write_payload (from_hex text); return (success count)) h
  attempt_op clear h = (do sys os.clear_buffer; return (success 0)) h
  attempt_op (resize requested) h = (do set_limit requested; return (success 0)) h
  attempt_op capacity h = (do limit ← sys os.get_capacity; return (success limit)) h

  unfoldable pub perform : Op → M W Reply
  unfolding attempt_op
  perform op h = replied (attempt_op op h)

  -- The operations of the body of a `with` statement, up to the first that raises.
  unfoldable pub use_device : List Op → M W (Unit {0})
  unfolding perform
  use_device [] h = (h, ok tt)
  use_device (op ∷ ops) h = then_do (perform op h) (λ reply. use_device ops)

  abbrev pub raised_by : Result (Unit {0}) → Option Exn
  raised_by (ok u) = none
  raised_by (err e) = some e

  abbrev pub finished : Handle W × Result (Unit {0}) → Handle W × Result (Unit {0})
  finished (h, r) = leave (raised_by r) h

  abbrev pub entered : List Op → Handle W × Result (Unit {0}) → Handle W × Result (Unit {0})
  entered ops (h, ok u) = finished (use_device ops h)
  entered ops (h, err e) = (h, err e)

  -- The whole `with` statement.
  unfoldable pub session : List Op → M W (Unit {0})
  unfolding enter use_device leave
  session ops h = entered ops (enter h)
