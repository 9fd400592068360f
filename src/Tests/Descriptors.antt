-- ===== src/Tests/Descriptors.antt =====
-- A LinuxDevice on a small system: one descriptor, and writes that fail with EIO.
use kernel_bridge_concurrent.Common.{elem, false, ℕ, ◌≡◌, refl, true, none, List, [], ◌∷◌}
use kernel_bridge_concurrent.Contract.Hex.{from_hex}
use kernel_bridge_concurrent.Contract.Ops.{Op, read, write, clear, resize, capacity}
use kernel_bridge_concurrent.Backends.Linux.{
  ok, err, os_error, Answered, gives, fails, Os, Handle, set_up, enter, perform, use_device, leave,
  session, set_limit, attempt_op, tear_down, close_handle, then_do, check_character, remember,
}
use kernel_bridge_concurrent.Backends.Linux.Tidy.{without, IsTidy}
use kernel_bridge_concurrent.Backends.Linux.Descriptors.{IsClosed, session-IsClosed}
use kernel_bridge_concurrent.Backends.Linux.Restored.{IsFaithful, session-restores}

abbrev single_open : List ℕ → List ℕ × Answered ℕ
single_open [] = (7 ∷ [], gives 7)
single_open (fd ∷ fds) = (fd ∷ fds, fails 16)

abbrev failing_disk : Os (List ℕ)
failing_disk = record {
  open_path = single_open;
  is_character = λ w fd. (w, gives true);
  get_capacity = λ w fd. (w, gives 4096);
  set_capacity = λ w fd n. (w, gives tt);
  clear_buffer = λ w fd. (w, gives tt);
  read_bytes = λ w fd n. (w, fails 11);
  write_bytes = λ w fd bs. (w, fails 5);
  close_file = λ w fd. (without fd w, gives tt);
}

abbrev closed_device : Handle (List ℕ)
closed_device = record { system = []; fd = none; limit = 256; original = 0 }

abbrev sequence_of_three : List Op
sequence_of_three = read 4 ∷ write (52 ∷ 49 ∷ []) ∷ clear ∷ []

single_open_new :
    (w w' : List ℕ) (fd : ℕ) → single_open w ≡ (w', gives fd) → (w' ≡ fd ∷ w) × (elem fd w ≡ false)
single_open_new [] w' fd e = (cc, refl)
single_open_new (x ∷ xs) w' fd e = cc

single_open_busy : (w w' : List ℕ) (code : ℕ) → single_open w ≡ (w', fails code) → w' ≡ w
single_open_busy [] w' code e = cc
single_open_busy (x ∷ xs) w' code e = cc

failing_disk-IsTidy : IsTidy failing_disk (λ w. w)
failing_disk-IsTidy = record {
  opened_new = single_open_new;
  not_opened = single_open_busy;
  closed_one = λ w fd. refl;
  by_is_character = λ w fd. refl;
  by_get_capacity = λ w fd. refl;
  by_set_capacity = λ w fd n. refl;
  by_clear = λ w fd. refl;
  by_read = λ w fd n. refl;
  by_write = λ w fd bs. refl;
}

session_raises_example : (session failing_disk sequence_of_three closed_device).1 ≡ err (os_error 5)
unfolding session enter use_device leave perform attempt_op set_up tear_down set_limit then_do
    check_character remember close_handle from_hex
session_raises_example = refl

session-IsClosed_example :
    IsClosed failing_disk
      (λ w. w)
      failing_disk-IsTidy
      []
      (session failing_disk sequence_of_three closed_device).0
session-IsClosed_example =
    session-IsClosed failing_disk (λ w. w) failing_disk-IsTidy sequence_of_three closed_device refl

-- A system whose state is the capacity of the device.
abbrev honest_disk : Os ℕ
honest_disk = record {
  open_path = λ w. (w, gives 3);
  is_character = λ w fd. (w, gives true);
  get_capacity = λ w fd. (w, gives w);
  set_capacity = λ w fd n. (n, gives tt);
  clear_buffer = λ w fd. (w, gives tt);
  read_bytes = λ w fd n. (w, fails 11);
  write_bytes = λ w fd bs. (w, gives 1);
  close_file = λ w fd. (w, gives tt);
}

honest_disk-IsFaithful : IsFaithful honest_disk (λ w. w)
honest_disk-IsFaithful = record {
  by_open = λ w. refl;
  by_close = λ w fd. refl;
  by_is_character = λ w fd. refl;
  told = λ w w' fd n e. cc;
  set_to = λ w w' fd n e. cc;
}

abbrev small_device : Handle ℕ
small_device = record { system = 4096; fd = none; limit = 256; original = 0 }

abbrev after_resizing : Handle ℕ
after_resizing = record { system = 4096; fd = none; limit = 256; original = 4096 }

abbrev resizing : List Op
resizing = read 4 ∷ resize 512 ∷ capacity ∷ []

session-resizing : session honest_disk resizing small_device ≡ (after_resizing, ok tt)
unfolding session enter use_device leave perform attempt_op set_up tear_down set_limit then_do
    check_character remember close_handle
session-resizing = refl

session-restores_example : after_resizing.system ≡ small_device.system
session-restores_example =
    session-restores honest_disk (λ w. w) honest_disk-IsFaithful resizing small_device
      after_resizing tt session-resizing
