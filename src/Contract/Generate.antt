-- ===== src/Contract/Generate.antt =====
-- `generate` of lab/contract.py. The random numbers are a parameter.
pub mod Valid
use kernel_bridge_concurrent.Common.{
  ℕ, zero, suc, Option, none, some, List, [], ◌∷◌, between, if◌then◌else◌, length, get_or,
}
use kernel_bridge_concurrent.Contract.Hex.{hex}
use kernel_bridge_concurrent.Contract.Ops.{Op, read, write, resize, clear, capacity, max_operations}
use kernel_bridge_concurrent.Contract.Validate.{Scenario}

-- A source of random numbers: a number for a bound, and the state after.
pub record Random (S : Type 0) : Type 0 where
  pub below : S → ℕ → S × ℕ

-- The kinds of operations.
pub data Kind : Type 0 where
  write_kind read_kind resize_kind clear_kind capacity_kind : Kind

abbrev pub kinds : List Kind
kinds =
    write_kind ∷ write_kind ∷ read_kind ∷ read_kind ∷ resize_kind ∷ clear_kind ∷ capacity_kind ∷ []

abbrev pub sizes : List ℕ
sizes = 0 ∷ 1 ∷ 63 ∷ 255 ∷ 256 ∷ 257 ∷ 512 ∷ 4096 ∷ []

abbrev pub capacities : List ℕ
capacities = 0 ∷ 255 ∷ 256 ∷ 512 ∷ 4096 ∷ 65536 ∷ 65537 ∷ []

module _ {S : Type 0} (rng : Random S) where
  abbrev pub picked {ℓ} : {A : Type ℓ} → List A → A → S × ℕ → S × A
  picked xs d (s, i) = (s, get_or xs i d)

  -- rng.choice(xs); the last argument stands for an index out of range.
  abbrev pub choice {ℓ} : {A : Type ℓ} → S → List A → A → S × A
  choice s xs d = picked xs d (rng.below s (length xs))

  abbrev pub and_bytes : ℕ → S × List ℕ → S × List ℕ
  and_bytes b (s, bs) = (s, b ∷ bs)

  abbrev pub after_byte : (S → S × List ℕ) → S × ℕ → S × List ℕ
  after_byte go (s, b) = and_bytes b (go s)

  -- bytes(rng.randrange(256) for _ in range(n))
  unfoldable pub random_bytes : ℕ → S → S × List ℕ
  random_bytes zero s = (s, [])
  random_bytes (suc n) s = after_byte (random_bytes n) (rng.below s 256)

  abbrev pub write_of : S × List ℕ → S × Op
  write_of (s, bs) = (s, write (hex bs))

  abbrev pub sized_write : S × ℕ → S × Op
  sized_write (s, n) = write_of (random_bytes n s)

  abbrev pub sized_read : S × ℕ → S × Op
  sized_read (s, n) = (s, read n)

  abbrev pub sized_resize : S × ℕ → S × Op
  sized_resize (s, n) = (s, resize n)

  abbrev pub op_of : S × Kind → S × Op
  op_of (s, write_kind) = sized_write (choice s sizes 0)
  op_of (s, read_kind) = sized_read (choice s sizes 0)
  op_of (s, resize_kind) = sized_resize (choice s capacities 0)
  op_of (s, clear_kind) = (s, clear)
  op_of (s, capacity_kind) = (s, capacity)

  abbrev pub and_ops : (S → List Op) → S × Op → List Op
  and_ops go (s, op) = op ∷ go s

  unfoldable pub generate_ops : ℕ → S → List Op
  unfolding random_bytes
  generate_ops zero s = []
  generate_ops (suc n) s = and_ops (generate_ops n) (op_of (choice s kinds capacity_kind))

  -- `none` is the ValueError.
  unfoldable pub generate : S → ℕ → Option Scenario
  unfolding generate_ops
  generate s steps =
      if between 1 max_operations steps
      then some (record { version = 1; capacity = 256; operations = generate_ops steps s })
      else none
