-- ===== src/Backends/Linux/Tidy.antt =====
-- What a system does to the open descriptors.
use kernel_bridge_concurrent.Common.{
  elem, ℕ, ◌≡◌, refl, false, List, [], ◌∷◌, arith, ◌==◌, if◌then◌else◌,
}
use kernel_bridge_concurrent.Backends.Linux.{gives, fails, Os}

-- The descriptors but one.
abbrev pub without : ℕ → List ℕ → List ℕ
without fd [] = []
without fd (x ∷ xs) = let rest = without fd xs in if fd == x then rest else x ∷ rest

without_lem : (fd : ℕ) (xs : List ℕ) → elem fd xs ≡ false → without fd xs ≡ xs
without_lem fd [] h = refl
without_lem fd (x ∷ xs) h = ground (arith, without_lem fd xs)

pub without_first : (fd : ℕ) (xs : List ℕ) → elem fd xs ≡ false → without fd (fd ∷ xs) ≡ xs
without_first fd xs h = ground (arith, without_lem fd xs)

-- What a system does to the open descriptors: an opened one is new, a closed one is gone whatever
-- the answer, and no other call opens or closes any.
pub record IsTidy {W : Type 0} (os : Os W) (opens : W → List ℕ) : Type 0 where
  pub opened_new :
      (w w' : W) (fd : ℕ)
      → os.open_path w ≡ (w', gives fd)
      → (opens w' ≡ fd ∷ opens w) × (elem fd (opens w) ≡ false)
  pub not_opened : (w w' : W) (code : ℕ) → os.open_path w ≡ (w', fails code) → opens w' ≡ opens w
  pub closed_one : (w : W) (fd : ℕ) → opens (os.close_file w fd).0 ≡ without fd (opens w)
  pub by_is_character : (w : W) (fd : ℕ) → opens (os.is_character w fd).0 ≡ opens w
  pub by_get_capacity : (w : W) (fd : ℕ) → opens (os.get_capacity w fd).0 ≡ opens w
  pub by_set_capacity : (w : W) (fd n : ℕ) → opens (os.set_capacity w fd n).0 ≡ opens w
  pub by_clear : (w : W) (fd : ℕ) → opens (os.clear_buffer w fd).0 ≡ opens w
  pub by_read : (w : W) (fd n : ℕ) → opens (os.read_bytes w fd n).0 ≡ opens w
  pub by_write : (w : W) (fd : ℕ) (bs : List ℕ) → opens (os.write_bytes w fd bs).0 ≡ opens w
