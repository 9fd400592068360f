-- ===== src/Contract/Generate/Valid.antt =====
-- `validate` accepts what `generate` makes.
use kernel_bridge_concurrent.Common.{
  ℕ, zero, suc, ◌*◌, ◌≤◌, ◌<◌, ◌≡◌, refl, ap, ◌∙◌, if_pos, Bool, true, false, ◌&&◌, none, some,
  List, [], ◌∷◌, between, length, get_or, arith, ltb, leb, if-true,
}
use kernel_bridge_concurrent.Contract.Hex.{hex}
use kernel_bridge_concurrent.Contract.Hex.Laws.{IsBytes, from_hex-hex}
use kernel_bridge_concurrent.Contract.Ops.{
  read, write, resize, max_operations, max_transfer, Text-discrete,
}
use kernel_bridge_concurrent.Contract.Validate.{
  Scenario, validate, validate_op, validate_ops, validate_text,
}
use kernel_bridge_concurrent.Contract.Generate.{
  Random, Kind, write_kind, read_kind, resize_kind, clear_kind, capacity_kind, kinds, sizes,
  capacities, choice, random_bytes, sized_write, op_of, generate_ops, generate,
}

-- No number of the list is above the bound.
abbrev all_up_to : ℕ → List ℕ → Bool
all_up_to n [] = true
all_up_to n (x ∷ xs) = leb x n && all_up_to n xs

get_or-le : (n : ℕ) (xs : List ℕ) (i d : ℕ) → all_up_to n xs ≡ true → d ≤ n → get_or xs i d ≤ n
get_or-le n [] i d a low = low
get_or-le n (x ∷ xs) zero d a low = ground arith
get_or-le n (x ∷ xs) (suc i) d a low = get_or-le n xs i d (ground (arith, a)) low

length-hex : (bs : List ℕ) → length (hex bs) ≡ length bs * 2
unfolding hex
length-hex [] = refl
length-hex (b ∷ bs) = omega (arith, length-hex bs)

hex-valid :
    (bs : List ℕ) → IsBytes bs → length bs ≤ max_transfer → validate_op (write (hex bs)) ≡ none
unfolding validate_op validate_text
hex-valid bs bytes short =
    let room : ltb (max_transfer * 2) (length (hex bs)) ≡ false =
      ground (arith, short, length-hex bs) in
    rw (room, from_hex-hex bs bytes) (if_pos (Text-discrete (hex bs) (hex bs)) refl none _)

read-valid : (n : ℕ) → n ≤ max_transfer → validate_op (read n) ≡ none
unfolding validate_op
read-valid n low = ground (arith, low)

resize-valid : (n : ℕ) → n ≤ 65537 → validate_op (resize n) ≡ none
unfolding validate_op
resize-valid n low = ground (arith, low)

module _ {S : Type 0} (rng : Random S)
    (bounded : (s : S) (n : ℕ) → 0 < n → (rng.below s n).1 < n) where
  random_bytes-IsBytes :
      (n : ℕ) (s : S) → IsBytes (random_bytes rng n s).1 × (length (random_bytes rng n s).1 ≡ n)
  unfolding random_bytes
  random_bytes-IsBytes zero s = (tt, refl)
  random_bytes-IsBytes (suc n) s =
      let (bytes, same) = random_bytes-IsBytes n (rng.below s 256).0 in
      ((bounded s 256 (omega arith), bytes), ap suc same)

  write-valid : (s : S) (n : ℕ) → n ≤ max_transfer → validate_op (sized_write rng (s, n)).1 ≡ none
  write-valid s n low =
      let (bytes, same) = random_bytes-IsBytes n s in
      hex-valid (random_bytes rng n s).1 bytes (omega (arith, same))

  op_of-valid : (s : S) (k : Kind) → validate_op (op_of rng (s, k)).1 ≡ none
  unfolding validate_op
  op_of-valid s write_kind = write-valid _ _ (get_or-le max_transfer sizes _ 0 refl (omega arith))
  op_of-valid s read_kind = read-valid _ (get_or-le max_transfer sizes _ 0 refl (omega arith))
  op_of-valid s resize_kind = resize-valid _ (get_or-le 65537 capacities _ 0 refl (omega arith))
  op_of-valid s clear_kind = refl
  op_of-valid s capacity_kind = refl

  generate_ops-valid :
      (n : ℕ) (s : S)
      → (validate_ops (generate_ops rng n s) ≡ none) × (length (generate_ops rng n s) ≡ n)
  unfolding generate_ops validate_ops
  generate_ops-valid zero s = (refl, refl)
  generate_ops-valid (suc n) s =
      let chosen = choice rng s kinds capacity_kind in
      let step = op_of rng chosen in
      let (ok, same) = generate_ops-valid n step.0 in
      (rw (op_of-valid chosen.0 chosen.1) ok, ap suc same)

  -- From a source whose numbers are below their bounds, `generate` makes a scenario for each number
  -- of steps from 1 to 10000: it has as many operations, and `validate` accepts it.
  pub generate-valid :
      (s : S) (steps : ℕ)
      → between 1 max_operations steps ≡ true
      → (scenario : Scenario) × (generate rng s steps ≡ some scenario)
        × (length scenario.operations ≡ steps)
        × (validate scenario ≡ none)
  unfolding generate validate
  generate-valid s steps fits =
      let (ok, same) = generate_ops-valid steps s in
      (
        record { version = 1; capacity = 256; operations = generate_ops rng steps s },
        if-true none fits,
        same,
        rw (ap (between 1 max_operations) same ∙ fits) ok,
      )
