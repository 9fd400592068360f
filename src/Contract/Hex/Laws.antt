-- ===== src/Contract/Hex/Laws.antt =====
-- Printing bytes as hexadecimal text and reading them back.
use kernel_bridge_concurrent.Common.{
  ap, subst, ℕ, ◌/◌, ◌%◌, ◌<◌, ◌≡◌, refl, List, [], ◌∷◌, Option, none, some, false, arith,
}
use kernel_bridge_concurrent.Contract.Hex.{
  digit_value, is_space, push_byte, from_hex, hex_digit, hex,
}

-- Every number of the list is a byte.
abbrev pub IsBytes : List ℕ → Type 0
IsBytes [] = Unit
IsBytes (b ∷ bs) = (b < 256) × IsBytes bs

digit_value-hex_digit : (n : ℕ) → n < 16 → digit_value (hex_digit n) ≡ some n
unfolding digit_value hex_digit
digit_value-hex_digit n h = ground arith

is_space-hex_digit : (n : ℕ) → n < 16 → is_space (hex_digit n) ≡ false
unfolding is_space hex_digit
is_space-hex_digit n h = ground arith

-- What `hex` prints, `from_hex` reads back.
pub from_hex-hex : (bytes : List ℕ) → IsBytes bytes → from_hex (hex bytes) ≡ some bytes
unfolding from_hex hex push_byte
from_hex-hex [] h = refl
from_hex-hex (b ∷ bs) h =
    rw
      (
        is_space-hex_digit (b / 16) (omega arith),
        digit_value-hex_digit (b / 16) (omega arith),
        digit_value-hex_digit (b % 16) (omega arith),
        from_hex-hex bs h.1,
      )
      (ap (λ k. some (k ∷ bs)) (omega arith))

abbrev IsNibble : Option ℕ → Type 0
IsNibble none = Unit
IsNibble (some n) = n < 16

IsNibble-digit_value : (c : ℕ) → IsNibble (digit_value c)
unfolding digit_value
IsNibble-digit_value c = ground arith

abbrev pub Decoded : Option (List ℕ) → Type 0
Decoded none = Unit
Decoded (some bytes) = IsBytes bytes

push_byte-Decoded :
    (high low : Option ℕ) (rest : Option (List ℕ))
    → IsNibble high
    → IsNibble low
    → Decoded rest
    → Decoded (push_byte high low rest)
unfolding push_byte
push_byte-Decoded none low rest h l r = tt
push_byte-Decoded (some a) none rest h l r = tt
push_byte-Decoded (some a) (some b) none h l r = tt
push_byte-Decoded (some a) (some b) (some rest) h l r = (omega arith, r)

pub Decoded-from_hex : (text : List ℕ) → Decoded (from_hex text)
unfolding from_hex
Decoded-from_hex [] = tt
Decoded-from_hex (c ∷ []) = ground arith
Decoded-from_hex (c ∷ d ∷ rest) = ground (
  arith,
  Decoded-from_hex (d ∷ rest),
  push_byte-Decoded (digit_value c) (digit_value d) (from_hex rest) (IsNibble-digit_value c)
      (IsNibble-digit_value d) (Decoded-from_hex rest),
)

-- What `from_hex` reads are bytes.
pub from_hex-IsBytes : (text : List ℕ) {bytes : List ℕ} → from_hex text ≡ some bytes → IsBytes bytes
from_hex-IsBytes text e = subst Decoded e (Decoded-from_hex text)
