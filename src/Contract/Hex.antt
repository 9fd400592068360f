-- ===== src/Contract/Hex.antt =====
-- `bytes.fromhex` and `bytes.hex`, over the code points of a text.
pub mod Laws
use kernel_bridge_concurrent.Common.{
  ℕ, ◌+◌, ◌-◌, ◌*◌, ◌/◌, ◌%◌, List, [], ◌∷◌, Option, none, some, Bool, ◌||◌, ltb, between,
  if◌then◌else◌, ◌==◌,
}

-- The value of one hexadecimal digit, in either case.
unfoldable pub digit_value : ℕ → Option ℕ
digit_value c =
    if between b'0' b'9' c
    then some (c - b'0')
    else if between b'a' b'f' c
    then some (c - b'a' + 10)
    else if between b'A' b'F' c
    then some (c - b'A' + 10)
    else none

is_space : ℕ → Bool
is_space c = (c == 32) || between 9 13 c

push_byte : Option ℕ → Option ℕ → Option (List ℕ) → Option (List ℕ)
push_byte (some h) (some l) (some rest) = some ((h * 16 + l) ∷ rest)
push_byte _ _ _ = none

-- ASCII space is skipped between two bytes; `none` is the ValueError.
unfoldable pub from_hex : List ℕ → Option (List ℕ)
unfolding digit_value is_space push_byte
from_hex [] = some []
from_hex (c ∷ []) = if is_space c then some [] else none
from_hex (c ∷ d ∷ rest) =
    let skipped = from_hex (d ∷ rest) in
    let pair = push_byte (digit_value c) (digit_value d) (from_hex rest) in
    if is_space c then skipped else pair

unfoldable pub hex_digit : ℕ → ℕ
hex_digit n = if ltb n 10 then b'0' + n else b'a' + (n - 10)

unfoldable pub hex : List ℕ → List ℕ
unfolding hex_digit
hex [] = []
hex (b ∷ bs) = hex_digit (b / 16) ∷ hex_digit (b % 16) ∷ hex bs
