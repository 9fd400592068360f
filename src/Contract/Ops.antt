-- ===== src/Contract/Ops.antt =====
-- The operations and replies of lab/contract.py. An operation's data is the hexadecimal text that
-- the scenario holds, as code points.
use native.Mathlib.Decide.{ℕ_discrete}
use kernel_bridge_concurrent.Common.{ℕ, ℤ, pos, negsuc, Option, none, some, List}
use kernel_bridge_concurrent.Contract.Hex.{hex}

abbrev pub min_capacity : ℕ
min_capacity = 256

abbrev pub max_capacity : ℕ
max_capacity = 65536

abbrev pub max_operations : ℕ
max_operations = 10000

abbrev pub max_transfer : ℕ
max_transfer = 4096

-- The codes of Linux, where the driver runs.
abbrev pub eagain : ℕ
eagain = 11

abbrev pub einval : ℕ
einval = 22

abbrev pub emsgsize : ℕ
emsgsize = 90

pub data Op : Type 0 where
  read : ℕ → Op
  write : List ℕ → Op
  resize : ℕ → Op
  clear capacity : Op

pub record Reply : Type 0 where
  pub ret : ℤ
  pub errno : ℤ
  pub payload : Option (List ℕ)

-- `success(count)`: no data field.
abbrev pub success : ℕ → Reply
success count = record { ret = pos count; errno = pos 0; payload = none }

-- `success(count, data)`: the bytes travel as hexadecimal text.
abbrev pub success_data : ℕ → List ℕ → Reply
success_data count bytes = record { ret = pos count; errno = pos 0; payload = some (hex bytes) }

abbrev pub failure : ℕ → Reply
failure code = record { ret = negsuc 0; errno = pos code; payload = none }

unfoldable pub Reply-discrete : Discrete Reply
unfolding ℕ_discrete
Reply-discrete = hlevel ℕ_discrete

unfoldable pub Op-discrete : Discrete Op
unfolding ℕ_discrete
Op-discrete = hlevel ℕ_discrete

-- Texts, and lists of numbers, are equal or not.
unfoldable pub Text-discrete : Discrete (List ℕ)
unfolding ℕ_discrete
Text-discrete = hlevel ℕ_discrete
