-- ===== src/Targets/Register.antt =====
-- The class RegisterAdapter of lab/research_targets.py: one key, whose deletion is lost.
pub mod Deleted
pub mod Stale
use kernel_bridge_concurrent.Common.{
  ℕ, ◌+◌, ◌≡◌, Bool, true, false, not, ◌&&◌, ◌||◌, Option, none, some, List, [], ◌∷◌, ◌++◌, ◌==◌,
  if◌then◌else◌, length,
}
use kernel_bridge_concurrent.Dradd.Workload.Candidates.{Candidate}
use kernel_bridge_concurrent.Dradd.Trials.{Trial, failed, passed}
use kernel_bridge_concurrent.Dradd.Reduce.{Adapter}

pub data RegisterOp : Type 0 where
  put delete get noop : RegisterOp

pub record RegisterEntry : Type 0 where
  pub operation : RegisterOp
  pub expected : Option ℕ
  pub actual : Option ℕ

-- The variables of `execute`.
pub record Register : Type 0 where
  pub expected : Option ℕ
  pub actual : Option ℕ
  pub mismatch : Bool
  pub history : List RegisterEntry

abbrev pub same_value : Option ℕ → Option ℕ → Bool
same_value none none = true
same_value none (some y) = false
same_value (some x) none = false
same_value (some x) (some y) = x == y

abbrev pub empty_register : Register
empty_register = record { expected = none; actual = none; mismatch = false; history = [] }

-- The branch of an operation.
abbrev pub acted : RegisterOp → Register → Register
acted put r = record r { expected = some 1; actual = some 1 }
acted delete r = record r { expected = none }
acted get r = record r { mismatch = r.mismatch || not (same_value r.expected r.actual) }
acted noop r = r

abbrev pub logged : RegisterOp → Register → Register
logged op r = record r {
  history = r.history ++ record { operation = op; expected = r.expected; actual = r.actual } ∷ [];
}

unfoldable pub run_register : List RegisterOp → Register → Register
run_register [] r = r
run_register (op ∷ ops) r = run_register ops (logged op (acted op r))

-- "REGISTER:STALE_AFTER_DELETE"
abbrev pub stale_text : List ℕ
stale_text =
    82 ∷ 69 ∷ 71 ∷ 73 ∷ 83 ∷ 84 ∷ 69 ∷ 82 ∷ 58 ∷ 83 ∷ 84 ∷ 65 ∷ 76 ∷ 69 ∷ 95 ∷ 65 ∷ 70 ∷ 84 ∷ 69
    ∷ 82 ∷ 95 ∷ 68 ∷ 69 ∷ 76 ∷ 69 ∷ 84 ∷ 69 ∷ []

abbrev pub trial_of : Register → Trial
trial_of r =
    if r.mismatch
    then record { status = failed; signature = some stale_text }
    else record { status = passed; signature = none }

abbrev pub all_zero : List ℕ → Bool
all_zero [] = true
all_zero (w ∷ owners) = w == 0 && all_zero owners

-- `validate` and `execute`.
unfoldable pub register_adapter : Adapter RegisterOp
unfolding run_register
register_adapter = record {
  signature = stale_text;
  accepts = λ c. all_zero c.workload.worker_ids;
  execute = λ c seed. some (trial_of (run_register c.workload.operations empty_register));
}
