-- ===== src/Runner.antt =====
-- The function `evaluate` of lab/runner.py: a scenario run on a device and on the reference model.
pub mod Replies
pub mod Agreement
pub mod NoFault
pub mod Reduction
use kernel_bridge_concurrent.Common.{
  ℕ, zero, suc, ◌+◌, ◌-◌, ◌*◌, ◌/◌, ◌%◌, ◌^◌, ◌≤◌, ◌<◌, min, max, ◌≡◌, refl, sym, ap, ◌∙◌, subst,
  ◌≢◌, ◌↔◌, ◌⊎◌, inl, inr, ite, if_pos, if_neg, Bool, true, false, not, ◌&&◌, ◌||◌, Option, none,
  some, List, [], ◌∷◌, ◌++◌, map, append-nil, append_assoc, arith, ltb, leb, ◌==◌, if◌then◌else◌,
  between, Bool-cases, Option-cases, length, take, drop, get_or, set, get_elem?, ℤ, pos, negsuc,
}
use kernel_bridge_concurrent.Contract.Ops.{
  Op, read, write, resize, clear, capacity, Reply, Text-discrete,
}
use kernel_bridge_concurrent.Contract.Model.{Model, create, apply}
use kernel_bridge_concurrent.Contract.Validate.{Scenario, Invalid, validate}

-- What a factory gives: a context manager with a method `apply`. `none` and `false` stand for an
-- exception, of those that `evaluate` catches.
pub record Target (D : Type 0) : Type 0 where
  pub enter : ℕ → Option D
  pub perform : D → Op → Option (D × Reply)
  pub leave : D → Bool

-- The keys of a reply, in their sorted order.
pub data Field : Type 0 where
  data_field errno_field ret_field : Field

pub data Name : Type 0 where
  read_name write_name resize_name clear_name capacity_name : Name

abbrev pub name_of : Op → Name
name_of (read count) = read_name
name_of (write text) = write_name
name_of (resize requested) = resize_name
name_of clear = clear_name
name_of capacity = capacity_name

pub record Signature : Type 0 where
  pub operation : Name
  pub fields : List Field
  pub expected_errno : ℤ
  pub actual_errno : ℤ

pub record Entry : Type 0 where
  pub index : ℕ
  pub operation : Op
  pub expected : Reply
  pub actual : Reply

pub data Status : Type 0 where
  passes inconclusive : Status
  fails : ℕ → Signature → Status

pub record Evaluation : Type 0 where
  pub status : Status
  pub history : List Entry

abbrev pub same_int : ℤ → ℤ → Bool
same_int (pos a) (pos b) = a == b
same_int (negsuc a) (negsuc b) = a == b
same_int (pos a) (negsuc b) = false
same_int (negsuc a) (pos b) = false

-- `get` gives None where a reply has no data.
abbrev pub same_payload : Option (List ℕ) → Option (List ℕ) → Bool
same_payload none none = true
same_payload (some a) (some b) = ite (Text-discrete a b) true false
same_payload none (some b) = false
same_payload (some a) none = false

abbrev pub unless : Bool → Field → List Field → List Field
unless true field rest = rest
unless false field rest = field ∷ rest

-- The keys at which the two replies differ.
unfoldable pub differing : Reply → Reply → List Field
differing expected actual = unless (same_payload expected.payload actual.payload) data_field (
    unless (same_int expected.errno actual.errno) errno_field
      (unless (same_int expected.ret actual.ret) ret_field []))

abbrev pub signature_of : Op → List Field → Reply → Reply → Signature
signature_of op fields expected actual = record {
  operation = name_of op;
  fields = fields;
  expected_errno = expected.errno;
  actual_errno = actual.errno;
}

module _ {D : Type 0} (target : Target D) where
  abbrev pub broken : Evaluation
  broken = record { status = inconclusive; history = [] }

  -- The end of the `with` block.
  abbrev pub closed : D → Status → Status
  closed d status = if target.leave d then status else inconclusive

  abbrev pub recorded : Entry → Evaluation → Evaluation
  recorded entry rest = record { status = rest.status; history = entry ∷ rest.history }

  -- The entry of one operation, and what follows it.
  abbrev pub judged : ℕ → Op → Reply → Reply → D → List Field → Evaluation → Evaluation
  judged index op expected actual d [] rest =
      recorded (record { index = index; operation = op; expected = expected; actual = actual }) rest
  judged index op expected actual d (f ∷ fields) rest =
      recorded (record { index = index; operation = op; expected = expected; actual = actual })
        (record {
          status = closed d (fails index (signature_of op (f ∷ fields) expected actual));
          history = [];
        })

  abbrev pub compared :
      (Model → D → Evaluation) → ℕ → Op → Option (Model × Reply) → Option (D × Reply) → Evaluation
  compared rest index op none answer = broken
  compared rest index op (some expected) none = broken
  compared rest index op (some (m, expected)) (some (d, actual)) =
      judged index op expected actual d (differing expected actual) (rest m d)

  -- The loop over the operations, from the one numbered `index` on.
  unfoldable pub run : ℕ → List Op → Model → D → Evaluation
  unfolding differing
  run index [] m d = record { status = closed d passes; history = [] }
  run index (op ∷ ops) m d =
      compared (run (suc index) ops) index op (apply m op) (target.perform d op)

  abbrev pub opened : Scenario → Option D → Evaluation
  opened s none = broken
  opened s (some d) = run 0 s.operations (create s.capacity) d

  abbrev pub validated : Scenario → Option Invalid → Option Evaluation
  validated s (some e) = none
  validated s none = some (opened s (target.enter s.capacity))

  -- `none` is the ValueError of `validate`, which `evaluate` does not catch.
  unfoldable pub evaluate : Scenario → Option Evaluation
  unfolding run validate
  evaluate s = validated s (validate s)
