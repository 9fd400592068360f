-- ===== src/History/Search.antt =====
-- The depth-first search of `check_history` in lab/history.py.

pub mod Spec
pub mod Remaining
pub mod Steps
pub mod Candidates
pub mod Sound
pub mod Complete
pub mod Budget
pub mod Enumerate
use kernel_bridge_concurrent.Common.{
  none, zero, leb, ◌++◌, suc, get_or, ite, set, if◌then◌else◌, ℕ, Option, some, List, [], ◌∷◌, Bool,
  true, false, not, ◌&&◌, ◌||◌,
}
use kernel_bridge_concurrent.Contract.Ops.{Reply-discrete, Reply}
use kernel_bridge_concurrent.Contract.Model.{apply, Model}
use kernel_bridge_concurrent.History.Events.{Event}

-- An event with its position in the history and its predecessors.
pub record Candidate : Type 0 where
  pub position : ℕ
  pub event : Event
  pub row : List Bool

-- `found` is the order that the search returns and `absent` its None; `exhausted` is
-- BudgetExhausted, `invalid` the ValueError of an operation, and `starved` the end of the fuel.
pub data Answer : Type 0 where
  found : List ℕ → Answer
  absent exhausted invalid starved : Answer

-- An answer and the count `explored`.
abbrev pub Step : Type 0
Step = Answer × ℕ

abbrev pub Descend : Type 0
Descend = List Bool → Model → List ℕ → ℕ → Step

-- `mask == complete`
abbrev pub complete : List Bool → Bool
complete [] = true
complete (b ∷ mask) = b && complete mask

-- `predecessors[i] & ~mask`
abbrev pub blocked : List Bool → List Bool → Bool
blocked (b ∷ row) (m ∷ mask) = b && not m || blocked row mask
blocked _ _ = false

-- `candidate.apply(...) == event["actual"]`
unfoldable pub matches : Option Reply → Reply → Bool
unfolding Reply-discrete
matches none r = false
matches (some actual) r = ite (Reply-discrete r actual) true false

-- The loop goes on past an `absent` candidate, and returns or raises on any other answer.
abbrev pub go_on : Step → (ℕ → Step) → Step
go_on (absent, explored) rest = rest explored
go_on (found order, explored) rest = (found order, explored)
go_on (exhausted, explored) rest = (exhausted, explored)
go_on (invalid, explored) rest = (invalid, explored)
go_on (starved, explored) rest = (starved, explored)

module _ (budget : ℕ) where
  -- The model's reply to the candidate, and on agreement the search below it.
  unfoldable pub explore :
      Descend → List Bool → List ℕ → ℕ → Candidate → Option (Model × Reply) → Step
  explore descend mask order explored c none = (invalid, explored)
  explore descend mask order explored c (some (m', r)) =
      if matches c.event.actual r
      then descend (set mask c.position true) m' (order ++ c.event.index ∷ []) explored
      else (absent, explored)

  -- The body of the loop: `absent` is its `continue`, and an answer None of the recursive call.
  unfoldable pub attempt : Descend → List Bool → Model → List ℕ → ℕ → Candidate → Step
  attempt descend mask m order explored c =
      if get_or mask c.position false || blocked c.row mask
      then (absent, explored)
      else if leb budget explored
      then (exhausted, explored)
      else explore descend mask order (suc explored) c (apply m c.event.operation)

  -- `for i, event in enumerate(history)`
  unfoldable pub try_all : Descend → List Bool → Model → List ℕ → ℕ → List Candidate → Step
  try_all descend mask m order explored [] = (absent, explored)
  try_all descend mask m order explored (c ∷ cs) =
      go_on (attempt descend mask m order explored c)
        (λ after. try_all descend mask m order after cs)

  -- The fuel bounds the depth; one for each bit that is not set is enough.
  unfoldable pub search : List Candidate → ℕ → Descend
  search cs zero mask m order explored =
      if complete mask then (found order, explored) else (starved, explored)
  search cs (suc fuel) mask m order explored =
      let deeper = try_all (search cs fuel) mask m order explored cs in
      if complete mask then (found order, explored) else deeper

-- `enumerate(history)` with `predecessors[i]`.
unfoldable pub candidates_from : ℕ → List Event → List (List Bool) → List Candidate
candidates_from i [] rows = []
candidates_from i (event ∷ history) [] = []
candidates_from i (event ∷ history) (row ∷ rows) =
    record { position = i; event = event; row = row } ∷ candidates_from (suc i) history rows
