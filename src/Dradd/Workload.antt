-- ===== src/Dradd/Workload.antt =====
-- The class Workload of lab/dradd.py. A set of operation numbers is its increasing list.
pub mod Sets
pub mod Prune
pub mod Candidates
use kernel_bridge_concurrent.Common.{
  range_from, all_in, ℕ, zero, suc, ◌+◌, ◌-◌, ◌*◌, ◌/◌, ◌%◌, ◌^◌, ◌≤◌, ◌<◌, min, max, ◌≡◌, refl,
  sym, ap, ◌∙◌, subst, ◌≢◌, ◌↔◌, ◌⊎◌, inl, inr, ite, if_pos, if_neg, Bool, true, false, not, ◌&&◌,
  ◌||◌, Option, none, some, List, [], ◌∷◌, ◌++◌, map, append-nil, append_assoc, arith, ltb, leb,
  ◌==◌, if◌then◌else◌, between, Bool-cases, Option-cases, length, take, drop, get_or, set,
  get_elem?, ℤ, pos, negsuc,
}
use kernel_bridge_concurrent.Contract.Ops.{Text-discrete}

-- KINDS
pub data Kind : Type 0 where
  hard_structural contract_required conservative_inferred optional_heuristic : Kind

-- REQUIRED
abbrev pub is_required : Kind → Bool
is_required hard_structural = true
is_required contract_required = true
is_required conservative_inferred = false
is_required optional_heuristic = false

pub record Edge : Type 0 where
  pub operation : ℕ
  pub requires : ℕ
  pub kind : Kind

-- A workload whose operations are of the type `A`.
pub record Workload {ℓ} (A : Type ℓ) : Type ℓ where
  pub operations : List A
  pub worker_ids : List ℕ
  pub workers : ℕ
  pub dependencies : List Edge

-- Adds a number to an increasing list that may hold it.
abbrev pub insert : ℕ → List ℕ → List ℕ
insert x [] = x ∷ []
insert x (y ∷ ys) =
    let deeper = y ∷ insert x ys in
    if ltb x y then x ∷ y ∷ ys else if x == y then y ∷ ys else deeper

-- sorted(set(keep))
abbrev pub sorted_set : List ℕ → List ℕ
sorted_set [] = []
sorted_set (x ∷ xs) = insert x (sorted_set xs)

-- self.ids
abbrev pub ids {ℓ} : {A : Type ℓ} → Workload A → List ℕ
ids w = range_from 0 (length w.operations)

-- self.required[i]
unfoldable pub required : List Edge → ℕ → List ℕ
required [] i = []
required (e ∷ edges) i =
    let rest = required edges i in
    if is_required e.kind && e.operation == i then e.requires ∷ rest else rest

-- all(self.required[i] <= ids for i in keep)
unfoldable pub all_required : List Edge → List ℕ → List ℕ → Bool
unfolding required
all_required edges [] kept = true
all_required edges (i ∷ keep) kept = all_in (required edges i) kept && all_required edges keep kept

abbrev pub is_empty : List ℕ → Bool
is_empty [] = true
is_empty (x ∷ xs) = false

abbrev pub same_list : List ℕ → List ℕ → Bool
same_list xs ys = ite (Text-discrete xs ys) true false

unfoldable pub valid {ℓ} : {A : Type ℓ} → Workload A → List ℕ → Bool
unfolding all_required
valid w keep =
    not (is_empty keep)
    && same_list (sorted_set keep) keep
    && all_in keep (ids w)
    && all_required w.dependencies keep keep

-- {i for i in ids if self.required[i] <= ids}, over the numbers of the first list.
unfoldable pub supported : List Edge → List ℕ → List ℕ → List ℕ
unfolding required
supported edges kept [] = []
supported edges kept (i ∷ rest) =
    let others = supported edges kept rest in
    if all_in (required edges i) kept then i ∷ others else others

-- The loop of `prune`. A round that changes the set makes it smaller, so fuel above its size is
-- never used up.
unfoldable pub prune_loop : List Edge → ℕ → List ℕ → List ℕ
unfolding supported
prune_loop edges zero kept = kept
prune_loop edges (suc fuel) kept =
    let next = supported edges kept kept in
    let deeper = prune_loop edges fuel next in if same_list next kept then kept else deeper

-- `required[i]` of a number that is not one of the workload is a KeyError in the source; here it has
-- no edges. `reduce`, the only caller, prunes parts of `ids`, which are numbers of the workload.
unfoldable pub prune {ℓ} : {A : Type ℓ} → Workload A → List ℕ → List ℕ
unfolding prune_loop
prune w keep = let kept = sorted_set keep in prune_loop w.dependencies (suc (length kept)) kept
