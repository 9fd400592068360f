-- ===== src/History/Search/Budget.antt =====
-- How many transitions the search explores, and which budget is enough.
use kernel_bridge_concurrent.History.Search.Steps.{
  IsTaken-of_answer, some_answers, search-suc, search-zero, search-complete,
}
use mathlib.Core.List.{Memᴰ}
use kernel_bridge_concurrent.Common.{
  length-set, get_elem?, subst, ◌∙◌, sym, ap, ◌≢◌, length, Bool-cases, ℕ, zero, suc, ◌+◌, ◌*◌, ◌≤◌,
  ◌<◌, ◌≡◌, refl, List, [], ◌∷◌, ◌++◌, Option, none, some, Bool, true, false, arith, get_or, set,
  inl, inr, if◌then◌else◌,
}
use kernel_bridge_concurrent.History.Events.{Event}
use kernel_bridge_concurrent.History.Search.Remaining.{
  remaining, complete_of_remaining, length-remaining-set,
}
use kernel_bridge_concurrent.History.Search.Candidates.{Covers}
use kernel_bridge_concurrent.Contract.Ops.{Reply}
use kernel_bridge_concurrent.Contract.Model.{Model, apply}
use kernel_bridge_concurrent.History.Search.{
  search, complete, Step, go_on, Candidate, found, absent, exhausted, invalid, starved, Descend,
  attempt, explore, try_all,
}

-- The transitions below a state with `n` events left: each may come next, and leaves `n - 1`.
unfoldable pub transitions : ℕ → ℕ
transitions zero = 0
transitions (suc n) = suc n * suc (transitions n)

-- The count stays within the limit, and only a budget below the limit is exhausted.
abbrev pub Within : ℕ → ℕ → Step → Type 0
Within budget limit s = (s.1 ≤ limit) × (s.0 ≡ exhausted → budget < limit)

-- The candidates whose bit is not set.
abbrev pub free_count : List Bool → List Candidate → ℕ
free_count mask [] = 0
free_count mask (c ∷ cs) =
    let rest = free_count mask cs in if get_or mask c.position false then rest else suc rest

starved≢absent : starved ≢ absent
starved≢absent p = cc

starved≢exhausted : starved ≢ exhausted
starved≢exhausted p = cc

starved≢invalid : starved ≢ invalid
starved≢invalid p = cc

Within-mono : (budget k l : ℕ) (s : Step) → k ≤ l → Within budget k s → Within budget l s
Within-mono budget k l s h w = (omega (arith, w.0), λ e. omega (arith, w.1 e))

module _ (budget : ℕ) (descend : Descend) (mask : List Bool) (m : Model) (order : List ℕ) where
  explore-Within :
      (c : Candidate) (explored t : ℕ) (reply : Option (Model × Reply))
      → ((m' : Model)
          → Within budget
              (explored + t)
              (descend (set mask c.position true) m' (order ++ c.event.index ∷ []) explored))
      → Within budget (explored + t) (explore budget descend mask order explored c reply)
  unfolding explore
  explore-Within c explored t none below = ground arith
  explore-Within c explored t (some (m', r)) below = ground (arith, below m')

  attempt-Within :
      (c : Candidate) (explored t : ℕ)
      → ((m' : Model)
          → Within budget
              (suc explored + t)
              (descend (set mask c.position true) m' (order ++ c.event.index ∷ []) (suc explored)))
      → Within budget (explored + suc t) (attempt budget descend mask m order explored c)
  unfolding attempt
  attempt-Within c explored t below =
      ground (arith, explore-Within c (suc explored) t (apply m c.event.operation) below)

  attempt-taken :
      (c : Candidate) (explored : ℕ)
      → get_or mask c.position false ≡ true
      → attempt budget descend mask m order explored c ≡ (absent, explored)
  unfolding attempt
  attempt-taken c explored h = rw h

  go_on-Within :
      (s : Step) (rest : ℕ → Step) (k l : ℕ)
      → k ≤ l
      → Within budget k s
      → ((after : ℕ) → after ≤ k → Within budget l (rest after))
      → Within budget l (go_on s rest)
  go_on-Within (absent, n) rest k l h w r = r n w.0
  go_on-Within (found order, n) rest k l h w r = ground arith
  go_on-Within (exhausted, n) rest k l h w r = ground arith
  go_on-Within (invalid, n) rest k l h w r = ground arith
  go_on-Within (starved, n) rest k l h w r = ground arith

  try_all-Within :
      (t : ℕ) (cs : List Candidate) (explored : ℕ)
      → ((c : Candidate)
          → Memᴰ c cs
          → get_or mask c.position false ≡ false
          → (m' : Model) (k : ℕ)
          → Within budget
              (suc k + t)
              (descend (set mask c.position true) m' (order ++ c.event.index ∷ []) (suc k)))
      → Within budget
          (explored + free_count mask cs * suc t)
          (try_all budget descend mask m order explored cs)
  unfolding try_all
  try_all-Within t [] explored below = ground arith
  try_all-Within t (c ∷ cs) explored below = elim (Bool-cases (get_or mask c.position false)) [
    | inl taken ↦
        rw (taken, attempt-taken c explored taken)
          (try_all-Within t cs explored (λ d mem. below d (Memᴰ.tail mem)))
    | inr free ↦ rw free (
        go_on-Within (attempt budget descend mask m order explored c)
          (λ after. try_all budget descend mask m order after cs) (explored + suc t)
          (explored + suc (free_count mask cs) * suc t) (omega arith)
          (attempt-Within c explored t (λ m'. below c (Memᴰ.head refl) free m' explored))
          (λ after le.
            Within-mono budget (after + free_count mask cs * suc t)
              (explored + suc (free_count mask cs) * suc t) _ (omega arith)
              (try_all-Within t cs after (λ d mem. below d (Memᴰ.tail mem)))))
  ]

module _ (budget : ℕ) (history : List Event) (cs : List Candidate) (covers : Covers history cs)
    (counts : (mask : List Bool)
      → length mask ≡ length history
      → free_count mask cs ≡ length (remaining mask history)) where
  pub search-Within :
      (n fuel : ℕ) (mask : List Bool) (m : Model) (order : List ℕ) (explored : ℕ)
      → length mask ≡ length history
      → length (remaining mask history) ≡ n
      → Within budget (explored + transitions n) (search budget cs fuel mask m order explored)
  unfolding transitions
  search-Within n zero mask m order explored h e = elim (Bool-cases (complete mask)) [
    | inl all ↦ rw (search-complete budget cs zero mask m order explored all) (ground arith)
    | inr left ↦ rw (search-zero budget cs mask m order explored left) (ground arith)
  ]
  search-Within zero (suc fuel) mask m order explored h e =
      rw
        (search-complete budget cs (suc fuel) mask m order explored
          (complete_of_remaining mask history h e))
        (ground arith)
  search-Within (suc n) (suc fuel) mask m order explored h e = elim (Bool-cases (complete mask)) [
    | inl all ↦ rw (search-complete budget cs (suc fuel) mask m order explored all) (ground arith)
    | inr left ↦ rw (search-suc budget cs fuel mask m order explored left) (
        subst
          (λ k.
            Within budget (explored + k * suc (transitions n))
              (try_all budget (search budget cs fuel) mask m order explored cs))
          (counts mask h ∙ e)
          (try_all-Within budget (search budget cs fuel) mask m order (transitions n) cs explored
            (λ c mem free m' k.
              let (i, at) = covers.each c mem in
              let fewer =
                length-remaining-set mask history c.position h
                  (subst (λ k. get_elem? history k ≡ some c.event) (sym at.position) at.event)
                  free in
              search-Within n fuel (set mask c.position true) m' (order ++ c.event.index ∷ [])
                (suc k) (length-set mask c.position true ∙ h) (omega (arith, fewer, e)))))
  ]

  -- One unit of fuel for each event that is left is enough.
  pub search-ne-starved :
      (fuel : ℕ) (mask : List Bool) (m : Model) (order : List ℕ) (explored after : ℕ)
      → length mask ≡ length history
      → length (remaining mask history) ≤ fuel
      → search budget cs fuel mask m order explored ≢ (starved, after)
  search-ne-starved zero mask m order explored after h e stops = cc (
      ap (λ (s : Step). s.0)
        (sym (
            search-complete budget cs zero mask m order explored
              (complete_of_remaining mask history h (omega arith)))
          ∙ stops))
  search-ne-starved (suc fuel) mask m order explored after h e stops =
      elim (Bool-cases (complete mask)) [
        | inl all ↦ cc (
            ap (λ (s : Step). s.0)
              (sym (search-complete budget cs (suc fuel) mask m order explored all) ∙ stops))
        | inr left ↦
            let (c, mem, before, answers) =
              some_answers budget (search budget cs fuel) mask m order explored cs starved≢absent
                (sym (search-suc budget cs fuel mask m order explored left) ∙ stops) in
            let taken =
              IsTaken-of_answer budget (search budget cs fuel) mask m order c before starved≢absent
                starved≢exhausted starved≢invalid answers in
            let (i, at) = covers.each c mem in
            let fewer =
              length-remaining-set mask history c.position h
                (subst (λ k. get_elem? history k ≡ some c.event) (sym at.position) at.event)
                taken.free in
            search-ne-starved fuel (set mask c.position true) taken.model
              (order ++ c.event.index ∷ []) (suc before) after (length-set mask c.position true ∙ h)
              (omega (arith, fewer)) taken.below
      ]
