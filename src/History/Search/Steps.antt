-- ===== src/History/Search/Steps.antt =====
-- What an answer of one round of the search says of its candidates.
use mathlib.Core.Option.{some-injective}
use mathlib.Core.List.{Memᴰ}
use mathlib.Core.List.Memᴰ
use kernel_bridge_concurrent.Common.{
  zero, ◌||◌, leb, Bool-cases, Option-cases, Bool-cases, ap, sym, ◌∙◌, if_pos, if_neg, ◌↔◌, ℕ, suc,
  ◌≡◌, ◌≢◌, refl, List, [], ◌∷◌, ◌++◌, Option, none, some, Bool, true, false, arith, get_or, set,
  inl, inr, ◌⊎◌,
}
use kernel_bridge_concurrent.Contract.Ops.{Reply, Reply-discrete}
use kernel_bridge_concurrent.Contract.Model.{Model, apply}
use kernel_bridge_concurrent.History.Search.{
  go_on, Step, Candidate, blocked, Answer, found, absent, exhausted, invalid, starved, Descend,
  matches, explore, attempt, try_all, search, complete,
}

pub matches_iff :
    (actual : Option Reply) (r : Reply) → (matches actual r ≡ true) ↔ (actual ≡ some r)
unfolding matches
matches_iff none r = ground arith
matches_iff (some a) r = elim (Reply-discrete r a) [
  | yes e ↦ rw (if_pos _ e) (λ _. ap some (sym e), λ _. refl)
  | no ne ↦ rw (if_neg _ ne) (λ f. cc, λ p. absurd (ne (sym (some-injective a r p))))
]

go_on-absent :
    (s : Step) (rest : ℕ → Step) {after : ℕ}
    → go_on s rest ≡ (absent, after)
    → (k : ℕ) × (s ≡ (absent, k)) × (rest k ≡ (absent, after))
go_on-absent (absent, k) rest e = (k, refl, e)
go_on-absent (found order, k) rest e = cc (ap (λ (s : Step). s.0) e)
go_on-absent (exhausted, k) rest e = cc (ap (λ (s : Step). s.0) e)
go_on-absent (invalid, k) rest e = cc (ap (λ (s : Step). s.0) e)
go_on-absent (starved, k) rest e = cc (ap (λ (s : Step). s.0) e)

go_on-cases :
    (s : Step) (rest : ℕ → Step)
    → (go_on s rest ≡ s) ⊎ ((k : ℕ) × (s ≡ (absent, k)) × (go_on s rest ≡ rest k))
go_on-cases (absent, k) rest = inr (k, refl, refl)
go_on-cases (found order, k) rest = inl refl
go_on-cases (exhausted, k) rest = inl refl
go_on-cases (invalid, k) rest = inl refl
go_on-cases (starved, k) rest = inl refl

module _ (budget : ℕ) (descend : Descend) (mask : List Bool) (m : Model) (order : List ℕ) where
  -- The loop goes past every candidate before it answers None.
  pub all_absent :
      (explored : ℕ) (cs : List Candidate) {after : ℕ}
      → try_all budget descend mask m order explored cs ≡ (absent, after)
      → (c : Candidate) → Memᴰ c cs
      → (before rest : ℕ) × (attempt budget descend mask m order before c ≡ (absent, rest))
  unfolding try_all
  all_absent explored [] e c h = absurd (Memᴰ.not-nil h)
  all_absent explored (x ∷ cs) e c (Memᴰ.head same) =
      let (k, this, rest) =
        go_on-absent (attempt budget descend mask m order explored x)
          (λ after. try_all budget descend mask m order after cs) e in
      (explored, k, rw same this)
  all_absent explored (x ∷ cs) e c (Memᴰ.tail h) =
      let (k, this, rest) =
        go_on-absent (attempt budget descend mask m order explored x)
          (λ after. try_all budget descend mask m order after cs) e in
      all_absent k cs rest c h

  -- Any other answer is that of one candidate.
  pub some_answers :
      (explored : ℕ) (cs : List Candidate) {answer : Answer} {after : ℕ}
      → answer ≢ absent
      → try_all budget descend mask m order explored cs ≡ (answer, after)
      → (c : Candidate) × Memᴰ c cs
        × (before : ℕ) × (attempt budget descend mask m order before c ≡ (answer, after))
  unfolding try_all
  some_answers explored [] ne e = absurd (ne (ap (λ (s : Step). s.0) (sym e)))
  some_answers explored (x ∷ cs) ne e =
      elim (go_on-cases (attempt budget descend mask m order explored x)
        (λ after. try_all budget descend mask m order after cs)) [
          | inl this ↦ (x, Memᴰ.head refl, explored, sym this ∙ e)
          | inr (k, _, rest) ↦
              let (c, h, before, answers) = some_answers k cs ne (sym rest ∙ e) in
              (c, Memᴰ.tail h, before, answers)
        ]

  -- The candidate may come next, and the model agrees with what was recorded of it.
  pub record IsTaken (c : Candidate) (explored : ℕ) (answer : Answer) (after : ℕ) : Type 0 where
    pub free : get_or mask c.position false ≡ false
    pub first : blocked c.row mask ≡ false
    pub model : Model
    pub reply : Reply
    pub applied : apply m c.event.operation ≡ some (model, reply)
    pub actual : c.event.actual ≡ some reply
    pub below :
        descend (set mask c.position true) model (order ++ c.event.index ∷ []) (suc explored)
        ≡ (answer, after)

  -- An answer that is none of the three of the loop itself comes from below a taken candidate.
  pub IsTaken-of_answer :
      (c : Candidate) (explored : ℕ) {answer : Answer} {after : ℕ}
      → answer ≢ absent
      → answer ≢ exhausted
      → answer ≢ invalid
      → attempt budget descend mask m order explored c ≡ (answer, after)
      → IsTaken c explored answer after
  unfolding attempt explore
  IsTaken-of_answer c explored na ne ni e =
      elim (Bool-cases (get_or mask c.position false || blocked c.row mask)) [
        | inl skip ↦ absurd (na (ground arith))
        | inr go ↦ elim (Bool-cases (leb budget explored)) [
          | inl over ↦ absurd (ne (ground arith))
          | inr under ↦ elim (Option-cases (apply m c.event.operation)) [
            | inl bad ↦ absurd (ni (ground arith))
            | inr ((m', r), applied) ↦ elim (Bool-cases (matches c.event.actual r)) [
              | inl same ↦ record {
                free = ground arith;
                first = ground arith;
                model = m';
                reply = r;
                applied = applied;
                actual = (matches_iff c.event.actual r).0 same;
                below = ground arith;
              }
              | inr other ↦ absurd (na (ground arith))
            ]
          ]
        ]
      ]

  -- A candidate that could have been taken was explored to no avail.
  pub below_of_absent :
      (c : Candidate) (explored : ℕ) {after : ℕ} {m' : Model} {r : Reply}
      → attempt budget descend mask m order explored c ≡ (absent, after)
      → get_or mask c.position false ≡ false
      → blocked c.row mask ≡ false
      → apply m c.event.operation ≡ some (m', r)
      → c.event.actual ≡ some r
      → descend (set mask c.position true) m' (order ++ c.event.index ∷ []) (suc explored)
        ≡ (absent, after)
  unfolding attempt explore
  below_of_absent c explored {m'} {r} e free first applied actual =
      ground (arith, (matches_iff c.event.actual r).1 actual)

pub found≢absent : (w : List ℕ) → found w ≢ absent
found≢absent w p = cc

pub found≢exhausted : (w : List ℕ) → found w ≢ exhausted
found≢exhausted w p = cc

pub found≢invalid : (w : List ℕ) → found w ≢ invalid
found≢invalid w p = cc

module _ (budget : ℕ) (cs : List Candidate) where
  pub search-complete :
      (fuel : ℕ) (mask : List Bool) (m : Model) (order : List ℕ) (explored : ℕ)
      → complete mask ≡ true
      → search budget cs fuel mask m order explored ≡ (found order, explored)
  unfolding search
  search-complete zero mask m order explored h = rw h
  search-complete (suc fuel) mask m order explored h = rw h

  pub search-zero :
      (mask : List Bool) (m : Model) (order : List ℕ) (explored : ℕ)
      → complete mask ≡ false
      → search budget cs zero mask m order explored ≡ (starved, explored)
  unfolding search
  search-zero mask m order explored h = rw h

  pub search-suc :
      (fuel : ℕ) (mask : List Bool) (m : Model) (order : List ℕ) (explored : ℕ)
      → complete mask ≡ false
      → search budget cs (suc fuel) mask m order explored
        ≡ try_all budget (search budget cs fuel) mask m order explored cs
  unfolding search
  search-suc fuel mask m order explored h = rw h

-- An answer found at a complete mask is the order so far.
pub found-injective : {a b : List ℕ} {j k : ℕ} → ◌≡◌ {A = Step} (found a, j) (found b, k) → a ≡ b
found-injective e = cc (ap (λ (s : Step). s.0) e)
