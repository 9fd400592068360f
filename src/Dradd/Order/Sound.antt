-- ===== src/Dradd/Order/Sound.antt =====
-- What the depth-first search finds.
use kernel_bridge_concurrent.Common.{
  ℕ, zero, suc, ◌≡◌, refl, sym, ap, subst, ◌⊎◌, inl, inr, List, [], ◌∷◌, elem, Bool-cases,
}
use kernel_bridge_concurrent.Dradd.Workload.Sets.{In, Within, In-cons, In-head, In-tail}
use kernel_bridge_concurrent.Dradd.Order.{Walk, cyclic, spent, ended, onward, over, visit}

abbrev done_of : Walk → List ℕ
done_of cyclic = []
done_of spent = []
done_of (ended d) = d

ended-injective : {a b : List ℕ} → ended a ≡ ended b → a ≡ b
ended-injective e = ap done_of e

onward-ended :
    (w : Walk) (go : List ℕ → Walk) (d' : List ℕ)
    → onward w go ≡ ended d'
    → (d : List ℕ) × (w ≡ ended d) × (go d ≡ ended d')
onward-ended cyclic go d' e = cc
onward-ended spent go d' e = cc
onward-ended (ended d) go d' e = (d, refl, e)

onward-cyclic :
    (w : Walk) (go : List ℕ → Walk)
    → onward w go ≡ cyclic
    → (w ≡ cyclic) ⊎ ((d : List ℕ) × (w ≡ ended d) × (go d ≡ cyclic))
onward-cyclic cyclic go e = inl refl
onward-cyclic spent go e = cc
onward-cyclic (ended d) go e = inr (d, refl, e)

pub onward-spent :
    (w : Walk) (go : List ℕ → Walk)
    → onward w go ≡ spent
    → (w ≡ spent) ⊎ ((d : List ℕ) × (w ≡ ended d) × (go d ≡ spent))
onward-spent cyclic go e = cc
onward-spent spent go e = inl refl
onward-spent (ended d) go e = inr (d, refl, e)

module _ (graph : ℕ → List ℕ) where
  -- Each element comes after all its parents, the last one first.
  abbrev pub IsOrdered : List ℕ → Type 0
  IsOrdered [] = Unit
  IsOrdered (x ∷ done) = Within (graph x) done × IsOrdered done

  -- What a visit of `i` makes of what is done.
  pub record IsVisited (wanted : List ℕ) (done done' : List ℕ) : Type 0 where
    pub ordered : IsOrdered done'
    pub has_all : Within wanted done'
    pub keeps : Within done done'

  only_one : (i x : ℕ) (d : List ℕ) → In i d → In x (i ∷ []) → In x d
  only_one i x d here m = elim (In-cons x i [] m) [
    | inl same ↦ subst (λ y. In y d) (sym same) here
    | inr nowhere ↦ cc
  ]

  pub over-IsVisited :
      (go : ℕ → List ℕ → Walk)
      → ((i : ℕ) (d d' : List ℕ) → IsOrdered d → go i d ≡ ended d' → IsVisited (i ∷ []) d d')
      → (ids d d' : List ℕ) → IsOrdered d
      → over go ids d ≡ ended d'
      → IsVisited ids d d'
  unfolding over
  over-IsVisited go visits [] d d' o e = record {
    ordered = subst IsOrdered (ended-injective e) o;
    has_all = λ x m. cc;
    keeps = subst (λ l. Within d l) (ended-injective e) (λ x m. m);
  }
  over-IsVisited go visits (i ∷ ids) d d' o e =
      let (d1, first, rest) = onward-ended (go i d) (over go ids) d' e in
      let here = visits i d d1 o first in
      let others = over-IsVisited go visits ids d1 d' here.ordered rest in
      record {
        ordered = others.ordered;
        has_all = λ x m. elim (In-cons x i ids m) [
          | inl same ↦
              others.keeps x (here.has_all x (subst (λ y. In x (y ∷ [])) same (In-head x [])))
          | inr later ↦ others.has_all x later
        ];
        keeps = λ x m. others.keeps x (here.keeps x m);
      }

  pub visit-IsVisited :
      (fuel i : ℕ) (visiting d d' : List ℕ)
      → IsOrdered d
      → visit graph fuel i visiting d ≡ ended d'
      → IsVisited (i ∷ []) d d'
  unfolding visit
  visit-IsVisited zero i visiting d d' o e = cc
  visit-IsVisited (suc fuel) i visiting d d' o e = elim (Bool-cases (elem i visiting)) [
    | inl amid ↦ cc (rw amid at e)
    | inr fresh ↦ elim (Bool-cases (elem i d)) [
      | inl was_done ↦
          let same = ended-injective (rw (fresh, was_done) at e) in
          record {
            ordered = subst IsOrdered same o;
            has_all = λ x m. subst (In x) same (only_one i x d was_done m);
            keeps = subst (λ l. Within d l) same (λ x m. m);
          }
      | inr new ↦
          let (d1, below, above) =
            onward-ended (over (λ p q. visit graph fuel p (i ∷ visiting) q) (graph i) d)
              (λ q. ended (i ∷ q)) d' (rw (fresh, new) at e) in
          let parents =
            over-IsVisited (λ p q. visit graph fuel p (i ∷ visiting) q)
              (λ p q q'. visit-IsVisited fuel p (i ∷ visiting) q q') (graph i) d d1 o below in
          let same = ended-injective above in
          record {
            ordered = subst IsOrdered same (parents.has_all, parents.ordered);
            has_all = λ x m. subst (In x) same (only_one i x (i ∷ d1) (In-head i d1) m);
            keeps = λ x m. subst (In x) same (In-tail x i d1 (parents.keeps x m));
          }
    ]
  ]

  -- From one operation to another by one parent or more.
  pub data Above : ℕ → ℕ → Type 0 where
    one : (i p : ℕ) → In p (graph i) → Above i p
    more : (i j p : ℕ) → Above i j → In p (graph j) → Above i p

  abbrev pub IsCyclic : Type 0
  IsCyclic = (i : ℕ) × Above i i

  pub over-IsCyclic :
      (go : ℕ → List ℕ → Walk) (ids : List ℕ)
      → ((i : ℕ) (d : List ℕ) → In i ids → go i d ≡ cyclic → IsCyclic)
      → (d : List ℕ) → over go ids d ≡ cyclic
      → IsCyclic
  unfolding over
  over-IsCyclic go [] found d e = cc
  over-IsCyclic go (i ∷ ids) found d e = elim (onward-cyclic (go i d) (over go ids) e) [
    | inl here ↦ found i d (In-head i ids) here
    | inr (d1, first, rest) ↦ over-IsCyclic go ids (λ j q m. found j q (In-tail j i ids m)) d1 rest
  ]

  onward_added : (w : Walk) (i : ℕ) → onward w (λ d. ended (i ∷ d)) ≡ cyclic → w ≡ cyclic
  onward_added cyclic i e = refl
  onward_added spent i e = cc
  onward_added (ended d) i e = cc

  pub visit-IsCyclic :
      (fuel i : ℕ) (visiting d : List ℕ)
      → ((x : ℕ) → In x visiting → Above x i)
      → visit graph fuel i visiting d ≡ cyclic
      → IsCyclic
  unfolding visit
  visit-IsCyclic zero i visiting d leads e = cc
  visit-IsCyclic (suc fuel) i visiting d leads e = elim (Bool-cases (elem i visiting)) [
    | inl amid ↦ (i, leads i amid)
    | inr fresh ↦ elim (Bool-cases (elem i d)) [
      | inl was_done ↦ cc (rw (fresh, was_done) at e)
      | inr new ↦
          over-IsCyclic (λ p q. visit graph fuel p (i ∷ visiting) q) (graph i)
            (λ p q m f.
              visit-IsCyclic fuel p (i ∷ visiting) q
                (λ x n. elim (In-cons x i visiting n) [
                  | inl same ↦ subst (λ y. Above y p) (sym same) (one i p m)
                  | inr older ↦ more x i p (leads x older) m
                ])
                f)
            d (onward_added _ i (rw (fresh, new) at e))
    ]
  ]

-- An order for some parents is one for part of them.
pub IsOrdered-part :
    (g h : ℕ → List ℕ) (done : List ℕ)
    → ((i : ℕ) → Within (h i) (g i))
    → IsOrdered g done
    → IsOrdered h done
IsOrdered-part g h [] part o = tt
IsOrdered-part g h (x ∷ done) part (all_here, o) =
    (λ p m. all_here p (part x p m), IsOrdered-part g h done part o)
