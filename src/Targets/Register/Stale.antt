-- ===== src/Targets/Register/Stale.antt =====
-- When a trial of the register fails.
use kernel_bridge_concurrent.Common.{
  ◌≡◌, refl, sym, ap, ◌∙◌, subst, ◌↔◌, inl, inr, true, false, none, some, List, [], ◌∷◌, ◌++◌,
  append-nil, append_assoc, arith, Bool-cases,
}
use kernel_bridge_concurrent.Targets.Register.{
  RegisterOp, put, delete, get, noop, Register, same_value, empty_register, acted, logged,
  run_register,
}
use kernel_bridge_concurrent.Targets.Register.Deleted.{has_put, IsDeleted, IsStale, stale-mismatch}

-- The operations so far hold a put.
record HasPut (ops : List RegisterOp) : Type 0 where
  pub before : List RegisterOp
  pub since : List RegisterOp
  pub shape : ops ≡ before ++ put ∷ since

-- What the register holds after some operations.
data Holds (ops : List RegisterOp) (r : Register) : Type 0 where
  blank : r.expected ≡ none → r.actual ≡ none → Holds ops r
  live : r.expected ≡ some 1 → r.actual ≡ some 1 → HasPut ops → Holds ops r
  gone : r.expected ≡ none → r.actual ≡ some 1 → IsDeleted ops → Holds ops r

snoc-HasPut : (ops : List RegisterOp) (op : RegisterOp) → HasPut ops → HasPut (ops ++ op ∷ [])
snoc-HasPut ops op p = record {
  before = p.before;
  since = p.since ++ op ∷ [];
  shape = ap (λ l. l ++ op ∷ []) p.shape ∙ append_assoc p.before (put ∷ p.since) (op ∷ []);
}

has_put-snoc :
    (ops : List RegisterOp) (op : RegisterOp)
    → has_put ops ≡ false
    → has_put (op ∷ []) ≡ false
    → has_put (ops ++ op ∷ []) ≡ false
has_put-snoc [] op h i = i
has_put-snoc (put ∷ ops) op h i = cc
has_put-snoc (delete ∷ ops) op h i = has_put-snoc ops op h i
has_put-snoc (get ∷ ops) op h i = has_put-snoc ops op h i
has_put-snoc (noop ∷ ops) op h i = has_put-snoc ops op h i

snoc-IsDeleted :
    (ops : List RegisterOp) (op : RegisterOp)
    → has_put (op ∷ []) ≡ false
    → IsDeleted ops
    → IsDeleted (ops ++ op ∷ [])
snoc-IsDeleted ops op quiet d = record {
  before = d.before;
  between = d.between;
  since = d.since ++ op ∷ [];
  shape =
      ap (λ l. l ++ op ∷ []) d.shape
      ∙ append_assoc (d.before ++ put ∷ d.between) (delete ∷ d.since) (op ∷ []);
  not_put = has_put-snoc d.since op d.not_put quiet;
}

HasPut-IsDeleted : (ops : List RegisterOp) → HasPut ops → IsDeleted (ops ++ delete ∷ [])
HasPut-IsDeleted ops p = record {
  before = p.before;
  between = p.since;
  since = [];
  shape = ap (λ l. l ++ delete ∷ []) p.shape;
  not_put = refl;
}

snoc-IsStale : (ops : List RegisterOp) (op : RegisterOp) → IsStale ops → IsStale (ops ++ op ∷ [])
snoc-IsStale ops op s = record {
  earlier = s.earlier;
  later = s.later ++ op ∷ [];
  read_at = ap (λ l. l ++ op ∷ []) s.read_at ∙ append_assoc s.earlier (get ∷ s.later) (op ∷ []);
  deleted = s.deleted;
}

-- What is known after the operations so far.
record IsFollowed (ops : List RegisterOp) (r : Register) : Type 0 where
  pub holds : Holds ops r
  pub told : r.mismatch ≡ true → IsStale ops

quiet-Holds :
    (ops : List RegisterOp) (op : RegisterOp) (r q : Register)
    → has_put (op ∷ []) ≡ false
    → q.expected ≡ r.expected
    → q.actual ≡ r.actual
    → Holds ops r
    → Holds (ops ++ op ∷ []) q
quiet-Holds ops op r q quiet e a (blank x y) = blank (e ∙ x) (a ∙ y)
quiet-Holds ops op r q quiet e a (live x y p) = live (e ∙ x) (a ∙ y) (snoc-HasPut ops op p)
quiet-Holds ops op r q quiet e a (gone x y d) = gone (e ∙ x) (a ∙ y) (snoc-IsDeleted ops op quiet d)

delete-Holds :
    (ops : List RegisterOp) (r : Register)
    → Holds ops r
    → Holds (ops ++ delete ∷ []) (logged delete (acted delete r))
delete-Holds ops r (blank x y) = blank refl y
delete-Holds ops r (live x y p) = gone refl y (HasPut-IsDeleted ops p)
delete-Holds ops r (gone x y d) = gone refl y (snoc-IsDeleted ops delete refl d)

get-IsStale :
    (ops : List RegisterOp) (r : Register)
    → Holds ops r
    → same_value r.expected r.actual ≡ false
    → IsStale (ops ++ get ∷ [])
get-IsStale ops r (blank x y) h = cc
get-IsStale ops r (live x y p) h = cc
get-IsStale ops r (gone x y d) h = record { earlier = ops; later = []; read_at = refl; deleted = d }

step-IsFollowed :
    (ops : List RegisterOp) (op : RegisterOp) (r : Register)
    → IsFollowed ops r
    → IsFollowed (ops ++ op ∷ []) (logged op (acted op r))
step-IsFollowed ops put r f = record {
  holds = live refl refl (record { before = ops; since = []; shape = refl });
  told = λ h. snoc-IsStale ops put (f.told h);
}
step-IsFollowed ops delete r f = record {
  holds = delete-Holds ops r f.holds;
  told = λ h. snoc-IsStale ops delete (f.told h);
}
step-IsFollowed ops get r f = record {
  holds = quiet-Holds ops get r _ refl refl refl f.holds;
  told = λ h. elim (Bool-cases r.mismatch) [
    | inl before ↦ snoc-IsStale ops get (f.told before)
    | inr still ↦ get-IsStale ops r f.holds (ground (arith, h, still))
  ];
}
step-IsFollowed ops noop r f = record {
  holds = quiet-Holds ops noop r _ refl refl refl f.holds;
  told = λ h. snoc-IsStale ops noop (f.told h);
}

run-IsFollowed :
    (done ops : List RegisterOp) (r : Register)
    → IsFollowed done r
    → IsFollowed (done ++ ops) (run_register ops r)
unfolding run_register
run-IsFollowed done [] r f = subst (λ l. IsFollowed l r) (sym (append-nil done)) f
run-IsFollowed done (op ∷ ops) r f =
    let after = logged op (acted op r) in
    subst (λ l. IsFollowed l (run_register ops after)) (append_assoc done (op ∷ []) ops)
      (run-IsFollowed (done ++ op ∷ []) ops after (step-IsFollowed done op r f))

-- A run of the register mismatches exactly if it has a get after a put and a delete, with no put
-- since that delete.
pub mismatch_iff_IsStale :
    (ops : List RegisterOp) → ((run_register ops empty_register).mismatch ≡ true) ↔ IsStale ops
mismatch_iff_IsStale ops = (
  (run-IsFollowed [] ops empty_register (record { holds = blank refl refl; told = λ h. cc })).told,
  stale-mismatch ops,
)
