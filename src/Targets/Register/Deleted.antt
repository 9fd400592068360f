-- ===== src/Targets/Register/Deleted.antt =====
-- A deletion that the register does not see.
use kernel_bridge_concurrent.Common.{
  ◌≡◌, refl, ap, ◌∙◌, Bool, true, false, none, some, List, [], ◌∷◌, ◌++◌, arith,
}
use kernel_bridge_concurrent.Targets.Register.{
  RegisterOp, put, delete, get, noop, Register, same_value, empty_register, acted, logged,
  run_register,
}

abbrev pub has_put : List RegisterOp → Bool
has_put [] = false
has_put (put ∷ ops) = true
has_put (delete ∷ ops) = has_put ops
has_put (get ∷ ops) = has_put ops
has_put (noop ∷ ops) = has_put ops

-- A put, later a delete, and no put after that.
pub record IsDeleted (ops : List RegisterOp) : Type 0 where
  pub before : List RegisterOp
  pub between : List RegisterOp
  pub since : List RegisterOp
  pub shape : ops ≡ before ++ put ∷ between ++ delete ∷ since
  pub not_put : has_put since ≡ false

-- A get of a deleted key.
pub record IsStale (ops : List RegisterOp) : Type 0 where
  pub earlier : List RegisterOp
  pub later : List RegisterOp
  pub read_at : ops ≡ earlier ++ get ∷ later
  pub deleted : IsDeleted earlier

pub run_register-append :
    (a b : List RegisterOp) (r : Register)
    → run_register (a ++ b) r ≡ run_register b (run_register a r)
unfolding run_register
run_register-append [] b r = refl
run_register-append (op ∷ a) b r = run_register-append a b (logged op (acted op r))

mismatch_stays :
    (ops : List RegisterOp) (r : Register)
    → r.mismatch ≡ true
    → (run_register ops r).mismatch ≡ true
unfolding run_register
mismatch_stays [] r h = h
mismatch_stays (put ∷ ops) r h = mismatch_stays ops _ h
mismatch_stays (delete ∷ ops) r h = mismatch_stays ops _ h
mismatch_stays (get ∷ ops) r h = mismatch_stays ops _ (ground (arith, h))
mismatch_stays (noop ∷ ops) r h = mismatch_stays ops _ h

value_stays :
    (ops : List RegisterOp) (r : Register)
    → r.actual ≡ some 1
    → (run_register ops r).actual ≡ some 1
unfolding run_register
value_stays [] r h = h
value_stays (put ∷ ops) r h = value_stays ops _ refl
value_stays (delete ∷ ops) r h = value_stays ops _ h
value_stays (get ∷ ops) r h = value_stays ops _ h
value_stays (noop ∷ ops) r h = value_stays ops _ h

deletion_stays :
    (ops : List RegisterOp) (r : Register)
    → has_put ops ≡ false
    → r.expected ≡ none
    → (run_register ops r).expected ≡ none
unfolding run_register
deletion_stays [] r quiet h = h
deletion_stays (put ∷ ops) r quiet h = cc
deletion_stays (delete ∷ ops) r quiet h = deletion_stays ops _ quiet refl
deletion_stays (get ∷ ops) r quiet h = deletion_stays ops _ quiet h
deletion_stays (noop ∷ ops) r quiet h = deletion_stays ops _ quiet h

-- What the register holds after a put, a delete and no put since.
deleted_values :
    (ops : List RegisterOp)
    → IsDeleted ops
    → ((run_register ops empty_register).expected ≡ none)
      × ((run_register ops empty_register).actual ≡ some 1)
unfolding run_register
deleted_values ops d =
    let told = run_register d.before empty_register in
    let held = logged put (acted put told) in
    let shown = run_register d.between held in
    let whole : run_register ops empty_register
        ≡ run_register d.since (logged delete (acted delete shown)) =
      ap (λ l. run_register l empty_register) d.shape
      ∙ run_register-append (d.before ++ put ∷ d.between) (delete ∷ d.since) empty_register
      ∙ ap (λ r. run_register d.since (logged delete (acted delete r)))
          (run_register-append d.before (put ∷ d.between) empty_register) in
    (
      ap (λ (r : Register). r.expected) whole ∙ deletion_stays d.since _ d.not_put refl,
      ap (λ (r : Register). r.actual) whole
          ∙ value_stays d.since _ (value_stays d.between held refl),
    )

pub stale-mismatch :
    (ops : List RegisterOp) → IsStale ops → (run_register ops empty_register).mismatch ≡ true
unfolding run_register
stale-mismatch ops s =
    let here = run_register s.earlier empty_register in
    let (gone, kept) = deleted_values s.earlier s.deleted in
    let apart : same_value here.expected here.actual ≡ false =
      ap (λ x. same_value x here.actual) gone ∙ ap (λ x. same_value none x) kept in
    ap (λ l. (run_register l empty_register).mismatch) s.read_at
    ∙ ap (λ (r : Register). r.mismatch)
        (run_register-append s.earlier (get ∷ s.later) empty_register)
    ∙ mismatch_stays s.later (logged get (acted get here)) (rw apart (ground arith))
