-- ===== src/Runner/Replies.antt =====
-- The replies that `evaluate` compares.
use mathlib.Core.Option.{some-injective}
use kernel_bridge_concurrent.Common.{
  ℕ, ◌≡◌, refl, ap, ◌↔◌, if_pos, if_neg, Bool, true, false, Option, none, some, List, [], arith, ℤ,
  pos, negsuc,
}
use kernel_bridge_concurrent.Contract.Ops.{Reply, Text-discrete}
use kernel_bridge_concurrent.Runner.{
  Field, data_field, errno_field, ret_field, same_int, same_payload, unless, differing,
}

same_int_iff : (a b : ℤ) → (same_int a b ≡ true) ↔ (a ≡ b)
same_int_iff (pos a) (pos b) = (λ h. ap pos (ground arith), λ e. ground arith)
same_int_iff (negsuc a) (negsuc b) = (λ h. ap negsuc (ground arith), λ e. ground arith)
same_int_iff (pos a) (negsuc b) = (λ h. cc, λ e. cc)
same_int_iff (negsuc a) (pos b) = (λ h. cc, λ e. cc)

same_payload_iff : (a b : Option (List ℕ)) → (same_payload a b ≡ true) ↔ (a ≡ b)
same_payload_iff none none = (λ h. refl, λ e. refl)
same_payload_iff none (some b) = (λ h. cc, λ e. cc)
same_payload_iff (some a) none = (λ h. cc, λ e. cc)
same_payload_iff (some a) (some b) = elim (Text-discrete a b) [
  | yes same ↦ rw (if_pos _ same) (λ _. ap some same, λ _. refl)
  | no other ↦ rw (if_neg _ other) (λ h. cc, λ e. absurd (other (some-injective a b e)))
]

unless-nil :
    (b : Bool) (f : Field) (rest : List Field) → unless b f rest ≡ [] → (b ≡ true) × (rest ≡ [])
unless-nil true f rest h = (refl, h)
unless-nil false f rest h = cc

-- Two replies differ at no key exactly where they are equal.
pub differing-nil : (a b : Reply) → differing a b ≡ [] → a ≡ b
unfolding differing
differing-nil a b h =
    let (payloads, others) = unless-nil _ data_field _ h in
    let (errnos, rets) = unless-nil _ errno_field _ others in
    let (ints, _) = unless-nil _ ret_field _ rets in
    λ i. record {
      ret = (same_int_iff a.ret b.ret).0 ints i;
      errno = (same_int_iff a.errno b.errno).0 errnos i;
      payload = (same_payload_iff a.payload b.payload).0 payloads i;
    }

pub differing_self : (a : Reply) → differing a a ≡ []
unfolding differing
differing_self a = rw (
  (same_payload_iff a.payload a.payload).1 refl,
  (same_int_iff a.errno a.errno).1 refl,
  (same_int_iff a.ret a.ret).1 refl,
)
