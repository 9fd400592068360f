-- ===== src/Contract/Model/Fifo.antt =====
-- First in, first out: what a run of the reference model reads is what it wrote, in that order.
use kernel_bridge_concurrent.Common.{
  zero, suc, suc, ℕ, ◌-◌, min, ◌≡◌, ap, ◌∙◌, sym, pos, negsuc, ℤ, none, some, Option, List, [], ◌∷◌,
  ◌++◌, append-nil, append_assoc, length, take, drop, take-append-drop, arith,
}
use kernel_bridge_concurrent.Contract.Hex.{from_hex}
use kernel_bridge_concurrent.Contract.Hex.Laws.{Decoded, Decoded-from_hex, IsBytes, from_hex-hex}
use kernel_bridge_concurrent.Contract.Ops.{Op, read, write, resize, clear, capacity, Reply}
use kernel_bridge_concurrent.Contract.Model.{
  Model, write_bytes, read_bytes, resize_to, write_payload, apply,
}

-- The operations, their replies in the same order, and the model that they leave.
pub data Runs : Model → List Op → List Reply → Model → Type 0 where
  here : {m : Model} → Runs m [] [] m
  next :
      {m m' m'' : Model} {op : Op} {r : Reply} {ops : List Op} {rs : List Reply}
      → apply m op ≡ some (m', r)
      → Runs m' ops rs m''
      → Runs m (op ∷ ops) (r ∷ rs) m''

abbrev decode : Option (List ℕ) → List ℕ
decode none = []
decode (some bytes) = bytes

abbrev transferred : ℤ → List ℕ → List ℕ
transferred (pos n) bytes = take n bytes
transferred (negsuc _) bytes = []

abbrev delivered : Option (List ℕ) → List ℕ
delivered none = []
delivered (some text) = decode (from_hex text)

-- The bytes that the replies to the writes say were taken, in order.
abbrev pub sent : List Op → List Reply → List ℕ
sent (write text ∷ ops) (r ∷ rs) = transferred r.ret (decode (from_hex text)) ++ sent ops rs
sent (_ ∷ ops) (r ∷ rs) = sent ops rs
sent _ _ = []

-- The bytes that the replies to the reads carry, in order.
abbrev pub received : List Op → List Reply → List ℕ
received (read _ ∷ ops) (r ∷ rs) = delivered r.payload ++ received ops rs
received (_ ∷ ops) (r ∷ rs) = received ops rs
received _ _ = []

abbrev pub NoClear : List Op → Type 0
NoClear [] = Unit
NoClear (clear ∷ ops) = ⊥
NoClear (_ ∷ ops) = NoClear ops

pub IsBytes-append : (xs ys : List ℕ) → IsBytes xs → IsBytes ys → IsBytes (xs ++ ys)
IsBytes-append [] ys h k = k
IsBytes-append (x ∷ xs) ys h k = (h.0, IsBytes-append xs ys h.1 k)

pub IsBytes-take : (n : ℕ) (xs : List ℕ) → IsBytes xs → IsBytes (take n xs)
IsBytes-take zero xs h = tt
IsBytes-take (suc n) [] h = tt
IsBytes-take (suc n) (x ∷ xs) h = (h.0, IsBytes-take n xs h.1)

pub IsBytes-drop : (n : ℕ) (xs : List ℕ) → IsBytes xs → IsBytes (drop n xs)
IsBytes-drop zero xs h = h
IsBytes-drop (suc n) [] h = tt
IsBytes-drop (suc n) (x ∷ xs) h = IsBytes-drop n xs h.1

write_step :
    (m : Model) (decoded : Option (List ℕ)) {m' : Model} {r : Reply}
    → write_payload m decoded ≡ some (m', r)
    → m'.bytes ≡ m.bytes ++ transferred r.ret (decode decoded)
unfolding write_payload write_bytes
write_step m none e = cc
write_step m (some payload) e = ground (arith, append-nil m.bytes)

read_step :
    (m : Model) (wanted : ℕ)
    → IsBytes m.bytes
    → delivered (read_bytes m wanted).1.payload ++ (read_bytes m wanted).0.bytes ≡ m.bytes
unfolding read_bytes
read_step m wanted h =
    let count = min wanted (length m.bytes) in
    ground (
      arith,
      from_hex-hex (take count m.bytes) (IsBytes-take count m.bytes h),
      take-append-drop count m.bytes,
    )

write_payload-IsBytes :
    (m : Model) (decoded : Option (List ℕ)) {m' : Model} {r : Reply}
    → write_payload m decoded ≡ some (m', r)
    → Decoded decoded
    → IsBytes m.bytes
    → IsBytes m'.bytes
unfolding write_payload write_bytes
write_payload-IsBytes m none e d h = cc
write_payload-IsBytes m (some payload) e d h =
    let count = min (length payload) (m.capacity - length m.bytes) in
    ground (arith, IsBytes-append m.bytes (take count payload) h (IsBytes-take count payload d))

read_bytes-IsBytes :
    (m : Model) (wanted : ℕ) → IsBytes m.bytes → IsBytes (read_bytes m wanted).0.bytes
unfolding read_bytes
read_bytes-IsBytes m wanted h = ground (arith, IsBytes-drop (min wanted (length m.bytes)) m.bytes h)

bytes-resize_to : (m : Model) (requested : ℕ) → (resize_to m requested).0.bytes ≡ m.bytes
unfolding resize_to
bytes-resize_to m requested = ground arith

-- Every operation leaves bytes in the model.
pub apply-IsBytes :
    (m : Model) (op : Op) {m' : Model} {r : Reply}
    → apply m op ≡ some (m', r)
    → IsBytes m.bytes
    → IsBytes m'.bytes
unfolding apply
apply-IsBytes m (write text) e h =
    write_payload-IsBytes m (from_hex text) e (Decoded-from_hex text) h
apply-IsBytes m (read wanted) e h = ground (arith, read_bytes-IsBytes m wanted h)
apply-IsBytes m (resize requested) e h = ground (arith, bytes-resize_to m requested)
apply-IsBytes m clear e h = ground arith
apply-IsBytes m capacity e h = ground arith

-- Without a clear, the bytes read and the bytes left are the bytes at the start and the bytes
-- written.
pub received-sent :
    {m m' : Model} {ops : List Op} {rs : List Reply}
    → Runs m ops rs m'
    → IsBytes m.bytes
    → NoClear ops
    → received ops rs ++ m'.bytes ≡ m.bytes ++ sent ops rs
unfolding apply
received-sent {m} here h k = sym (append-nil m.bytes)
received-sent {m} (next {op = write text} {r} {ops} {rs} e run) h k =
    received-sent run (apply-IsBytes m (write text) e h) k
    ∙ ap (λ b. b ++ sent ops rs) (write_step m (from_hex text) e)
    ∙ append_assoc m.bytes (transferred r.ret (decode (from_hex text))) (sent ops rs)
received-sent {m} {m' = end} (next {m' = mid} {op = read wanted} {r} {ops} {rs} e run) h k =
    let ih = received-sent run (apply-IsBytes m (read wanted) e h) k in
    let front : delivered r.payload ++ mid.bytes ≡ m.bytes = ground (arith, read_step m wanted h) in
    cc (
      append_assoc (delivered r.payload) (received ops rs) end.bytes,
      append_assoc (delivered r.payload) mid.bytes (sent ops rs),
      ih,
      front,
    )
received-sent {m} (next {op = resize requested} {ops} {rs} e run) h k =
    received-sent run (apply-IsBytes m (resize requested) e h) k
    ∙ ap (λ b. b ++ sent ops rs) (ground (arith, bytes-resize_to m requested))
received-sent (next {op = clear} e run) h k = absurd k
received-sent {m} (next {op = capacity} {ops} {rs} e run) h k =
    received-sent run (apply-IsBytes m capacity e h) k ∙ ap (λ b. b ++ sent ops rs) (ground arith)
