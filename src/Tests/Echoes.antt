-- ===== src/Tests/Echoes.antt =====
-- A transport that takes at most two bytes and gives at most three at a time.
use mathlib.Core.Option.{some-injective}
use kernel_bridge_concurrent.Benchmark.{spent}
use kernel_bridge_concurrent.Common.{take-append-drop, refl}
use kernel_bridge_concurrent.Common.{
  ℕ, min, ◌≡◌, refl, sym, ap, ◌∙◌, ◌≢◌, some, List, [], ◌∷◌, ◌++◌, length, take, drop, ℤ, pos,
}
use kernel_bridge_concurrent.Benchmark.{
  Transport, Calls, done, spent, send_all, receive_all, exchange,
}
use kernel_bridge_concurrent.Benchmark.Echo.{IsFifo, exchange-held}
use kernel_bridge_concurrent.Benchmark.Ends.{exchange-ne-spent}

abbrev pipe : Transport (List ℕ)
pipe = record {
  send = λ t bytes. some (t ++ take (min 2 (length bytes)) bytes, pos (min 2 (length bytes)));
  receive = λ t limit. some (drop (min 3 limit) t, take (min 3 limit) t);
}

pos-injective : (m n : ℕ) → pos m ≡ pos n → m ≡ n
pos-injective m n e = cc

pipe-IsFifo : IsFifo pipe (λ t. t)
pipe-IsFifo = record {
  takes = λ t t' bytes n e.
      let same =
        some-injective (t ++ take (min 2 (length bytes)) bytes, pos (min 2 (length bytes)))
          (t', pos n) e in
      sym (ap (λ (p : List ℕ × ℤ). p.0) same)
      ∙ ap (λ m. t ++ take m bytes) (pos-injective _ n (ap (λ (p : List ℕ × ℤ). p.1) same));
  gives = λ t t' limit bytes e.
      let same = some-injective (drop (min 3 limit) t, take (min 3 limit) t) (t', bytes) e in
      sym (take-append-drop (min 3 limit) t) ∙ ap (λ (p : List ℕ × List ℕ). p.1 ++ p.0) same;
}

abbrev payload : List ℕ
payload = 1 ∷ 2 ∷ 3 ∷ 4 ∷ 5 ∷ []

abbrev nothing : List ℕ
nothing = []

abbrev writes : Calls
writes = record { number = 3; short = 2 }

abbrev reads : Calls
reads = record { number = 2; short = 1 }

exchange-pipe : exchange pipe [] payload ≡ done ([], payload, writes, reads)
unfolding exchange send_all receive_all
exchange-pipe = refl

exchange-held_example : (payload ≡ payload) × (nothing ≡ [])
exchange-held_example =
    exchange-held pipe (λ t. t) pipe-IsFifo [] [] payload payload writes reads refl exchange-pipe

exchange-ne-spent_example : exchange pipe [] payload ≢ spent
exchange-ne-spent_example = exchange-ne-spent pipe [] payload
