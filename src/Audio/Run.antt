-- ===== src/Audio/Run.antt =====
-- The calls of a jitter buffer in any order: what is pushed and what is played.
use hbb_common.Common.{
  ℕ, ◌+◌, ◌-◌, ◌^◌, ◌≤◌, ◌<◌, ◌≡◌, refl, sym, ap, subst, ◌∙◌, arith, Bool, true, false, Option,
  none, some, List, [], ◌∷◌, length, Outcome, ok, err, panic, ltb, ◌||◌, ◌==◌, reject_if, ◌>>◌,
  ok-injective,
}
use hbb_common.Common.OrderedMap.{total}
use hbb_common.Audio.Types.{
  AudioPacket, AudioDatagramError, AudioPlayoutItem, invalid_jitter_config, AudioJitterConfig,
}
use hbb_common.Audio.Jitter.{
  AudioJitterBuffer, size, fresh_jitter, new_jitter, push_valid, on_ok, check_packet, push,
  pop_ready,
}
use hbb_common.Audio.Stored.{least, IsStored}
use hbb_common.Audio.Push.{Pushed, push_valid-Pushed}
use hbb_common.Audio.Playout.{floor, low, number, Between, Popped, pop_ready-Popped}

pub data JitterCall : Type 0 where
  pushed : AudioPacket → ℕ → JitterCall
  popped : ℕ → JitterCall

abbrev pub with_item : Option AudioPlayoutItem → List AudioPlayoutItem → List AudioPlayoutItem
with_item none items = items
with_item (some i) items = i ∷ items

-- The calls in turn, with the items that they return.
abbrev pub run : List JitterCall → AudioJitterBuffer → List AudioPlayoutItem × AudioJitterBuffer
run [] b = ([], b)
run (pushed p now ∷ calls) b = run calls (push b p now).1
run (popped now ∷ calls) b =
    let (item, next) = pop_ready b now in
    let (items, last) = run calls next in (with_item item items, last)

-- The packets that are pushed have sequence numbers below a bound.
abbrev pub Numbered : ℕ → List JitterCall → Type 0
Numbered top [] = Unit {0}
Numbered top (pushed p now ∷ calls) = (p.metadata.sequence_number < top) × Numbered top calls
Numbered top (popped now ∷ calls) = Numbered top calls

-- The numbers of the items ascend strictly from a number on.
abbrev pub Ascends : ℕ → List AudioPlayoutItem → Type 0
Ascends n [] = Unit {0}
Ascends n (i ∷ items) = (n ≤ number i) × Ascends (number i + 1) items

Ascends-mono : (m n : ℕ) (items : List AudioPlayoutItem) → m ≤ n → Ascends n items → Ascends m items
Ascends-mono m n [] h a = tt
Ascends-mono m n (i ∷ items) h a = (omega (arith, a.0), a.1)

with_item-Ascends :
    (m n : ℕ) (item : Option AudioPlayoutItem) (items : List AudioPlayoutItem)
    → Between m item n
    → Ascends n items
    → Ascends m (with_item item items)
with_item-Ascends m n none items h a = Ascends-mono m n items h a
with_item-Ascends m n (some i) items h a =
    (h.0, Ascends-mono (number i + 1) n items (omega (arith, h.1)) a)

module _ (top : ℕ) (t : top ≤ 2 ^ 64) where
  push-Pushed :
      (b : AudioJitterBuffer) (p : AudioPacket) (now : ℕ)
      → IsStored top b
      → p.metadata.sequence_number < top
      → Pushed top b (push b p now).1
  unfolding push
  push-Pushed b p now v h = by_check (check_packet p)
    where
      same : Pushed top b b
      same = record { stored = v; config = refl; started = refl; advances = λ u h. omega arith }

      by_check :
          (o : Outcome AudioDatagramError (Unit {0}))
          → Pushed top b (on_ok o b (push_valid b p now)).1
      by_check (ok u) = push_valid-Pushed top t b p now v h
      by_check (err e) = same
      by_check panic = same

  run-IsStored :
      (calls : List JitterCall) (b : AudioJitterBuffer)
      → IsStored top b
      → Numbered top calls
      → IsStored top (run calls b).1 × ((run calls b).1.config ≡ b.config)
  run-IsStored [] b v n = (v, refl)
  run-IsStored (pushed p now ∷ calls) b v n =
      let q : Pushed top b (push b p now).1 = push-Pushed b p now v n.0 in
      let (w, same) = run-IsStored calls (push b p now).1 q.stored n.1 in (w, same ∙ q.config)
  run-IsStored (popped now ∷ calls) b v n =
      let q : Popped top b (pop_ready b now) = pop_ready-Popped top t b now v in
      let (w, same) = run-IsStored calls (pop_ready b now).1 q.stored n in (w, same ∙ q.config)

floor_grows :
    (s r : Bool) (o q : Option ℕ) → r ≡ s → (s ≡ true → least o ≤ least q) → floor s o ≤ floor r q
floor_grows false r o q e h = omega arith
floor_grows true true o q e h = h refl
floor_grows true false o q e h = cc

pushed_low : (top : ℕ) (b c : AudioJitterBuffer) → top < 2 ^ 64 → Pushed top b c → low b ≤ low c
pushed_low top b c u p =
    floor_grows b.playout_started c.playout_started b.next_sequence c.next_sequence p.started
      (p.advances u)

run-Ascends :
    (calls : List JitterCall) (b : AudioJitterBuffer)
    → IsStored (2 ^ 64 - 1) b
    → Numbered (2 ^ 64 - 1) calls
    → Ascends (low b) (run calls b).0
run-Ascends [] b v n = tt
run-Ascends (pushed p now ∷ calls) b v n =
    let q : Pushed (2 ^ 64 - 1) b (push b p now).1 =
      push-Pushed (2 ^ 64 - 1) (omega arith) b p now v n.0 in
    Ascends-mono (low b) (low (push b p now).1) (run calls (push b p now).1).0
      (pushed_low (2 ^ 64 - 1) b (push b p now).1 (omega arith) q)
      (run-Ascends calls (push b p now).1 q.stored n.1)
run-Ascends (popped now ∷ calls) b v n =
    let q : Popped (2 ^ 64 - 1) b (pop_ready b now) =
      pop_ready-Popped (2 ^ 64 - 1) (omega arith) b now v in
    with_item-Ascends (low b) (low (pop_ready b now).1) (pop_ready b now).0
      (run calls (pop_ready b now).1).0 (q.between (omega arith))
      (run-Ascends calls (pop_ready b now).1 q.stored n)

new_jitter-fresh :
    (config : AudioJitterConfig) (b : AudioJitterBuffer)
    → new_jitter config ≡ ok b
    → fresh_jitter config ≡ b
unfolding new_jitter
new_jitter-fresh config b h =
    by_test
      (config.max_packets == 0
        || (config.max_memory_bytes == 0
            || (config.start_packets == 0
                || (ltb config.max_packets config.start_packets
                    || ltb config.max_packet_age config.playout_delay))))
      h
  where
    by_test :
        (t : Bool)
        → (reject_if t invalid_jitter_config >> ok (fresh_jitter config)) ≡ ok b
        → fresh_jitter config ≡ b
    by_test true h = cc
    by_test false h = ok-injective (fresh_jitter config) b h

fresh_jitter-IsStored :
    (top : ℕ) (config : AudioJitterConfig)
    → config.max_memory_bytes < 2 ^ 64 - 1
    → IsStored top (fresh_jitter config)
unfolding total
fresh_jitter-IsStored top config h = record {
  ascending = tt;
  emptied = λ e. refl;
  below = tt;
  counted = refl;
  few = omega arith;
  small = omega arith;
  memory = h;
}

module _ (config : AudioJitterConfig) (b : AudioJitterBuffer) (made : new_jitter config ≡ ok b)
    (memory : config.max_memory_bytes < 2 ^ 64 - 1) (calls : List JitterCall) where
  -- From a new buffer whose memory limit is below 2^64 - 1, after any pushes of packets with 64-bit
  -- sequence numbers and any pops, the buffer holds at most `max_packets` packets, its count of
  -- bytes is that of their payloads, and it is at most `max_memory_bytes`.
  pub run-bounded :
      Numbered (2 ^ 64) calls
      → let c = (run calls b).1 in
        (length c.packets ≤ config.max_packets)
        × (c.buffered_bytes ≡ total size c.packets)
        × (c.buffered_bytes ≤ config.max_memory_bytes)
  run-bounded n =
      let (v, same) =
        run-IsStored (2 ^ 64) (omega arith) calls b
          (subst (λ c. IsStored (2 ^ 64) c) (new_jitter-fresh config b made)
            (fresh_jitter-IsStored (2 ^ 64) config memory))
          n in
      let kept : (run calls b).1.config ≡ config =
        same ∙ ap (λ c. c.config) (sym (new_jitter-fresh config b made)) in
      (
        omega (arith, v.few, ap (λ c. c.max_packets) kept),
        v.counted,
        omega (arith, v.small, ap (λ c. c.max_memory_bytes) kept),
      )

  -- From a new buffer whose memory limit is below 2^64 - 1, with any pushes of packets whose
  -- sequence numbers are below 2^64 - 1 and any pops, the items that are played, packets and losses,
  -- have strictly ascending sequence numbers.
  pub run-in_order : Numbered (2 ^ 64 - 1) calls → Ascends 0 (run calls b).0
  run-in_order n =
      subst (λ m. Ascends m (run calls b).0) (ap low (sym (new_jitter-fresh config b made)))
        (run-Ascends calls b
          (subst (λ c. IsStored (2 ^ 64 - 1) c) (new_jitter-fresh config b made)
            (fresh_jitter-IsStored (2 ^ 64 - 1) config memory))
          n)
