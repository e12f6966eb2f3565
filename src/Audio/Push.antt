-- ===== src/Audio/Push.antt =====
-- What a push does to the jitter buffer.
use hbb_common.Common.{
  ℕ, ◌^◌, ◌≤◌, ◌<◌, ◌≡◌, refl, sym, subst, arith, min, Bool, true, false, Option, none, some, List,
  [], length, ltb,
}
use hbb_common.Common.Saturating.{saturating_u64}
use hbb_common.Common.OrderedMap.{get, From, From-mono, put-From, put-Every, total-put_new}
use hbb_common.Audio.Types.{AudioPacket, AudioJitterStats, BufferedAudioPacket}
use hbb_common.Audio.Jitter.{
  AudioJitterBuffer, size, full, make_room, least_with, store, stored, is_late, is_buffered,
  too_far, push_valid,
}
use hbb_common.Audio.Stored.{least, IsStored}
use hbb_common.Audio.Room.{Roomy, make_room-Roomy}

-- What a push may do to the buffer.
pub record Pushed (top : ℕ) (b c : AudioJitterBuffer) : Type 0 where
  pub stored : IsStored top c
  pub config : c.config ≡ b.config
  pub started : c.playout_started ≡ b.playout_started
  pub advances :
      top < 2 ^ 64 → b.playout_started ≡ true → least b.next_sequence ≤ least c.next_sequence

least-least_with : (o : Option ℕ) (s : ℕ) → least (some (least_with o s)) ≤ s
unfolding least_with
least-least_with none s = omega arith
least-least_with (some n) s = omega arith

least_with-From :
    (o : Option ℕ) (s : ℕ) (es : List (ℕ × BufferedAudioPacket))
    → From (least o) es
    → (o ≡ none → es ≡ [])
    → From (least_with o s) es
unfolding least_with
least_with-From none s es a h = subst (λ es. From s es) (sym (h refl)) tt
least_with-From (some n) s es a h = From-mono (min n s) n es (omega arith) a

pub absent_of : (b : AudioJitterBuffer) (s : ℕ) → is_buffered b s ≡ false → get s b.packets ≡ none
unfolding is_buffered
absent_of b s h = by_get (get s b.packets) refl
  where
    by_get : (o : Option BufferedAudioPacket) → get s b.packets ≡ o → get s b.packets ≡ none
    by_get none e = e
    by_get (some p) e = cc

not_late :
    (b : AudioJitterBuffer) (s : ℕ)
    → b.playout_started ≡ true
    → is_late b s ≡ false
    → least b.next_sequence ≤ s
unfolding is_late
not_late b s h e = by_next b.next_sequence refl
  where
    by_next : (o : Option ℕ) → b.next_sequence ≡ o → least o ≤ s
    by_next none f = omega arith
    by_next (some n) f = ground arith

store_after :
    (b : AudioJitterBuffer) (p : AudioPacket) (now n : ℕ)
    → n ≤ least b.next_sequence
    → n ≤ p.metadata.sequence_number
    → n ≤ least (store b p now).next_sequence
unfolding store least_with
store_after b p now n h l = by_next b.next_sequence h
  where
    by_next : (o : Option ℕ) → n ≤ least o → n ≤ least_with o p.metadata.sequence_number
    by_next none h = l
    by_next (some m) h = omega arith

module _ (top : ℕ) (t : top ≤ 2 ^ 64) where
  store-IsStored :
      (b : AudioJitterBuffer) (p : AudioPacket) (now : ℕ)
      → IsStored top b
      → p.metadata.sequence_number < top
      → get p.metadata.sequence_number b.packets ≡ none
      → full b (length p.payload) ≡ false
      → IsStored top (store b p now)
  unfolding store full
  store-IsStored b p now v below absent h =
      let added =
        total-put_new size p.metadata.sequence_number (record { packet = p; arrived_at = now })
          b.packets absent in
      record {
        ascending =
            put-From (least_with b.next_sequence p.metadata.sequence_number)
              p.metadata.sequence_number (record { packet = p; arrived_at = now }) b.packets
              (least-least_with b.next_sequence p.metadata.sequence_number)
              (least_with-From b.next_sequence p.metadata.sequence_number b.packets v.ascending
                v.emptied);
        emptied = λ e. cc;
        below =
            put-Every (λ k p. (k < top) × (p.packet.metadata.sequence_number ≡ k))
              p.metadata.sequence_number (record { packet = p; arrived_at = now }) b.packets v.below
              (below, refl);
        counted = omega (arith, added.0, v.counted);
        few = ground (arith, added.1);
        small = ground (arith, v.memory);
        memory = v.memory;
      }

  pub stored-Pushed :
      (b : AudioJitterBuffer) (p : AudioPacket) (now : ℕ)
      → IsStored top b
      → p.metadata.sequence_number < top
      → is_late b p.metadata.sequence_number ≡ false
      → is_buffered b p.metadata.sequence_number ≡ false
      → Pushed top b (stored (make_room (length b.packets) b (length p.payload)) p now).1
  unfolding store
  stored-Pushed b p now v below e f =
      by_room (make_room (length b.packets) b (length p.payload))
        (make_room-Roomy top t (length p.payload) (length b.packets) b v (omega arith))
    where
      s : ℕ
      s = p.metadata.sequence_number

      by_room :
          (r : AudioJitterBuffer × Bool)
          → Roomy top (length p.payload) b r
          → Pushed top b (stored r p now).1
      by_room (c, false) m = record {
        stored = m.stored;
        config = m.cleared.config;
        started = m.cleared.started;
        advances = λ u h. m.cleared.advances u;
      }
      by_room (c, true) m = record {
        stored =
            store-IsStored c p now m.stored below (m.cleared.absent s (absent_of b s f))
              (m.room refl);
        config = m.cleared.config;
        started = m.cleared.started;
        advances = λ u h.
            store_after c p now (least b.next_sequence) (m.cleared.advances u) (not_late b s h e);
      }

  -- A push leaves the buffer in order, and playing does not go back.
  pub push_valid-Pushed :
      (b : AudioJitterBuffer) (p : AudioPacket) (now : ℕ)
      → IsStored top b
      → p.metadata.sequence_number < top
      → Pushed top b (push_valid b p now).1
  unfolding push_valid
  push_valid-Pushed b p now v below =
      by_late (is_late b s) refl (is_buffered b s) refl (too_far b s) refl
        (ltb b.config.max_memory_bytes len) refl
    where
      s : ℕ
      s = p.metadata.sequence_number

      len : ℕ
      len = length p.payload

      same : Pushed top b b
      same = record { stored = v; config = refl; started = refl; advances = λ u h. omega arith }

      other : (n : AudioJitterStats) → Pushed top b (record b { stats = n })
      other n = record { stored = v; config = refl; started = refl; advances = λ u h. omega arith }

      by_late :
          (late : Bool)
          → is_late b s ≡ late
          → (dup : Bool) → is_buffered b s ≡ dup
          → (far : Bool) → too_far b s ≡ far
          → (big : Bool) → ltb b.config.max_memory_bytes len ≡ big
          → Pushed top b (push_valid b p now).1
      by_late true e dup f far g big h =
          rw e (other (record b.stats { late_packets = saturating_u64 b.stats.late_packets 1 }))
      by_late false e true f far g big h =
          rw (e, f)
            (other
              (record b.stats { duplicate_packets = saturating_u64 b.stats.duplicate_packets 1 }))
      by_late false e false f true g big h = rw (e, f, g) same
      by_late false e false f false g true h = rw (e, f, g, h) same
      by_late false e false f false g false h = rw (e, f, g, h) (stored-Pushed b p now v below e f)
