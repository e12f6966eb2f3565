-- ===== src/Audio/Playout.antt =====
-- What a pop does to the jitter buffer.
use hbb_common.Common.{
  ℕ, suc, ◌+◌, ◌^◌, ◌≤◌, ◌<◌, ◌≡◌, refl, ap, subst, ◌∙◌, arith, Bool, true, false, Option, none,
  some, List, [], ◌∷◌,
}
use hbb_common.Common.Saturating.{checked_next, saturating_u64}
use hbb_common.Common.OrderedMap.{
  get, delete, delete_least, From, From-absent, Every-get, delete-Every,
}
use hbb_common.Audio.Types.{AudioPlayoutItem, packet, packet_loss, BufferedAudioPacket}
use hbb_common.Audio.Jitter.{
  AudioJitterBuffer, take_out, expired_keys, discard_keys, discard_expired, is_ready, pop_packet,
  gap_from, pop_gap, pop_next, pop_ready,
}
use hbb_common.Audio.Stored.{
  least, Below, IsStored, checked_next-From, take_out-IsStored, take_out-bytes, delete_fewer,
}

-- The least sequence number that can still be played.
abbrev pub floor : Bool → Option ℕ → ℕ
floor false next = 0
floor true next = least next

abbrev pub low : AudioJitterBuffer → ℕ
low b = floor b.playout_started b.next_sequence

abbrev pub number : AudioPlayoutItem → ℕ
number (packet p) = p.metadata.sequence_number
number (packet_loss sequence) = sequence

-- An item, if any, at or above the first number and below the second.
abbrev pub Between : ℕ → Option AudioPlayoutItem → ℕ → Type 0
Between m none n = m ≤ n
Between m (some i) n = (m ≤ number i) × (number i < n)

pub record Popped (top : ℕ) (b : AudioJitterBuffer)
    (r : Option AudioPlayoutItem × AudioJitterBuffer) : Type 0 where
  pub stored : IsStored top r.1
  pub config : r.1.config ≡ b.config
  pub between : top < 2 ^ 64 → Between (low b) r.0 (low r.1)

floor-le-least : (s : Bool) (o : Option ℕ) → floor s o ≤ least o
floor-le-least false o = omega arith
floor-le-least true o = omega arith

least-checked_next : (n : ℕ) → n + 1 < 2 ^ 64 → n < least (checked_next n)
unfolding checked_next
least-checked_next n h = ground arith

module _ (top : ℕ) (t : top ≤ 2 ^ 64) where
  discard_keys-IsStored :
      (ks : List ℕ) (b : AudioJitterBuffer)
      → IsStored top b
      → IsStored top (discard_keys ks b)
        × ((discard_keys ks b).config ≡ b.config)
        × (low (discard_keys ks b) ≡ low b)
  unfolding discard_keys take_out
  discard_keys-IsStored [] b v = (v, refl, refl)
  discard_keys-IsStored (k ∷ ks) b v = by_get (discard_keys-IsStored ks) (get k b.packets) refl
    where
      by_get :
          ((c : AudioJitterBuffer)
            → IsStored top c
            → IsStored top (discard_keys ks c)
              × ((discard_keys ks c).config ≡ c.config)
              × (low (discard_keys ks c) ≡ low c))
          → (o : Option BufferedAudioPacket) → get k b.packets ≡ o
          → IsStored top (discard_keys (k ∷ ks) b)
            × ((discard_keys (k ∷ ks) b).config ≡ b.config)
            × (low (discard_keys (k ∷ ks) b) ≡ low b)
      by_get rest none e = rw (discard_keys, e) (rest b v)
      by_get rest (some p) e =
          rw (discard_keys, e)
            (rest
              (record (take_out k p b) {
                stats = record b.stats { late_packets = saturating_u64 b.stats.late_packets 1 };
              })
              (take_out-IsStored top t b v k p e))

  module _ (b : AudioJitterBuffer) (v : IsStored top b) where
    waiting-Popped : Popped top b (none, b)
    waiting-Popped = record { stored = v; config = refl; between = λ u. omega arith }

    pop_packet-Popped :
        (now next : ℕ) (p : BufferedAudioPacket)
        → b.next_sequence ≡ some next
        → get next b.packets ≡ some p
        → Popped top b (pop_packet b now next p)
    unfolding pop_packet take_out
    pop_packet-Popped now next p f e = by_ready (is_ready b now p.arrived_at) refl
      where
        here : (next < top) × (p.packet.metadata.sequence_number ≡ next)
        here =
            Every-get (λ k p. (k < top) × (p.packet.metadata.sequence_number ≡ k)) next p b.packets
              v.below e

        after : From (suc next) (delete next b.packets)
        after = delete_least next b.packets (subst (λ o. From (least o) b.packets) f v.ascending)

        rest : Below top (delete next b.packets)
        rest =
            delete-Every (λ k p. (k < top) × (p.packet.metadata.sequence_number ≡ k)) next b.packets
              v.below

        by_ready :
            (r : Bool) → is_ready b now p.arrived_at ≡ r → Popped top b (pop_packet b now next p)
        by_ready false e = rw e waiting-Popped
        by_ready true g = rw g (record {
          stored = record {
            ascending = (checked_next-From top t next (delete next b.packets) after rest).0;
            emptied = (checked_next-From top t next (delete next b.packets) after rest).1;
            below = rest;
            counted = take_out-bytes top t b v next p e;
            few = delete_fewer top t b v next p e;
            small = omega (arith, v.small);
            memory = v.memory;
          };
          config = refl;
          between = λ u. (
            rw here.1 (omega (arith, floor-le-least b.playout_started b.next_sequence, ap least f)),
            rw here.1 (least-checked_next next (omega (arith, here.0))),
          );
        })

    pop_gap-Popped :
        (now next : ℕ)
        → b.next_sequence ≡ some next
        → get next b.packets ≡ none
        → Popped top b (pop_gap b now next)
    unfolding pop_gap gap_from
    pop_gap-Popped now next f e = by_packets b.packets refl
      where
        after : From (suc next) b.packets
        after = From-absent next b.packets (subst (λ o. From (least o) b.packets) f v.ascending) e

        by_packets :
            (es : List (ℕ × BufferedAudioPacket))
            → b.packets ≡ es
            → Popped top b (gap_from b now next es)
        by_packets [] g = waiting-Popped
        by_packets ((k, p) ∷ rest) g = by_ready (is_ready b now p.arrived_at) refl
          where
            first : (next < k) × (k < top)
            first = (
              (subst (λ es. From (suc next) es) g after).0,
              (subst (λ es. Below top es) g v.below).0.0,
            )

            by_ready :
                (r : Bool)
                → is_ready b now p.arrived_at ≡ r
                → Popped top b (gap_from b now next ((k, p) ∷ rest))
            by_ready false h = rw h waiting-Popped
            by_ready true h = rw h (record {
              stored = record {
                ascending = (checked_next-From top t next b.packets after v.below).0;
                emptied = (checked_next-From top t next b.packets after v.below).1;
                below = v.below;
                counted = v.counted;
                few = v.few;
                small = v.small;
                memory = v.memory;
              };
              config = refl;
              between = λ u. (
                omega (arith, floor-le-least b.playout_started b.next_sequence, ap least f),
                least-checked_next next (omega (arith, first.0, first.1)),
              );
            })

    pop_next-Popped : (now : ℕ) → Popped top b (pop_next b now)
    unfolding pop_next
    pop_next-Popped now = by_next b.next_sequence refl
      where
        by_get :
            (next : ℕ)
            → b.next_sequence ≡ some next
            → (o : Option BufferedAudioPacket) → get next b.packets ≡ o
            → Popped top b (pop_next b now)
        by_get next f none g = simp (pop_next, f, g) (pop_gap-Popped now next f g)
        by_get next f (some p) g = simp (pop_next, f, g) (pop_packet-Popped now next p f g)

        by_next : (o : Option ℕ) → b.next_sequence ≡ o → Popped top b (pop_next b now)
        by_next none f = simp (pop_next, f) waiting-Popped
        by_next (some next) f = by_get next f (get next b.packets) refl

  -- A pop leaves the buffer in order, and plays at or above the least number that can be played.
  pub pop_ready-Popped :
      (b : AudioJitterBuffer) (now : ℕ) → IsStored top b → Popped top b (pop_ready b now)
  unfolding pop_ready discard_expired
  pop_ready-Popped b now v =
      let (w, kept, same) = discard_keys-IsStored (expired_keys b.config now b.packets) b v in
      let c = discard_keys (expired_keys b.config now b.packets) b in
      let p : Popped top c (pop_next c now) = pop_next-Popped c w now in
      record {
        stored = p.stored;
        config = p.config ∙ kept;
        between = λ u.
            subst (λ n. Between n (pop_next c now).0 (low (pop_next c now).1)) same (p.between u);
      }
