-- ===== src/Audio/Stored.antt =====
-- What the jitter buffer keeps true of its packets: they are at or after the next one to play, and
-- their bytes are counted.
use hbb_common.Common.{
  ℕ, suc, ◌-◌, ◌^◌, ◌≤◌, ◌<◌, ◌≡◌, refl, sym, ap, subst, ◌∙◌, arith, Bool, true, false, Option,
  none, some, List, [], ◌∷◌, length, ◌==◌, if◌then◌else◌,
}
use hbb_common.Common.Saturating.{checked_next}
use hbb_common.Common.OrderedMap.{
  get, delete, total, From, From-mono, Every, delete-From, delete_first, delete-Every, total-delete,
}
use hbb_common.Audio.Types.{AudioJitterConfig, BufferedAudioPacket}
use hbb_common.Audio.Jitter.{AudioJitterBuffer, size, take_out, skip, evict_from, evict_oldest}

abbrev pub least : Option ℕ → ℕ
least none = 0
least (some next) = next

-- The sequence numbers are below a bound, and are those of the packets.
abbrev pub Below : ℕ → List (ℕ × BufferedAudioPacket) → Type 0
Below top = Every (λ k p. (k < top) × (p.packet.metadata.sequence_number ≡ k))

pub record Stored (top : ℕ) (config : AudioJitterConfig) (packets : List (ℕ × BufferedAudioPacket))
    (next : Option ℕ) (bytes : ℕ) : Type 0 where
  pub ascending : From (least next) packets
  pub emptied : next ≡ none → packets ≡ []
  pub below : Below top packets
  pub counted : bytes ≡ total size packets
  pub few : length packets ≤ config.max_packets
  pub small : bytes ≤ config.max_memory_bytes
  pub memory : config.max_memory_bytes < 2 ^ 64 - 1

abbrev pub IsStored : ℕ → AudioJitterBuffer → Type 0
IsStored top b = Stored top b.config b.packets b.next_sequence b.buffered_bytes

module _ (top : ℕ) (t : top ≤ 2 ^ 64) where
  pub checked_next-From :
      (s : ℕ) (es : List (ℕ × BufferedAudioPacket))
      → From (suc s) es
      → Below top es
      → From (least (checked_next s)) es × (checked_next s ≡ none → es ≡ [])
  unfolding checked_next
  checked_next-From s [] a u = (tt, λ e. refl)
  checked_next-From s (e ∷ es) a u = ground (arith, a.0, u.0.0, t)

  module _ (b : AudioJitterBuffer) (v : IsStored top b) where
    -- Removing a packet keeps the count of the bytes.
    pub take_out-bytes :
        (k : ℕ) (p : BufferedAudioPacket)
        → get k b.packets ≡ some p
        → b.buffered_bytes - size p ≡ total size (delete k b.packets)
    take_out-bytes k p h =
        omega
          (arith, v.counted, total-delete size (least b.next_sequence) k p b.packets v.ascending h)

    pub delete_fewer :
        (k : ℕ) (p : BufferedAudioPacket)
        → get k b.packets ≡ some p
        → length (delete k b.packets) ≤ b.config.max_packets
    delete_fewer k p h =
        omega
          (arith, v.few, (total-delete size (least b.next_sequence) k p b.packets v.ascending h).1)

    pub take_out-IsStored :
        (k : ℕ) (p : BufferedAudioPacket) → get k b.packets ≡ some p → IsStored top (take_out k p b)
    unfolding take_out delete
    take_out-IsStored k p h = record {
      ascending = delete-From (least b.next_sequence) k b.packets v.ascending;
      emptied = λ e. ap (delete k) (v.emptied e);
      below =
          delete-Every (λ k p. (k < top) × (p.packet.metadata.sequence_number ≡ k)) k b.packets
            v.below;
      counted = take_out-bytes k p h;
      few = delete_fewer k p h;
      small = omega (arith, v.small);
      memory = v.memory;
    }

  -- The first packet goes, and the next sequence number moves past it.
  pub skip-From :
      (k : ℕ) (rest : List (ℕ × BufferedAudioPacket)) (n : ℕ)
      → n ≤ k
      → From (suc k) rest
      → Below top rest
      → From (least (skip (some n) k)) rest × (skip (some n) k ≡ none → rest ≡ [])
  unfolding skip
  skip-From k rest n h a u = by_next (n == k)
    where
      by_next :
          (found : Bool)
          → From (least (if found then checked_next k else some n)) rest
            × ((if found then checked_next k else some n) ≡ none → rest ≡ [])
      by_next true = checked_next-From k rest a u
      by_next false = (From-mono n (suc k) rest (omega arith) a, λ e. cc)

module _ (top : ℕ) (t : top ≤ 2 ^ 64) (b : AudioJitterBuffer) (v : IsStored top b) where
  evicted-IsStored :
      (k : ℕ) (p : BufferedAudioPacket) (rest : List (ℕ × BufferedAudioPacket))
      → b.packets ≡ (k, p) ∷ rest
      → IsStored top (record (take_out k p b) { next_sequence = skip b.next_sequence k })
  unfolding take_out get
  evicted-IsStored k p rest e =
      by_next b.next_sequence refl (subst (λ es. From (least b.next_sequence) es) e v.ascending)
        (subst (λ es. Below top es) e v.below)
    where
      here : get k b.packets ≡ some p
      here = rw e (ground arith)

      by_next :
          (o : Option ℕ)
          → b.next_sequence ≡ o
          → From (least b.next_sequence) ((k, p) ∷ rest)
          → Below top ((k, p) ∷ rest)
          → IsStored top (record (take_out k p b) { next_sequence = skip b.next_sequence k })
      by_next none f a u = absurd (cc (sym e ∙ v.emptied f))
      by_next (some n) f a u =
          let gone : delete k b.packets ≡ rest = ap (delete k) e ∙ delete_first (k, p) rest a.1 in
          let first : n ≤ k = subst (λ o. least o ≤ k) f a.0 in
          let (asc, emp) = skip-From top t k rest n first a.1 u.1 in
          record {
            ascending =
                subst (λ o. From (least (skip o k)) (delete k b.packets)) (sym f)
                  (subst (λ es. From (least (skip (some n) k)) es) (sym gone) asc);
            emptied = λ h. gone ∙ emp (ap (λ o. skip o k) (sym f) ∙ h);
            below = subst (λ es. Below top es) (sym gone) u.1;
            counted = take_out-bytes top t b v k p here;
            few = delete_fewer top t b v k p here;
            small = omega (arith, v.small);
            memory = v.memory;
          }

  evict_from-IsStored :
      (es : List (ℕ × BufferedAudioPacket)) → b.packets ≡ es → IsStored top (evict_from b es).0
  unfolding evict_from
  evict_from-IsStored [] e = v
  evict_from-IsStored ((k, p) ∷ rest) e = evicted-IsStored k p rest e

  pub evict_oldest-IsStored : IsStored top (evict_oldest b).0
  unfolding evict_oldest
  evict_oldest-IsStored = evict_from-IsStored b.packets refl
