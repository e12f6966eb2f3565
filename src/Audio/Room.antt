-- ===== src/Audio/Room.antt =====
-- How the jitter buffer makes room for a packet.
use hbb_common.Common.{
  ℕ, zero, suc, ◌+◌, ◌^◌, ◌≤◌, ◌<◌, ◌≡◌, refl, sym, ap, subst, ◌∙◌, arith, Bool, true, false,
  Option, none, some, List, [], ◌∷◌, length, ◌==◌,
}
use hbb_common.Common.Saturating.{checked_next}
use hbb_common.Common.OrderedMap.{get, delete, get-delete, total-delete}
use hbb_common.Audio.Types.{BufferedAudioPacket}
use hbb_common.Audio.Jitter.{
  AudioJitterBuffer, size, take_out, skip, evict_from, evict_oldest, full, make_room,
}
use hbb_common.Audio.Stored.{least, Below, IsStored, evict_oldest-IsStored}

-- What an eviction leaves as it is, and how the next sequence number moves.
pub record Cleared (top : ℕ) (b c : AudioJitterBuffer) : Type 0 where
  pub config : c.config ≡ b.config
  pub started : c.playout_started ≡ b.playout_started
  pub absent : (k : ℕ) → get k b.packets ≡ none → get k c.packets ≡ none
  pub waits :
      (k : ℕ) → get k b.packets ≡ none → least b.next_sequence ≤ k → least c.next_sequence ≤ k
  pub advances : top < 2 ^ 64 → least b.next_sequence ≤ least c.next_sequence

pub Cleared-refl : (top : ℕ) (b : AudioJitterBuffer) → Cleared top b b
Cleared-refl top b = record {
  config = refl;
  started = refl;
  absent = λ k h. h;
  waits = λ k h l. l;
  advances = λ t. omega arith;
}

pub Cleared-trans :
    (top : ℕ) (a b c : AudioJitterBuffer) → Cleared top a b → Cleared top b c → Cleared top a c
Cleared-trans top a b c x y = record {
  config = y.config ∙ x.config;
  started = y.started ∙ x.started;
  absent = λ k h. y.absent k (x.absent k h);
  waits = λ k h l. y.waits k (x.absent k h) (x.waits k h l);
  advances = λ t. omega (arith, x.advances t, y.advances t);
}

pub skip_bounds :
    (o : Option ℕ) (k : ℕ)
    → ((j : ℕ) → (k == j) ≡ false → least o ≤ j → least (skip o k) ≤ j)
      × (k + 1 < 2 ^ 64 → least o ≤ least (skip o k))
unfolding skip checked_next
skip_bounds none k = (λ j h l. l, λ h. omega arith)
skip_bounds (some n) k = (λ j h l. ground arith, λ h. ground arith)

pub get-delete_absent :
    (j k : ℕ) (es : List (ℕ × BufferedAudioPacket)) → get j es ≡ none → get j (delete k es) ≡ none
get-delete_absent j k es h = ground (arith, get-delete j k es)

get_first :
    (j k : ℕ) (p : BufferedAudioPacket) (rest : List (ℕ × BufferedAudioPacket))
    → get j ((k, p) ∷ rest) ≡ none
    → (k == j) ≡ false
unfolding get
get_first j k p rest h = ground arith

evict_from-Cleared :
    (top : ℕ) (b : AudioJitterBuffer) (v : IsStored top b) (es : List (ℕ × BufferedAudioPacket))
    → b.packets ≡ es
    → Cleared top b (evict_from b es).0
unfolding evict_from take_out
evict_from-Cleared top b v [] e = Cleared-refl top b
evict_from-Cleared top b v ((k, p) ∷ rest) e =
    let first : (k < top) × (p.packet.metadata.sequence_number ≡ k) =
      (subst (λ es. Below top es) e v.below).0 in
    record {
      config = refl;
      started = refl;
      absent = λ j h. get-delete_absent j k b.packets h;
      waits = λ j h l.
          (skip_bounds b.next_sequence k).0 j (get_first j k p rest (ap (get j) (sym e) ∙ h)) l;
      advances = λ u. (skip_bounds b.next_sequence k).1 (omega (arith, first.0));
    }

evict_oldest-Cleared :
    (top : ℕ) (b : AudioJitterBuffer) → IsStored top b → Cleared top b (evict_oldest b).0
unfolding evict_oldest
evict_oldest-Cleared top b v = evict_from-Cleared top b v b.packets refl

-- An eviction that finds a packet leaves one less.
evict_from-fewer :
    (top : ℕ) (b : AudioJitterBuffer) (v : IsStored top b) (es : List (ℕ × BufferedAudioPacket))
    → b.packets ≡ es
    → ((evict_from b es).1 ≡ true → length (evict_from b es).0.packets + 1 ≡ length b.packets)
      × ((evict_from b es).1 ≡ false → ((evict_from b es).0 ≡ b) × (length b.packets ≡ 0))
unfolding evict_from take_out get
evict_from-fewer top b v [] e = (λ h. cc, λ h. (refl, ap length e))
evict_from-fewer top b v ((k, p) ∷ rest) e = (
  λ h.
      (total-delete size (least b.next_sequence) k p b.packets v.ascending (rw e (ground arith))).1,
  λ h. cc,
)

evict_oldest-fewer :
    (top : ℕ) (b : AudioJitterBuffer)
    → IsStored top b
    → ((evict_oldest b).1 ≡ true → length (evict_oldest b).0.packets + 1 ≡ length b.packets)
      × ((evict_oldest b).1 ≡ false → ((evict_oldest b).0 ≡ b) × (length b.packets ≡ 0))
unfolding evict_oldest
evict_oldest-fewer top b v = evict_from-fewer top b v b.packets refl

module _ (fuel : ℕ) (b : AudioJitterBuffer) (len : ℕ) where
  make_room-done : full b len ≡ false → make_room fuel b len ≡ (b, true)
  unfolding make_room
  make_room-done h = by_fuel fuel
    where
      by_fuel : (n : ℕ) → make_room n b len ≡ (b, true)
      by_fuel zero = simp h refl
      by_fuel (suc n) = rw (make_room, h) refl

  make_room-next :
      full b len ≡ true
      → (evict_oldest b).1 ≡ true
      → make_room (suc fuel) b len ≡ make_room fuel (evict_oldest b).0 len
  unfolding make_room
  make_room-next h e = rw (make_room, h, e) refl

  make_room-stuck :
      full b len ≡ true
      → (evict_oldest b).1 ≡ false
      → make_room (suc fuel) b len ≡ ((evict_oldest b).0, false)
  unfolding make_room
  make_room-stuck h e = rw (make_room, h, e) refl

make_room-zero :
    (b : AudioJitterBuffer) (len : ℕ) → full b len ≡ true → make_room 0 b len ≡ (b, false)
unfolding make_room
make_room-zero b len h = simp h refl

-- What making room comes to: a buffer in order, with room or with nothing left.
pub record Roomy (top : ℕ) (len : ℕ) (b : AudioJitterBuffer) (r : AudioJitterBuffer × Bool)
    : Type 0 where
  pub stored : IsStored top r.0
  pub cleared : Cleared top b r.0
  pub room : r.1 ≡ true → full r.0 len ≡ false
  pub empty : r.1 ≡ false → (full r.0 len ≡ true) × (length r.0.packets ≡ 0)

module _ (top : ℕ) (t : top ≤ 2 ^ 64) (len : ℕ) where
  pub make_room-Roomy :
      (fuel : ℕ) (b : AudioJitterBuffer)
      → IsStored top b
      → length b.packets ≤ fuel
      → Roomy top len b (make_room fuel b len)
  unfolding make_room
  make_room-Roomy zero b v h = record {
    stored = v;
    cleared = Cleared-refl top b;
    room = λ e. ground arith;
    empty = λ e. (ground arith, omega arith);
  }
  make_room-Roomy (suc fuel) b v h =
      by_full (make_room-Roomy fuel (evict_oldest b).0 (evict_oldest-IsStored top t b v))
        (full b len) refl (evict_oldest b).1 refl
    where
      by_full :
          (length (evict_oldest b).0.packets ≤ fuel
            → Roomy top len (evict_oldest b).0 (make_room fuel (evict_oldest b).0 len))
          → (f : Bool) → full b len ≡ f
          → (found : Bool) → (evict_oldest b).1 ≡ found
          → Roomy top len b (make_room (suc fuel) b len)
      by_full rest false e found g =
          rw (make_room-done (suc fuel) b len e)
            (record { stored = v; cleared = Cleared-refl top b; room = λ u. e; empty = λ u. cc })
      by_full rest true e false g =
          let (same, none_left) = (evict_oldest-fewer top b v).1 g in
          rw (make_room-stuck fuel b len e g) (record {
            stored = evict_oldest-IsStored top t b v;
            cleared = evict_oldest-Cleared top b v;
            room = λ u. cc;
            empty =
                λ u. (ap (λ c. full c len) same ∙ e, ap (λ c. length c.packets) same ∙ none_left);
          })
      by_full rest true e true g =
          let r : Roomy top len (evict_oldest b).0 (make_room fuel (evict_oldest b).0 len) =
            rest (omega (arith, h, (evict_oldest-fewer top b v).0 g)) in
          rw (make_room-next fuel b len e g) (record {
            stored = r.stored;
            cleared =
                Cleared-trans top b (evict_oldest b).0 (make_room fuel (evict_oldest b).0 len).0
                  (evict_oldest-Cleared top b v) r.cleared;
            room = r.room;
            empty = r.empty;
          })

  -- Fuel beyond the number of packets changes nothing.
  make_room-step :
      (fuel : ℕ) (b : AudioJitterBuffer)
      → IsStored top b
      → length b.packets ≤ fuel
      → make_room (suc fuel) b len ≡ make_room fuel b len
  make_room-step zero b v h = by_full (full b len) refl (evict_oldest b).1 refl
    where
      by_full :
          (f : Bool)
          → full b len ≡ f
          → (found : Bool) → (evict_oldest b).1 ≡ found
          → make_room 1 b len ≡ make_room 0 b len
      by_full false e found g = make_room-done 1 b len e ∙ sym (make_room-done 0 b len e)
      by_full true e false g =
          let same : (evict_oldest b).0 ≡ b = ((evict_oldest-fewer top b v).1 g).0 in
          make_room-stuck 0 b len e g ∙ ap (λ c. (c, false)) same ∙ sym (make_room-zero b len e)
      by_full true e true g = absurd (omega (arith, h, (evict_oldest-fewer top b v).0 g))
  make_room-step (suc fuel) b v h =
      by_full (make_room-step fuel (evict_oldest b).0 (evict_oldest-IsStored top t b v))
        (full b len) refl (evict_oldest b).1 refl
    where
      by_full :
          (length (evict_oldest b).0.packets ≤ fuel
            → make_room (suc fuel) (evict_oldest b).0 len ≡ make_room fuel (evict_oldest b).0 len)
          → (f : Bool) → full b len ≡ f
          → (found : Bool) → (evict_oldest b).1 ≡ found
          → make_room (suc (suc fuel)) b len ≡ make_room (suc fuel) b len
      by_full rest false e found g =
          make_room-done (suc (suc fuel)) b len e ∙ sym (make_room-done (suc fuel) b len e)
      by_full rest true e false g =
          make_room-stuck (suc fuel) b len e g ∙ sym (make_room-stuck fuel b len e g)
      by_full rest true e true g =
          make_room-next (suc fuel) b len e g
          ∙ rest (omega (arith, h, (evict_oldest-fewer top b v).0 g))
          ∙ sym (make_room-next fuel b len e g)

  -- The loop that evicts packets until a packet of some bytes fits ends within as many rounds as
  -- there are packets, in a buffer in order: with more fuel it comes to the same, and either the
  -- packet fits then or no packet is left.
  pub make_room-settles :
      (b : AudioJitterBuffer)
      → IsStored top b
      → (n : ℕ)
      → (make_room (n + length b.packets) b len ≡ make_room (length b.packets) b len)
        × ((let r = make_room (length b.packets) b len in
            (r.1 ≡ true → full r.0 len ≡ false) × (r.1 ≡ false → length r.0.packets ≡ 0)))
  make_room-settles b v n =
      let r : Roomy top len b (make_room (length b.packets) b len) =
        make_room-Roomy (length b.packets) b v (omega arith) in
      (more n, (r.room, λ h. (r.empty h).1))
    where
      more : (n : ℕ) → make_room (n + length b.packets) b len ≡ make_room (length b.packets) b len
      more zero = ap (λ k. make_room k b len) (omega arith)
      more (suc n) =
          ap (λ k. make_room k b len) (omega arith)
          ∙ make_room-step (n + length b.packets) b v (omega arith)
          ∙ more n
