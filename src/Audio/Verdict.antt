-- ===== src/Audio/Verdict.antt =====
-- The answer of a push to the jitter buffer by the tests that the code makes.
use hbb_common.Common.{
  ℕ, ◌^◌, ◌≤◌, ◌<◌, ◌≡◌, refl, sym, ap, ◌∙◌, arith, Bool, true, false, some, List, [], ◌∷◌, length,
  Outcome, ok, err, panic, ltb, if◌then◌else◌, ◌>>◌,
}
use hbb_common.Common.OrderedMap.{get, get-put, total}
use hbb_common.Audio.Types.{
  AudioPacket, AudioDatagramError, memory_limit, sequence_gap, BufferedAudioPacket,
}
use hbb_common.Audio.Jitter.{
  AudioJitterBuffer, size, full, make_room, store, stored, is_late, is_buffered, too_far,
  push_valid, on_ok, check_packet, push,
}
use hbb_common.Audio.Stored.{IsStored}
use hbb_common.Audio.Room.{Roomy, make_room-Roomy}

-- The answer for a packet that passes the checks, read off the buffer before it is changed.
abbrev pub admits : AudioJitterBuffer → AudioPacket → Outcome AudioDatagramError Bool
admits b p =
    if is_late b p.metadata.sequence_number
    then ok false
    else if is_buffered b p.metadata.sequence_number
    then ok false
    else if too_far b p.metadata.sequence_number
    then err sequence_gap
    else if ltb b.config.max_memory_bytes (length p.payload)
    then err memory_limit
    else ok true

-- The packet is in the buffer.
abbrev pub Holds : AudioJitterBuffer → AudioPacket → ℕ → Type 0
Holds c p now =
    get p.metadata.sequence_number c.packets ≡ some (record { packet = p; arrived_at = now })

store-Holds : (c : AudioJitterBuffer) (p : AudioPacket) (now : ℕ) → Holds (store c p now) p now
unfolding store
store-Holds c p now = ground (
  arith,
  get-put p.metadata.sequence_number p.metadata.sequence_number
      (record { packet = p; arrived_at = now }) c.packets,
)

-- An empty buffer has room.
empty_full :
    (top len : ℕ) (b : AudioJitterBuffer)
    → IsStored top b
    → length b.packets ≡ 0
    → 0 < b.config.max_packets
    → len ≤ b.config.max_memory_bytes
    → full b len ≡ false
unfolding full total
empty_full top len b v e m h = by_packets b.packets refl
  where
    by_packets : (es : List (ℕ × BufferedAudioPacket)) → b.packets ≡ es → full b len ≡ false
    by_packets [] f =
        let nothing : b.buffered_bytes ≡ 0 = v.counted ∙ ap (total size) f in
        ground (arith, v.memory)
    by_packets (x ∷ es) f = ground (arith, ap length f)

module _ (top : ℕ) (t : top ≤ 2 ^ 64) (b : AudioJitterBuffer) (v : IsStored top b)
    (m : 0 < b.config.max_packets) where
  stored_lem :
      (p : AudioPacket) (now : ℕ)
      → ltb b.config.max_memory_bytes (length p.payload) ≡ false
      → let r = stored (make_room (length b.packets) b (length p.payload)) p now in
        (r.0 ≡ ok true) × Holds r.1 p now
  stored_lem p now h =
      by_room (make_room (length b.packets) b (length p.payload))
        (make_room-Roomy top t (length p.payload) (length b.packets) b v (omega arith))
    where
      by_room :
          (r : AudioJitterBuffer × Bool)
          → Roomy top (length p.payload) b r
          → ((stored r p now).0 ≡ ok true) × Holds (stored r p now).1 p now
      by_room (c, true) q = (refl, store-Holds c p now)
      by_room (c, false) q =
          let (over, none_left) = q.empty refl in
          let fits : full c (length p.payload) ≡ false =
            empty_full top (length p.payload) c q.stored none_left
              (omega (arith, m, ap (λ c. c.max_packets) q.cleared.config))
              (ground (arith, ap (λ c. c.max_memory_bytes) q.cleared.config)) in
          absurd (cc (sym over ∙ fits))

  push_valid-admits :
      (p : AudioPacket) (now : ℕ)
      → ((push_valid b p now).0 ≡ admits b p)
        × ((push_valid b p now).0 ≡ ok true → Holds (push_valid b p now).1 p now)
  unfolding push_valid
  push_valid-admits p now =
      by_tests (is_late b s) refl (is_buffered b s) refl (too_far b s) refl
        (ltb b.config.max_memory_bytes (length p.payload)) refl
    where
      s : ℕ
      s = p.metadata.sequence_number

      by_tests :
          (late : Bool)
          → is_late b s ≡ late
          → (dup : Bool) → is_buffered b s ≡ dup
          → (far : Bool) → too_far b s ≡ far
          → (big : Bool) → ltb b.config.max_memory_bytes (length p.payload) ≡ big
          → ((push_valid b p now).0 ≡ admits b p)
            × ((push_valid b p now).0 ≡ ok true → Holds (push_valid b p now).1 p now)
      by_tests true e dup f far g big h = rw e (refl, λ u. cc)
      by_tests false e true f far g big h = rw (e, f) (refl, λ u. cc)
      by_tests false e false f true g big h = rw (e, f, g) (refl, λ u. cc)
      by_tests false e false f false g true h = rw (e, f, g, h) (refl, λ u. cc)
      by_tests false e false f false g false h =
          rw (e, f, g, h) ((stored_lem p now h).0, λ u. (stored_lem p now h).1)

  -- The answer of a push is what the tests before its first change say: room is always made.
  pub push-admits :
      (p : AudioPacket) (now : ℕ)
      → ((push b p now).0 ≡ (check_packet p >> admits b p))
        × ((push b p now).0 ≡ ok true → Holds (push b p now).1 p now)
  unfolding push
  push-admits p now = by_check (check_packet p)
    where
      by_check :
          (o : Outcome AudioDatagramError (Unit {0}))
          → ((on_ok o b (push_valid b p now)).0 ≡ (o >> admits b p))
            × ((on_ok o b (push_valid b p now)).0 ≡ ok true
                → Holds (on_ok o b (push_valid b p now)).1 p now)
      by_check (ok u) = push_valid-admits p now
      by_check (err e) = (refl, λ u. cc)
      by_check panic = (refl, λ u. cc)
