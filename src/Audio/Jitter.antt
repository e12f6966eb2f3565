-- ===== src/Audio/Jitter.antt =====
-- src/transport/audio_datagram.rs: `AudioJitterBuffer`. A call returns its result with the buffer
-- that it leaves.
use hbb_common.Common.{
  ℕ, zero, suc, ◌+◌, ◌-◌, min, max, not, ◌&&◌, ◌||◌, Bool, true, false, Option, none, some, List,
  [], ◌∷◌, length, ltb, leb, ◌==◌, if◌then◌else◌, Outcome, ok, err, panic, ◌>>◌, reject_if,
}
use hbb_common.Common.Saturating.{saturating_u64, checked_next}
use hbb_common.Common.OrderedMap.{get, put, delete, last_key}
use hbb_common.Audio.Types.{
  AudioPacket, AudioDatagramError, AudioJitterConfig, AudioJitterStats, AudioJitterState,
  AudioPlayoutItem, packet, packet_loss, BufferedAudioPacket, invalid_payload_size,
  invalid_jitter_config, memory_limit, sequence_gap, max_audio_payload_bytes,
  max_audio_sequence_ahead, validate_audio_metadata,
}
use hbb_common.Audio.Datagram.{decode_audio_datagram}

pub record AudioJitterBuffer : Type 0 where
  pub config : AudioJitterConfig
  pub packets : List (ℕ × BufferedAudioPacket)
  pub next_sequence : Option ℕ
  pub playout_started : Bool
  pub buffered_bytes : ℕ
  pub stats : AudioJitterStats

abbrev pub no_audio_stats : AudioJitterStats
no_audio_stats = record {
  accepted_packets = 0;
  played_packets = 0;
  duplicate_packets = 0;
  late_packets = 0;
  lost_packets = 0;
  evicted_packets = 0;
}

abbrev pub fresh_jitter : AudioJitterConfig → AudioJitterBuffer
fresh_jitter config = record {
  config = config;
  packets = [];
  next_sequence = none;
  playout_started = false;
  buffered_bytes = 0;
  stats = no_audio_stats;
}

unfoldable pub new_jitter : AudioJitterConfig → Outcome AudioDatagramError AudioJitterBuffer
new_jitter config = do
  reject_if
      (config.max_packets == 0
        || (config.max_memory_bytes == 0
            || (config.start_packets == 0
                || (ltb config.max_packets config.start_packets
                    || ltb config.max_packet_age config.playout_delay))))
      invalid_jitter_config
  ok (fresh_jitter config)

abbrev pub size : BufferedAudioPacket → ℕ
size p = length p.packet.payload

-- `packets.remove`, with the bytes that it frees.
unfoldable pub take_out : ℕ → BufferedAudioPacket → AudioJitterBuffer → AudioJitterBuffer
take_out sequence p b = record b {
  packets = delete sequence b.packets;
  buffered_bytes = b.buffered_bytes - size p;
}

-- The next sequence number after the eviction of one.
unfoldable pub skip : Option ℕ → ℕ → Option ℕ
skip none sequence = none
skip (some next) sequence = if next == sequence then checked_next sequence else some next

-- `evict_oldest`, with whether there was a packet.
unfoldable pub evict_from :
    AudioJitterBuffer → List (ℕ × BufferedAudioPacket) → AudioJitterBuffer × Bool
unfolding take_out skip
evict_from b [] = (b, false)
evict_from b ((sequence, p) ∷ rest) = (
  record (take_out sequence p b) {
    next_sequence = skip b.next_sequence sequence;
    stats = record b.stats { evicted_packets = saturating_u64 b.stats.evicted_packets 1 };
  },
  true,
)

unfoldable pub evict_oldest : AudioJitterBuffer → AudioJitterBuffer × Bool
unfolding evict_from
evict_oldest b = evict_from b b.packets

unfoldable pub full : AudioJitterBuffer → ℕ → Bool
full b len =
    leb b.config.max_packets (length b.packets)
    || ltb b.config.max_memory_bytes (saturating_u64 b.buffered_bytes len)

-- The loop that evicts packets until one more of `len` bytes fits, on fuel; false when there is
-- nothing left to evict.
unfoldable pub make_room : ℕ → AudioJitterBuffer → ℕ → AudioJitterBuffer × Bool
make_room zero b len = (b, not (full b len))
make_room (suc fuel) b len = elim (full b len) [
  | false ↦ (b, true)
  | true ↦
      let (rest, found) = evict_oldest b in
      elim found [ true ↦ make_room fuel rest len | false ↦ (rest, false) ]
]

unfoldable pub least_with : Option ℕ → ℕ → ℕ
least_with none sequence = sequence
least_with (some next) sequence = min next sequence

unfoldable pub greatest_with : Option ℕ → ℕ → ℕ
greatest_with none sequence = sequence
greatest_with (some last) sequence = max last sequence

-- The packet is stored.
unfoldable pub store : AudioJitterBuffer → AudioPacket → ℕ → AudioJitterBuffer
unfolding least_with
store b p now = record b {
  next_sequence = some (least_with b.next_sequence p.metadata.sequence_number);
  buffered_bytes = b.buffered_bytes + length p.payload;
  packets = put p.metadata.sequence_number (record { packet = p; arrived_at = now }) b.packets;
  stats = record b.stats { accepted_packets = saturating_u64 b.stats.accepted_packets 1 };
}

unfoldable pub is_late : AudioJitterBuffer → ℕ → Bool
is_late b sequence =
    b.playout_started && (elim b.next_sequence [ none ↦ false | some next ↦ ltb sequence next ])

unfoldable pub is_buffered : AudioJitterBuffer → ℕ → Bool
is_buffered b sequence = elim (get sequence b.packets) [ none ↦ false | some p ↦ true ]

unfoldable pub too_far : AudioJitterBuffer → ℕ → Bool
unfolding least_with greatest_with
too_far b sequence =
    ltb max_audio_sequence_ahead
      (greatest_with (last_key b.packets) sequence - least_with b.next_sequence sequence)

abbrev pub stored :
    AudioJitterBuffer × Bool → AudioPacket → ℕ → Outcome AudioDatagramError Bool × AudioJitterBuffer
stored (b, true) p now = (ok true, store b p now)
stored (b, false) p now = (err memory_limit, b)

-- `push` after the checks of the packet itself.
unfoldable pub push_valid :
    AudioJitterBuffer → AudioPacket → ℕ → Outcome AudioDatagramError Bool × AudioJitterBuffer
unfolding is_late is_buffered too_far store
push_valid b p now =
    let roomy = make_room (length b.packets) b (length p.payload) in
    if is_late b p.metadata.sequence_number
    then (
      ok false,
      record b { stats = record b.stats { late_packets = saturating_u64 b.stats.late_packets 1 } },
    )
    else if is_buffered b p.metadata.sequence_number
    then (
      ok false,
      record b {
        stats = record b.stats { duplicate_packets = saturating_u64 b.stats.duplicate_packets 1 };
      },
    )
    else if too_far b p.metadata.sequence_number
    then (err sequence_gap, b)
    else if ltb b.config.max_memory_bytes (length p.payload)
    then (err memory_limit, b)
    else stored roomy p now

abbrev pub on_ok :
    Outcome AudioDatagramError (Unit {0})
    → AudioJitterBuffer
    → Outcome AudioDatagramError Bool × AudioJitterBuffer
    → Outcome AudioDatagramError Bool × AudioJitterBuffer
on_ok (ok u) b pushed = pushed
on_ok (err e) b pushed = (err e, b)
on_ok panic b pushed = (panic, b)

unfoldable pub check_packet : AudioPacket → Outcome AudioDatagramError (Unit {0})
check_packet p = do
  validate_audio_metadata p.metadata
  reject_if (length p.payload == 0 || ltb max_audio_payload_bytes (length p.payload))
      (invalid_payload_size (length p.payload))

unfoldable pub push :
    AudioJitterBuffer → AudioPacket → ℕ → Outcome AudioDatagramError Bool × AudioJitterBuffer
unfolding check_packet push_valid
push b p now = on_ok (check_packet p) b (push_valid b p now)

unfoldable pub push_datagram :
    AudioJitterBuffer → List ℕ → ℕ → Outcome AudioDatagramError Bool × AudioJitterBuffer
push_datagram b datagram now = elim (decode_audio_datagram datagram) [
  | ok p ↦ push b p now
  | err e ↦ (err e, b)
  | panic ↦ (panic, b)
]

-- The sequence numbers of the packets that are too old.
unfoldable pub expired_keys : AudioJitterConfig → ℕ → List (ℕ × BufferedAudioPacket) → List ℕ
expired_keys config now [] = []
expired_keys config now (e ∷ es) =
    if leb config.max_packet_age (now - e.1.arrived_at)
    then e.0 ∷ expired_keys config now es
    else expired_keys config now es

unfoldable pub discard_keys : List ℕ → AudioJitterBuffer → AudioJitterBuffer
discard_keys [] b = b
discard_keys (sequence ∷ rest) b = elim (get sequence b.packets) [
  | none ↦ discard_keys rest b
  | some p ↦ discard_keys rest (record (take_out sequence p b) {
    stats = record b.stats { late_packets = saturating_u64 b.stats.late_packets 1 };
  })
]

unfoldable pub discard_expired : AudioJitterBuffer → ℕ → AudioJitterBuffer
unfolding expired_keys discard_keys
discard_expired b now = discard_keys (expired_keys b.config now b.packets) b

-- Whether a packet that arrived at a time is played now.
unfoldable pub is_ready : AudioJitterBuffer → ℕ → ℕ → Bool
is_ready b now arrived_at =
    leb b.config.start_packets (length b.packets) || leb b.config.playout_delay (now - arrived_at)

-- `pop_ready` when the next packet is there, and when it is not.
unfoldable pub pop_packet :
    AudioJitterBuffer → ℕ → ℕ → BufferedAudioPacket → Option AudioPlayoutItem × AudioJitterBuffer
unfolding is_ready
pop_packet b now next p =
    if is_ready b now p.arrived_at
    then (
      some (packet p.packet),
      record (take_out next p b) {
        next_sequence = checked_next next;
        playout_started = true;
        stats = record b.stats { played_packets = saturating_u64 b.stats.played_packets 1 };
      },
    )
    else (none, b)

unfoldable pub gap_from :
    AudioJitterBuffer
    → ℕ
    → ℕ
    → List (ℕ × BufferedAudioPacket)
    → Option AudioPlayoutItem × AudioJitterBuffer
unfolding is_ready
gap_from b now next [] = (none, b)
gap_from b now next ((sequence, p) ∷ rest) =
    if is_ready b now p.arrived_at
    then (
      some (packet_loss next),
      record b {
        next_sequence = checked_next next;
        playout_started = true;
        stats = record b.stats { lost_packets = saturating_u64 b.stats.lost_packets 1 };
      },
    )
    else (none, b)

unfoldable pub pop_gap : AudioJitterBuffer → ℕ → ℕ → Option AudioPlayoutItem × AudioJitterBuffer
unfolding gap_from
pop_gap b now next = gap_from b now next b.packets

unfoldable pub pop_next : AudioJitterBuffer → ℕ → Option AudioPlayoutItem × AudioJitterBuffer
unfolding pop_packet pop_gap
pop_next b now = elim b.next_sequence [
  | none ↦ (none, b)
  | some next ↦ elim (get next b.packets) [
    | some p ↦ pop_packet b now next p
    | none ↦ pop_gap b now next
  ]
]

unfoldable pub pop_ready : AudioJitterBuffer → ℕ → Option AudioPlayoutItem × AudioJitterBuffer
unfolding discard_expired pop_next
pop_ready b now = pop_next (discard_expired b now) now

unfoldable pub first_timestamp : List (ℕ × BufferedAudioPacket) → Option ℕ
first_timestamp [] = none
first_timestamp (e ∷ es) = some e.1.packet.metadata.capture_timestamp_us

unfoldable pub last_timestamp : List (ℕ × BufferedAudioPacket) → Option ℕ
last_timestamp [] = none
last_timestamp (e ∷ es) = elim (last_timestamp es) [
  | none ↦ some e.1.packet.metadata.capture_timestamp_us
  | some t ↦ some t
]

abbrev pub span : Option ℕ → Option ℕ → ℕ
span (some first) (some last) = last - first
span (some first) none = 0
span none last = 0

unfoldable pub jitter_state : AudioJitterBuffer → AudioJitterState
unfolding first_timestamp last_timestamp
jitter_state b = record {
  queue_depth = length b.packets;
  buffered_bytes = b.buffered_bytes;
  buffered_capture_span_us = span (first_timestamp b.packets) (last_timestamp b.packets);
}

unfoldable pub reset_jitter : AudioJitterBuffer → AudioJitterBuffer
reset_jitter b = record b {
  packets = [];
  next_sequence = none;
  playout_started = false;
  buffered_bytes = 0;
}
