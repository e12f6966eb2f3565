-- ===== src/Audio/Tests.antt =====
-- Audio packets at concrete inputs.
use hbb_common.Audio.Types.{
  audio_code, validate_audio_metadata, AudioCodec, AudioPacket, AudioJitterConfig, packet,
  packet_loss, memory_limit,
}
use hbb_common.Protocol.Types.{type_code, max_payload_len, channel, channel_code}
use hbb_common.Protocol.Message.{header_bytes, encode_message, new_header}
use hbb_common.Common.Bytes.{to_be_bytes, are_bytes, are_bytes→All}
use hbb_common.Audio.Datagram.{audio_bytes, encode_audio_datagram, decode_audio_datagram}
use hbb_common.Common.{
  all_zero, ℕ, ◌+◌, ◌*◌, ◌^◌, ◌≤◌, ◌≡◌, refl, arith, true, false, some, List, [], ◌∷◌, length,
  replicate, ok, err,
}
use hbb_common.Common.Saturating.{checked_next}
use hbb_common.Audio.Jitter.{
  take_out, evict_oldest, AudioJitterBuffer, fresh_jitter, new_jitter, size, full, make_room, push,
  pop_ready,
}
use hbb_common.Common.OrderedMap.{put, delete, last_key, get, total}
use hbb_common.Audio.Stored.{IsStored}
use hbb_common.Audio.Room.{make_room-settles}
use hbb_common.Audio.Run.{JitterCall, pushed, popped, run, Ascends, run-bounded, run-in_order}
use hbb_common.Audio.Verdict.{Holds}
use hbb_common.Audio.Answer.{Says, push-Says}
use hbb_common.Audio.RoundTrip.{decode_audio_datagram-encode_audio_datagram}

abbrev small_config : AudioJitterConfig
small_config = record {
  playout_delay = 30;
  max_packet_age = 120;
  max_packets = 2;
  max_memory_bytes = 6;
  start_packets = 2;
}

abbrev sound : ℕ → List ℕ → AudioPacket
sound sequence bytes = record {
  metadata = record {
    sequence_number = sequence;
    capture_timestamp_us = sequence * 1000;
    codec = AudioCodec.opus;
    channels = 2;
    sample_rate_hz = 48_000;
  };
  payload = bytes;
}

abbrev two_sounds : AudioJitterBuffer
two_sounds = record (fresh_jitter small_config) {
  packets =
      (4, record { packet = sound 4 (1 ∷ 2 ∷ []); arrived_at = 0 })
      ∷ (7, record { packet = sound 7 (3 ∷ 4 ∷ 5 ∷ []); arrived_at = 10 })
      ∷ [];
  next_sequence = some 4;
  buffered_bytes = 5;
}

two_sounds-IsStored : IsStored (2 ^ 64) two_sounds
unfolding total
two_sounds-IsStored = record {
  ascending = (omega arith, (omega arith, tt));
  emptied = λ e. cc;
  below = ((omega arith, refl), ((omega arith, refl), tt));
  counted = refl;
  few = omega arith;
  small = omega arith;
  memory = omega arith;
}

-- The packet 8 of two bytes replaces the packet 4.
make_room-settles_example :
    (make_room (5 + 2) two_sounds 2 ≡ make_room 2 two_sounds 2)
    × (((make_room 2 two_sounds 2).1 ≡ true → full (make_room 2 two_sounds 2).0 2 ≡ false)
        × ((make_room 2 two_sounds 2).1 ≡ false → length (make_room 2 two_sounds 2).0.packets ≡ 0))
make_room-settles_example =
    make_room-settles (2 ^ 64) (omega arith) 2 two_sounds two_sounds-IsStored 5

push-Says_example :
    Says two_sounds (sound 8 (6 ∷ 7 ∷ [])) (push two_sounds (sound 8 (6 ∷ 7 ∷ [])) 20).0
    × ((push two_sounds (sound 8 (6 ∷ 7 ∷ [])) 20).0 ≡ ok true
        → Holds (push two_sounds (sound 8 (6 ∷ 7 ∷ [])) 20).1 (sound 8 (6 ∷ 7 ∷ [])) 20)
push-Says_example =
    push-Says (2 ^ 64) (omega arith) two_sounds two_sounds-IsStored (omega arith)
      (sound 8 (6 ∷ 7 ∷ [])) 20

push_accepted : (push two_sounds (sound 8 (6 ∷ 7 ∷ [])) 20).0 ≡ ok true
unfolding push validate_audio_metadata get last_key make_room full evict_oldest delete
push_accepted = refl

push_large : (push two_sounds (sound 8 (replicate 7 0)) 20).0 ≡ err memory_limit
unfolding push validate_audio_metadata get last_key
push_large = refl

abbrev seven_calls : List JitterCall
seven_calls =
    pushed (sound 5 (1 ∷ [])) 0
    ∷ pushed (sound 3 (2 ∷ [])) 1
    ∷ popped 2
    ∷ popped 3
    ∷ pushed (sound 3 (3 ∷ [])) 4
    ∷ popped 40
    ∷ popped 41
    ∷ []

small_jitter : new_jitter small_config ≡ ok (fresh_jitter small_config)
unfolding new_jitter
small_jitter = refl

seven_calls_played :
    (run seven_calls (fresh_jitter small_config)).0
    ≡ packet (sound 3 (2 ∷ [])) ∷ packet_loss 4 ∷ packet (sound 5 (1 ∷ [])) ∷ []
unfolding pop_ready push validate_audio_metadata get last_key make_room full put take_out delete
    checked_next
seven_calls_played = refl

run-bounded_example :
    let c = (run seven_calls (fresh_jitter small_config)).1 in
    (length c.packets ≤ 2) × (c.buffered_bytes ≡ total size c.packets) × (c.buffered_bytes ≤ 6)
run-bounded_example =
    run-bounded small_config (fresh_jitter small_config) small_jitter (omega arith) seven_calls
      (omega arith, (omega arith, (omega arith, tt)))

run-in_order_example : Ascends 0 (run seven_calls (fresh_jitter small_config)).0
run-in_order_example =
    run-in_order small_config (fresh_jitter small_config) small_jitter (omega arith) seven_calls
      (omega arith, (omega arith, (omega arith, tt)))

abbrev short_audio : AudioPacket
short_audio = sound 9 (1 ∷ 2 ∷ 3 ∷ [])

abbrev sixteen_sevens : List ℕ
sixteen_sevens = replicate 16 7

abbrev short_datagram : List ℕ
short_datagram =
    82 ∷ 65 ∷ 81 ∷ 49 ∷ 0 ∷ 1 ∷ 0 ∷ 129 ∷ 0 ∷ 0 ∷ 17 ∷ 0 ∷ 7 ∷ 7 ∷ 7 ∷ 7 ∷ 7 ∷ 7 ∷ 7 ∷ 7 ∷ 7 ∷ 7 ∷ 7
    ∷ 7 ∷ 7 ∷ 7 ∷ 7 ∷ 7 ∷ 0 ∷ 0 ∷ 0 ∷ 0 ∷ 0 ∷ 0 ∷ 0 ∷ 9 ∷ 0 ∷ 0 ∷ 0 ∷ 23 ∷ 0 ∷ 0 ∷ 0 ∷ 0 ∷ 0 ∷ 0 ∷ 0
    ∷ 77 ∷ 0 ∷ 0 ∷ 0 ∷ 0 ∷ 0 ∷ 0 ∷ 35 ∷ 40 ∷ 1 ∷ 2 ∷ 0 ∷ 0 ∷ 0 ∷ 0 ∷ 187 ∷ 128 ∷ 0 ∷ 0 ∷ 0 ∷ 3 ∷ 1
    ∷ 2 ∷ 3 ∷ []

short_datagram_sent :
    encode_audio_datagram sixteen_sevens 77 short_audio.metadata short_audio.payload 100
    ≡ ok short_datagram
unfolding encode_audio_datagram validate_audio_metadata new_header channel_code channel all_zero
    max_payload_len audio_bytes to_be_bytes encode_message header_bytes type_code audio_code
short_datagram_sent = refl

decode_audio_datagram-encode_audio_datagram_example :
    (decode_audio_datagram short_datagram ≡ ok short_audio) × (length short_datagram ≤ 100)
unfolding are_bytes
decode_audio_datagram-encode_audio_datagram_example =
    decode_audio_datagram-encode_audio_datagram sixteen_sevens 77 short_audio.metadata
      short_audio.payload 100 short_datagram (refl, are_bytes→All sixteen_sevens refl) (omega arith)
      (record { sequence_u64 = omega arith; timestamp_u64 = omega arith; rate_u32 = omega arith })
      short_datagram_sent
