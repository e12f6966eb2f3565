-- ===== src/Audio/Datagram.antt =====
-- src/transport/audio_datagram.rs: `encode_audio_datagram` and `decode_audio_datagram`.
use hbb_common.Common.{
  ℕ, ◌+◌, ◌^◌, not, ◌||◌, List, ◌∷◌, ◌++◌, length, ltb, leb, ◌==◌, Outcome, ok, ◌>>=◌, ◌>>◌,
  reject_if, map_err,
}
use hbb_common.Common.Bytes.{to_be_bytes, read, index, read_tail}
use hbb_common.Protocol.Types.{MessageType, channel_mismatch}
use hbb_common.Protocol.Message.{header_len, type_eq, new_message, decode_message}
use hbb_common.Audio.Types.{
  AudioPacketMetadata, AudioPacket, AudioDatagramError, protocol, header_truncated, reserved_field,
  invalid_payload_size, datagram_too_small, audio_code, audio_of_code, validate_audio_metadata,
  audio_packet_header_len, max_audio_payload_bytes,
}

-- The payload of the message.
unfoldable pub audio_bytes : AudioPacketMetadata → List ℕ → List ℕ
audio_bytes m encoded_audio =
    to_be_bytes 8 m.capture_timestamp_us
    ++ (audio_code m.codec
        ∷ m.channels
        ∷ (to_be_bytes 2 0
            ++ (to_be_bytes 4 m.sample_rate_hz
                ++ (to_be_bytes 4 (length encoded_audio) ++ encoded_audio))))

unfoldable pub encode_audio_datagram :
    List ℕ → ℕ → AudioPacketMetadata → List ℕ → ℕ → Outcome AudioDatagramError (List ℕ)
encode_audio_datagram session_id monotonic_timestamp_us m encoded_audio max_datagram_size = do
  validate_audio_metadata m
  reject_if (length encoded_audio == 0 || ltb max_audio_payload_bytes (length encoded_audio))
      (invalid_payload_size (length encoded_audio))
  let required_size = header_len + audio_packet_header_len + length encoded_audio
  reject_if (leb (2 ^ 64) required_size) (invalid_payload_size (length encoded_audio))
  reject_if (ltb max_datagram_size required_size) (datagram_too_small max_datagram_size)
  reject_if (leb (2 ^ 32) (length encoded_audio)) (invalid_payload_size (length encoded_audio))
  map_err protocol (
      new_message MessageType.audio_packet 0 session_id m.sequence_number monotonic_timestamp_us
        (audio_bytes m encoded_audio))

-- The payload of a message that is an audio packet, given the message's sequence number.
unfoldable pub decode_audio_payload : ℕ → List ℕ → Outcome AudioDatagramError AudioPacket
decode_audio_payload sequence_number payload = do
  reject_if (ltb (length payload) audio_packet_header_len) header_truncated
  reserved ← read 2 10 payload
  reject_if (not (reserved == 0)) reserved_field
  declared_payload_len ← read 4 16 payload
  encoded_audio ← read_tail audio_packet_header_len payload
  reject_if
      (length encoded_audio == 0
        || (ltb max_audio_payload_bytes (length encoded_audio)
            || not (length encoded_audio == declared_payload_len)))
      (invalid_payload_size declared_payload_len)
  capture_timestamp_us ← read 8 0 payload
  code ← index 8 payload
  codec ← audio_of_code code
  channels ← index 9 payload
  sample_rate_hz ← read 4 12 payload
  let metadata : AudioPacketMetadata = record {
    sequence_number = sequence_number;
    capture_timestamp_us = capture_timestamp_us;
    codec = codec;
    channels = channels;
    sample_rate_hz = sample_rate_hz;
  }
  validate_audio_metadata metadata
  ok (record { metadata = metadata; payload = encoded_audio })

unfoldable pub decode_audio_datagram : List ℕ → Outcome AudioDatagramError AudioPacket
unfolding decode_audio_payload
decode_audio_datagram datagram = do
  message ← map_err protocol (decode_message datagram)
  reject_if (not (type_eq message.header.message_type MessageType.audio_packet))
      (protocol (channel_mismatch message.header.message_type message.header.channel))
  decode_audio_payload message.header.sequence_number message.payload
