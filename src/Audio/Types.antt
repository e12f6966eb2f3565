-- ===== src/Audio/Types.antt =====
-- src/transport/audio_datagram.rs: the data of audio packets and of the jitter buffer.
-- An `Instant` and a `Duration` are their numbers of nanoseconds.
use hbb_common.Common.{
  ℕ, ◌*◌, ◌&&◌, ◌||◌, not, List, ltb, leb, ◌==◌, if◌then◌else◌, Outcome, ok, err, ◌>>◌, reject_if,
}
use hbb_common.Protocol.Types.{ProtocolError}

abbrev pub audio_packet_header_len : ℕ
audio_packet_header_len = 20

abbrev pub max_audio_payload_bytes : ℕ
max_audio_payload_bytes = 64 * 1024

abbrev pub max_audio_sequence_ahead : ℕ
max_audio_sequence_ahead = 4096

pub data AudioCodec : Type 0 where
  opus : AudioCodec

pub data AudioDatagramError : Type 0 where
  protocol : ProtocolError → AudioDatagramError
  unknown_codec : ℕ → AudioDatagramError
  header_truncated : AudioDatagramError
  reserved_field : AudioDatagramError
  zero_sequence : AudioDatagramError
  invalid_channel_count : ℕ → AudioDatagramError
  invalid_sample_rate : ℕ → AudioDatagramError
  invalid_payload_size : ℕ → AudioDatagramError
  datagram_too_small : ℕ → AudioDatagramError
  invalid_jitter_config : AudioDatagramError
  memory_limit : AudioDatagramError
  sequence_gap : AudioDatagramError

-- `codec as u8`, and back.
unfoldable pub audio_code : AudioCodec → ℕ
audio_code AudioCodec.opus = 1

unfoldable pub audio_of_code : ℕ → Outcome AudioDatagramError AudioCodec
audio_of_code value = if value == 1 then ok AudioCodec.opus else err (unknown_codec value)

pub record AudioPacketMetadata : Type 0 where
  pub sequence_number : ℕ
  pub capture_timestamp_us : ℕ
  pub codec : AudioCodec
  pub channels : ℕ
  pub sample_rate_hz : ℕ

pub record AudioPacket : Type 0 where
  pub metadata : AudioPacketMetadata
  pub payload : List ℕ

pub record AudioJitterConfig : Type 0 where
  pub playout_delay : ℕ
  pub max_packet_age : ℕ
  pub max_packets : ℕ
  pub max_memory_bytes : ℕ
  pub start_packets : ℕ

abbrev pub default_jitter_config : AudioJitterConfig
default_jitter_config = record {
  playout_delay = 30 * 1_000_000;
  max_packet_age = 120 * 1_000_000;
  max_packets = 64;
  max_memory_bytes = 2 * 1024 * 1024;
  start_packets = 3;
}

pub record AudioJitterStats : Type 0 where
  pub accepted_packets : ℕ
  pub played_packets : ℕ
  pub duplicate_packets : ℕ
  pub late_packets : ℕ
  pub lost_packets : ℕ
  pub evicted_packets : ℕ

pub record AudioJitterState : Type 0 where
  pub queue_depth : ℕ
  pub buffered_bytes : ℕ
  pub buffered_capture_span_us : ℕ

pub data AudioPlayoutItem : Type 0 where
  packet : AudioPacket → AudioPlayoutItem
  packet_loss : ℕ → AudioPlayoutItem

pub record BufferedAudioPacket : Type 0 where
  pub packet : AudioPacket
  pub arrived_at : ℕ

unfoldable pub validate_audio_metadata : AudioPacketMetadata → Outcome AudioDatagramError (Unit {0})
validate_audio_metadata m = do
  reject_if (m.sequence_number == 0) zero_sequence
  reject_if (m.channels == 0 || ltb 8 m.channels) (invalid_channel_count m.channels)
  reject_if (not (leb 8_000 m.sample_rate_hz && leb m.sample_rate_hz 192_000))
      (invalid_sample_rate m.sample_rate_hz)
