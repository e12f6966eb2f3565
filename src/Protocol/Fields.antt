-- ===== src/Protocol/Fields.antt =====
-- `decode_header` without its reads: every offset is in range in a header of 48 bytes.
use hbb_common.Common.{
  ℕ, ◌≡◌, refl, arith, not, List, length, leb, ◌==◌, Outcome, ok, ◌>>=◌, ◌>>◌, reject_if, take,
  drop, length-take, le→not_ltb, ◌≤◌, ◌+◌, ◌^◌,
}
use hbb_common.Common.Bytes.{
  field, slice, read_in_range, index_in_range, read_slice_in_range, read_tail_in_range,
}
use hbb_common.Protocol.Types.{
  ProtocolError, invalid_magic, unsupported_version, reserved_byte, payload_too_large,
  length_mismatch, channel_of_code, type_of_code,
}
use hbb_common.Protocol.Message.{
  MessageHeader, ParsedMessage, decode_message, magic, protocol_version, validate_fields,
  decode_header,
}

abbrev pub checked_header : List ℕ → Outcome ProtocolError MessageHeader
checked_header packet = do
  reject_if (not (field 4 0 packet == magic)) (invalid_magic (field 4 0 packet))
  reject_if (not (field 2 4 packet == protocol_version)) (unsupported_version (field 2 4 packet))
  message_type ← type_of_code (field 2 6 packet)
  c ← channel_of_code (field 1 10 packet)
  reject_if (not (field 1 11 packet == 0)) reserved_byte
  validate_fields message_type (field 2 8 packet) c (slice 12 16 packet) (field 8 28 packet)
      (field 4 36 packet)
  ok (record {
    message_type = message_type;
    flags = field 2 8 packet;
    channel = c;
    session_id = slice 12 16 packet;
    sequence_number = field 8 28 packet;
    payload_length = field 4 36 packet;
    monotonic_timestamp_us = field 8 40 packet;
  })

pub decode_header-eq-checked_header :
    (packet : List ℕ) → length packet ≡ 48 → decode_header packet ≡ checked_header packet
unfolding decode_header
decode_header-eq-checked_header packet h =
    simp
      (
        read_in_range {E = ProtocolError} 4 0 packet (omega arith),
        read_in_range {E = ProtocolError} 2 4 packet (omega arith),
        read_in_range {E = ProtocolError} 2 6 packet (omega arith),
        read_in_range {E = ProtocolError} 2 8 packet (omega arith),
        read_in_range {E = ProtocolError} 8 28 packet (omega arith),
        read_in_range {E = ProtocolError} 4 36 packet (omega arith),
        read_in_range {E = ProtocolError} 8 40 packet (omega arith),
        index_in_range {E = ProtocolError} 10 packet (omega arith),
        index_in_range {E = ProtocolError} 11 packet (omega arith),
        read_slice_in_range {E = ProtocolError} 12 16 packet (omega arith),
        h,
      )
      refl

-- What `decode_message` does with a header that it has decoded.
abbrev pub parsed : List ℕ → MessageHeader → Outcome ProtocolError ParsedMessage
parsed packet header = do
  reject_if (leb (2 ^ 64) (48 + header.payload_length)) (payload_too_large header.payload_length)
  reject_if (not (length packet == 48 + header.payload_length)) length_mismatch
  ok (record { header = header; payload = drop 48 packet })

pub decode_message-parts :
    (packet : List ℕ)
    → 48 ≤ length packet
    → decode_message packet ≡ (checked_header (take 48 packet) >>= λ header. parsed packet header)
unfolding decode_message
decode_message-parts packet h = rw (le→not_ltb (length packet) 48 h) (
    simp
      (
        read_slice_in_range {E = ProtocolError} 0 48 packet h,
        read_tail_in_range {E = ProtocolError} 48 packet h,
        decode_header-eq-checked_header (take 48 packet) (omega (arith, length-take 48 packet)),
      )
      refl)
