-- ===== src/Protocol/Message.antt =====
-- src/transport/protocol.rs: message headers, `encode_message` and `decode_message`.
-- A byte string is a list of numbers below 256; a `SessionId` has 16 of them. `usize` is 64 bits wide.
use hbb_common.Common.{
  ℕ, ◌+◌, ◌-◌, ◌^◌, ◌<◌, ◌≡◌, bit_and, Bool, not, List, ◌∷◌, ◌++◌, length, ltb, leb, ◌==◌, Outcome,
  ok, ◌>>=◌, ◌>>◌, reject_if, all_zero, All,
}
use hbb_common.Common.Bytes.{IsByte, to_be_bytes, read, index, read_slice, read_tail}
use hbb_common.Protocol.Types.{
  ChannelId, MessageType, ProtocolError, header_truncated, invalid_magic, unsupported_version,
  unknown_flags, reserved_byte, channel_mismatch, zero_session_id, zero_sequence, payload_too_large,
  length_mismatch, channel_code, channel_of_code, type_code, type_of_code, channel, max_payload_len,
}

abbrev pub magic : ℕ
magic = 0x5241_5131

abbrev pub protocol_version : ℕ
protocol_version = 1

abbrev pub header_len : ℕ
header_len = 48

abbrev pub known_flags : ℕ
known_flags = 3

pub record MessageHeader : Type 0 where
  pub message_type : MessageType
  pub flags : ℕ
  pub channel : ChannelId
  pub session_id : List ℕ
  pub sequence_number : ℕ
  pub payload_length : ℕ
  pub monotonic_timestamp_us : ℕ

pub record ParsedMessage : Type 0 where
  pub header : MessageHeader
  pub payload : List ℕ

-- The fields are values of their Rust types.
pub record IsHeader (h : MessageHeader) : Type 0 where
  pub flags_u16 : h.flags < 2 ^ 16
  pub session_id_len : length h.session_id ≡ 16
  pub session_id_u8 : All IsByte h.session_id
  pub sequence_u64 : h.sequence_number < 2 ^ 64
  pub payload_u32 : h.payload_length < 2 ^ 32
  pub timestamp_u64 : h.monotonic_timestamp_us < 2 ^ 64

-- `==` on the two enumerations compares their discriminants.
abbrev pub channel_eq : ChannelId → ChannelId → Bool
channel_eq a b = channel_code a == channel_code b

abbrev pub type_eq : MessageType → MessageType → Bool
type_eq a b = type_code a == type_code b

-- `flags & !KNOWN_FLAGS` on a `u16`.
abbrev pub other_flags : ℕ → ℕ
other_flags flags = bit_and flags (2 ^ 16 - 1 - known_flags)

unfoldable pub validate_fields :
    MessageType → ℕ → ChannelId → List ℕ → ℕ → ℕ → Outcome ProtocolError (Unit {0})
validate_fields message_type flags c session_id sequence_number payload_length = do
  reject_if (not (other_flags flags == 0)) (unknown_flags (other_flags flags))
  reject_if (not (channel_eq c (channel message_type))) (channel_mismatch message_type c)
  reject_if (all_zero session_id) zero_session_id
  reject_if (sequence_number == 0) zero_sequence
  reject_if (ltb (max_payload_len message_type) payload_length) (payload_too_large payload_length)

-- `MessageHeader::new`.
unfoldable pub new_header :
    MessageType → ℕ → List ℕ → ℕ → ℕ → ℕ → Outcome ProtocolError MessageHeader
unfolding validate_fields
new_header message_type flags session_id sequence_number payload_length timestamp = do
  validate_fields message_type flags (channel message_type) session_id sequence_number
      payload_length
  reject_if (leb (2 ^ 32) payload_length) (payload_too_large payload_length)
  ok (record {
    message_type = message_type;
    flags = flags;
    channel = channel message_type;
    session_id = session_id;
    sequence_number = sequence_number;
    payload_length = payload_length;
    monotonic_timestamp_us = timestamp;
  })

-- The bytes that `encode_message` writes before the payload.
unfoldable pub header_bytes : MessageHeader → List ℕ → List ℕ
header_bytes h rest =
    to_be_bytes 4 magic
    ++ (to_be_bytes 2 protocol_version
        ++ (to_be_bytes 2 (type_code h.message_type)
            ++ (to_be_bytes 2 h.flags
                ++ (channel_code h.channel
                    ∷ 0
                    ∷ (h.session_id
                        ++ (to_be_bytes 8 h.sequence_number
                            ++ (to_be_bytes 4 h.payload_length
                                ++ (to_be_bytes 8 h.monotonic_timestamp_us ++ rest))))))))

unfoldable pub encode_message : MessageHeader → List ℕ → Outcome ProtocolError (List ℕ)
encode_message h payload = do
  validate_fields h.message_type h.flags h.channel h.session_id h.sequence_number (length payload)
  reject_if (not (h.payload_length == length payload)) length_mismatch
  ok (header_bytes h payload)

-- `MessageHeader::new` and `encode_message`, as the channels call them on a payload.
abbrev pub new_message : MessageType → ℕ → List ℕ → ℕ → ℕ → List ℕ → Outcome ProtocolError (List ℕ)
new_message message_type flags session_id sequence_number timestamp payload =
    new_header message_type flags session_id sequence_number (length payload) timestamp
    >>= λ header. encode_message header payload

unfoldable pub decode_header : List ℕ → Outcome ProtocolError MessageHeader
decode_header packet = do
  reject_if (not (length packet == header_len)) header_truncated
  m ← read 4 0 packet
  reject_if (not (m == magic)) (invalid_magic m)
  version ← read 2 4 packet
  reject_if (not (version == protocol_version)) (unsupported_version version)
  type_field ← read 2 6 packet
  message_type ← type_of_code type_field
  flags ← read 2 8 packet
  channel_field ← index 10 packet
  c ← channel_of_code channel_field
  reserved ← index 11 packet
  reject_if (not (reserved == 0)) reserved_byte
  session_id ← read_slice 12 16 packet
  sequence_number ← read 8 28 packet
  payload_length ← read 4 36 packet
  timestamp ← read 8 40 packet
  validate_fields message_type flags c session_id sequence_number payload_length
  ok (record {
    message_type = message_type;
    flags = flags;
    channel = c;
    session_id = session_id;
    sequence_number = sequence_number;
    payload_length = payload_length;
    monotonic_timestamp_us = timestamp;
  })

unfoldable pub decode_message : List ℕ → Outcome ProtocolError ParsedMessage
decode_message packet = do
  reject_if (ltb (length packet) header_len) header_truncated
  front ← read_slice 0 header_len packet
  header ← decode_header front
  let expected_len = header_len + header.payload_length
  reject_if (leb (2 ^ 64) expected_len) (payload_too_large header.payload_length)
  reject_if (not (length packet == expected_len)) length_mismatch
  payload ← read_tail header_len packet
  ok (record { header = header; payload = payload })
