-- ===== src/Protocol/RoundTrip.antt =====
-- `decode_message` after `encode_message`.
use hbb_common.Common.{
  ℕ, ◌+◌, ◌≡◌, refl, ap, ◌∙◌, arith, List, [], ◌++◌, length, take, drop, ok, ◌>>◌, append_assoc,
  take-append, drop-append, drop-append_add, length-append,
}
use hbb_common.Common.Bytes.{field, to_be_bytes, from_be_bytes, slice, from_be_bytes-to_be_bytes}
use hbb_common.Protocol.Types.{channel_code, type_code}
use hbb_common.Protocol.Codes.{channel_of_code-channel_code, type_of_code-type_code, type_code-lt}
use hbb_common.Protocol.Message.{
  MessageHeader, IsHeader, magic, protocol_version, validate_fields, header_bytes, encode_message,
  decode_message,
}
use hbb_common.Protocol.Fields.{checked_header, parsed, decode_message-parts}

pub header_bytes-append :
    (h : MessageHeader) (rest : List ℕ) → header_bytes h rest ≡ header_bytes h [] ++ rest
unfolding header_bytes to_be_bytes
header_bytes-append h rest = simp append_assoc

module _ (h : MessageHeader) (v : IsHeader h) where
  pub length-header_bytes : (rest : List ℕ) → length (header_bytes h rest) ≡ 48 + length rest
  unfolding header_bytes to_be_bytes
  length-header_bytes rest = omega (
    arith,
    v.session_id_len,
    length-append h.session_id (
        to_be_bytes 8 h.sequence_number
        ++ (to_be_bytes 4 h.payload_length ++ (to_be_bytes 8 h.monotonic_timestamp_us ++ rest))),
  )

  session_id_field : slice 12 16 (header_bytes h []) ≡ h.session_id
  unfolding header_bytes to_be_bytes
  session_id_field = take-append 16 h.session_id _ v.session_id_len

  sequence_field : field 8 28 (header_bytes h []) ≡ h.sequence_number
  unfolding header_bytes to_be_bytes
  sequence_field =
      ap (λ (bs : List ℕ). from_be_bytes (take 8 bs))
        (drop-append 16 h.session_id _ v.session_id_len)
      ∙ from_be_bytes-to_be_bytes 8 h.sequence_number v.sequence_u64

  payload_field : field 4 36 (header_bytes h []) ≡ h.payload_length
  unfolding header_bytes to_be_bytes
  payload_field =
      ap (λ (bs : List ℕ). from_be_bytes (take 4 bs))
        (drop-append_add 16 8 h.session_id _ v.session_id_len)
      ∙ from_be_bytes-to_be_bytes 4 h.payload_length v.payload_u32

  timestamp_field : field 8 40 (header_bytes h []) ≡ h.monotonic_timestamp_us
  unfolding header_bytes to_be_bytes
  timestamp_field =
      ap (λ (bs : List ℕ). from_be_bytes (take 8 bs))
        (drop-append_add 16 12 h.session_id _ v.session_id_len)
      ∙ from_be_bytes-to_be_bytes 8 h.monotonic_timestamp_us v.timestamp_u64

  prefix_field : field 4 0 (header_bytes h []) ≡ magic
  unfolding header_bytes to_be_bytes
  prefix_field = from_be_bytes-to_be_bytes 4 magic (omega arith)

  version_field : field 2 4 (header_bytes h []) ≡ protocol_version
  unfolding header_bytes to_be_bytes
  version_field = from_be_bytes-to_be_bytes 2 protocol_version (omega arith)

  type_field : field 2 6 (header_bytes h []) ≡ type_code h.message_type
  unfolding header_bytes to_be_bytes
  type_field = from_be_bytes-to_be_bytes 2 (type_code h.message_type) (type_code-lt h.message_type)

  flags_field : field 2 8 (header_bytes h []) ≡ h.flags
  unfolding header_bytes to_be_bytes
  flags_field = from_be_bytes-to_be_bytes 2 h.flags v.flags_u16

  channel_field : field 1 10 (header_bytes h []) ≡ channel_code h.channel
  unfolding header_bytes to_be_bytes from_be_bytes
  channel_field = omega arith

  reserved_field : field 1 11 (header_bytes h []) ≡ 0
  unfolding header_bytes to_be_bytes from_be_bytes
  reserved_field = refl

  checked_header-header_bytes : checked_header (header_bytes h []) ≡ (
      validate_fields h.message_type h.flags h.channel h.session_id h.sequence_number
        h.payload_length
      >> ok h)
  checked_header-header_bytes = simp (
    prefix_field, version_field, type_field, flags_field, channel_field, reserved_field,
    session_id_field, sequence_field, payload_field, timestamp_field, type_of_code-type_code,
    channel_of_code-channel_code,
  )

  take-header_bytes : (payload : List ℕ) → take 48 (header_bytes h payload) ≡ header_bytes h []
  take-header_bytes payload =
      rw (header_bytes-append h payload)
        (take-append 48 (header_bytes h []) payload (length-header_bytes []))

  drop-header_bytes : (payload : List ℕ) → drop 48 (header_bytes h payload) ≡ payload
  drop-header_bytes payload =
      rw (header_bytes-append h payload)
        (drop-append 48 (header_bytes h []) payload (length-header_bytes []))

  parsed-header_bytes :
      (payload : List ℕ)
      → h.payload_length ≡ length payload
      → parsed (header_bytes h payload) h ≡ ok (record { header = h; payload = payload })
  parsed-header_bytes payload e =
      ground (arith, length-header_bytes payload, drop-header_bytes payload, v.payload_u32)

  decode_message-header_bytes :
      (payload : List ℕ)
      → h.payload_length ≡ length payload
      → decode_message (header_bytes h payload) ≡ (
          validate_fields h.message_type h.flags h.channel h.session_id h.sequence_number
            h.payload_length
          >> ok (record { header = h; payload = payload }))
  decode_message-header_bytes payload e =
      decode_message-parts (header_bytes h payload) (omega (arith, length-header_bytes payload))
      ∙ rw (take-header_bytes payload, checked_header-header_bytes)
          (ground (arith, parsed-header_bytes payload e))

-- A message that `encode_message` accepts is decoded to the header and the payload that it was made
-- of, for every header whose fields are values of their types.
pub decode_message-encode_message :
    (h : MessageHeader) (payload packet : List ℕ)
    → IsHeader h
    → encode_message h payload ≡ ok packet
    → decode_message packet ≡ ok (record { header = h; payload = payload })
unfolding encode_message
decode_message-encode_message h payload packet v e =
    ground (arith, decode_message-header_bytes h v payload)
