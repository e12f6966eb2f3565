-- ===== src/Protocol/Tests.antt =====
-- Runs of the message protocol, and its theorems at concrete inputs.
use hbb_common.Common.Bytes.{
  read_tail, index, from_be_bytes, read, read_slice, are_bytes, are_bytes→All, to_be_bytes,
}
use hbb_common.Protocol.Types.{
  channel_of_code, type_of_code, MessageType, zero_sequence, length_mismatch, type_code, channel,
  channel_code, max_payload_len,
}
use hbb_common.Protocol.Message.{
  decode_header, MessageHeader, ParsedMessage, IsHeader, encode_message, decode_message,
  header_bytes, validate_fields,
}
use hbb_common.Common.{
  all_zero, ◌↔◌, ◌≡◌, ◌≢◌, refl, List, [], ◌∷◌, ◌++◌, ℕ, ok, err, panic, replicate,
}
use hbb_common.Protocol.Decode.{decode_message_iff, decode_message-ne-panic}

abbrev session_id : List ℕ
session_id = 7 ∷ replicate 15 1

abbrev header_with : ℕ → MessageHeader
header_with sequence = record {
  message_type = MessageType.ping;
  flags = 1;
  channel = channel MessageType.ping;
  session_id = session_id;
  sequence_number = sequence;
  payload_length = 2;
  monotonic_timestamp_us = 1_000_000;
}

abbrev ping : ParsedMessage
ping = record { header = header_with 5; payload = 3 ∷ 4 ∷ [] }

abbrev packet : List ℕ
packet =
    0x52
    ∷ 0x41
    ∷ 0x51
    ∷ 0x31
    ∷ 0
    ∷ 1
    ∷ 0
    ∷ 3
    ∷ 0
    ∷ 1
    ∷ 1
    ∷ 0
    ∷ (session_id
        ++ (0 ∷ 0 ∷ 0 ∷ 0 ∷ 0 ∷ 0 ∷ 0 ∷ 5 ∷ 0 ∷ 0 ∷ 0 ∷ 2 ∷ 0 ∷ 0 ∷ 0 ∷ 0 ∷ 0 ∷ 0x0f ∷ 0x42 ∷ 0x40
            ∷ 3 ∷ 4 ∷ []))

encode_ping : encode_message (header_with 5) (3 ∷ 4 ∷ []) ≡ ok packet
unfolding encode_message validate_fields channel channel_code max_payload_len header_bytes
    to_be_bytes type_code all_zero
encode_ping = refl

encode_zero_sequence : encode_message (header_with 0) (3 ∷ 4 ∷ []) ≡ err zero_sequence
unfolding encode_message validate_fields channel channel_code max_payload_len all_zero
encode_zero_sequence = refl

encode_wrong_length : encode_message (header_with 5) (3 ∷ []) ≡ err length_mismatch
unfolding encode_message validate_fields channel channel_code max_payload_len all_zero
encode_wrong_length = refl

decode_ping : decode_message packet ≡ ok ping
unfolding decode_message read_slice decode_header read from_be_bytes type_of_code index
    channel_of_code validate_fields channel_code channel all_zero max_payload_len read_tail
decode_ping = refl

decode_message_iff_example :
    (decode_message packet ≡ ok ping)
    ↔ (IsHeader (header_with 5) × (encode_message (header_with 5) (3 ∷ 4 ∷ []) ≡ ok packet))
unfolding are_bytes
decode_message_iff_example = decode_message_iff packet ping (are_bytes→All packet refl)

decode_message-ne-panic_example : decode_message (0x52 ∷ 0x41 ∷ []) ≢ panic
decode_message-ne-panic_example = decode_message-ne-panic (0x52 ∷ 0x41 ∷ [])
