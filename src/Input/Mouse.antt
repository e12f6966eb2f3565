-- ===== src/Input/Mouse.antt =====
-- src/transport/input.rs: mouse movements as datagrams, alone and with an application payload.
use hbb_common.Common.{
  ℕ, ◌+◌, ◌^◌, not, ◌||◌, List, ◌∷◌, ◌++◌, length, ltb, leb, ◌==◌, Outcome, ok, ◌>>=◌, ◌>>◌,
  reject_if, map_err,
}
use hbb_common.Common.Bytes.{to_be_bytes, read, index, read_tail}
use hbb_common.Common.Int.{to_u32, of_u32}
use hbb_common.Protocol.Types.{MessageType, channel_mismatch}
use hbb_common.Protocol.Message.{
  MessageHeader, header_len, type_eq, new_header, encode_message, decode_message,
}
use hbb_common.Input.Types.{
  MouseMovement, InputError, protocol, invalid_mouse_payload_size, reserved_field, mode_code,
  mode_of_code, mouse_movement_payload_len, application_mouse_header_len,
  max_application_mouse_bytes, validate_mouse_movement,
}

-- The fields that both payloads begin with.
movement_bytes : MouseMovement → List ℕ → List ℕ
movement_bytes m rest =
    mode_code m.mode
    ∷ 0
    ∷ (to_be_bytes 2 m.button_state_mask
        ++ (to_be_bytes 4 m.display_id
            ++ (to_be_bytes 4 (to_u32 m.x) ++ (to_be_bytes 4 (to_u32 m.y) ++ rest))))

-- `MessageHeader::new` for a mouse movement, and `encode_message`.
movement_message : List ℕ → MouseMovement → List ℕ → Outcome InputError (List ℕ)
movement_message session_id m payload = map_err protocol (
    new_header MessageType.mouse_movement 0 session_id m.sequence_number (length payload)
      m.monotonic_timestamp_us
    >>= λ header. encode_message header payload)

unfoldable pub encode_mouse_movement : List ℕ → MouseMovement → ℕ → Outcome InputError (List ℕ)
unfolding movement_bytes movement_message
encode_mouse_movement session_id m max_datagram_size = do
  validate_mouse_movement m
  reject_if (ltb max_datagram_size (header_len + mouse_movement_payload_len))
      invalid_mouse_payload_size
  movement_message session_id m (movement_bytes m (to_be_bytes 4 0))

unfoldable pub encode_application_mouse_movement :
    List ℕ → MouseMovement → List ℕ → ℕ → Outcome InputError (List ℕ)
unfolding movement_bytes movement_message
encode_application_mouse_movement session_id m application_payload max_datagram_size = do
  validate_mouse_movement m
  reject_if
      (length application_payload == 0
        || ltb max_application_mouse_bytes (length application_payload))
      invalid_mouse_payload_size
  reject_if (leb (2 ^ 32) (length application_payload)) invalid_mouse_payload_size
  reject_if
      (ltb max_datagram_size
        (header_len + application_mouse_header_len + length application_payload))
      invalid_mouse_payload_size
  movement_message session_id m (
      movement_bytes m
        (to_be_bytes 4 (length application_payload) ++ (to_be_bytes 4 0 ++ application_payload)))

-- The movement in a payload, under the header of its message.
read_movement : MessageHeader → List ℕ → Outcome InputError MouseMovement
read_movement header payload = do
  mode_field ← index 0 payload
  mode ← mode_of_code mode_field
  button_state_mask ← read 2 2 payload
  display_id ← read 4 4 payload
  x ← read 4 8 payload
  y ← read 4 12 payload
  ok (record {
    sequence_number = header.sequence_number;
    monotonic_timestamp_us = header.monotonic_timestamp_us;
    mode = mode;
    x = of_u32 x;
    y = of_u32 y;
    display_id = display_id;
    button_state_mask = button_state_mask;
  })

unfoldable pub decode_mouse_movement : List ℕ → Outcome InputError MouseMovement
unfolding read_movement
decode_mouse_movement datagram = do
  message ← map_err protocol (decode_message datagram)
  reject_if (not (type_eq message.header.message_type MessageType.mouse_movement))
      (protocol (channel_mismatch message.header.message_type message.header.channel))
  reject_if (not (length message.payload == mouse_movement_payload_len)) invalid_mouse_payload_size
  reserved ← index 1 message.payload
  zero ← read 4 16 message.payload
  reject_if (not (reserved == 0) || not (zero == 0)) reserved_field
  movement ← read_movement message.header message.payload
  validate_mouse_movement movement
  ok movement

unfoldable pub decode_application_mouse_movement :
    List ℕ → Outcome InputError (MouseMovement × List ℕ)
unfolding read_movement
decode_application_mouse_movement datagram = do
  message ← map_err protocol (decode_message datagram)
  reject_if
      (not (type_eq message.header.message_type MessageType.mouse_movement)
        || ltb (length message.payload) application_mouse_header_len)
      invalid_mouse_payload_size
  reserved ← index 1 message.payload
  zero ← read 4 20 message.payload
  reject_if (not (reserved == 0) || not (zero == 0)) reserved_field
  application_len ← read 4 16 message.payload
  application_payload ← read_tail application_mouse_header_len message.payload
  reject_if
      (application_len == 0
        || (ltb max_application_mouse_bytes application_len
            || not (application_len == length application_payload)))
      invalid_mouse_payload_size
  movement ← read_movement message.header message.payload
  validate_mouse_movement movement
  ok (movement, application_payload)
