-- ===== src/Input/Event.antt =====
-- src/transport/input.rs: `encode_reliable_input` and `decode_reliable_input`.
use hbb_common.Common.{
  ℕ, ◌-◌, ◌^◌, Bool, true, false, not, ◌||◌, bit_and, ◌==◌, if◌then◌else◌, List, [], ◌∷◌, length,
  replicate, bytes_eq, Outcome, ok, err, ◌>>=◌, ◌>>◌, reject_if,
}
use hbb_common.Common.Bytes.{to_be_bytes, read, index, read_slice, write}
use hbb_common.Common.Int.{to_u32, of_u32}
use hbb_common.Input.Types.{
  ReliableInputEvent, key, mouse_button, wheel, InputError, invalid_reliable_payload_size,
  reserved_field, unknown_flags, invalid_key_code, unknown_input_event, reliable_input_payload_len,
  button_code, button_of_code, validate_display_id, validate_absolute_coordinates,
  validate_relative_coordinates,
}

abbrev pub bool_code : Bool → ℕ
bool_code true = 1
bool_code false = 0

unfoldable pub encode_reliable_input : ReliableInputEvent → List ℕ
encode_reliable_input (key key_code pressed modifiers) =
    let p0 = replicate 24 0 in
    let p1 = write 0 (1 ∷ []) p0 in
    let p2 = write 1 (bool_code pressed ∷ []) p1 in
    let p3 = write 4 (to_be_bytes 4 key_code) p2 in write 16 (to_be_bytes 4 modifiers) p3
encode_reliable_input (mouse_button button pressed x y display_id) =
    let p0 = replicate 24 0 in
    let p1 = write 0 (2 ∷ []) p0 in
    let p2 = write 1 (bool_code pressed ∷ []) p1 in
    let p3 = write 4 (button_code button ∷ []) p2 in
    let p4 = write 8 (to_be_bytes 4 (to_u32 x)) p3 in
    let p5 = write 12 (to_be_bytes 4 (to_u32 y)) p4 in write 16 (to_be_bytes 4 display_id) p5
encode_reliable_input (wheel delta_x delta_y display_id) =
    let p0 = replicate 24 0 in
    let p1 = write 0 (3 ∷ []) p0 in
    let p2 = write 8 (to_be_bytes 4 (to_u32 delta_x)) p1 in
    let p3 = write 12 (to_be_bytes 4 (to_u32 delta_y)) p2 in write 16 (to_be_bytes 4 display_id) p3

-- The three branches of the `match` on `payload[0]`, given `payload[1]`.
unfoldable pub decode_key : List ℕ → ℕ → Outcome InputError ReliableInputEvent
decode_key payload flags = do
  key_code ← read 4 4 payload
  a ← read 4 8 payload
  b ← read 4 12 payload
  reject_if (key_code == 0 || (not (a == 0) || not (b == 0))) invalid_key_code
  modifiers ← read 4 16 payload
  ok (key key_code (not (flags == 0)) modifiers)

unfoldable pub decode_button : List ℕ → ℕ → Outcome InputError ReliableInputEvent
decode_button payload flags = do
  reserved ← read_slice 5 3 payload
  reject_if (not (bytes_eq reserved (0 ∷ 0 ∷ 0 ∷ []))) reserved_field
  display_id ← read 4 16 payload
  validate_display_id display_id
  x ← read 4 8 payload
  y ← read 4 12 payload
  validate_absolute_coordinates (of_u32 x) (of_u32 y)
  code ← index 4 payload
  button ← button_of_code code
  ok (mouse_button button (not (flags == 0)) (of_u32 x) (of_u32 y) display_id)

unfoldable pub decode_wheel : List ℕ → ℕ → Outcome InputError ReliableInputEvent
decode_wheel payload flags = do
  reserved ← read 4 4 payload
  reject_if (not (flags == 0) || not (reserved == 0)) reserved_field
  display_id ← read 4 16 payload
  validate_display_id display_id
  delta_x ← read 4 8 payload
  delta_y ← read 4 12 payload
  validate_relative_coordinates (of_u32 delta_x) (of_u32 delta_y)
  ok (wheel (of_u32 delta_x) (of_u32 delta_y) display_id)

unfoldable pub decode_kind : List ℕ → ℕ → ℕ → Outcome InputError ReliableInputEvent
unfolding decode_key decode_button decode_wheel
decode_kind payload kind flags =
    if kind == 1
    then decode_key payload flags
    else if kind == 2
    then decode_button payload flags
    else if kind == 3
    then decode_wheel payload flags
    else err (unknown_input_event kind)

unfoldable pub decode_reliable_input : List ℕ → Outcome InputError ReliableInputEvent
unfolding decode_kind
decode_reliable_input payload = do
  reject_if (not (length payload == reliable_input_payload_len)) invalid_reliable_payload_size
  a ← read 2 2 payload
  b ← read 4 20 payload
  reject_if (not (a == 0) || not (b == 0)) reserved_field
  flags ← index 1 payload
  reject_if (not (bit_and flags (2 ^ 8 - 1 - 1) == 0)) (unknown_flags flags)
  kind ← index 0 payload
  decode_kind payload kind flags
