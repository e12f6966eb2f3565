-- ===== src/Input/Types.antt =====
-- src/transport/input.rs: the data of the input protocol, its limits and their checks.
use hbb_common.Common.{
  ℕ, ◌-◌, ◌*◌, ◌^◌, Bool, not, ◌||◌, bit_and, ltb, ◌==◌, if◌then◌else◌, Outcome, ok, err, ◌>>◌,
  reject_if,
}
use hbb_common.Common.Int.{ℤ, within}
use hbb_common.Protocol.Types.{ProtocolError}

pub data MouseMovementMode : Type 0 where
  absolute relative : MouseMovementMode

pub data MouseButton : Type 0 where
  left right middle back forward : MouseButton

pub record MouseMovement : Type 0 where
  pub sequence_number : ℕ
  pub monotonic_timestamp_us : ℕ
  pub mode : MouseMovementMode
  pub x : ℤ
  pub y : ℤ
  pub display_id : ℕ
  pub button_state_mask : ℕ

-- A key with `key_code`, `pressed` and `modifiers`; a button with `pressed`, `x`, `y` and
-- `display_id`; a wheel with `delta_x`, `delta_y` and `display_id`.
pub data ReliableInputEvent : Type 0 where
  key : ℕ → Bool → ℕ → ReliableInputEvent
  mouse_button : MouseButton → Bool → ℤ → ℤ → ℕ → ReliableInputEvent
  wheel : ℤ → ℤ → ℕ → ReliableInputEvent

pub data InputError : Type 0 where
  protocol : ProtocolError → InputError
  invalid_mouse_payload_size : InputError
  invalid_reliable_payload_size : InputError
  unknown_mouse_mode : ℕ → InputError
  unknown_input_event : ℕ → InputError
  unknown_mouse_button : ℕ → InputError
  unknown_flags : ℕ → InputError
  reserved_field : InputError
  invalid_display_id : ℕ → InputError
  invalid_button_mask : ℕ → InputError
  invalid_coordinates : InputError
  invalid_key_code : InputError
  invalid_sequence : ℕ → ℕ → InputError
  session_mismatch : InputError

abbrev pub mouse_movement_payload_len : ℕ
mouse_movement_payload_len = 20

abbrev pub application_mouse_header_len : ℕ
application_mouse_header_len = 24

abbrev pub max_application_mouse_bytes : ℕ
max_application_mouse_bytes = 4 * 1024

abbrev pub reliable_input_payload_len : ℕ
reliable_input_payload_len = 24

abbrev pub max_display_id : ℕ
max_display_id = 255

abbrev pub known_button_mask : ℕ
known_button_mask = 0x001f

abbrev pub max_absolute_coordinate : ℕ
max_absolute_coordinate = 1_000_000

unfoldable pub mode_code : MouseMovementMode → ℕ
mode_code absolute = 1
mode_code relative = 2

unfoldable pub mode_of_code : ℕ → Outcome InputError MouseMovementMode
mode_of_code value =
    if value == 1
    then ok absolute
    else if value == 2
    then ok relative
    else err (unknown_mouse_mode value)

unfoldable pub button_code : MouseButton → ℕ
button_code left = 1
button_code right = 2
button_code middle = 3
button_code back = 4
button_code forward = 5

unfoldable pub button_of_code : ℕ → Outcome InputError MouseButton
button_of_code value =
    if value == 1
    then ok left
    else if value == 2
    then ok right
    else if value == 3
    then ok middle
    else if value == 4
    then ok back
    else if value == 5
    then ok forward
    else err (unknown_mouse_button value)

-- `MouseButton::mask`.
unfoldable pub mask : MouseButton → ℕ
unfolding button_code
mask b = 2 ^ (button_code b - 1)

unfoldable pub validate_display_id : ℕ → Outcome InputError (Unit {0})
validate_display_id display_id =
    reject_if (ltb max_display_id display_id) (invalid_display_id display_id)

unfoldable pub validate_absolute_coordinates : ℤ → ℤ → Outcome InputError (Unit {0})
validate_absolute_coordinates x y =
    reject_if (not (within max_absolute_coordinate x) || not (within max_absolute_coordinate y))
      invalid_coordinates

unfoldable pub validate_relative_coordinates : ℤ → ℤ → Outcome InputError (Unit {0})
validate_relative_coordinates x y =
    reject_if (not (within 100_000 x) || not (within 100_000 y)) invalid_coordinates

validate_by_mode : MouseMovementMode → ℤ → ℤ → Outcome InputError (Unit {0})
unfolding validate_absolute_coordinates validate_relative_coordinates
validate_by_mode absolute x y = validate_absolute_coordinates x y
validate_by_mode relative x y = validate_relative_coordinates x y

unfoldable pub validate_mouse_movement : MouseMovement → Outcome InputError (Unit {0})
unfolding validate_display_id validate_by_mode
validate_mouse_movement m = do
  validate_display_id m.display_id
  reject_if (not (bit_and m.button_state_mask (2 ^ 16 - 1 - known_button_mask) == 0))
      (invalid_button_mask m.button_state_mask)
  validate_by_mode m.mode m.x m.y
