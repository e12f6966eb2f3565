-- ===== src/Input/Tests.antt =====
-- Runs of the input protocol, and its theorems at concrete inputs.
use hbb_common.Input.Receiver.{track, new, apply, release_all}
use hbb_common.Input.Types.{
  button_of_code, validate_absolute_coordinates, validate_display_id, ReliableInputEvent,
  mouse_button, left, wheel, invalid_sequence, mask, button_code,
}
use hbb_common.Common.Int.{of_u32, to_u32, pos, negsuc}
use hbb_common.Common.{
  bytes_eq, ◌≡◌, ◌≢◌, refl, arith, true, false, List, [], ◌∷◌, ◌++◌, ℕ, ok, err, panic,
}
use hbb_common.Common.Bytes.{
  read_slice, index, from_be_bytes, read, to_be_bytes, are_bytes, are_bytes→All,
}
use hbb_common.Input.Event.{encode_reliable_input, decode_reliable_input}
use hbb_common.Input.EventLaws.{IsEvent, decode_reliable_input-encode_reliable_input}
use hbb_common.Input.EventSafety.{decode_reliable_input_safe}
use hbb_common.Input.Pressed.{Agree, obey_all, nothing_held, session}
use hbb_common.Input.Release.{release_all-session}

abbrev press_left : List ℕ
press_left =
    2 ∷ 1 ∷ 0 ∷ 0 ∷ 1 ∷ 0 ∷ 0 ∷ 0 ∷ 0 ∷ 0 ∷ 0 ∷ 9 ∷ 0xff ∷ 0xff ∷ 0xff ∷ 0xff ∷ 0 ∷ 0 ∷ 0 ∷ 2 ∷ 0
    ∷ 0 ∷ 0 ∷ 0 ∷ []

encode_press : encode_reliable_input (mouse_button left true (pos 9) (negsuc 0) 2) ≡ press_left
unfolding encode_reliable_input button_code to_be_bytes to_u32
encode_press = refl

decode_press : decode_reliable_input press_left ≡ ok (mouse_button left true (pos 9) (negsuc 0) 2)
unfolding decode_reliable_input read from_be_bytes index read_slice bytes_eq validate_display_id
    validate_absolute_coordinates of_u32 button_of_code
decode_press = refl

-- A gap in the sequence numbers is refused.
apply_gap : apply new 2 press_left ≡ err (invalid_sequence 0 2)
unfolding apply new
apply_gap = refl

session_press :
    (release_all (session new ((1, press_left) ∷ (9, press_left) ∷ [])).1).0
    ≡ mouse_button left false (pos 0) (pos 0) 0 ∷ []
unfolding session new release_all mask button_code apply decode_reliable_input read from_be_bytes
    index read_slice bytes_eq validate_display_id validate_absolute_coordinates of_u32
    button_of_code track
session_press = refl

decode_reliable_input-encode_reliable_input_example :
    decode_reliable_input (encode_reliable_input (wheel (pos 3) (negsuc 119) 1))
    ≡ ok (wheel (pos 3) (negsuc 119) 1)
decode_reliable_input-encode_reliable_input_example =
    decode_reliable_input-encode_reliable_input (wheel (pos 3) (negsuc 119) 1)
      (omega arith, omega arith, omega arith)

decode_reliable_input_safe_example :
    (decode_reliable_input press_left ≢ panic)
    × ((e : ReliableInputEvent) → decode_reliable_input press_left ≡ ok e → IsEvent e)
unfolding are_bytes
decode_reliable_input_safe_example =
    decode_reliable_input_safe press_left (are_bytes→All press_left refl)

release_all-session_example :
    Agree
      (obey_all nothing_held (
        (session new ((1, press_left) ∷ [])).0
        ++ (release_all (session new ((1, press_left) ∷ [])).1).0))
      nothing_held
    × ((release_all (session new ((1, press_left) ∷ [])).1).1 ≡ new)
release_all-session_example = release_all-session ((1, press_left) ∷ [])
