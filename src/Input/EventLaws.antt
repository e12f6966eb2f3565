-- ===== src/Input/EventLaws.antt =====
-- Round trip.
use hbb_common.Common.{
  ℕ, ◌^◌, ◌<◌, ◌≤◌, ◌≡◌, refl, arith, Bool, true, false, not, [], ◌∷◌, ok, bytes_eq, bit_and, ◌==◌,
}
use hbb_common.Common.Bytes.{
  to_be_bytes, from_be_bytes, read, index, read_slice, from_be_bytes-to_be_bytes,
}
use hbb_common.Common.Int.{ℤ, pos, negsuc, IsI32, abs, to_u32, of_u32-to_u32, to_u32-lt}
use hbb_common.Input.Types.{
  ReliableInputEvent, key, mouse_button, wheel, MouseButton, left, right, middle, back, forward,
  button_code, button_of_code, max_display_id, max_absolute_coordinate, validate_display_id,
  validate_absolute_coordinates, validate_relative_coordinates,
}
use hbb_common.Input.Event.{bool_code, encode_reliable_input, decode_reliable_input}

-- An event within the limits of the protocol.
abbrev pub IsEvent : ReliableInputEvent → Type 0
IsEvent (key key_code pressed modifiers) =
    (0 < key_code) × (key_code < 2 ^ 32) × (modifiers < 2 ^ 32)
IsEvent (mouse_button button pressed x y display_id) =
    (abs x ≤ max_absolute_coordinate)
    × (abs y ≤ max_absolute_coordinate)
    × (display_id ≤ max_display_id)
IsEvent (wheel delta_x delta_y display_id) =
    (abs delta_x ≤ 100_000) × (abs delta_y ≤ 100_000) × (display_id ≤ max_display_id)

zero_two : from_be_bytes (0 ∷ 0 ∷ []) ≡ 0
unfolding from_be_bytes
zero_two = refl

zero_four : from_be_bytes (0 ∷ 0 ∷ 0 ∷ 0 ∷ []) ≡ 0
unfolding from_be_bytes
zero_four = refl

button_of_code-button_code : (b : MouseButton) → button_of_code (button_code b) ≡ ok b
unfolding button_of_code button_code
button_of_code-button_code left = refl
button_of_code-button_code right = refl
button_of_code-button_code middle = refl
button_of_code-button_code back = refl
button_of_code-button_code forward = refl

-- The flag byte of an event.
bool_code_small : (b : Bool) → bit_and (bool_code b) 254 ≡ 0
bool_code_small true = refl
bool_code_small false = refl

bool_code_set : (b : Bool) → not (bool_code b == 0) ≡ b
bool_code_set true = refl
bool_code_set false = refl

IsI32-of_small : (x : ℤ) → abs x ≤ 1_000_000 → IsI32 x
IsI32-of_small (pos n) h = omega arith
IsI32-of_small (negsuc n) h = omega arith

decode_reliable_input-key :
    (k m : ℕ) (pressed : Bool)
    → IsEvent (key k pressed m)
    → decode_reliable_input (encode_reliable_input (key k pressed m)) ≡ ok (key k pressed m)
unfolding decode_reliable_input encode_reliable_input to_be_bytes read index
decode_reliable_input-key k m pressed v =
    simp
      (
        zero_two,
        zero_four,
        from_be_bytes-to_be_bytes 4 k v.1,
        from_be_bytes-to_be_bytes 4 m v.2,
        bool_code_small pressed,
        bool_code_set pressed,
      )
      (ground arith)

module _ (x y : ℤ) (d : ℕ) (hx : IsI32 x) (hy : IsI32 y) (hd : d < 2 ^ 32) where
  decode_reliable_input-button :
      (b : MouseButton) (pressed : Bool)
      → IsEvent (mouse_button b pressed x y d)
      → decode_reliable_input (encode_reliable_input (mouse_button b pressed x y d))
        ≡ ok (mouse_button b pressed x y d)
  unfolding decode_reliable_input encode_reliable_input to_be_bytes read read_slice index bytes_eq
      validate_display_id validate_absolute_coordinates
  decode_reliable_input-button b pressed v =
      simp
        (
          zero_two,
          zero_four,
          from_be_bytes-to_be_bytes 4 (to_u32 x) (to_u32-lt x),
          from_be_bytes-to_be_bytes 4 (to_u32 y) (to_u32-lt y),
          from_be_bytes-to_be_bytes 4 d hd,
          of_u32-to_u32 x hx,
          of_u32-to_u32 y hy,
          bool_code_small pressed,
          bool_code_set pressed,
          button_of_code-button_code b,
        )
        (ground arith)

  decode_reliable_input-wheel :
      IsEvent (wheel x y d)
      → decode_reliable_input (encode_reliable_input (wheel x y d)) ≡ ok (wheel x y d)
  unfolding decode_reliable_input encode_reliable_input to_be_bytes read read_slice index
      validate_display_id validate_relative_coordinates
  decode_reliable_input-wheel v =
      simp
        (
          zero_two,
          zero_four,
          from_be_bytes-to_be_bytes 4 (to_u32 x) (to_u32-lt x),
          from_be_bytes-to_be_bytes 4 (to_u32 y) (to_u32-lt y),
          from_be_bytes-to_be_bytes 4 d hd,
          of_u32-to_u32 x hx,
          of_u32-to_u32 y hy,
        )
        (ground arith)

-- Every event within the limits is decoded from its encoding.
pub decode_reliable_input-encode_reliable_input :
    (e : ReliableInputEvent) → IsEvent e → decode_reliable_input (encode_reliable_input e) ≡ ok e
decode_reliable_input-encode_reliable_input (key k pressed m) v =
    decode_reliable_input-key k m pressed v
decode_reliable_input-encode_reliable_input (mouse_button b pressed x y d) v =
    decode_reliable_input-button x y d (IsI32-of_small x (omega arith))
      (IsI32-of_small y (omega arith)) (omega arith) b pressed v
decode_reliable_input-encode_reliable_input (wheel x y d) v =
    decode_reliable_input-wheel x y d (IsI32-of_small x (omega arith))
      (IsI32-of_small y (omega arith)) (omega arith) v
