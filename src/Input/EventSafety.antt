-- ===== src/Input/EventSafety.antt =====
-- `decode_reliable_input` on hostile bytes.
use native.Mathlib.Decide.{ℕ_discrete}
use hbb_common.Common.{
  true, false, ℕ, ◌≡◌, ◌≢◌, refl, sym, ◌∙◌, arith, Bool, not, ◌||◌, if◌then◌else◌, List, [], ◌∷◌,
  length, All, bit_and, ◌==◌, bytes_eq, Outcome, ok, err, panic, ◌>>=◌, ◌>>◌, reject_if,
}
use hbb_common.Common.Bytes.{
  IsByte, field, slice, read_in_range, index_in_range, read_slice_in_range, from_be_bytes-slice-lt,
}
use hbb_common.Common.Int.{of_u32}
use hbb_common.Input.Types.{
  ReliableInputEvent, key, mouse_button, wheel, InputError, invalid_reliable_payload_size,
  reserved_field, unknown_flags, unknown_input_event, invalid_key_code, button_of_code,
  validate_display_id, validate_absolute_coordinates, validate_relative_coordinates,
}
use hbb_common.Input.Event.{
  decode_reliable_input, decode_kind, decode_key, decode_button, decode_wheel,
}
use hbb_common.Input.EventLaws.{IsEvent}

module _ (p : List ℕ) (len : length p ≡ 24) where
  -- The branches of the decoder without their reads.
  abbrev checked_key : ℕ → Outcome InputError ReliableInputEvent
  checked_key flags = do
    reject_if (field 4 4 p == 0 || (not (field 4 8 p == 0) || not (field 4 12 p == 0)))
        invalid_key_code
    ok (key (field 4 4 p) (not (flags == 0)) (field 4 16 p))

  abbrev checked_button : ℕ → Outcome InputError ReliableInputEvent
  checked_button flags = do
    reject_if (not (bytes_eq (slice 5 3 p) (0 ∷ 0 ∷ 0 ∷ []))) reserved_field
    validate_display_id (field 4 16 p)
    validate_absolute_coordinates (of_u32 (field 4 8 p)) (of_u32 (field 4 12 p))
    button ← button_of_code (field 1 4 p)
    ok (
        mouse_button button (not (flags == 0)) (of_u32 (field 4 8 p)) (of_u32 (field 4 12 p))
          (field 4 16 p))

  abbrev checked_wheel : ℕ → Outcome InputError ReliableInputEvent
  checked_wheel flags = do
    reject_if (not (flags == 0) || not (field 4 4 p == 0)) reserved_field
    validate_display_id (field 4 16 p)
    validate_relative_coordinates (of_u32 (field 4 8 p)) (of_u32 (field 4 12 p))
    ok (wheel (of_u32 (field 4 8 p)) (of_u32 (field 4 12 p)) (field 4 16 p))

  decode_key-eq-checked_key : (flags : ℕ) → decode_key p flags ≡ checked_key flags
  unfolding decode_key
  decode_key-eq-checked_key flags =
      simp
        (
          read_in_range {E = InputError} 4 4 p (omega arith),
          read_in_range {E = InputError} 4 8 p (omega arith),
          read_in_range {E = InputError} 4 12 p (omega arith),
          read_in_range {E = InputError} 4 16 p (omega arith),
        )
        refl

  decode_button-eq-checked_button : (flags : ℕ) → decode_button p flags ≡ checked_button flags
  unfolding decode_button
  decode_button-eq-checked_button flags =
      simp
        (
          read_slice_in_range {E = InputError} 5 3 p (omega arith),
          read_in_range {E = InputError} 4 8 p (omega arith),
          read_in_range {E = InputError} 4 12 p (omega arith),
          read_in_range {E = InputError} 4 16 p (omega arith),
          index_in_range {E = InputError} 4 p (omega arith),
        )
        refl

  decode_wheel-eq-checked_wheel : (flags : ℕ) → decode_wheel p flags ≡ checked_wheel flags
  unfolding decode_wheel
  decode_wheel-eq-checked_wheel flags =
      simp
        (
          read_in_range {E = InputError} 4 4 p (omega arith),
          read_in_range {E = InputError} 4 8 p (omega arith),
          read_in_range {E = InputError} 4 12 p (omega arith),
          read_in_range {E = InputError} 4 16 p (omega arith),
        )
        refl

  decode_kind_lem :
      (kind flags : ℕ)
      → decode_kind p kind flags ≡ (
          if kind == 1
          then checked_key flags
          else if kind == 2
          then checked_button flags
          else if kind == 3
          then checked_wheel flags
          else err (unknown_input_event kind))
  unfolding decode_kind
  decode_kind_lem kind flags = rw (
    decode_key-eq-checked_key flags,
    decode_button-eq-checked_button flags,
    decode_wheel-eq-checked_wheel flags,
  )

  decode_reliable_input_lem : decode_reliable_input p ≡ (
      reject_if (not (field 2 2 p == 0) || not (field 4 20 p == 0)) reserved_field
      >> (reject_if (not (bit_and (field 1 1 p) 254 == 0)) (unknown_flags (field 1 1 p))
          >> decode_kind p (field 1 0 p) (field 1 1 p)))
  unfolding decode_reliable_input
  decode_reliable_input_lem =
      simp
        (
          len,
          read_in_range {E = InputError} 2 2 p (omega arith),
          read_in_range {E = InputError} 4 20 p (omega arith),
          index_in_range {E = InputError} 1 p (omega arith),
          index_in_range {E = InputError} 0 p (omega arith),
        )
        refl

  decode_kind-ne-panic : (kind flags : ℕ) → decode_kind p kind flags ≢ panic
  unfolding button_of_code validate_display_id validate_absolute_coordinates
      validate_relative_coordinates
  decode_kind-ne-panic kind flags h = ground (arith, decode_kind_lem kind flags)

  module _ (e : ReliableInputEvent) (bytes : All IsByte p) where
    checked_key-IsEvent : (flags : ℕ) → checked_key flags ≡ ok e → IsEvent e
    checked_key-IsEvent flags h =
        ground (arith, from_be_bytes-slice-lt 4 4 p bytes, from_be_bytes-slice-lt 16 4 p bytes)

    checked_button-IsEvent : (flags : ℕ) → checked_button flags ≡ ok e → IsEvent e
    unfolding validate_display_id validate_absolute_coordinates
    checked_button-IsEvent flags h = ground arith

    checked_wheel-IsEvent : (flags : ℕ) → checked_wheel flags ≡ ok e → IsEvent e
    unfolding validate_display_id validate_relative_coordinates
    checked_wheel-IsEvent flags h = ground arith

    decode_kind-IsEvent : (kind flags : ℕ) → decode_kind p kind flags ≡ ok e → IsEvent e
    decode_kind-IsEvent kind flags h =
        by_kind (kind == 1) (kind == 2) (kind == 3) (sym (decode_kind_lem kind flags) ∙ h)
      where
        by_kind :
            (a b c : Bool)
            → (if a
                then checked_key flags
                else if b
                then checked_button flags
                else if c
                then checked_wheel flags
                else err (unknown_input_event kind))
              ≡ ok e
            → IsEvent e
        by_kind true b c f = checked_key-IsEvent flags f
        by_kind false true c f = checked_button-IsEvent flags f
        by_kind false false true f = checked_wheel-IsEvent flags f
        by_kind false false false f = cc

wrong_size :
    (p : List ℕ) → length p ≢ 24 → decode_reliable_input p ≡ err invalid_reliable_payload_size
unfolding decode_reliable_input
wrong_size p h = ground arith

-- No payload makes `decode_reliable_input` panic, and every event that it returns is within the limits
-- of the protocol: a key code that is not 0, a display up to 255, coordinates up to 1_000_000 for a
-- button and 100_000 for a wheel in either direction.
pub decode_reliable_input_safe :
    (p : List ℕ)
    → All IsByte p
    → (decode_reliable_input p ≢ panic)
      × ((e : ReliableInputEvent) → decode_reliable_input p ≡ ok e → IsEvent e)
decode_reliable_input_safe p bytes = elim (ℕ_discrete (length p) 24) [
  | yes len ↦ (
    λ h. ground (
      arith,
      decode_reliable_input_lem p len,
      decode_kind-ne-panic p len (field 1 0 p) (field 1 1 p),
    ),
    λ e h. ground (
      arith,
      decode_reliable_input_lem p len,
      decode_kind-IsEvent p len e bytes (field 1 0 p) (field 1 1 p),
    ),
  )
  | no other ↦ (λ h. cc (h, wrong_size p other), λ e h. cc (h, wrong_size p other))
]
