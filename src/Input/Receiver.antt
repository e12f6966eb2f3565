-- ===== src/Input/Receiver.antt =====
-- src/transport/input.rs: `ReliableInputReceiver` and `MouseMovementReceiver`.
-- A call that fails leaves its receiver as it was, so it returns no receiver.
use hbb_common.Common.{
  ℕ, ◌+◌, ◌-◌, ◌^◌, min, bit_and, bit_or, Bool, true, false, not, Option, none, some, List, [], ◌∷◌,
  ◌++◌, ◌==◌, leb, if◌then◌else◌, bytes_eq, Outcome, ok, ◌>>=◌, ◌>>◌, reject_if, map_err,
}
use hbb_common.Common.OrderedSet.{insert, remove}
use hbb_common.Protocol.Message.{decode_message}
use hbb_common.Input.Types.{
  ReliableInputEvent, key, mouse_button, wheel, MouseButton, left, right, middle, back, forward,
  MouseMovement, InputError, protocol, invalid_sequence, session_mismatch, mask,
}
use hbb_common.Common.Int.{pos}
use hbb_common.Input.Event.{decode_reliable_input}
use hbb_common.Input.Mouse.{decode_mouse_movement, decode_application_mouse_movement}

pub record ReliableInputReceiver : Type 0 where
  pub last_sequence : ℕ
  pub pressed_keys : List ℕ
  pub pressed_buttons : ℕ

unfoldable pub new : ReliableInputReceiver
new = record { last_sequence = 0; pressed_keys = []; pressed_buttons = 0 }

track_key : ReliableInputReceiver → ℕ → Bool → ReliableInputReceiver × Bool
track_key r k true =
    let (keys, changed) = insert k r.pressed_keys in (record r { pressed_keys = keys }, changed)
track_key r k false =
    let (keys, changed) = remove k r.pressed_keys in (record r { pressed_keys = keys }, changed)

-- `pressed_buttons |= mask` and `pressed_buttons &= !mask`, on `u16`.
set_button : ℕ → ℕ → Bool → ℕ
set_button buttons m true = bit_or buttons m
set_button buttons m false = bit_and buttons (2 ^ 16 - 1 - m)

differ : Bool → Bool → Bool
differ a true = not a
differ a false = a

-- The `match` on the event: the new sets, and whether they changed.
unfoldable pub track : ReliableInputReceiver → ReliableInputEvent → ReliableInputReceiver × Bool
unfolding track_key set_button differ
track r (key k pressed modifiers) = track_key r k pressed
track r (mouse_button b pressed x y display_id) =
    let was_pressed = not (bit_and r.pressed_buttons (mask b) == 0) in
    (
      record r { pressed_buttons = set_button r.pressed_buttons (mask b) pressed },
      differ was_pressed pressed,
    )
track r (wheel delta_x delta_y display_id) = (r, true)

-- `changed.then_some(event)`.
abbrev pub then_some : {A : Type 0} → Bool → A → Option A
then_some true a = some a
then_some false a = none

unfoldable pub apply :
    ReliableInputReceiver
    → ℕ
    → List ℕ
    → Outcome InputError (Option ReliableInputEvent × ReliableInputReceiver)
apply r sequence_number payload = do
  reject_if (not (sequence_number == min (r.last_sequence + 1) (2 ^ 64 - 1)))
      (invalid_sequence r.last_sequence sequence_number)
  event ← decode_reliable_input payload
  let tracked = track (record r { last_sequence = sequence_number }) event
  ok (then_some tracked.1 event, tracked.0)

abbrev pub all_buttons : List MouseButton
all_buttons = left ∷ right ∷ middle ∷ back ∷ forward ∷ []

unfoldable pub release_keys : List ℕ → List ReliableInputEvent
release_keys [] = []
release_keys (k ∷ ks) = key k false 0 ∷ release_keys ks

unfoldable pub release_buttons : ℕ → List MouseButton → List ReliableInputEvent
release_buttons buttons [] = []
release_buttons buttons (b ∷ bs) =
    if not (bit_and buttons (mask b) == 0)
    then mouse_button b false (pos 0) (pos 0) 0 ∷ release_buttons buttons bs
    else release_buttons buttons bs

unfoldable pub release_all : ReliableInputReceiver → List ReliableInputEvent × ReliableInputReceiver
unfolding release_keys release_buttons
release_all r = (
  release_keys r.pressed_keys ++ release_buttons r.pressed_buttons all_buttons,
  record { last_sequence = 0; pressed_keys = []; pressed_buttons = 0 },
)

pub record MouseMovementReceiver : Type 0 where
  pub session_id : List ℕ
  pub last_sequence : ℕ

unfoldable pub new_mouse : List ℕ → MouseMovementReceiver
new_mouse session_id = record { session_id = session_id; last_sequence = 0 }

-- A movement that is not newer than the last one is dropped.
accept_newer : {A : Type 0} → MouseMovementReceiver → ℕ → A → Option A × MouseMovementReceiver
accept_newer r sequence a =
    if leb sequence r.last_sequence
    then (none, r)
    else (some a, record r { last_sequence = sequence })

unfoldable pub apply_mouse :
    MouseMovementReceiver
    → List ℕ
    → Outcome InputError (Option MouseMovement × MouseMovementReceiver)
unfolding accept_newer
apply_mouse r datagram = do
  message ← map_err protocol (decode_message datagram)
  reject_if (not (bytes_eq message.header.session_id r.session_id)) session_mismatch
  movement ← decode_mouse_movement datagram
  ok (accept_newer r movement.sequence_number movement)

unfoldable pub apply_application :
    MouseMovementReceiver
    → List ℕ
    → Outcome InputError (Option (MouseMovement × List ℕ) × MouseMovementReceiver)
unfolding accept_newer
apply_application r datagram = do
  message ← map_err protocol (decode_message datagram)
  reject_if (not (bytes_eq message.header.session_id r.session_id)) session_mismatch
  decoded ← decode_application_mouse_movement datagram
  ok (accept_newer r decoded.0.sequence_number decoded)

unfoldable pub reset_mouse : MouseMovementReceiver → MouseMovementReceiver
reset_mouse r = record r { last_sequence = 0 }
