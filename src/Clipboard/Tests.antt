-- ===== src/Clipboard/Tests.antt =====
-- Runs of the clipboard, and its theorems at concrete inputs.
use hbb_common.Common.Bytes.{
  to_be_bytes, read_tail, index, from_be_bytes, read, read_slice, are_bytes, are_bytes→All, IsByte,
}
use hbb_common.Clipboard.State.{
  lookup, can_receive, can_send, validate_origin_and_sequence, ClipboardPermission, ClipboardText,
  ClipboardState, permission_denied, new_clipboard, encode_clipboard_text, decode_clipboard_text,
  prepare_local_text, receive,
}
use hbb_common.Common.{
  some, bytes_eq, all_zero, ℕ, ◌≡◌, ◌↔◌, refl, List, [], ◌∷◌, ◌++◌, replicate, ok, err, All, arith,
  ◌+◌,
}
use hbb_common.Common.Utf8.{from_utf8}
use hbb_common.Clipboard.Fields.{IsText}
use hbb_common.Clipboard.Wire.{decode_clipboard_text_iff}
use hbb_common.Clipboard.Send.{receive-prepare_local_text}
use hbb_common.Clipboard.Step.{last}
use hbb_common.Clipboard.Replay.{Ran, receive_run, receive_run-Ran}

abbrev origin : List ℕ
origin = 7 ∷ replicate 15 0

abbrev local_origin : List ℕ
local_origin = 8 ∷ replicate 15 0

-- "hé" as the third text of the origin.
abbrev text : ClipboardText
text = record { origin_id = origin; change_sequence = 3; text = 0x68 ∷ 0xc3 ∷ 0xa9 ∷ [] }

abbrev payload : List ℕ
payload = origin ++ (replicate 7 0 ++ (3 ∷ 1 ∷ 0 ∷ 0 ∷ 0 ∷ 0 ∷ 0 ∷ 0 ∷ 3 ∷ 0x68 ∷ 0xc3 ∷ 0xa9 ∷ []))

abbrev peer : ClipboardState
peer = record {
  permission = ClipboardPermission.receive_only;
  local_origin_id = local_origin;
  next_local_sequence = 1;
  remote_sequences = [];
  max_bytes = 16;
}

new_peer : new_clipboard ClipboardPermission.receive_only local_origin 16 ≡ ok peer
unfolding new_clipboard validate_origin_and_sequence all_zero
new_peer = refl

peer_may_not_send : prepare_local_text peer [] ≡ err permission_denied
unfolding prepare_local_text can_send
peer_may_not_send = refl

decode_payload : decode_clipboard_text payload 16 ≡ ok text
unfolding decode_clipboard_text read_slice read validate_origin_and_sequence all_zero from_be_bytes
    index read_tail from_utf8
decode_payload = refl

-- The same payload twice is handed out once.
replay : (receive_run peer (payload ∷ payload ∷ [])).0 ≡ text ∷ []
unfolding receive_run receive can_receive decode_clipboard_text read_slice read
    validate_origin_and_sequence all_zero from_be_bytes index read_tail from_utf8 bytes_eq lookup
replay = refl

decode_clipboard_text_iff_example :
    (decode_clipboard_text payload 16 ≡ ok text)
    ↔ (IsText text × (encode_clipboard_text origin 3 (0x68 ∷ 0xc3 ∷ 0xa9 ∷ []) 16 ≡ ok payload))
unfolding are_bytes
decode_clipboard_text_iff_example =
    decode_clipboard_text_iff payload 16 text (are_bytes→All payload refl)

receive_run-Ran_example : Ran peer (receive_run peer (payload ∷ payload ∷ []))
receive_run-Ran_example = receive_run-Ran peer (payload ∷ payload ∷ [])

abbrev sender : ClipboardState
sender = record {
  permission = ClipboardPermission.bidirectional;
  local_origin_id = origin;
  next_local_sequence = 3;
  remote_sequences = [];
  max_bytes = 16;
}

abbrev sent_sender : ClipboardState
sent_sender = record sender { next_local_sequence = 4 }

prepare_text : prepare_local_text sender (0x68 ∷ 0xc3 ∷ 0xa9 ∷ []) ≡ ok (payload, sent_sender)
unfolding prepare_local_text can_send encode_clipboard_text validate_origin_and_sequence all_zero
    to_be_bytes
prepare_text = refl

payload_bytes : All IsByte payload
unfolding are_bytes
payload_bytes = are_bytes→All payload refl

text-IsText : IsText text
text-IsText = ((decode_clipboard_text_iff payload 16 text payload_bytes).0 decode_payload).0

receive-prepare_local_text_example :
    (sent_sender ≡ record sender { next_local_sequence = 3 + 1 })
    × ((q : ClipboardState) × (receive peer payload ≡ ok (some text, q)))
unfolding last can_receive bytes_eq lookup
receive-prepare_local_text_example =
    receive-prepare_local_text sender sent_sender peer (0x68 ∷ 0xc3 ∷ 0xa9 ∷ []) payload
      prepare_text text-IsText payload_bytes refl refl refl (omega arith) (omega arith)
