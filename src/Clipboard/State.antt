-- ===== src/Clipboard/State.antt =====
-- src/transport/clipboard.rs: the clipboard payload and `ClipboardState`. A text is the list of the
-- bytes of its UTF-8, an origin has 16 bytes, and the map of sequences is an association list. A
-- call that fails leaves the state as it was, so it returns none.
use hbb_common.Common.{
  ℕ, ◌+◌, ◌-◌, ◌*◌, ◌%◌, ◌^◌, Bool, true, false, not, ◌||◌, Option, none, some, List, [], ◌∷◌, ◌++◌,
  length, ltb, leb, ◌==◌, all_zero, bytes_eq, if◌then◌else◌, Outcome, ok, ◌>>=◌, ◌>>◌, reject_if,
  map_err,
}
use hbb_common.Common.Bytes.{to_be_bytes, read, index, read_slice, read_tail}
use hbb_common.Common.Utf8.{from_utf8}

abbrev pub clipboard_header_len : ℕ
clipboard_header_len = 32

abbrev pub default_max_clipboard_bytes : ℕ
default_max_clipboard_bytes = 1024 * 1024

abbrev pub max_tracked_origins : ℕ
max_tracked_origins = 8

abbrev pub format_utf8_text : ℕ
format_utf8_text = 1

pub data ClipboardPermission : Type 0 where
  disabled receive_only send_only bidirectional : ClipboardPermission

unfoldable pub can_send : ClipboardPermission → Bool
can_send ClipboardPermission.disabled = false
can_send ClipboardPermission.receive_only = false
can_send ClipboardPermission.send_only = true
can_send ClipboardPermission.bidirectional = true

unfoldable pub can_receive : ClipboardPermission → Bool
can_receive ClipboardPermission.disabled = false
can_receive ClipboardPermission.receive_only = true
can_receive ClipboardPermission.send_only = false
can_receive ClipboardPermission.bidirectional = true

pub record ClipboardText : Type 0 where
  pub origin_id : List ℕ
  pub change_sequence : ℕ
  pub text : List ℕ

pub data ClipboardError : Type 0 where
  permission_denied : ClipboardError
  zero_origin : ClipboardError
  zero_sequence : ClipboardError
  header_truncated : ClipboardError
  unsupported_format : ℕ → ClipboardError
  invalid_reserved_field : ClipboardError
  invalid_size : ℕ → ClipboardError
  invalid_utf8 : ClipboardError
  too_many_origins : ClipboardError
  sequence_exhausted : ClipboardError

unfoldable pub validate_origin_and_sequence : List ℕ → ℕ → Outcome ClipboardError (Unit {0})
validate_origin_and_sequence origin_id change_sequence = do
  reject_if (all_zero origin_id) zero_origin
  reject_if (change_sequence == 0) zero_sequence

unfoldable pub encode_clipboard_text : List ℕ → ℕ → List ℕ → ℕ → Outcome ClipboardError (List ℕ)
encode_clipboard_text origin_id change_sequence text max_bytes = do
  validate_origin_and_sequence origin_id change_sequence
  reject_if (ltb max_bytes (length text) || ltb (2 ^ 32 - 1) (length text))
      (invalid_size (length text))
  ok (
      origin_id
      ++ (to_be_bytes 8 change_sequence
          ++ (format_utf8_text
              ∷ 0
              ∷ (to_be_bytes 2 0 ++ (to_be_bytes 4 (length text % 2 ^ 32) ++ text)))))

unfoldable pub decode_clipboard_text : List ℕ → ℕ → Outcome ClipboardError ClipboardText
decode_clipboard_text payload max_bytes = do
  reject_if (ltb (length payload) clipboard_header_len) header_truncated
  origin_id ← read_slice 0 16 payload
  change_sequence ← read 8 16 payload
  validate_origin_and_sequence origin_id change_sequence
  format ← index 24 payload
  reject_if (not (format == format_utf8_text)) (unsupported_format format)
  flags ← index 25 payload
  reserved ← read 2 26 payload
  reject_if (not (flags == 0) || not (reserved == 0)) invalid_reserved_field
  declared_len ← read 4 28 payload
  text_bytes ← read_tail clipboard_header_len payload
  reject_if (not (declared_len == length text_bytes) || ltb max_bytes declared_len)
      (invalid_size declared_len)
  characters ← map_err (λ e. invalid_utf8) (from_utf8 text_bytes)
  ok (record { origin_id = origin_id; change_sequence = change_sequence; text = text_bytes })

pub record ClipboardState : Type 0 where
  pub permission : ClipboardPermission
  pub local_origin_id : List ℕ
  pub next_local_sequence : ℕ
  pub remote_sequences : List (List ℕ × ℕ)
  pub max_bytes : ℕ

unfoldable pub new_clipboard :
    ClipboardPermission → List ℕ → ℕ → Outcome ClipboardError ClipboardState
new_clipboard permission local_origin_id max_bytes = do
  validate_origin_and_sequence local_origin_id 1
  reject_if (max_bytes == 0 || ltb default_max_clipboard_bytes max_bytes) (invalid_size max_bytes)
  ok (record {
    permission = permission;
    local_origin_id = local_origin_id;
    next_local_sequence = 1;
    remote_sequences = [];
    max_bytes = max_bytes;
  })

unfoldable pub prepare_local_text :
    ClipboardState → List ℕ → Outcome ClipboardError (List ℕ × ClipboardState)
prepare_local_text s text = do
  reject_if (not (can_send s.permission)) permission_denied
  payload ← encode_clipboard_text s.local_origin_id s.next_local_sequence text s.max_bytes
  reject_if (leb (2 ^ 64) (s.next_local_sequence + 1)) sequence_exhausted
  ok (payload, record s { next_local_sequence = s.next_local_sequence + 1 })

-- `get`, and an assignment through `get_mut`, on the map.
unfoldable pub lookup : List ℕ → List (List ℕ × ℕ) → Option ℕ
lookup origin [] = none
lookup origin (entry ∷ entries) =
    if bytes_eq entry.0 origin then some entry.1 else lookup origin entries

unfoldable pub assign : List ℕ → ℕ → List (List ℕ × ℕ) → List (List ℕ × ℕ)
assign origin sequence [] = []
assign origin sequence (entry ∷ entries) =
    if bytes_eq entry.0 origin
    then (entry.0, sequence) ∷ entries
    else entry ∷ assign origin sequence entries

-- A message from another origin, given the last sequence number of that origin.
unfoldable pub receive_remote :
    ClipboardState
    → ClipboardText
    → Option ℕ
    → Outcome ClipboardError (Option ClipboardText × ClipboardState)
receive_remote s clipboard (some last_sequence) = ok (
    if leb clipboard.change_sequence last_sequence then (none, s) else (
      some clipboard,
      record s {
        remote_sequences = assign clipboard.origin_id clipboard.change_sequence s.remote_sequences;
      },
    ))
receive_remote s clipboard none = do
  reject_if (leb max_tracked_origins (length s.remote_sequences)) too_many_origins
  ok (
    some clipboard,
    record s {
      remote_sequences = (clipboard.origin_id, clipboard.change_sequence) ∷ s.remote_sequences;
    },
  )

unfoldable pub receive :
    ClipboardState → List ℕ → Outcome ClipboardError (Option ClipboardText × ClipboardState)
unfolding receive_remote
receive s payload = do
  reject_if (not (can_receive s.permission)) permission_denied
  clipboard ← decode_clipboard_text payload s.max_bytes
  if bytes_eq clipboard.origin_id s.local_origin_id
      then ok (none, s)
      else receive_remote s clipboard (lookup clipboard.origin_id s.remote_sequences)

unfoldable pub reset_remote_state : ClipboardState → ClipboardState
reset_remote_state s = record s { remote_sequences = [] }
