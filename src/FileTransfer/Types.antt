-- ===== src/FileTransfer/Types.antt =====
-- src/transport/file_transfer.rs: the data of a file transfer, its limits and their checks.
-- A name is the list of the bytes of its UTF-8; a transfer identifier has 16 bytes, a hash 32.
use hbb_common.Common.{
  ℕ, ◌*◌, Bool, ◌||◌, List, [], ◌∷◌, length, ltb, ◌==◌, all_zero, bytes_eq, Outcome, ok, err, ◌>>◌,
  reject_if, if◌then◌else◌,
}
use hbb_common.Common.Utf8.{chars, any, is_control}

pub record FileTransferMetadata : Type 0 where
  pub transfer_id : List ℕ
  pub file_name : List ℕ
  pub file_size : ℕ
  pub resume_offset : ℕ
  pub sha256 : List ℕ

pub record FileChunk : Type 0 where
  pub transfer_id : List ℕ
  pub offset : ℕ
  pub data_bytes : List ℕ

pub data FileCancelReason : Type 0 where
  user permission_denied invalid_data integrity_failure session_closed : FileCancelReason

pub record FileTransferProgress : Type 0 where
  pub completed_bytes : ℕ
  pub total_bytes : ℕ

pub data FileTransferError : Type 0 where
  permission_denied : FileTransferError
  zero_transfer_id : FileTransferError
  invalid_file_name : FileTransferError
  file_too_large : ℕ → FileTransferError
  invalid_resume_offset : ℕ → ℕ → FileTransferError
  missing_hash : FileTransferError
  metadata_truncated : FileTransferError
  invalid_reserved_field : FileTransferError
  invalid_name_length : FileTransferError
  invalid_utf8 : FileTransferError
  chunk_truncated : FileTransferError
  invalid_chunk_size : ℕ → FileTransferError
  transfer_id_mismatch : FileTransferError
  unexpected_offset : ℕ → ℕ → FileTransferError
  chunk_exceeds_file_size : FileTransferError
  incomplete : FileTransferError
  hash_mismatch : FileTransferError
  cancelled : FileTransferError
  invalid_resume_state : FileTransferError
  unknown_cancel_reason : ℕ → FileTransferError
  invalid_rate_limit : FileTransferError

abbrev pub file_metadata_header_len : ℕ
file_metadata_header_len = 68

abbrev pub file_chunk_header_len : ℕ
file_chunk_header_len = 28

abbrev pub file_cancel_payload_len : ℕ
file_cancel_payload_len = 20

abbrev pub max_file_name_bytes : ℕ
max_file_name_bytes = 255

abbrev pub max_file_chunk_bytes : ℕ
max_file_chunk_bytes = 256 * 1024

unfoldable pub reason_code : FileCancelReason → ℕ
reason_code FileCancelReason.user = 1
reason_code FileCancelReason.permission_denied = 2
reason_code FileCancelReason.invalid_data = 3
reason_code FileCancelReason.integrity_failure = 4
reason_code FileCancelReason.session_closed = 5

unfoldable pub reason_of_code : ℕ → Outcome FileTransferError FileCancelReason
reason_of_code value =
    if value == 1
    then ok FileCancelReason.user
    else if value == 2
    then ok FileCancelReason.permission_denied
    else if value == 3
    then ok FileCancelReason.invalid_data
    else if value == 4
    then ok FileCancelReason.integrity_failure
    else if value == 5
    then ok FileCancelReason.session_closed
    else err (unknown_cancel_reason value)

unfoldable pub validate_transfer_id : List ℕ → Outcome FileTransferError (Unit {0})
validate_transfer_id transfer_id = reject_if (all_zero transfer_id) zero_transfer_id

-- '/', '\', ':' and NUL.
is_separator : ℕ → Bool
is_separator c = c == 0x2f || (c == 0x5c || (c == 0x3a || c == 0))

unfoldable pub validate_file_name : List ℕ → Outcome FileTransferError (Unit {0})
unfolding is_separator
validate_file_name file_name =
    reject_if
      (length file_name == 0
        || (ltb max_file_name_bytes (length file_name)
            || (bytes_eq file_name (0x2e ∷ [])
                || (bytes_eq file_name (0x2e ∷ 0x2e ∷ [])
                    || (any is_separator (chars file_name) || any is_control (chars file_name))))))
      invalid_file_name

unfoldable pub validate_metadata : FileTransferMetadata → ℕ → Outcome FileTransferError (Unit {0})
unfolding validate_transfer_id validate_file_name
validate_metadata m max_file_bytes = do
  validate_transfer_id m.transfer_id
  validate_file_name m.file_name
  reject_if (ltb max_file_bytes m.file_size) (file_too_large m.file_size)
  reject_if (ltb m.file_size m.resume_offset) (invalid_resume_offset m.resume_offset m.file_size)
  reject_if (all_zero m.sha256) missing_hash
