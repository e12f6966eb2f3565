-- ===== src/FileTransfer/Receiver.antt =====
-- src/transport/file_transfer.rs: `FileTransferReceiver`. The SHA-256 implementation of the `sha2`
-- crate is a parameter. A call that fails leaves the receiver as it was, so it returns none.
use hbb_common.Common.{
  ℕ, ◌+◌, ◌^◌, Bool, true, false, not, ◌||◌, Option, none, some, List, length, ltb, leb, ◌==◌,
  if◌then◌else◌, bytes_eq, Outcome, ok, err, ◌>>=◌, ◌>>◌, reject_if,
}
use hbb_common.FileTransfer.Types.{
  FileTransferMetadata, FileChunk, FileTransferProgress, FileTransferError, permission_denied,
  transfer_id_mismatch, unexpected_offset, invalid_chunk_size, chunk_exceeds_file_size, incomplete,
  hash_mismatch, cancelled, invalid_resume_state, max_file_chunk_bytes, validate_metadata,
}

-- The interface of `sha2::Sha256`.
pub record Sha256 : Type 1 where
  pub Hasher : Type 0
  pub new_hasher : Hasher
  pub update : Hasher → List ℕ → Hasher
  pub finalize : Hasher → List ℕ

module _ (sha : Sha256) where
  pub record FileResumeState : Type 0 where
    pub offset : ℕ
    pub hasher : sha.Hasher

  pub record FileTransferReceiver : Type 0 where
    pub metadata : FileTransferMetadata
    pub expected_offset : ℕ
    pub hasher : sha.Hasher
    pub is_cancelled : Bool

  -- The hasher that a transfer goes on with.
  unfoldable pub initial_hasher :
      FileTransferMetadata → Option FileResumeState → Outcome FileTransferError sha.Hasher
  initial_hasher metadata none =
      if metadata.resume_offset == 0 then ok sha.new_hasher else err invalid_resume_state
  initial_hasher metadata (some resume_state) =
      if metadata.resume_offset == 0
      then err invalid_resume_state
      else if not (resume_state.offset == metadata.resume_offset)
      then err invalid_resume_state
      else ok resume_state.hasher

  unfoldable pub start :
      FileTransferMetadata
      → ℕ
      → Bool
      → Option FileResumeState
      → Outcome FileTransferError FileTransferReceiver
  unfolding initial_hasher
  start metadata max_file_bytes user_permitted resume_state = do
    reject_if (not user_permitted) permission_denied
    validate_metadata metadata max_file_bytes
    hasher ← initial_hasher metadata resume_state
    ok (record {
      metadata = metadata;
      expected_offset = metadata.resume_offset;
      hasher = hasher;
      is_cancelled = false;
    })

  unfoldable pub progress : FileTransferReceiver → FileTransferProgress
  progress r = record { completed_bytes = r.expected_offset; total_bytes = r.metadata.file_size }

  unfoldable pub accept_chunk :
      FileTransferReceiver
      → FileChunk
      → Outcome FileTransferError (FileTransferProgress × FileTransferReceiver)
  accept_chunk r chunk = do
    reject_if r.is_cancelled cancelled
    reject_if (not (bytes_eq chunk.transfer_id r.metadata.transfer_id)) transfer_id_mismatch
    reject_if (not (chunk.offset == r.expected_offset))
        (unexpected_offset r.expected_offset chunk.offset)
    reject_if (length chunk.data_bytes == 0 || ltb max_file_chunk_bytes (length chunk.data_bytes))
        (invalid_chunk_size (length chunk.data_bytes))
    let next_offset = r.expected_offset + length chunk.data_bytes
    reject_if (leb (2 ^ 64) next_offset) chunk_exceeds_file_size
    reject_if (ltb r.metadata.file_size next_offset) chunk_exceeds_file_size
    let next = record r {
      hasher = sha.update r.hasher chunk.data_bytes;
      expected_offset = next_offset;
    }
    ok (progress next, next)

  unfoldable pub cancel : FileTransferReceiver → FileTransferReceiver
  cancel r = record r { is_cancelled = true }

  unfoldable pub finish : FileTransferReceiver → Outcome FileTransferError FileTransferMetadata
  finish r = do
    reject_if r.is_cancelled cancelled
    reject_if (not (r.expected_offset == r.metadata.file_size)) incomplete
    reject_if (not (bytes_eq (sha.finalize r.hasher) r.metadata.sha256)) hash_mismatch
    ok r.metadata
