-- ===== src/FileTransfer/Wire.antt =====
-- src/transport/file_transfer.rs: the payloads of a file transfer.
use hbb_common.Common.{
  ℕ, ◌+◌, ◌%◌, ◌^◌, not, ◌||◌, List, ◌++◌, length, ltb, ◌==◌, replicate, Outcome, ok, ◌>>=◌, ◌>>◌,
  reject_if, map_err,
}
use hbb_common.Common.Bytes.{to_be_bytes, read, read_slice, read_tail, write}
use hbb_common.Common.Utf8.{from_utf8}
use hbb_common.FileTransfer.Types.{
  FileTransferMetadata, FileChunk, FileCancelReason, FileTransferError, metadata_truncated,
  invalid_reserved_field, invalid_name_length, invalid_utf8, chunk_truncated, invalid_chunk_size,
  file_metadata_header_len, file_chunk_header_len, file_cancel_payload_len, max_file_name_bytes,
  max_file_chunk_bytes, reason_code, reason_of_code, validate_transfer_id, validate_metadata,
}

unfoldable pub encode_file_metadata : FileTransferMetadata → ℕ → Outcome FileTransferError (List ℕ)
encode_file_metadata m max_file_bytes = do
  validate_metadata m max_file_bytes
  ok (
      m.transfer_id
      ++ (to_be_bytes 8 m.file_size
          ++ (to_be_bytes 8 m.resume_offset
              ++ (m.sha256
                  ++ (to_be_bytes 2 (length m.file_name % 2 ^ 16)
                      ++ (to_be_bytes 2 0 ++ m.file_name))))))

unfoldable pub decode_file_metadata : List ℕ → ℕ → Outcome FileTransferError FileTransferMetadata
decode_file_metadata payload max_file_bytes = do
  reject_if (ltb (length payload) file_metadata_header_len) metadata_truncated
  reserved ← read 2 66 payload
  reject_if (not (reserved == 0)) invalid_reserved_field
  name_len ← read 2 64 payload
  reject_if
      (name_len == 0
        || (ltb max_file_name_bytes name_len
            || not (length payload == file_metadata_header_len + name_len)))
      invalid_name_length
  file_name ← read_tail file_metadata_header_len payload
  characters ← map_err (λ e. invalid_utf8) (from_utf8 file_name)
  transfer_id ← read_slice 0 16 payload
  sha256 ← read_slice 32 32 payload
  file_size ← read 8 16 payload
  resume_offset ← read 8 24 payload
  let metadata : FileTransferMetadata = record {
    transfer_id = transfer_id;
    file_name = file_name;
    file_size = file_size;
    resume_offset = resume_offset;
    sha256 = sha256;
  }
  validate_metadata metadata max_file_bytes
  ok metadata

unfoldable pub encode_file_chunk : FileChunk → Outcome FileTransferError (List ℕ)
encode_file_chunk chunk = do
  validate_transfer_id chunk.transfer_id
  reject_if (length chunk.data_bytes == 0 || ltb max_file_chunk_bytes (length chunk.data_bytes))
      (invalid_chunk_size (length chunk.data_bytes))
  ok (
      chunk.transfer_id
      ++ (to_be_bytes 8 chunk.offset
          ++ (to_be_bytes 4 (length chunk.data_bytes % 2 ^ 32) ++ chunk.data_bytes)))

unfoldable pub decode_file_chunk : List ℕ → Outcome FileTransferError FileChunk
decode_file_chunk payload = do
  reject_if (ltb (length payload) file_chunk_header_len) chunk_truncated
  declared_len ← read 4 24 payload
  tail ← read_tail file_chunk_header_len payload
  reject_if
      (declared_len == 0
        || (ltb max_file_chunk_bytes declared_len || not (length tail == declared_len)))
      (invalid_chunk_size declared_len)
  transfer_id ← read_slice 0 16 payload
  validate_transfer_id transfer_id
  offset ← read 8 16 payload
  ok (record { transfer_id = transfer_id; offset = offset; data_bytes = tail })

unfoldable pub encode_file_cancel : List ℕ → FileCancelReason → Outcome FileTransferError (List ℕ)
encode_file_cancel transfer_id reason = do
  validate_transfer_id transfer_id
  ok (write 16 (to_be_bytes 2 (reason_code reason)) (write 0 transfer_id (replicate 20 0)))

unfoldable pub decode_file_cancel : List ℕ → Outcome FileTransferError (List ℕ × FileCancelReason)
decode_file_cancel payload = do
  reject_if (not (length payload == file_cancel_payload_len)) chunk_truncated
  reserved ← read 2 18 payload
  reject_if (not (reserved == 0)) invalid_reserved_field
  transfer_id ← read_slice 0 16 payload
  validate_transfer_id transfer_id
  code ← read 2 16 payload
  reason ← reason_of_code code
  ok (transfer_id, reason)
