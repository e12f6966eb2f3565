-- ===== src/FileTransfer/Tests.antt =====
-- Runs of the file transfer, and its theorems at concrete inputs. The hash of the runs is the identity.
use hbb_common.Common.Bytes.{
  read_slice, read_tail, from_be_bytes, read, to_be_bytes, are_bytes, are_bytes→All,
}
use hbb_common.Common.Utf8.{from_utf8, is_control, chars, any}
use hbb_common.Common.{
  bytes_eq, all_zero, ℕ, ◌+◌, ◌≡◌, ◌≢◌, ◌↔◌, refl, arith, true, false, none, List, [], ◌∷◌, ◌++◌,
  append-nil, append_assoc, length, replicate, ok, err, panic,
}
use hbb_common.FileTransfer.Types.{
  validate_transfer_id, FileTransferMetadata, FileChunk, cancelled, unexpected_offset,
  invalid_file_name, validate_file_name, validate_metadata,
}
use hbb_common.FileTransfer.Wire.{
  encode_file_metadata, decode_file_metadata, encode_file_chunk, decode_file_chunk,
}
use hbb_common.FileTransfer.Receiver.{
  Sha256, FileTransferReceiver, initial_hasher, start, accept_chunk, cancel, finish,
}
use hbb_common.FileTransfer.Chunk.{IsChunk, decode_file_chunk_iff, decode_file_chunk-ne-panic}
use hbb_common.FileTransfer.Fields.{IsMetadata}
use hbb_common.FileTransfer.Metadata.{decode_file_metadata_iff}
use hbb_common.FileTransfer.Placed.{Placed, data_of, accepted}
use hbb_common.FileTransfer.Transfer.{Sha256Laws, receive_all}
use hbb_common.FileTransfer.Finish.{finish-receive_all, finish-split, finish-cancel, split, concat}

abbrev identity_hash : Sha256
identity_hash = record {
  Hasher = List ℕ;
  new_hasher = [];
  update = λ h bs. h ++ bs;
  finalize = λ h. h;
}

identity_hash_laws : Sha256Laws identity_hash
identity_hash_laws = record {
  update_nil = λ h. append-nil h;
  update_append = λ h a b. append_assoc h a b;
}

abbrev transfer_id : List ℕ
transfer_id = 9 ∷ replicate 15 0

-- "a.txt", of three bytes.
abbrev metadata : FileTransferMetadata
metadata = record {
  transfer_id = transfer_id;
  file_name = 0x61 ∷ 0x2e ∷ 0x74 ∷ 0x78 ∷ 0x74 ∷ [];
  file_size = 3;
  resume_offset = 0;
  sha256 = 1 ∷ 2 ∷ 3 ∷ [];
}

abbrev receiver : FileTransferReceiver identity_hash
receiver = record { metadata = metadata; expected_offset = 0; hasher = []; is_cancelled = false }

abbrev chunk : FileChunk
chunk = record { transfer_id = transfer_id; offset = 5; data_bytes = 1 ∷ 2 ∷ [] }

abbrev chunk_payload : List ℕ
chunk_payload = transfer_id ++ (0 ∷ 0 ∷ 0 ∷ 0 ∷ 0 ∷ 0 ∷ 0 ∷ 5 ∷ 0 ∷ 0 ∷ 0 ∷ 2 ∷ 1 ∷ 2 ∷ [])

encode_chunk : encode_file_chunk chunk ≡ ok chunk_payload
unfolding encode_file_chunk validate_transfer_id all_zero to_be_bytes
encode_chunk = refl

start_permitted : start identity_hash metadata 1024 true none ≡ ok receiver
unfolding start validate_metadata all_zero bytes_eq any chars is_control
start_permitted = refl

accept_gap : accept_chunk identity_hash receiver chunk ≡ err (unexpected_offset 0 5)
unfolding accept_chunk bytes_eq
accept_gap = refl

-- "..", "a/b", a name with a line break and one with U+0085.
bad_names :
    (validate_file_name (0x2e ∷ 0x2e ∷ []) ≡ err invalid_file_name)
    × (validate_file_name (0x61 ∷ 0x2f ∷ 0x62 ∷ []) ≡ err invalid_file_name)
    × (validate_file_name (0x61 ∷ 0x0a ∷ []) ≡ err invalid_file_name)
    × (validate_file_name (0xc2 ∷ 0x85 ∷ []) ≡ err invalid_file_name)
unfolding validate_file_name bytes_eq any chars is_control
bad_names = (refl, refl, refl, refl)

abbrev pieces : List (List ℕ)
pieces = (1 ∷ []) ∷ (2 ∷ 3 ∷ []) ∷ []

receive_pieces :
    (receive_all identity_hash receiver (split transfer_id 0 pieces)).1 ≡ 1 ∷ 2 ∷ 3 ∷ []
unfolding receive_all split accept_chunk bytes_eq
receive_pieces = refl

decode_file_chunk_iff_example :
    (decode_file_chunk chunk_payload ≡ ok chunk)
    ↔ (IsChunk chunk × (encode_file_chunk chunk ≡ ok chunk_payload))
unfolding are_bytes
decode_file_chunk_iff_example =
    decode_file_chunk_iff chunk_payload chunk (are_bytes→All chunk_payload refl)

decode_file_chunk-ne-panic_example : decode_file_chunk chunk_payload ≢ panic
decode_file_chunk-ne-panic_example = decode_file_chunk-ne-panic chunk_payload

abbrev full_metadata : FileTransferMetadata
full_metadata = record metadata { sha256 = replicate 32 7 }

abbrev metadata_payload : List ℕ
metadata_payload =
    transfer_id
    ++ (replicate 7 0
        ++ (3
            ∷ (replicate 8 0
                ++ (replicate 32 7 ++ (0 ∷ 5 ∷ 0 ∷ 0 ∷ 0x61 ∷ 0x2e ∷ 0x74 ∷ 0x78 ∷ 0x74 ∷ [])))))

decode_metadata : decode_file_metadata metadata_payload 1024 ≡ ok full_metadata
unfolding decode_file_metadata read from_be_bytes read_tail from_utf8 read_slice validate_metadata
    all_zero bytes_eq any chars is_control
decode_metadata = refl

decode_file_metadata_iff_example :
    (decode_file_metadata metadata_payload 1024 ≡ ok full_metadata)
    ↔ (IsMetadata full_metadata × (encode_file_metadata full_metadata 1024 ≡ ok metadata_payload))
unfolding are_bytes
decode_file_metadata_iff_example =
    decode_file_metadata_iff metadata_payload 1024 full_metadata
      (are_bytes→All metadata_payload refl)

finish-receive_all_example :
    (true ≡ true)
    × (validate_metadata metadata 1024 ≡ ok tt)
    × (metadata ≡ metadata)
    × Placed transfer_id 0 (accepted identity_hash receiver (split transfer_id 0 pieces))
    × (data_of (accepted identity_hash receiver (split transfer_id 0 pieces))
        ≡ (receive_all identity_hash receiver (split transfer_id 0 pieces)).1)
    × (0 + length (receive_all identity_hash receiver (split transfer_id 0 pieces)).1 ≡ 3)
    × (initial_hasher identity_hash metadata none ≡ ok [])
    × ([] ++ (receive_all identity_hash receiver (split transfer_id 0 pieces)).1 ≡ 1 ∷ 2 ∷ 3 ∷ [])
unfolding start validate_metadata all_zero bytes_eq any chars is_control finish receive_all split
    accept_chunk
finish-receive_all_example =
    finish-receive_all identity_hash identity_hash_laws metadata 1024 true none receiver
      (split transfer_id 0 pieces) metadata refl refl

finish-split_example :
    ((receive_all identity_hash receiver (split transfer_id 0 pieces)).1 ≡ concat pieces)
    × (finish identity_hash (receive_all identity_hash receiver (split transfer_id 0 pieces)).0
        ≡ ok metadata)
unfolding concat
finish-split_example =
    finish-split identity_hash identity_hash_laws metadata 1024 none receiver pieces start_permitted
      (omega arith) ((omega arith, omega arith), ((omega arith, omega arith), tt)) refl refl

finish-cancel_example :
    (receive_all identity_hash (cancel identity_hash receiver) (split transfer_id 0 pieces)
      ≡ (cancel identity_hash receiver, []))
    × (finish identity_hash
          (receive_all identity_hash (cancel identity_hash receiver) (split transfer_id 0 pieces)).0
        ≡ err cancelled)
finish-cancel_example = finish-cancel identity_hash receiver (split transfer_id 0 pieces)
