-- ===== src/FileTransfer/Metadata.antt =====
-- `decode_file_metadata` and `encode_file_metadata` are inverse.
use hbb_common.Common.{
  ℕ, ◌+◌, ◌%◌, ◌^◌, ◌<◌, ◌≤◌, ◌≡◌, ◌↔◌, refl, sym, ap, ◌∙◌, arith, inl, inr, List, ◌++◌, length,
  take, drop, All, ltb, Bool-cases, ltb→lt, not_ltb→le, ok, err, ok-injective, >>=-eq-ok, subst,
  take-append, drop-append, drop-append_add, drop-drop, length-append,
}
use hbb_common.Common.Bytes.{
  IsByte, field, slice, to_be_bytes, from_be_bytes, from_be_bytes-to_be_bytes,
}
use hbb_common.FileTransfer.Types.{
  FileTransferMetadata, metadata_truncated, validate_file_name, validate_metadata,
}
use hbb_common.FileTransfer.Wire.{encode_file_metadata, decode_file_metadata}
use hbb_common.FileTransfer.Fields.{
  IsMetadata, checked_lengths, checked_metadata, decode_file_metadata-eq-checked_metadata,
  encode_file_metadata-decoded_metadata, decoded_metadata-IsMetadata, checked_metadata-eq-ok,
}

validate_file_name-length :
    (name : List ℕ) → validate_file_name name ≡ ok tt → (0 < length name) × (length name ≤ 255)
unfolding validate_file_name
validate_file_name-length name h = ground arith

validate_metadata-length :
    (m : FileTransferMetadata) (limit : ℕ)
    → validate_metadata m limit ≡ ok tt
    → (0 < length m.file_name) × (length m.file_name ≤ 255)
unfolding validate_metadata
validate_metadata-length m limit h = ground (arith, validate_file_name-length m.file_name)

abbrev metadata_bytes : FileTransferMetadata → List ℕ
metadata_bytes m =
    m.transfer_id
    ++ (to_be_bytes 8 m.file_size
        ++ (to_be_bytes 8 m.resume_offset
            ++ (m.sha256
                ++ (to_be_bytes 2 (length m.file_name % 2 ^ 16)
                    ++ (to_be_bytes 2 0 ++ m.file_name)))))

module _ (m : FileTransferMetadata) (v : IsMetadata m) where
  abbrev after_hash : List ℕ
  after_hash = to_be_bytes 2 (length m.file_name % 2 ^ 16) ++ (to_be_bytes 2 0 ++ m.file_name)

  drop-metadata_bytes : drop 32 (metadata_bytes m) ≡ m.sha256 ++ after_hash
  unfolding to_be_bytes
  drop-metadata_bytes = drop-append_add 16 16 m.transfer_id _ v.transfer_id_len

  drop-sha256 : (n : ℕ) → drop (64 + n) (metadata_bytes m) ≡ drop n after_hash
  drop-sha256 n =
      ap (λ (k : ℕ). drop k (metadata_bytes m)) (shift n)
      ∙ sym (drop-drop 32 (32 + n) (metadata_bytes m))
      ∙ ap (λ (bs : List ℕ). drop (32 + n) bs) drop-metadata_bytes
      ∙ drop-append_add 32 n m.sha256 after_hash v.sha256_len
    where
      shift : (n : ℕ) → 64 + n ≡ 32 + (32 + n)
      shift n = omega arith

  length-metadata_bytes : length (metadata_bytes m) ≡ 68 + length m.file_name
  unfolding to_be_bytes
  length-metadata_bytes = omega (
    arith,
    v.transfer_id_len,
    v.sha256_len,
    length-append m.transfer_id
        (to_be_bytes 8 m.file_size ++ (to_be_bytes 8 m.resume_offset ++ (m.sha256 ++ after_hash))),
    length-append m.sha256 after_hash,
  )

  id_field : slice 0 16 (metadata_bytes m) ≡ m.transfer_id
  id_field = take-append 16 m.transfer_id _ v.transfer_id_len

  size_field : field 8 16 (metadata_bytes m) ≡ m.file_size
  unfolding to_be_bytes
  size_field =
      ap (λ (bs : List ℕ). from_be_bytes (take 8 bs))
        (drop-append 16 m.transfer_id _ v.transfer_id_len)
      ∙ from_be_bytes-to_be_bytes 8 m.file_size v.file_size_u64

  resume_field : field 8 24 (metadata_bytes m) ≡ m.resume_offset
  unfolding to_be_bytes
  resume_field =
      ap (λ (bs : List ℕ). from_be_bytes (take 8 bs))
        (drop-append_add 16 8 m.transfer_id _ v.transfer_id_len)
      ∙ from_be_bytes-to_be_bytes 8 m.resume_offset v.resume_offset_u64

  hash_field : slice 32 32 (metadata_bytes m) ≡ m.sha256
  hash_field =
      ap (λ (bs : List ℕ). take 32 bs) drop-metadata_bytes
      ∙ take-append 32 m.sha256 after_hash v.sha256_len

  name_len_field : field 2 64 (metadata_bytes m) ≡ length m.file_name % 2 ^ 16
  unfolding to_be_bytes
  name_len_field =
      ap (λ (bs : List ℕ). from_be_bytes (take 2 bs)) (drop-sha256 0)
      ∙ from_be_bytes-to_be_bytes 2 (length m.file_name % 2 ^ 16) (omega arith)

  reserved_field : field 2 66 (metadata_bytes m) ≡ 0
  unfolding to_be_bytes
  reserved_field =
      ap (λ (bs : List ℕ). from_be_bytes (take 2 bs)) (drop-sha256 2)
      ∙ from_be_bytes-to_be_bytes 2 0 (omega arith)

  name_field : drop 68 (metadata_bytes m) ≡ m.file_name
  unfolding to_be_bytes
  name_field = drop-sha256 4

  checked_lengths-metadata_bytes :
      0 < length m.file_name → length m.file_name ≤ 255 → checked_lengths (metadata_bytes m) ≡ ok tt
  checked_lengths-metadata_bytes small large =
      rw (reserved_field, name_len_field, length-metadata_bytes) (ground arith)

  decode_file_metadata-metadata_bytes :
      (limit : ℕ)
      → validate_metadata m limit ≡ ok tt
      → decode_file_metadata (metadata_bytes m) limit ≡ ok m
  decode_file_metadata-metadata_bytes limit h =
      let (small, large) = validate_metadata-length m limit h in
      decode_file_metadata-eq-checked_metadata (metadata_bytes m) limit
        (omega (arith, length-metadata_bytes))
      ∙ rw
          (
            checked_lengths-metadata_bytes small large,
            id_field,
            size_field,
            resume_field,
            hash_field,
            name_field,
            v.file_name_str.1,
            h,
          )
          refl

decode_file_metadata_short :
    (p : List ℕ) (limit : ℕ) → length p < 68 → decode_file_metadata p limit ≡ err metadata_truncated
unfolding decode_file_metadata
decode_file_metadata_short p limit h = ground arith

encode_file_metadata-eq-ok :
    (m : FileTransferMetadata) (limit : ℕ) (p : List ℕ)
    → encode_file_metadata m limit ≡ ok p
    → (validate_metadata m limit ≡ ok tt) × (metadata_bytes m ≡ p)
unfolding encode_file_metadata
encode_file_metadata-eq-ok m limit p h =
    let (u, (valid, e)) = >>=-eq-ok (validate_metadata m limit) (λ _. ok (metadata_bytes m)) h in
    (valid, ok-injective _ _ e)

long_payload :
    (p : List ℕ) (limit : ℕ) (m : FileTransferMetadata)
    → All IsByte p
    → 68 ≤ length p
    → checked_metadata p limit ≡ ok m
    → IsMetadata m × (encode_file_metadata m limit ≡ ok p)
long_payload p limit m bytes len h =
    let (lengths, (cs, text), valid, e) = checked_metadata-eq-ok p limit m h in
    rw (sym e) (
      decoded_metadata-IsMetadata p limit bytes len cs text,
      encode_file_metadata-decoded_metadata p limit bytes len lengths valid,
    )

-- On byte strings, and for every limit on the file size, decoding metadata is exactly the inverse of
-- encoding it: `decode_file_metadata` accepts a payload as metadata if and only if its fields are
-- values of their types, the name UTF-8, and `encode_file_metadata` writes that payload for it.
pub decode_file_metadata_iff :
    (p : List ℕ) (limit : ℕ) (m : FileTransferMetadata)
    → All IsByte p
    → (decode_file_metadata p limit ≡ ok m) ↔ (IsMetadata m × (encode_file_metadata m limit ≡ ok p))
decode_file_metadata_iff p limit m bytes = (
  λ d. elim (Bool-cases (ltb (length p) 68)) [
    | inl short ↦ cc (d, decode_file_metadata_short p limit (ltb→lt _ _ short))
    | inr long ↦
        let len = not_ltb→le _ _ long in
        long_payload p limit m bytes len
          (sym (decode_file_metadata-eq-checked_metadata p limit len) ∙ d)
  ],
  λ v.
      let (valid, e) = encode_file_metadata-eq-ok m limit p v.1 in
      subst (λ (q : List ℕ). decode_file_metadata q limit ≡ ok m) e
        (decode_file_metadata-metadata_bytes m v.0 limit valid),
)
