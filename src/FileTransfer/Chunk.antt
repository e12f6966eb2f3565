-- ===== src/FileTransfer/Chunk.antt =====
-- `decode_file_chunk` and `encode_file_chunk` are inverse.
use hbb_common.Common.{
  ℕ, ◌+◌, ◌*◌, ◌%◌, ◌^◌, ◌<◌, ◌≤◌, ◌≡◌, ◌≢◌, ◌↔◌, refl, sym, ap, ◌∙◌, arith, inl, inr, not, ◌||◌,
  List, ◌++◌, length, take, drop, All, ltb, ◌==◌, Bool-cases, ltb→lt, not_ltb→le, le→not_ltb,
  Outcome, ok, err, panic, ◌>>◌, reject_if, take-append, drop-append, drop-append_add,
  length-append,
}
use hbb_common.Common.Bytes.{
  IsByte, field, slice, slice-drop, to_be_bytes, from_be_bytes, from_be_bytes-to_be_bytes,
  to_be_bytes-slice, from_be_bytes-slice-lt, length-slice, read_in_range, read_slice_in_range,
  read_tail_in_range,
}
use hbb_common.FileTransfer.Types.{
  FileChunk, FileTransferError, chunk_truncated, invalid_chunk_size, validate_transfer_id,
}
use hbb_common.FileTransfer.Wire.{encode_file_chunk, decode_file_chunk}

-- The fields are values of their Rust types.
pub record IsChunk (c : FileChunk) : Type 0 where
  pub transfer_id_len : length c.transfer_id ≡ 16
  pub offset_u64 : c.offset < 2 ^ 64

abbrev decoded_chunk : List ℕ → FileChunk
decoded_chunk p = record {
  transfer_id = slice 0 16 p;
  offset = field 8 16 p;
  data_bytes = drop 28 p;
}

abbrev checked_chunk : List ℕ → Outcome FileTransferError FileChunk
checked_chunk p = do
  reject_if
      (field 4 24 p == 0
        || (ltb (256 * 1024) (field 4 24 p) || not (length (drop 28 p) == field 4 24 p)))
      (invalid_chunk_size (field 4 24 p))
  validate_transfer_id (slice 0 16 p)
  ok (decoded_chunk p)

decode_file_chunk-eq-checked_chunk :
    (p : List ℕ) → 28 ≤ length p → decode_file_chunk p ≡ checked_chunk p
unfolding decode_file_chunk
decode_file_chunk-eq-checked_chunk p h = rw (le→not_ltb (length p) 28 h) (
    simp
      (
        read_in_range {E = FileTransferError} 4 24 p (omega arith),
        read_tail_in_range {E = FileTransferError} 28 p h,
        read_slice_in_range {E = FileTransferError} 0 16 p (omega arith),
        read_in_range {E = FileTransferError} 8 16 p (omega arith),
      )
      refl)

-- A payload is its three fields and the data.
payload_fields : (p : List ℕ) → slice 0 16 p ++ (slice 16 8 p ++ (slice 24 4 p ++ drop 28 p)) ≡ p
payload_fields p =
    ap (λ (xs : List ℕ). slice 0 16 p ++ (slice 16 8 p ++ xs)) (slice-drop 24 4 p)
    ∙ ap (λ (xs : List ℕ). slice 0 16 p ++ xs) (slice-drop 16 8 p)
    ∙ slice-drop 0 16 p

mod_u32 : (n m : ℕ) → n ≡ m → m < 256 ^ 4 → n % 2 ^ 32 ≡ m
mod_u32 n m e h = omega arith

module _ (p : List ℕ) (bytes : All IsByte p) (len : 28 ≤ length p) where
  encode_file_chunk-decoded_chunk :
      checked_chunk p ≡ ok (decoded_chunk p) → encode_file_chunk (decoded_chunk p) ≡ ok p
  unfolding encode_file_chunk
  encode_file_chunk-decoded_chunk h =
      rw
        (
          mod_u32 (length (drop 28 p)) (field 4 24 p) (ground arith)
              (from_be_bytes-slice-lt 24 4 p bytes (omega arith)),
          to_be_bytes-slice 16 8 p bytes (omega arith),
          to_be_bytes-slice 24 4 p bytes (omega arith),
          payload_fields p,
        )
        (ground arith)

  decoded_chunk-IsChunk : IsChunk (decoded_chunk p)
  decoded_chunk-IsChunk = record {
    transfer_id_len = length-slice 0 16 p (omega arith);
    offset_u64 = omega (arith, from_be_bytes-slice-lt 16 8 p bytes (omega arith));
  }

checked_chunk-eq-ok : (p : List ℕ) (c : FileChunk) → checked_chunk p ≡ ok c → decoded_chunk p ≡ c
checked_chunk-eq-ok p c h = ground arith

decode_file_chunk-long :
    (p : List ℕ) (c : FileChunk)
    → All IsByte p
    → 28 ≤ length p
    → checked_chunk p ≡ ok c
    → IsChunk c × (encode_file_chunk c ≡ ok p)
decode_file_chunk-long p c bytes len h =
    let e = checked_chunk-eq-ok p c h in
    rw (sym e) (
      decoded_chunk-IsChunk p bytes len,
      encode_file_chunk-decoded_chunk p bytes len (h ∙ ap ok (sym e)),
    )

abbrev chunk_bytes : FileChunk → List ℕ
chunk_bytes c =
    c.transfer_id
    ++ (to_be_bytes 8 c.offset ++ (to_be_bytes 4 (length c.data_bytes % 2 ^ 32) ++ c.data_bytes))

module _ (c : FileChunk) (v : IsChunk c) where
  length-chunk_bytes : length (chunk_bytes c) ≡ 28 + length c.data_bytes
  unfolding to_be_bytes
  length-chunk_bytes = omega (
    arith,
    v.transfer_id_len,
    length-append c.transfer_id
        (to_be_bytes 8 c.offset ++ (to_be_bytes 4 (length c.data_bytes % 2 ^ 32) ++ c.data_bytes)),
  )

  id_field : slice 0 16 (chunk_bytes c) ≡ c.transfer_id
  id_field = take-append 16 c.transfer_id _ v.transfer_id_len

  offset_field : field 8 16 (chunk_bytes c) ≡ c.offset
  unfolding to_be_bytes
  offset_field =
      ap (λ (bs : List ℕ). from_be_bytes (take 8 bs))
        (drop-append 16 c.transfer_id _ v.transfer_id_len)
      ∙ from_be_bytes-to_be_bytes 8 c.offset v.offset_u64

  declared_field : field 4 24 (chunk_bytes c) ≡ length c.data_bytes % 2 ^ 32
  unfolding to_be_bytes
  declared_field =
      ap (λ (bs : List ℕ). from_be_bytes (take 4 bs))
        (drop-append_add 16 8 c.transfer_id _ v.transfer_id_len)
      ∙ from_be_bytes-to_be_bytes 4 (length c.data_bytes % 2 ^ 32) (omega arith)

  data_field : drop 28 (chunk_bytes c) ≡ c.data_bytes
  unfolding to_be_bytes
  data_field = drop-append_add 16 12 c.transfer_id _ v.transfer_id_len

  checked_chunk-chunk_bytes :
      validate_transfer_id c.transfer_id ≡ ok tt
      → 0 < length c.data_bytes
      → length c.data_bytes ≤ 256 * 1024
      → checked_chunk (chunk_bytes c) ≡ ok c
  checked_chunk-chunk_bytes id small large =
      rw (id_field, offset_field, declared_field, data_field) (ground arith)

  decode_file_chunk-encode_file_chunk :
      (p : List ℕ) → encode_file_chunk c ≡ ok p → decode_file_chunk p ≡ ok c
  unfolding encode_file_chunk validate_transfer_id
  decode_file_chunk-encode_file_chunk p h = ground (
    arith,
    decode_file_chunk-eq-checked_chunk (chunk_bytes c) (omega (arith, length-chunk_bytes)),
    checked_chunk-chunk_bytes,
  )

decode_file_chunk_short : (p : List ℕ) → length p < 28 → decode_file_chunk p ≡ err chunk_truncated
unfolding decode_file_chunk
decode_file_chunk_short p h = ground arith

-- On byte strings decoding a chunk is exactly the inverse of encoding one: `decode_file_chunk` accepts a
-- payload as a chunk if and only if the chunk's fields are values of their types and
-- `encode_file_chunk` writes that payload for it.
pub decode_file_chunk_iff :
    (p : List ℕ) (c : FileChunk)
    → All IsByte p
    → (decode_file_chunk p ≡ ok c) ↔ (IsChunk c × (encode_file_chunk c ≡ ok p))
decode_file_chunk_iff p c bytes = (
  λ d. elim (Bool-cases (ltb (length p) 28)) [
    | inl short ↦ cc (d, decode_file_chunk_short p (ltb→lt _ _ short))
    | inr long ↦
        let len = not_ltb→le _ _ long in
        decode_file_chunk-long p c bytes len (sym (decode_file_chunk-eq-checked_chunk p len) ∙ d)
  ],
  λ v. decode_file_chunk-encode_file_chunk c v.0 p v.1,
)

checked_chunk-ne-panic : (p : List ℕ) → checked_chunk p ≢ panic
unfolding validate_transfer_id
checked_chunk-ne-panic p h = ground arith

-- No payload makes `decode_file_chunk` panic.
pub decode_file_chunk-ne-panic : (p : List ℕ) → decode_file_chunk p ≢ panic
decode_file_chunk-ne-panic p h = elim (Bool-cases (ltb (length p) 28)) [
  | inl short ↦ cc (h, decode_file_chunk_short p (ltb→lt _ _ short))
  | inr long ↦
      checked_chunk-ne-panic p
        (sym (decode_file_chunk-eq-checked_chunk p (not_ltb→le _ _ long)) ∙ h)
]
