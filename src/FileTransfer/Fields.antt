-- ===== src/FileTransfer/Fields.antt =====
-- `decode_file_metadata` without its reads, and what it accepts.
use hbb_common.Common.{
  ℕ, ◌+◌, ◌%◌, ◌^◌, ◌<◌, ◌≤◌, ◌≡◌, refl, sym, ap, arith, not, ◌||◌, List, ◌++◌, length, drop, All,
  ltb, ◌==◌, le→not_ltb, Outcome, ok, err, panic, ◌>>=◌, ◌>>◌, reject_if, map_err, ok-injective,
  >>=-assoc, length-drop,
}
use hbb_common.Common.Bytes.{
  IsByte, field, slice, slice-drop, to_be_bytes-slice, from_be_bytes-slice-lt, length-slice,
  read_in_range, read_slice_in_range, read_tail_in_range,
}
use hbb_common.Common.Utf8.{from_utf8}
use hbb_common.FileTransfer.Types.{
  FileTransferMetadata, FileTransferError, invalid_reserved_field, invalid_name_length,
  invalid_utf8, validate_metadata,
}
use hbb_common.FileTransfer.Wire.{encode_file_metadata, decode_file_metadata}

-- The fields are values of their Rust types.
pub record IsMetadata (m : FileTransferMetadata) : Type 0 where
  pub transfer_id_len : length m.transfer_id ≡ 16
  pub sha256_len : length m.sha256 ≡ 32
  pub file_size_u64 : m.file_size < 2 ^ 64
  pub resume_offset_u64 : m.resume_offset < 2 ^ 64
  pub file_name_str : (cs : List ℕ) × (from_utf8 m.file_name ≡ ok cs)

abbrev pub decoded_metadata : List ℕ → FileTransferMetadata
decoded_metadata p = record {
  transfer_id = slice 0 16 p;
  file_name = drop 68 p;
  file_size = field 8 16 p;
  resume_offset = field 8 24 p;
  sha256 = slice 32 32 p;
}

-- What is checked before the name is.
abbrev pub checked_lengths : List ℕ → Outcome FileTransferError (Unit {0})
checked_lengths p = do
  reject_if (not (field 2 66 p == 0)) invalid_reserved_field
  reject_if (field 2 64 p == 0 || (ltb 255 (field 2 64 p) || not (length p == 68 + field 2 64 p)))
      invalid_name_length

abbrev pub checked_metadata : List ℕ → ℕ → Outcome FileTransferError FileTransferMetadata
checked_metadata p limit = do
  checked_lengths p
  cs ← map_err (λ e. invalid_utf8) (from_utf8 (drop 68 p))
  validate_metadata (decoded_metadata p) limit
  ok (decoded_metadata p)

pub decode_file_metadata-eq-checked_metadata :
    (p : List ℕ) (limit : ℕ)
    → 68 ≤ length p
    → decode_file_metadata p limit ≡ checked_metadata p limit
unfolding decode_file_metadata
decode_file_metadata-eq-checked_metadata p limit h = rw (le→not_ltb (length p) 68 h) (
    simp
      (
        read_in_range {E = FileTransferError} 2 66 p (omega arith),
        read_in_range {E = FileTransferError} 2 64 p (omega arith),
        read_tail_in_range {E = FileTransferError} 68 p h,
        read_slice_in_range {E = FileTransferError} 0 16 p (omega arith),
        read_slice_in_range {E = FileTransferError} 32 32 p (omega arith),
        read_in_range {E = FileTransferError} 8 16 p (omega arith),
        read_in_range {E = FileTransferError} 8 24 p (omega arith),
      )
      (sym (
        >>=-assoc (reject_if (not (field 2 66 p == 0)) invalid_reserved_field)
          (λ _.
            reject_if
              (field 2 64 p == 0 || (ltb 255 (field 2 64 p) || not (length p == 68 + field 2 64 p)))
              invalid_name_length)
          (λ _. do
            cs ← map_err (λ e. invalid_utf8) (from_utf8 (drop 68 p))
            validate_metadata (decoded_metadata p) limit
            ok (decoded_metadata p)))))

checked_lengths-eq-ok :
    (p : List ℕ) → checked_lengths p ≡ ok tt → (field 2 66 p ≡ 0) × (length p ≡ 68 + field 2 64 p)
checked_lengths-eq-ok p h = by_lengths (field 2 66 p) (field 2 64 p) (length p) h
  where
    by_lengths :
        (a b n : ℕ)
        → (reject_if (not (a == 0)) invalid_reserved_field
            >> reject_if (b == 0 || (ltb 255 b || not (n == 68 + b))) invalid_name_length)
          ≡ ok tt
        → (a ≡ 0) × (n ≡ 68 + b)
    by_lengths a b n h = ground arith

payload_fields :
    (p : List ℕ)
    → slice 0 16 p
        ++ (slice 16 8 p
            ++ (slice 24 8 p ++ (slice 32 32 p ++ (slice 64 2 p ++ (slice 66 2 p ++ drop 68 p)))))
      ≡ p
payload_fields p =
    rw
      (
        slice-drop 66 2 p,
        slice-drop 64 2 p,
        slice-drop 32 32 p,
        slice-drop 24 8 p,
        slice-drop 16 8 p,
      )
      (slice-drop 0 16 p)

mod_u16 : (n m : ℕ) → n ≡ m → m < 256 ^ 2 → n % 2 ^ 16 ≡ m
mod_u16 n m e h = omega arith

module _ (p : List ℕ) (limit : ℕ) (bytes : All IsByte p) (len : 68 ≤ length p) where
  pub encode_file_metadata-decoded_metadata :
      checked_lengths p ≡ ok tt
      → validate_metadata (decoded_metadata p) limit ≡ ok tt
      → encode_file_metadata (decoded_metadata p) limit ≡ ok p
  unfolding encode_file_metadata
  encode_file_metadata-decoded_metadata h v =
      let (reserved, size) = checked_lengths-eq-ok p h in
      rw
        (
          v,
          mod_u16 (length (drop 68 p)) (field 2 64 p) (omega (arith, size, length-drop 68 p))
              (from_be_bytes-slice-lt 64 2 p bytes (omega arith)),
          sym reserved,
          to_be_bytes-slice 16 8 p bytes (omega arith),
          to_be_bytes-slice 24 8 p bytes (omega arith),
          to_be_bytes-slice 64 2 p bytes (omega arith),
          to_be_bytes-slice 66 2 p bytes (omega arith),
        )
        (ap ok (payload_fields p))

  pub decoded_metadata-IsMetadata :
      (cs : List ℕ) → from_utf8 (drop 68 p) ≡ ok cs → IsMetadata (decoded_metadata p)
  decoded_metadata-IsMetadata cs u = record {
    transfer_id_len = length-slice 0 16 p (omega arith);
    sha256_len = length-slice 32 32 p (omega arith);
    file_size_u64 = omega (arith, from_be_bytes-slice-lt 16 8 p bytes (omega arith));
    resume_offset_u64 = omega (arith, from_be_bytes-slice-lt 24 8 p bytes (omega arith));
    file_name_str = (cs, u);
  }

pub checked_metadata-eq-ok :
    (p : List ℕ) (limit : ℕ) (m : FileTransferMetadata)
    → checked_metadata p limit ≡ ok m
    → (checked_lengths p ≡ ok tt)
      × ((cs : List ℕ) × (from_utf8 (drop 68 p) ≡ ok cs))
      × (validate_metadata (decoded_metadata p) limit ≡ ok tt)
      × (decoded_metadata p ≡ m)
checked_metadata-eq-ok p limit m h =
    go (checked_lengths p) (from_utf8 (drop 68 p)) (validate_metadata (decoded_metadata p) limit)
      refl refl refl h
  where
    go :
        (a : Outcome FileTransferError (Unit {0})) (b : Outcome (Unit {0}) (List ℕ))
        (c : Outcome FileTransferError (Unit {0}))
        → checked_lengths p ≡ a
        → from_utf8 (drop 68 p) ≡ b
        → validate_metadata (decoded_metadata p) limit ≡ c
        → (a >> (map_err (λ e. invalid_utf8) b >>= λ cs. c >> ok (decoded_metadata p))) ≡ ok m
        → (checked_lengths p ≡ ok tt)
          × ((cs : List ℕ) × (from_utf8 (drop 68 p) ≡ ok cs))
          × (validate_metadata (decoded_metadata p) limit ≡ ok tt)
          × (decoded_metadata p ≡ m)
    go (ok u) (ok cs) (ok v) e f g k = (e, (cs, f), g, ok-injective _ _ k)
    go (ok u) (ok cs) (err x) e f g k = cc
    go (ok u) (ok cs) panic e f g k = cc
    go (ok u) (err x) c e f g k = cc
    go (ok u) panic c e f g k = cc
    go (err x) b c e f g k = cc
    go panic b c e f g k = cc
