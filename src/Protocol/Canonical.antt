-- ===== src/Protocol/Canonical.antt =====
-- Packets that `decode_message` accepts are those that `encode_message` writes; no packet panics.
use hbb_common.Common.{
  ℕ, ◌+◌, ◌/◌, ◌%◌, ◌^◌, ◌<◌, ◌≤◌, ◌≡◌, sym, ap, ◌∙◌, arith, List, ◌∷◌, ◌++◌, length, drop, All, ok,
  take-append-drop,
}
use hbb_common.Common.Bytes.{
  field, IsByte, to_be_bytes, slice, to_be_bytes-slice, slice-drop, from_be_bytes-slice-lt,
  slice-IsByte, length-slice,
}
use hbb_common.Protocol.Types.{channel_code, channel_of_code, type_of_code}
use hbb_common.Protocol.Codes.{channel_code-channel_of_code, type_code-type_of_code}
use hbb_common.Protocol.Message.{
  MessageHeader, IsHeader, magic, protocol_version, validate_fields, header_bytes,
}
use hbb_common.Protocol.Fields.{checked_header}

module _ (p : List ℕ) (bytes : All IsByte p) where
  byte_field :
      (off : ℕ) (rest : List ℕ) → off + 1 ≤ length p → field 1 off p ∷ rest ≡ slice off 1 p ++ rest
  unfolding to_be_bytes
  byte_field off rest h =
      ap (λ (b : ℕ). b ∷ rest) (low (field 1 off p) (from_be_bytes-slice-lt off 1 p bytes h))
      ∙ ap (λ (bs : List ℕ). bs ++ rest) (to_be_bytes-slice off 1 p bytes h)
    where
      low : (b : ℕ) → b < 256 → b ≡ b / 256 ^ 0 % 256
      low b h = omega arith

-- What a header that was accepted holds.
pub record Accepted (p : List ℕ) (h : MessageHeader) : Type 0 where
  pub magic_read : field 4 0 p ≡ magic
  pub version_read : field 2 4 p ≡ protocol_version
  pub type_read : type_of_code (field 2 6 p) ≡ ok h.message_type
  pub channel_read : channel_of_code (field 1 10 p) ≡ ok h.channel
  pub reserved_read : field 1 11 p ≡ 0
  pub flags_read : field 2 8 p ≡ h.flags
  pub session_id_read : slice 12 16 p ≡ h.session_id
  pub sequence_read : field 8 28 p ≡ h.sequence_number
  pub payload_read : field 4 36 p ≡ h.payload_length
  pub timestamp_read : field 8 40 p ≡ h.monotonic_timestamp_us
  pub valid :
      validate_fields h.message_type h.flags h.channel h.session_id h.sequence_number
        h.payload_length
      ≡ ok tt

pub checked_header-Accepted :
    (p : List ℕ) (h : MessageHeader) → checked_header p ≡ ok h → Accepted p h
checked_header-Accepted p h e = ground arith

module _ (p : List ℕ) (h : MessageHeader) (a : Accepted p h) (bytes : All IsByte p)
    (len : length p ≡ 48) where
  written : (off k : ℕ) → off + k ≤ 48 → to_be_bytes k (field k off p) ≡ slice off k p
  written off k le = to_be_bytes-slice off k p bytes (omega arith)

  pub accepted_IsHeader : IsHeader h
  accepted_IsHeader = record {
    flags_u16 = rw (← a.flags_read) (from_be_bytes-slice-lt 8 2 p bytes (omega arith));
    session_id_len = rw (← a.session_id_read) (length-slice 12 16 p (omega arith));
    session_id_u8 = rw (← a.session_id_read) (slice-IsByte 12 16 p bytes);
    sequence_u64 = rw (← a.sequence_read) (from_be_bytes-slice-lt 28 8 p bytes (omega arith));
    payload_u32 = rw (← a.payload_read) (from_be_bytes-slice-lt 36 4 p bytes (omega arith));
    timestamp_u64 = rw (← a.timestamp_read) (from_be_bytes-slice-lt 40 8 p bytes (omega arith));
  }

  two_bytes :
      (rest : List ℕ) → channel_code h.channel ∷ 0 ∷ rest ≡ slice 10 1 p ++ (slice 11 1 p ++ rest)
  two_bytes rest =
      rw (channel_code-channel_of_code _ _ a.channel_read, ← a.reserved_read)
        (byte_field p bytes 10 _ (omega arith)
          ∙ ap (λ (bs : List ℕ). slice 10 1 p ++ bs) (byte_field p bytes 11 rest (omega arith)))

  -- A field of the header, written, is the slice that it was read from.
  rewritten :
      (off k v : ℕ)
      → off + k ≤ 48
      → field k off p ≡ v
      → (rest : List ℕ) → to_be_bytes k v ++ rest ≡ slice off k p ++ rest
  rewritten off k v le e rest =
      ap (λ (x : ℕ). to_be_bytes k x ++ rest) (sym e)
      ∙ ap (λ (bs : List ℕ). bs ++ rest) (written off k le)

  slices_join :
      slice 0 4 p
        ++ (slice 4 2 p
            ++ (slice 6 2 p
                ++ (slice 8 2 p
                    ++ (slice 10 1 p
                        ++ (slice 11 1 p
                            ++ (slice 12 16 p
                                ++ (slice 28 8 p
                                    ++ (slice 36 4 p ++ (slice 40 8 p ++ drop 48 p)))))))))
      ≡ p
  slices_join =
      rw
        (
          slice-drop 40 8 p,
          slice-drop 36 4 p,
          slice-drop 28 8 p,
          slice-drop 12 16 p,
          slice-drop 11 1 p,
          slice-drop 10 1 p,
          slice-drop 8 2 p,
          slice-drop 6 2 p,
          slice-drop 4 2 p,
        )
        (take-append-drop 4 p)

  pub accepted_bytes : header_bytes h (drop 48 p) ≡ p
  unfolding header_bytes
  accepted_bytes =
      simp
        (
          two_bytes,
          rewritten 0 4 magic (omega arith) a.magic_read,
          rewritten 4 2 protocol_version (omega arith) a.version_read,
          rewritten 6 2 _ (omega arith) (sym (type_code-type_of_code _ _ a.type_read)),
          rewritten 8 2 _ (omega arith) a.flags_read,
          rewritten 28 8 _ (omega arith) a.sequence_read,
          rewritten 36 4 _ (omega arith) a.payload_read,
          rewritten 40 8 _ (omega arith) a.timestamp_read,
          ← a.session_id_read,
        )
        slices_join
