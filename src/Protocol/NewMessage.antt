-- ===== src/Protocol/NewMessage.antt =====
-- The messages that the channels make of a payload.
use hbb_common.Common.{
  ℕ, ◌+◌, not, ◌==◌, ◌^◌, ◌<◌, ◌≡◌, refl, sym, ap, ◌∙◌, arith, Bool, true, false, List, length,
  Outcome, ok, err, panic, leb, ◌>>=◌, ◌>>◌, reject_if, ok-injective, All,
}
use hbb_common.Common.Bytes.{IsByte}
use hbb_common.Protocol.Types.{
  MessageType, ProtocolError, channel, payload_too_large, length_mismatch,
}
use hbb_common.Protocol.Message.{
  MessageHeader, IsHeader, validate_fields, header_bytes, new_header, encode_message, new_message,
  decode_message,
}
use hbb_common.Protocol.RoundTrip.{length-header_bytes, decode_message-encode_message}

abbrev pub IsSessionId : List ℕ → Type 0
IsSessionId id = (length id ≡ 16) × All IsByte id

module _ (t : MessageType) (flags : ℕ) (id : List ℕ) (sequence : ℕ) (time : ℕ)
    (payload : List ℕ) where
  abbrev pub made_header : MessageHeader
  made_header = record {
    message_type = t;
    flags = flags;
    channel = channel t;
    session_id = id;
    sequence_number = sequence;
    payload_length = length payload;
    monotonic_timestamp_us = time;
  }

  -- What the call of `MessageHeader::new` comes to.
  new_message-made :
      (packet : List ℕ)
      → new_message t flags id sequence time payload ≡ ok packet
      → (encode_message made_header payload ≡ ok packet) × (length payload < 2 ^ 32)
  unfolding new_header
  new_message-made packet h =
      by_tests (validate_fields t flags (channel t) id sequence (length payload))
        (leb (2 ^ 32) (length payload)) refl h
    where
      by_tests :
          (o : Outcome ProtocolError (Unit {0})) (big : Bool)
          → leb (2 ^ 32) (length payload) ≡ big
          → ((o >> (reject_if big (payload_too_large (length payload)) >> ok made_header)) >>= λ x.
              encode_message x payload)
            ≡ ok packet
          → (encode_message made_header payload ≡ ok packet) × (length payload < 2 ^ 32)
      by_tests (ok u) false e h = (h, ground arith)
      by_tests (ok u) true e h = cc
      by_tests (err x) big e h = cc
      by_tests panic big e h = cc

  made_header-IsHeader :
      flags < 2 ^ 16
      → IsSessionId id
      → sequence < 2 ^ 64
      → time < 2 ^ 64
      → length payload < 2 ^ 32
      → IsHeader made_header
  made_header-IsHeader f s n u short = record {
    flags_u16 = f;
    session_id_len = s.0;
    session_id_u8 = s.1;
    sequence_u64 = n;
    payload_u32 = short;
    timestamp_u64 = u;
  }

  -- A message that is made of values of their types is decoded to them.
  pub decode_message-new_message :
      (packet : List ℕ)
      → flags < 2 ^ 16
      → IsSessionId id
      → sequence < 2 ^ 64
      → time < 2 ^ 64
      → new_message t flags id sequence time payload ≡ ok packet
      → decode_message packet ≡ ok (record { header = made_header; payload = payload })
  decode_message-new_message packet f s n u h =
      let (made, short) = new_message-made packet h in
      decode_message-encode_message made_header payload packet (made_header-IsHeader f s n u short)
        made

  -- Such a message is 48 bytes longer than its payload.
  pub length-new_message :
      (packet : List ℕ)
      → flags < 2 ^ 16
      → IsSessionId id
      → sequence < 2 ^ 64
      → time < 2 ^ 64
      → new_message t flags id sequence time payload ≡ ok packet
      → length packet ≡ 48 + length payload
  unfolding encode_message
  length-new_message packet f s n u h =
      let (made, short) = new_message-made packet h in
      by_tests (validate_fields t flags (channel t) id sequence (length payload))
        (not (length payload == length payload)) (made_header-IsHeader f s n u short) made
    where
      by_tests :
          (o : Outcome ProtocolError (Unit {0})) (b : Bool)
          → IsHeader made_header
          → (o >> (reject_if b length_mismatch >> ok (header_bytes made_header payload)))
            ≡ ok packet
          → length packet ≡ 48 + length payload
      by_tests (ok u) false v e =
          ap length (sym (ok-injective (header_bytes made_header payload) packet e))
          ∙ length-header_bytes made_header v payload
      by_tests (ok u) true v e = cc
      by_tests (err x) b v e = cc
      by_tests panic b v e = cc
