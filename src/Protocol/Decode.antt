-- ===== src/Protocol/Decode.antt =====
-- Packets that `decode_message` accepts are those that `encode_message` writes; no packet panics.
use hbb_common.Common.{
  ℕ, ◌+◌, ◌<◌, ◌≤◌, ◌≡◌, ◌≢◌, refl, sym, ap, ◌∙◌, ◌⊎◌, inl, inr, arith, List, [], ◌++◌, length,
  take, drop, ltb, All, Bool-cases, ◌↔◌, ==_refl, ltb→lt, not_ltb→le, Outcome, ok, err, panic,
  ◌>>=◌, take-append-drop, All-take, length-take, length-drop,
}
use hbb_common.Common.Bytes.{IsByte}
use hbb_common.Protocol.Types.{ProtocolError, MessageType, ChannelId, header_truncated}
use hbb_common.Protocol.Codes.{channel_of_code-ne-panic, type_of_code-ne-panic}
use hbb_common.Protocol.Message.{
  MessageHeader, ParsedMessage, IsHeader, header_bytes, encode_message, validate_fields,
  decode_message,
}
use hbb_common.Protocol.Fields.{checked_header, parsed, decode_message-parts}
use hbb_common.Protocol.RoundTrip.{header_bytes-append, decode_message-encode_message}
use hbb_common.Protocol.Canonical.{
  Accepted, checked_header-Accepted, accepted_bytes, accepted_IsHeader,
}

pub decode_message_short :
    (packet : List ℕ) → length packet < 48 → decode_message packet ≡ err header_truncated
unfolding decode_message
decode_message_short packet h = ground arith

parsed-inversion :
    (packet : List ℕ) (h : MessageHeader) (m : ParsedMessage)
    → parsed packet h ≡ ok m
    → (length packet ≡ 48 + h.payload_length)
      × (m ≡ record { header = h; payload = drop 48 packet })
parsed-inversion packet h m e = ground arith

Outcome-cases {ε ℓ} :
    {E : Type ε} {A : Type ℓ} (r : Outcome E A)
    → ((a : A) × (r ≡ ok a)) ⊎ (((e : E) × (r ≡ err e)) ⊎ (r ≡ panic))
Outcome-cases (ok a) = inl (a, refl)
Outcome-cases (err e) = inr (inl (e, refl))
Outcome-cases panic = inr (inr refl)

-- A header that was decoded, with the rest of its packet for payload, is encoded to the packet.
module _ (packet : List ℕ) (h : MessageHeader) (bytes : All IsByte packet)
    (len : 48 ≤ length packet) (e : checked_header (take 48 packet) ≡ ok h) where
  accepted : Accepted (take 48 packet) h
  accepted = checked_header-Accepted (take 48 packet) h e

  front_bytes : All IsByte (take 48 packet)
  front_bytes = All-take IsByte 48 packet bytes

  front_len : length (take 48 packet) ≡ 48
  front_len = omega (arith, length-take 48 packet)

  decoded_IsHeader : IsHeader h
  decoded_IsHeader = accepted_IsHeader (take 48 packet) h accepted front_bytes front_len

  nothing_left : (xs : List ℕ) → length xs ≡ 0 → xs ≡ []
  nothing_left xs n = ground arith

  header_bytes-front : header_bytes h [] ≡ take 48 packet
  header_bytes-front =
      ap (header_bytes h) (
        sym (
          nothing_left (drop 48 (take 48 packet))
            (omega (arith, length-drop 48 (take 48 packet), front_len))))
      ∙ accepted_bytes (take 48 packet) h accepted front_bytes front_len

  header_bytes-packet : header_bytes h (drop 48 packet) ≡ packet
  header_bytes-packet =
      header_bytes-append h (drop 48 packet)
      ∙ ap (λ (bs : List ℕ). bs ++ drop 48 packet) header_bytes-front
      ∙ take-append-drop 48 packet

  encode_message-decoded :
      length packet ≡ 48 + h.payload_length → encode_message h (drop 48 packet) ≡ ok packet
  unfolding encode_message
  encode_message-decoded n =
      let size : length (drop 48 packet) ≡ h.payload_length =
        omega (arith, length-drop 48 packet) in
      rw (size, accepted.valid, header_bytes-packet, ==_refl h.payload_length)

decode_message-long :
    (packet : List ℕ) (m : ParsedMessage)
    → All IsByte packet
    → 48 ≤ length packet
    → decode_message packet ≡ ok m
    → IsHeader m.header × (encode_message m.header m.payload ≡ ok packet)
decode_message-long packet m bytes len d =
    go (checked_header (take 48 packet)) refl (sym (decode_message-parts packet len) ∙ d)
  where
    go :
        (r : Outcome ProtocolError MessageHeader)
        → checked_header (take 48 packet) ≡ r
        → (r >>= λ header. parsed packet header) ≡ ok m
        → IsHeader m.header × (encode_message m.header m.payload ≡ ok packet)
    go (ok h) e f =
        let (size, whole) = parsed-inversion packet h m f in
        rw whole
          (decoded_IsHeader packet h bytes len e, encode_message-decoded packet h bytes len e size)
    go (err x) e f = cc
    go panic e f = cc

-- On byte strings decoding is exactly the inverse of encoding: `decode_message` accepts a packet, with
-- a header and a payload, if and only if the header's fields are values of their types and
-- `encode_message` writes that packet for them. So no two packets decode to one message.
pub decode_message_iff :
    (packet : List ℕ) (m : ParsedMessage)
    → All IsByte packet
    → (decode_message packet ≡ ok m)
      ↔ (IsHeader m.header × (encode_message m.header m.payload ≡ ok packet))
decode_message_iff packet m bytes = (
  λ d. elim (Bool-cases (ltb (length packet) 48)) [
    | inl short ↦ cc (d, decode_message_short packet (ltb→lt _ _ short))
    | inr long ↦ decode_message-long packet m bytes (not_ltb→le _ _ long) d
  ],
  λ v. decode_message-encode_message m.header m.payload packet v.0 v.1,
)

validate_fields-ne-panic :
    (t : MessageType) (flags : ℕ) (c : ChannelId) (session : List ℕ) (sequence size : ℕ)
    → validate_fields t flags c session sequence size ≢ panic
unfolding validate_fields
validate_fields-ne-panic t flags c session sequence size h = ground arith

checked_header-ne-panic : (p : List ℕ) → checked_header p ≢ panic
checked_header-ne-panic p h =
    grind (arith, type_of_code-ne-panic, channel_of_code-ne-panic, validate_fields-ne-panic)

-- No packet, of any length, makes `decode_message` panic: every slice and index is in range.
pub decode_message-ne-panic : (packet : List ℕ) → decode_message packet ≢ panic
decode_message-ne-panic packet h = elim (Bool-cases (ltb (length packet) 48)) [
  | inl short ↦ cc (h, decode_message_short packet (ltb→lt _ _ short))
  | inr long ↦
      let e = decode_message-parts packet (not_ltb→le _ _ long) in
      ground (arith, checked_header-ne-panic (take 48 packet), sym e ∙ h)
]
