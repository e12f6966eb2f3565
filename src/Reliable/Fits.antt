-- ===== src/Reliable/Fits.antt =====
-- The sizes of the messages that `send_reliable` makes and the size that it allows.
use hbb_common.Common.{
  ℕ, ◌+◌, ◌-◌, ◌^◌, ◌≤◌, ◌<◌, ◌≡◌, refl, ap, ◌∙◌, arith, ◌||◌, true, false, some, List, length, ltb,
  leb, ok, >>=-eq-ok,
}
use hbb_common.Common.Bytes.{to_be_bytes}
use hbb_common.Common.Saturating.{checked_next}
use hbb_common.Protocol.Types.{MessageType, ChannelId, channel, max_payload_len}
use hbb_common.Protocol.Message.{MessageHeader, channel_eq, new_header, encode_message, new_message}
use hbb_common.Protocol.NewMessage.{IsSessionId, length-new_message}
use hbb_common.Reliable.{ReliableChannelKind, channel_id, kind_of_channel, max_message_size}
use hbb_common.Reliable.Preface.{kind_of_channel-channel_id, max_payload_len-le-max_message_size}
use hbb_common.Reliable.Stream.{Streams, write_message, send_message, send_reliable}

channel_eq_refl : (c : ChannelId) → channel_eq c c ≡ true
channel_eq_refl c = ground arith

max_message_size-lt : (k : ReliableChannelKind) → max_message_size k < 2 ^ 32
unfolding max_message_size
max_message_size-lt ReliableChannelKind.control = omega arith
max_message_size-lt ReliableChannelKind.input = omega arith
max_message_size-lt ReliableChannelKind.clipboard = omega arith
max_message_size-lt ReliableChannelKind.file_transfer = omega arith
max_message_size-lt ReliableChannelKind.diagnostics = omega arith
max_message_size-lt ReliableChannelKind.video = omega arith

module _ (message_type : MessageType) (flags : ℕ) (session_id : List ℕ) (sequence time : ℕ)
    (payload : List ℕ) where
  new_header-payload :
      (h : MessageHeader)
      → new_header message_type flags session_id sequence (length payload) time ≡ ok h
      → length payload ≤ max_payload_len message_type
  unfolding new_header
  new_header-payload h e = ground arith

  -- A message that is made fits the kind of channel of its type.
  new_message-fits :
      (kind : ReliableChannelKind) (message : List ℕ)
      → IsSessionId session_id
      → flags < 2 ^ 16
      → sequence < 2 ^ 64
      → time < 2 ^ 64
      → channel message_type ≡ channel_id kind
      → new_message message_type flags session_id sequence time payload ≡ ok message
      → length message ≤ max_message_size kind
  new_message-fits kind message i f n t c made =
      let (h, (e, _)) =
        >>=-eq-ok (new_header message_type flags session_id sequence (length payload) time)
          (λ h. encode_message h payload) made in
      omega (
        arith,
        length-new_message message_type flags session_id sequence time payload message f i n t made,
        new_header-payload h e,
        max_payload_len-le-max_message_size message_type kind
            (ap kind_of_channel c ∙ kind_of_channel-channel_id kind),
      )

checked_next_below : (n : ℕ) → n < 2 ^ 64 - 1 → checked_next n ≡ some (n + 1)
unfolding checked_next
checked_next_below n h = ground arith

module _ (S : Streams) where
  write_message_sent :
      (send : S.SendStream) (sequence next : ℕ) (message : List ℕ)
      → (S.write_all send (to_be_bytes 4 (length message))).0 ≡ true
      → (S.write_all (S.write_all send (to_be_bytes 4 (length message))).1 message).0 ≡ true
      → (write_message S send sequence next message).0 ≡ ok sequence
  unfolding write_message
  write_message_sent send sequence next message p q = rw (p, q) refl

  send_message_sent :
      (send : S.SendStream) (kind : ReliableChannelKind) (sequence next : ℕ) (message : List ℕ)
      → length message ≤ max_message_size kind
      → (S.write_all send (to_be_bytes 4 (length message))).0 ≡ true
      → (S.write_all (S.write_all send (to_be_bytes 4 (length message))).1 message).0 ≡ true
      → (send_message S send kind sequence next (ok message)).0 ≡ ok sequence
  unfolding send_message
  send_message_sent send kind sequence next message fits p q =
      let passes : (ltb (max_message_size kind) (length message) || leb (2 ^ 32) (length message))
          ≡ false =
        ground (arith, max_message_size-lt kind) in
      rw passes (write_message_sent send sequence next message p q)

  -- Every message that can be made is small enough to be sent: for values of their types, a kind whose
  -- channel is that of the message's type and a sequence number that is not the last `u64`, the
  -- message that `MessageHeader::new` and `encode_message` make is not longer than the kind allows,
  -- and when the stream takes its length and its bytes, `send_reliable` succeeds and returns the
  -- sequence number.
  pub send_reliable_sent :
      (send : S.SendStream) (kind : ReliableChannelKind) (session_id : List ℕ) (sequence : ℕ)
      (message_type : MessageType) (flags time : ℕ) (payload message : List ℕ)
      → IsSessionId session_id
      → flags < 2 ^ 16
      → sequence < 2 ^ 64 - 1
      → time < 2 ^ 64
      → channel message_type ≡ channel_id kind
      → new_message message_type flags session_id sequence time payload ≡ ok message
      → (S.write_all send (to_be_bytes 4 (length message))).0 ≡ true
      → (S.write_all (S.write_all send (to_be_bytes 4 (length message))).1 message).0 ≡ true
      → (length message ≤ max_message_size kind)
        × ((send_reliable S send kind session_id sequence message_type flags time payload).0
            ≡ ok sequence)
  unfolding send_reliable
  send_reliable_sent send kind session_id sequence message_type flags time payload message i f n t c
        made p q =
      let fits =
        new_message-fits message_type flags session_id sequence time payload kind message i f
          (omega (arith, n)) t c made in
      let same : channel_eq (channel message_type) (channel_id kind) ≡ true =
        ap (λ (d : ChannelId). channel_eq d (channel_id kind)) c
        ∙ channel_eq_refl (channel_id kind) in
      let next : checked_next sequence ≡ some (sequence + 1) = checked_next_below sequence n in
      (
        fits,
        rw (same, next, made)
            (send_message_sent send kind sequence (sequence + 1) message fits p q),
      )
