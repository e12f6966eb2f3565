-- ===== src/Reliable/Stream.antt =====
-- src/transport/reliable.rs: `send_reliable` and `receive_reliable`, over the streams of the crate
-- `quinn`. A call returns its result with the sequence number and the stream that it leaves.
use hbb_common.Common.{
  ℕ, ◌^◌, ◌≡◌, not, ◌||◌, Bool, true, if◌then◌else◌, Option, none, some, List, ◌++◌, length,
  bytes_eq, ltb, leb, ◌<◌, Outcome, ok, err, panic, map_err,
}
use hbb_common.Common.Bytes.{to_be_bytes}
use hbb_common.Common.Saturating.{checked_next}
use hbb_common.Protocol.Types.{MessageType, channel}
use hbb_common.Protocol.Message.{
  MessageHeader, ParsedMessage, header_len, channel_eq, new_message, decode_message,
}
use hbb_common.Reliable.{
  ReliableChannelKind, ReliableError, protocol, protocol_state, stream, channel_id,
  max_message_size,
}

-- A pair of streams: what was written, in order, and that what is next to be read is read. A call
-- that fails says so.
pub record Streams : Type 1 where
  pub SendStream : Type 0
  pub RecvStream : Type 0
  pub write_all : SendStream → List ℕ → Bool × SendStream
  pub read_u32 : RecvStream → Option ℕ × RecvStream
  pub read_exact : RecvStream → ℕ → Option (List ℕ) × RecvStream
  pub written : SendStream → List ℕ
  pub Next : RecvStream → List ℕ → Type 0
  pub write_all_lem :
      (s : SendStream) (xs : List ℕ)
      → (write_all s xs).0 ≡ true
      → written (write_all s xs).1 ≡ written s ++ xs
  pub read_u32_lem :
      (r : RecvStream) (n : ℕ) (ys : List ℕ)
      → n < 2 ^ 32
      → Next r (to_be_bytes 4 n ++ ys)
      → ((read_u32 r).0 ≡ some n) × Next (read_u32 r).1 ys
  pub read_exact_lem :
      (r : RecvStream) (xs ys : List ℕ)
      → Next r (xs ++ ys)
      → ((read_exact r (length xs)).0 ≡ some xs) × Next (read_exact r (length xs)).1 ys

pub record ReliableMessage : Type 0 where
  pub header : MessageHeader
  pub payload : List ℕ

module _ (S : Streams) where
  abbrev pub SendResult : Type 0
  SendResult = Outcome ReliableError ℕ × (ℕ × S.SendStream)

  -- The two writes.
  unfoldable pub write_message : S.SendStream → ℕ → ℕ → List ℕ → SendResult
  write_message send sequence next message =
      let (wrote, after) = S.write_all send (to_be_bytes 4 (length message)) in
      let (wrote_all, last) = S.write_all after message in
      if wrote
      then if wrote_all then (ok sequence, (next, last)) else (err stream, (next, last))
      else (err stream, (next, after))

  -- The checks of the message that is made, and the writes.
  unfoldable pub send_message :
      S.SendStream → ReliableChannelKind → ℕ → ℕ → Outcome ReliableError (List ℕ) → SendResult
  unfolding write_message
  send_message send kind sequence next (err e) = (err e, (next, send))
  send_message send kind sequence next panic = (panic, (next, send))
  send_message send kind sequence next (ok message) =
      if ltb (max_message_size kind) (length message) || leb (2 ^ 32) (length message)
      then (err protocol_state, (next, send))
      else write_message send sequence next message

  unfoldable pub send_reliable :
      S.SendStream → ReliableChannelKind → List ℕ → ℕ → MessageType → ℕ → ℕ → List ℕ → SendResult
  unfolding send_message
  send_reliable send kind session_id sequence message_type flags time payload =
      if not (channel_eq (channel message_type) (channel_id kind))
      then (err protocol_state, (sequence, send))
      else elim (checked_next sequence) [
        | none ↦ (err protocol_state, (sequence, send))
        | some next ↦
            send_message send kind sequence next
              (map_err protocol (new_message message_type flags session_id sequence time payload))
      ]

  abbrev pub ReceiveResult : Type 0
  ReceiveResult = Outcome ReliableError ReliableMessage × (ℕ × S.RecvStream)

  -- The checks of a message that is read.
  unfoldable pub take_message :
      ReliableChannelKind
      → List ℕ
      → ℕ
      → S.RecvStream
      → Outcome ReliableError ParsedMessage
      → ReceiveResult
  take_message kind session_id last receive (err e) = (err e, (last, receive))
  take_message kind session_id last receive panic = (panic, (last, receive))
  take_message kind session_id last receive (ok parsed) =
      if not (channel_eq parsed.header.channel (channel_id kind))
        || not (bytes_eq parsed.header.session_id session_id)
      then (err protocol_state, (last, receive))
      else if leb parsed.header.sequence_number last
      then (err protocol_state, (last, receive))
      else (
        ok (record { header = parsed.header; payload = parsed.payload }),
        (parsed.header.sequence_number, receive),
      )

  unfoldable pub read_message :
      ReliableChannelKind → List ℕ → ℕ → Option (List ℕ) × S.RecvStream → ReceiveResult
  unfolding take_message
  read_message kind session_id last (none, receive) = (err stream, (last, receive))
  read_message kind session_id last (some encoded, receive) =
      take_message kind session_id last receive (map_err protocol (decode_message encoded))

  unfoldable pub read_length :
      ReliableChannelKind → List ℕ → ℕ → Option ℕ × S.RecvStream → ReceiveResult
  unfolding read_message
  read_length kind session_id last (none, receive) = (err stream, (last, receive))
  read_length kind session_id last (some len, receive) =
      if ltb len header_len || ltb (max_message_size kind) len
      then (err protocol_state, (last, receive))
      else read_message kind session_id last (S.read_exact receive len)

  unfoldable pub receive_reliable : S.RecvStream → ReliableChannelKind → List ℕ → ℕ → ReceiveResult
  unfolding read_length
  receive_reliable receive kind session_id last =
      read_length kind session_id last (S.read_u32 receive)
