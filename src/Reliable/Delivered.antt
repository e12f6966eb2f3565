-- ===== src/Reliable/Delivered.antt =====
-- A message that is sent on a reliable channel and received at its other end.
use hbb_common.Common.{
  ℕ, ◌+◌, ◌^◌, ◌≤◌, ◌<◌, ◌≡◌, refl, sym, ap, subst, ◌∙◌, arith, ◌||◌, Bool, true, false,
  if◌then◌else◌, Option, none, some, List, ◌++◌, append_assoc, length, bytes_eq_refl, ltb, leb,
  Outcome, ok, err, panic, ok-injective, map_err,
}
use hbb_common.Common.Bytes.{to_be_bytes}
use hbb_common.Common.Saturating.{checked_next}
use hbb_common.Protocol.Types.{MessageType, ProtocolError, channel}
use hbb_common.Protocol.Message.{header_len, channel_eq, new_message, decode_message}
use hbb_common.Protocol.NewMessage.{
  IsSessionId, made_header, decode_message-new_message, length-new_message,
}
use hbb_common.Reliable.{
  ReliableChannelKind, protocol, protocol_state, stream, channel_id, max_message_size,
}
use hbb_common.Reliable.Stream.{
  Streams, ReliableMessage, SendResult, ReceiveResult, write_message, send_message, send_reliable,
  read_message, read_length, receive_reliable,
}

checked_next_one : (n next : ℕ) → checked_next n ≡ some next → n + 1 ≡ next
unfolding checked_next
checked_next_one n next h = ground arith

module _ (S : Streams) (kind : ReliableChannelKind) (session_id : List ℕ) (sequence : ℕ)
    (message_type : MessageType) (flags time : ℕ) (payload : List ℕ) where
  abbrev pub sent_message : ReliableMessage
  sent_message = record {
    header = made_header message_type flags session_id sequence time payload;
    payload = payload;
  }

  -- What a send writes, and what a receiver makes of it.
  pub record Delivers (send : S.SendStream) (r : SendResult S) : Type 0 where
    pub frame : List ℕ
    pub wrote : S.written r.1.1 ≡ S.written send ++ frame
    pub next : r.1.0 ≡ sequence + 1
    pub received :
        (receive : S.RecvStream) (ys : List ℕ) (last : ℕ)
        → S.Next receive (frame ++ ys)
        → last < sequence
        → ((receive_reliable S receive kind session_id last).0 ≡ ok sent_message)
          × ((receive_reliable S receive kind session_id last).1.0 ≡ sequence)
          × S.Next (receive_reliable S receive kind session_id last).1.1 ys

  module _ (is_session : IsSessionId session_id) (flags_u16 : flags < 2 ^ 16)
      (sequence_u64 : sequence < 2 ^ 64) (time_u64 : time < 2 ^ 64) (message : List ℕ)
      (made : new_message message_type flags session_id sequence time payload ≡ ok message)
      (same_channel : channel_eq (channel message_type) (channel_id kind) ≡ true)
      (fits : length message ≤ max_message_size kind) (u32 : length message < 2 ^ 32) where
    receive_frame :
        (receive : S.RecvStream) (ys : List ℕ) (last : ℕ)
        → S.Next receive ((to_be_bytes 4 (length message) ++ message) ++ ys)
        → last < sequence
        → ((receive_reliable S receive kind session_id last).0 ≡ ok sent_message)
          × ((receive_reliable S receive kind session_id last).1.0 ≡ sequence)
          × S.Next (receive_reliable S receive kind session_id last).1.1 ys
    unfolding receive_reliable
    receive_frame receive ys last coming later = by_length (S.read_u32 receive) (
        S.read_u32_lem receive (length message) (message ++ ys) u32 (
          subst (λ xs. S.Next receive xs) (append_assoc (to_be_bytes 4 (length message)) message ys)
            coming))
      where
        Received : ReceiveResult S → Type 0
        Received x = (x.0 ≡ ok sent_message) × (x.1.0 ≡ sequence) × S.Next x.1.1 ys

        decoded :
            decode_message message ≡ ok (record { header = sent_message.header; payload = payload })
        decoded =
            decode_message-new_message message_type flags session_id sequence time payload message
              flags_u16 is_session sequence_u64 time_u64 made

        newer : leb sequence last ≡ false
        newer = ground arith

        taken :
            (r : S.RecvStream)
            → S.Next r ys
            → Received (read_message S kind session_id last (some message, r))
        taken r n = rw (decoded, same_channel, bytes_eq_refl session_id, newer) (refl, refl, n)

        long : ltb (length message) header_len ≡ false
        long =
            rw
              (length-new_message message_type flags session_id sequence time payload message
                flags_u16 is_session sequence_u64 time_u64 made)
              (ground arith)

        small : ltb (max_message_size kind) (length message) ≡ false
        small = ground arith

        by_message :
            (x : Option (List ℕ) × S.RecvStream)
            → (x.0 ≡ some message) × S.Next x.1 ys
            → Received (read_message S kind session_id last x)
        by_message (none, r) h = cc
        by_message (some encoded, r) h =
            let same : message ≡ encoded = cc in
            subst (λ e. Received (read_message S kind session_id last (some e, r))) same
              (taken r h.1)

        read_in_full :
            (r : S.RecvStream)
            → S.Next r (message ++ ys)
            → Received (read_length S kind session_id last (some (length message), r))
        read_in_full r n =
            rw (long, small)
              (by_message (S.read_exact r (length message)) (S.read_exact_lem r message ys n))

        by_length :
            (x : Option ℕ × S.RecvStream)
            → (x.0 ≡ some (length message)) × S.Next x.1 (message ++ ys)
            → Received (read_length S kind session_id last x)
        by_length (none, r) h = cc
        by_length (some len, r) h =
            let same : length message ≡ len = cc in
            subst (λ n. Received (read_length S kind session_id last (some n, r))) same
              (read_in_full r h.1)

  write_message-Delivers :
      (send : S.SendStream) (message : List ℕ) (used : ℕ)
      → IsSessionId session_id
      → flags < 2 ^ 16
      → sequence < 2 ^ 64
      → time < 2 ^ 64
      → new_message message_type flags session_id sequence time payload ≡ ok message
      → channel_eq (channel message_type) (channel_id kind) ≡ true
      → length message ≤ max_message_size kind
      → length message < 2 ^ 32
      → (write_message S send sequence (sequence + 1) message).0 ≡ ok used
      → (used ≡ sequence) × Delivers send (write_message S send sequence (sequence + 1) message)
  unfolding write_message
  write_message-Delivers send message used i f n t made c fits u e = by_writes w.0 refl v.0 refl e
    where
      w : Bool × S.SendStream
      w = S.write_all send (to_be_bytes 4 (length message))

      v : Bool × S.SendStream
      v = S.write_all w.1 message

      Wrote : Bool → Bool → Type 0
      Wrote a b =
          (if◌then◌else◌ {A = SendResult S} a
            (if◌then◌else◌ {A = SendResult S} b (ok sequence, (sequence + 1, v.1))
              (err stream, (sequence + 1, v.1)))
            (err stream, (sequence + 1, w.1))).0
          ≡ ok used

      number : Wrote w.0 v.0 → w.0 ≡ true → v.0 ≡ true → used ≡ sequence
      number e p q =
          sym (
            ok-injective sequence used (subst (λ b. Wrote true b) q (subst (λ a. Wrote a v.0) p e)))

      failed : Wrote w.0 v.0 → w.0 ≡ true → v.0 ≡ false → ⊥
      failed e p q = cc (subst (λ b. Wrote true b) q (subst (λ a. Wrote a v.0) p e))

      failed_first : Wrote w.0 v.0 → w.0 ≡ false → ⊥
      failed_first e p = cc (subst (λ a. Wrote a v.0) p e)

      by_writes :
          (a : Bool)
          → w.0 ≡ a
          → (b : Bool) → v.0 ≡ b
          → (write_message S send sequence (sequence + 1) message).0 ≡ ok used
          → (used ≡ sequence) × Delivers send (write_message S send sequence (sequence + 1) message)
      by_writes true p true q e =
          rw (p, q)
            (
              number e p q,
              record {
                frame = to_be_bytes 4 (length message) ++ message;
                wrote =
                    S.write_all_lem w.1 message q
                    ∙ ap (λ (xs : List ℕ). xs ++ message)
                        (S.write_all_lem send (to_be_bytes 4 (length message)) p)
                    ∙ append_assoc (S.written send) (to_be_bytes 4 (length message)) message;
                next = refl;
                received = receive_frame i f n t message made c fits u;
              },
            )
      by_writes true p false q e = absurd (failed e p q)
      by_writes false p b q e = absurd (failed_first e p)

  -- When a send succeeds, for values of their types, it returns the number that it used, the next one is
  -- one more, and what it wrote is a frame that the other end, with the same kind of channel and the
  -- same session, receives as the message's header and payload, after any earlier number, and with what
  -- follows the frame left to be read.
  pub send_reliable-Delivers :
      (send : S.SendStream) (used : ℕ)
      → IsSessionId session_id
      → flags < 2 ^ 16
      → sequence < 2 ^ 64
      → time < 2 ^ 64
      → (send_reliable S send kind session_id sequence message_type flags time payload).0 ≡ ok used
      → (used ≡ sequence)
        × Delivers send
            (send_reliable S send kind session_id sequence message_type flags time payload)
  unfolding send_reliable
  send_reliable-Delivers send used i f n t e =
      by_channel (channel_eq (channel message_type) (channel_id kind)) refl e
    where
      Sent : SendResult S → Type 0
      Sent r = r.0 ≡ ok used → (used ≡ sequence) × Delivers send r

      by_size :
          (b : Bool) (message : List ℕ)
          → (ltb (max_message_size kind) (length message) || leb (2 ^ 32) (length message)) ≡ b
          → new_message message_type flags session_id sequence time payload ≡ ok message
          → channel_eq (channel message_type) (channel_id kind) ≡ true
          → Sent (
              if◌then◌else◌ {A = SendResult S} b
                (err protocol_state, (sequence + 1, send))
                (write_message S send sequence (sequence + 1) message))
      by_size true message h m c e = cc
      by_size false message h m c e =
          write_message-Delivers send message used i f n t m c (ground arith) (ground arith) e

      by_message :
          (o : Outcome ProtocolError (List ℕ))
          → new_message message_type flags session_id sequence time payload ≡ o
          → channel_eq (channel message_type) (channel_id kind) ≡ true
          → Sent (send_message S send kind sequence (sequence + 1) (map_err protocol o))
      by_message (err x) m c e = cc
      by_message panic m c e = cc
      by_message (ok message) m c e =
          by_size (ltb (max_message_size kind) (length message) || leb (2 ^ 32) (length message))
            message refl m c e

      by_next :
          (o : Option ℕ)
          → checked_next sequence ≡ o
          → channel_eq (channel message_type) (channel_id kind) ≡ true
          → Sent (send_reliable S send kind session_id sequence message_type flags time payload)
      by_next none h c = rw (c, h) (λ e. cc)
      by_next (some next) h c =
          let one : sequence + 1 ≡ next = checked_next_one sequence next h in
          rw (c, h)
            (subst
              (λ m. Sent (
                send_message S send kind sequence m (
                  map_err protocol
                    (new_message message_type flags session_id sequence time payload))))
              one
              (by_message (new_message message_type flags session_id sequence time payload) refl c))

      by_channel :
          (b : Bool)
          → channel_eq (channel message_type) (channel_id kind) ≡ b
          → Sent (send_reliable S send kind session_id sequence message_type flags time payload)
      by_channel true c = by_next (checked_next sequence) refl c
      by_channel false c = rw c (λ e. cc)
