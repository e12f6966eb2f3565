-- ===== src/Reliable/Tests.antt =====
-- Stream prefaces at concrete inputs.
use hbb_common.Protocol.Message.{header_bytes, encode_message, new_header, new_message}
use hbb_common.Common.{
  all_zero, ℕ, ◌≤◌, ◌≡◌, ◌↔◌, refl, List, [], ◌∷◌, ok, err, arith, ◌++◌, ◌∙◌, ap, length, take,
  drop, take-append, drop-append, length-append, leb, le→leb, if◌then◌else◌, true, Option, some,
  none, replicate,
}
use hbb_common.Common.Saturating.{checked_next}
use hbb_common.Reliable.{
  channel_id, ReliableChannelKind, protocol_state, kind_of_channel, max_message_size,
  encode_stream_preface, decode_stream_preface,
}
use hbb_common.Protocol.Types.{channel_code, MessageType, channel, channel_of_code, max_payload_len}
use hbb_common.Common.Bytes.{
  to_be_bytes, length-to_be_bytes, from_be_bytes-to_be_bytes, are_bytes, are_bytes→All, read, index,
  from_be_bytes,
}
use hbb_common.Reliable.Newer.{IsNewer, receive_reliable-IsNewer}
use hbb_common.Reliable.Stream.{Streams, send_reliable, receive_reliable}
use hbb_common.Reliable.Delivered.{Delivers, send_reliable-Delivers}
use hbb_common.Reliable.Preface.{decode_stream_preface_iff}
use hbb_common.Reliable.Fits.{send_reliable_sent}
use hbb_common.Protocol.NewMessage.{made_header}

abbrev input_preface : List ℕ
input_preface = 0x52 ∷ 0x41 ∷ 0x51 ∷ 0x53 ∷ 0 ∷ 1 ∷ 2 ∷ 0 ∷ []

mouse_preface :
    decode_stream_preface (0x52 ∷ 0x41 ∷ 0x51 ∷ 0x53 ∷ 0 ∷ 1 ∷ 18 ∷ 0 ∷ []) ≡ err protocol_state
unfolding decode_stream_preface read index from_be_bytes channel_of_code kind_of_channel
mouse_preface = refl

decode_stream_preface_iff_example :
    (decode_stream_preface input_preface ≡ ok ReliableChannelKind.input)
    ↔ (encode_stream_preface ReliableChannelKind.input ≡ input_preface)
unfolding are_bytes
decode_stream_preface_iff_example =
    decode_stream_preface_iff input_preface ReliableChannelKind.input refl
      (are_bytes→All input_preface refl)

abbrev read_front : List ℕ → ℕ → Option (List ℕ) × List ℕ
read_front r n = if leb n (length r) then (some (take n r), drop n r) else (none, r)

abbrev as_number : Option (List ℕ) × List ℕ → Option ℕ × List ℕ
as_number (none, r) = (none, r)
as_number (some bs, r) = (some (from_be_bytes bs), r)

read_front_lem : (xs ys : List ℕ) (n : ℕ) → length xs ≡ n → read_front (xs ++ ys) n ≡ (some xs, ys)
read_front_lem xs ys n h =
    rw
      (
        take-append n xs ys h,
        drop-append n xs ys h,
        le→leb n (length (xs ++ ys)) (omega (arith, h, length-append xs ys)),
      )
      refl

-- Streams that are byte strings.
abbrev list_streams : Streams
list_streams = record {
  SendStream = List ℕ;
  RecvStream = List ℕ;
  write_all = λ s xs. (true, s ++ xs);
  read_u32 = λ r. as_number (read_front r 4);
  read_exact = read_front;
  written = λ s. s;
  Next = λ r xs. r ≡ xs;
  write_all_lem = λ s xs h. refl;
  read_u32_lem = λ r n ys h e.
      let read : as_number (read_front r 4) ≡ (some n, ys) =
        ap (λ s. as_number (read_front s 4)) e
        ∙ ap as_number (read_front_lem (to_be_bytes 4 n) ys 4 (length-to_be_bytes 4 n))
        ∙ ap (λ (k : ℕ). (some k, ys)) (from_be_bytes-to_be_bytes 4 n h) in
      (ap (λ x. x.0) read, ap (λ x. x.1) read);
  read_exact_lem = λ r xs ys e.
      let read : read_front r (length xs) ≡ (some xs, ys) =
        ap (λ s. read_front s (length xs)) e ∙ read_front_lem xs ys (length xs) refl in
      (ap (λ x. x.0) read, ap (λ x. x.1) read);
}

ping_sent :
    (send_reliable list_streams [] ReliableChannelKind.control
      (replicate 16 7)
      3
      MessageType.ping
      0
      9
      (replicate 2 5)).0
    ≡ ok 3
unfolding send_reliable channel_code channel channel_id checked_next new_header all_zero
    max_payload_len encode_message max_message_size header_bytes to_be_bytes
ping_sent = refl

send_reliable-Delivers_example :
    (◌≡◌ {A = ℕ} 3 3)
    × Delivers list_streams ReliableChannelKind.control
        (replicate 16 7)
        3
        MessageType.ping
        0
        9
        (replicate 2 5)
        []
        (send_reliable list_streams [] ReliableChannelKind.control
          (replicate 16 7)
          3
          MessageType.ping
          0
          9
          (replicate 2 5))
unfolding are_bytes
send_reliable-Delivers_example =
    send_reliable-Delivers list_streams ReliableChannelKind.control (replicate 16 7) 3
      MessageType.ping 0 9 (replicate 2 5) [] 3 (refl, are_bytes→All (replicate 16 7) refl)
      (omega arith) (omega arith) (omega arith) ping_sent

abbrev ping_message : List ℕ
ping_message =
    header_bytes (made_header MessageType.ping 0 (replicate 16 7) 3 9 (replicate 2 5))
      (replicate 2 5)

ping_made : new_message MessageType.ping 0 (replicate 16 7) 3 9 (replicate 2 5) ≡ ok ping_message
unfolding new_header encode_message channel_code channel all_zero max_payload_len header_bytes
    to_be_bytes
ping_made = refl

ping_channel : channel MessageType.ping ≡ channel_id ReliableChannelKind.control
unfolding channel channel_id
ping_channel = refl

send_reliable_sent_example :
    (length ping_message ≤ max_message_size ReliableChannelKind.control)
    × ((send_reliable list_streams [] ReliableChannelKind.control
          (replicate 16 7)
          3
          MessageType.ping
          0
          9
          (replicate 2 5)).0
        ≡ ok 3)
unfolding are_bytes
send_reliable_sent_example =
    send_reliable_sent list_streams [] ReliableChannelKind.control (replicate 16 7) 3
      MessageType.ping 0 9 (replicate 2 5) ping_message (refl, are_bytes→All (replicate 16 7) refl)
      (omega arith) (omega arith) (omega arith) ping_channel ping_made refl refl

-- What a ping writes.
abbrev ping_bytes : List ℕ
ping_bytes =
    (send_reliable list_streams [] ReliableChannelKind.control (replicate 16 7) 3 MessageType.ping 0
      9 (replicate 2 5)).1.1

receive_reliable-IsNewer_example :
    let x =
      receive_reliable list_streams ping_bytes ReliableChannelKind.control (replicate 16 7) 2 in
    IsNewer list_streams ReliableChannelKind.control (replicate 16 7) 2 x.0 x.1.0
receive_reliable-IsNewer_example =
    receive_reliable-IsNewer list_streams ReliableChannelKind.control (replicate 16 7) 2 ping_bytes
