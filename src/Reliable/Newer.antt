-- ===== src/Reliable/Newer.antt =====
-- What a receive on a reliable channel accepts.
use hbb_common.Common.{
  ℕ, ◌<◌, ◌≡◌, ◌≢◌, refl, arith, ◌||◌, Bool, true, false, if◌then◌else◌, Option, none, some, List,
  bytes_eq, bytes_eq→eq, ltb, leb, Outcome, ok, err, panic, map_err, map_err-ne-panic,
}
use hbb_common.Protocol.Types.{channel_code}
use hbb_common.Protocol.Message.{ParsedMessage, header_len, channel_eq, decode_message}
use hbb_common.Protocol.Decode.{decode_message-ne-panic}
use hbb_common.Reliable.{
  ReliableChannelKind, ReliableError, protocol, protocol_state, channel_id, max_message_size,
}
use hbb_common.Reliable.Stream.{
  Streams, ReliableMessage, ReceiveResult, take_message, read_message, read_length,
  receive_reliable,
}

module _ (S : Streams) (kind : ReliableChannelKind) (session_id : List ℕ) (last : ℕ) where
  -- A message with a number above the last one, which becomes the last, of the channel and the session;
  -- or an error, which leaves the last number.
  abbrev pub IsNewer : Outcome ReliableError ReliableMessage → ℕ → Type 0
  IsNewer (ok m) next =
      (last < m.header.sequence_number)
      × (next ≡ m.header.sequence_number)
      × (m.header.session_id ≡ session_id)
      × (channel_code m.header.channel ≡ channel_code (channel_id kind))
  IsNewer (err e) next = next ≡ last
  IsNewer panic next = ⊥

  take_message-IsNewer :
      (r : S.RecvStream) (o : Outcome ReliableError ParsedMessage)
      → o ≢ panic
      → let x = take_message S kind session_id last r o in IsNewer x.0 x.1.0
  unfolding take_message
  take_message-IsNewer r (err e) h = refl
  take_message-IsNewer r panic h = h refl
  take_message-IsNewer r (ok p) h =
      by_tests (channel_eq p.header.channel (channel_id kind)) refl
        (bytes_eq p.header.session_id session_id) refl (leb p.header.sequence_number last) refl
    where
      by_tests :
          (a : Bool)
          → channel_eq p.header.channel (channel_id kind) ≡ a
          → (b : Bool) → bytes_eq p.header.session_id session_id ≡ b
          → (c : Bool) → leb p.header.sequence_number last ≡ c
          → let x = take_message S kind session_id last r (ok p) in IsNewer x.0 x.1.0
      by_tests false e b f c g = rw e refl
      by_tests true e false f c g = rw (e, f) refl
      by_tests true e true f true g = rw (e, f, g) refl
      by_tests true e true f false g =
          rw (e, f, g)
            (ground arith, refl, bytes_eq→eq p.header.session_id session_id f, ground arith)

  read_message-IsNewer :
      (y : Option (List ℕ) × S.RecvStream)
      → let x = read_message S kind session_id last y in IsNewer x.0 x.1.0
  unfolding read_message
  read_message-IsNewer (none, r) = refl
  read_message-IsNewer (some encoded, r) =
      take_message-IsNewer r (map_err protocol (decode_message encoded))
        (map_err-ne-panic protocol (decode_message encoded) (decode_message-ne-panic encoded))

  read_length-IsNewer :
      (y : Option ℕ × S.RecvStream)
      → let x = read_length S kind session_id last y in IsNewer x.0 x.1.0
  unfolding read_length
  read_length-IsNewer (none, r) = refl
  read_length-IsNewer (some len, r) =
      by_test (ltb len header_len || ltb (max_message_size kind) len)
    where
      by_test :
          (b : Bool)
          → let x =
              if◌then◌else◌ {A = ReceiveResult S} b
                (err protocol_state, (last, r))
                (read_message S kind session_id last (S.read_exact r len)) in
            IsNewer x.0 x.1.0
      by_test true = refl
      by_test false = read_message-IsNewer (S.read_exact r len)

  -- Whatever bytes a stream holds, a receive does not panic; when it returns a message, the message
  -- is of the channel and the session and its number is above the last one and becomes the last;
  -- when it returns an error, the last number stays.
  pub receive_reliable-IsNewer :
      (receive : S.RecvStream)
      → let x = receive_reliable S receive kind session_id last in IsNewer x.0 x.1.0
  unfolding receive_reliable
  receive_reliable-IsNewer receive = read_length-IsNewer (S.read_u32 receive)
