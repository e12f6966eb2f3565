-- ===== src/Reliable/Preface.antt =====
-- The preface of a reliable stream, and the sizes of its messages.
use hbb_common.Common.{
  ℕ, ◌+◌, ◌*◌, ◌≤◌, ◌≡◌, ◌↔◌, refl, sym, ap, subst, ◌∙◌, arith, Bool, true, false, not, ◌||◌, List,
  [], ◌∷◌, length, ◌==◌, Outcome, ok, err, panic, All, ◌>>=◌, ◌>>◌, reject_if, map_err,
  ok-injective,
}
use hbb_common.Common.Bytes.{IsByte, to_be_bytes, from_be_bytes, field, read, index}
use hbb_common.Protocol.Types.{
  ChannelId, MessageType, ProtocolError, channel_code, channel_of_code, channel, max_payload_len,
}
use hbb_common.Protocol.Codes.{channel_code-channel_of_code}
use hbb_common.Protocol.Message.{protocol_version}
use hbb_common.Reliable.{
  ReliableChannelKind, protocol, protocol_state, channel_id, stream_magic, max_message_size,
  kind_of_channel, encode_stream_preface, decode_stream_preface,
}

pub kind_of_channel-channel_id : (k : ReliableChannelKind) → kind_of_channel (channel_id k) ≡ ok k
unfolding kind_of_channel channel_id
kind_of_channel-channel_id ReliableChannelKind.control = refl
kind_of_channel-channel_id ReliableChannelKind.input = refl
kind_of_channel-channel_id ReliableChannelKind.clipboard = refl
kind_of_channel-channel_id ReliableChannelKind.file_transfer = refl
kind_of_channel-channel_id ReliableChannelKind.diagnostics = refl
kind_of_channel-channel_id ReliableChannelKind.video = refl

decode-encode_stream_preface :
    (k : ReliableChannelKind) → decode_stream_preface (encode_stream_preface k) ≡ ok k
unfolding decode_stream_preface encode_stream_preface kind_of_channel channel_id channel_code
    channel_of_code read index to_be_bytes from_be_bytes
decode-encode_stream_preface ReliableChannelKind.control = refl
decode-encode_stream_preface ReliableChannelKind.input = refl
decode-encode_stream_preface ReliableChannelKind.clipboard = refl
decode-encode_stream_preface ReliableChannelKind.file_transfer = refl
decode-encode_stream_preface ReliableChannelKind.diagnostics = refl
decode-encode_stream_preface ReliableChannelKind.video = refl

channel_id-kind_of_channel :
    (c : ChannelId) (k : ReliableChannelKind) → kind_of_channel c ≡ ok k → channel_id k ≡ c
unfolding kind_of_channel channel_id
channel_id-kind_of_channel ChannelId.control k h =
    ap channel_id (sym (ok-injective ReliableChannelKind.control k h))
channel_id-kind_of_channel ChannelId.reliable_input k h =
    ap channel_id (sym (ok-injective ReliableChannelKind.input k h))
channel_id-kind_of_channel ChannelId.clipboard k h =
    ap channel_id (sym (ok-injective ReliableChannelKind.clipboard k h))
channel_id-kind_of_channel ChannelId.file_transfer k h =
    ap channel_id (sym (ok-injective ReliableChannelKind.file_transfer k h))
channel_id-kind_of_channel ChannelId.diagnostics k h =
    ap channel_id (sym (ok-injective ReliableChannelKind.diagnostics k h))
channel_id-kind_of_channel ChannelId.reliable_video k h =
    ap channel_id (sym (ok-injective ReliableChannelKind.video k h))
channel_id-kind_of_channel ChannelId.video_datagram k h = cc
channel_id-kind_of_channel ChannelId.audio_datagram k h = cc
channel_id-kind_of_channel ChannelId.mouse_datagram k h = cc

eight_bytes :
    (a b c d e f g h : ℕ) (k : ReliableChannelKind)
    → All IsByte (a ∷ b ∷ c ∷ d ∷ e ∷ f ∷ g ∷ h ∷ [])
    → decode_stream_preface (a ∷ b ∷ c ∷ d ∷ e ∷ f ∷ g ∷ h ∷ []) ≡ ok k
    → encode_stream_preface k ≡ a ∷ b ∷ c ∷ d ∷ e ∷ f ∷ g ∷ h ∷ []
unfolding decode_stream_preface encode_stream_preface read index from_be_bytes to_be_bytes
eight_bytes a b c d e f g h k v r =
    by_tests (field 4 0 (a ∷ b ∷ c ∷ d ∷ []) == stream_magic) refl
      (field 2 0 (e ∷ f ∷ []) == protocol_version) refl (h == 0) refl (channel_of_code g) refl r
  where
    by_tests :
        (x : Bool)
        → (field 4 0 (a ∷ b ∷ c ∷ d ∷ []) == stream_magic) ≡ x
        → (y : Bool) → (field 2 0 (e ∷ f ∷ []) == protocol_version) ≡ y
        → (z : Bool) → (h == 0) ≡ z
        → (o : Outcome ProtocolError ChannelId) → channel_of_code g ≡ o
        → (reject_if (not x || (not y || not z)) protocol_state
            >> (map_err protocol o >>= kind_of_channel))
          ≡ ok k
        → encode_stream_preface k ≡ a ∷ b ∷ c ∷ d ∷ e ∷ f ∷ g ∷ h ∷ []
    by_tests true p true q true s (ok n) w u =
        let magic : ((a * 256 + b) * 256 + c) * 256 + d ≡ 0x5241_5153 = ground arith in
        let version : e * 256 + f ≡ 1 = ground arith in
        let ea : 82 ≡ a = omega (arith, magic, v.0, v.1.0, v.1.1.0, v.1.1.1.0) in
        let eb : 65 ≡ b = omega (arith, magic, ea, v.1.0, v.1.1.0, v.1.1.1.0) in
        let ec : 81 ≡ c = omega (arith, magic, ea, eb, v.1.1.0, v.1.1.1.0) in
        let ed : 83 ≡ d = omega (arith, magic, ea, eb, ec) in
        let ee : 0 ≡ e = omega (arith, version, v.1.1.1.1.0, v.1.1.1.1.1.0) in
        let ef : 1 ≡ f = omega (arith, version, ee) in
        let eh : 0 ≡ h = ground arith in
        let code : channel_code (channel_id k) ≡ g =
          ap channel_code (channel_id-kind_of_channel n k u) ∙ channel_code-channel_of_code g n w in
        cc (ea, eb, ec, ed, ee, ef, code, eh)
    by_tests true p true q true s (err n) w u = cc
    by_tests true p true q true s panic w u = cc
    by_tests false p y q z s o w u = cc
    by_tests true p false q z s o w u = cc
    by_tests true p true q false s o w u = cc

-- A preface of eight bytes is accepted as one of a kind exactly when it is the preface that is
-- written for the kind: every kind's preface is read back, and no other bytes are taken.
pub decode_stream_preface_iff :
    (preface : List ℕ) (k : ReliableChannelKind)
    → length preface ≡ 8
    → All IsByte preface
    → (decode_stream_preface preface ≡ ok k) ↔ (encode_stream_preface k ≡ preface)
decode_stream_preface_iff [] k l v = absurd (omega (arith, l))
decode_stream_preface_iff (a ∷ []) k l v = absurd (omega (arith, l))
decode_stream_preface_iff (a ∷ b ∷ []) k l v = absurd (omega (arith, l))
decode_stream_preface_iff (a ∷ b ∷ c ∷ []) k l v = absurd (omega (arith, l))
decode_stream_preface_iff (a ∷ b ∷ c ∷ d ∷ []) k l v = absurd (omega (arith, l))
decode_stream_preface_iff (a ∷ b ∷ c ∷ d ∷ e ∷ []) k l v = absurd (omega (arith, l))
decode_stream_preface_iff (a ∷ b ∷ c ∷ d ∷ e ∷ f ∷ []) k l v = absurd (omega (arith, l))
decode_stream_preface_iff (a ∷ b ∷ c ∷ d ∷ e ∷ f ∷ g ∷ []) k l v = absurd (omega (arith, l))
decode_stream_preface_iff (a ∷ b ∷ c ∷ d ∷ e ∷ f ∷ g ∷ h ∷ i ∷ rest) k l v =
    absurd (omega (arith, l))
decode_stream_preface_iff (a ∷ b ∷ c ∷ d ∷ e ∷ f ∷ g ∷ h ∷ []) k l v = (
  λ read. eight_bytes a b c d e f g h k v read,
  λ same. ap decode_stream_preface (sym same) ∙ decode-encode_stream_preface k,
)

-- The largest message of a type fits the reliable channel of the type.
pub max_payload_len-le-max_message_size :
    (t : MessageType) (k : ReliableChannelKind)
    → kind_of_channel (channel t) ≡ ok k
    → 48 + max_payload_len t ≤ max_message_size k
unfolding kind_of_channel channel max_payload_len max_message_size
max_payload_len-le-max_message_size MessageType.client_hello k h =
    subst (λ k. 48 + max_payload_len MessageType.client_hello ≤ max_message_size k)
      (ok-injective ReliableChannelKind.control k h) (omega arith)
max_payload_len-le-max_message_size MessageType.server_hello k h =
    subst (λ k. 48 + max_payload_len MessageType.server_hello ≤ max_message_size k)
      (ok-injective ReliableChannelKind.control k h) (omega arith)
max_payload_len-le-max_message_size MessageType.ping k h =
    subst (λ k. 48 + max_payload_len MessageType.ping ≤ max_message_size k)
      (ok-injective ReliableChannelKind.control k h) (omega arith)
max_payload_len-le-max_message_size MessageType.pong k h =
    subst (λ k. 48 + max_payload_len MessageType.pong ≤ max_message_size k)
      (ok-injective ReliableChannelKind.control k h) (omega arith)
max_payload_len-le-max_message_size MessageType.error k h =
    subst (λ k. 48 + max_payload_len MessageType.error ≤ max_message_size k)
      (ok-injective ReliableChannelKind.control k h) (omega arith)
max_payload_len-le-max_message_size MessageType.keyframe_request k h =
    subst (λ k. 48 + max_payload_len MessageType.keyframe_request ≤ max_message_size k)
      (ok-injective ReliableChannelKind.control k h) (omega arith)
max_payload_len-le-max_message_size MessageType.session_close k h =
    subst (λ k. 48 + max_payload_len MessageType.session_close ≤ max_message_size k)
      (ok-injective ReliableChannelKind.control k h) (omega arith)
max_payload_len-le-max_message_size MessageType.session_offer k h =
    subst (λ k. 48 + max_payload_len MessageType.session_offer ≤ max_message_size k)
      (ok-injective ReliableChannelKind.control k h) (omega arith)
max_payload_len-le-max_message_size MessageType.session_accept k h =
    subst (λ k. 48 + max_payload_len MessageType.session_accept ≤ max_message_size k)
      (ok-injective ReliableChannelKind.control k h) (omega arith)
max_payload_len-le-max_message_size MessageType.application_control k h =
    subst (λ k. 48 + max_payload_len MessageType.application_control ≤ max_message_size k)
      (ok-injective ReliableChannelKind.control k h) (omega arith)
max_payload_len-le-max_message_size MessageType.application_raw k h =
    subst (λ k. 48 + max_payload_len MessageType.application_raw ≤ max_message_size k)
      (ok-injective ReliableChannelKind.control k h) (omega arith)
max_payload_len-le-max_message_size MessageType.video_ordering k h =
    subst (λ k. 48 + max_payload_len MessageType.video_ordering ≤ max_message_size k)
      (ok-injective ReliableChannelKind.control k h) (omega arith)
max_payload_len-le-max_message_size MessageType.video_ordering_ack k h =
    subst (λ k. 48 + max_payload_len MessageType.video_ordering_ack ≤ max_message_size k)
      (ok-injective ReliableChannelKind.control k h) (omega arith)
max_payload_len-le-max_message_size MessageType.reliable_input k h =
    subst (λ k. 48 + max_payload_len MessageType.reliable_input ≤ max_message_size k)
      (ok-injective ReliableChannelKind.input k h) (omega arith)
max_payload_len-le-max_message_size MessageType.clipboard k h =
    subst (λ k. 48 + max_payload_len MessageType.clipboard ≤ max_message_size k)
      (ok-injective ReliableChannelKind.clipboard k h) (omega arith)
max_payload_len-le-max_message_size MessageType.file_metadata k h =
    subst (λ k. 48 + max_payload_len MessageType.file_metadata ≤ max_message_size k)
      (ok-injective ReliableChannelKind.file_transfer k h) (omega arith)
max_payload_len-le-max_message_size MessageType.file_chunk k h =
    subst (λ k. 48 + max_payload_len MessageType.file_chunk ≤ max_message_size k)
      (ok-injective ReliableChannelKind.file_transfer k h) (omega arith)
max_payload_len-le-max_message_size MessageType.file_cancel k h =
    subst (λ k. 48 + max_payload_len MessageType.file_cancel ≤ max_message_size k)
      (ok-injective ReliableChannelKind.file_transfer k h) (omega arith)
max_payload_len-le-max_message_size MessageType.diagnostics k h =
    subst (λ k. 48 + max_payload_len MessageType.diagnostics ≤ max_message_size k)
      (ok-injective ReliableChannelKind.diagnostics k h) (omega arith)
max_payload_len-le-max_message_size MessageType.reliable_video_frame k h =
    subst (λ k. 48 + max_payload_len MessageType.reliable_video_frame ≤ max_message_size k)
      (ok-injective ReliableChannelKind.video k h) (omega arith)
max_payload_len-le-max_message_size MessageType.video_fragment k h = cc
max_payload_len-le-max_message_size MessageType.audio_packet k h = cc
max_payload_len-le-max_message_size MessageType.mouse_movement k h = cc
