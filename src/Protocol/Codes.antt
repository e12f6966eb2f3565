-- ===== src/Protocol/Codes.antt =====
-- The numbers on the wire name their channels and message types, and only those.
use hbb_common.Common.{ℕ, ◌<◌, ◌≡◌, ◌≢◌, refl, arith, ok, panic}
use hbb_common.Protocol.Types.{
  ChannelId, MessageType, channel_code, channel_of_code, type_code, type_of_code,
}

pub channel_of_code-channel_code : (c : ChannelId) → channel_of_code (channel_code c) ≡ ok c
unfolding channel_of_code channel_code
channel_of_code-channel_code ChannelId.control = refl
channel_of_code-channel_code ChannelId.reliable_input = refl
channel_of_code-channel_code ChannelId.clipboard = refl
channel_of_code-channel_code ChannelId.file_transfer = refl
channel_of_code-channel_code ChannelId.diagnostics = refl
channel_of_code-channel_code ChannelId.reliable_video = refl
channel_of_code-channel_code ChannelId.video_datagram = refl
channel_of_code-channel_code ChannelId.audio_datagram = refl
channel_of_code-channel_code ChannelId.mouse_datagram = refl

pub type_of_code-type_code : (c : MessageType) → type_of_code (type_code c) ≡ ok c
unfolding type_of_code type_code
type_of_code-type_code MessageType.client_hello = refl
type_of_code-type_code MessageType.server_hello = refl
type_of_code-type_code MessageType.ping = refl
type_of_code-type_code MessageType.pong = refl
type_of_code-type_code MessageType.error = refl
type_of_code-type_code MessageType.keyframe_request = refl
type_of_code-type_code MessageType.session_close = refl
type_of_code-type_code MessageType.session_offer = refl
type_of_code-type_code MessageType.session_accept = refl
type_of_code-type_code MessageType.application_control = refl
type_of_code-type_code MessageType.application_raw = refl
type_of_code-type_code MessageType.video_ordering = refl
type_of_code-type_code MessageType.video_ordering_ack = refl
type_of_code-type_code MessageType.reliable_input = refl
type_of_code-type_code MessageType.clipboard = refl
type_of_code-type_code MessageType.file_metadata = refl
type_of_code-type_code MessageType.file_chunk = refl
type_of_code-type_code MessageType.file_cancel = refl
type_of_code-type_code MessageType.diagnostics = refl
type_of_code-type_code MessageType.reliable_video_frame = refl
type_of_code-type_code MessageType.video_fragment = refl
type_of_code-type_code MessageType.audio_packet = refl
type_of_code-type_code MessageType.mouse_movement = refl

pub channel_code-lt : (c : ChannelId) → channel_code c < 256
unfolding channel_code
channel_code-lt ChannelId.control = omega arith
channel_code-lt ChannelId.reliable_input = omega arith
channel_code-lt ChannelId.clipboard = omega arith
channel_code-lt ChannelId.file_transfer = omega arith
channel_code-lt ChannelId.diagnostics = omega arith
channel_code-lt ChannelId.reliable_video = omega arith
channel_code-lt ChannelId.video_datagram = omega arith
channel_code-lt ChannelId.audio_datagram = omega arith
channel_code-lt ChannelId.mouse_datagram = omega arith

pub type_code-lt : (c : MessageType) → type_code c < 65536
unfolding type_code
type_code-lt MessageType.client_hello = omega arith
type_code-lt MessageType.server_hello = omega arith
type_code-lt MessageType.ping = omega arith
type_code-lt MessageType.pong = omega arith
type_code-lt MessageType.error = omega arith
type_code-lt MessageType.keyframe_request = omega arith
type_code-lt MessageType.session_close = omega arith
type_code-lt MessageType.session_offer = omega arith
type_code-lt MessageType.session_accept = omega arith
type_code-lt MessageType.application_control = omega arith
type_code-lt MessageType.application_raw = omega arith
type_code-lt MessageType.video_ordering = omega arith
type_code-lt MessageType.video_ordering_ack = omega arith
type_code-lt MessageType.reliable_input = omega arith
type_code-lt MessageType.clipboard = omega arith
type_code-lt MessageType.file_metadata = omega arith
type_code-lt MessageType.file_chunk = omega arith
type_code-lt MessageType.file_cancel = omega arith
type_code-lt MessageType.diagnostics = omega arith
type_code-lt MessageType.reliable_video_frame = omega arith
type_code-lt MessageType.video_fragment = omega arith
type_code-lt MessageType.audio_packet = omega arith
type_code-lt MessageType.mouse_movement = omega arith

pub channel_code-channel_of_code :
    (v : ℕ) (c : ChannelId) → channel_of_code v ≡ ok c → channel_code c ≡ v
unfolding channel_of_code channel_code
channel_code-channel_of_code v c h = ground arith

pub type_code-type_of_code : (v : ℕ) (t : MessageType) → type_of_code v ≡ ok t → type_code t ≡ v
unfolding type_of_code type_code
type_code-type_of_code v t h = ground arith

pub channel_of_code-ne-panic : (v : ℕ) → channel_of_code v ≢ panic
unfolding channel_of_code
channel_of_code-ne-panic v h = ground arith

pub type_of_code-ne-panic : (v : ℕ) → type_of_code v ≢ panic
unfolding type_of_code
type_of_code-ne-panic v h = ground arith
