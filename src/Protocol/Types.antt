-- ===== src/Protocol/Types.antt =====
-- src/transport/protocol.rs: the channels and the message types, with their numbers on the wire.
use hbb_common.Common.{ℕ, ◌*◌, ◌==◌, if◌then◌else◌, Outcome, ok, err}

pub data ChannelId : Type 0 where
  control reliable_input clipboard file_transfer diagnostics reliable_video video_datagram
        audio_datagram mouse_datagram :
      ChannelId

pub data MessageType : Type 0 where
  client_hello server_hello ping pong error keyframe_request : MessageType
  session_close session_offer session_accept application_control application_raw video_ordering :
      MessageType
  video_ordering_ack reliable_input clipboard file_metadata file_chunk file_cancel : MessageType
  diagnostics reliable_video_frame video_fragment audio_packet mouse_movement : MessageType

pub data ProtocolError : Type 0 where
  header_truncated : ProtocolError
  invalid_magic : ℕ → ProtocolError
  unsupported_version : ℕ → ProtocolError
  unknown_message_type : ℕ → ProtocolError
  unknown_channel : ℕ → ProtocolError
  unknown_flags : ℕ → ProtocolError
  reserved_byte : ProtocolError
  channel_mismatch : MessageType → ChannelId → ProtocolError
  zero_session_id : ProtocolError
  zero_sequence : ProtocolError
  payload_too_large : ℕ → ProtocolError
  length_mismatch : ProtocolError

-- `channel as u8`.
unfoldable pub channel_code : ChannelId → ℕ
channel_code ChannelId.control = 1
channel_code ChannelId.reliable_input = 2
channel_code ChannelId.clipboard = 3
channel_code ChannelId.file_transfer = 4
channel_code ChannelId.diagnostics = 5
channel_code ChannelId.reliable_video = 6
channel_code ChannelId.video_datagram = 16
channel_code ChannelId.audio_datagram = 17
channel_code ChannelId.mouse_datagram = 18

unfoldable pub channel_of_code : ℕ → Outcome ProtocolError ChannelId
channel_of_code value =
    if value == 1
    then ok ChannelId.control
    else if value == 2
    then ok ChannelId.reliable_input
    else if value == 3
    then ok ChannelId.clipboard
    else if value == 4
    then ok ChannelId.file_transfer
    else if value == 5
    then ok ChannelId.diagnostics
    else if value == 6
    then ok ChannelId.reliable_video
    else if value == 16
    then ok ChannelId.video_datagram
    else if value == 17
    then ok ChannelId.audio_datagram
    else if value == 18
    then ok ChannelId.mouse_datagram
    else err (unknown_channel value)

-- `message_type as u16`.
unfoldable pub type_code : MessageType → ℕ
type_code MessageType.client_hello = 1
type_code MessageType.server_hello = 2
type_code MessageType.ping = 3
type_code MessageType.pong = 4
type_code MessageType.error = 5
type_code MessageType.keyframe_request = 6
type_code MessageType.session_close = 7
type_code MessageType.session_offer = 8
type_code MessageType.session_accept = 9
type_code MessageType.application_control = 10
type_code MessageType.application_raw = 11
type_code MessageType.video_ordering = 12
type_code MessageType.video_ordering_ack = 13
type_code MessageType.reliable_input = 16
type_code MessageType.clipboard = 32
type_code MessageType.file_metadata = 48
type_code MessageType.file_chunk = 49
type_code MessageType.file_cancel = 50
type_code MessageType.diagnostics = 64
type_code MessageType.reliable_video_frame = 65
type_code MessageType.video_fragment = 128
type_code MessageType.audio_packet = 129
type_code MessageType.mouse_movement = 130

unfoldable pub type_of_code : ℕ → Outcome ProtocolError MessageType
type_of_code value =
    if value == 1
    then ok MessageType.client_hello
    else if value == 2
    then ok MessageType.server_hello
    else if value == 3
    then ok MessageType.ping
    else if value == 4
    then ok MessageType.pong
    else if value == 5
    then ok MessageType.error
    else if value == 6
    then ok MessageType.keyframe_request
    else if value == 7
    then ok MessageType.session_close
    else if value == 8
    then ok MessageType.session_offer
    else if value == 9
    then ok MessageType.session_accept
    else if value == 10
    then ok MessageType.application_control
    else if value == 11
    then ok MessageType.application_raw
    else if value == 12
    then ok MessageType.video_ordering
    else if value == 13
    then ok MessageType.video_ordering_ack
    else if value == 16
    then ok MessageType.reliable_input
    else if value == 32
    then ok MessageType.clipboard
    else if value == 48
    then ok MessageType.file_metadata
    else if value == 49
    then ok MessageType.file_chunk
    else if value == 50
    then ok MessageType.file_cancel
    else if value == 64
    then ok MessageType.diagnostics
    else if value == 65
    then ok MessageType.reliable_video_frame
    else if value == 128
    then ok MessageType.video_fragment
    else if value == 129
    then ok MessageType.audio_packet
    else if value == 130
    then ok MessageType.mouse_movement
    else err (unknown_message_type value)

-- The channel that a message type belongs to.
unfoldable pub channel : MessageType → ChannelId
channel MessageType.client_hello = ChannelId.control
channel MessageType.server_hello = ChannelId.control
channel MessageType.ping = ChannelId.control
channel MessageType.pong = ChannelId.control
channel MessageType.error = ChannelId.control
channel MessageType.keyframe_request = ChannelId.control
channel MessageType.session_close = ChannelId.control
channel MessageType.session_offer = ChannelId.control
channel MessageType.session_accept = ChannelId.control
channel MessageType.application_control = ChannelId.control
channel MessageType.application_raw = ChannelId.control
channel MessageType.video_ordering = ChannelId.control
channel MessageType.video_ordering_ack = ChannelId.control
channel MessageType.reliable_input = ChannelId.reliable_input
channel MessageType.clipboard = ChannelId.clipboard
channel MessageType.file_metadata = ChannelId.file_transfer
channel MessageType.file_chunk = ChannelId.file_transfer
channel MessageType.file_cancel = ChannelId.file_transfer
channel MessageType.diagnostics = ChannelId.diagnostics
channel MessageType.reliable_video_frame = ChannelId.reliable_video
channel MessageType.video_fragment = ChannelId.video_datagram
channel MessageType.audio_packet = ChannelId.audio_datagram
channel MessageType.mouse_movement = ChannelId.mouse_datagram

-- The payload limit of a message type.
unfoldable pub max_payload_len : MessageType → ℕ
max_payload_len MessageType.client_hello = 512
max_payload_len MessageType.server_hello = 512
max_payload_len MessageType.ping = 64
max_payload_len MessageType.pong = 64
max_payload_len MessageType.error = 16 * 1024
max_payload_len MessageType.keyframe_request = 64
max_payload_len MessageType.session_close = 16 * 1024
max_payload_len MessageType.session_offer = 4 * 1024
max_payload_len MessageType.session_accept = 4 * 1024
max_payload_len MessageType.application_control = 32 * 1024 * 1024
max_payload_len MessageType.application_raw = 32 * 1024 * 1024
max_payload_len MessageType.video_ordering = 1024 * 1024
max_payload_len MessageType.video_ordering_ack = 8
max_payload_len MessageType.reliable_input = 4 * 1024
max_payload_len MessageType.clipboard = 16 * 1024 * 1024
max_payload_len MessageType.file_metadata = 64 * 1024
max_payload_len MessageType.file_chunk = 1024 * 1024
max_payload_len MessageType.file_cancel = 4 * 1024
max_payload_len MessageType.diagnostics = 64 * 1024
max_payload_len MessageType.reliable_video_frame = 32 * 1024 * 1024
max_payload_len MessageType.video_fragment = 64 * 1024
max_payload_len MessageType.audio_packet = 64 * 1024
max_payload_len MessageType.mouse_movement = 64 * 1024
