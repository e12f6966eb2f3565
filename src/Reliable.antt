-- ===== src/Reliable.antt =====
-- src/transport/reliable.rs: the kinds of reliable channels, and the preface of their streams.
use hbb_common.Common.{
  ℕ, ◌+◌, ◌*◌, ◌^◌, not, ◌||◌, List, [], ◌∷◌, ◌++◌, ◌==◌, Outcome, ok, err, ◌>>=◌, ◌>>◌, reject_if,
  map_err,
}
use hbb_common.Common.Bytes.{to_be_bytes, read, index}
use hbb_common.Protocol.Types.{ChannelId, ProtocolError, channel_code, channel_of_code}
use hbb_common.Protocol.Message.{header_len, protocol_version}
pub mod Preface
pub mod Stream
pub mod Delivered
pub mod Newer
pub mod Fits
mod Tests

pub data ReliableChannelKind : Type 0 where
  control : ReliableChannelKind
  input : ReliableChannelKind
  clipboard : ReliableChannelKind
  file_transfer : ReliableChannelKind
  diagnostics : ReliableChannelKind
  video : ReliableChannelKind

-- Of `QuicTransportError`, what this code makes itself; `ProtocolState` without its text.
pub data ReliableError : Type 0 where
  protocol_state : ReliableError
  stream : ReliableError
  protocol : ProtocolError → ReliableError

abbrev pub stream_magic : ℕ
stream_magic = 0x5241_5153

unfoldable pub channel_id : ReliableChannelKind → ChannelId
channel_id ReliableChannelKind.control = ChannelId.control
channel_id ReliableChannelKind.input = ChannelId.reliable_input
channel_id ReliableChannelKind.clipboard = ChannelId.clipboard
channel_id ReliableChannelKind.file_transfer = ChannelId.file_transfer
channel_id ReliableChannelKind.diagnostics = ChannelId.diagnostics
channel_id ReliableChannelKind.video = ChannelId.reliable_video

unfoldable pub priority : ReliableChannelKind → ℕ
priority ReliableChannelKind.control = 1_000
priority ReliableChannelKind.input = 900
priority ReliableChannelKind.clipboard = 200
priority ReliableChannelKind.file_transfer = 100
priority ReliableChannelKind.diagnostics = 0
priority ReliableChannelKind.video = 700

unfoldable pub max_message_size : ReliableChannelKind → ℕ
max_message_size ReliableChannelKind.control = header_len + 32 * 1024 * 1024
max_message_size ReliableChannelKind.input = header_len + 4 * 1024
max_message_size ReliableChannelKind.clipboard = header_len + 16 * 1024 * 1024
max_message_size ReliableChannelKind.file_transfer = header_len + 1024 * 1024
max_message_size ReliableChannelKind.diagnostics = header_len + 64 * 1024
max_message_size ReliableChannelKind.video = header_len + 32 * 1024 * 1024

unfoldable pub kind_of_channel : ChannelId → Outcome ReliableError ReliableChannelKind
kind_of_channel ChannelId.control = ok ReliableChannelKind.control
kind_of_channel ChannelId.reliable_input = ok ReliableChannelKind.input
kind_of_channel ChannelId.clipboard = ok ReliableChannelKind.clipboard
kind_of_channel ChannelId.file_transfer = ok ReliableChannelKind.file_transfer
kind_of_channel ChannelId.diagnostics = ok ReliableChannelKind.diagnostics
kind_of_channel ChannelId.reliable_video = ok ReliableChannelKind.video
kind_of_channel ChannelId.video_datagram = err protocol_state
kind_of_channel ChannelId.audio_datagram = err protocol_state
kind_of_channel ChannelId.mouse_datagram = err protocol_state

unfoldable pub encode_stream_preface : ReliableChannelKind → List ℕ
encode_stream_preface kind =
    to_be_bytes 4 stream_magic
    ++ (to_be_bytes 2 protocol_version ++ (channel_code (channel_id kind) ∷ 0 ∷ []))

unfoldable pub decode_stream_preface : List ℕ → Outcome ReliableError ReliableChannelKind
decode_stream_preface preface = do
  magic ← read 4 0 preface
  version ← read 2 4 preface
  reserved ← index 7 preface
  reject_if
      (not (magic == stream_magic) || (not (version == protocol_version) || not (reserved == 0)))
      protocol_state
  code ← index 6 preface
  channel ← map_err protocol (channel_of_code code)
  kind_of_channel channel
