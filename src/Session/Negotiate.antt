-- ===== src/Session/Negotiate.antt =====
-- src/transport/session.rs: `negotiate_session`.
use hbb_common.Common.{
  ℕ, min, max, bit_and, Bool, ◌&&◌, ◌||◌, Option, none, some, List, [], ◌∷◌, map, ltb, ◌==◌,
  if◌then◌else◌, Outcome, ok, ◌>>=◌, ◌>>◌, reject_if, ok_or,
}
use hbb_common.Video.Types.{VideoCodec, video_code}
use hbb_common.Audio.Types.{AudioCodec, audio_code}
use hbb_common.Session.Types.{
  ColorFormat, LatencyMode, latency_code, color_mask, SessionOffer, SessionAgreement,
  SessionNegotiationError, incompatible_protocol, incompatible_video_codec,
  incompatible_audio_codec, incompatible_color_format, contains_code, has, validate_offer, cap_hdr,
  cap_clipboard_send, cap_clipboard_receive, cap_file_transfer, cap_input_send, cap_input_receive,
  cap_reliable_keyframes, cap_reliable_keyframe_barrier,
}

-- The first local codec that the remote offers too.
unfoldable pub find_video : List VideoCodec → List VideoCodec → Option VideoCodec
find_video [] remote = none
find_video (codec ∷ codecs) remote =
    if contains_code (video_code codec) (map video_code remote)
    then some codec
    else find_video codecs remote

unfoldable pub find_audio : List AudioCodec → List AudioCodec → Option AudioCodec
find_audio [] remote = none
find_audio (codec ∷ codecs) remote =
    if contains_code (audio_code codec) (map audio_code remote)
    then some codec
    else find_audio codecs remote

-- The best color format that is common, P010 only with HDR.
unfoldable pub find_color : ℕ → Bool → Option ColorFormat
find_color common_colors hdr =
    if hdr && has common_colors (color_mask ColorFormat.p010)
    then some ColorFormat.p010
    else if has common_colors (color_mask ColorFormat.i444)
    then some ColorFormat.i444
    else if has common_colors (color_mask ColorFormat.nv12)
    then some ColorFormat.nv12
    else if has common_colors (color_mask ColorFormat.i420)
    then some ColorFormat.i420
    else none

is_low_latency : LatencyMode → Bool
is_low_latency mode = latency_code mode == latency_code LatencyMode.low_latency

-- A capability that both sides have.
abbrev pub both_have : SessionOffer → SessionOffer → ℕ → Bool
both_have local remote bit = has (bit_and local.capabilities remote.capabilities) bit

-- The agreement on the versions, codecs and color format that were found.
unfoldable pub agree :
    SessionOffer → SessionOffer → ℕ → VideoCodec → AudioCodec → ColorFormat → SessionAgreement
unfolding is_low_latency
agree local remote protocol_version video_codec audio_codec color_format = record {
  protocol_version = protocol_version;
  video_codec = video_codec;
  audio_codec = audio_codec;
  color_format = color_format;
  hdr = both_have local remote cap_hdr && color_mask color_format == color_mask ColorFormat.p010;
  max_width = min local.max_width remote.max_width;
  max_height = min local.max_height remote.max_height;
  max_fps = min local.max_fps remote.max_fps;
  max_datagram_payload = min local.max_datagram_payload remote.max_datagram_payload;
  max_video_bitrate_kbps = min local.max_video_bitrate_kbps remote.max_video_bitrate_kbps;
  max_file_bitrate_kbps = min local.max_file_bitrate_kbps remote.max_file_bitrate_kbps;
  latency_mode =
      (if is_low_latency local.latency_mode || is_low_latency remote.latency_mode
        then LatencyMode.low_latency
        else local.latency_mode);
  local_may_send_clipboard =
      has local.capabilities cap_clipboard_send && has remote.capabilities cap_clipboard_receive;
  remote_may_send_clipboard =
      has remote.capabilities cap_clipboard_send && has local.capabilities cap_clipboard_receive;
  file_transfer_enabled = both_have local remote cap_file_transfer;
  local_may_send_input =
      has local.capabilities cap_input_send && has remote.capabilities cap_input_receive;
  remote_may_send_input =
      has remote.capabilities cap_input_send && has local.capabilities cap_input_receive;
  reliable_keyframes = both_have local remote cap_reliable_keyframes;
  reliable_keyframe_barrier = both_have local remote cap_reliable_keyframe_barrier;
}

unfoldable pub negotiate_session :
    SessionOffer → SessionOffer → Outcome SessionNegotiationError SessionAgreement
unfolding agree
negotiate_session local remote = do
  validate_offer local
  validate_offer remote
  let minimum_version = max local.minimum_protocol_version remote.minimum_protocol_version
  let protocol_version = min local.maximum_protocol_version remote.maximum_protocol_version
  reject_if (ltb protocol_version minimum_version) incompatible_protocol
  video_codec ← ok_or (find_video local.video_codecs remote.video_codecs) incompatible_video_codec
  audio_codec ← ok_or (find_audio local.audio_codecs remote.audio_codecs) incompatible_audio_codec
  let common_colors = bit_and local.color_formats remote.color_formats
  color_format ←
      ok_or (find_color common_colors (both_have local remote cap_hdr)) incompatible_color_format
  ok (agree local remote protocol_version video_codec audio_codec color_format)
