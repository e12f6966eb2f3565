-- ===== src/Session/Types.antt =====
-- src/transport/session.rs: offers, agreements and their checks. The codecs are those of
-- src/transport/video_datagram.rs and src/transport/audio_datagram.rs.
use hbb_common.Common.{
  ℕ, ◌-◌, ◌^◌, Bool, false, not, ◌&&◌, ◌||◌, bit_and, List, [], ◌∷◌, map, length, ltb, leb, ◌==◌,
  Outcome, ◌>>◌, reject_if,
}
use hbb_common.Video.Types.{VideoCodec, video_code}
use hbb_common.Audio.Types.{AudioCodec, audio_code}

pub data LatencyMode : Type 0 where
  balanced low_latency quality : LatencyMode

unfoldable pub latency_code : LatencyMode → ℕ
latency_code LatencyMode.balanced = 1
latency_code LatencyMode.low_latency = 2
latency_code LatencyMode.quality = 3

pub data ColorFormat : Type 0 where
  i420 i444 nv12 p010 : ColorFormat

-- `COLOR_I420` to `COLOR_P010`.
unfoldable pub color_mask : ColorFormat → ℕ
color_mask ColorFormat.i420 = 1
color_mask ColorFormat.i444 = 2
color_mask ColorFormat.nv12 = 4
color_mask ColorFormat.p010 = 8

abbrev pub known_color_formats : ℕ
known_color_formats = 15

abbrev pub cap_hdr : ℕ
cap_hdr = 1

abbrev pub cap_clipboard_send : ℕ
cap_clipboard_send = 2

abbrev pub cap_clipboard_receive : ℕ
cap_clipboard_receive = 4

abbrev pub cap_file_transfer : ℕ
cap_file_transfer = 8

abbrev pub cap_input_send : ℕ
cap_input_send = 16

abbrev pub cap_input_receive : ℕ
cap_input_receive = 32

abbrev pub cap_reliable_keyframes : ℕ
cap_reliable_keyframes = 64

abbrev pub cap_reliable_keyframe_barrier : ℕ
cap_reliable_keyframe_barrier = 128

abbrev pub known_capabilities : ℕ
known_capabilities = 255

abbrev pub max_offered_video_codecs : ℕ
max_offered_video_codecs = 8

abbrev pub max_offered_audio_codecs : ℕ
max_offered_audio_codecs = 4

pub record SessionOffer : Type 0 where
  pub minimum_protocol_version : ℕ
  pub maximum_protocol_version : ℕ
  pub capabilities : ℕ
  pub latency_mode : LatencyMode
  pub video_codecs : List VideoCodec
  pub audio_codecs : List AudioCodec
  pub color_formats : ℕ
  pub max_width : ℕ
  pub max_height : ℕ
  pub max_fps : ℕ
  pub max_datagram_payload : ℕ
  pub max_video_bitrate_kbps : ℕ
  pub max_file_bitrate_kbps : ℕ

pub record SessionAgreement : Type 0 where
  pub protocol_version : ℕ
  pub video_codec : VideoCodec
  pub audio_codec : AudioCodec
  pub color_format : ColorFormat
  pub hdr : Bool
  pub max_width : ℕ
  pub max_height : ℕ
  pub max_fps : ℕ
  pub max_datagram_payload : ℕ
  pub max_video_bitrate_kbps : ℕ
  pub max_file_bitrate_kbps : ℕ
  pub latency_mode : LatencyMode
  pub local_may_send_clipboard : Bool
  pub remote_may_send_clipboard : Bool
  pub file_transfer_enabled : Bool
  pub local_may_send_input : Bool
  pub remote_may_send_input : Bool
  pub reliable_keyframes : Bool
  pub reliable_keyframe_barrier : Bool

pub data SessionNegotiationError : Type 0 where
  header_truncated : SessionNegotiationError
  length_mismatch : SessionNegotiationError
  invalid_reserved_field : SessionNegotiationError
  invalid_protocol_range : SessionNegotiationError
  incompatible_protocol : SessionNegotiationError
  invalid_capabilities : ℕ → SessionNegotiationError
  invalid_color_formats : ℕ → SessionNegotiationError
  invalid_video_codecs : SessionNegotiationError
  invalid_audio_codecs : SessionNegotiationError
  incompatible_video_codec : SessionNegotiationError
  incompatible_audio_codec : SessionNegotiationError
  incompatible_color_format : SessionNegotiationError
  invalid_geometry : SessionNegotiationError
  invalid_datagram_size : SessionNegotiationError
  invalid_bitrate : SessionNegotiationError
  unknown_video_codec : ℕ → SessionNegotiationError
  unknown_audio_codec : ℕ → SessionNegotiationError
  unknown_color_format : ℕ → SessionNegotiationError
  invalid_latency_mode : ℕ → SessionNegotiationError
  invalid_agreement : SessionNegotiationError

unfoldable pub contains_code : ℕ → List ℕ → Bool
contains_code value [] = false
contains_code value (x ∷ xs) = value == x || contains_code value xs

-- Whether a value stands twice in a list: it is met again later.
unfoldable pub contains_duplicates : List ℕ → Bool
unfolding contains_code
contains_duplicates [] = false
contains_duplicates (x ∷ xs) = contains_code x xs || contains_duplicates xs

abbrev pub in_range : ℕ → ℕ → ℕ → Bool
in_range low high value = leb low value && leb value high

-- `mask & bit != 0`.
abbrev pub has : ℕ → ℕ → Bool
has mask bit = not (bit_and mask bit == 0)

unfoldable pub validate_offer : SessionOffer → Outcome SessionNegotiationError (Unit {0})
validate_offer offer = do
  reject_if
      (offer.minimum_protocol_version == 0
        || ltb offer.maximum_protocol_version offer.minimum_protocol_version)
      invalid_protocol_range
  reject_if (has offer.capabilities (2 ^ 16 - 1 - known_capabilities))
      (invalid_capabilities offer.capabilities)
  reject_if (offer.color_formats == 0 || has offer.color_formats (2 ^ 16 - 1 - known_color_formats))
      (invalid_color_formats offer.color_formats)
  reject_if
      (length offer.video_codecs == 0
        || (ltb max_offered_video_codecs (length offer.video_codecs)
            || contains_duplicates (map video_code offer.video_codecs)))
      invalid_video_codecs
  reject_if
      (length offer.audio_codecs == 0
        || (ltb max_offered_audio_codecs (length offer.audio_codecs)
            || contains_duplicates (map audio_code offer.audio_codecs)))
      invalid_audio_codecs
  reject_if
      (not (in_range 320 16_384 offer.max_width)
        || (not (in_range 200 16_384 offer.max_height) || not (in_range 1 240 offer.max_fps)))
      invalid_geometry
  reject_if (not (in_range 256 65_000 offer.max_datagram_payload)) invalid_datagram_size
  reject_if (offer.max_video_bitrate_kbps == 0 || ltb 1_000_000 offer.max_video_bitrate_kbps)
      invalid_bitrate
  reject_if (has offer.capabilities cap_file_transfer && offer.max_file_bitrate_kbps == 0)
      invalid_bitrate
  reject_if
      (has offer.capabilities cap_reliable_keyframe_barrier
        && not (has offer.capabilities cap_reliable_keyframes))
      (invalid_capabilities offer.capabilities)
