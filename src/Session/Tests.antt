-- ===== src/Session/Tests.antt =====
-- Runs of the negotiation, and its theorem at a concrete input.
use hbb_common.Video.Types.{video_code, VideoCodec}
use hbb_common.Audio.Types.{audio_code, AudioCodec}
use hbb_common.Session.Types.{
  latency_code, color_mask, contains_duplicates, ColorFormat, LatencyMode, SessionOffer,
  SessionAgreement, invalid_geometry, incompatible_video_codec, validate_offer,
}
use hbb_common.Session.Negotiate.{find_color, find_audio, find_video, negotiate_session}
use hbb_common.Common.{ℕ, ◌≡◌, ◌↔◌, refl, List, [], ◌∷◌, true, false, ok, err}
use hbb_common.Session.Agreement.{
  validate_agreement_fields, exceeds_capabilities, validate_agreement_for_offer,
}
use hbb_common.Session.Check.{IsAgreement, Inside, validate_agreement_for_offer_iff}
use hbb_common.Session.Accepted.{validate_agreement_for_offer-negotiate_session}
use hbb_common.Session.Limits.{Within, negotiate_session-Within}

abbrev offer_of : List VideoCodec → ℕ → ℕ → SessionOffer
offer_of codecs capabilities width = record {
  minimum_protocol_version = 1;
  maximum_protocol_version = 2;
  capabilities = capabilities;
  latency_mode = LatencyMode.balanced;
  video_codecs = codecs;
  audio_codecs = AudioCodec.opus ∷ [];
  color_formats = 9;
  max_width = width;
  max_height = 1080;
  max_fps = 60;
  max_datagram_payload = 1200;
  max_video_bitrate_kbps = 50_000;
  max_file_bitrate_kbps = 10_000;
}

abbrev server : SessionOffer
server = offer_of (VideoCodec.h265 ∷ VideoCodec.h264 ∷ []) 255 3840

abbrev client : SessionOffer
client = offer_of (VideoCodec.h264 ∷ []) 3 1920

abbrev agreement : SessionAgreement
agreement = record {
  protocol_version = 2;
  video_codec = VideoCodec.h264;
  audio_codec = AudioCodec.opus;
  color_format = ColorFormat.p010;
  hdr = true;
  max_width = 1920;
  max_height = 1080;
  max_fps = 60;
  max_datagram_payload = 1200;
  max_video_bitrate_kbps = 50_000;
  max_file_bitrate_kbps = 10_000;
  latency_mode = LatencyMode.balanced;
  local_may_send_clipboard = false;
  remote_may_send_clipboard = true;
  file_transfer_enabled = false;
  local_may_send_input = false;
  remote_may_send_input = false;
  reliable_keyframes = false;
  reliable_keyframe_barrier = false;
}

negotiate_both : negotiate_session server client ≡ ok agreement
unfolding negotiate_session validate_offer contains_duplicates video_code find_video find_audio
    audio_code find_color color_mask latency_code
negotiate_both = refl

no_codec :
    negotiate_session server (offer_of (VideoCodec.av1 ∷ []) 3 1920) ≡ err incompatible_video_codec
unfolding negotiate_session validate_offer contains_duplicates video_code find_video
no_codec = refl

too_small : validate_offer (offer_of (VideoCodec.h264 ∷ []) 3 100) ≡ err invalid_geometry
unfolding validate_offer contains_duplicates
too_small = refl

negotiate_session-Within_example :
    (validate_offer server ≡ ok tt)
    × (validate_offer client ≡ ok tt)
    × Within server agreement
    × Within client agreement
negotiate_session-Within_example = negotiate_session-Within server client agreement negotiate_both

agreement_passes : validate_agreement_for_offer agreement server ≡ ok tt
unfolding validate_agreement_for_offer validate_offer contains_duplicates video_code
    validate_agreement_fields color_mask audio_code exceeds_capabilities
agreement_passes = refl

validate_agreement_for_offer_iff_example :
    (validate_agreement_for_offer agreement server ≡ ok tt)
    ↔ ((validate_offer server ≡ ok tt) × IsAgreement agreement × Inside server agreement)
validate_agreement_for_offer_iff_example = validate_agreement_for_offer_iff agreement server

validate_agreement_for_offer-negotiate_session_example :
    validate_agreement_for_offer agreement server ≡ ok tt
validate_agreement_for_offer-negotiate_session_example =
    validate_agreement_for_offer-negotiate_session server client agreement negotiate_both
