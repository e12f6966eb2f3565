-- ===== src/Session/Agreement.antt =====
-- src/transport/session.rs: the checks of an agreement that a peer has sent.
use hbb_common.Common.{Bool, not, ◌&&◌, ◌||◌, map, ltb, ◌==◌, Outcome, ◌>>◌, reject_if}
use hbb_common.Video.Types.{video_code}
use hbb_common.Audio.Types.{audio_code}
use hbb_common.Session.Types.{
  ColorFormat, color_mask, SessionOffer, SessionAgreement, SessionNegotiationError,
  invalid_agreement, contains_code, has, in_range, validate_offer, cap_hdr, cap_clipboard_send,
  cap_clipboard_receive, cap_file_transfer, cap_input_send, cap_input_receive,
  cap_reliable_keyframes, cap_reliable_keyframe_barrier,
}

unfoldable pub validate_agreement_fields :
    SessionAgreement → Outcome SessionNegotiationError (Unit {0})
validate_agreement_fields a =
    reject_if
      (a.protocol_version == 0
        || (not (in_range 320 16_384 a.max_width)
            || (not (in_range 200 16_384 a.max_height)
                || (not (in_range 1 240 a.max_fps)
                    || (not (in_range 256 65_000 a.max_datagram_payload)
                        || (a.max_video_bitrate_kbps == 0
                            || (ltb 1_000_000 a.max_video_bitrate_kbps
                                || ((a.file_transfer_enabled && a.max_file_bitrate_kbps == 0)
                                    || ((a.hdr
                                          && not (
                                              color_mask a.color_format
                                              == color_mask ColorFormat.p010))
                                        || (a.reliable_keyframe_barrier
                                            && not a.reliable_keyframes))))))))))
      invalid_agreement

-- The capabilities that an agreement uses and the offer does not have.
unfoldable pub exceeds_capabilities : SessionAgreement → SessionOffer → Bool
exceeds_capabilities a local_offer =
    (a.hdr && not (has local_offer.capabilities cap_hdr))
    || ((a.local_may_send_clipboard && not (has local_offer.capabilities cap_clipboard_send))
        || ((a.remote_may_send_clipboard
              && not (has local_offer.capabilities cap_clipboard_receive))
            || ((a.file_transfer_enabled && not (has local_offer.capabilities cap_file_transfer))
                || ((a.local_may_send_input && not (has local_offer.capabilities cap_input_send))
                    || ((a.remote_may_send_input
                          && not (has local_offer.capabilities cap_input_receive))
                        || ((a.reliable_keyframes
                              && not (has local_offer.capabilities cap_reliable_keyframes))
                            || (a.reliable_keyframe_barrier
                                && not (
                                    has local_offer.capabilities
                                      cap_reliable_keyframe_barrier))))))))

-- Whether an agreement asks for more than the offer has.
unfoldable pub exceeds_offer : SessionAgreement → SessionOffer → Bool
exceeds_offer a local_offer =
    not (
      in_range local_offer.minimum_protocol_version local_offer.maximum_protocol_version
        a.protocol_version)
    || (not (contains_code (video_code a.video_codec) (map video_code local_offer.video_codecs))
        || (not (contains_code (audio_code a.audio_codec) (map audio_code local_offer.audio_codecs))
            || (not (has local_offer.color_formats (color_mask a.color_format))
                || (ltb local_offer.max_width a.max_width
                    || (ltb local_offer.max_height a.max_height
                        || (ltb local_offer.max_fps a.max_fps
                            || (ltb local_offer.max_datagram_payload a.max_datagram_payload
                                || (ltb local_offer.max_video_bitrate_kbps a.max_video_bitrate_kbps
                                    || (ltb local_offer.max_file_bitrate_kbps
                                          a.max_file_bitrate_kbps
                                        || exceeds_capabilities a local_offer)))))))))

unfoldable pub validate_agreement_for_offer :
    SessionAgreement → SessionOffer → Outcome SessionNegotiationError (Unit {0})
unfolding exceeds_offer
validate_agreement_for_offer a local_offer = do
  validate_offer local_offer
  validate_agreement_fields a
  reject_if (exceeds_offer a local_offer) invalid_agreement
