-- ===== src/Session/Limits.antt =====
-- What is agreed is within what both sides have offered.
use hbb_common.Common.{
  ℕ, ◌≤◌, ◌≡◌, refl, min, max, bit_and, arith, Bool, true, false, Option, none, some, List, [], ◌∷◌,
  map, ltb, Outcome, ok, err, panic, ◌>>=◌, ◌>>◌, reject_if, ok_or, ok-injective, subst, not_ltb→le,
}
use hbb_common.Video.Types.{VideoCodec, video_code}
use hbb_common.Audio.Types.{AudioCodec, audio_code}
use hbb_common.Session.Types.{
  ColorFormat, SessionOffer, SessionAgreement, SessionNegotiationError, incompatible_protocol,
  incompatible_video_codec, incompatible_audio_codec, incompatible_color_format, contains_code,
  validate_offer, cap_hdr,
}
use hbb_common.Session.Negotiate.{
  find_video, find_audio, find_color, both_have, agree, negotiate_session,
}

-- An agreement within one side's offer: the protocol version in its range, each limit at most its
-- own, and the codecs among those that it lists.
pub record Within (offer : SessionOffer) (a : SessionAgreement) : Type 0 where
  pub version_low : offer.minimum_protocol_version ≤ a.protocol_version
  pub version_high : a.protocol_version ≤ offer.maximum_protocol_version
  pub width : a.max_width ≤ offer.max_width
  pub height : a.max_height ≤ offer.max_height
  pub fps : a.max_fps ≤ offer.max_fps
  pub datagram : a.max_datagram_payload ≤ offer.max_datagram_payload
  pub video_bitrate : a.max_video_bitrate_kbps ≤ offer.max_video_bitrate_kbps
  pub file_bitrate : a.max_file_bitrate_kbps ≤ offer.max_file_bitrate_kbps
  pub video_offered :
      contains_code (video_code a.video_codec) (map video_code offer.video_codecs) ≡ true
  pub audio_offered :
      contains_code (audio_code a.audio_codec) (map audio_code offer.audio_codecs) ≡ true

find_video-common :
    (local remote : List VideoCodec) (codec : VideoCodec)
    → find_video local remote ≡ some codec
    → (contains_code (video_code codec) (map video_code local) ≡ true)
      × (contains_code (video_code codec) (map video_code remote) ≡ true)
unfolding find_video contains_code
find_video-common [] remote codec h = cc
find_video-common (c ∷ cs) remote codec h = ground (arith, find_video-common cs remote codec)

find_audio-common :
    (local remote : List AudioCodec) (codec : AudioCodec)
    → find_audio local remote ≡ some codec
    → (contains_code (audio_code codec) (map audio_code local) ≡ true)
      × (contains_code (audio_code codec) (map audio_code remote) ≡ true)
unfolding find_audio contains_code
find_audio-common [] remote codec h = cc
find_audio-common (c ∷ cs) remote codec h = ground (arith, find_audio-common cs remote codec)

module _ (local remote : SessionOffer) where
  abbrev version : ℕ
  version = min local.maximum_protocol_version remote.maximum_protocol_version

  abbrev lowest : ℕ
  lowest = max local.minimum_protocol_version remote.minimum_protocol_version

  agree-Within :
      (v : VideoCodec) (u : AudioCodec) (c : ColorFormat)
      → lowest ≤ version
      → find_video local.video_codecs remote.video_codecs ≡ some v
      → find_audio local.audio_codecs remote.audio_codecs ≡ some u
      → Within local (agree local remote version v u c)
        × Within remote (agree local remote version v u c)
  unfolding agree
  agree-Within v u c low e f =
      let (video_local, video_remote) =
        find_video-common local.video_codecs remote.video_codecs v e in
      let (audio_local, audio_remote) =
        find_audio-common local.audio_codecs remote.audio_codecs u f in
      (
        record {
          version_low = omega arith;
          version_high = omega arith;
          width = omega arith;
          height = omega arith;
          fps = omega arith;
          datagram = omega arith;
          video_bitrate = omega arith;
          file_bitrate = omega arith;
          video_offered = video_local;
          audio_offered = audio_local;
        },
        record {
          version_low = omega arith;
          version_high = omega arith;
          width = omega arith;
          height = omega arith;
          fps = omega arith;
          datagram = omega arith;
          video_bitrate = omega arith;
          file_bitrate = omega arith;
          video_offered = video_remote;
          audio_offered = audio_remote;
        },
      )

-- What is negotiated is within both offers: when `negotiate_session` gives an agreement, both offers pass
-- their checks, and for either side the protocol version is in its range, every limit is at most its own,
-- and the video and the audio codec are among those that it lists.
pub negotiate_session-Within :
    (local remote : SessionOffer) (a : SessionAgreement)
    → negotiate_session local remote ≡ ok a
    → (validate_offer local ≡ ok tt)
      × (validate_offer remote ≡ ok tt)
      × Within local a
      × Within remote a
unfolding negotiate_session
negotiate_session-Within local remote a h =
    by_steps (validate_offer local) (validate_offer remote)
      (ltb (version local remote) (lowest local remote))
      (find_video local.video_codecs remote.video_codecs)
      (find_audio local.audio_codecs remote.audio_codecs)
      (find_color (bit_and local.color_formats remote.color_formats)
        (both_have local remote cap_hdr))
      refl refl refl refl refl h
  where
    by_steps :
        (l r : Outcome SessionNegotiationError (Unit {0})) (low : Bool) (v : Option VideoCodec)
        (u : Option AudioCodec) (c : Option ColorFormat)
        → validate_offer local ≡ l
        → validate_offer remote ≡ r
        → ltb (version local remote) (lowest local remote) ≡ low
        → find_video local.video_codecs remote.video_codecs ≡ v
        → find_audio local.audio_codecs remote.audio_codecs ≡ u
        → (do
          l
          r
          reject_if low incompatible_protocol
          video_codec ← ok_or v incompatible_video_codec
          audio_codec ← ok_or u incompatible_audio_codec
          color_format ← ok_or c incompatible_color_format
          ok (agree local remote (version local remote) video_codec audio_codec color_format))
          ≡ ok a
        → (validate_offer local ≡ ok tt)
          × (validate_offer remote ≡ ok tt)
          × Within local a
          × Within remote a
    by_steps (ok x) (ok y) false (some v) (some u) (some c) e f g i j k =
        let within = agree-Within local remote v u c (not_ltb→le _ _ g) i j in
        let same = ok-injective _ _ k in
        (
          e,
          f,
          subst (λ (s : SessionAgreement). Within local s) same within.0,
          subst (λ (s : SessionAgreement). Within remote s) same within.1,
        )
    by_steps (ok x) (ok y) false (some v) (some u) none e f g i j k = cc
    by_steps (ok x) (ok y) false (some v) none c e f g i j k = cc
    by_steps (ok x) (ok y) false none u c e f g i j k = cc
    by_steps (ok x) (ok y) true v u c e f g i j k = cc
    by_steps (ok x) (err y) low v u c e f g i j k = cc
    by_steps (ok x) panic low v u c e f g i j k = cc
    by_steps (err x) r low v u c e f g i j k = cc
    by_steps panic r low v u c e f g i j k = cc
