-- ===== src/Session/Accepted.antt =====
-- src/transport/session.rs: what `negotiate_session` gives passes the check against the local offer.
use hbb_common.Common.{
  ℕ, ◌^◌, ◌<◌, ◌≤◌, ◌≡◌, refl, subst, min, max, bit_and, arith, Bool, true, false, ◌&&◌, Option,
  none, some, ltb, Outcome, ok, err, panic, ◌>>=◌, ◌>>◌, reject_if, ok_or, ok-injective,
}
use hbb_common.Video.Types.{VideoCodec}
use hbb_common.Audio.Types.{AudioCodec}
use hbb_common.Session.Types.{
  ColorFormat, color_mask, SessionOffer, SessionAgreement, SessionNegotiationError, has,
  validate_offer, incompatible_protocol, incompatible_video_codec, incompatible_audio_codec,
  incompatible_color_format, cap_hdr,
}
use hbb_common.Session.Negotiate.{
  find_video, find_audio, find_color, both_have, agree, negotiate_session,
}
use hbb_common.Session.Agreement.{validate_agreement_for_offer}
use hbb_common.Session.Capabilities.{Bit, has_iff, Bit-bit_and, bit_and-Bit, Capable}
use hbb_common.Session.Check.{
  IsAgreement, color_bit, has-color_mask_iff, color_mask-p010, contains_code→Listed,
  validate_agreement_for_offer_iff,
}
use hbb_common.Session.Limits.{negotiate_session-Within}

-- What the check of an offer says of its limits.
record IsOffer (o : SessionOffer) : Type 0 where
  version_some : 0 < o.minimum_protocol_version
  version_range : o.minimum_protocol_version ≤ o.maximum_protocol_version
  width_low : 320 ≤ o.max_width
  width_high : o.max_width ≤ 16_384
  height_low : 200 ≤ o.max_height
  height_high : o.max_height ≤ 16_384
  fps_low : 1 ≤ o.max_fps
  fps_high : o.max_fps ≤ 240
  datagram_low : 256 ≤ o.max_datagram_payload
  datagram_high : o.max_datagram_payload ≤ 65_000
  video_bitrate_some : 0 < o.max_video_bitrate_kbps
  video_bitrate_high : o.max_video_bitrate_kbps ≤ 1_000_000
  file_bitrate_some : Bit 3 o.capabilities → 0 < o.max_file_bitrate_kbps
  barrier_keyframes : Bit 7 o.capabilities → Bit 6 o.capabilities

validate_offer-IsOffer : (o : SessionOffer) → validate_offer o ≡ ok tt → IsOffer o
unfolding validate_offer
validate_offer-IsOffer o h = record {
  version_some = ground arith;
  version_range = ground arith;
  width_low = ground arith;
  width_high = ground arith;
  height_low = ground arith;
  height_high = ground arith;
  fps_low = ground arith;
  fps_high = ground arith;
  datagram_low = ground arith;
  datagram_high = ground arith;
  video_bitrate_some = ground arith;
  video_bitrate_high = ground arith;
  file_bitrate_some = λ b. let set = (has_iff 3 o.capabilities).1 b in ground arith;
  barrier_keyframes =
      λ b. let set = (has_iff 7 o.capabilities).1 b in (has_iff 6 o.capabilities).0 (ground arith);
}

find_color-has :
    (colors : ℕ) (hdr : Bool) (c : ColorFormat)
    → find_color colors hdr ≡ some c
    → has colors (color_mask c) ≡ true
unfolding find_color
find_color-has colors hdr c h = ground arith

first : (a b : Bool) → (a && b) ≡ true → a ≡ true
first true b h = refl
first false b h = cc

second : (a b : Bool) → (a && b) ≡ true → b ≡ true
second true b h = h
second false b h = cc

module _ (local remote : SessionOffer) where
  abbrev version : ℕ
  version = min local.maximum_protocol_version remote.maximum_protocol_version

  abbrev colors : ℕ
  colors = bit_and local.color_formats remote.color_formats

  -- The codecs and the color format of an agreement that was reached.
  record Agreed (a : SessionAgreement) : Type 0 where
    video_codec : VideoCodec
    audio_codec : AudioCodec
    color_format : ColorFormat
    common : has colors (color_mask color_format) ≡ true
    same : agree local remote version video_codec audio_codec color_format ≡ a

  negotiate_session-Agreed :
      (a : SessionAgreement) → negotiate_session local remote ≡ ok a → Agreed a
  unfolding negotiate_session
  negotiate_session-Agreed a h =
      by_steps (validate_offer local) (validate_offer remote)
        (ltb version (max local.minimum_protocol_version remote.minimum_protocol_version))
        (find_video local.video_codecs remote.video_codecs)
        (find_audio local.audio_codecs remote.audio_codecs)
        (find_color colors (both_have local remote cap_hdr)) refl h
    where
      by_steps :
          (l r : Outcome SessionNegotiationError (Unit {0})) (low : Bool) (v : Option VideoCodec)
          (u : Option AudioCodec) (c : Option ColorFormat)
          → find_color colors (both_have local remote cap_hdr) ≡ c
          → (do
            l
            r
            reject_if low incompatible_protocol
            video_codec ← ok_or v incompatible_video_codec
            audio_codec ← ok_or u incompatible_audio_codec
            color_format ← ok_or c incompatible_color_format
            ok (agree local remote version video_codec audio_codec color_format))
            ≡ ok a
          → Agreed a
      by_steps (ok x) (ok y) false (some v) (some u) (some c) e k = record {
        video_codec = v;
        audio_codec = u;
        color_format = c;
        common = find_color-has colors (both_have local remote cap_hdr) c e;
        same = ok-injective _ _ k;
      }
      by_steps (ok x) (ok y) false (some v) (some u) none e k = cc
      by_steps (ok x) (ok y) false (some v) none c e k = cc
      by_steps (ok x) (ok y) false none u c e k = cc
      by_steps (ok x) (ok y) true v u c e k = cc
      by_steps (ok x) (err y) low v u c e k = cc
      by_steps (ok x) panic low v u c e k = cc
      by_steps (err x) r low v u c e k = cc
      by_steps panic r low v u c e k = cc

  -- A capability that both sides have.
  both_have-Bit :
      (k : ℕ)
      → both_have local remote (2 ^ k) ≡ true
      → Bit k local.capabilities × Bit k remote.capabilities
  both_have-Bit k h =
      Bit-bit_and k local.capabilities remote.capabilities
        ((has_iff k (bit_and local.capabilities remote.capabilities)).0 h)

  module _ (v : VideoCodec) (u : AudioCodec) (c : ColorFormat) where
    agree-IsAgreement :
        IsOffer local → IsOffer remote → IsAgreement (agree local remote version v u c)
    unfolding agree
    agree-IsAgreement l r = record {
      version_some =
          omega (arith, l.version_some, l.version_range, r.version_some, r.version_range);
      width_low = omega (arith, l.width_low, r.width_low);
      width_high = omega (arith, l.width_high);
      height_low = omega (arith, l.height_low, r.height_low);
      height_high = omega (arith, l.height_high);
      fps_low = omega (arith, l.fps_low, r.fps_low);
      fps_high = omega (arith, l.fps_high);
      datagram_low = omega (arith, l.datagram_low, r.datagram_low);
      datagram_high = omega (arith, l.datagram_high);
      video_bitrate_some = omega (arith, l.video_bitrate_some, r.video_bitrate_some);
      video_bitrate_high = omega (arith, l.video_bitrate_high);
      file_bitrate_some = λ h.
          let (bl, br) = both_have-Bit 3 h in
          omega (arith, l.file_bitrate_some bl, r.file_bitrate_some br);
      hdr_format = λ h. color_mask-p010 c (second (both_have local remote cap_hdr) _ h);
      barrier_keyframes = λ h.
          let (bl, br) = both_have-Bit 7 h in
          (has_iff 6 (bit_and local.capabilities remote.capabilities)).1 (
            bit_and-Bit 6 local.capabilities remote.capabilities (l.barrier_keyframes bl)
              (r.barrier_keyframes br));
    }

    agree-Capable : Capable (agree local remote version v u c) local.capabilities
    unfolding agree
    agree-Capable = record {
      hdr = λ h. (both_have-Bit 0 (first (both_have local remote cap_hdr) _ h)).0;
      clipboard_send = λ h. (has_iff 1 local.capabilities).0 (first _ _ h);
      clipboard_receive = λ h. (has_iff 2 local.capabilities).0 (second _ _ h);
      file_transfer = λ h. (both_have-Bit 3 h).0;
      input_send = λ h. (has_iff 4 local.capabilities).0 (first _ _ h);
      input_receive = λ h. (has_iff 5 local.capabilities).0 (second _ _ h);
      keyframes = λ h. (both_have-Bit 6 h).0;
      barrier = λ h. (both_have-Bit 7 h).0;
    }

    agree-color :
        has colors (color_mask c) ≡ true
        → Bit (color_bit (agree local remote version v u c).color_format) local.color_formats
    unfolding agree
    agree-color h =
        (Bit-bit_and (color_bit c) local.color_formats remote.color_formats
          ((has-color_mask_iff c colors).0 h)).0

  -- What `negotiate_session` agrees on passes the check that the receiver of the agreement makes of it
  -- against its own offer.
  pub validate_agreement_for_offer-negotiate_session :
      (a : SessionAgreement)
      → negotiate_session local remote ≡ ok a
      → validate_agreement_for_offer a local ≡ ok tt
  validate_agreement_for_offer-negotiate_session a h =
      let (l, r, within, _) = negotiate_session-Within local remote a h in
      let agreed = negotiate_session-Agreed a h in
      let v = agreed.video_codec in
      let u = agreed.audio_codec in
      let c = agreed.color_format in
      (validate_agreement_for_offer_iff a local).1 (
        l,
        subst (λ (s : SessionAgreement). IsAgreement s) agreed.same
            (agree-IsAgreement v u c (validate_offer-IsOffer local l)
              (validate_offer-IsOffer remote r)),
        record {
          version_low = within.version_low;
          version_high = within.version_high;
          video_listed = contains_code→Listed _ _ within.video_offered;
          audio_listed = contains_code→Listed _ _ within.audio_offered;
          color =
              subst (λ (s : SessionAgreement). Bit (color_bit s.color_format) local.color_formats)
                agreed.same (agree-color v u c agreed.common);
          width = within.width;
          height = within.height;
          fps = within.fps;
          datagram = within.datagram;
          video_bitrate = within.video_bitrate;
          file_bitrate = within.file_bitrate;
          capable =
              subst (λ (s : SessionAgreement). Capable s local.capabilities) agreed.same
                (agree-Capable v u c);
        },
      )
