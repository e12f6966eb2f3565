-- ===== src/Session/Check.antt =====
-- src/transport/session.rs: which agreements pass the checks against an offer.
use hbb_common.Common.{
  ℕ, zero, suc, ◌<◌, ◌≤◌, ◌≡◌, ◌↔◌, refl, ap, arith, Bool, true, false, not, ◌&&◌, some, List, [],
  ◌∷◌, map, get_elem?, ◌==◌, Outcome, ok, err, panic, ◌>>◌, reject_if, Bool-cases, inl, inr,
}
use hbb_common.Video.Types.{video_code}
use hbb_common.Audio.Types.{audio_code}
use hbb_common.Session.Types.{
  ColorFormat, color_mask, SessionOffer, SessionAgreement, SessionNegotiationError,
  invalid_agreement, contains_code, has, validate_offer,
}
use hbb_common.Session.Agreement.{
  validate_agreement_fields, exceeds_offer, validate_agreement_for_offer,
}
use hbb_common.Session.Capabilities.{Bit, has_iff, Capable, exceeds_capabilities_iff}

-- The values that the fields of an agreement may have.
pub record IsAgreement (a : SessionAgreement) : Type 0 where
  pub version_some : 0 < a.protocol_version
  pub width_low : 320 ≤ a.max_width
  pub width_high : a.max_width ≤ 16_384
  pub height_low : 200 ≤ a.max_height
  pub height_high : a.max_height ≤ 16_384
  pub fps_low : 1 ≤ a.max_fps
  pub fps_high : a.max_fps ≤ 240
  pub datagram_low : 256 ≤ a.max_datagram_payload
  pub datagram_high : a.max_datagram_payload ≤ 65_000
  pub video_bitrate_some : 0 < a.max_video_bitrate_kbps
  pub video_bitrate_high : a.max_video_bitrate_kbps ≤ 1_000_000
  pub file_bitrate_some : a.file_transfer_enabled ≡ true → 0 < a.max_file_bitrate_kbps
  pub hdr_format : a.hdr ≡ true → a.color_format ≡ ColorFormat.p010
  pub barrier_keyframes : a.reliable_keyframe_barrier ≡ true → a.reliable_keyframes ≡ true

abbrev pub color_bit : ColorFormat → ℕ
color_bit ColorFormat.i420 = 0
color_bit ColorFormat.i444 = 1
color_bit ColorFormat.nv12 = 2
color_bit ColorFormat.p010 = 3

abbrev pub Listed : ℕ → List ℕ → Type 0
Listed code codes = (i : ℕ) × (get_elem? codes i ≡ some code)

-- An agreement that asks for no more than an offer has.
pub record Inside (o : SessionOffer) (a : SessionAgreement) : Type 0 where
  pub version_low : o.minimum_protocol_version ≤ a.protocol_version
  pub version_high : a.protocol_version ≤ o.maximum_protocol_version
  pub video_listed : Listed (video_code a.video_codec) (map video_code o.video_codecs)
  pub audio_listed : Listed (audio_code a.audio_codec) (map audio_code o.audio_codecs)
  pub color : Bit (color_bit a.color_format) o.color_formats
  pub width : a.max_width ≤ o.max_width
  pub height : a.max_height ≤ o.max_height
  pub fps : a.max_fps ≤ o.max_fps
  pub datagram : a.max_datagram_payload ≤ o.max_datagram_payload
  pub video_bitrate : a.max_video_bitrate_kbps ≤ o.max_video_bitrate_kbps
  pub file_bitrate : a.max_file_bitrate_kbps ≤ o.max_file_bitrate_kbps
  pub capable : Capable a o.capabilities

pub contains_code→Listed : (v : ℕ) (xs : List ℕ) → contains_code v xs ≡ true → Listed v xs
unfolding contains_code
contains_code→Listed v [] h = cc
contains_code→Listed v (x ∷ xs) h = elim (Bool-cases (v == x)) [
  | inl e ↦ let same : x ≡ v = ground arith in (zero, ap some same)
  | inr e ↦ let (i, at) = contains_code→Listed v xs (ground arith) in (suc i, at)
]

get_elem?→contains_code :
    (v i : ℕ) (xs : List ℕ) → get_elem? xs i ≡ some v → contains_code v xs ≡ true
unfolding contains_code
get_elem?→contains_code v i [] h = cc
get_elem?→contains_code v zero (x ∷ xs) h = let same : x ≡ v = cc in ground arith
get_elem?→contains_code v (suc i) (x ∷ xs) h =
    let later = get_elem?→contains_code v i xs h in ground arith

pub has-color_mask_iff :
    (c : ColorFormat) (mask : ℕ) → (has mask (color_mask c) ≡ true) ↔ Bit (color_bit c) mask
unfolding color_mask
has-color_mask_iff ColorFormat.i420 mask = has_iff 0 mask
has-color_mask_iff ColorFormat.i444 mask = has_iff 1 mask
has-color_mask_iff ColorFormat.nv12 mask = has_iff 2 mask
has-color_mask_iff ColorFormat.p010 mask = has_iff 3 mask

pub color_mask-p010 :
    (c : ColorFormat) → (color_mask c == color_mask ColorFormat.p010) ≡ true → c ≡ ColorFormat.p010
unfolding color_mask
color_mask-p010 ColorFormat.i420 h = cc
color_mask-p010 ColorFormat.i444 h = cc
color_mask-p010 ColorFormat.nv12 h = cc
color_mask-p010 ColorFormat.p010 h = refl

p010-color_mask :
    (c : ColorFormat)
    → c ≡ ColorFormat.p010
    → not (color_mask c == color_mask ColorFormat.p010) ≡ false
unfolding color_mask
p010-color_mask c e = ap (λ (c : ColorFormat). not (color_mask c == 8)) e

and-false : (a b : Bool) → (a ≡ true → b ≡ false) → (a && b) ≡ false
and-false true b h = h refl
and-false false b h = refl

positive : (n : ℕ) → 0 < n → (n == 0) ≡ false
positive n h = ground arith

pub validate_agreement_fields_iff :
    (a : SessionAgreement) → (validate_agreement_fields a ≡ ok tt) ↔ IsAgreement a
unfolding validate_agreement_fields
validate_agreement_fields_iff a = (
  λ h. record {
    version_some = ground arith;
    width_low = ground arith;
    width_high = ground arith;
    height_low = ground arith;
    height_high = ground arith;
    fps_low = ground arith;
    fps_high = ground arith;
    datagram_low = ground arith;
    datagram_high = ground arith;
    video_bitrate_some = ground arith;
    video_bitrate_high = ground arith;
    file_bitrate_some = λ u. ground arith;
    hdr_format = λ u. color_mask-p010 a.color_format (ground arith);
    barrier_keyframes = λ u. ground arith;
  },
  λ v.
      let rate =
        and-false a.file_transfer_enabled (a.max_file_bitrate_kbps == 0)
          (λ u. positive a.max_file_bitrate_kbps (v.file_bitrate_some u)) in
      let format =
        and-false a.hdr (not (color_mask a.color_format == color_mask ColorFormat.p010))
          (λ u. p010-color_mask a.color_format (v.hdr_format u)) in
      let keyframes =
        and-false a.reliable_keyframe_barrier (not a.reliable_keyframes)
          (λ u. ap not (v.barrier_keyframes u)) in
      rw (rate, format, keyframes)
        (ground (
          arith, v.version_some, v.width_low, v.width_high, v.height_low, v.height_high, v.fps_low,
          v.fps_high, v.datagram_low, v.datagram_high, v.video_bitrate_some, v.video_bitrate_high,
        )),
)

exceeds_offer_iff :
    (a : SessionAgreement) (o : SessionOffer) → (exceeds_offer a o ≡ false) ↔ Inside o a
unfolding exceeds_offer
exceeds_offer_iff a o = (
  λ h. record {
    version_low = ground arith;
    version_high = ground arith;
    video_listed =
        contains_code→Listed (video_code a.video_codec) (map video_code o.video_codecs)
          (ground arith);
    audio_listed =
        contains_code→Listed (audio_code a.audio_codec) (map audio_code o.audio_codecs)
          (ground arith);
    color = (has-color_mask_iff a.color_format o.color_formats).0 (ground arith);
    width = ground arith;
    height = ground arith;
    fps = ground arith;
    datagram = ground arith;
    video_bitrate = ground arith;
    file_bitrate = ground arith;
    capable = (exceeds_capabilities_iff a o).0 (ground arith);
  },
  λ v.
      rw
        (
          get_elem?→contains_code (video_code a.video_codec) v.video_listed.0
              (map video_code o.video_codecs) v.video_listed.1,
          get_elem?→contains_code (audio_code a.audio_codec) v.audio_listed.0
              (map audio_code o.audio_codecs) v.audio_listed.1,
          (has-color_mask_iff a.color_format o.color_formats).1 v.color,
          (exceeds_capabilities_iff a o).1 v.capable,
        )
        (ground (
          arith, v.version_low, v.version_high, v.width, v.height, v.fps, v.datagram,
          v.video_bitrate, v.file_bitrate,
        )),
)

-- `Ok` from a chain of three checks.
three_checks :
    (l f : Outcome SessionNegotiationError (Unit {0})) (b : Bool)
    → ((l >> (f >> reject_if b invalid_agreement)) ≡ ok tt)
      ↔ ((l ≡ ok tt) × (f ≡ ok tt) × (b ≡ false))
three_checks (ok l) (ok f) true = (λ h. cc, λ h. cc)
three_checks (ok l) (ok f) false = (λ h. (refl, refl, refl), λ h. refl)
three_checks (ok l) (err e) b = (λ h. cc, λ h. cc)
three_checks (ok l) panic b = (λ h. cc, λ h. cc)
three_checks (err e) f b = (λ h. cc, λ h. cc)
three_checks panic f b = (λ h. cc, λ h. cc)

-- An agreement passes the check against the local offer exactly when the offer passes its own check, the
-- fields of the agreement have values that they may have, and the agreement asks for no more than
-- the offer has: the version is in its range, each limit is at most its own, the codecs are listed,
-- the bit of the color format is set in the offer's formats, and for each thing that the agreement
-- uses the offer's capabilities have its bit.
pub validate_agreement_for_offer_iff :
    (a : SessionAgreement) (local_offer : SessionOffer)
    → (validate_agreement_for_offer a local_offer ≡ ok tt)
      ↔ ((validate_offer local_offer ≡ ok tt) × IsAgreement a × Inside local_offer a)
unfolding validate_agreement_for_offer
validate_agreement_for_offer_iff a o =
    let checks =
      three_checks (validate_offer o) (validate_agreement_fields a) (exceeds_offer a o) in
    (
      λ h.
          let (l, f, b) = checks.0 h in
          (l, (validate_agreement_fields_iff a).0 f, (exceeds_offer_iff a o).0 b),
      λ h.
          let (l, f, b) = h in
          checks.1 (l, (validate_agreement_fields_iff a).1 f, (exceeds_offer_iff a o).1 b),
    )
