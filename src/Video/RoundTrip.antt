-- ===== src/Video/RoundTrip.antt =====
-- A fragment that is encoded and decoded.
use hbb_common.Common.{
  ℕ, ◌+◌, ◌-◌, ◌^◌, ◌≤◌, ◌<◌, ◌≡◌, refl, ◌∙◌, arith, false, List, [], ◌∷◌, ◌++◌, length,
  length-append, ok, leb,
}
use hbb_common.Common.Bytes.{
  to_be_bytes, read, index, read_tail, read_tail_in_range, length-to_be_bytes,
}
use hbb_common.Common.Reading.{read_skip, read_cons, read_here, index_skip, tail_skip}
use hbb_common.Video.Types.{
  VideoDatagramError, VideoCodec, FragmentHeader, video_code, video_of_code,
}
use hbb_common.Video.Fragment.{fragment_bytes, decode_fragment_payload}

-- The fields are values of their Rust types.
pub record IsFragment (h : FragmentHeader) : Type 0 where
  pub frame_id_u64 : h.metadata.frame_id < 2 ^ 64
  pub timestamp_u64 : h.metadata.presentation_timestamp_us < 2 ^ 64
  pub index_u16 : h.fragment_index < 2 ^ 16
  pub count_u16 : h.fragment_count < 2 ^ 16
  pub size_u32 : h.frame_size < 2 ^ 32

video_of_code_of : (c : VideoCodec) → video_of_code (video_code c) ≡ ok c
unfolding video_of_code video_code
video_of_code_of VideoCodec.h264 = refl
video_of_code_of VideoCodec.h265 = refl
video_of_code_of VideoCodec.vp8 = refl
video_of_code_of VideoCodec.vp9 = refl
video_of_code_of VideoCodec.av1 = refl
video_of_code_of VideoCodec.raw = refl

module _ (h : FragmentHeader) (v : IsFragment h) (fragment : List ℕ) where
  length-fragment_bytes : length (fragment_bytes h fragment) ≡ 28 + length fragment
  unfolding fragment_bytes
  length-fragment_bytes = simp (length-append, length-to_be_bytes) (omega arith)

  abbrev tail : List ℕ
  tail =
      to_be_bytes 8 h.metadata.presentation_timestamp_us ++ (to_be_bytes 4 h.frame_size ++ fragment)

  abbrev reserved : List ℕ
  reserved = to_be_bytes 2 0 ++ tail

  -- The bytes from the codec on.
  abbrev codec_on : List ℕ
  codec_on = video_code h.metadata.codec ∷ h.metadata.flags ∷ reserved

  after_count :
      (k off : ℕ)
      → 12 ≤ off
      → read {E = VideoDatagramError} k off (fragment_bytes h fragment)
        ≡ read k (off - 8 - 2 - 2) codec_on
  unfolding fragment_bytes
  after_count k off l =
      read_skip 8 k off (to_be_bytes 8 h.metadata.frame_id) _
        (length-to_be_bytes 8 h.metadata.frame_id) (omega arith)
      ∙ read_skip 2 k (off - 8) (to_be_bytes 2 h.fragment_index) _
          (length-to_be_bytes 2 h.fragment_index) (omega arith)
      ∙ read_skip 2 k (off - 8 - 2) (to_be_bytes 2 h.fragment_count) codec_on
          (length-to_be_bytes 2 h.fragment_count) (omega arith)

  after_flags :
      (k off : ℕ)
      → 14 ≤ off
      → read {E = VideoDatagramError} k off (fragment_bytes h fragment)
        ≡ read k (off - 8 - 2 - 2 - 1 - 1) reserved
  after_flags k off l =
      after_count k off (omega arith)
      ∙ read_cons k (off - 8 - 2 - 2) (video_code h.metadata.codec) _ (omega arith)
      ∙ read_cons k (off - 8 - 2 - 2 - 1) h.metadata.flags _ (omega arith)

  reserved_read : read {E = VideoDatagramError} 2 14 (fragment_bytes h fragment) ≡ ok 0
  reserved_read = after_flags 2 14 (omega arith) ∙ read_here 2 0 tail (omega arith)

  time_read :
      read {E = VideoDatagramError} 8 16 (fragment_bytes h fragment)
      ≡ ok h.metadata.presentation_timestamp_us
  time_read =
      after_flags 8 16 (omega arith)
      ∙ read_skip 2 8 2 (to_be_bytes 2 0) tail (length-to_be_bytes 2 0) (omega arith)
      ∙ read_here 8 h.metadata.presentation_timestamp_us _ v.timestamp_u64

  size_read : read {E = VideoDatagramError} 4 24 (fragment_bytes h fragment) ≡ ok h.frame_size
  size_read =
      after_flags 4 24 (omega arith)
      ∙ read_skip 2 4 10 (to_be_bytes 2 0) tail (length-to_be_bytes 2 0) (omega arith)
      ∙ read_skip 8 4 8 (to_be_bytes 8 h.metadata.presentation_timestamp_us) _
          (length-to_be_bytes 8 h.metadata.presentation_timestamp_us) (omega arith)
      ∙ read_here 4 h.frame_size _ v.size_u32

  id_read : read {E = VideoDatagramError} 8 0 (fragment_bytes h fragment) ≡ ok h.metadata.frame_id
  unfolding fragment_bytes
  id_read = read_here 8 h.metadata.frame_id _ v.frame_id_u64

  index_read : read {E = VideoDatagramError} 2 8 (fragment_bytes h fragment) ≡ ok h.fragment_index
  unfolding fragment_bytes
  index_read =
      read_skip 8 2 8 (to_be_bytes 8 h.metadata.frame_id) _
        (length-to_be_bytes 8 h.metadata.frame_id) (omega arith)
      ∙ read_here 2 h.fragment_index _ v.index_u16

  count_read : read {E = VideoDatagramError} 2 10 (fragment_bytes h fragment) ≡ ok h.fragment_count
  unfolding fragment_bytes
  count_read =
      read_skip 8 2 10 (to_be_bytes 8 h.metadata.frame_id) _
        (length-to_be_bytes 8 h.metadata.frame_id) (omega arith)
      ∙ read_skip 2 2 2 (to_be_bytes 2 h.fragment_index) _ (length-to_be_bytes 2 h.fragment_index)
          (omega arith)
      ∙ read_here 2 h.fragment_count _ v.count_u16

  -- The bytes before the codec, skipped.
  at_codec :
      (off : ℕ)
      → 12 ≤ off
      → index {E = VideoDatagramError} off (fragment_bytes h fragment)
        ≡ index (off - 8 - 2 - 2) codec_on
  unfolding fragment_bytes
  at_codec off l =
      index_skip 8 off (to_be_bytes 8 h.metadata.frame_id) _
        (length-to_be_bytes 8 h.metadata.frame_id) (omega arith)
      ∙ index_skip 2 (off - 8) (to_be_bytes 2 h.fragment_index) _
          (length-to_be_bytes 2 h.fragment_index) (omega arith)
      ∙ index_skip 2 (off - 8 - 2) (to_be_bytes 2 h.fragment_count) codec_on
          (length-to_be_bytes 2 h.fragment_count) (omega arith)

  codec_read :
      index {E = VideoDatagramError} 12 (fragment_bytes h fragment)
      ≡ ok (video_code h.metadata.codec)
  unfolding index
  codec_read = at_codec 12 (omega arith)

  flags_read : index {E = VideoDatagramError} 13 (fragment_bytes h fragment) ≡ ok h.metadata.flags
  unfolding index
  flags_read = at_codec 13 (omega arith)

  fragment_read : read_tail {E = VideoDatagramError} 28 (fragment_bytes h fragment) ≡ ok fragment
  unfolding fragment_bytes
  fragment_read =
      tail_skip 8 28 (to_be_bytes 8 h.metadata.frame_id) _
        (length-to_be_bytes 8 h.metadata.frame_id) (omega arith)
      ∙ tail_skip 2 20 (to_be_bytes 2 h.fragment_index) _ (length-to_be_bytes 2 h.fragment_index)
          (omega arith)
      ∙ tail_skip 2 18 (to_be_bytes 2 h.fragment_count) codec_on
          (length-to_be_bytes 2 h.fragment_count) (omega arith)
      ∙ tail_skip 2 16 (video_code h.metadata.codec ∷ h.metadata.flags ∷ []) reserved refl
          (omega arith)
      ∙ tail_skip 2 14 (to_be_bytes 2 0) tail (length-to_be_bytes 2 0) (omega arith)
      ∙ tail_skip 8 12 (to_be_bytes 8 h.metadata.presentation_timestamp_us) _
          (length-to_be_bytes 8 h.metadata.presentation_timestamp_us) (omega arith)
      ∙ tail_skip 4 4 (to_be_bytes 4 h.frame_size) fragment (length-to_be_bytes 4 h.frame_size)
          (omega arith)
      ∙ read_tail_in_range 0 fragment (omega arith)

  -- A fragment that is not empty, and whose fields are values of their types, is decoded from the
  -- bytes that it is encoded to.
  pub decode_fragment_payload-fragment_bytes :
      0 < length fragment → decode_fragment_payload (fragment_bytes h fragment) ≡ ok (h, fragment)
  unfolding decode_fragment_payload
  decode_fragment_payload-fragment_bytes n =
      rw
        (
          long,
          reserved_read,
          id_read,
          codec_read,
          video_of_code_of h.metadata.codec,
          flags_read,
          time_read,
          index_read,
          count_read,
          size_read,
          fragment_read,
        )
        refl
    where
      long : leb (length (fragment_bytes h fragment)) 28 ≡ false
      long = rw length-fragment_bytes (ground arith)
