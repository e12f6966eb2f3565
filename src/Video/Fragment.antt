-- ===== src/Video/Fragment.antt =====
-- src/transport/video_datagram.rs: the payload of a fragment, and `fragment_video_frame`.
use hbb_common.Common.{
  ℕ, zero, suc, ◌+◌, ◌-◌, ◌/◌, ◌^◌, not, ◌||◌, if◌then◌else◌, List, [], ◌∷◌, ◌++◌, length, take,
  drop, ltb, leb, ◌==◌, Outcome, ok, ◌>>=◌, ◌>>◌, reject_if, map_err,
}
use hbb_common.Common.Bytes.{to_be_bytes, read, index, read_tail}
use hbb_common.Protocol.Types.{MessageType}
use hbb_common.Protocol.Message.{header_len, new_message}
use hbb_common.Video.Types.{
  VideoFrameMetadata, VideoDatagramError, FragmentHeader, protocol, header_truncated,
  reserved_field, invalid_fragment_index, invalid_fragment_count, invalid_frame_size,
  empty_fragment, datagram_too_small, sequence_overflow, video_code, video_of_code,
  validate_frame_metadata, video_fragment_header_len, max_video_frame_bytes, max_video_fragments,
}

unfoldable pub fragment_bytes : FragmentHeader → List ℕ → List ℕ
fragment_bytes h fragment =
    to_be_bytes 8 h.metadata.frame_id
    ++ (to_be_bytes 2 h.fragment_index
        ++ (to_be_bytes 2 h.fragment_count
            ++ (video_code h.metadata.codec
                ∷ h.metadata.flags
                ∷ (to_be_bytes 2 0
                    ++ (to_be_bytes 8 h.metadata.presentation_timestamp_us
                        ++ (to_be_bytes 4 h.frame_size ++ fragment))))))

unfoldable pub encode_fragment_payload :
    FragmentHeader → List ℕ → Outcome VideoDatagramError (List ℕ)
encode_fragment_payload h fragment = do
  reject_if (length fragment == 0) empty_fragment
  reject_if (leb (2 ^ 16) h.fragment_index)
      (invalid_fragment_index h.fragment_index h.fragment_count)
  reject_if (leb (2 ^ 16) h.fragment_count) (invalid_fragment_count h.fragment_count)
  reject_if (leb (2 ^ 32) h.frame_size) (invalid_frame_size h.frame_size)
  ok (fragment_bytes h fragment)

unfoldable pub decode_fragment_payload :
    List ℕ → Outcome VideoDatagramError (FragmentHeader × List ℕ)
decode_fragment_payload payload = do
  reject_if (leb (length payload) video_fragment_header_len)
      (if ltb (length payload) video_fragment_header_len then header_truncated else empty_fragment)
  reserved ← read 2 14 payload
  reject_if (not (reserved == 0)) reserved_field
  frame_id ← read 8 0 payload
  code ← index 12 payload
  codec ← video_of_code code
  flags ← index 13 payload
  presentation_timestamp_us ← read 8 16 payload
  fragment_index ← read 2 8 payload
  fragment_count ← read 2 10 payload
  frame_size ← read 4 24 payload
  fragment ← read_tail video_fragment_header_len payload
  let metadata : VideoFrameMetadata = record {
    frame_id = frame_id;
    codec = codec;
    flags = flags;
    presentation_timestamp_us = presentation_timestamp_us;
  }
  ok (
    record {
      metadata = metadata;
      fragment_index = fragment_index;
      fragment_count = fragment_count;
      frame_size = frame_size;
    },
    fragment,
  )

-- `chunks(size)`, on fuel of the length.
unfoldable pub chunks_from : ℕ → ℕ → List ℕ → List (List ℕ)
chunks_from zero size bytes = []
chunks_from (suc fuel) size [] = []
chunks_from (suc fuel) size (b ∷ bytes) =
    take size (b ∷ bytes) ∷ chunks_from fuel size (drop size (b ∷ bytes))

abbrev pub chunks : ℕ → List ℕ → List (List ℕ)
chunks size bytes = chunks_from (length bytes) size bytes

-- `len.div_ceil(size)`.
abbrev pub div_ceil : ℕ → ℕ → ℕ
div_ceil len size = (len + size - 1) / size

-- The loop of `fragment_video_frame` from a fragment index on.
unfoldable pub encode_fragments :
    List ℕ
    → ℕ
    → ℕ
    → VideoFrameMetadata
    → ℕ
    → ℕ
    → ℕ
    → List (List ℕ)
    → Outcome VideoDatagramError (List (List ℕ))
encode_fragments id first time metadata count frame_size fragment_index [] = ok []
encode_fragments id first time metadata count frame_size fragment_index (fragment ∷ rest) = do
  payload ←
      encode_fragment_payload
        (record {
          metadata = metadata;
          fragment_index = fragment_index;
          fragment_count = count;
          frame_size = frame_size;
        })
        fragment
  datagram ←
      map_err protocol
        (new_message MessageType.video_fragment 0 id (first + fragment_index) time payload)
  datagrams ← encode_fragments id first time metadata count frame_size (fragment_index + 1) rest
  ok (datagram ∷ datagrams)

unfoldable pub fragment_video_frame :
    List ℕ → ℕ → ℕ → VideoFrameMetadata → List ℕ → ℕ → Outcome VideoDatagramError (List (List ℕ))
unfolding encode_fragments
fragment_video_frame id first time metadata encoded_frame max_datagram_size = do
  validate_frame_metadata metadata
  reject_if (length encoded_frame == 0 || ltb max_video_frame_bytes (length encoded_frame))
      (invalid_frame_size (length encoded_frame))
  let overhead = header_len + video_fragment_header_len
  reject_if (leb max_datagram_size overhead) (datagram_too_small max_datagram_size)
  let fragment_payload_size = max_datagram_size - overhead
  let fragment_count = div_ceil (length encoded_frame) fragment_payload_size
  reject_if (fragment_count == 0 || ltb max_video_fragments fragment_count)
      (invalid_fragment_count fragment_count)
  reject_if (leb (2 ^ 64) (first + (fragment_count - 1))) sequence_overflow
  encode_fragments id first time metadata fragment_count (length encoded_frame) 0
      (chunks fragment_payload_size encoded_frame)
