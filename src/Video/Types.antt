-- ===== src/Video/Types.antt =====
-- src/transport/video_datagram.rs: the data of video frames and of the reassembler.
-- An `Instant` and a `Duration` are their numbers of nanoseconds.
use hbb_common.Common.{
  ℕ, ◌*◌, ◌-◌, ◌^◌, ◌/◌, min, bit_and, ◌&&◌, not, Bool, true, false, List, ◌==◌, if◌then◌else◌,
  Option, Outcome, ok, err, ◌>>◌, reject_if,
}
use hbb_common.Protocol.Types.{ProtocolError}

abbrev pub video_fragment_header_len : ℕ
video_fragment_header_len = 28

abbrev pub flag_keyframe : ℕ
flag_keyframe = 1

abbrev pub known_frame_flags : ℕ
known_frame_flags = 3

abbrev pub max_video_frame_bytes : ℕ
max_video_frame_bytes = 32 * 1024 * 1024

abbrev pub max_video_fragments : ℕ
max_video_fragments = 32 * 1024

pub data VideoCodec : Type 0 where
  h264 : VideoCodec
  h265 : VideoCodec
  vp8 : VideoCodec
  vp9 : VideoCodec
  av1 : VideoCodec
  raw : VideoCodec

pub data VideoDatagramError : Type 0 where
  protocol : ProtocolError → VideoDatagramError
  zero_frame_id : VideoDatagramError
  unknown_codec : ℕ → VideoDatagramError
  unknown_flags : ℕ → VideoDatagramError
  header_truncated : VideoDatagramError
  reserved_field : VideoDatagramError
  invalid_fragment_index : ℕ → ℕ → VideoDatagramError
  invalid_fragment_count : ℕ → VideoDatagramError
  invalid_frame_size : ℕ → VideoDatagramError
  empty_fragment : VideoDatagramError
  datagram_too_small : ℕ → VideoDatagramError
  sequence_overflow : VideoDatagramError
  inconsistent_metadata : VideoDatagramError
  conflicting_duplicate : VideoDatagramError
  memory_limit : VideoDatagramError

-- `codec as u8`, and back.
unfoldable pub video_code : VideoCodec → ℕ
video_code VideoCodec.h264 = 1
video_code VideoCodec.h265 = 2
video_code VideoCodec.vp8 = 3
video_code VideoCodec.vp9 = 4
video_code VideoCodec.av1 = 5
video_code VideoCodec.raw = 6

unfoldable pub video_of_code : ℕ → Outcome VideoDatagramError VideoCodec
video_of_code value =
    if value == 1
    then ok VideoCodec.h264
    else if value == 2
    then ok VideoCodec.h265
    else if value == 3
    then ok VideoCodec.vp8
    else if value == 4
    then ok VideoCodec.vp9
    else if value == 5
    then ok VideoCodec.av1
    else if value == 6
    then ok VideoCodec.raw
    else err (unknown_codec value)

unfoldable pub is_reference_sensitive : VideoCodec → Bool
is_reference_sensitive VideoCodec.h264 = true
is_reference_sensitive VideoCodec.h265 = true
is_reference_sensitive VideoCodec.vp8 = false
is_reference_sensitive VideoCodec.vp9 = false
is_reference_sensitive VideoCodec.av1 = true
is_reference_sensitive VideoCodec.raw = false

pub record VideoFrameMetadata : Type 0 where
  pub frame_id : ℕ
  pub codec : VideoCodec
  pub flags : ℕ
  pub presentation_timestamp_us : ℕ

pub record CompleteVideoFrame : Type 0 where
  pub metadata : VideoFrameMetadata
  pub payload : List ℕ

pub record VideoReassemblyConfig : Type 0 where
  pub max_frame_bytes : ℕ
  pub max_pending_frames : ℕ
  pub max_memory_bytes : ℕ
  pub fragment_deadline : ℕ
  pub keyframe_fragment_deadline : ℕ
  pub frame_lifetime : ℕ
  pub keyframe_lifetime : ℕ
  pub require_initial_keyframe : Bool
  pub keyframe_request_after_drops : ℕ
  pub keyframe_request_interval : ℕ

abbrev pub default_reassembly_config : VideoReassemblyConfig
default_reassembly_config = record {
  max_frame_bytes = max_video_frame_bytes;
  max_pending_frames = 8;
  max_memory_bytes = 64 * 1024 * 1024;
  fragment_deadline = 120 * 1_000_000;
  keyframe_fragment_deadline = 500 * 1_000_000;
  frame_lifetime = 1 * 1_000_000_000;
  keyframe_lifetime = 3 * 1_000_000_000;
  require_initial_keyframe = true;
  keyframe_request_after_drops = 1;
  keyframe_request_interval = 500 * 1_000_000;
}

pub record VideoReassemblyStats : Type 0 where
  pub completed_frames : ℕ
  pub expired_frames : ℕ
  pub evicted_frames : ℕ
  pub obsolete_frames : ℕ
  pub duplicate_fragments : ℕ
  pub obsolete_fragments : ℕ
  pub malformed_fragments : ℕ
  pub pre_keyframe_frames : ℕ
  pub expired_keyframes : ℕ
  pub missing_fragments : ℕ
  pub last_frame_assembly_us : ℕ
  pub max_frame_assembly_us : ℕ
  pub max_fragment_gap_us : ℕ
  pub last_frame_bytes : ℕ
  pub last_frame_fragments : ℕ

pub record VideoReassemblyOutcome : Type 0 where
  pub frame : Option CompleteVideoFrame
  pub dropped_frames : ℕ
  pub request_keyframe : Bool

pub record FragmentHeader : Type 0 where
  pub metadata : VideoFrameMetadata
  pub fragment_index : ℕ
  pub fragment_count : ℕ
  pub frame_size : ℕ

pub record PendingFrame : Type 0 where
  pub header : FragmentHeader
  pub fragments : List (Option (List ℕ))
  pub received_fragments : ℕ
  pub received_bytes : ℕ
  pub created_at : ℕ
  pub last_progress_at : ℕ
  pub max_fragment_gap : ℕ

-- `==` on the metadata, whose codecs are compared by their discriminants.
unfoldable pub metadata_eq : VideoFrameMetadata → VideoFrameMetadata → Bool
metadata_eq a b =
    a.frame_id == b.frame_id
    && (video_code a.codec == video_code b.codec
        && (a.flags == b.flags && a.presentation_timestamp_us == b.presentation_timestamp_us))

unfoldable pub belongs_to_same_frame : FragmentHeader → FragmentHeader → Bool
unfolding metadata_eq
belongs_to_same_frame a b =
    metadata_eq a.metadata b.metadata
    && (a.fragment_count == b.fragment_count && a.frame_size == b.frame_size)

abbrev pub is_keyframe : VideoFrameMetadata → Bool
is_keyframe m = not (bit_and m.flags flag_keyframe == 0)

unfoldable pub validate_frame_metadata : VideoFrameMetadata → Outcome VideoDatagramError (Unit {0})
validate_frame_metadata m = do
  reject_if (m.frame_id == 0) zero_frame_id
  reject_if (not (bit_and m.flags (255 - known_frame_flags) == 0)) (unknown_flags m.flags)

abbrev pub duration_us : ℕ → ℕ
duration_us duration = min (duration / 1000) (2 ^ 64 - 1)
