-- ===== src/Video/Tests.antt =====
-- Video frames at concrete inputs.
use hbb_common.Video.Reassembler.{
  count_evicted, count_expired, count_keyframe, count_obsolete_fragment, count_obsolete_frames,
  drop_expired, drop_frame, drop_ids, drop_obsolete_pending, expire, expired_ids, first_delta,
  ids_up_to, is_expired, make_place, record_drops, should_request_keyframe, take_frame, victim,
  evict_oldest, evict_frame, VideoReassembler, fresh_reassembler, new_reassembler,
}
use hbb_common.Video.Settle.{
  complete_frame, complete_with, count_frame, count_obsolete, drop_early, finish_frame, joined,
  malformed, reject_frame, set_fragment, settle, take_complete, with_fragment,
}
use hbb_common.Video.Types.{
  belongs_to_same_frame, metadata_eq, video_of_code, video_code, validate_frame_metadata, protocol,
  VideoCodec, VideoFrameMetadata, VideoReassemblyConfig, FragmentHeader,
}
use hbb_common.Video.Push.{
  accept, add_fragment, add_to, checked_fragment, insert_fragment, open_frame, received,
  validate_fragment_header, read_fragment, push,
}
use hbb_common.Common.OrderedMap.{get, put, delete, total}
use hbb_common.Common.{
  bytes_eq, all_zero, some, false, err, ℕ, ◌≤◌, ◌≡◌, ◌≢◌, refl, arith, inl, inr, true, List, [],
  ◌∷◌, length, replicate, ok, panic,
}
use hbb_common.Common.Bytes.{
  read, index, read_slice, read_tail, from_be_bytes, to_be_bytes, are_bytes, are_bytes→All,
}
use hbb_common.Protocol.Types.{
  type_of_code, channel_of_code, type_code, max_payload_len, channel, channel_code, ProtocolError,
}
use hbb_common.Protocol.Message.{
  decode_message, decode_header, validate_fields, header_bytes, encode_message, new_header,
}
use hbb_common.Video.Fragment.{
  encode_fragment_payload, chunks_from, fragment_bytes, decode_fragment_payload,
  fragment_video_frame,
}
use hbb_common.Video.Valid.{frame_bytes}
use hbb_common.Video.RoundTrip.{decode_fragment_payload-fragment_bytes}
use hbb_common.Video.Run.{VideoCall, pushed, expired, run}
use hbb_common.Video.Delivery.{AscendingIds, run-safe, run-ascending}
use hbb_common.Video.Original.{IsSent, Original, run-Original}

abbrev little_config : VideoReassemblyConfig
little_config = record {
  max_frame_bytes = 10;
  max_pending_frames = 2;
  max_memory_bytes = 20;
  fragment_deadline = 100;
  keyframe_fragment_deadline = 500;
  frame_lifetime = 1000;
  keyframe_lifetime = 3000;
  require_initial_keyframe = true;
  keyframe_request_after_drops = 1;
  keyframe_request_interval = 500;
}

abbrev little_metadata : VideoFrameMetadata
little_metadata = record {
  frame_id = 5;
  codec = VideoCodec.h264;
  flags = 1;
  presentation_timestamp_us = 900;
}

abbrev little_frame : List ℕ
little_frame = 11 ∷ 12 ∷ 13 ∷ []

abbrev little_source : ℕ → List ℕ
little_source k = little_frame

abbrev sevens : List ℕ
sevens = replicate 16 7

abbrev first_datagram : List ℕ
first_datagram =
    82 ∷ 65 ∷ 81 ∷ 49 ∷ 0 ∷ 1 ∷ 0 ∷ 128 ∷ 0 ∷ 0 ∷ 16 ∷ 0 ∷ 7 ∷ 7 ∷ 7 ∷ 7 ∷ 7 ∷ 7 ∷ 7 ∷ 7 ∷ 7 ∷ 7 ∷ 7
    ∷ 7 ∷ 7 ∷ 7 ∷ 7 ∷ 7 ∷ 0 ∷ 0 ∷ 0 ∷ 0 ∷ 0 ∷ 0 ∷ 0 ∷ 40 ∷ 0 ∷ 0 ∷ 0 ∷ 30 ∷ 0 ∷ 0 ∷ 0 ∷ 0 ∷ 0 ∷ 0
    ∷ 0 ∷ 77 ∷ 0 ∷ 0 ∷ 0 ∷ 0 ∷ 0 ∷ 0 ∷ 0 ∷ 5 ∷ 0 ∷ 0 ∷ 0 ∷ 2 ∷ 1 ∷ 1 ∷ 0 ∷ 0 ∷ 0 ∷ 0 ∷ 0 ∷ 0 ∷ 0 ∷ 0
    ∷ 3 ∷ 132 ∷ 0 ∷ 0 ∷ 0 ∷ 3 ∷ 11 ∷ 12 ∷ []

abbrev second_datagram : List ℕ
second_datagram =
    82 ∷ 65 ∷ 81 ∷ 49 ∷ 0 ∷ 1 ∷ 0 ∷ 128 ∷ 0 ∷ 0 ∷ 16 ∷ 0 ∷ 7 ∷ 7 ∷ 7 ∷ 7 ∷ 7 ∷ 7 ∷ 7 ∷ 7 ∷ 7 ∷ 7 ∷ 7
    ∷ 7 ∷ 7 ∷ 7 ∷ 7 ∷ 7 ∷ 0 ∷ 0 ∷ 0 ∷ 0 ∷ 0 ∷ 0 ∷ 0 ∷ 41 ∷ 0 ∷ 0 ∷ 0 ∷ 29 ∷ 0 ∷ 0 ∷ 0 ∷ 0 ∷ 0 ∷ 0
    ∷ 0 ∷ 77 ∷ 0 ∷ 0 ∷ 0 ∷ 0 ∷ 0 ∷ 0 ∷ 0 ∷ 5 ∷ 0 ∷ 1 ∷ 0 ∷ 2 ∷ 1 ∷ 1 ∷ 0 ∷ 0 ∷ 0 ∷ 0 ∷ 0 ∷ 0 ∷ 0 ∷ 0
    ∷ 3 ∷ 132 ∷ 0 ∷ 0 ∷ 0 ∷ 3 ∷ 13 ∷ []

little_fragmented :
    fragment_video_frame sevens 40 77 little_metadata little_frame 78
    ≡ ok (first_datagram ∷ second_datagram ∷ [])
unfolding fragment_video_frame validate_frame_metadata chunks_from encode_fragment_payload
    new_header channel_code channel all_zero max_payload_len fragment_bytes to_be_bytes
    encode_message header_bytes type_code video_code
little_fragmented = refl

-- The fragments come in the wrong order, and the first one twice.
abbrev little_calls : List VideoCall
little_calls =
    pushed second_datagram 1 ∷ expired 2 ∷ pushed first_datagram 3 ∷ pushed first_datagram 4 ∷ []

little_reassembler : new_reassembler little_config ≡ ok (fresh_reassembler little_config)
unfolding new_reassembler
little_reassembler = refl

little_delivered :
    (run little_calls (fresh_reassembler little_config)).0
    ≡ record { metadata = little_metadata; payload = little_frame } ∷ []
unfolding count_evicted count_expired count_keyframe count_obsolete_fragment count_obsolete_frames
    drop_expired drop_frame drop_ids drop_obsolete_pending expire expired_ids first_delta ids_up_to
    is_expired make_place record_drops should_request_keyframe take_frame victim evict_oldest
    evict_frame complete_frame complete_with count_frame count_obsolete drop_early finish_frame
    joined malformed reject_frame set_fragment settle take_complete with_fragment
    belongs_to_same_frame metadata_eq validate_frame_metadata video_code video_of_code accept
    add_fragment add_to checked_fragment insert_fragment open_frame received
    validate_fragment_header push read_fragment decode_fragment_payload get put delete bytes_eq
    all_zero read index read_slice read_tail from_be_bytes type_code channel_code type_of_code
    channel_of_code max_payload_len channel decode_message decode_header validate_fields
little_delivered = refl

first_IsSent : IsSent little_source 78 first_datagram
unfolding are_bytes
first_IsSent = record {
  session = sevens;
  first = 40;
  time = 77;
  metadata = little_metadata;
  datagrams = first_datagram ∷ second_datagram ∷ [];
  is_session = (refl, are_bytes→All sevens refl);
  time_u64 = omega arith;
  frame_id_u64 = omega arith;
  timestamp_u64 = omega arith;
  fragmented = little_fragmented;
  among = inl refl;
}

second_IsSent : IsSent little_source 78 second_datagram
unfolding are_bytes
second_IsSent = record {
  session = sevens;
  first = 40;
  time = 77;
  metadata = little_metadata;
  datagrams = first_datagram ∷ second_datagram ∷ [];
  is_session = (refl, are_bytes→All sevens refl);
  time_u64 = omega arith;
  frame_id_u64 = omega arith;
  timestamp_u64 = omega arith;
  fragmented = little_fragmented;
  among = inr (inl refl);
}

run-Original_example : Original little_source (run little_calls (fresh_reassembler little_config)).0
run-Original_example =
    run-Original little_source 78 little_config (fresh_reassembler little_config) little_calls
      little_reassembler (omega arith) (omega arith)
      (second_IsSent, (first_IsSent, (first_IsSent, tt)))

run-safe_example :
    let s = (run little_calls (fresh_reassembler little_config)).1 in
    ((push s (1 ∷ 2 ∷ []) 9).0 ≢ panic)
    × (length s.pending ≤ 2)
    × (s.pending_bytes ≡ total frame_bytes s.pending)
    × (s.pending_bytes ≤ 20)
run-safe_example =
    run-safe little_config (fresh_reassembler little_config) little_reassembler (omega arith)
      little_calls (1 ∷ 2 ∷ []) 9

run-ascending_example : AscendingIds 0 (run little_calls (fresh_reassembler little_config)).0
run-ascending_example =
    run-ascending little_config (fresh_reassembler little_config) little_reassembler (omega arith)
      little_calls

abbrev little_header : FragmentHeader
little_header = record {
  metadata = little_metadata;
  fragment_index = 1;
  fragment_count = 2;
  frame_size = 3;
}

decode_fragment_payload-fragment_bytes_example :
    decode_fragment_payload (fragment_bytes little_header (13 ∷ [])) ≡ ok (little_header, 13 ∷ [])
decode_fragment_payload-fragment_bytes_example =
    decode_fragment_payload-fragment_bytes little_header
      (record {
        frame_id_u64 = omega arith;
        timestamp_u64 = omega arith;
        index_u16 = omega arith;
        count_u16 = omega arith;
        size_u32 = omega arith;
      })
      (13 ∷ []) (omega arith)

-- A reassembler that has counted a drop.
abbrev with_drop : VideoReassembler
with_drop = record (fresh_reassembler little_config) { consecutive_dropped_frames = 1 }

-- A push of bytes that are no message takes the keyframe request that is due, and its error does not
-- tell of it: the next push or expiry within the interval does not ask again.
request_lost :
    (push with_drop [] 9 ≡ (
      err (protocol ProtocolError.header_truncated),
      record with_drop { last_keyframe_request = some 9 },
    ))
    × ((expire with_drop 9).0.request_keyframe ≡ true)
    × ((expire (record with_drop { last_keyframe_request = some 9 }) 10).0.request_keyframe ≡ false)
unfolding push received expire read_fragment checked_fragment decode_message should_request_keyframe
    record_drops expired_ids drop_expired
request_lost = (refl, refl, refl)
