-- ===== src/Video/Push.antt =====
-- src/transport/video_datagram.rs: `VideoReassembler::push`.
use hbb_common.Common.{
  ℕ, ◌+◌, not, ◌||◌, if◌then◌else◌, none, some, List, length, replicate, get_elem?, bytes_eq, ltb,
  leb, ◌==◌, Outcome, ok, err, panic, ◌>>=◌, ◌>>◌, reject_if, map_err,
}
use hbb_common.Common.Saturating.{saturating_u64}
use hbb_common.Common.OrderedMap.{get, put}
use hbb_common.Protocol.Types.{MessageType, channel_mismatch}
use hbb_common.Protocol.Message.{ParsedMessage, type_eq, decode_message}
use hbb_common.Video.Types.{
  VideoReassemblyConfig, VideoReassemblyOutcome, VideoDatagramError, FragmentHeader, PendingFrame,
  protocol, invalid_fragment_index, invalid_fragment_count, invalid_frame_size,
  inconsistent_metadata, conflicting_duplicate, memory_limit, belongs_to_same_frame,
  validate_frame_metadata, max_video_fragments,
}
use hbb_common.Video.Settle.{Pushed, reject_frame, settle, with_fragment}
use hbb_common.Video.Fragment.{decode_fragment_payload}
use hbb_common.Video.Reassembler.{
  VideoReassembler, drop_frame, make_place, count_obsolete_fragment, expire,
}

unfoldable pub validate_fragment_header :
    VideoReassemblyConfig → FragmentHeader → Outcome VideoDatagramError (Unit {0})
validate_fragment_header config h = do
  validate_frame_metadata h.metadata
  reject_if (h.fragment_count == 0 || ltb max_video_fragments h.fragment_count)
      (invalid_fragment_count h.fragment_count)
  reject_if (leb h.fragment_count h.fragment_index)
      (invalid_fragment_index h.fragment_index h.fragment_count)
  reject_if (h.frame_size == 0 || ltb config.max_frame_bytes h.frame_size)
      (invalid_frame_size h.frame_size)

-- The fragment of a datagram, checked.
unfoldable pub checked_fragment :
    VideoReassemblyConfig → ParsedMessage → Outcome VideoDatagramError (FragmentHeader × List ℕ)
unfolding validate_fragment_header
checked_fragment config message = do
  reject_if (not (type_eq message.header.message_type MessageType.video_fragment))
      (protocol (channel_mismatch message.header.message_type message.header.channel))
  fragment ← decode_fragment_payload message.payload
  validate_fragment_header config fragment.0
  ok fragment

unfoldable pub read_fragment :
    VideoReassemblyConfig → List ℕ → Outcome VideoDatagramError (FragmentHeader × List ℕ)
unfolding checked_fragment
read_fragment config datagram =
    map_err protocol (decode_message datagram) >>= checked_fragment config

unfoldable pub insert_fragment :
    VideoReassembler → VideoReassemblyOutcome → FragmentHeader → List ℕ → PendingFrame → ℕ → Pushed
unfolding settle with_fragment
insert_fragment r outcome h fragment frame now =
    if ltb r.config.max_memory_bytes (saturating_u64 r.pending_bytes (length fragment))
    then (err memory_limit, drop_frame r h.metadata.frame_id)
    else settle
        (record r {
          pending = put h.metadata.frame_id (with_fragment frame h fragment now) r.pending;
          pending_bytes = r.pending_bytes + length fragment;
        })
        outcome h (with_fragment frame h fragment now) now

unfoldable pub add_fragment :
    VideoReassembler → VideoReassemblyOutcome → FragmentHeader → List ℕ → PendingFrame → ℕ → Pushed
unfolding insert_fragment reject_frame
add_fragment r outcome h fragment frame now =
    if not (belongs_to_same_frame frame.header h)
    then reject_frame r h.metadata.frame_id inconsistent_metadata
    else elim (get_elem? frame.fragments h.fragment_index) [
      | none ↦ (panic, r)
      | some none ↦ insert_fragment r outcome h fragment frame now
      | some (some existing) ↦
          if bytes_eq existing fragment
          then (
            ok outcome,
            record r {
              stats = record r.stats {
                duplicate_fragments = saturating_u64 r.stats.duplicate_fragments 1;
              };
            },
          )
          else reject_frame r h.metadata.frame_id conflicting_duplicate
    ]

abbrev pub new_frame : FragmentHeader → ℕ → PendingFrame
new_frame h now = record {
  header = h;
  fragments = replicate h.fragment_count none;
  received_fragments = 0;
  received_bytes = 0;
  created_at = now;
  last_progress_at = now;
  max_fragment_gap = 0;
}

-- The frame of a fragment, which is inserted when it is new.
unfoldable pub open_frame :
    VideoReassembler
    → VideoReassemblyOutcome
    → FragmentHeader
    → ℕ
    → VideoReassemblyOutcome × VideoReassembler
open_frame r outcome h now = elim (get h.metadata.frame_id r.pending) [
  | some frame ↦ (outcome, r)
  | none ↦
      let (placed, dropped) = make_place (length r.pending) r outcome.dropped_frames in
      (
        record outcome { dropped_frames = dropped },
        record placed { pending = put h.metadata.frame_id (new_frame h now) placed.pending },
      )
]

unfoldable pub add_to :
    VideoReassemblyOutcome × VideoReassembler → FragmentHeader → List ℕ → ℕ → Pushed
unfolding add_fragment
add_to (outcome, r) h fragment now = elim (get h.metadata.frame_id r.pending) [
  | none ↦ (panic, r)
  | some frame ↦ add_fragment r outcome h fragment frame now
]

unfoldable pub accept :
    VideoReassembler → VideoReassemblyOutcome → FragmentHeader → List ℕ → ℕ → Pushed
unfolding open_frame add_to count_obsolete_fragment
accept r outcome h fragment now =
    if leb h.metadata.frame_id r.last_completed_frame_id
    then (ok outcome, count_obsolete_fragment r)
    else add_to (open_frame r outcome h now) h fragment now

unfoldable pub received :
    VideoReassemblyOutcome × VideoReassembler
    → Outcome VideoDatagramError (FragmentHeader × List ℕ)
    → ℕ
    → Pushed
unfolding accept
received (outcome, r) (ok (h, fragment)) now = accept r outcome h fragment now
received (outcome, r) (err e) now = (err e, r)
received (outcome, r) panic now = (panic, r)

unfoldable pub push : VideoReassembler → List ℕ → ℕ → Pushed
unfolding received
push r datagram now = received (expire r now) (read_fragment r.config datagram) now
