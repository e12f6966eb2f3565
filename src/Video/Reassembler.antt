-- ===== src/Video/Reassembler.antt =====
-- src/transport/video_datagram.rs: the state of `VideoReassembler`, and the calls that drop frames.
-- A call returns its result with the reassembler that it leaves.
use hbb_common.Common.{
  ℕ, zero, suc, ◌-◌, ◌^◌, min, not, ◌||◌, Bool, true, false, if◌then◌else◌, Option, none, some,
  List, [], ◌∷◌, length, ltb, leb, ◌==◌, Outcome, ok, ◌>>◌, reject_if,
}
use hbb_common.Common.Saturating.{saturating_u32, saturating_u64}
use hbb_common.Common.OrderedMap.{get, delete}
use hbb_common.Video.Types.{
  VideoReassemblyConfig, VideoReassemblyStats, VideoReassemblyOutcome, VideoDatagramError,
  invalid_frame_size, memory_limit, PendingFrame, is_keyframe, max_video_frame_bytes,
}

pub record VideoReassembler : Type 0 where
  pub config : VideoReassemblyConfig
  pub pending : List (ℕ × PendingFrame)
  pub pending_bytes : ℕ
  pub last_completed_frame_id : ℕ
  pub has_completed_keyframe : Bool
  pub consecutive_dropped_frames : ℕ
  pub last_keyframe_request : Option ℕ
  pub stats : VideoReassemblyStats

abbrev pub no_video_stats : VideoReassemblyStats
no_video_stats = record {
  completed_frames = 0;
  expired_frames = 0;
  evicted_frames = 0;
  obsolete_frames = 0;
  duplicate_fragments = 0;
  obsolete_fragments = 0;
  malformed_fragments = 0;
  pre_keyframe_frames = 0;
  expired_keyframes = 0;
  missing_fragments = 0;
  last_frame_assembly_us = 0;
  max_frame_assembly_us = 0;
  max_fragment_gap_us = 0;
  last_frame_bytes = 0;
  last_frame_fragments = 0;
}

abbrev pub fresh_reassembler : VideoReassemblyConfig → VideoReassembler
fresh_reassembler config = record {
  config = config;
  pending = [];
  pending_bytes = 0;
  last_completed_frame_id = 0;
  has_completed_keyframe = not config.require_initial_keyframe;
  consecutive_dropped_frames = 0;
  last_keyframe_request = none;
  stats = no_video_stats;
}

unfoldable pub new_reassembler : VideoReassemblyConfig → Outcome VideoDatagramError VideoReassembler
new_reassembler config = do
  reject_if (config.max_frame_bytes == 0 || ltb max_video_frame_bytes config.max_frame_bytes)
      (invalid_frame_size config.max_frame_bytes)
  reject_if (config.max_pending_frames == 0 || ltb config.max_memory_bytes config.max_frame_bytes)
      memory_limit
  ok (fresh_reassembler config)

unfoldable pub reset_reassembler : VideoReassembler → VideoReassembler
reset_reassembler r = record r {
  pending = [];
  pending_bytes = 0;
  last_completed_frame_id = 0;
  has_completed_keyframe = not r.config.require_initial_keyframe;
  consecutive_dropped_frames = 0;
  last_keyframe_request = none;
}

unfoldable pub record_drops : ℕ → VideoReassembler → VideoReassembler
record_drops count r = record r {
  consecutive_dropped_frames = saturating_u32 r.consecutive_dropped_frames count;
}

-- Whether the last request is younger than the interval.
abbrev pub requested_lately : VideoReassemblyConfig → Option ℕ → ℕ → Bool
requested_lately config none now = false
requested_lately config (some last) now = ltb (now - last) config.keyframe_request_interval

unfoldable pub should_request_keyframe : VideoReassembler → ℕ → Bool × VideoReassembler
should_request_keyframe r now =
    if ltb r.consecutive_dropped_frames r.config.keyframe_request_after_drops
    then (false, r)
    else if requested_lately r.config r.last_keyframe_request now
    then (false, r)
    else (true, record r { last_keyframe_request = some now })

-- `pending.remove`, with the bytes that it frees.
unfoldable pub take_frame : ℕ → PendingFrame → VideoReassembler → VideoReassembler
take_frame frame_id frame r = record r {
  pending = delete frame_id r.pending;
  pending_bytes = r.pending_bytes - frame.received_bytes;
}

-- `drop_frame`, which every caller calls with `record_drop` false.
unfoldable pub drop_frame : VideoReassembler → ℕ → VideoReassembler
unfolding take_frame
drop_frame r frame_id = elim (get frame_id r.pending) [
  | none ↦ r
  | some frame ↦ record (take_frame frame_id frame r) {
    stats = record r.stats {
      missing_fragments =
          saturating_u64 r.stats.missing_fragments
            (min (frame.header.fragment_count - frame.received_fragments) (2 ^ 64 - 1));
    };
  }
]

-- The frame that `evict_oldest` drops: the first that is not a keyframe, or else the first.
unfoldable pub first_delta : List (ℕ × PendingFrame) → Option ℕ
first_delta [] = none
first_delta (e ∷ es) = if not (is_keyframe e.1.header.metadata) then some e.0 else first_delta es

abbrev pub first_frame : List (ℕ × PendingFrame) → Option ℕ
first_frame [] = none
first_frame (e ∷ es) = some e.0

-- `or_else`.
abbrev pub or_else : Option ℕ → Option ℕ → Option ℕ
or_else none other = other
or_else (some frame_id) other = some frame_id

unfoldable pub victim : List (ℕ × PendingFrame) → Option ℕ
unfolding first_delta
victim pending = or_else (first_delta pending) (first_frame pending)

unfoldable pub count_evicted : VideoReassembler → VideoReassembler
count_evicted r = record r {
  stats = record r.stats { evicted_frames = saturating_u64 r.stats.evicted_frames 1 };
}

unfoldable pub evict_frame : VideoReassembler → Option ℕ → VideoReassembler × Bool
unfolding drop_frame record_drops count_evicted
evict_frame r none = (r, false)
evict_frame r (some frame_id) = (record_drops 1 (count_evicted (drop_frame r frame_id)), true)

unfoldable pub evict_oldest : VideoReassembler → VideoReassembler × Bool
unfolding evict_frame victim
evict_oldest r = evict_frame r (victim r.pending)

-- The loop of `push` that evicts frames while there is no place for one more, with the number of
-- dropped frames, on fuel. (A reassembler has `max_pending_frames` above zero.)
unfoldable pub make_place : ℕ → VideoReassembler → ℕ → VideoReassembler × ℕ
make_place zero r dropped = (r, dropped)
make_place (suc fuel) r dropped = elim (leb r.config.max_pending_frames (length r.pending)) [
  | false ↦ (r, dropped)
  | true ↦
      let (next, found) = evict_oldest r in
      make_place fuel next (if found then saturating_u32 dropped 1 else dropped)
]

-- Whether a frame is too old.
unfoldable pub is_expired : VideoReassemblyConfig → ℕ → PendingFrame → Bool
is_expired config now frame =
    if is_keyframe frame.header.metadata
    then leb config.keyframe_fragment_deadline (now - frame.last_progress_at)
      || leb config.keyframe_lifetime (now - frame.created_at)
    else leb config.fragment_deadline (now - frame.last_progress_at)
      || leb config.frame_lifetime (now - frame.created_at)

unfoldable pub expired_ids : VideoReassemblyConfig → ℕ → List (ℕ × PendingFrame) → List ℕ
unfolding is_expired
expired_ids config now [] = []
expired_ids config now (e ∷ es) =
    if is_expired config now e.1 then e.0 ∷ expired_ids config now es else expired_ids config now es

-- `is_some_and` on the frame: one more expired keyframe.
abbrev pub keyframes_with : Option PendingFrame → ℕ → ℕ
keyframes_with none n = n
keyframes_with (some frame) n = if is_keyframe frame.header.metadata then saturating_u64 n 1 else n

unfoldable pub count_keyframe : VideoReassembler → ℕ → VideoReassembler
count_keyframe r frame_id = record r {
  stats = record r.stats {
    expired_keyframes = keyframes_with (get frame_id r.pending) r.stats.expired_keyframes;
  };
}

unfoldable pub count_expired : VideoReassembler → VideoReassembler
count_expired r = record r {
  stats = record r.stats { expired_frames = saturating_u64 r.stats.expired_frames 1 };
}

-- The loop of `expire`.
unfoldable pub drop_expired : List ℕ → VideoReassembler → VideoReassembler
unfolding count_keyframe count_expired
drop_expired [] r = r
drop_expired (frame_id ∷ rest) r =
    drop_expired rest (count_expired (drop_frame (count_keyframe r frame_id) frame_id))

-- `u32::try_from(n).unwrap_or(u32::MAX)`.
abbrev pub clamp_u32 : ℕ → ℕ
clamp_u32 n = min n (2 ^ 32 - 1)

unfoldable pub expire : VideoReassembler → ℕ → VideoReassemblyOutcome × VideoReassembler
unfolding expired_ids drop_expired record_drops should_request_keyframe
expire r now =
    let ids = expired_ids r.config now r.pending in
    let (request, next) =
      should_request_keyframe (record_drops (clamp_u32 (length ids)) (drop_expired ids r)) now in
    (
      record { frame = none; dropped_frames = clamp_u32 (length ids); request_keyframe = request },
      next,
    )

-- `range(..=last)`: the frames up to one.
unfoldable pub ids_up_to : ℕ → List (ℕ × PendingFrame) → List ℕ
ids_up_to last [] = []
ids_up_to last (e ∷ es) = if leb e.0 last then e.0 ∷ ids_up_to last es else ids_up_to last es

unfoldable pub count_obsolete_fragment : VideoReassembler → VideoReassembler
count_obsolete_fragment r = record r {
  stats = record r.stats { obsolete_fragments = saturating_u64 r.stats.obsolete_fragments 1 };
}

unfoldable pub drop_ids : List ℕ → VideoReassembler → VideoReassembler
unfolding count_obsolete_fragment
drop_ids [] r = r
drop_ids (frame_id ∷ rest) r = drop_ids rest (count_obsolete_fragment (drop_frame r frame_id))

unfoldable pub count_obsolete_frames : VideoReassembler → ℕ → VideoReassembler
count_obsolete_frames r count = record r {
  stats = record r.stats { obsolete_frames = saturating_u64 r.stats.obsolete_frames count };
}

unfoldable pub drop_obsolete_pending : VideoReassembler → ℕ × VideoReassembler
unfolding ids_up_to drop_ids count_obsolete_frames
drop_obsolete_pending r =
    let ids = ids_up_to r.last_completed_frame_id r.pending in
    (clamp_u32 (length ids), count_obsolete_frames (drop_ids ids r) (clamp_u32 (length ids)))
