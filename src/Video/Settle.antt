-- ===== src/Video/Settle.antt =====
-- src/transport/video_datagram.rs: the second half of `VideoReassembler::push`, from the fragment that
-- is put into its frame on.
use hbb_common.Common.{
  ℕ, zero, suc, ◌+◌, ◌-◌, ◌^◌, min, max, not, ◌&&◌, ◌||◌, Bool, if◌then◌else◌, Option, none, some,
  List, [], ◌∷◌, ◌++◌, length, ltb, ◌==◌, Outcome, ok, err, panic, ◌>>=◌,
}
use hbb_common.Common.Saturating.{saturating_u32, saturating_u64}
use hbb_common.Video.Types.{
  VideoReassemblyOutcome, VideoDatagramError, FragmentHeader, PendingFrame, invalid_frame_size,
  is_keyframe, duration_us,
}
use hbb_common.Video.Reassembler.{
  VideoReassembler, record_drops, should_request_keyframe, take_frame, drop_frame,
  drop_obsolete_pending,
}

abbrev pub Pushed : Type 0
Pushed = Outcome VideoDatagramError VideoReassemblyOutcome × VideoReassembler

-- `fragments[index] = Some(fragment)`.
unfoldable pub set_fragment : List (Option (List ℕ)) → ℕ → List ℕ → List (Option (List ℕ))
set_fragment [] index fragment = []
set_fragment (f ∷ fs) zero fragment = some fragment ∷ fs
set_fragment (f ∷ fs) (suc index) fragment = f ∷ set_fragment fs index fragment

-- The payload of a frame all of whose fragments are present.
unfoldable pub joined : List (Option (List ℕ)) → Outcome VideoDatagramError (List ℕ)
joined [] = ok []
joined (none ∷ fs) = panic
joined (some fragment ∷ fs) = joined fs >>= λ rest. ok (fragment ++ rest)

unfoldable pub malformed : VideoReassembler → VideoReassembler
malformed r = record r {
  stats = record r.stats { malformed_fragments = saturating_u64 r.stats.malformed_fragments 1 };
}

-- A drop of the frame that counts the fragment as malformed.
unfoldable pub reject_frame : VideoReassembler → ℕ → VideoDatagramError → Pushed
unfolding malformed
reject_frame r frame_id e = (err e, malformed (drop_frame r frame_id))

-- `outcome.request_keyframe |= self.should_request_keyframe(now)`.
abbrev pub with_request : VideoReassemblyOutcome → Bool × VideoReassembler → Pushed
with_request outcome (request, r) =
    (ok (record outcome { request_keyframe = outcome.request_keyframe || request }), r)

-- A complete delta frame before the first keyframe is dropped.
unfoldable pub drop_early :
    VideoReassembler → VideoReassemblyOutcome → FragmentHeader → PendingFrame → ℕ → Pushed
unfolding take_frame record_drops should_request_keyframe
drop_early r outcome h frame now =
    let taken = take_frame h.metadata.frame_id frame r in
    with_request (record outcome { dropped_frames = saturating_u32 outcome.dropped_frames 1 })
      (should_request_keyframe
        (record_drops 1 (record taken {
          stats = record taken.stats {
            pre_keyframe_frames = saturating_u64 taken.stats.pre_keyframe_frames 1;
          };
        }))
        now)

-- The reassembler and the outcome after the obsolete frames are dropped.
unfoldable pub count_obsolete :
    VideoReassemblyOutcome → ℕ × VideoReassembler → ℕ → VideoReassemblyOutcome × VideoReassembler
unfolding record_drops should_request_keyframe
count_obsolete outcome (obsolete, r) now =
    let (request, next) = should_request_keyframe (record_drops obsolete r) now in
    if ltb 0 obsolete
    then (
      record outcome {
        dropped_frames = saturating_u32 outcome.dropped_frames obsolete;
        request_keyframe = outcome.request_keyframe || request;
      },
      next,
    )
    else (outcome, r)

-- The statistics of a complete frame.
unfoldable pub count_frame : VideoReassembler → PendingFrame → ℕ → VideoReassembler
count_frame r frame now = record r {
  stats = record r.stats {
    last_frame_assembly_us = duration_us (now - frame.created_at);
    max_frame_assembly_us =
        max r.stats.max_frame_assembly_us (duration_us (now - frame.created_at));
    max_fragment_gap_us = max r.stats.max_fragment_gap_us (duration_us frame.max_fragment_gap);
    last_frame_bytes = min frame.received_bytes (2 ^ 64 - 1);
    last_frame_fragments = min frame.received_fragments (2 ^ 64 - 1);
  };
}

-- The state after a complete frame is taken out.
unfoldable pub take_complete :
    VideoReassembler → FragmentHeader → PendingFrame → ℕ → VideoReassembler
unfolding count_frame take_frame
take_complete r h frame now =
    record (count_frame (take_frame h.metadata.frame_id frame r) frame now) {
      last_completed_frame_id = frame.header.metadata.frame_id;
      has_completed_keyframe = is_keyframe h.metadata || r.has_completed_keyframe;
    }

unfoldable pub finish_frame :
    VideoReassemblyOutcome × VideoReassembler → FragmentHeader → PendingFrame → List ℕ → Pushed
finish_frame (counted, r) h frame payload = (
  ok (record counted {
    frame = some (record { metadata = frame.header.metadata; payload = payload });
  }),
  record r {
    consecutive_dropped_frames =
        if is_keyframe h.metadata || counted.dropped_frames == 0
        then 0
        else r.consecutive_dropped_frames;
    stats = record r.stats { completed_frames = saturating_u64 r.stats.completed_frames 1 };
  },
)

unfoldable pub complete_with :
    Outcome VideoDatagramError (List ℕ)
    → VideoReassembler
    → VideoReassemblyOutcome
    → FragmentHeader
    → PendingFrame
    → ℕ
    → Pushed
unfolding take_complete count_obsolete finish_frame
complete_with (err e) r outcome h frame now = (err e, r)
complete_with panic r outcome h frame now = (panic, r)
complete_with (ok payload) r outcome h frame now =
    finish_frame (count_obsolete outcome (drop_obsolete_pending (take_complete r h frame now)) now)
      h frame payload

unfoldable pub complete_frame :
    VideoReassembler → VideoReassemblyOutcome → FragmentHeader → PendingFrame → ℕ → Pushed
unfolding complete_with
complete_frame r outcome h frame now = complete_with (joined frame.fragments) r outcome h frame now

-- `push` once a fragment is in its frame.
unfoldable pub settle :
    VideoReassembler → VideoReassemblyOutcome → FragmentHeader → PendingFrame → ℕ → Pushed
unfolding reject_frame drop_early complete_frame
settle r outcome h frame now =
    if ltb h.frame_size frame.received_bytes
    then reject_frame r h.metadata.frame_id (invalid_frame_size frame.received_bytes)
    else if not (frame.received_fragments == h.fragment_count)
    then with_request outcome (should_request_keyframe r now)
    else if not (frame.received_bytes == h.frame_size)
    then reject_frame r h.metadata.frame_id (invalid_frame_size frame.received_bytes)
    else if not r.has_completed_keyframe && not (is_keyframe h.metadata)
    then drop_early r outcome h frame now
    else complete_frame r outcome h frame now

-- A pending frame with one more fragment.
unfoldable pub with_fragment : PendingFrame → FragmentHeader → List ℕ → ℕ → PendingFrame
unfolding set_fragment
with_fragment frame h fragment now = record frame {
  max_fragment_gap = max frame.max_fragment_gap (now - frame.last_progress_at);
  fragments = set_fragment frame.fragments h.fragment_index fragment;
  received_fragments = frame.received_fragments + 1;
  received_bytes = frame.received_bytes + length fragment;
  last_progress_at = now;
}
