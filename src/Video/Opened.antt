-- ===== src/Video/Opened.antt =====
-- What comes of the fragment of a frame that is or is not pending.
use hbb_common.Common.{
  ℕ, suc, ◌<◌, ◌≡◌, ◌≢◌, refl, sym, ap, arith, Bool, true, false, Option, none, some, List, length,
  leb,
}
use hbb_common.Common.OrderedMap.{get, put-From, put-Every, get-put, total-put_new}
use hbb_common.Video.Types.{VideoReassemblyOutcome, FragmentHeader, PendingFrame}
use hbb_common.Video.Reassembler.{VideoReassembler, make_place, count_obsolete_fragment}
use hbb_common.Video.Push.{new_frame, open_frame, add_to, accept}
use hbb_common.Video.Valid.{Known, frame_bytes, IsPending, Shrunk, Shrunk-refl}
use hbb_common.Video.Place.{make_place_lem, make_place-absent}
use hbb_common.Video.Slots.{no_fragments}
use hbb_common.Video.Safe.{Result, IsOrdered}
use hbb_common.Video.Accepted.{Fits, add_fragment-Result}

-- A reassembler with a frame open.
pub record Opened (G : Known) (r : VideoReassembler) (k : ℕ)
    (x : VideoReassemblyOutcome × VideoReassembler) : Type 0 where
  pub shrunk : Shrunk G (suc r.last_completed_frame_id) r x.1
  pub quiet : x.0.frame ≡ none
  pub held : get k x.1.pending ≢ none

module _ (G : Known) (r : VideoReassembler) (o : VideoReassemblyOutcome) (h : FragmentHeader)
    (now : ℕ) (v : IsOrdered G r) (quiet : o.frame ≡ none)
    (later : r.last_completed_frame_id < h.metadata.frame_id) where
  new_frame-IsPending : IsPending G h.metadata.frame_id (new_frame h now)
  new_frame-IsPending =
      let (a, b, c, d) = no_fragments (G h.metadata.frame_id h.fragment_count) 0 h.fragment_count in
      record { named = refl; slots = a; counted = sym b; sized = sym c; known = d }

  open_frame-Opened : Opened G r h.metadata.frame_id (open_frame r o h now)
  unfolding open_frame
  open_frame-Opened = by_get (get h.metadata.frame_id r.pending) refl
    where
      placed : VideoReassembler × ℕ
      placed = make_place (length r.pending) r o.dropped_frames

      by_get :
          (f : Option PendingFrame)
          → get h.metadata.frame_id r.pending ≡ f
          → Opened G r h.metadata.frame_id (open_frame r o h now)
      by_get none e =
          let absent =
            make_place-absent (length r.pending) r o.dropped_frames h.metadata.frame_id e in
          let (s, room) =
            make_place_lem G (suc r.last_completed_frame_id) (length r.pending) r o.dropped_frames v
              (omega arith) in
          let added =
            total-put_new frame_bytes h.metadata.frame_id (new_frame h now) placed.0.pending
              absent in
          let here =
            get-put h.metadata.frame_id h.metadata.frame_id (new_frame h now) placed.0.pending in
          rw (open_frame, e)
            (record {
              shrunk = record {
                valid = record {
                  ascending =
                      put-From (suc r.last_completed_frame_id) h.metadata.frame_id (new_frame h now)
                        placed.0.pending (omega (arith, later)) s.valid.ascending;
                  frames =
                      put-Every (IsPending G) h.metadata.frame_id (new_frame h now) placed.0.pending
                        s.valid.frames new_frame-IsPending;
                  counted = omega (arith, added.0, s.valid.counted);
                  few = omega (arith, added.1, room, ap (λ c. c.max_pending_frames) s.config);
                  small = s.valid.small;
                  memory = s.valid.memory;
                  place = s.valid.place;
                };
                config = s.config;
                last = s.last;
                keyframe = s.keyframe;
              };
              quiet = quiet;
              held = λ n. ground arith;
            })
      by_get (some p) e =
          rw (open_frame, e)
            (record {
              shrunk = Shrunk-refl G (suc r.last_completed_frame_id) r v;
              quiet = quiet;
              held = λ n. cc;
            })

module _ (G : Known) (r : VideoReassembler) (h : FragmentHeader) (fragment : List ℕ) (now : ℕ) where
  add_to-Result :
      (x : VideoReassemblyOutcome × VideoReassembler)
      → Opened G r h.metadata.frame_id x
      → Fits G r.last_completed_frame_id h fragment
      → Result G r.config r.last_completed_frame_id (add_to x h fragment now)
  unfolding add_to
  add_to-Result (o, s) w f = by_get (get h.metadata.frame_id s.pending) refl
    where
      by_get :
          (q : Option PendingFrame)
          → get h.metadata.frame_id s.pending ≡ q
          → Result G r.config r.last_completed_frame_id (add_to (o, s) h fragment now)
      by_get none e = absurd (w.held e)
      by_get (some p) e =
          rw (add_to, e) (add_fragment-Result G r s o h fragment p now w.shrunk f e w.quiet)

  -- A fragment that is checked is accepted in order.
  pub accept-Result :
      (o : VideoReassemblyOutcome)
      → IsOrdered G r
      → o.frame ≡ none
      → 0 < h.fragment_count
      → h.fragment_index < h.fragment_count
      → G h.metadata.frame_id h.fragment_count h.fragment_index fragment
      → Result G r.config r.last_completed_frame_id (accept r o h fragment now)
  unfolding accept count_obsolete_fragment
  accept-Result o v quiet filled index known =
      by_test (leb h.metadata.frame_id r.last_completed_frame_id) refl
    where
      by_test :
          (b : Bool)
          → leb h.metadata.frame_id r.last_completed_frame_id ≡ b
          → Result G r.config r.last_completed_frame_id (accept r o h fragment now)
      by_test true e = rw e (record { valid = v; config = refl; answers = rw quiet (omega arith) })
      by_test false e =
          let later : r.last_completed_frame_id < h.metadata.frame_id = ground arith in
          rw e (
            add_to-Result (open_frame r o h now) (open_frame-Opened G r o h now v quiet later)
              (record { filled = filled; index = index; later = later; known = known }))
