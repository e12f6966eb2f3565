-- ===== src/Video/Settled.antt =====
-- What a push comes to once its fragment is in its frame.
use hbb_common.Common.{
  ℕ, suc, ◌<◌, ◌≡◌, refl, sym, subst, ◌∙◌, arith, not, ◌&&◌, Bool, true, false, none, some, length,
  ltb, ◌==◌,
}
use hbb_common.Common.OrderedMap.{get}
use hbb_common.Video.Types.{
  VideoReassemblyOutcome, invalid_frame_size, FragmentHeader, PendingFrame, is_keyframe,
}
use hbb_common.Video.Reassembler.{VideoReassembler, take_frame, drop_obsolete_pending}
use hbb_common.Video.Settle.{
  count_obsolete, count_frame, take_complete, finish_frame, complete_with, complete_frame, settle,
}
use hbb_common.Video.Valid.{Known, Slots, present, IsPending, IsValid, Shrunk, take_frame-IsValid}
use hbb_common.Video.Obsolete.{drop_obsolete_pending_lem}
use hbb_common.Video.Slots.{joined-payload_of}
use hbb_common.Video.Safe.{
  Result, with_request-Result, reject_frame-Result, drop_early-Result, completed-IsValid,
}

-- A pending frame and the header of its last fragment.
pub record Settling (G : Known) (n : ℕ) (s : VideoReassembler) (h : FragmentHeader)
    (p : PendingFrame) : Type 0 where
  pub held : get h.metadata.frame_id s.pending ≡ some p
  pub pending : IsPending G h.metadata.frame_id p
  pub count : p.header.fragment_count ≡ h.fragment_count
  pub filled : 0 < h.fragment_count
  pub later : n < h.metadata.frame_id

module _ (G : Known) (r s : VideoReassembler) (o : VideoReassemblyOutcome) (h : FragmentHeader)
    (p : PendingFrame) (now : ℕ) (v : Shrunk G (suc r.last_completed_frame_id) r s)
    (m : Settling G r.last_completed_frame_id s h p) where
  taken : VideoReassembler
  taken = take_complete s h p now

  taken-IsValid : IsValid G (suc r.last_completed_frame_id) taken
  unfolding take_complete count_frame take_frame taken
  taken-IsValid =
      take_frame-IsValid G (suc r.last_completed_frame_id) s h.metadata.frame_id p v.valid m.held

  taken_kept : (taken.config ≡ r.config) × (taken.last_completed_frame_id ≡ h.metadata.frame_id)
  unfolding take_complete count_frame take_frame taken
  taken_kept = (v.config, m.pending.named)

  complete_frame-Result :
      p.received_fragments ≡ h.fragment_count
      → Result G r.config r.last_completed_frame_id (complete_frame s o h p now)
  unfolding complete_frame complete_with finish_frame taken
  complete_frame-Result e =
      let (w, c, l) = done in
      rw (joined-payload_of p.fragments whole) (record {
        valid =
            subst (λ n. IsValid G (suc n) (count_obsolete o (drop_obsolete_pending taken) now).1)
              (sym l) w;
        config = c ∙ taken_kept.0;
        answers = (
          omega (arith, m.later, m.pending.named),
          m.pending.named ∙ sym l,
          record {
            fragments = p.fragments;
            full = whole;
            known =
                subst (λ n. Slots (G n (length p.fragments)) 0 p.fragments) (sym m.pending.named)
                  (subst (λ n. Slots (G h.metadata.frame_id n) 0 p.fragments) (sym m.pending.slots)
                    m.pending.known);
            joins = refl;
            filled = omega (arith, m.filled, m.pending.slots, m.count);
          },
        );
      })
    where
      whole : present p.fragments ≡ length p.fragments
      whole = omega (arith, e, m.pending.counted, m.pending.slots, m.count)

      dropped :
          Shrunk G (suc r.last_completed_frame_id) taken (drop_obsolete_pending taken).1
          × IsValid G (suc taken.last_completed_frame_id) (drop_obsolete_pending taken).1
      dropped = drop_obsolete_pending_lem G (suc r.last_completed_frame_id) taken taken-IsValid

      done :
          (let s = (count_obsolete o (drop_obsolete_pending taken) now).1 in
            IsValid G (suc h.metadata.frame_id) s
            × (s.config ≡ taken.config)
            × (s.last_completed_frame_id ≡ h.metadata.frame_id))
      done =
          completed-IsValid G taken h.metadata.frame_id o now
            (subst (λ n. IsValid G (suc n) (drop_obsolete_pending taken).1) taken_kept.1 dropped.1)
            taken_kept.1 dropped.0.config dropped.0.last

  pub settle-Result :
      o.frame ≡ none → Result G r.config r.last_completed_frame_id (settle s o h p now)
  unfolding settle
  settle-Result f =
      by_tests (ltb h.frame_size p.received_bytes) refl (p.received_fragments == h.fragment_count)
        refl (p.received_bytes == h.frame_size) refl
        (not s.has_completed_keyframe && not (is_keyframe h.metadata)) refl
    where
      by_tests :
          (a : Bool)
          → ltb h.frame_size p.received_bytes ≡ a
          → (b : Bool) → (p.received_fragments == h.fragment_count) ≡ b
          → (c : Bool) → (p.received_bytes == h.frame_size) ≡ c
          → (d : Bool) → (not s.has_completed_keyframe && not (is_keyframe h.metadata)) ≡ d
          → Result G r.config r.last_completed_frame_id (settle s o h p now)
      by_tests true e b g c i d j =
          rw e
            (reject_frame-Result G r s h.metadata.frame_id (invalid_frame_size p.received_bytes) v)
      by_tests false e false g c i d j = rw (e, g) (with_request-Result G r s o now v f)
      by_tests false e true g false i d j =
          rw (e, g, i)
            (reject_frame-Result G r s h.metadata.frame_id (invalid_frame_size p.received_bytes) v)
      by_tests false e true g true i true j =
          rw (e, g, i, j) (drop_early-Result G r s o h p now v f m.held)
      by_tests false e true g true i false j =
          rw (e, g, i, j) (complete_frame-Result (ground (arith, g)))
