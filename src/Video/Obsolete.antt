-- ===== src/Video/Obsolete.antt =====
-- The frames up to the last complete one are dropped.
use hbb_common.Common.{
  ℕ, suc, ◌<◌, ◌≡◌, refl, sym, ap, subst, ◌∙◌, arith, Bool, true, false, List, [], ◌∷◌, leb,
  if◌then◌else◌,
}
use hbb_common.Common.OrderedMap.{delete, delete_first, From}
use hbb_common.Video.Types.{PendingFrame}
use hbb_common.Video.Reassembler.{
  VideoReassembler, drop_frame, ids_up_to, drop_ids, count_obsolete_fragment, count_obsolete_frames,
  drop_obsolete_pending,
}
use hbb_common.Video.Valid.{Known, IsValid, Shrunk, drop_frame-delete, drop_ids-Shrunk}

abbrev delete_all : List ℕ → List (ℕ × PendingFrame) → List (ℕ × PendingFrame)
delete_all [] es = es
delete_all (k ∷ ks) es = delete_all ks (delete k es)

drop_ids-delete_all :
    (G : Known) (low : ℕ) (ids : List ℕ) (r : VideoReassembler)
    → (drop_ids ids r).pending ≡ delete_all ids r.pending
unfolding drop_ids count_obsolete_fragment
drop_ids-delete_all G low [] r = refl
drop_ids-delete_all G low (k ∷ ids) r =
    drop_ids-delete_all G low ids (count_obsolete_fragment (drop_frame r k))
    ∙ ap (delete_all ids) (drop_frame-delete G low r k)

ids_none :
    (last n : ℕ) (es : List (ℕ × PendingFrame)) → last < n → From n es → ids_up_to last es ≡ []
unfolding ids_up_to
ids_none last n [] h a = refl
ids_none last n (e ∷ es) h a = ground (arith, ids_none last (suc e.0) es, a.0, a.1)

ids_up_to-cleared :
    (n last : ℕ) (es : List (ℕ × PendingFrame))
    → From n es
    → From (suc last) (delete_all (ids_up_to last es) es)
unfolding ids_up_to
ids_up_to-cleared n last [] a = tt
ids_up_to-cleared n last (e ∷ es) a =
    by_test (leb e.0 last) refl (ids_up_to-cleared (suc e.0) last es a.1)
  where
    by_test :
        (b : Bool)
        → leb e.0 last ≡ b
        → From (suc last) (delete_all (ids_up_to last es) es)
        → From
            (suc last)
            (delete_all (if b then e.0 ∷ ids_up_to last es else ids_up_to last es) (e ∷ es))
    by_test true h rest =
        subst (λ xs. From (suc last) (delete_all (ids_up_to last es) xs))
          (sym (delete_first e es a.1)) rest
    by_test false h rest = rw (ids_none last (suc e.0) es (ground arith) a.1) (ground arith)

-- After it every pending frame is later than the last complete one.
pub drop_obsolete_pending_lem :
    (G : Known) (n : ℕ) (r : VideoReassembler)
    → IsValid G n r
    → Shrunk G n r (drop_obsolete_pending r).1
      × IsValid G (suc r.last_completed_frame_id) (drop_obsolete_pending r).1
unfolding drop_obsolete_pending count_obsolete_frames
drop_obsolete_pending_lem G n r v =
    let ids : List ℕ = ids_up_to r.last_completed_frame_id r.pending in
    let s : Shrunk G n r (drop_ids ids r) = drop_ids-Shrunk G n ids r v in
    (
      s,
      record {
        ascending =
            subst (λ es. From (suc r.last_completed_frame_id) es)
              (sym (drop_ids-delete_all G n ids r))
              (ids_up_to-cleared n r.last_completed_frame_id r.pending v.ascending);
        frames = s.valid.frames;
        counted = s.valid.counted;
        few = s.valid.few;
        small = s.valid.small;
        memory = s.valid.memory;
        place = s.valid.place;
      },
    )
