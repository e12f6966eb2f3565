-- ===== src/Video/Safe.antt =====
-- What the second half of a push comes to.
use hbb_common.Common.{
  ℕ, suc, ◌≤◌, ◌<◌, ◌≡◌, refl, sym, subst, ◌∙◌, arith, Bool, true, false, Option, none, some, List,
  length, ltb, Outcome, ok, err, panic,
}
use hbb_common.Common.OrderedMap.{get}
use hbb_common.Video.Types.{
  VideoReassemblyConfig, VideoReassemblyOutcome, VideoDatagramError, CompleteVideoFrame,
  FragmentHeader, PendingFrame,
}
use hbb_common.Video.Reassembler.{
  VideoReassembler, record_drops, should_request_keyframe, take_frame, drop_frame,
  drop_obsolete_pending,
}
use hbb_common.Video.Settle.{
  Pushed, malformed, reject_frame, with_request, drop_early, count_obsolete,
}
use hbb_common.Video.Valid.{
  Known, Slots, present, IsValid, Shrunk, Shrunk-refl, Shrunk-trans, take_frame-IsValid,
  drop_frame-Shrunk, should_request_keyframe-Shrunk,
}
use hbb_common.Video.Slots.{payload_of}

-- A complete frame is the join of known fragments, all of which are present.
pub record Complete (G : Known) (f : CompleteVideoFrame) : Type 0 where
  pub fragments : List (Option (List ℕ))
  pub full : present fragments ≡ length fragments
  pub known : Slots (G f.metadata.frame_id (length fragments)) 0 fragments
  pub joins : f.payload ≡ payload_of fragments
  pub filled : 0 < length fragments

-- What a push returns, between the last complete frames before it and after it.
abbrev pub Delivers : Known → ℕ → Option CompleteVideoFrame → ℕ → Type 0
Delivers G n none m = n ≤ m
Delivers G n (some f) m = (n < f.metadata.frame_id) × (f.metadata.frame_id ≡ m) × Complete G f

abbrev pub Answers : Known → ℕ → Outcome VideoDatagramError VideoReassemblyOutcome → ℕ → Type 0
Answers G n (ok o) m = Delivers G n o.frame m
Answers G n (err e) m = n ≤ m
Answers G n panic m = ⊥

abbrev pub IsOrdered : Known → VideoReassembler → Type 0
IsOrdered G r = IsValid G (suc r.last_completed_frame_id) r

pub record Result (G : Known) (given_config : VideoReassemblyConfig) (n : ℕ) (p : Pushed)
    : Type 0 where
  pub valid : IsOrdered G p.1
  pub config : p.1.config ≡ given_config
  pub answers : Answers G n p.0 p.1.last_completed_frame_id

module _ (G : Known) where
  pub Shrunk-IsOrdered :
      (r s : VideoReassembler) → Shrunk G (suc r.last_completed_frame_id) r s → IsOrdered G s
  Shrunk-IsOrdered r s h = subst (λ n. IsValid G (suc n) s) (sym h.last) h.valid

  pub with_request-Result :
      (r s : VideoReassembler) (o : VideoReassemblyOutcome) (now : ℕ)
      → Shrunk G (suc r.last_completed_frame_id) r s
      → o.frame ≡ none
      → Result G r.config r.last_completed_frame_id (with_request o (should_request_keyframe s now))
  with_request-Result r s o now h f =
      let t : Shrunk G (suc r.last_completed_frame_id) r (should_request_keyframe s now).1 =
        should_request_keyframe-Shrunk G (suc r.last_completed_frame_id) r s now h in
      record {
        valid = Shrunk-IsOrdered r (should_request_keyframe s now).1 t;
        config = t.config;
        answers = rw f (omega (arith, t.last));
      }

  pub reject_frame-Result :
      (r s : VideoReassembler) (k : ℕ) (e : VideoDatagramError)
      → Shrunk G (suc r.last_completed_frame_id) r s
      → Result G r.config r.last_completed_frame_id (reject_frame s k e)
  unfolding reject_frame malformed
  reject_frame-Result r s k e h =
      let t : Shrunk G (suc r.last_completed_frame_id) r (drop_frame s k) =
        Shrunk-trans G (suc r.last_completed_frame_id) r s (drop_frame s k) h
          (drop_frame-Shrunk G (suc r.last_completed_frame_id) s k h.valid) in
      record {
        valid = Shrunk-IsOrdered r (drop_frame s k) t;
        config = t.config;
        answers = omega (arith, t.last);
      }

  pub drop_early-Result :
      (r s : VideoReassembler) (o : VideoReassemblyOutcome) (h : FragmentHeader) (p : PendingFrame)
      (now : ℕ)
      → Shrunk G (suc r.last_completed_frame_id) r s
      → o.frame ≡ none
      → get h.metadata.frame_id s.pending ≡ some p
      → Result G r.config r.last_completed_frame_id (drop_early s o h p now)
  unfolding drop_early record_drops take_frame
  drop_early-Result r s o h p now v f e =
      with_request-Result r _ _ now
        (record {
          valid =
              take_frame-IsValid G (suc r.last_completed_frame_id) s h.metadata.frame_id p v.valid
                e;
          config = v.config;
          last = v.last;
          keyframe = v.keyframe;
        })
        f

  count_obsolete-Shrunk :
      (low n : ℕ) (r : VideoReassembler) (o : VideoReassemblyOutcome) (now : ℕ)
      → IsValid G low r
      → Shrunk G low r (count_obsolete o (n, r) now).1
  unfolding count_obsolete record_drops
  count_obsolete-Shrunk low n r o now v = by_test (ltb 0 n) refl
    where
      by_test : (b : Bool) → ltb 0 n ≡ b → Shrunk G low r (count_obsolete o (n, r) now).1
      by_test true h =
          rw h
            (should_request_keyframe-Shrunk G low r (record_drops n r) now (Shrunk-refl G low r v))
      by_test false h = rw h (Shrunk-refl G low r v)

  -- The state of a reassembler from which a frame that is complete was taken.
  pub completed-IsValid :
      (r : VideoReassembler) (id : ℕ) (o : VideoReassemblyOutcome) (now : ℕ)
      → IsValid G (suc id) (drop_obsolete_pending r).1
      → r.last_completed_frame_id ≡ id
      → (drop_obsolete_pending r).1.config ≡ r.config
      → (drop_obsolete_pending r).1.last_completed_frame_id ≡ r.last_completed_frame_id
      → let s = (count_obsolete o (drop_obsolete_pending r) now).1 in
        IsValid G (suc id) s × (s.config ≡ r.config) × (s.last_completed_frame_id ≡ id)
  completed-IsValid r id o now v e c l =
      let t =
        count_obsolete-Shrunk (suc id) (drop_obsolete_pending r).0 (drop_obsolete_pending r).1 o now
          v in
      (t.valid, t.config ∙ c, t.last ∙ l ∙ e)
