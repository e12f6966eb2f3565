-- ===== src/Video/Delivery.antt =====
-- What a new reassembler delivers, and what it holds.
use hbb_common.Common.{
  ℕ, ◌-◌, ◌^◌, ◌≤◌, ◌<◌, ◌≡◌, ◌≢◌, refl, ap, subst, ◌∙◌, arith, ◌||◌, Bool, true, false, List, [],
  ◌∷◌, length, ltb, ◌==◌, Outcome, ok, err, panic, ◌>>◌, reject_if, ok-injective,
}
use hbb_common.Common.OrderedMap.{total}
use hbb_common.Video.Types.{
  VideoReassemblyConfig, VideoDatagramError, invalid_frame_size, memory_limit, CompleteVideoFrame,
  max_video_frame_bytes,
}
use hbb_common.Video.Reassembler.{VideoReassembler, fresh_reassembler, new_reassembler}
use hbb_common.Video.Push.{push}
use hbb_common.Video.Valid.{Known, frame_bytes}
use hbb_common.Video.Safe.{Answers, Result, IsOrdered}
use hbb_common.Video.Run.{
  push-Result, VideoCall, pushed, expired, run, AllGenuine, Frames, run-Frames,
}

pub new_reassembler-IsOrdered :
    (G : Known) (config : VideoReassemblyConfig) (r : VideoReassembler)
    → new_reassembler config ≡ ok r
    → config.max_memory_bytes < 2 ^ 64 - 1
    → IsOrdered G r × (r.config ≡ config) × (r.last_completed_frame_id ≡ 0)
unfolding new_reassembler total
new_reassembler-IsOrdered G config r e m =
    by_tests (config.max_frame_bytes == 0 || ltb max_video_frame_bytes config.max_frame_bytes)
      (config.max_pending_frames == 0 || ltb config.max_memory_bytes config.max_frame_bytes) refl e
  where
    fresh :
        (config.max_pending_frames == 0 || ltb config.max_memory_bytes config.max_frame_bytes)
          ≡ false
        → IsOrdered G (fresh_reassembler config)
    fresh h = record {
      ascending = tt;
      frames = tt;
      counted = refl;
      few = omega arith;
      small = omega arith;
      memory = m;
      place = ground arith;
    }

    by_tests :
        (a b : Bool)
        → (config.max_pending_frames == 0 || ltb config.max_memory_bytes config.max_frame_bytes) ≡ b
        → (reject_if a (invalid_frame_size config.max_frame_bytes)
            >> (reject_if b memory_limit >> ok (fresh_reassembler config)))
          ≡ ok r
        → IsOrdered G r × (r.config ≡ config) × (r.last_completed_frame_id ≡ 0)
    by_tests true b f e = cc
    by_tests false true f e = cc
    by_tests false false f e =
        let same : fresh_reassembler config ≡ r = ok-injective (fresh_reassembler config) r e in
        subst (λ r. IsOrdered G r × (r.config ≡ config) × (r.last_completed_frame_id ≡ 0)) same
          (fresh f, refl, refl)

-- Nothing is asked of the fragments.
abbrev any_fragment : Known
any_fragment k n i f = Unit {0}

any_calls-AllGenuine :
    (config : VideoReassemblyConfig) (calls : List VideoCall) → AllGenuine any_fragment config calls
any_calls-AllGenuine config [] = tt
any_calls-AllGenuine config (pushed datagram now ∷ calls) =
    (λ h f e. tt, any_calls-AllGenuine config calls)
any_calls-AllGenuine config (expired now ∷ calls) = any_calls-AllGenuine config calls

-- The identifiers of the frames ascend strictly from above a number.
abbrev pub AscendingIds : ℕ → List CompleteVideoFrame → Type 0
AscendingIds n [] = Unit {0}
AscendingIds n (f ∷ fs) = (n < f.metadata.frame_id) × AscendingIds f.metadata.frame_id fs

Frames-AscendingIds :
    (n : ℕ) (fs : List CompleteVideoFrame) → Frames any_fragment n fs → AscendingIds n fs
Frames-AscendingIds n [] a = tt
Frames-AscendingIds n (f ∷ fs) (a, c, d) = (a, Frames-AscendingIds f.metadata.frame_id fs d)

Answers-ne-panic :
    (G : Known) (n m : ℕ) (x : Outcome VideoDatagramError _) → Answers G n x m → x ≢ panic
Answers-ne-panic G n m (ok o) a e = cc
Answers-ne-panic G n m (err x) a e = cc
Answers-ne-panic G n m panic a e = a

module _ (config : VideoReassemblyConfig) (r : VideoReassembler)
    (made : new_reassembler config ≡ ok r) (memory : config.max_memory_bytes < 2 ^ 64 - 1)
    (calls : List VideoCall) where
  ran :
      let s = (run calls r).1 in
      IsOrdered any_fragment s × (s.config ≡ config) × Frames any_fragment 0 (run calls r).0
  ran =
      let (v, c, z) = new_reassembler-IsOrdered any_fragment config r made memory in
      let (w, d, fs) = run-Frames any_fragment calls r v (any_calls-AllGenuine r.config calls) in
      (w, d ∙ c, subst (λ n. Frames any_fragment n (run calls r).0) z fs)

  -- From a new reassembler whose memory limit is below 2^64 - 1, after any pushes of any byte strings
  -- and any expiries at any times, the next push does not panic, at most `max_pending_frames` frames
  -- are pending, and the count of their bytes is right and at most `max_memory_bytes`.
  pub run-safe :
      (datagram : List ℕ) (now : ℕ)
      → let s = (run calls r).1 in
        ((push s datagram now).0 ≢ panic)
        × (length s.pending ≤ config.max_pending_frames)
        × (s.pending_bytes ≡ total frame_bytes s.pending)
        × (s.pending_bytes ≤ config.max_memory_bytes)
  run-safe datagram now =
      let (v, c, fs) = ran in
      let s = (run calls r).1 in
      let p : Result any_fragment s.config s.last_completed_frame_id (push s datagram now) =
        push-Result any_fragment s datagram now v (λ h f e. tt) in
      (
        Answers-ne-panic any_fragment s.last_completed_frame_id
            (push s datagram now).1.last_completed_frame_id (push s datagram now).0 p.answers,
        omega (arith, v.few, ap (λ c. c.max_pending_frames) c),
        v.counted,
        omega (arith, v.small, ap (λ c. c.max_memory_bytes) c),
      )

  -- From a new reassembler whose memory limit is below 2^64 - 1, under any pushes and expiries, the
  -- frames that are delivered have strictly ascending identifiers.
  pub run-ascending : AscendingIds 0 (run calls r).0
  run-ascending = let (v, c, fs) = ran in Frames-AscendingIds 0 (run calls r).0 fs
