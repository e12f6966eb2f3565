-- ===== src/Video/Exact.antt =====
-- The payloads of the frames that are delivered.
use hbb_common.Common.{
  ℕ, zero, suc, ◌-◌, ◌^◌, ◌<◌, ◌≡◌, refl, sym, ap, subst, ◌∙◌, arith, Option, none, some, List, [],
  ◌∷◌, ◌++◌, length, take, drop, get_elem?, take-all, ok,
}
use hbb_common.Video.Types.{VideoReassemblyConfig, CompleteVideoFrame}
use hbb_common.Video.Reassembler.{VideoReassembler, new_reassembler}
use hbb_common.Video.Valid.{Known, Slots, present}
use hbb_common.Video.Slots.{payload_of, present-le-length}
use hbb_common.Video.Safe.{Complete}
use hbb_common.Video.Run.{VideoCall, run, AllGenuine, Frames, run-Frames}
use hbb_common.Video.Delivery.{new_reassembler-IsOrdered}

unfoldable pub join : List (List ℕ) → List ℕ
join [] = []
join (p ∷ ps) = p ++ join ps

-- A fragment is the piece of its frame at its index.
abbrev pub IsPiece : (ℕ → List (List ℕ)) → Known
IsPiece pieces k n i f = (length (pieces k) ≡ n) × (get_elem? (pieces k) i ≡ some f)

drop-get_elem? :
    (ps : List (List ℕ)) (i : ℕ) (f : List ℕ)
    → get_elem? ps i ≡ some f
    → drop i ps ≡ f ∷ drop (suc i) ps
drop-get_elem? [] i f h = cc
drop-get_elem? (p ∷ ps) zero f h = cc
drop-get_elem? (p ∷ ps) (suc i) f h = drop-get_elem? ps i f h

payload_of-join :
    (ps : List (List ℕ)) (i n : ℕ) (fs : List (Option (List ℕ)))
    → Slots (λ j f. (length ps ≡ n) × (get_elem? ps j ≡ some f)) i fs
    → present fs ≡ length fs
    → payload_of fs ≡ join (take (length fs) (drop i ps))
unfolding present payload_of join
payload_of-join ps i n [] s h = refl
payload_of-join ps i n (none ∷ fs) s h = absurd (omega (arith, h, present-le-length fs))
payload_of-join ps i n (some f ∷ fs) s h =
    rw (drop-get_elem? ps i f s.0.1)
      (ap (λ xs. f ++ xs) (payload_of-join ps (suc i) n fs s.1 (omega (arith, h))))

Complete-join :
    (pieces : ℕ → List (List ℕ)) (f : CompleteVideoFrame)
    → Complete (IsPiece pieces) f
    → f.payload ≡ join (pieces f.metadata.frame_id)
unfolding present
Complete-join pieces f c =
    let ps = pieces f.metadata.frame_id in
    c.joins
    ∙ payload_of-join ps 0 (length c.fragments) c.fragments c.known c.full
    ∙ ap join (take-all (length c.fragments) ps (counted c.fragments 0 c.known c.full c.filled))
  where
    counted :
        (fs : List (Option (List ℕ))) (i : ℕ) {n : ℕ}
        → Slots
            (λ j g.
              (length (pieces f.metadata.frame_id) ≡ n)
              × (get_elem? (pieces f.metadata.frame_id) j ≡ some g))
            i
            fs
        → present fs ≡ length fs
        → 0 < length fs
        → length (pieces f.metadata.frame_id) ≡ n
    counted [] i s h l = absurd (omega arith)
    counted (none ∷ fs) i s h l = absurd (omega (arith, h, present-le-length fs))
    counted (some g ∷ fs) i s h l = s.0.0

-- Each frame's payload is the join of the pieces of that identifier.
abbrev pub Exact : (ℕ → List (List ℕ)) → List CompleteVideoFrame → Type 0
Exact pieces [] = Unit {0}
Exact pieces (f ∷ fs) = (f.payload ≡ join (pieces f.metadata.frame_id)) × Exact pieces fs

Frames-Exact :
    (pieces : ℕ → List (List ℕ)) (n : ℕ) (fs : List CompleteVideoFrame)
    → Frames (IsPiece pieces) n fs
    → Exact pieces fs
Frames-Exact pieces n [] a = tt
Frames-Exact pieces n (f ∷ fs) (a, c, d) =
    (Complete-join pieces f c, Frames-Exact pieces f.metadata.frame_id fs d)

-- When every fragment that is pushed is the piece of its frame at its index, of as many as the
-- fragment tells, then each frame that a new reassembler delivers has the join of its pieces as its
-- payload, whatever the order, the losses, the repetitions and the times of the pushes, and the
-- expiries between them. (The reassembler's memory limit is below 2^64 - 1.)
pub run-Exact :
    (pieces : ℕ → List (List ℕ)) (config : VideoReassemblyConfig) (r : VideoReassembler)
    (calls : List VideoCall)
    → new_reassembler config ≡ ok r
    → config.max_memory_bytes < 2 ^ 64 - 1
    → AllGenuine (IsPiece pieces) config calls
    → Exact pieces (run calls r).0
run-Exact pieces config r calls made memory g =
    let (v, c, z) = new_reassembler-IsOrdered (IsPiece pieces) config r made memory in
    let (w, d, fs) =
      run-Frames (IsPiece pieces) calls r v
        (subst (λ c. AllGenuine (IsPiece pieces) c calls) (sym c) g) in
    Frames-Exact pieces r.last_completed_frame_id (run calls r).0 fs
