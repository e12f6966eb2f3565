-- ===== src/Video/Run.antt =====
-- The calls of a reassembler in any order, and the frames that they deliver.
use hbb_common.Common.{
  ℕ, suc, ◌≤◌, ◌<◌, ◌≡◌, refl, sym, subst, ◌∙◌, arith, Option, none, some, List, [], ◌∷◌, Outcome,
  ok, err, panic,
}
use hbb_common.Video.Types.{
  VideoReassemblyConfig, VideoReassemblyOutcome, VideoDatagramError, CompleteVideoFrame,
  FragmentHeader,
}
use hbb_common.Video.Reassembler.{VideoReassembler, expire}
use hbb_common.Video.Push.{read_fragment, accept, received, push}
use hbb_common.Video.Valid.{Known, Shrunk, expire-Shrunk}
use hbb_common.Video.Safe.{Complete, Delivers, Answers, Result, IsOrdered, Shrunk-IsOrdered}
use hbb_common.Video.Opened.{accept-Result}
use hbb_common.Video.Total.{Read, read_fragment-ne-panic, read_fragment-Read}

-- The fragment of a datagram is known.
abbrev pub Genuine : Known → VideoReassemblyConfig → List ℕ → Type 0
Genuine G config datagram =
    (h : FragmentHeader) (fragment : List ℕ)
    → read_fragment config datagram ≡ ok (h, fragment)
    → G h.metadata.frame_id h.fragment_count h.fragment_index fragment

module _ (G : Known) where
  pub push-Result :
      (r : VideoReassembler) (datagram : List ℕ) (now : ℕ)
      → IsOrdered G r
      → Genuine G r.config datagram
      → Result G r.config r.last_completed_frame_id (push r datagram now)
  unfolding push received expire
  push-Result r datagram now v g = by_read (read_fragment r.config datagram) refl
    where
      s : VideoReassembler
      s = (expire r now).1

      shrunk : Shrunk G (suc r.last_completed_frame_id) r s
      shrunk = expire-Shrunk G (suc r.last_completed_frame_id) r now v

      by_read :
          (x : Outcome VideoDatagramError (FragmentHeader × List ℕ))
          → read_fragment r.config datagram ≡ x
          → Result G r.config r.last_completed_frame_id (received (expire r now) x now)
      by_read (ok (h, fragment)) e =
          let d : Read r.config datagram h = read_fragment-Read r.config datagram h fragment e in
          let o : VideoReassemblyOutcome = (expire r now).0 in
          subst (λ c. Result G c r.last_completed_frame_id (accept s o h fragment now))
            shrunk.config
            (subst (λ n. Result G s.config n (accept s o h fragment now)) shrunk.last
              (accept-Result G s h fragment now o (Shrunk-IsOrdered G r s shrunk) refl d.filled
                d.index (g h fragment e)))
      by_read (err e) f = record {
        valid = Shrunk-IsOrdered G r s shrunk;
        config = shrunk.config;
        answers = omega (arith, shrunk.last);
      }
      by_read panic f = absurd (read_fragment-ne-panic r.config datagram f)

pub data VideoCall : Type 0 where
  pushed : List ℕ → ℕ → VideoCall
  expired : ℕ → VideoCall

abbrev pub with_frame :
    Outcome VideoDatagramError VideoReassemblyOutcome
    → List CompleteVideoFrame
    → List CompleteVideoFrame
with_frame (ok o) frames = elim o.frame [ none ↦ frames | some f ↦ f ∷ frames ]
with_frame (err e) frames = frames
with_frame panic frames = frames

-- The calls in turn, with the frames that they deliver.
abbrev pub run : List VideoCall → VideoReassembler → List CompleteVideoFrame × VideoReassembler
run [] r = ([], r)
run (pushed datagram now ∷ calls) r =
    let (answer, next) = push r datagram now in
    let (frames, last) = run calls next in (with_frame answer frames, last)
run (expired now ∷ calls) r = run calls (expire r now).1

abbrev pub AllGenuine : Known → VideoReassemblyConfig → List VideoCall → Type 0
AllGenuine G config [] = Unit {0}
AllGenuine G config (pushed datagram now ∷ calls) =
    Genuine G config datagram × AllGenuine G config calls
AllGenuine G config (expired now ∷ calls) = AllGenuine G config calls

-- The identifiers of the frames ascend strictly above a number, and the frames are complete.
abbrev pub Frames : Known → ℕ → List CompleteVideoFrame → Type 0
Frames G n [] = Unit {0}
Frames G n (f ∷ fs) = (n < f.metadata.frame_id) × Complete G f × Frames G f.metadata.frame_id fs

Frames-mono :
    (G : Known) (m n : ℕ) (fs : List CompleteVideoFrame) → m ≤ n → Frames G n fs → Frames G m fs
Frames-mono G m n [] h a = tt
Frames-mono G m n (f ∷ fs) h (a, c, d) = (omega arith, c, d)

delivered-Frames :
    (G : Known) (n m : ℕ) (o : Option CompleteVideoFrame) (fs : List CompleteVideoFrame)
    → Delivers G n o m
    → Frames G m fs
    → Frames G n (elim o as (λ x. List CompleteVideoFrame) [ none ↦ fs | some f ↦ f ∷ fs ])
delivered-Frames G n m none fs d a = Frames-mono G n m fs d a
delivered-Frames G n m (some f) fs (later, same, c) a =
    (later, c, subst (λ k. Frames G k fs) (sym same) a)

with_frame-Frames :
    (G : Known) (n m : ℕ) (answer : Outcome VideoDatagramError VideoReassemblyOutcome)
    (fs : List CompleteVideoFrame)
    → Answers G n answer m
    → Frames G m fs
    → Frames G n (with_frame answer fs)
with_frame-Frames G n m (ok o) fs d a = delivered-Frames G n m o.frame fs d a
with_frame-Frames G n m (err e) fs d a = Frames-mono G n m fs d a
with_frame-Frames G n m panic fs d a = absurd d

module _ (G : Known) where
  pub run-Frames :
      (calls : List VideoCall) (r : VideoReassembler)
      → IsOrdered G r
      → AllGenuine G r.config calls
      → IsOrdered G (run calls r).1
        × ((run calls r).1.config ≡ r.config)
        × Frames G r.last_completed_frame_id (run calls r).0
  run-Frames [] r v g = (v, refl, tt)
  run-Frames (pushed datagram now ∷ calls) r v g =
      let p : Result G r.config r.last_completed_frame_id (push r datagram now) =
        push-Result G r datagram now v g.0 in
      let next = (push r datagram now).1 in
      let (w, c, fs) =
        run-Frames calls next p.valid (subst (λ c. AllGenuine G c calls) (sym p.config) g.1) in
      (
        w,
        c ∙ p.config,
        with_frame-Frames G r.last_completed_frame_id next.last_completed_frame_id
            (push r datagram now).0 (run calls next).0 p.answers fs,
      )
  run-Frames (expired now ∷ calls) r v g =
      let s = expire-Shrunk G (suc r.last_completed_frame_id) r now v in
      let next = (expire r now).1 in
      let (w, c, fs) =
        run-Frames calls next (Shrunk-IsOrdered G r next s)
          (subst (λ c. AllGenuine G c calls) (sym s.config) g) in
      (w, c ∙ s.config, subst (λ n. Frames G n (run calls next).0) s.last fs)
