-- ===== src/Video/Original.antt =====
-- A frame that is fragmented, sent in any way, and reassembled.
use hbb_common.Common.{
  ℕ, ◌+◌, ◌-◌, ◌^◌, ◌<◌, ◌≡◌, refl, sym, ap, ◌∙◌, arith, Bool, true, false, ◌||◌, List, [], ◌∷◌,
  length, get_elem?, ltb, leb, ◌==◌, Outcome, ok, err, panic, ◌>>◌, reject_if,
}
use hbb_common.Protocol.Message.{header_len}
use hbb_common.Protocol.NewMessage.{IsSessionId}
use hbb_common.Video.Types.{
  VideoFrameMetadata, VideoReassemblyConfig, VideoDatagramError, invalid_fragment_count,
  invalid_frame_size, datagram_too_small, sequence_overflow, CompleteVideoFrame,
  validate_frame_metadata, video_fragment_header_len, max_video_frame_bytes, max_video_fragments,
}
use hbb_common.Video.Fragment.{chunks, div_ceil, encode_fragments, fragment_video_frame}
use hbb_common.Video.Reassembler.{VideoReassembler, new_reassembler}
use hbb_common.Video.Run.{Genuine, VideoCall, pushed, expired, run, AllGenuine}
use hbb_common.Video.Exact.{IsPiece, Exact, run-Exact}
use hbb_common.Video.Chunks.{join-chunks_from, length-chunks_from}
use hbb_common.Video.Sent.{Among, encode_fragments-pieces}

-- The payload that a datagram has room for.
abbrev pub room : ℕ → ℕ
room max_size = max_size - (header_len + video_fragment_header_len)

-- What `fragment_video_frame` tells by succeeding.
record Fragmented (session : List ℕ) (first time : ℕ) (metadata : VideoFrameMetadata)
    (frame : List ℕ) (max_size : ℕ) (datagrams : List (List ℕ)) : Type 0 where
  some_room : 0 < room max_size
  filled : 0 < length frame
  last : first + (div_ceil (length frame) (room max_size) - 1) < 2 ^ 64
  encoded :
      encode_fragments session first time metadata
        (div_ceil (length frame) (room max_size))
        (length frame)
        0
        (chunks (room max_size) frame)
      ≡ ok datagrams

fragment_video_frame-ok :
    (session : List ℕ) (first time : ℕ) (metadata : VideoFrameMetadata) (frame : List ℕ)
    (max_size : ℕ) (datagrams : List (List ℕ))
    → fragment_video_frame session first time metadata frame max_size ≡ ok datagrams
    → Fragmented session first time metadata frame max_size datagrams
unfolding fragment_video_frame
fragment_video_frame-ok session first time metadata frame max_size datagrams e =
    by_tests (validate_frame_metadata metadata)
      (length frame == 0 || ltb max_video_frame_bytes (length frame)) refl
      (leb max_size (header_len + video_fragment_header_len)) refl
      (count == 0 || ltb max_video_fragments count) (leb (2 ^ 64) (first + (count - 1))) refl e
  where
    count : ℕ
    count = div_ceil (length frame) (room max_size)

    by_tests :
        (o : Outcome VideoDatagramError (Unit {0})) (a : Bool)
        → (length frame == 0 || ltb max_video_frame_bytes (length frame)) ≡ a
        → (b : Bool) → leb max_size (header_len + video_fragment_header_len) ≡ b
        → (c d : Bool) → leb (2 ^ 64) (first + (count - 1)) ≡ d
        → (o
            >> (reject_if a (invalid_frame_size (length frame))
                >> (reject_if b (datagram_too_small max_size)
                    >> (reject_if c (invalid_fragment_count count)
                        >> (reject_if d sequence_overflow
                            >> encode_fragments session first time metadata count
                                (length frame)
                                0
                                (chunks (room max_size) frame))))))
          ≡ ok datagrams
        → Fragmented session first time metadata frame max_size datagrams
    by_tests (ok u) false p false q false false s e = record {
      some_room = ground arith;
      filled = ground arith;
      last = ground arith;
      encoded = e;
    }
    by_tests (err x) a p b q c d s e = cc
    by_tests panic a p b q c d s e = cc
    by_tests (ok u) true p b q c d s e = cc
    by_tests (ok u) false p true q c d s e = cc
    by_tests (ok u) false p false q true d s e = cc
    by_tests (ok u) false p false q false true s e = cc

-- A datagram is one of those of the frame that a source has under some identifier, at some size.
pub record IsSent (source : ℕ → List ℕ) (max_size : ℕ) (datagram : List ℕ) : Type 0 where
  pub session : List ℕ
  pub first : ℕ
  pub time : ℕ
  pub metadata : VideoFrameMetadata
  pub datagrams : List (List ℕ)
  pub is_session : IsSessionId session
  pub time_u64 : time < 2 ^ 64
  pub frame_id_u64 : metadata.frame_id < 2 ^ 64
  pub timestamp_u64 : metadata.presentation_timestamp_us < 2 ^ 64
  pub fragmented :
      fragment_video_frame session first time metadata (source metadata.frame_id) max_size
      ≡ ok datagrams
  pub among : Among datagram datagrams

abbrev pub AllSent : (ℕ → List ℕ) → ℕ → List VideoCall → Type 0
AllSent source max_size [] = Unit {0}
AllSent source max_size (pushed datagram now ∷ calls) =
    IsSent source max_size datagram × AllSent source max_size calls
AllSent source max_size (expired now ∷ calls) = AllSent source max_size calls

-- The payload of each frame is the source's frame of that identifier.
abbrev pub Original : (ℕ → List ℕ) → List CompleteVideoFrame → Type 0
Original source [] = Unit {0}
Original source (f ∷ fs) = (f.payload ≡ source f.metadata.frame_id) × Original source fs

module _ (source : ℕ → List ℕ) (max_size : ℕ) (config : VideoReassemblyConfig) where
  abbrev pieces : ℕ → List (List ℕ)
  pieces k = chunks (room max_size) (source k)

  IsSent-Genuine :
      (datagram : List ℕ)
      → IsSent source max_size datagram
      → Genuine (IsPiece pieces) config datagram
  IsSent-Genuine datagram s h fragment r =
      let k = s.metadata.frame_id in
      let f : Fragmented s.session s.first s.time s.metadata (source k) max_size s.datagrams =
        fragment_video_frame-ok s.session s.first s.time s.metadata (source k) max_size s.datagrams
          s.fragmented in
      let count : length (pieces k) ≡ div_ceil (length (source k)) (room max_size) =
        length-chunks_from (length (source k)) (room max_size) (source k) f.some_room f.filled
          (omega arith) in
      let (m, c, j, g) =
        encode_fragments-pieces s.session s.first s.time s.metadata
          (div_ceil (length (source k)) (room max_size)) (length (source k)) s.is_session s.time_u64
          s.frame_id_u64 s.timestamp_u64 config 0 (pieces k) s.datagrams datagram h fragment
          (omega (arith, count, f.last)) f.encoded s.among r in
      let same : k ≡ h.metadata.frame_id = ap (λ x. x.frame_id) (sym m) in
      let off : h.fragment_index ≡ h.fragment_index - 0 = omega arith in
      (
        ap (λ n. length (pieces n)) (sym same) ∙ count ∙ sym c,
        ap (λ n. get_elem? (pieces n) h.fragment_index) (sym same)
            ∙ ap (get_elem? (pieces k)) off
            ∙ g,
      )

  AllSent-AllGenuine :
      (calls : List VideoCall)
      → AllSent source max_size calls
      → AllGenuine (IsPiece pieces) config calls
  AllSent-AllGenuine [] s = tt
  AllSent-AllGenuine (pushed datagram now ∷ calls) s =
      (IsSent-Genuine datagram s.0, AllSent-AllGenuine calls s.1)
  AllSent-AllGenuine (expired now ∷ calls) s = AllSent-AllGenuine calls s

  Exact-Original :
      0 < room max_size → (fs : List CompleteVideoFrame) → Exact pieces fs → Original source fs
  Exact-Original pos [] e = tt
  Exact-Original pos (f ∷ fs) e = (
    e.0
        ∙ join-chunks_from (length (source f.metadata.frame_id)) (room max_size)
            (source f.metadata.frame_id) pos (omega arith),
    Exact-Original pos fs e.1,
  )

  -- When each datagram that is pushed is one of those that `fragment_video_frame` makes of the frame
  -- that a source has under its identifier, all for one datagram size with room for a payload, then
  -- each frame that a new reassembler delivers has exactly the source's bytes, whatever the order,
  -- the losses, the repetitions and the times of the pushes, and the expiries between them. (The
  -- reassembler's memory limit is below 2^64 - 1, and the fields are values of their Rust types.)
  pub run-Original :
      (r : VideoReassembler) (calls : List VideoCall)
      → new_reassembler config ≡ ok r
      → config.max_memory_bytes < 2 ^ 64 - 1
      → 0 < room max_size
      → AllSent source max_size calls
      → Original source (run calls r).0
  run-Original r calls made memory pos sent =
      Exact-Original pos (run calls r).0
        (run-Exact pieces config r calls made memory (AllSent-AllGenuine calls sent))
