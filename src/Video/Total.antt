-- ===== src/Video/Total.antt =====
-- Reading a fragment never panics, and checks it.
use hbb_common.Common.{
  ℕ, ◌+◌, ◌≤◌, ◌<◌, ◌≡◌, ◌≢◌, refl, sym, ap, subst, ◌∙◌, arith, not, ◌||◌, Bool, true, false, List,
  length, ltb, leb, ◌==◌, Outcome, ok, err, panic, ◌>>=◌, ◌>>◌, reject_if, map_err,
  map_err-ne-panic, ok-injective, >>=-eq-ok, >>=-ne-panic, reject_if-ne-panic,
}
use hbb_common.Common.Bytes.{
  read, index, read_tail, read_in_range, index_in_range, read_tail_in_range,
}
use hbb_common.Protocol.Types.{MessageType, channel_mismatch}
use hbb_common.Protocol.Message.{ParsedMessage, type_eq, decode_message}
use hbb_common.Protocol.Decode.{decode_message-ne-panic}
use hbb_common.Video.Types.{
  VideoFrameMetadata, VideoReassemblyConfig, VideoDatagramError, protocol, invalid_fragment_count,
  invalid_fragment_index, invalid_frame_size, FragmentHeader, video_of_code,
  validate_frame_metadata, max_video_fragments,
}
use hbb_common.Video.Fragment.{decode_fragment_payload}
use hbb_common.Video.Push.{validate_fragment_header, checked_fragment, read_fragment}

video_of_code-ne-panic : (n : ℕ) → video_of_code n ≢ panic
unfolding video_of_code
video_of_code-ne-panic n h = ground arith

validate_frame_metadata-ne-panic : (m : VideoFrameMetadata) → validate_frame_metadata m ≢ panic
unfolding validate_frame_metadata
validate_frame_metadata-ne-panic m h = ground arith

validate_fragment_header-ne-panic :
    (config : VideoReassemblyConfig) (h : FragmentHeader)
    → validate_fragment_header config h ≢ panic
unfolding validate_fragment_header
validate_fragment_header-ne-panic config h e =
    ground (arith, validate_frame_metadata-ne-panic h.metadata)

read-ne-panic :
    (k off : ℕ) (xs : List ℕ) → off + k ≤ length xs → read {E = VideoDatagramError} k off xs ≢ panic
read-ne-panic k off xs h e = cc (sym (read_in_range {E = VideoDatagramError} k off xs h) ∙ e)

index-ne-panic :
    (off : ℕ) (xs : List ℕ) → off + 1 ≤ length xs → index {E = VideoDatagramError} off xs ≢ panic
index-ne-panic off xs h e = cc (sym (index_in_range {E = VideoDatagramError} off xs h) ∙ e)

read_tail-ne-panic :
    (off : ℕ) (xs : List ℕ) → off ≤ length xs → read_tail {E = VideoDatagramError} off xs ≢ panic
read_tail-ne-panic off xs h e = cc (sym (read_tail_in_range {E = VideoDatagramError} off xs h) ∙ e)

decode_fragment_payload-ne-panic : (payload : List ℕ) → decode_fragment_payload payload ≢ panic
unfolding decode_fragment_payload
decode_fragment_payload-ne-panic payload = reject_if-ne-panic (leb (length payload) 28) _ _ (λ e.
    let long : 28 < length payload = ground arith in
    >>=-ne-panic _ _ (read-ne-panic 2 14 payload (omega (arith, long))) (λ reserved.
      reject_if-ne-panic (not (reserved == 0)) _ _ (λ zero_field.
        >>=-ne-panic _ _ (read-ne-panic 8 0 payload (omega (arith, long))) (λ frame_id.
          >>=-ne-panic _ _ (index-ne-panic 12 payload (omega (arith, long))) (λ code.
            >>=-ne-panic _ _ (video_of_code-ne-panic code) (λ codec.
              >>=-ne-panic _ _ (index-ne-panic 13 payload (omega (arith, long))) (λ flags.
                >>=-ne-panic _ _ (read-ne-panic 8 16 payload (omega (arith, long))) (λ time.
                  >>=-ne-panic _ _ (read-ne-panic 2 8 payload (omega (arith, long))) (λ index.
                    >>=-ne-panic _ _ (read-ne-panic 2 10 payload (omega (arith, long))) (λ count.
                      >>=-ne-panic _ _ (read-ne-panic 4 24 payload (omega (arith, long))) (λ size.
                        >>=-ne-panic _ _ (read_tail-ne-panic 28 payload (omega (arith, long)))
                          (λ fragment. λ e. cc))))))))))))

-- No datagram makes the reading of a fragment panic.
pub read_fragment-ne-panic :
    (config : VideoReassemblyConfig) (datagram : List ℕ) → read_fragment config datagram ≢ panic
unfolding read_fragment checked_fragment
read_fragment-ne-panic config datagram =
    >>=-ne-panic _ _
      (map_err-ne-panic protocol (decode_message datagram) (decode_message-ne-panic datagram))
      (λ message. reject_if-ne-panic _ _ _ (λ e.
        >>=-ne-panic _ _ (decode_fragment_payload-ne-panic message.payload) (λ fragment.
          by_check (validate_fragment_header config fragment.0) fragment
            (validate_fragment_header-ne-panic config fragment.0))))
  where
    by_check :
        (o : Outcome VideoDatagramError (Unit {0})) (fragment : FragmentHeader × List ℕ)
        → o ≢ panic
        → ◌≢◌ {A = Outcome VideoDatagramError (FragmentHeader × List ℕ)} (o >> ok fragment) panic
    by_check (ok u) fragment h = λ e. cc
    by_check (err x) fragment h = λ e. cc
    by_check panic fragment h = λ e. h refl

-- What a fragment that is read has passed.
pub record Read (config : VideoReassemblyConfig) (datagram : List ℕ) (h : FragmentHeader)
    : Type 0 where
  pub filled : 0 < h.fragment_count
  pub index : h.fragment_index < h.fragment_count
  pub size : h.frame_size ≤ config.max_frame_bytes

validated-Read :
    (config : VideoReassemblyConfig) (datagram : List ℕ) (h : FragmentHeader)
    → validate_fragment_header config h ≡ ok tt
    → Read config datagram h
unfolding validate_fragment_header
validated-Read config datagram h e =
    by_tests (validate_frame_metadata h.metadata)
      (h.fragment_count == 0 || ltb max_video_fragments h.fragment_count) refl
      (leb h.fragment_count h.fragment_index) refl
      (h.frame_size == 0 || ltb config.max_frame_bytes h.frame_size) refl e
  where
    by_tests :
        (o : Outcome VideoDatagramError (Unit {0})) (a : Bool)
        → (h.fragment_count == 0 || ltb max_video_fragments h.fragment_count) ≡ a
        → (b : Bool) → leb h.fragment_count h.fragment_index ≡ b
        → (c : Bool) → (h.frame_size == 0 || ltb config.max_frame_bytes h.frame_size) ≡ c
        → (o
            >> (reject_if a (invalid_fragment_count h.fragment_count)
                >> (reject_if b (invalid_fragment_index h.fragment_index h.fragment_count)
                    >> reject_if c (invalid_frame_size h.frame_size))))
          ≡ ok tt
        → Read config datagram h
    by_tests (ok u) false f false g false i e = record {
      filled = ground arith;
      index = ground arith;
      size = ground arith;
    }
    by_tests (ok u) true f b g c i e = cc
    by_tests (ok u) false f true g c i e = cc
    by_tests (ok u) false f false g true i e = cc
    by_tests (err x) a f b g c i e = cc
    by_tests panic a f b g c i e = cc

pub read_fragment-Read :
    (config : VideoReassemblyConfig) (datagram : List ℕ) (h : FragmentHeader) (fragment : List ℕ)
    → read_fragment config datagram ≡ ok (h, fragment)
    → Read config datagram h
unfolding read_fragment checked_fragment
read_fragment-Read config datagram h fragment e =
    let (message, (d, g)) =
      >>=-eq-ok (map_err protocol (decode_message datagram)) (checked_fragment config) e in
    by_type (not (type_eq message.header.message_type MessageType.video_fragment)) message g
  where
    by_check :
        (o : Outcome VideoDatagramError (Unit {0})) (x : FragmentHeader × List ℕ)
        → validate_fragment_header config x.0 ≡ o
        → ◌≡◌ {A = Outcome VideoDatagramError (FragmentHeader × List ℕ)}
            (o >> ok x)
            (ok (h, fragment))
        → Read config datagram h
    by_check (ok u) x d g =
        subst (λ h. Read config datagram h) (ap (λ y. y.0) (ok-injective x (h, fragment) g))
          (validated-Read config datagram x.0 d)
    by_check (err y) x d g = cc
    by_check panic x d g = cc

    by_type :
        (t : Bool) (message : ParsedMessage)
        → (reject_if t
              (protocol (channel_mismatch message.header.message_type message.header.channel))
            >> (decode_fragment_payload message.payload >>= λ x.
                validate_fragment_header config x.0 >> ok x))
          ≡ ok (h, fragment)
        → Read config datagram h
    by_type true message g = cc
    by_type false message g =
        let (x, (d, i)) =
          >>=-eq-ok (decode_fragment_payload message.payload)
            (λ x. validate_fragment_header config x.0 >> ok x) g in
        by_check (validate_fragment_header config x.0) x refl i
