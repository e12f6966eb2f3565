-- ===== src/Video/Sent.antt =====
-- The datagrams of a frame, as a reassembler reads them.
use hbb_common.Common.{
  ℕ, suc, ◌+◌, ◌-◌, ◌^◌, ◌≤◌, ◌<◌, ◌≡◌, ◌⊎◌, inl, inr, refl, sym, ap, subst, ◌∙◌, arith, Bool, true,
  false, some, List, [], ◌∷◌, length, get_elem?, leb, ◌==◌, Outcome, ok, err, panic, ◌>>◌,
  reject_if, map_err, ok-injective, >>=-eq-ok,
}
use hbb_common.Protocol.Types.{MessageType, ProtocolError, type_code}
use hbb_common.Protocol.Message.{new_message}
use hbb_common.Protocol.NewMessage.{IsSessionId, decode_message-new_message}
use hbb_common.Video.Types.{
  VideoFrameMetadata, VideoReassemblyConfig, VideoDatagramError, protocol, empty_fragment,
  invalid_fragment_index, invalid_fragment_count, invalid_frame_size, FragmentHeader,
}
use hbb_common.Video.Fragment.{
  fragment_bytes, encode_fragment_payload, decode_fragment_payload, encode_fragments,
}
use hbb_common.Video.Push.{validate_fragment_header, checked_fragment, read_fragment}
use hbb_common.Video.RoundTrip.{decode_fragment_payload-fragment_bytes}

-- A datagram is one of a list.
abbrev pub Among : List ℕ → List (List ℕ) → Type 0
Among d [] = ⊥
Among d (x ∷ xs) = (d ≡ x) ⊎ Among d xs

-- What `encode_fragment_payload` tells by succeeding.
encode_fragment_payload-ok :
    (h : FragmentHeader) (fragment payload : List ℕ)
    → encode_fragment_payload h fragment ≡ ok payload
    → (fragment_bytes h fragment ≡ payload)
      × (0 < length fragment)
      × (h.fragment_index < 2 ^ 16)
      × (h.fragment_count < 2 ^ 16)
      × (h.frame_size < 2 ^ 32)
unfolding encode_fragment_payload
encode_fragment_payload-ok h fragment payload e =
    by_tests (length fragment == 0) refl (leb (2 ^ 16) h.fragment_index) refl
      (leb (2 ^ 16) h.fragment_count) refl (leb (2 ^ 32) h.frame_size) refl e
  where
    by_tests :
        (a : Bool)
        → (length fragment == 0) ≡ a
        → (b : Bool) → leb (2 ^ 16) h.fragment_index ≡ b
        → (c : Bool) → leb (2 ^ 16) h.fragment_count ≡ c
        → (d : Bool) → leb (2 ^ 32) h.frame_size ≡ d
        → (reject_if a empty_fragment
            >> (reject_if b (invalid_fragment_index h.fragment_index h.fragment_count)
                >> (reject_if c (invalid_fragment_count h.fragment_count)
                    >> (reject_if d (invalid_frame_size h.frame_size)
                        >> ok (fragment_bytes h fragment)))))
          ≡ ok payload
        → (fragment_bytes h fragment ≡ payload)
          × (0 < length fragment)
          × (h.fragment_index < 2 ^ 16)
          × (h.fragment_count < 2 ^ 16)
          × (h.frame_size < 2 ^ 32)
    by_tests false p false q false r false s e = (
      ok-injective (fragment_bytes h fragment) payload e,
      ground arith,
      ground arith,
      ground arith,
      ground arith,
    )
    by_tests true p b q c r d s e = cc
    by_tests false p true q c r d s e = cc
    by_tests false p false q true r d s e = cc
    by_tests false p false q false r true s e = cc

module _ (session : List ℕ) (first time : ℕ) (metadata : VideoFrameMetadata) (count size : ℕ)
    (is_session : IsSessionId session) (time_u64 : time < 2 ^ 64)
    (frame_id_u64 : metadata.frame_id < 2 ^ 64)
    (timestamp_u64 : metadata.presentation_timestamp_us < 2 ^ 64)
    (config : VideoReassemblyConfig) where
  abbrev header : ℕ → FragmentHeader
  header i = record {
    metadata = metadata;
    fragment_index = i;
    fragment_count = count;
    frame_size = size;
  }

  -- The datagram of a fragment reads as nothing but the fragment.
  read_fragment-datagram :
      (i : ℕ) (fragment payload datagram : List ℕ) (x : FragmentHeader × List ℕ)
      → first + i < 2 ^ 64
      → encode_fragment_payload (header i) fragment ≡ ok payload
      → new_message MessageType.video_fragment 0 session (first + i) time payload ≡ ok datagram
      → read_fragment config datagram ≡ ok x
      → (header i, fragment) ≡ x
  unfolding read_fragment checked_fragment type_code
  read_fragment-datagram i fragment payload datagram x l e m r =
      let (same, filled, index, total, bytes) =
        encode_fragment_payload-ok (header i) fragment payload e in
      let message =
        decode_message-new_message MessageType.video_fragment 0 session (first + i) time payload
          datagram (omega arith) is_session l time_u64 m in
      let decoded : decode_fragment_payload payload ≡ ok (header i, fragment) =
        ap decode_fragment_payload (sym same)
        ∙ decode_fragment_payload-fragment_bytes (header i)
            (record {
              frame_id_u64 = frame_id_u64;
              timestamp_u64 = timestamp_u64;
              index_u16 = index;
              count_u16 = total;
              size_u32 = bytes;
            })
            fragment filled in
      let read : read_fragment config datagram
          ≡ (validate_fragment_header config (header i) >> ok (header i, fragment)) =
        rw (message, decoded) refl in
      by_check (validate_fragment_header config (header i)) (sym read ∙ r)
    where
      by_check :
          (o : Outcome VideoDatagramError (Unit {0}))
          → ◌≡◌ {A = Outcome VideoDatagramError (FragmentHeader × List ℕ)}
              (o >> ok (header i, fragment))
              (ok x)
          → (header i, fragment) ≡ x
      by_check (ok u) g = ok-injective (header i, fragment) x g
      by_check (err y) g = cc
      by_check panic g = cc

  -- A fragment that is read from one of the datagrams is the piece at its index.
  pub encode_fragments-pieces :
      (i : ℕ) (fragments datagrams : List (List ℕ)) (datagram : List ℕ) (h : FragmentHeader)
      (fragment : List ℕ)
      → first + (i + length fragments) ≤ 2 ^ 64
      → encode_fragments session first time metadata count size i fragments ≡ ok datagrams
      → Among datagram datagrams
      → read_fragment config datagram ≡ ok (h, fragment)
      → (h.metadata ≡ metadata)
        × (h.fragment_count ≡ count)
        × (i ≤ h.fragment_index)
        × (get_elem? fragments (h.fragment_index - i) ≡ some fragment)
  unfolding encode_fragments
  encode_fragments-pieces i [] datagrams datagram h fragment l e a r =
      absurd (subst (λ ds. Among datagram ds) (sym (ok-injective [] datagrams e)) a)
  encode_fragments-pieces i (piece ∷ pieces) datagrams datagram h fragment l e a r =
      let (payload, (p, e1)) = >>=-eq-ok (encode_fragment_payload (header i) piece) _ e in
      let (d, (q, e2)) =
        >>=-eq-ok
          (map_err protocol
            (new_message MessageType.video_fragment 0 session (first + i) time payload))
          _ e1 in
      let (ds, (w, e3)) =
        >>=-eq-ok (encode_fragments session first time metadata count size (i + 1) pieces)
          (λ ds. ok (d ∷ ds)) e2 in
      by_place payload d ds p (map_err-ok _ d q)
        (subst (λ ds. Among datagram ds) (sym (ok-injective (d ∷ ds) datagrams e3)) a)
        (λ b.
          encode_fragments-pieces (i + 1) pieces ds datagram h fragment (omega (arith, l)) w b r)
    where
      Piece : ℕ → List (List ℕ) → Type 0
      Piece j ps =
          (h.metadata ≡ metadata)
          × (h.fragment_count ≡ count)
          × (j ≤ h.fragment_index)
          × (get_elem? ps (h.fragment_index - j) ≡ some fragment)

      map_err-ok :
          (o : Outcome ProtocolError (List ℕ)) (d : List ℕ) → map_err protocol o ≡ ok d → o ≡ ok d
      map_err-ok (ok x) d g = ap ok (ok-injective x d g)
      map_err-ok (err x) d g = cc
      map_err-ok panic d g = cc

      by_place :
          (payload d : List ℕ) (ds : List (List ℕ))
          → encode_fragment_payload (header i) piece ≡ ok payload
          → new_message MessageType.video_fragment 0 session (first + i) time payload ≡ ok d
          → Among datagram (d ∷ ds)
          → (Among datagram ds → Piece (i + 1) pieces)
          → Piece i (piece ∷ pieces)
      by_place payload d ds p q (inl same) rest =
          let found : ◌≡◌ {A = FragmentHeader × List ℕ} (header i, piece) (h, fragment) =
            read_fragment-datagram i piece payload datagram (h, fragment) (omega (arith, l)) p
              (q ∙ ap ok (sym same)) r in
          let index : i ≡ h.fragment_index =
            ap (λ (x : FragmentHeader × List ℕ). x.0.fragment_index) found in
          let start : h.fragment_index - i ≡ 0 = omega (arith, index) in
          (
            ap (λ (x : FragmentHeader × List ℕ). x.0.metadata) (sym found),
            ap (λ (x : FragmentHeader × List ℕ). x.0.fragment_count) (sym found),
            omega (arith, index),
            ap (get_elem? (piece ∷ pieces)) start
                ∙ ap some (ap (λ (x : FragmentHeader × List ℕ). x.1) found),
          )
      by_place payload d ds p q (inr b) rest =
          let (m, c, j, g) = rest b in
          let next : h.fragment_index - i ≡ suc (h.fragment_index - (i + 1)) = omega (arith, j) in
          (m, c, omega (arith, j), ap (get_elem? (piece ∷ pieces)) next ∙ g)
