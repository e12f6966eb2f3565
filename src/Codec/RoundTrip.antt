-- ===== src/Codec/RoundTrip.antt =====
-- `decode` after `encode_frame`.
use hbb_common.Common.{
  ℕ, ◌≤◌, ◌<◌, ◌≡◌, refl, ◌∙◌, arith, false, some, List, ◌++◌, length, append_assoc, le→not_ltb,
  lt→ltb, take-append, drop-append, length-append, ok, err,
}
use hbb_common.Codec.{
  BytesCodec, overflow, too_big_packet, encode_frame, decode_head, decode, decode_body, head,
  after_head,
}
use hbb_common.Codec.Head.{
  head_bytes, encode_head_lem, encode_head_overflow, decode_head-head_bytes, bounded,
}

abbrev pub frame_of : List ℕ → List ℕ
frame_of packet = head_bytes (length packet) ++ packet

encode_frame_lem :
    (packet buf : List ℕ)
    → length packet ≤ 0x3fff_ffff
    → encode_frame false packet buf ≡ ok (buf ++ frame_of packet)
unfolding encode_frame
encode_frame_lem packet buf h = rw (encode_head_lem (length packet) h)

decode_body-append :
    (c : BytesCodec) (packet rest : List ℕ)
    → decode_body c (length packet) (packet ++ rest)
      ≡ record { result = ok (some packet); codec = record c { state = head }; src = rest }
unfolding decode_body
decode_body-append c packet rest = ground (
  arith,
  length-append packet rest,
  take-append (length packet) packet rest refl,
  drop-append (length packet) packet rest refl,
)

decode_waiting :
    (c : BytesCodec) (src : List ℕ)
    → c.raw ≡ false
    → c.state ≡ head
    → decode c src ≡ after_head c src (decode_head c src)
unfolding decode
decode_waiting c src hr hs = ground arith

decode_head_frame :
    (c : BytesCodec) (packet rest : List ℕ)
    → length packet ≤ 0x3fff_ffff
    → decode_head c (frame_of packet ++ rest) ≡ bounded c (length packet) (packet ++ rest)
decode_head_frame c packet rest h =
    rw (append_assoc (head_bytes (length packet)) packet rest)
      (decode_head-head_bytes c (length packet) (packet ++ rest) h)

decode_frame :
    (c : BytesCodec) (packet rest : List ℕ)
    → c.raw ≡ false
    → c.state ≡ head
    → length packet ≤ 0x3fff_ffff
    → length packet ≤ c.max_packet_length
    → decode c (frame_of packet ++ rest)
      ≡ record { result = ok (some packet); codec = record c { state = head }; src = rest }
unfolding decode
decode_frame c packet rest hr hs h hm =
    decode_waiting c (frame_of packet ++ rest) hr hs
    ∙ rw (decode_head_frame c packet rest h)
        (rw (le→not_ltb c.max_packet_length (length packet) hm) (decode_body-append c packet rest))

-- A packet of at most 0x3fff_ffff bytes is encoded, behind whatever the buffer holds, and a decoder
-- that waits for a head and allows its length gives it back, at the first call, with the bytes that
-- follow the frame left in the buffer; the decoder waits for a head again.
pub decode-encode_frame :
    (c : BytesCodec) (buf packet rest : List ℕ)
    → c.raw ≡ false
    → c.state ≡ head
    → length packet ≤ 0x3fff_ffff
    → length packet ≤ c.max_packet_length
    → (frame : List ℕ) × (encode_frame false packet buf ≡ ok (buf ++ frame))
      × (decode c (frame ++ rest)
          ≡ record { result = ok (some packet); codec = record c { state = head }; src = rest })
decode-encode_frame c buf packet rest hr hs h hm =
    (frame_of packet, encode_frame_lem packet buf h, decode_frame c packet rest hr hs h hm)

-- A packet over the decoder's limit: the encoder refuses it if it is longer than 0x3fff_ffff bytes, and
-- leaves an error; else it writes the frame, and the decoder refuses it and keeps its state and the
-- whole buffer.
pub oversized_packet :
    (c : BytesCodec) (buf packet rest : List ℕ)
    → c.raw ≡ false
    → c.state ≡ head
    → c.max_packet_length < length packet
    → (0x3fff_ffff < length packet → encode_frame false packet buf ≡ err overflow)
      × (length packet ≤ 0x3fff_ffff
          → (encode_frame false packet buf ≡ ok (buf ++ frame_of packet))
            × (decode c (frame_of packet ++ rest)
                ≡ record { result = err too_big_packet; codec = c; src = frame_of packet ++ rest }))
unfolding decode encode_frame
oversized_packet c buf packet rest hr hs hm = (
  λ h. rw (encode_head_overflow (length packet) h),
  λ h. (
    rw (encode_head_lem (length packet) h),
    decode_waiting c (frame_of packet ++ rest) hr hs
        ∙ rw (decode_head_frame c packet rest h)
            (rw (lt→ltb c.max_packet_length (length packet) hm)),
  ),
)
