-- ===== src/Codec/Tests.antt =====
-- Runs of the codec, and its theorems at concrete inputs.
use hbb_common.Common.{
  ◌≡◌, ◌≢◌, refl, arith, ◌++◌, false, some, none, List, [], ◌∷◌, ℕ, ok, err, panic, ◌<◌, ◌≤◌,
}
use hbb_common.Codec.{
  BytesCodec, head, body, new, set_raw, set_max_packet_length, encode_frame, decode, overflow,
  too_big_packet,
}
use hbb_common.Codec.RoundTrip.{frame_of, decode-encode_frame, oversized_packet}
use hbb_common.Codec.Stream.{decode_resume, decode_append, decode-ne-panic}
use hbb_common.Codec.Limit.{Within, Bounded, decode-limit}

abbrev small : BytesCodec
small = record { state = head; raw = false; max_packet_length = 16 }

abbrev waiting : BytesCodec
waiting = record { state = body 3; raw = false; max_packet_length = 16 }

encode_three : encode_frame false (7 ∷ 8 ∷ 9 ∷ []) [] ≡ ok (12 ∷ 7 ∷ 8 ∷ 9 ∷ [])
unfolding encode_frame
encode_three = refl

decode_two : (decode new (8 ∷ 7 ∷ [])).result ≡ ok none
unfolding decode new
decode_two = refl

decode_raw_all : (decode (set_raw new) (8 ∷ 7 ∷ [])).result ≡ ok (some (8 ∷ 7 ∷ []))
unfolding decode new set_raw
decode_raw_all = refl

decode-encode_frame_example :
    (frame : List ℕ) × (encode_frame false (7 ∷ 8 ∷ []) (1 ∷ []) ≡ ok ((1 ∷ []) ++ frame))
    × (decode small (frame ++ (5 ∷ []))
        ≡ record { result = ok (some (7 ∷ 8 ∷ [])); codec = small; src = 5 ∷ [] })
decode-encode_frame_example =
    decode-encode_frame small (1 ∷ []) (7 ∷ 8 ∷ []) (5 ∷ []) refl refl (omega arith) (omega arith)

abbrev tiny : BytesCodec
tiny = record { state = head; raw = false; max_packet_length = 1 }

tiny_lem : set_max_packet_length small 1 ≡ tiny
unfolding set_max_packet_length
tiny_lem = refl

oversized_packet_example :
    (0x3fff_ffff < 2 → encode_frame false (7 ∷ 8 ∷ []) [] ≡ err overflow)
    × (2 ≤ 0x3fff_ffff
        → (encode_frame false (7 ∷ 8 ∷ []) [] ≡ ok ([] ++ frame_of (7 ∷ 8 ∷ [])))
          × (decode tiny (frame_of (7 ∷ 8 ∷ []) ++ []) ≡ record {
            result = err too_big_packet;
            codec = tiny;
            src = frame_of (7 ∷ 8 ∷ []) ++ [];
          }))
oversized_packet_example = oversized_packet tiny [] (7 ∷ 8 ∷ []) [] refl refl (omega arith)

decode_resume_example :
    decode (decode small (12 ∷ 7 ∷ [])).codec ((decode small (12 ∷ 7 ∷ [])).src ++ (8 ∷ 9 ∷ []))
    ≡ decode small (12 ∷ 7 ∷ 8 ∷ 9 ∷ [])
unfolding decode
decode_resume_example = decode_resume small (12 ∷ 7 ∷ []) (8 ∷ 9 ∷ []) refl

decode_append_example :
    decode small (4 ∷ 7 ∷ 8 ∷ 9 ∷ [])
    ≡ record (decode small (4 ∷ 7 ∷ [])) { src = (decode small (4 ∷ 7 ∷ [])).src ++ (8 ∷ 9 ∷ []) }
unfolding decode
decode_append_example = decode_append small (4 ∷ 7 ∷ []) (8 ∷ 9 ∷ []) refl (λ e. cc)

decode-ne-panic_example : (decode small (3 ∷ 255 ∷ [])).result ≢ panic
decode-ne-panic_example = decode-ne-panic small (3 ∷ 255 ∷ [])

decode-limit_example :
    Within waiting (decode waiting (7 ∷ 8 ∷ 9 ∷ [])).result
    × Bounded waiting (decode waiting (7 ∷ 8 ∷ 9 ∷ [])).codec.state
decode-limit_example = decode-limit waiting (7 ∷ 8 ∷ 9 ∷ []) refl (omega arith)
