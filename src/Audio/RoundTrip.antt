-- ===== src/Audio/RoundTrip.antt =====
-- An audio packet that is encoded and decoded.
use hbb_common.Common.{
  ℕ, ◌+◌, ◌-◌, ◌^◌, ◌≤◌, ◌<◌, ◌≡◌, refl, ap, ◌∙◌, arith, Bool, true, false, List, [], ◌∷◌, ◌++◌,
  length, Outcome, ok, err, panic, ltb, leb, ◌==◌, ◌||◌, ◌>>◌, reject_if, map_err, le→not_ltb,
  length-append, ok-injective,
}
use hbb_common.Common.Bytes.{
  to_be_bytes, read, index, read_tail, read_tail_in_range, length-to_be_bytes,
}
use hbb_common.Common.Reading.{read_skip, read_cons, read_here, index_skip, tail_skip}
use hbb_common.Protocol.Types.{MessageType, ProtocolError, type_code}
use hbb_common.Protocol.NewMessage.{IsSessionId, decode_message-new_message, length-new_message}
use hbb_common.Protocol.Message.{header_len, new_message}
use hbb_common.Audio.Types.{
  AudioPacketMetadata, AudioDatagramError, AudioCodec, protocol, invalid_payload_size,
  datagram_too_small, audio_packet_header_len, validate_audio_metadata, audio_code, audio_of_code,
  max_audio_payload_bytes,
}
use hbb_common.Audio.Datagram.{
  audio_bytes, encode_audio_datagram, decode_audio_payload, decode_audio_datagram,
}

-- The fields are values of their Rust types.
pub record IsMetadata (m : AudioPacketMetadata) : Type 0 where
  pub sequence_u64 : m.sequence_number < 2 ^ 64
  pub timestamp_u64 : m.capture_timestamp_us < 2 ^ 64
  pub rate_u32 : m.sample_rate_hz < 2 ^ 32

audio_of_code_of : (c : AudioCodec) → audio_of_code (audio_code c) ≡ ok c
unfolding audio_of_code audio_code
audio_of_code_of AudioCodec.opus = refl

module _ (m : AudioPacketMetadata) (v : IsMetadata m) (audio : List ℕ) where
  length-audio_bytes : length (audio_bytes m audio) ≡ 20 + length audio
  unfolding audio_bytes
  length-audio_bytes = simp (length-append, length-to_be_bytes) (omega arith)

  abbrev rates : List ℕ
  rates = to_be_bytes 4 m.sample_rate_hz ++ (to_be_bytes 4 (length audio) ++ audio)

  -- The fields after the two bytes that are zero.
  after_reserved :
      (k off : ℕ)
      → 12 ≤ off
      → read {E = AudioDatagramError} k off (audio_bytes m audio)
        ≡ read k (off - 8 - 1 - 1 - 2) rates
  unfolding audio_bytes
  after_reserved k off h =
      read_skip 8 k off (to_be_bytes 8 m.capture_timestamp_us) _
        (length-to_be_bytes 8 m.capture_timestamp_us) (omega arith)
      ∙ read_cons k (off - 8) (audio_code m.codec) _ (omega arith)
      ∙ read_cons k (off - 8 - 1) m.channels _ (omega arith)
      ∙ read_skip 2 k (off - 8 - 1 - 1) (to_be_bytes 2 0) rates (length-to_be_bytes 2 0)
          (omega arith)

  reserved_read : read {E = AudioDatagramError} 2 10 (audio_bytes m audio) ≡ ok 0
  unfolding audio_bytes
  reserved_read =
      read_skip 8 2 10 (to_be_bytes 8 m.capture_timestamp_us) _
        (length-to_be_bytes 8 m.capture_timestamp_us) (omega arith)
      ∙ read_cons 2 2 (audio_code m.codec) _ (omega arith)
      ∙ read_cons 2 1 m.channels _ (omega arith)
      ∙ read_here 2 0 rates (omega arith)

  rate_read : read {E = AudioDatagramError} 4 12 (audio_bytes m audio) ≡ ok m.sample_rate_hz
  rate_read = after_reserved 4 12 (omega arith) ∙ read_here 4 m.sample_rate_hz _ v.rate_u32

  len_read :
      length audio < 2 ^ 32
      → read {E = AudioDatagramError} 4 16 (audio_bytes m audio) ≡ ok (length audio)
  len_read h =
      after_reserved 4 16 (omega arith)
      ∙ read_skip 4 4 4 (to_be_bytes 4 m.sample_rate_hz) _ (length-to_be_bytes 4 m.sample_rate_hz)
          (omega arith)
      ∙ read_here 4 (length audio) audio h

  audio_read : read_tail {E = AudioDatagramError} 20 (audio_bytes m audio) ≡ ok audio
  unfolding audio_bytes
  audio_read =
      tail_skip 8 20 (to_be_bytes 8 m.capture_timestamp_us) _
        (length-to_be_bytes 8 m.capture_timestamp_us) (omega arith)
      ∙ tail_skip 2 12 (audio_code m.codec ∷ m.channels ∷ []) _ refl (omega arith)
      ∙ tail_skip 2 10 (to_be_bytes 2 0) _ (length-to_be_bytes 2 0) (omega arith)
      ∙ tail_skip 4 8 (to_be_bytes 4 m.sample_rate_hz) _ (length-to_be_bytes 4 m.sample_rate_hz)
          (omega arith)
      ∙ tail_skip 4 4 (to_be_bytes 4 (length audio)) audio (length-to_be_bytes 4 (length audio))
          (omega arith)
      ∙ read_tail_in_range 0 audio (omega arith)

  time_read : read {E = AudioDatagramError} 8 0 (audio_bytes m audio) ≡ ok m.capture_timestamp_us
  unfolding audio_bytes
  time_read = read_here 8 m.capture_timestamp_us _ v.timestamp_u64

  codec_read : index {E = AudioDatagramError} 8 (audio_bytes m audio) ≡ ok (audio_code m.codec)
  unfolding audio_bytes index
  codec_read =
      index_skip 8 8 (to_be_bytes 8 m.capture_timestamp_us) _
        (length-to_be_bytes 8 m.capture_timestamp_us) (omega arith)

  channels_read : index {E = AudioDatagramError} 9 (audio_bytes m audio) ≡ ok m.channels
  unfolding audio_bytes index
  channels_read =
      index_skip 8 9 (to_be_bytes 8 m.capture_timestamp_us) _
        (length-to_be_bytes 8 m.capture_timestamp_us) (omega arith)

  payload_decodes :
      validate_audio_metadata m ≡ ok tt
      → 0 < length audio
      → length audio ≤ max_audio_payload_bytes
      → decode_audio_payload m.sequence_number (audio_bytes m audio)
        ≡ ok (record { metadata = m; payload = audio })
  unfolding decode_audio_payload
  payload_decodes good n u =
      rw
        (
          reserved_read,
          len_read (omega arith),
          audio_read,
          time_read,
          codec_read,
          channels_read,
          rate_read,
          le→not_ltb (length (audio_bytes m audio)) 20 (omega (arith, length-audio_bytes)),
          audio_of_code_of m.codec,
          good,
        )
        (ground arith)

module _ (id : List ℕ) (time : ℕ) (m : AudioPacketMetadata) (audio : List ℕ) (max_size : ℕ)
    (datagram : List ℕ) where
  -- What a success of `encode_audio_datagram` tells.
  encode_audio_datagram-ok :
      encode_audio_datagram id time m audio max_size ≡ ok datagram
      → (validate_audio_metadata m ≡ ok tt)
        × (0 < length audio)
        × (length audio ≤ max_audio_payload_bytes)
        × (68 + length audio ≤ max_size)
        × (new_message MessageType.audio_packet 0 id m.sequence_number time (audio_bytes m audio)
            ≡ ok datagram)
  unfolding encode_audio_datagram
  encode_audio_datagram-ok h =
      by_steps (validate_audio_metadata m) refl
        (length audio == 0 || ltb max_audio_payload_bytes (length audio)) refl
        (leb (2 ^ 64) (header_len + audio_packet_header_len + length audio))
        (ltb max_size (header_len + audio_packet_header_len + length audio)) refl
        (leb (2 ^ 32) (length audio))
        (new_message MessageType.audio_packet 0 id m.sequence_number time (audio_bytes m audio)) h
    where
      by_steps :
          (o : Outcome AudioDatagramError (Unit {0}))
          → validate_audio_metadata m ≡ o
          → (a : Bool) → (length audio == 0 || ltb max_audio_payload_bytes (length audio)) ≡ a
          → (b c : Bool) → ltb max_size (header_len + audio_packet_header_len + length audio) ≡ c
          → (d : Bool) (w : Outcome ProtocolError (List ℕ))
          → (o
              >> (reject_if a (invalid_payload_size (length audio))
                  >> (reject_if b (invalid_payload_size (length audio))
                      >> (reject_if c (datagram_too_small max_size)
                          >> (reject_if d (invalid_payload_size (length audio))
                              >> map_err protocol w)))))
            ≡ ok datagram
          → (validate_audio_metadata m ≡ ok tt)
            × (0 < length audio)
            × (length audio ≤ max_audio_payload_bytes)
            × (68 + length audio ≤ max_size)
            × (w ≡ ok datagram)
      by_steps (ok u) e false f false false g false (ok w) h =
          (e, ground arith, ground arith, ground arith, ap ok (ok-injective w datagram h))
      by_steps (ok u) e false f false false g false (err w) h = cc
      by_steps (ok u) e false f false false g false panic h = cc
      by_steps (ok u) e false f false false g true w h = cc
      by_steps (ok u) e false f false true g d w h = cc
      by_steps (ok u) e false f true c g d w h = cc
      by_steps (ok u) e true f b c g d w h = cc
      by_steps (err x) e a f b c g d w h = cc
      by_steps panic e a f b c g d w h = cc

  -- A packet whose fields are values of their types, and that `encode_audio_datagram` accepts, makes
  -- a datagram of at most the given size, which `decode_audio_datagram` decodes to the packet.
  pub decode_audio_datagram-encode_audio_datagram :
      IsSessionId id
      → time < 2 ^ 64
      → IsMetadata m
      → encode_audio_datagram id time m audio max_size ≡ ok datagram
      → (decode_audio_datagram datagram ≡ ok (record { metadata = m; payload = audio }))
        × (length datagram ≤ max_size)
  unfolding decode_audio_datagram type_code audio_bytes
  decode_audio_datagram-encode_audio_datagram s u v h =
      let (good, n, l, room, made) = encode_audio_datagram-ok h in
      (
        rw
            (decode_message-new_message MessageType.audio_packet 0 id m.sequence_number time
              (audio_bytes m audio) datagram (omega arith) s v.sequence_u64 u made)
            (payload_decodes m v audio good n l),
        omega (
          arith,
          length-new_message MessageType.audio_packet 0 id m.sequence_number time
              (audio_bytes m audio) datagram (omega arith) s v.sequence_u64 u made,
          length-audio_bytes m v audio,
          room,
        ),
      )
