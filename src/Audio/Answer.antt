-- ===== src/Audio/Answer.antt =====
-- What a push to the jitter buffer answers, in terms of the sequence numbers in the buffer.
use hbb_common.Common.{
  ℕ, ◌^◌, ◌≤◌, ◌<◌, ◌≡◌, ◌⊎◌, inl, inr, refl, sym, arith, Bool, true, false, length, Outcome, ok,
  err, panic, ltb, ◌>>◌, subst,
}
use hbb_common.Audio.Types.{
  AudioPacket, AudioDatagramError, memory_limit, sequence_gap, protocol, unknown_codec,
  header_truncated, reserved_field, zero_sequence, invalid_channel_count, invalid_sample_rate,
  invalid_payload_size, datagram_too_small, invalid_jitter_config, validate_audio_metadata,
}
use hbb_common.Audio.Jitter.{AudioJitterBuffer, is_late, is_buffered, too_far, check_packet, push}
use hbb_common.Audio.Stored.{IsStored}
use hbb_common.Audio.Verdict.{admits, Holds, push-admits}
use hbb_common.Audio.Span.{
  Late, InBuffer, Near, is_late-Late, not-Late, is_buffered-InBuffer, not-InBuffer, too_far-Near,
  too_far-not,
}

-- The fields of a packet have values that are allowed.
pub record IsPacket (p : AudioPacket) : Type 0 where
  pub sequence_some : 0 < p.metadata.sequence_number
  pub channels_some : 0 < p.metadata.channels
  pub channels_few : p.metadata.channels ≤ 8
  pub rate_low : 8_000 ≤ p.metadata.sample_rate_hz
  pub rate_high : p.metadata.sample_rate_hz ≤ 192_000
  pub payload_some : 0 < length p.payload
  pub payload_small : length p.payload ≤ 65_536

-- A packet that is neither late nor in the buffer.
abbrev pub IsNew : AudioJitterBuffer → AudioPacket → Type 0
IsNew b p =
    IsPacket p × (¬ Late b p.metadata.sequence_number) × (¬ InBuffer b p.metadata.sequence_number)

-- When a push fails with an error.
abbrev pub Refused : AudioJitterBuffer → AudioPacket → AudioDatagramError → Type 0
Refused b p sequence_gap = IsNew b p × (¬ Near b p.metadata.sequence_number)
Refused b p memory_limit =
    IsNew b p × Near b p.metadata.sequence_number × (b.config.max_memory_bytes < length p.payload)
Refused b p zero_sequence = p.metadata.sequence_number ≡ 0
Refused b p (invalid_channel_count n) = (p.metadata.channels ≡ n) × (¬ ((0 < n) × (n ≤ 8)))
Refused b p (invalid_sample_rate n) =
    (p.metadata.sample_rate_hz ≡ n) × (¬ ((8_000 ≤ n) × (n ≤ 192_000)))
Refused b p (invalid_payload_size n) = (length p.payload ≡ n) × (¬ ((0 < n) × (n ≤ 65_536)))
Refused b p (protocol e) = ⊥
Refused b p (unknown_codec n) = ⊥
Refused b p header_truncated = ⊥
Refused b p reserved_field = ⊥
Refused b p (datagram_too_small n) = ⊥
Refused b p invalid_jitter_config = ⊥

-- When a push gives an answer.
abbrev pub Says : AudioJitterBuffer → AudioPacket → Outcome AudioDatagramError Bool → Type 0
Says b p (ok true) =
    IsNew b p × Near b p.metadata.sequence_number × (length p.payload ≤ b.config.max_memory_bytes)
Says b p (ok false) =
    IsPacket p × (Late b p.metadata.sequence_number ⊎ InBuffer b p.metadata.sequence_number)
Says b p (err e) = Refused b p e
Says b p panic = ⊥

check_packet-IsPacket : (p : AudioPacket) → check_packet p ≡ ok tt → IsPacket p
unfolding check_packet validate_audio_metadata
check_packet-IsPacket p h = record {
  sequence_some = ground arith;
  channels_some = ground arith;
  channels_few = ground arith;
  rate_low = ground arith;
  rate_high = ground arith;
  payload_some = ground arith;
  payload_small = ground arith;
}

check_packet-Refused :
    (b : AudioJitterBuffer) (p : AudioPacket) (e : AudioDatagramError)
    → check_packet p ≡ err e
    → Refused b p e
unfolding check_packet validate_audio_metadata
check_packet-Refused b p sequence_gap h = ground arith
check_packet-Refused b p memory_limit h = ground arith
check_packet-Refused b p zero_sequence h = ground arith
check_packet-Refused b p (invalid_channel_count n) h = (ground arith, λ r. ground arith)
check_packet-Refused b p (invalid_sample_rate n) h = (ground arith, λ r. ground arith)
check_packet-Refused b p (invalid_payload_size n) h = (ground arith, λ r. ground arith)
check_packet-Refused b p (protocol e) h = ground arith
check_packet-Refused b p (unknown_codec n) h = ground arith
check_packet-Refused b p header_truncated h = ground arith
check_packet-Refused b p reserved_field h = ground arith
check_packet-Refused b p (datagram_too_small n) h = ground arith
check_packet-Refused b p invalid_jitter_config h = ground arith

check_packet-ne-panic : (p : AudioPacket) → ¬ (check_packet p ≡ panic)
unfolding check_packet validate_audio_metadata
check_packet-ne-panic p h = ground arith

module _ (top : ℕ) (t : top ≤ 2 ^ 64) (b : AudioJitterBuffer) (v : IsStored top b)
    (m : 0 < b.config.max_packets) where
  admits-Says : (p : AudioPacket) → IsPacket p → Says b p (admits b p)
  admits-Says p good =
      by_tests (is_late b s) refl (is_buffered b s) refl (too_far b s) refl
        (ltb b.config.max_memory_bytes (length p.payload)) refl
    where
      s : ℕ
      s = p.metadata.sequence_number

      by_tests :
          (late : Bool)
          → is_late b s ≡ late
          → (dup : Bool) → is_buffered b s ≡ dup
          → (far : Bool) → too_far b s ≡ far
          → (big : Bool) → ltb b.config.max_memory_bytes (length p.payload) ≡ big
          → Says b p (admits b p)
      by_tests true e dup f far g big h = rw e (good, inl (is_late-Late top b v s e))
      by_tests false e true f far g big h = rw (e, f) (good, inr (is_buffered-InBuffer top b v s f))
      by_tests false e false f true g big h =
          rw (e, f, g)
            ((good, not-Late top b v s e, not-InBuffer top b v s f), too_far-not top b v s g)
      by_tests false e false f false g true h =
          rw (e, f, g, h)
            (
              (good, not-Late top b v s e, not-InBuffer top b v s f),
              too_far-Near top b v s g,
              ground arith,
            )
      by_tests false e false f false g false h =
          rw (e, f, g, h)
            (
              (good, not-Late top b v s e, not-InBuffer top b v s f),
              too_far-Near top b v s g,
              ground arith,
            )

  -- In a buffer in order whose packet limit is not zero, whose sequence numbers are 64-bit and whose
  -- memory limit is below 2^64 - 1, a push answers `false` for a packet whose fields are allowed and
  -- that is late, playout having begun and being past its number, or whose number is in the buffer.
  -- For another such packet it answers `true` when the packet and those in the buffer are at most
  -- 4096 ahead of it and of the next to play and its payload is within the whole memory limit, and
  -- then the buffer holds the packet; the answer is the error of the sequence gap when they are
  -- further ahead, and else that of the memory limit. For a packet with a field that is not allowed
  -- the answer is the error of such a field. It does not panic.
  pub push-Says :
      (p : AudioPacket) (now : ℕ)
      → Says b p (push b p now).0 × ((push b p now).0 ≡ ok true → Holds (push b p now).1 p now)
  push-Says p now =
      let (answer, holds) = push-admits top t b v m p now in
      (
        subst (λ (o : Outcome AudioDatagramError Bool). Says b p o) (sym answer)
            (by_check (check_packet p) refl),
        holds,
      )
    where
      by_check :
          (o : Outcome AudioDatagramError (Unit {0}))
          → check_packet p ≡ o
          → Says b p (check_packet p >> admits b p)
      by_check (ok u) e = rw e (admits-Says p (check_packet-IsPacket p e))
      by_check (err x) e = rw e (check_packet-Refused b p x e)
      by_check panic e = absurd (check_packet-ne-panic p e)
