-- ===== src/Audio/Span.antt =====
-- What the tests of a push say of the sequence numbers: late, in the buffer, too far ahead.
use hbb_common.Common.{
  ℕ, ◌+◌, ◌≤◌, ◌<◌, ◌≡◌, ◌⊎◌, inl, inr, refl, ap, ◌∙◌, arith, min, max, true, false, Option, none,
  some, leb, subst, Bool-cases,
}
use hbb_common.Common.OrderedMap.{get, last_key, last_key-get, get-le-last_key}
use hbb_common.Audio.Types.{BufferedAudioPacket}
use hbb_common.Audio.Jitter.{
  AudioJitterBuffer, is_late, is_buffered, too_far, least_with, greatest_with,
}
use hbb_common.Audio.Stored.{IsStored, least}

-- Playout has begun and is past the number.
abbrev pub Late : AudioJitterBuffer → ℕ → Type 0
Late b s = (b.playout_started ≡ true) × (n : ℕ) × (b.next_sequence ≡ some n) × (s < n)

abbrev pub InBuffer : AudioJitterBuffer → ℕ → Type 0
InBuffer b s = (q : BufferedAudioPacket) × (get s b.packets ≡ some q)

-- With the number, those in the buffer are at most 4096 ahead of it and of the next to play.
abbrev pub Near : AudioJitterBuffer → ℕ → Type 0
Near b s =
    (high low : ℕ)
    → (high ≡ s) ⊎ InBuffer b high
    → (low ≡ s) ⊎ (b.next_sequence ≡ some low)
    → high ≤ low + 4096

module _ (top : ℕ) (b : AudioJitterBuffer) (v : IsStored top b) (s : ℕ) where
  pub is_late-Late : is_late b s ≡ true → Late b s
  unfolding is_late
  is_late-Late h = by_next b.next_sequence refl
    where
      by_next : (o : Option ℕ) → b.next_sequence ≡ o → Late b s
      by_next none e = absurd (ground arith)
      by_next (some n) e = (ground arith, n, e, ground arith)

  pub not-Late : is_late b s ≡ false → ¬ Late b s
  unfolding is_late
  not-Late h late = let (begun, n, e, past) = late in ground arith

  pub is_buffered-InBuffer : is_buffered b s ≡ true → InBuffer b s
  unfolding is_buffered
  is_buffered-InBuffer h = by_entry (get s b.packets) refl
    where
      by_entry : (o : Option BufferedAudioPacket) → get s b.packets ≡ o → InBuffer b s
      by_entry none e = absurd (ground arith)
      by_entry (some q) e = (q, e)

  pub not-InBuffer : is_buffered b s ≡ false → ¬ InBuffer b s
  unfolding is_buffered
  not-InBuffer h found = let (q, e) = found in ground arith

  abbrev greatest : ℕ
  greatest = greatest_with (last_key b.packets) s

  abbrev lowest : ℕ
  lowest = least_with b.next_sequence s

  greatest-ge : (high : ℕ) → (high ≡ s) ⊎ InBuffer b high → high ≤ greatest
  unfolding greatest_with
  greatest-ge high (inl same) = by_last (last_key b.packets)
    where
      by_last : (o : Option ℕ) → high ≤ greatest_with o s
      by_last none = omega (arith, same)
      by_last (some l) = omega (arith, same)
  greatest-ge high (inr found) =
      let (l, e, le) =
        get-le-last_key (least b.next_sequence) high found.0 b.packets v.ascending found.1 in
      rw e (omega (arith, le))

  greatest-found : (greatest ≡ s) ⊎ InBuffer b greatest
  unfolding greatest_with
  greatest-found = by_last (last_key b.packets) refl
    where
      by_last :
          (o : Option ℕ)
          → last_key b.packets ≡ o
          → (greatest_with o s ≡ s) ⊎ InBuffer b (greatest_with o s)
      by_last none e = inl refl
      by_last (some l) e = elim (Bool-cases (leb l s)) [
        | inl below ↦ inl (ground arith)
        | inr above ↦
            let same : l ≡ max l s = ground arith in
            inr (subst (λ (k : ℕ). InBuffer b k) same (last_key-get l b.packets e))
      ]

  lowest-le : (low : ℕ) → (low ≡ s) ⊎ (b.next_sequence ≡ some low) → lowest ≤ low
  unfolding least_with
  lowest-le low (inl same) = by_next b.next_sequence
    where
      by_next : (o : Option ℕ) → least_with o s ≤ low
      by_next none = omega (arith, same)
      by_next (some n) = omega (arith, same)
  lowest-le low (inr next) = rw next (omega arith)

  lowest-found : (lowest ≡ s) ⊎ (b.next_sequence ≡ some lowest)
  unfolding least_with
  lowest-found = by_next b.next_sequence refl
    where
      by_next :
          (o : Option ℕ)
          → b.next_sequence ≡ o
          → (least_with o s ≡ s) ⊎ (b.next_sequence ≡ some (least_with o s))
      by_next none e = inl refl
      by_next (some n) e = elim (Bool-cases (leb s n)) [
        | inl above ↦ inl (ground arith)
        | inr below ↦ let same : n ≡ min n s = ground arith in inr (e ∙ ap some same)
      ]

  pub too_far-Near : too_far b s ≡ false → Near b s
  unfolding too_far
  too_far-Near h high low in_high in_low =
      ground (arith, greatest-ge high in_high, lowest-le low in_low)

  pub too_far-not : too_far b s ≡ true → ¬ Near b s
  unfolding too_far
  too_far-not h near = ground (arith, near greatest lowest greatest-found lowest-found)
