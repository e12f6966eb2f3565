-- ===== src/Codec/Head.antt =====
-- The head of a packet, byte by byte, and the length that `decode_head` reads from it.
use Prim.Native.Nat.{bit_or}
use native.Mathlib.Nat.{mod-eq_of_lt}
use hbb_common.Common.{
  ℕ, ◌+◌, ◌*◌, ◌/◌, ◌%◌, ◌^◌, ◌≤◌, ◌<◌, ◌≡◌, ap, ◌∙◌, Bool-cases, inl, inr, arith, Option, some,
  List, [], ◌∷◌, ◌++◌, ltb, leb, if◌then◌else◌, Outcome, ok, err,
}
use hbb_common.Common.Bits.{bit_or_low_high, bit_or_high_low, bit_and_three, bit_and_mask}
use hbb_common.Codec.{BytesCodec, IoError, overflow, too_big_packet, encode_head, decode_head}

-- The bytes of a head, in plain arithmetic.
unfoldable pub head_bytes : ℕ → List ℕ
head_bytes n =
    if leb n 0x3f
    then n * 4 ∷ []
    else if leb n 0x3fff
    then (n * 4 + 1) % 256 ∷ (n * 4 + 1) / 256 ∷ []
    else if leb n 0x3f_ffff
    then (n * 4 + 2) % 256 ∷ (n * 4 + 2) / 256 % 256 ∷ (n * 4 + 2) / 65536 ∷ []
    else (n * 4 + 3) % 256
      ∷ (n * 4 + 3) / 256 % 256
      ∷ (n * 4 + 3) / 65536 % 256
      ∷ (n * 4 + 3) / 16777216
      ∷ []

tag : (n w t : ℕ) → n * 4 < w → t < 4 → bit_or (n * 2 ^ 2 % w) t ≡ n * 4 + t
tag n w t h ht = rw (mod-eq_of_lt (shifted n w h)) (bit_or_high_low 2 n t ht)
  where
    shifted : (n w : ℕ) → n * 4 < w → n * 2 ^ 2 < w
    shifted n w h = h

pub encode_head_lem : (n : ℕ) → n ≤ 0x3fff_ffff → encode_head n ≡ ok (head_bytes n)
unfolding encode_head head_bytes
encode_head_lem n h =
    ground
      (arith, tag n (2 ^ 16) 1, tag n (2 ^ 32) 2, tag n (2 ^ 32) 3, bit_and_mask 16 (n * 4 + 2))

pub encode_head_overflow : (n : ℕ) → 0x3fff_ffff < n → encode_head n ≡ err overflow
unfolding encode_head
encode_head_overflow n h = ground arith

-- What `decode_head` does with a length that it has read.
abbrev pub bounded : BytesCodec → ℕ → List ℕ → Outcome IoError (Option (ℕ × List ℕ))
bounded c n rest = if ltb c.max_packet_length n then err too_big_packet else ok (some (n, rest))

module _ (c : BytesCodec) where
  one_byte : (b : ℕ) (rest : List ℕ) → b % 4 ≡ 0 → decode_head c (b ∷ rest) ≡ bounded c (b / 4) rest
  unfolding decode_head
  one_byte b rest h = ground (arith, bit_and_three b)

  two_bytes :
      (b0 b1 : ℕ) (rest : List ℕ)
      → b0 < 256
      → b0 % 4 ≡ 1
      → decode_head c (b0 ∷ b1 ∷ rest) ≡ bounded c ((b0 + b1 * 256) / 4) rest
  unfolding decode_head
  two_bytes b0 b1 rest h0 h = ground (arith, bit_and_three b0, bit_or_low_high 8 b0 b1)

  three_bytes :
      (b0 b1 b2 : ℕ) (rest : List ℕ)
      → b0 < 256
      → b1 < 256
      → b0 % 4 ≡ 2
      → decode_head c (b0 ∷ b1 ∷ b2 ∷ rest) ≡ bounded c ((b0 + b1 * 256 + b2 * 65536) / 4) rest
  unfolding decode_head
  three_bytes b0 b1 b2 rest h0 h1 h =
      ground
        (arith, bit_and_three b0, bit_or_low_high 8 b0 b1, bit_or_low_high 16 (b0 + b1 * 256) b2)

  four_bytes :
      (b0 b1 b2 b3 : ℕ) (rest : List ℕ)
      → b0 < 256
      → b1 < 256
      → b2 < 256
      → b0 % 4 ≡ 3
      → decode_head c (b0 ∷ b1 ∷ b2 ∷ b3 ∷ rest)
        ≡ bounded c ((b0 + b1 * 256 + b2 * 65536 + b3 * 16777216) / 4) rest
  unfolding decode_head
  four_bytes b0 b1 b2 b3 rest h0 h1 h2 h = ground (
    arith,
    bit_and_three b0,
    bit_or_low_high 8 b0 b1,
    bit_or_low_high 16 (b0 + b1 * 256) b2,
    bit_or_low_high 24 (b0 + b1 * 256 + b2 * 65536) b3,
  )

  -- The head that `encode_head` writes is read back as the length, whatever follows.
  pub decode_head-head_bytes :
      (n : ℕ) (rest : List ℕ)
      → n ≤ 0x3fff_ffff
      → decode_head c (head_bytes n ++ rest) ≡ bounded c n rest
  unfolding head_bytes
  decode_head-head_bytes n rest h = elim (Bool-cases (leb n 0x3f)) [
    | inl e ↦ rw e (one_byte (n * 4) rest (omega arith) ∙ same (n * 4 / 4) (omega arith))
    | inr e ↦ rw e (elim (Bool-cases (leb n 0x3fff)) [
      | inl e2 ↦ rw e2 (two_bytes _ _ rest (omega arith) (omega arith) ∙ same _ (omega arith))
      | inr e2 ↦ rw e2 (elim (Bool-cases (leb n 0x3f_ffff)) [
        | inl e3 ↦ rw e3 (
            three_bytes _ _ _ rest (omega arith) (omega arith) (omega arith) ∙ same _ (omega arith))
        | inr e3 ↦ rw e3 (
            four_bytes _ _ _ _ rest (omega arith) (omega arith) (omega arith) (omega arith)
            ∙ same _ (omega arith))
      ])
    ])
  ]
    where
      same : (m : ℕ) → m ≡ n → bounded c m rest ≡ bounded c n rest
      same m e = ap (λ (k : ℕ). bounded c k rest) e
