-- ===== src/Codec/Stream.antt =====
-- `decode` on a byte stream that arrives in pieces, and on hostile bytes.
use hbb_common.Common.{
  ℕ, ◌*◌, ◌^◌, ◌≤◌, ◌≡◌, ◌≢◌, refl, ◌∙◌, inl, inr, arith, true, false, Option, none, some, List, [],
  ◌∷◌, ◌++◌, length, take-append_le, drop-append_le, length-append, ltb, Outcome, ok, err, panic,
  Bool-cases, bit_or,
}
use hbb_common.Common.Bytes.{index-append, index_in_range, from_be_bytes, slice}
use hbb_common.Codec.{
  BytesCodec, IoError, decode_head, decode_bounded_head, join_byte, join_bytes, decode, decode_raw,
  decode_body, DecodeState, head, body, decode_from, after_head,
}

-- A length that was read, with more bytes behind the buffer.
abbrev extended :
    List ℕ → Outcome IoError (Option (ℕ × List ℕ)) → Outcome IoError (Option (ℕ × List ℕ))
extended more (ok none) = ok none
extended more (ok (some (n, rest))) = ok (some (n, rest ++ more))
extended more (err e) = err e
extended more panic = panic

module _ (hl : ℕ) (src more : List ℕ) (h : hl ≤ length src) where
  join_byte-append : (i n : ℕ) → join_byte hl i (src ++ more) n ≡ join_byte hl i src n
  unfolding join_byte
  join_byte-append i n = ground (arith, index-append {E = IoError} i src more)

  join_byte_ok : (i n : ℕ) → (m : ℕ) × (join_byte hl i src n ≡ ok m)
  unfolding join_byte
  join_byte_ok i n = elim (Bool-cases (ltb i hl)) [
    | inl e ↦
        let b = from_be_bytes (slice i 1 src) in
        (bit_or n (b * 2 ^ (8 * i)), rw e (rw (index_in_range {E = IoError} i src (ground arith))))
    | inr e ↦ (n, rw e)
  ]

  pub join_bytes_ok :
      (n : ℕ) → (m : ℕ) × (join_bytes hl src n ≡ ok m) × (join_bytes hl (src ++ more) n ≡ ok m)
  unfolding join_bytes
  join_bytes_ok n =
      let (n1, e1) = join_byte_ok 1 n in
      let (n2, e2) = join_byte_ok 2 n1 in
      let (n3, e3) = join_byte_ok 3 n2 in
      (
        n3,
        rw e1 (rw e2 e3),
        rw (join_byte-append 1 n ∙ e1)
            (rw (join_byte-append 2 n1 ∙ e2) (join_byte-append 3 n2 ∙ e3)),
      )

module _ (c : BytesCodec) (src more : List ℕ) where
  decode_bounded_head-append :
      (first hl : ℕ)
      → decode_bounded_head c src first hl ≢ ok none
      → decode_bounded_head c (src ++ more) first hl
        ≡ extended more (decode_bounded_head c src first hl)
  unfolding decode_bounded_head
  decode_bounded_head-append first hl h = elim (Bool-cases (ltb (length src) hl)) [
    | inl e ↦ absurd (h (rw e))
    | inr e ↦
        let (m, ej, ejm) = join_bytes_ok hl src more (ground arith) first in
        ground (arith, ej, ejm, length-append src more, drop-append_le hl src more)
  ]

  decode_bounded_head-ne-panic : (first hl : ℕ) → decode_bounded_head c src first hl ≢ panic
  unfolding decode_bounded_head
  decode_bounded_head-ne-panic first hl h = elim (Bool-cases (ltb (length src) hl)) [
    | inl e ↦ ground arith
    | inr e ↦ let (m, ej, _) = join_bytes_ok hl src [] (ground arith) first in ground (arith, ej)
  ]

decode_head-append :
    (c : BytesCodec) (src more : List ℕ)
    → decode_head c src ≢ ok none
    → decode_head c (src ++ more) ≡ extended more (decode_head c src)
unfolding decode_head
decode_head-append c [] more h = absurd (h refl)
decode_head-append c (b ∷ bs) more h = decode_bounded_head-append c (b ∷ bs) more _ _ h

pub decode_head-ne-panic : (c : BytesCodec) (src : List ℕ) → decode_head c src ≢ panic
unfolding decode_head
decode_head-ne-panic c [] h = cc
decode_head-ne-panic c (b ∷ bs) h = decode_bounded_head-ne-panic c (b ∷ bs) [] _ _ h

pub decode-eq-decode_from :
    (c : BytesCodec) (s : DecodeState) (src : List ℕ)
    → c.raw ≡ false
    → c.state ≡ s
    → decode c src ≡ decode_from c s src
unfolding decode
decode-eq-decode_from c s src hr hs = ground arith

decode_body_resume :
    (c : BytesCodec) (n : ℕ) (src more : List ℕ)
    → c.raw ≡ false
    → (decode_body c n src).result ≡ ok none
    → decode (decode_body c n src).codec ((decode_body c n src).src ++ more)
      ≡ decode_body c n (src ++ more)
unfolding decode decode_body
decode_body_resume c n src more hr h = ground arith

decode_body-append :
    (c : BytesCodec) (n : ℕ) (src more : List ℕ)
    → (decode_body c n src).result ≢ ok none
    → decode_body c n (src ++ more)
      ≡ record (decode_body c n src) { src = (decode_body c n src).src ++ more }
unfolding decode_body
decode_body-append c n src more h = elim (Bool-cases (ltb (length src) n)) [
  | inl e ↦ absurd (h (ground arith))
  | inr e ↦
      ground (arith, length-append src more, take-append_le n src more, drop-append_le n src more)
]

after_head_resume :
    (c : BytesCodec) (front more : List ℕ) (r : Outcome IoError (Option (ℕ × List ℕ)))
    → c.raw ≡ false
    → c.state ≡ head
    → decode_head c front ≡ r
    → (after_head c front r).result ≡ ok none
    → decode (after_head c front r).codec ((after_head c front r).src ++ more)
      ≡ decode_from c head (front ++ more)
unfolding after_head decode_from
after_head_resume c front more (ok none) hr hs e h = decode-eq-decode_from c head _ hr hs
after_head_resume c front more (ok (some (n, rest))) hr hs e h =
    decode_body_resume c n rest more hr h
    ∙ rw (decode_head-append c front more (λ f. ground (arith, e, f)), e)
after_head_resume c front more (err x) hr hs e h = cc
after_head_resume c front more panic hr hs e h = cc

after_head-append :
    (c : BytesCodec) (front more : List ℕ) (r : Outcome IoError (Option (ℕ × List ℕ)))
    → decode_head c front ≡ r
    → (after_head c front r).result ≢ ok none
    → decode_from c head (front ++ more)
      ≡ record (after_head c front r) { src = (after_head c front r).src ++ more }
unfolding after_head decode_from
after_head-append c front more (ok none) e h = absurd (h refl)
after_head-append c front more (ok (some (n, rest))) e h =
    rw (decode_head-append c front more (λ f. ground (arith, e, f)), e)
      (decode_body-append c n rest more h)
after_head-append c front more (err x) e h =
    rw (decode_head-append c front more (λ f. ground (arith, e, f)), e)
after_head-append c front more panic e h = absurd (decode_head-ne-panic c front e)

decode_from_resume :
    (c : BytesCodec) (s : DecodeState) (front more : List ℕ)
    → c.raw ≡ false
    → c.state ≡ s
    → (decode_from c s front).result ≡ ok none
    → decode (decode_from c s front).codec ((decode_from c s front).src ++ more)
      ≡ decode_from c s (front ++ more)
unfolding decode_from
decode_from_resume c head front more hr hs h =
    after_head_resume c front more (decode_head c front) hr hs refl h
decode_from_resume c (body n) front more hr hs h = decode_body_resume c n front more hr h

decode_raw_resume :
    (c : BytesCodec) (front more : List ℕ)
    → c.raw ≡ true
    → (decode c front).result ≡ ok none
    → decode (decode c front).codec ((decode c front).src ++ more) ≡ decode c (front ++ more)
unfolding decode decode_raw
decode_raw_resume c [] more hr h = ground arith
decode_raw_resume c (b ∷ bs) more hr h = ground arith

-- A call that asks for more bytes loses nothing: calling again, with the codec and the buffer that it
-- left and more bytes behind them, gives what one call on all the bytes would have given.
pub decode_resume :
    (c : BytesCodec) (front more : List ℕ)
    → (decode c front).result ≡ ok none
    → decode (decode c front).codec ((decode c front).src ++ more) ≡ decode c (front ++ more)
decode_resume c front more h = elim (Bool-cases c.raw) [
  | inl hr ↦ decode_raw_resume c front more hr h
  | inr hr ↦
      let e = decode-eq-decode_from c c.state front hr refl in
      rw (e, decode-eq-decode_from c c.state (front ++ more) hr refl)
        (decode_from_resume c c.state front more hr refl (rw e at h))
]

decode_from-append :
    (c : BytesCodec) (s : DecodeState) (front more : List ℕ)
    → (decode_from c s front).result ≢ ok none
    → decode_from c s (front ++ more)
      ≡ record (decode_from c s front) { src = (decode_from c s front).src ++ more }
unfolding decode_from
decode_from-append c head front more h = after_head-append c front more (decode_head c front) refl h
decode_from-append c (body n) front more h = decode_body-append c n front more h

-- A call of a framing codec that returns a packet or an error does not look past it: more bytes
-- behind the buffer change neither the result nor the codec, and stay behind what is left.
pub decode_append :
    (c : BytesCodec) (front more : List ℕ)
    → c.raw ≡ false
    → (decode c front).result ≢ ok none
    → decode c (front ++ more) ≡ record (decode c front) { src = (decode c front).src ++ more }
decode_append c front more hr h =
    let e = decode-eq-decode_from c c.state front hr refl in
    rw (e, decode-eq-decode_from c c.state (front ++ more) hr refl)
      (decode_from-append c c.state front more (rw e at h))

after_head-ne-panic :
    (c : BytesCodec) (src : List ℕ) (r : Outcome IoError (Option (ℕ × List ℕ)))
    → r ≢ panic
    → (after_head c src r).result ≢ panic
unfolding after_head decode_body
after_head-ne-panic c src (ok none) h e = cc
after_head-ne-panic c src (ok (some (n, rest))) h e = ground arith
after_head-ne-panic c src (err x) h e = cc
after_head-ne-panic c src panic h e = h refl

decode_from-ne-panic :
    (c : BytesCodec) (s : DecodeState) (src : List ℕ) → (decode_from c s src).result ≢ panic
unfolding decode_from decode_body
decode_from-ne-panic c head src e =
    after_head-ne-panic c src (decode_head c src) (decode_head-ne-panic c src) e
decode_from-ne-panic c (body n) src e = ground arith

-- No input makes `decode` panic, in any state and mode: every index that it reads is in range, and
-- `advance` and `split_to` never go past the end of the buffer.
pub decode-ne-panic : (c : BytesCodec) (src : List ℕ) → (decode c src).result ≢ panic
unfolding decode decode_raw
decode-ne-panic c [] h = ground (arith, decode_from-ne-panic c c.state [])
decode-ne-panic c (b ∷ bs) h = ground (arith, decode_from-ne-panic c c.state (b ∷ bs))
