-- ===== src/Codec/Limit.antt =====
-- The packet limit: what `decode` hands out and what it waits for stay within `max_packet_length`.
use hbb_common.Common.{
  ℕ, ◌≤◌, ◌≡◌, ◌≢◌, refl, arith, false, inl, inr, Option, none, some, List, [], ◌∷◌, length,
  length-take, ltb, Outcome, ok, err, panic, Bool-cases,
}
use hbb_common.Codec.{
  BytesCodec, IoError, decode_head, decode_bounded_head, decode, decode_body, DecodeState, head,
  body, decode_from, after_head,
}
use hbb_common.Codec.Stream.{join_bytes_ok, decode-eq-decode_from, decode_head-ne-panic}

-- The body length that the codec waits for is within its limit.
abbrev pub Bounded : BytesCodec → DecodeState → Type 0
Bounded c head = Unit {0}
Bounded c (body n) = n ≤ c.max_packet_length

-- A result within the limit.
abbrev pub Within : BytesCodec → Outcome IoError (Option (List ℕ)) → Type 0
Within c (ok none) = Unit {0}
Within c (ok (some packet)) = length packet ≤ c.max_packet_length
Within c (err e) = Unit {0}
Within c panic = ⊥

decode_bounded_head-le :
    (c : BytesCodec) (src rest : List ℕ) (first hl n : ℕ)
    → decode_bounded_head c src first hl ≡ ok (some (n, rest))
    → n ≤ c.max_packet_length
unfolding decode_bounded_head
decode_bounded_head-le c src rest first hl n h = elim (Bool-cases (ltb (length src) hl)) [
  | inl e ↦ ground arith
  | inr e ↦ let (m, ej, _) = join_bytes_ok hl src [] (ground arith) first in ground (arith, ej)
]

decode_head-le :
    (c : BytesCodec) (src rest : List ℕ) (n : ℕ)
    → decode_head c src ≡ ok (some (n, rest))
    → n ≤ c.max_packet_length
unfolding decode_head
decode_head-le c [] rest n h = cc
decode_head-le c (b ∷ bs) rest n h = decode_bounded_head-le c (b ∷ bs) rest _ _ n h

decode_body-limit :
    (c : BytesCodec) (n : ℕ) (src : List ℕ)
    → n ≤ c.max_packet_length
    → Within c (decode_body c n src).result × Bounded c (decode_body c n src).codec.state
unfolding decode_body
decode_body-limit c n src h = ground (arith, length-take n src)

after_head-limit :
    (c : BytesCodec) (src : List ℕ) (r : Outcome IoError (Option (ℕ × List ℕ)))
    → Bounded c c.state
    → decode_head c src ≡ r
    → r ≢ panic
    → Within c (after_head c src r).result × Bounded c (after_head c src r).codec.state
unfolding after_head
after_head-limit c src (ok none) b e h = (tt, b)
after_head-limit c src (ok (some (n, rest))) b e h =
    decode_body-limit c n rest (decode_head-le c src rest n e)
after_head-limit c src (err x) b e h = (tt, b)
after_head-limit c src panic b e h = absurd (h refl)

decode_from-limit :
    (c : BytesCodec) (s : DecodeState) (src : List ℕ)
    → c.state ≡ s
    → Bounded c s
    → Within c (decode_from c s src).result × Bounded c (decode_from c s src).codec.state
unfolding decode_from
decode_from-limit c head src e b =
    after_head-limit c src (decode_head c src) (rw e b) refl (decode_head-ne-panic c src)
decode_from-limit c (body n) src e b = decode_body-limit c n src b

-- A framing codec hands out no packet over its limit, and never waits for a longer one: if the body
-- that it waits for is within the limit, so are the packet that a call returns and the body that
-- the codec waits for afterwards.
pub decode-limit :
    (c : BytesCodec) (src : List ℕ)
    → c.raw ≡ false
    → Bounded c c.state
    → Within c (decode c src).result × Bounded c (decode c src).codec.state
decode-limit c src hr b =
    rw (decode-eq-decode_from c c.state src hr refl) (decode_from-limit c c.state src refl b)
