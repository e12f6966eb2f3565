-- ===== src/Codec.antt =====
-- src/bytes_codec.rs: `BytesCodec`, the framing of a byte stream by length-prefixed packets.
-- A `BytesMut` is the list of its unread bytes, and a `usize` a number that does not reach 2 ^ 64.
-- `decode` returns its result with the codec and the buffer that it leaves.
pub mod Head
pub mod RoundTrip
pub mod Stream
pub mod Limit
mod Tests
use hbb_common.Common.{
  ℕ, suc, ◌+◌, ◌*◌, ◌/◌, ◌%◌, ◌^◌, bit_and, bit_or, Bool, true, false, Option, none, some, List, [],
  ◌∷◌, ◌++◌, length, take, drop, ltb, leb, if◌then◌else◌, Outcome, ok, err, panic, ◌>>=◌, ◌>>◌,
  reject_if,
}
use hbb_common.Common.Bytes.{index, read_tail, to_le_bytes}

-- `io::Error` by its kind and text.
pub data IoError : Type 0 where
  overflow : IoError
  too_big_packet : IoError

pub data DecodeState : Type 0 where
  head : DecodeState
  body : ℕ → DecodeState

pub record BytesCodec : Type 0 where
  pub state : DecodeState
  pub raw : Bool
  pub max_packet_length : ℕ

abbrev pub default_max_packet_length : ℕ
default_max_packet_length = 64 * 1024 * 1024

unfoldable pub new : BytesCodec
new = record { state = head; raw = false; max_packet_length = default_max_packet_length }

unfoldable pub set_raw : BytesCodec → BytesCodec
set_raw c = record c { raw = true }

unfoldable pub set_max_packet_length : BytesCodec → ℕ → BytesCodec
set_max_packet_length c n = record c { max_packet_length = n }

-- The one to four bytes before a packet of n bytes.
unfoldable pub encode_head : ℕ → Outcome IoError (List ℕ)
unfolding to_le_bytes
encode_head n =
    let h = bit_or (n * 2 ^ 2 % 2 ^ 32) 2 in
    if leb n 0x3f
    then ok (to_le_bytes 1 (n * 2 ^ 2 % 2 ^ 8))
    else if leb n 0x3fff
    then ok (to_le_bytes 2 (bit_or (n * 2 ^ 2 % 2 ^ 16) 1))
    else if leb n 0x3f_ffff
    then ok (to_le_bytes 2 (bit_and h 0xffff) ++ to_le_bytes 1 (h / 2 ^ 16 % 2 ^ 8))
    else if leb n 0x3fff_ffff
    then ok (to_le_bytes 4 (bit_or (n * 2 ^ 2 % 2 ^ 32) 3))
    else err overflow

-- What `encode_frame` leaves in `buf`; an error leaves `buf` as it was.
unfoldable pub encode_frame : Bool → List ℕ → List ℕ → Outcome IoError (List ℕ)
unfolding encode_head
encode_frame true packet buf = ok (buf ++ packet)
encode_frame false packet buf = do h ← encode_head (length packet); ok (buf ++ (h ++ packet))

-- `if head_len > i { n |= src[i] << (8 * i) }`.
pub join_byte : ℕ → ℕ → List ℕ → ℕ → Outcome IoError ℕ
unfolding index
join_byte head_len i src n =
    if ltb i head_len then (index i src >>= λ b. ok (bit_or n (b * 2 ^ (8 * i)))) else ok n

pub join_bytes : ℕ → List ℕ → ℕ → Outcome IoError ℕ
unfolding join_byte
join_bytes head_len src n = do
  n1 ← join_byte head_len 1 src n
  n2 ← join_byte head_len 2 src n1
  join_byte head_len 3 src n2

-- The length of the packet and what follows its head, or `none` where more bytes are wanted and the
-- buffer stays as it is.
pub decode_bounded_head : BytesCodec → List ℕ → ℕ → ℕ → Outcome IoError (Option (ℕ × List ℕ))
unfolding join_bytes read_tail
decode_bounded_head c src first head_len = if ltb (length src) head_len then ok none else (do
  joined ← join_bytes head_len src first
  let n = joined / 2 ^ 2
  reject_if (ltb c.max_packet_length n) too_big_packet
  rest ← read_tail head_len src
  ok (some (n, rest)))

unfoldable pub decode_head : BytesCodec → List ℕ → Outcome IoError (Option (ℕ × List ℕ))
unfolding decode_bounded_head index
decode_head c [] = ok none
decode_head c (b ∷ bs) = do
  first ← index 0 (b ∷ bs)
  decode_bounded_head c (b ∷ bs) first (bit_and first 3 + 1)

-- `src.split_to(n)`, which panics past the end: the first n bytes, and what is left.
unfoldable pub split_to : ℕ → List ℕ → Outcome IoError (List ℕ × List ℕ)
split_to n src = if leb n (length src) then ok (take n src, drop n src) else panic

unfoldable pub decode_data : ℕ → List ℕ → Outcome IoError (Option (List ℕ × List ℕ))
unfolding split_to
decode_data n src =
    if ltb (length src) n then ok none else (do parts ← split_to n src; ok (some parts))

pub record Decoded : Type 0 where
  pub result : Outcome IoError (Option (List ℕ))
  pub codec : BytesCodec
  pub src : List ℕ

-- What `decode` does with the bytes that it splits off in raw mode.
pub after_raw : BytesCodec → List ℕ → Outcome IoError (List ℕ × List ℕ) → Decoded
after_raw c src (ok (packet, rest)) = record { result = ok (some packet); codec = c; src = rest }
after_raw c src (err e) = record { result = err e; codec = c; src = src }
after_raw c src panic = record { result = panic; codec = c; src = src }

unfoldable pub decode_raw : BytesCodec → List ℕ → Decoded
unfolding split_to after_raw
decode_raw c [] = record { result = ok none; codec = c; src = [] }
decode_raw c (b ∷ bs) = after_raw c (b ∷ bs) (split_to (length (b ∷ bs)) (b ∷ bs))

-- What `decode` does with the answer of `decode_data`.
pub after_data : BytesCodec → ℕ → List ℕ → Outcome IoError (Option (List ℕ × List ℕ)) → Decoded
after_data c n src (ok none) = record {
  result = ok none;
  codec = record c { state = body n };
  src = src;
}
after_data c n src (ok (some (packet, rest))) = record {
  result = ok (some packet);
  codec = record c { state = head };
  src = rest;
}
after_data c n src (err e) = record {
  result = err e;
  codec = record c { state = body n };
  src = src;
}
after_data c n src panic = record { result = panic; codec = record c { state = body n }; src = src }

unfoldable pub decode_body : BytesCodec → ℕ → List ℕ → Decoded
unfolding decode_data after_data
decode_body c n src = after_data c n src (decode_data n src)

pub after_head : BytesCodec → List ℕ → Outcome IoError (Option (ℕ × List ℕ)) → Decoded
unfolding decode_body
after_head c src (ok none) = record { result = ok none; codec = c; src = src }
after_head c src (ok (some (n, rest))) = decode_body c n rest
after_head c src (err e) = record { result = err e; codec = c; src = src }
after_head c src panic = record { result = panic; codec = c; src = src }

pub decode_from : BytesCodec → DecodeState → List ℕ → Decoded
unfolding decode_head after_head
decode_from c head src = after_head c src (decode_head c src)
decode_from c (body n) src = decode_body c n src

unfoldable pub decode : BytesCodec → List ℕ → Decoded
unfolding decode_raw decode_from
decode c src = if c.raw then decode_raw c src else decode_from c c.state src
