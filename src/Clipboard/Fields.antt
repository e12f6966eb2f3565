-- ===== src/Clipboard/Fields.antt =====
-- `decode_clipboard_text` without its reads, and what it accepts.
use hbb_common.Common.{
  ℕ, ◌+◌, ◌-◌, ◌%◌, ◌^◌, ◌<◌, ◌≤◌, ◌≡◌, refl, sym, ap, ap₂, ◌∙◌, arith, false, not, ◌||◌, List, [],
  ◌∷◌, ◌++◌, length, drop, All, ltb, ◌==◌, le→not_ltb, Outcome, ok, err, panic, ◌>>=◌, ◌>>◌,
  reject_if, map_err,
}
use hbb_common.Common.Bytes.{
  IsByte, field, slice, slice-drop, to_be_bytes, to_be_bytes-slice, from_be_bytes-slice-lt,
  length-slice, read_in_range, index_in_range, read_slice_in_range, read_tail_in_range,
}
use hbb_common.Common.Utf8.{from_utf8}
use hbb_common.Clipboard.State.{
  ClipboardText, ClipboardError, unsupported_format, invalid_reserved_field, invalid_size,
  invalid_utf8, validate_origin_and_sequence, encode_clipboard_text, decode_clipboard_text,
}

abbrev pub decoded_text : List ℕ → ClipboardText
decoded_text p = record {
  origin_id = slice 0 16 p;
  change_sequence = field 8 16 p;
  text = drop 32 p;
}

abbrev pub checked_text : List ℕ → ℕ → Outcome ClipboardError ClipboardText
checked_text p limit = do
  validate_origin_and_sequence (slice 0 16 p) (field 8 16 p)
  reject_if (not (field 1 24 p == 1)) (unsupported_format (field 1 24 p))
  reject_if (not (field 1 25 p == 0) || not (field 2 26 p == 0)) invalid_reserved_field
  reject_if (not (field 4 28 p == length (drop 32 p)) || ltb limit (field 4 28 p))
      (invalid_size (field 4 28 p))
  cs ← map_err (λ e. invalid_utf8) (from_utf8 (drop 32 p))
  ok (decoded_text p)

pub decode_clipboard_text-eq-checked_text :
    (p : List ℕ) (limit : ℕ) → 32 ≤ length p → decode_clipboard_text p limit ≡ checked_text p limit
unfolding decode_clipboard_text
decode_clipboard_text-eq-checked_text p limit h = rw (le→not_ltb (length p) 32 h) (
    simp
      (
        read_slice_in_range {E = ClipboardError} 0 16 p (omega arith),
        read_in_range {E = ClipboardError} 8 16 p (omega arith),
        index_in_range {E = ClipboardError} 24 p (omega arith),
        index_in_range {E = ClipboardError} 25 p (omega arith),
        read_in_range {E = ClipboardError} 2 26 p (omega arith),
        read_in_range {E = ClipboardError} 4 28 p (omega arith),
        read_tail_in_range {E = ClipboardError} 32 p h,
      )
      refl)

-- What a payload that is accepted looks like.
pub record Accepted (p : List ℕ) (limit : ℕ) : Type 0 where
  pub valid : validate_origin_and_sequence (slice 0 16 p) (field 8 16 p) ≡ ok tt
  pub format : field 1 24 p ≡ 1
  pub flags : field 1 25 p ≡ 0
  pub reserved : field 2 26 p ≡ 0
  pub size : field 4 28 p ≡ length (drop 32 p)
  pub small : length (drop 32 p) ≤ limit
  pub utf8 : (cs : List ℕ) × (from_utf8 (drop 32 p) ≡ ok cs)

checked_numbers :
    (limit format flags reserved declared size : ℕ) (text : Outcome (Unit {0}) (List ℕ))
    (valid : Outcome ClipboardError (Unit {0})) (t r : ClipboardText)
    → (do
      valid
      reject_if (not (format == 1)) (unsupported_format format)
      reject_if (not (flags == 0) || not (reserved == 0)) invalid_reserved_field
      reject_if (not (declared == size) || ltb limit declared) (invalid_size declared)
      cs ← map_err (λ e. invalid_utf8) text
      ok r)
      ≡ ok t
    → (r ≡ t)
      × (valid ≡ ok tt)
      × (format ≡ 1)
      × (flags ≡ 0)
      × (reserved ≡ 0)
      × (declared ≡ size)
      × (size ≤ limit)
      × ((cs : List ℕ) × (text ≡ ok cs))
checked_numbers limit format flags reserved declared size (ok cs) (ok u) t r h = (
  ground arith,
  refl,
  ground arith,
  ground arith,
  ground arith,
  ground arith,
  ground arith,
  (cs, refl),
)
checked_numbers limit format flags reserved declared size (err e) (ok u) t r h =
    absurd (ground arith)
checked_numbers limit format flags reserved declared size panic (ok u) t r h = absurd (ground arith)
checked_numbers limit format flags reserved declared size text (err e) t r h = cc
checked_numbers limit format flags reserved declared size text panic t r h = cc

pub checked_text-Accepted :
    (p : List ℕ) (limit : ℕ) (t : ClipboardText)
    → checked_text p limit ≡ ok t
    → (decoded_text p ≡ t) × Accepted p limit
checked_text-Accepted p limit t h =
    let (same, valid, format, flags, reserved, size, small, utf8) =
      checked_numbers limit (field 1 24 p) (field 1 25 p) (field 2 26 p) (field 4 28 p)
        (length (drop 32 p)) (from_utf8 (drop 32 p))
        (validate_origin_and_sequence (slice 0 16 p) (field 8 16 p)) t (decoded_text p) h in
    (
      same,
      record {
        valid = valid;
        format = format;
        flags = flags;
        reserved = reserved;
        size = size;
        small = small;
        utf8 = utf8;
      },
    )

payload_fields :
    (p : List ℕ)
    → slice 0 16 p
        ++ (slice 16 8 p
            ++ (slice 24 1 p ++ (slice 25 1 p ++ (slice 26 2 p ++ (slice 28 4 p ++ drop 32 p)))))
      ≡ p
payload_fields p =
    rw
      (
        slice-drop 28 4 p,
        slice-drop 26 2 p,
        slice-drop 25 1 p,
        slice-drop 24 1 p,
        slice-drop 16 8 p,
      )
      (slice-drop 0 16 p)

payload_parts :
    (p : List ℕ)
    → slice 24 1 p ≡ 1 ∷ []
    → slice 25 1 p ≡ 0 ∷ []
    → slice 0 16 p ++ (slice 16 8 p ++ (1 ∷ 0 ∷ (slice 26 2 p ++ (slice 28 4 p ++ drop 32 p)))) ≡ p
payload_parts p f g =
    ap₂
      (λ (a b : List ℕ).
        slice 0 16 p
        ++ (slice 16 8 p ++ (a ++ (b ++ (slice 26 2 p ++ (slice 28 4 p ++ drop 32 p))))))
      (sym f) (sym g)
    ∙ payload_fields p

one_byte : (n : ℕ) → to_be_bytes 1 n ≡ (n % 256) ∷ []
unfolding to_be_bytes
one_byte n = ap (λ (b : ℕ). b ∷ []) (omega arith)

fits_u32 : (n m : ℕ) → m ≡ n → m < 256 ^ 4 → (n % 2 ^ 32 ≡ m) × (ltb (2 ^ 32 - 1) n ≡ false)
fits_u32 n m e h = (omega arith, ground arith)

pub encode_clipboard_text-Accepted :
    (p : List ℕ) (limit : ℕ)
    → All IsByte p
    → 32 ≤ length p
    → Accepted p limit
    → encode_clipboard_text (slice 0 16 p) (field 8 16 p) (drop 32 p) limit ≡ ok p
unfolding encode_clipboard_text
encode_clipboard_text-Accepted p limit bytes len a =
    let (declared, low) =
      fits_u32 (length (drop 32 p)) (field 4 28 p) a.size
        (from_be_bytes-slice-lt 28 4 p bytes (omega arith)) in
    rw (a.valid, low, declared, le→not_ltb limit (length (drop 32 p)) a.small)
      (ap ok (
        rw
          (
            to_be_bytes-slice 16 8 p bytes (omega arith),
            to_be_bytes-slice 28 4 p bytes (omega arith),
            reserved_bytes,
          )
          (payload_parts p (byte_at 24 1 a.format (omega arith, omega arith))
            (byte_at 25 0 a.flags (omega arith, omega arith)))))
  where
    byte_at : (off n : ℕ) → field 1 off p ≡ n → (n < 256) × (off + 1 ≤ 32) → slice off 1 p ≡ n ∷ []
    byte_at off n e h =
        sym (to_be_bytes-slice off 1 p bytes (omega (arith, len, h.1)))
        ∙ one_byte (field 1 off p)
        ∙ ap (λ (b : ℕ). b ∷ []) (omega (arith, e, h.0))

    reserved_bytes : to_be_bytes 2 0 ≡ slice 26 2 p
    reserved_bytes =
        ap (to_be_bytes 2) (sym a.reserved) ∙ to_be_bytes-slice 26 2 p bytes (omega arith)

-- The fields are values of their Rust types.
pub record IsText (t : ClipboardText) : Type 0 where
  pub origin_len : length t.origin_id ≡ 16
  pub sequence_u64 : t.change_sequence < 2 ^ 64
  pub text_str : (cs : List ℕ) × (from_utf8 t.text ≡ ok cs)

pub Accepted-IsText :
    (p : List ℕ) (limit : ℕ)
    → All IsByte p
    → 32 ≤ length p
    → Accepted p limit
    → IsText (decoded_text p)
Accepted-IsText p limit bytes len a = record {
  origin_len = length-slice 0 16 p (omega arith);
  sequence_u64 = omega (arith, from_be_bytes-slice-lt 16 8 p bytes (omega arith));
  text_str = a.utf8;
}
