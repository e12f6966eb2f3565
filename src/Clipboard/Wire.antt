-- ===== src/Clipboard/Wire.antt =====
-- `decode_clipboard_text` and `encode_clipboard_text` are inverse.
use hbb_common.Common.{
  ℕ, ◌+◌, ◌-◌, ◌%◌, ◌^◌, ◌<◌, ◌≤◌, ◌≡◌, ◌↔◌, refl, sym, ap, subst, ◌∙◌, arith, inl, inr, not, ◌||◌,
  List, ◌∷◌, ◌++◌, length, take, drop, All, ltb, ◌==◌, Bool-cases, ltb→lt, not_ltb→le, Outcome, ok,
  err, panic, ◌>>◌, reject_if, take-append, drop-append, drop-append_add, length-append,
}
use hbb_common.Common.Bytes.{
  IsByte, field, slice, to_be_bytes, from_be_bytes, from_be_bytes-to_be_bytes,
}
use hbb_common.Clipboard.State.{
  ClipboardText, ClipboardError, header_truncated, invalid_size, validate_origin_and_sequence,
  encode_clipboard_text, decode_clipboard_text,
}
use hbb_common.Clipboard.Fields.{
  checked_text, decode_clipboard_text-eq-checked_text, checked_text-Accepted,
  encode_clipboard_text-Accepted, IsText, Accepted-IsText,
}

abbrev text_bytes : ClipboardText → List ℕ
text_bytes t =
    t.origin_id
    ++ (to_be_bytes 8 t.change_sequence
        ++ (1 ∷ 0 ∷ (to_be_bytes 2 0 ++ (to_be_bytes 4 (length t.text % 2 ^ 32) ++ t.text))))

module _ (t : ClipboardText) (v : IsText t) where
  length-text_bytes : length (text_bytes t) ≡ 32 + length t.text
  unfolding to_be_bytes
  length-text_bytes = omega (
    arith,
    v.origin_len,
    length-append t.origin_id (
        to_be_bytes 8 t.change_sequence
        ++ (1 ∷ 0 ∷ (to_be_bytes 2 0 ++ (to_be_bytes 4 (length t.text % 2 ^ 32) ++ t.text)))),
  )

  origin_field : slice 0 16 (text_bytes t) ≡ t.origin_id
  origin_field = take-append 16 t.origin_id _ v.origin_len

  sequence_field : field 8 16 (text_bytes t) ≡ t.change_sequence
  unfolding to_be_bytes
  sequence_field =
      ap (λ (bs : List ℕ). from_be_bytes (take 8 bs)) (drop-append 16 t.origin_id _ v.origin_len)
      ∙ from_be_bytes-to_be_bytes 8 t.change_sequence v.sequence_u64

  format_field : field 1 24 (text_bytes t) ≡ 1
  unfolding to_be_bytes
  format_field =
      ap (λ (bs : List ℕ). from_be_bytes (take 1 bs))
        (drop-append_add 16 8 t.origin_id _ v.origin_len)
      ∙ from_be_bytes-to_be_bytes 1 1 (omega arith)

  flags_field : field 1 25 (text_bytes t) ≡ 0
  unfolding to_be_bytes
  flags_field =
      ap (λ (bs : List ℕ). from_be_bytes (take 1 bs))
        (drop-append_add 16 9 t.origin_id _ v.origin_len)
      ∙ from_be_bytes-to_be_bytes 1 0 (omega arith)

  reserved_field : field 2 26 (text_bytes t) ≡ 0
  unfolding to_be_bytes
  reserved_field =
      ap (λ (bs : List ℕ). from_be_bytes (take 2 bs))
        (drop-append_add 16 10 t.origin_id _ v.origin_len)
      ∙ from_be_bytes-to_be_bytes 2 0 (omega arith)

  declared_field : field 4 28 (text_bytes t) ≡ length t.text % 2 ^ 32
  unfolding to_be_bytes
  declared_field =
      ap (λ (bs : List ℕ). from_be_bytes (take 4 bs))
        (drop-append_add 16 12 t.origin_id _ v.origin_len)
      ∙ from_be_bytes-to_be_bytes 4 (length t.text % 2 ^ 32) (omega arith)

  text_field : drop 32 (text_bytes t) ≡ t.text
  unfolding to_be_bytes
  text_field = drop-append_add 16 16 t.origin_id _ v.origin_len

  decode_clipboard_text-text_bytes :
      (limit : ℕ)
      → validate_origin_and_sequence t.origin_id t.change_sequence ≡ ok tt
      → length t.text ≤ limit
      → length t.text < 2 ^ 32
      → decode_clipboard_text (text_bytes t) limit ≡ ok t
  decode_clipboard_text-text_bytes limit valid small low =
      decode_clipboard_text-eq-checked_text (text_bytes t) limit (omega (arith, length-text_bytes))
      ∙ rw
          (
            origin_field, sequence_field, format_field, flags_field, reserved_field, declared_field,
            text_field, valid, v.text_str.1,
          )
          (lengths (length t.text) small low)
    where
      lengths :
          (n : ℕ)
          → n ≤ limit
          → n < 2 ^ 32
          → (reject_if (not (n % 2 ^ 32 == n) || ltb limit (n % 2 ^ 32)) (invalid_size (n % 2 ^ 32))
              >> ok t)
            ≡ ok t
      lengths n h l = ground arith

encode_clipboard_text-eq-ok :
    (t : ClipboardText) (limit : ℕ) (p : List ℕ)
    → encode_clipboard_text t.origin_id t.change_sequence t.text limit ≡ ok p
    → (validate_origin_and_sequence t.origin_id t.change_sequence ≡ ok tt)
      × (length t.text ≤ limit)
      × (length t.text < 2 ^ 32)
      × (text_bytes t ≡ p)
unfolding encode_clipboard_text
encode_clipboard_text-eq-ok t limit p h =
    go (validate_origin_and_sequence t.origin_id t.change_sequence) (length t.text) refl refl h
  where
    go :
        (o : Outcome ClipboardError (Unit {0})) (n : ℕ)
        → validate_origin_and_sequence t.origin_id t.change_sequence ≡ o
        → length t.text ≡ n
        → (o
            >> (reject_if (ltb limit n || ltb (2 ^ 32 - 1) n) (invalid_size n)
                >> ok (text_bytes t)))
          ≡ ok p
        → (validate_origin_and_sequence t.origin_id t.change_sequence ≡ ok tt)
          × (length t.text ≤ limit)
          × (length t.text < 2 ^ 32)
          × (text_bytes t ≡ p)
    go (ok u) n e f k = (e, ground arith, ground arith, ground arith)
    go (err x) n e f k = cc
    go panic n e f k = cc

pub decode_clipboard_text_short :
    (p : List ℕ) (limit : ℕ) → length p < 32 → decode_clipboard_text p limit ≡ err header_truncated
unfolding decode_clipboard_text
decode_clipboard_text_short p limit h = ground arith

decode_clipboard_text-long :
    (p : List ℕ) (limit : ℕ) (t : ClipboardText)
    → All IsByte p
    → 32 ≤ length p
    → checked_text p limit ≡ ok t
    → IsText t × (encode_clipboard_text t.origin_id t.change_sequence t.text limit ≡ ok p)
decode_clipboard_text-long p limit t bytes len h =
    let (e, a) = checked_text-Accepted p limit t h in
    rw (sym e)
      (Accepted-IsText p limit bytes len a, encode_clipboard_text-Accepted p limit bytes len a)

-- On byte strings, and for every limit on the size, decoding a clipboard text is exactly the inverse of
-- encoding one: `decode_clipboard_text` accepts a payload if and only if the fields that it returns
-- are values of their types, the text UTF-8, and `encode_clipboard_text` writes that payload for them.
pub decode_clipboard_text_iff :
    (p : List ℕ) (limit : ℕ) (t : ClipboardText)
    → All IsByte p
    → (decode_clipboard_text p limit ≡ ok t)
      ↔ (IsText t × (encode_clipboard_text t.origin_id t.change_sequence t.text limit ≡ ok p))
decode_clipboard_text_iff p limit t bytes = (
  λ d. elim (Bool-cases (ltb (length p) 32)) [
    | inl short ↦ cc (d, decode_clipboard_text_short p limit (ltb→lt _ _ short))
    | inr long ↦
        let len = not_ltb→le _ _ long in
        decode_clipboard_text-long p limit t bytes len
          (sym (decode_clipboard_text-eq-checked_text p limit len) ∙ d)
  ],
  λ v.
      let (valid, small, low, e) = encode_clipboard_text-eq-ok t limit p v.1 in
      subst (λ (q : List ℕ). decode_clipboard_text q limit ≡ ok t) e
        (decode_clipboard_text-text_bytes t v.0 limit valid small low),
)

-- A clipboard text that is decoded has a sequence number above 0.
pub decoded_sequence :
    (p : List ℕ) (limit : ℕ) (t : ClipboardText)
    → decode_clipboard_text p limit ≡ ok t
    → 0 < t.change_sequence
unfolding validate_origin_and_sequence
decoded_sequence p limit t d = elim (Bool-cases (ltb (length p) 32)) [
  | inl short ↦ absurd (cc (d, decode_clipboard_text_short p limit (ltb→lt _ _ short)))
  | inr long ↦
      let (e, a) =
        checked_text-Accepted p limit t
          (sym (decode_clipboard_text-eq-checked_text p limit (not_ltb→le _ _ long)) ∙ d) in
      subst (λ (x : ClipboardText). 0 < x.change_sequence) e (ground (arith, a.valid))
]
