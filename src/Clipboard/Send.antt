-- ===== src/Clipboard/Send.antt =====
-- From one peer's clipboard to the other's: what `prepare_local_text` writes, `receive` hands out.
use hbb_common.Common.{
  ℕ, ◌+◌, ◌^◌, ◌<◌, ◌≡◌, refl, sym, ap, ◌∙◌, arith, inl, inr, Bool, true, false, not, some,
  Option-cases, List, ◌∷◌, length, All, leb, bytes_eq, Outcome, ok, err, panic, ◌>>=◌, ◌>>◌,
  reject_if, ok-injective, subst,
}
use hbb_common.Common.Bytes.{IsByte}
use hbb_common.Clipboard.State.{
  ClipboardText, ClipboardError, ClipboardState, can_send, can_receive, permission_denied,
  sequence_exhausted, encode_clipboard_text, decode_clipboard_text, prepare_local_text, lookup,
  assign, receive, receive_remote,
}
use hbb_common.Clipboard.Fields.{IsText}
use hbb_common.Clipboard.Wire.{decode_clipboard_text_iff}
use hbb_common.Clipboard.Step.{last}

-- The text that a state sends next.
abbrev pub next_text : ClipboardState → List ℕ → ClipboardText
next_text s text = record {
  origin_id = s.local_origin_id;
  change_sequence = s.next_local_sequence;
  text = text;
}

prepare_local_text-eq-ok :
    (s u : ClipboardState) (text payload : List ℕ)
    → prepare_local_text s text ≡ ok (payload, u)
    → (encode_clipboard_text s.local_origin_id s.next_local_sequence text s.max_bytes ≡ ok payload)
      × (u ≡ record s { next_local_sequence = s.next_local_sequence + 1 })
unfolding prepare_local_text
prepare_local_text-eq-ok s u text payload h =
    by_steps (can_send s.permission)
      (encode_clipboard_text s.local_origin_id s.next_local_sequence text s.max_bytes)
      (leb (2 ^ 64) (s.next_local_sequence + 1)) refl h
  where
    sent : List ℕ → Outcome ClipboardError (List ℕ × ClipboardState)
    sent p = ok (p, record s { next_local_sequence = s.next_local_sequence + 1 })

    sent_inversion :
        (p : List ℕ)
        → encode_clipboard_text s.local_origin_id s.next_local_sequence text s.max_bytes ≡ ok p
        → sent p ≡ ok (payload, u)
        → (encode_clipboard_text s.local_origin_id s.next_local_sequence text s.max_bytes
            ≡ ok payload)
          × (u ≡ record s { next_local_sequence = s.next_local_sequence + 1 })
    sent_inversion p e k =
        let same = ok-injective _ _ k in
        (
          e ∙ ap (λ (x : List ℕ × ClipboardState). ok x.0) same,
          sym (ap (λ (x : List ℕ × ClipboardState). x.1) same),
        )

    by_steps :
        (b : Bool) (o : Outcome ClipboardError (List ℕ)) (full : Bool)
        → encode_clipboard_text s.local_origin_id s.next_local_sequence text s.max_bytes ≡ o
        → (do reject_if (not b) permission_denied; p ← o; reject_if full sequence_exhausted; sent p)
          ≡ ok (payload, u)
        → (encode_clipboard_text s.local_origin_id s.next_local_sequence text s.max_bytes
            ≡ ok payload)
          × (u ≡ record s { next_local_sequence = s.next_local_sequence + 1 })
    by_steps false o full e k = cc
    by_steps true (err x) full e k = cc
    by_steps true panic full e k = cc
    by_steps true (ok p) true e k = cc
    by_steps true (ok p) false e k = sent_inversion p e k

-- A message that is newer than what is recorded of its origin, with room for one more origin.
receive_remote-newer :
    (r : ClipboardState) (t : ClipboardText)
    → last t.origin_id r.remote_sequences < t.change_sequence
    → length r.remote_sequences < 8
    → (q : ClipboardState) × (receive_remote r t (lookup t.origin_id r.remote_sequences)
        ≡ ok (some t, q))
unfolding receive_remote last
receive_remote-newer r t newer room = elim (Option-cases (lookup t.origin_id r.remote_sequences)) [
  | inl e ↦ (
    record r { remote_sequences = (t.origin_id, t.change_sequence) ∷ r.remote_sequences },
    rw e (ground arith),
  )
  | inr (n, e) ↦ (
    record r { remote_sequences = assign t.origin_id t.change_sequence r.remote_sequences },
    ground (arith, e, newer),
  )
]

-- A text that one peer sends, the other hands out: when `prepare_local_text` gives a payload, the sender
-- counts one text more, and a peer of another origin that may receive, has the same size limit,
-- has recorded only older texts of the sender and has room for one more origin hands out exactly
-- the sender's origin, number and text. The sender's origin has 16 bytes, its number is a `u64`,
-- the text is UTF-8, and the payload is a byte string.
pub receive-prepare_local_text :
    (s u r : ClipboardState) (text payload : List ℕ)
    → prepare_local_text s text ≡ ok (payload, u)
    → IsText (next_text s text)
    → All IsByte payload
    → can_receive r.permission ≡ true
    → r.max_bytes ≡ s.max_bytes
    → bytes_eq s.local_origin_id r.local_origin_id ≡ false
    → last s.local_origin_id r.remote_sequences < s.next_local_sequence
    → length r.remote_sequences < 8
    → (u ≡ record s { next_local_sequence = s.next_local_sequence + 1 })
      × ((q : ClipboardState) × (receive r payload ≡ ok (some (next_text s text), q)))
unfolding receive
receive-prepare_local_text s u r text payload h valid bytes may limit other newer room =
    let (encoded, counted) = prepare_local_text-eq-ok s u text payload h in
    let decoded =
      (decode_clipboard_text_iff payload s.max_bytes (next_text s text) bytes).1 (valid, encoded) in
    let (q, handed) = receive_remote-newer r (next_text s text) newer room in
    let at_peer =
      subst (λ (n : ℕ). decode_clipboard_text payload n ≡ ok (next_text s text)) (sym limit)
        decoded in
    (counted, (q, rw (may, at_peer, other) handed))
