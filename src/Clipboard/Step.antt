-- ===== src/Clipboard/Step.antt =====
-- One message: what `receive` does to the map of sequence numbers.
use hbb_common.Common.{
  ℕ, ◌<◌, ◌≤◌, ◌≡◌, refl, subst, arith, Bool, true, false, not, Option, none, some, List, [], ◌∷◌,
  length, leb, bytes_eq, bytes_eq_refl, bytes_eq→eq, if◌then◌else◌, Outcome, ok, err, panic, ◌>>=◌,
  ◌>>◌, reject_if, ok-injective,
}
use hbb_common.Clipboard.Wire.{decoded_sequence}
use hbb_common.Clipboard.State.{
  permission_denied, can_receive, ClipboardText, ClipboardError, ClipboardState, lookup, assign,
  receive, receive_remote, decode_clipboard_text, too_many_origins,
}

-- The last sequence number that a state has recorded for an origin, 0 when it has none.
unfoldable pub last : List ℕ → List (List ℕ × ℕ) → ℕ
last origin entries = elim (lookup origin entries) [ none ↦ 0 | some n ↦ n ]

lookup-assign :
    (origin : List ℕ) (n m : ℕ) (entries : List (List ℕ × ℕ))
    → lookup origin entries ≡ some n
    → lookup origin (assign origin m entries) ≡ some m
unfolding lookup assign
lookup-assign origin n m [] h = cc
lookup-assign origin n m (entry ∷ entries) h = ground (arith, lookup-assign origin n m entries)

lookup-assign_other :
    (origin other : List ℕ) (m : ℕ) (entries : List (List ℕ × ℕ))
    → bytes_eq origin other ≡ false
    → lookup other (assign origin m entries) ≡ lookup other entries
unfolding lookup assign
lookup-assign_other origin other m [] h = refl
lookup-assign_other origin other m (entry ∷ entries) h =
    ground (arith, lookup-assign_other origin other m entries h, bytes_eq→eq entry.0 origin)

length-assign :
    (origin : List ℕ) (m : ℕ) (entries : List (List ℕ × ℕ))
    → length (assign origin m entries) ≡ length entries
unfolding assign
length-assign origin m [] = refl
length-assign origin m (entry ∷ entries) = ground (arith, length-assign origin m entries)

-- What a message that is handed out does to a state.
pub record Delivered (s u : ClipboardState) (t : ClipboardText) : Type 0 where
  pub same_local : u.local_origin_id ≡ s.local_origin_id
  pub remote : bytes_eq t.origin_id s.local_origin_id ≡ false
  pub newer : last t.origin_id s.remote_sequences < t.change_sequence
  pub noted : last t.origin_id u.remote_sequences ≡ t.change_sequence
  pub others :
      (o : List ℕ)
      → bytes_eq t.origin_id o ≡ false
      → last o u.remote_sequences ≡ last o s.remote_sequences
  pub few : length s.remote_sequences ≤ 8 → length u.remote_sequences ≤ 8

abbrev pub Step : ClipboardState → ClipboardState → Option ClipboardText → Type 0
Step s u none = u ≡ s
Step s u (some t) = Delivered s u t

module _ (s : ClipboardState) (t : ClipboardText)
    (remote : bytes_eq t.origin_id s.local_origin_id ≡ false)
    (positive : 0 < t.change_sequence) where
  receive_remote-Step :
      (o : Option ℕ) (a : Option ClipboardText × ClipboardState)
      → lookup t.origin_id s.remote_sequences ≡ o
      → receive_remote s t o ≡ ok a
      → Step s a.1 a.0
  unfolding receive_remote last lookup
  receive_remote-Step (some n) a e h =
      subst (λ (x : Option ClipboardText × ClipboardState). Step s x.1 x.0) (ok-injective _ _ h)
        (by_order (leb t.change_sequence n) refl)
    where
      by_order :
          (b : Bool)
          → leb t.change_sequence n ≡ b
          → let x : Option ClipboardText × ClipboardState =
              (if b then (none, s) else (
                some t,
                record s {
                  remote_sequences = assign t.origin_id t.change_sequence s.remote_sequences;
                },
              )) in
            Step s x.1 x.0
      by_order true f = refl
      by_order false f = record {
        same_local = refl;
        remote = remote;
        newer = rw (last, e) (ground arith);
        noted = rw (last, lookup-assign t.origin_id n t.change_sequence s.remote_sequences e) refl;
        others = λ o g.
            rw (last, lookup-assign_other t.origin_id o t.change_sequence s.remote_sequences g)
              refl;
        few = λ l. omega (arith, length-assign t.origin_id t.change_sequence s.remote_sequences);
      }
  receive_remote-Step none a e h = by_room (leb 8 (length s.remote_sequences)) refl h
    where
      noted_state : ClipboardState
      noted_state = record s {
        remote_sequences = (t.origin_id, t.change_sequence) ∷ s.remote_sequences;
      }

      by_room :
          (b : Bool)
          → leb 8 (length s.remote_sequences) ≡ b
          → (reject_if b too_many_origins >> ok (some t, noted_state)) ≡ ok a
          → Step s a.1 a.0
      by_room true f g = cc
      by_room false f g =
          subst (λ (x : Option ClipboardText × ClipboardState). Step s x.1 x.0) (ok-injective _ _ g)
            (record {
              same_local = refl;
              remote = remote;
              newer = rw (last, e) positive;
              noted = rw (last, lookup, bytes_eq_refl t.origin_id) refl;
              others = λ o k. rw (last, lookup, k) refl;
              few = λ l. ground arith;
            })

pub receive-Step :
    (s : ClipboardState) (p : List ℕ) (a : Option ClipboardText × ClipboardState)
    → receive s p ≡ ok a
    → Step s a.1 a.0
unfolding receive
receive-Step s p a h = by_permission (can_receive s.permission) h
  where
    by_origin :
        (t : ClipboardText)
        → 0 < t.change_sequence
        → (b : Bool) → bytes_eq t.origin_id s.local_origin_id ≡ b
        → (if b then ok (none, s) else receive_remote s t (lookup t.origin_id s.remote_sequences))
          ≡ ok a
        → Step s a.1 a.0
    by_origin t positive true e f =
        subst (λ (x : Option ClipboardText × ClipboardState). Step s x.1 x.0) (ok-injective _ _ f)
          refl
    by_origin t positive false e f =
        receive_remote-Step s t e positive (lookup t.origin_id s.remote_sequences) a refl f

    by_text :
        (o : Outcome ClipboardError ClipboardText)
        → decode_clipboard_text p s.max_bytes ≡ o
        → (o >>= λ t.
            if bytes_eq t.origin_id s.local_origin_id
            then ok (none, s)
            else receive_remote s t (lookup t.origin_id s.remote_sequences))
          ≡ ok a
        → Step s a.1 a.0
    by_text (ok t) e f =
        by_origin t (decoded_sequence p s.max_bytes t e) (bytes_eq t.origin_id s.local_origin_id)
          refl f
    by_text (err x) e f = cc
    by_text panic e f = cc

    by_permission :
        (b : Bool)
        → (do
          reject_if (not b) permission_denied
          t ← decode_clipboard_text p s.max_bytes
          if bytes_eq t.origin_id s.local_origin_id
              then ok (none, s)
              else receive_remote s t (lookup t.origin_id s.remote_sequences))
          ≡ ok a
        → Step s a.1 a.0
    by_permission true f = by_text (decode_clipboard_text p s.max_bytes) refl f
    by_permission false f = cc
