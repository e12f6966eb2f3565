-- ===== src/Video/Place.antt =====
-- How the reassembler makes place for a frame, and drops the obsolete ones.
use hbb_common.Common.{
  ℕ, ◌⊎◌, inl, inr, zero, suc, ◌+◌, ◌≤◌, ◌<◌, ◌≡◌, refl, sym, ap, ◌∙◌, arith, Bool, true, false,
  Option, none, some, List, [], ◌∷◌, length, leb, if◌then◌else◌,
}
use hbb_common.Common.Saturating.{saturating_u32}
use hbb_common.Common.OrderedMap.{get, total-delete, get-delete}
use hbb_common.Video.Types.{PendingFrame}
use hbb_common.Video.Reassembler.{
  VideoReassembler, drop_frame, record_drops, count_evicted, first_delta, first_frame, or_else,
  victim, evict_frame, evict_oldest, make_place,
}
use hbb_common.Video.Valid.{
  Known, frame_bytes, IsValid, Shrunk, Shrunk-refl, Shrunk-trans, drop_frame-Shrunk,
  drop_frame-delete,
}

-- A frame with the identifier is pending.
unfoldable pub is_pending : ℕ → List (ℕ × PendingFrame) → Bool
is_pending k es = elim (get k es) [ none ↦ false | some p ↦ true ]

first_delta-is_pending :
    (es : List (ℕ × PendingFrame)) (k : ℕ) → first_delta es ≡ some k → is_pending k es ≡ true
unfolding first_delta is_pending get
first_delta-is_pending [] k h = cc
first_delta-is_pending (e ∷ es) k h = ground (arith, first_delta-is_pending es k)

first_frame-is_pending :
    (es : List (ℕ × PendingFrame)) (k : ℕ) → first_frame es ≡ some k → is_pending k es ≡ true
unfolding is_pending get
first_frame-is_pending [] k h = cc
first_frame-is_pending (e ∷ es) k h = ground arith

or_else_cases : (a b : Option ℕ) (k : ℕ) → or_else a b ≡ some k → (a ≡ some k) ⊎ (b ≡ some k)
or_else_cases none b k h = inr h
or_else_cases (some j) b k h = inl h

or_else-none : (a b : Option ℕ) → or_else a b ≡ none → b ≡ none
or_else-none none b h = h
or_else-none (some j) b h = cc

victim-is_pending :
    (es : List (ℕ × PendingFrame)) (k : ℕ) → victim es ≡ some k → is_pending k es ≡ true
unfolding victim
victim-is_pending es k h = elim (or_else_cases (first_delta es) (first_frame es) k h) [
  | inl e ↦ first_delta-is_pending es k e
  | inr e ↦ first_frame-is_pending es k e
]

victim-none : (es : List (ℕ × PendingFrame)) → victim es ≡ none → length es ≡ 0
unfolding victim
victim-none [] h = refl
victim-none (e ∷ es) h = absurd (cc (or_else-none (first_delta (e ∷ es)) (some e.0) h))

drop_frame-fewer :
    (G : Known) (low : ℕ) (r : VideoReassembler) (k : ℕ)
    → IsValid G low r
    → is_pending k r.pending ≡ true
    → length (drop_frame r k).pending + 1 ≡ length r.pending
unfolding is_pending
drop_frame-fewer G low r k v h = by_get (get k r.pending) refl
  where
    by_get :
        (o : Option PendingFrame)
        → get k r.pending ≡ o
        → length (drop_frame r k).pending + 1 ≡ length r.pending
    by_get none e =
        absurd (cc (sym h ∙ ap (λ o. elim o as (λ x. Bool) [ none ↦ false | some p ↦ true ]) e))
    by_get (some p) e =
        rw (drop_frame-delete G low r k)
          (total-delete frame_bytes low k p r.pending v.ascending e).1

-- What an eviction does.
evict_frame_lem :
    (G : Known) (low : ℕ) (r : VideoReassembler) (o : Option ℕ)
    → IsValid G low r
    → ((k : ℕ) → o ≡ some k → is_pending k r.pending ≡ true)
    → (o ≡ none → length r.pending ≡ 0)
    → Shrunk G low r (evict_frame r o).0
      × (0 < length r.pending → length (evict_frame r o).0.pending + 1 ≡ length r.pending)
unfolding evict_frame record_drops count_evicted
evict_frame_lem G low r none v h n = (Shrunk-refl G low r v, λ l. omega (arith, n refl))
evict_frame_lem G low r (some k) v h n =
    (drop_frame-Shrunk G low r k v, λ l. drop_frame-fewer G low r k v (h k refl))

evict_oldest_lem :
    (G : Known) (low : ℕ) (r : VideoReassembler)
    → IsValid G low r
    → Shrunk G low r (evict_oldest r).0
      × (0 < length r.pending → length (evict_oldest r).0.pending + 1 ≡ length r.pending)
unfolding evict_oldest
evict_oldest_lem G low r v =
    evict_frame_lem G low r (victim r.pending) v (victim-is_pending r.pending)
      (victim-none r.pending)

make_place-done :
    (fuel : ℕ) (r : VideoReassembler) (dropped : ℕ)
    → leb r.config.max_pending_frames (length r.pending) ≡ false
    → make_place fuel r dropped ≡ (r, dropped)
unfolding make_place
make_place-done zero r dropped h = refl
make_place-done (suc fuel) r dropped h = rw (make_place, h) refl

make_place-next :
    (fuel : ℕ) (r : VideoReassembler) (dropped : ℕ)
    → leb r.config.max_pending_frames (length r.pending) ≡ true
    → make_place (suc fuel) r dropped
      ≡ make_place fuel
          (evict_oldest r).0
          (if (evict_oldest r).1 then saturating_u32 dropped 1 else dropped)
unfolding make_place
make_place-next fuel r dropped h = rw (make_place, h) refl

-- The loop that evicts frames ends with place for one more, within as many rounds as there are
-- frames.
pub make_place_lem :
    (G : Known) (low fuel : ℕ) (r : VideoReassembler) (dropped : ℕ)
    → IsValid G low r
    → length r.pending ≤ fuel
    → Shrunk G low r (make_place fuel r dropped).0
      × (length (make_place fuel r dropped).0.pending < r.config.max_pending_frames)
make_place_lem G low zero r dropped v h =
    rw (make_place-done zero r dropped (ground (arith, v.place)))
      (Shrunk-refl G low r v, omega (arith, v.place))
make_place_lem G low (suc fuel) r dropped v h =
    by_full (leb r.config.max_pending_frames (length r.pending)) refl (
      make_place_lem G low fuel (evict_oldest r).0
        (if (evict_oldest r).1 then saturating_u32 dropped 1 else dropped))
  where
    by_full :
        (b : Bool)
        → leb r.config.max_pending_frames (length r.pending) ≡ b
        → (let s = (evict_oldest r).0 in
            let n =
              make_place fuel s
                (if (evict_oldest r).1 then saturating_u32 dropped 1 else dropped) in
            IsValid G low s
            → length s.pending ≤ fuel
            → Shrunk G low s n.0 × (length n.0.pending < s.config.max_pending_frames))
        → Shrunk G low r (make_place (suc fuel) r dropped).0
          × (length (make_place (suc fuel) r dropped).0.pending < r.config.max_pending_frames)
    by_full false e rest =
        rw (make_place-done (suc fuel) r dropped e) (Shrunk-refl G low r v, ground arith)
    by_full true e rest =
        let (once, fewer) = evict_oldest_lem G low r v in
        let here : 0 < length r.pending = ground (arith, v.place) in
        let (more, room) = rest once.valid (omega (arith, h, fewer here)) in
        rw (make_place-next fuel r dropped e) (
          Shrunk-trans G low r (evict_oldest r).0
              (make_place fuel (evict_oldest r).0
                (if (evict_oldest r).1 then saturating_u32 dropped 1 else dropped)).0
              once more,
          omega (arith, room, ap (λ c. c.max_pending_frames) once.config),
        )

evict_frame-absent :
    (G : Known) (low : ℕ) (r : VideoReassembler) (o : Option ℕ) (j : ℕ)
    → get j r.pending ≡ none
    → get j (evict_frame r o).0.pending ≡ none
unfolding evict_frame record_drops count_evicted
evict_frame-absent G low r none j h = h
evict_frame-absent G low r (some k) j h =
    ap (get j) (drop_frame-delete G low r k) ∙ ground (arith, get-delete j k r.pending)

-- No frame comes to be pending by making place.
pub make_place-absent :
    (fuel : ℕ) (r : VideoReassembler) (dropped j : ℕ)
    → get j r.pending ≡ none
    → get j (make_place fuel r dropped).0.pending ≡ none
unfolding make_place evict_oldest
make_place-absent zero r dropped j h = h
make_place-absent (suc fuel) r dropped j h =
    by_full (leb r.config.max_pending_frames (length r.pending)) refl (
      make_place-absent fuel (evict_oldest r).0
        (if (evict_oldest r).1 then saturating_u32 dropped 1 else dropped) j
        (evict_frame-absent (λ k n i f. Unit {0}) 0 r (victim r.pending) j h))
  where
    by_full :
        (b : Bool)
        → leb r.config.max_pending_frames (length r.pending) ≡ b
        → get j
            (make_place fuel
              (evict_oldest r).0
              (if (evict_oldest r).1 then saturating_u32 dropped 1 else dropped)).0.pending
          ≡ none
        → get j (make_place (suc fuel) r dropped).0.pending ≡ none
    by_full false e rest = rw (make_place-done (suc fuel) r dropped e) h
    by_full true e rest = rw (make_place-next fuel r dropped e) rest
