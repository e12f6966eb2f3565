-- ===== src/Video/Valid.antt =====
-- What the reassembler keeps true of its pending frames.
use hbb_common.Common.{
  ℕ, suc, ◌+◌, ◌-◌, ◌^◌, ◌≤◌, ◌<◌, ◌≡◌, refl, sym, ◌∙◌, arith, Bool, true, false, Option, none,
  some, List, [], ◌∷◌, length, ltb, if◌then◌else◌,
}
use hbb_common.Common.OrderedMap.{
  get, delete, total, From, Every, delete-From, delete-Every, delete_absent, total-delete,
}
use hbb_common.Video.Types.{VideoReassemblyConfig, PendingFrame}
use hbb_common.Video.Reassembler.{
  VideoReassembler, take_frame, drop_frame, record_drops, should_request_keyframe, requested_lately,
  drop_expired, drop_ids, count_keyframe, count_expired, count_obsolete_fragment, expired_ids,
  clamp_u32, expire,
}

-- How many fragments are present, and their bytes.
unfoldable pub present : List (Option (List ℕ)) → ℕ
present [] = 0
present (none ∷ fs) = present fs
present (some f ∷ fs) = present fs + 1

unfoldable pub bytes_of : List (Option (List ℕ)) → ℕ
bytes_of [] = 0
bytes_of (none ∷ fs) = bytes_of fs
bytes_of (some f ∷ fs) = length f + bytes_of fs

-- What is known of a fragment, given its frame's identifier, the number of its fragments and the
-- fragment's index.
abbrev pub Known : Type 1
Known = ℕ → ℕ → ℕ → List ℕ → Type 0

-- The present fragments from an index on are known.
abbrev pub Slots : (ℕ → List ℕ → Type 0) → ℕ → List (Option (List ℕ)) → Type 0
Slots G i [] = Unit {0}
Slots G i (none ∷ fs) = Slots G (suc i) fs
Slots G i (some f ∷ fs) = G i f × Slots G (suc i) fs

pub record IsPending (G : Known) (k : ℕ) (p : PendingFrame) : Type 0 where
  pub named : p.header.metadata.frame_id ≡ k
  pub slots : length p.fragments ≡ p.header.fragment_count
  pub counted : p.received_fragments ≡ present p.fragments
  pub sized : p.received_bytes ≡ bytes_of p.fragments
  pub known : Slots (G k p.header.fragment_count) 0 p.fragments

abbrev pub frame_bytes : PendingFrame → ℕ
frame_bytes p = p.received_bytes

pub record Valid (G : Known) (low : ℕ) (config : VideoReassemblyConfig)
    (pending : List (ℕ × PendingFrame)) (bytes : ℕ) : Type 0 where
  pub ascending : From low pending
  pub frames : Every (IsPending G) pending
  pub counted : bytes ≡ total frame_bytes pending
  pub few : length pending ≤ config.max_pending_frames
  pub small : bytes ≤ config.max_memory_bytes
  pub memory : config.max_memory_bytes < 2 ^ 64 - 1
  pub place : 0 < config.max_pending_frames

abbrev pub IsValid : Known → ℕ → VideoReassembler → Type 0
IsValid G low r = Valid G low r.config r.pending r.pending_bytes

-- What a call that drops frames keeps.
pub record Shrinks (G : Known) (low : ℕ) (given_config : VideoReassemblyConfig) (given_last : ℕ)
    (given_keyframe : Bool) (settings : VideoReassemblyConfig) (frames : List (ℕ × PendingFrame))
    (bytes completed : ℕ) (started : Bool) : Type 0 where
  pub valid : Valid G low settings frames bytes
  pub config : settings ≡ given_config
  pub last : completed ≡ given_last
  pub keyframe : started ≡ given_keyframe

abbrev pub Shrunk : Known → ℕ → VideoReassembler → VideoReassembler → Type 0
Shrunk G low r s =
    Shrinks G low r.config r.last_completed_frame_id r.has_completed_keyframe s.config s.pending
      s.pending_bytes s.last_completed_frame_id s.has_completed_keyframe

module _ (G : Known) (low : ℕ) where
  pub Shrunk-refl : (r : VideoReassembler) → IsValid G low r → Shrunk G low r r
  Shrunk-refl r v = record { valid = v; config = refl; last = refl; keyframe = refl }

  pub Shrunk-trans :
      (r s t : VideoReassembler) → Shrunk G low r s → Shrunk G low s t → Shrunk G low r t
  Shrunk-trans r s t a b = record {
    valid = b.valid;
    config = b.config ∙ a.config;
    last = b.last ∙ a.last;
    keyframe = b.keyframe ∙ a.keyframe;
  }

  pub take_frame-IsValid :
      (r : VideoReassembler) (k : ℕ) (p : PendingFrame)
      → IsValid G low r
      → get k r.pending ≡ some p
      → IsValid G low (take_frame k p r)
  unfolding take_frame
  take_frame-IsValid r k p v h =
      let removed = total-delete frame_bytes low k p r.pending v.ascending h in
      record {
        ascending = delete-From low k r.pending v.ascending;
        frames = delete-Every (IsPending G) k r.pending v.frames;
        counted = omega (arith, v.counted, removed.0);
        few = omega (arith, v.few, removed.1);
        small = omega (arith, v.small);
        memory = v.memory;
        place = v.place;
      }

  pub drop_frame-Shrunk :
      (r : VideoReassembler) (k : ℕ) → IsValid G low r → Shrunk G low r (drop_frame r k)
  unfolding take_frame drop_frame
  drop_frame-Shrunk r k v = by_get (get k r.pending) refl
    where
      by_get : (o : Option PendingFrame) → get k r.pending ≡ o → Shrunk G low r (drop_frame r k)
      by_get none e = rw (drop_frame, e) (Shrunk-refl r v)
      by_get (some p) e =
          rw (drop_frame, e)
            (record {
              valid = take_frame-IsValid r k p v e;
              config = refl;
              last = refl;
              keyframe = refl;
            })

  pub drop_frame-delete :
      (r : VideoReassembler) (k : ℕ) → (drop_frame r k).pending ≡ delete k r.pending
  unfolding take_frame drop_frame
  drop_frame-delete r k = by_get (get k r.pending) refl
    where
      by_get :
          (o : Option PendingFrame)
          → get k r.pending ≡ o
          → (drop_frame r k).pending ≡ delete k r.pending
      by_get none e = rw (drop_frame, e) (sym (delete_absent k r.pending e))
      by_get (some p) e = rw (drop_frame, e) refl

  -- A call that leaves the frames as they are.
  pub should_request_keyframe-Shrunk :
      (r s : VideoReassembler) (now : ℕ)
      → Shrunk G low r s
      → Shrunk G low r (should_request_keyframe s now).1
  unfolding should_request_keyframe
  should_request_keyframe-Shrunk r s now v =
      by_tests (ltb s.consecutive_dropped_frames s.config.keyframe_request_after_drops)
        (requested_lately s.config s.last_keyframe_request now)
    where
      by_tests :
          (a b : Bool)
          → Shrunk G low r
              (if◌then◌else◌ {A = Bool × VideoReassembler} a
                (false, s)
                (if b then (false, s) else (true, record s { last_keyframe_request = some now }))).1
      by_tests true b = v
      by_tests false true = v
      by_tests false false = v

  pub drop_expired-Shrunk :
      (ids : List ℕ) (r : VideoReassembler) → IsValid G low r → Shrunk G low r (drop_expired ids r)
  unfolding drop_expired
  drop_expired-Shrunk [] r v = Shrunk-refl r v
  drop_expired-Shrunk (k ∷ ids) r v =
      Shrunk-trans r (count_expired (drop_frame (count_keyframe r k) k)) (drop_expired (k ∷ ids) r)
        once
        (drop_expired-Shrunk ids (count_expired (drop_frame (count_keyframe r k) k)) once.valid)
    where
      once : Shrunk G low r (count_expired (drop_frame (count_keyframe r k) k))
      once = drop_frame-Shrunk (count_keyframe r k) k v

  pub drop_ids-Shrunk :
      (ids : List ℕ) (r : VideoReassembler) → IsValid G low r → Shrunk G low r (drop_ids ids r)
  unfolding drop_ids
  drop_ids-Shrunk [] r v = Shrunk-refl r v
  drop_ids-Shrunk (k ∷ ids) r v =
      Shrunk-trans r (count_obsolete_fragment (drop_frame r k)) (drop_ids (k ∷ ids) r)
        (drop_frame-Shrunk r k v)
        (drop_ids-Shrunk ids (count_obsolete_fragment (drop_frame r k))
          (drop_frame-Shrunk r k v).valid)

  pub expire-Shrunk :
      (r : VideoReassembler) (now : ℕ) → IsValid G low r → Shrunk G low r (expire r now).1
  unfolding expire record_drops
  expire-Shrunk r now v =
      should_request_keyframe-Shrunk r
        (record_drops (clamp_u32 (length (expired_ids r.config now r.pending)))
          (drop_expired (expired_ids r.config now r.pending) r))
        now (drop_expired-Shrunk (expired_ids r.config now r.pending) r v)
