-- ===== src/Video/Accepted.antt =====
-- What a push of a fragment comes to.
use hbb_common.Common.{
  ℕ, suc, ◌+◌, ◌<◌, ◌≡◌, refl, sym, subst, ◌∙◌, arith, Bool, true, false, Option, none, some, List,
  length, get_elem?, bytes_eq, ltb, if◌then◌else◌, ok,
}
use hbb_common.Common.Saturating.{saturating_u64}
use hbb_common.Common.OrderedMap.{
  get, put, Every-get, put-From, put-Every, get-put, total, total-put_over,
}
use hbb_common.Video.Types.{
  VideoReassemblyOutcome, inconsistent_metadata, conflicting_duplicate, belongs_to_same_frame,
  FragmentHeader, PendingFrame,
}
use hbb_common.Video.Reassembler.{VideoReassembler, drop_frame}
use hbb_common.Video.Settle.{Pushed, reject_frame, with_fragment}
use hbb_common.Video.Push.{insert_fragment, add_fragment}
use hbb_common.Video.Valid.{Known, frame_bytes, IsPending, Shrunk, Shrunk-trans, drop_frame-Shrunk}
use hbb_common.Video.Slots.{set_fragment_lem, get_elem?-some}
use hbb_common.Video.Safe.{Result, Shrunk-IsOrdered, reject_frame-Result}
use hbb_common.Video.Settled.{settle-Result}

-- A fragment whose header is valid, and is later than the last complete frame.
pub record Fits (G : Known) (n : ℕ) (h : FragmentHeader) (fragment : List ℕ) : Type 0 where
  pub filled : 0 < h.fragment_count
  pub index : h.fragment_index < h.fragment_count
  pub later : n < h.metadata.frame_id
  pub known : G h.metadata.frame_id h.fragment_count h.fragment_index fragment

same_count :
    (a b : FragmentHeader) → belongs_to_same_frame a b ≡ true → a.fragment_count ≡ b.fragment_count
unfolding belongs_to_same_frame
same_count a b h = ground arith

module _ (G : Known) (r s : VideoReassembler) (o : VideoReassemblyOutcome) (h : FragmentHeader)
    (fragment : List ℕ) (p : PendingFrame) (now : ℕ)
    (v : Shrunk G (suc r.last_completed_frame_id) r s)
    (f : Fits G r.last_completed_frame_id h fragment)
    (held : get h.metadata.frame_id s.pending ≡ some p) where
  abbrev id : ℕ
  id = h.metadata.frame_id

  frame-IsPending : IsPending G id p
  frame-IsPending = Every-get (IsPending G) id p s.pending v.valid.frames held

  with_fragment-IsPending :
      p.header.fragment_count ≡ h.fragment_count
      → get_elem? p.fragments h.fragment_index ≡ some none
      → IsPending G id (with_fragment p h fragment now)
  unfolding with_fragment
  with_fragment-IsPending e free =
      let (a, b, c, d) =
        set_fragment_lem (G id p.header.fragment_count) 0 p.fragments h.fragment_index fragment free
          frame-IsPending.known
          (subst (λ n. G id n (0 + h.fragment_index) fragment) (sym e)
            (subst (λ i. G id h.fragment_count i fragment) (omega arith) f.known)) in
      record {
        named = frame-IsPending.named;
        slots = a ∙ frame-IsPending.slots;
        counted = omega (arith, b, frame-IsPending.counted);
        sized = omega (arith, c, frame-IsPending.sized);
        known = d;
      }

  insert_fragment-Result :
      p.header.fragment_count ≡ h.fragment_count
      → get_elem? p.fragments h.fragment_index ≡ some none
      → o.frame ≡ none
      → Result G r.config r.last_completed_frame_id (insert_fragment s o h fragment p now)
  unfolding insert_fragment with_fragment
  insert_fragment-Result e free n =
      by_test (ltb s.config.max_memory_bytes (saturating_u64 s.pending_bytes (length fragment)))
        refl
    where
      q : PendingFrame
      q = with_fragment p h fragment now

      next : VideoReassembler
      next = record s {
        pending = put id q s.pending;
        pending_bytes = s.pending_bytes + length fragment;
      }

      over :
          (total frame_bytes (put id q s.pending) + p.received_bytes
            ≡ total frame_bytes s.pending + q.received_bytes)
          × (length (put id q s.pending) ≡ length s.pending)
      over =
          total-put_over frame_bytes (suc r.last_completed_frame_id) id p q s.pending
            v.valid.ascending held

      next-Shrunk :
          ltb s.config.max_memory_bytes (saturating_u64 s.pending_bytes (length fragment)) ≡ false
          → Shrunk G (suc r.last_completed_frame_id) r next
      next-Shrunk small = record {
        valid = record {
          ascending =
              put-From (suc r.last_completed_frame_id) id q s.pending (omega (arith, f.later))
                v.valid.ascending;
          frames =
              put-Every (IsPending G) id q s.pending v.valid.frames
                (with_fragment-IsPending e free);
          counted = omega (arith, over.0, v.valid.counted);
          few = omega (arith, over.1, v.valid.few);
          small = ground (arith, v.valid.memory);
          memory = v.valid.memory;
          place = v.valid.place;
        };
        config = v.config;
        last = v.last;
        keyframe = v.keyframe;
      }

      by_test :
          (b : Bool)
          → ltb s.config.max_memory_bytes (saturating_u64 s.pending_bytes (length fragment)) ≡ b
          → Result G r.config r.last_completed_frame_id (insert_fragment s o h fragment p now)
      by_test true t =
          let d : Shrunk G (suc r.last_completed_frame_id) r (drop_frame s id) =
            Shrunk-trans G (suc r.last_completed_frame_id) r s (drop_frame s id) v
              (drop_frame-Shrunk G (suc r.last_completed_frame_id) s id v.valid) in
          rw t (record {
            valid = Shrunk-IsOrdered G r (drop_frame s id) d;
            config = d.config;
            answers = omega (arith, d.last);
          })
      by_test false t = rw t (
          settle-Result G r next o h q now (next-Shrunk t)
            (record {
              held = ground (arith, get-put id id q s.pending);
              pending = with_fragment-IsPending e free;
              count = e;
              filled = f.filled;
              later = f.later;
            })
            n)

  pub add_fragment-Result :
      o.frame ≡ none
      → Result G r.config r.last_completed_frame_id (add_fragment s o h fragment p now)
  unfolding add_fragment
  add_fragment-Result n = by_same (belongs_to_same_frame p.header h) refl
    where
      by_existing :
          (b : Bool) (existing : List ℕ)
          → Result G r.config r.last_completed_frame_id (
              if◌then◌else◌ {A = Pushed} b
                (
                  ok o,
                  record s {
                    stats = record s.stats {
                      duplicate_fragments = saturating_u64 s.stats.duplicate_fragments 1;
                    };
                  },
                )
                (reject_frame s id conflicting_duplicate))
      by_existing true existing = record {
        valid = Shrunk-IsOrdered G r s v;
        config = v.config;
        answers = rw n (omega (arith, v.last));
      }
      by_existing false existing = reject_frame-Result G r s id conflicting_duplicate v

      by_slot :
          p.header.fragment_count ≡ h.fragment_count
          → belongs_to_same_frame p.header h ≡ true
          → (f : Option (Option (List ℕ))) → get_elem? p.fragments h.fragment_index ≡ f
          → Result G r.config r.last_completed_frame_id (add_fragment s o h fragment p now)
      by_slot c e none g = absurd (
          omega (
            arith,
            get_elem?-some p.fragments h.fragment_index
                (omega (arith, f.index, c, frame-IsPending.slots)) g,
          ))
      by_slot c e (some none) g = rw (add_fragment, e, g) (insert_fragment-Result c g n)
      by_slot c e (some (some existing)) g =
          rw (add_fragment, e, g) (by_existing (bytes_eq existing fragment) existing)

      by_same :
          (b : Bool)
          → belongs_to_same_frame p.header h ≡ b
          → Result G r.config r.last_completed_frame_id (add_fragment s o h fragment p now)
      by_same false e = rw (add_fragment, e) (reject_frame-Result G r s id inconsistent_metadata v)
      by_same true e =
          by_slot (same_count p.header h e) e (get_elem? p.fragments h.fragment_index) refl
