-- ===== src/Video/Slots.antt =====
-- The fragments of a pending frame.
use hbb_common.Common.{
  ℕ, zero, suc, ◌+◌, ◌≤◌, ◌<◌, ◌≡◌, refl, ap, subst, ◌∙◌, arith, Option, none, some, List, [], ◌∷◌,
  ◌++◌, length, length-append, replicate, get_elem?, ok,
}
use hbb_common.Video.Settle.{set_fragment, joined}
use hbb_common.Video.Valid.{present, bytes_of, Slots}

-- The bytes of the present fragments, in order.
unfoldable pub payload_of : List (Option (List ℕ)) → List ℕ
payload_of [] = []
payload_of (none ∷ fs) = payload_of fs
payload_of (some f ∷ fs) = f ++ payload_of fs

pub length-payload_of : (fs : List (Option (List ℕ))) → length (payload_of fs) ≡ bytes_of fs
unfolding payload_of bytes_of
length-payload_of [] = refl
length-payload_of (none ∷ fs) = length-payload_of fs
length-payload_of (some f ∷ fs) =
    length-append f (payload_of fs) ∙ ap (λ n. length f + n) (length-payload_of fs)

pub present-le-length : (fs : List (Option (List ℕ))) → present fs ≤ length fs
unfolding present
present-le-length [] = omega arith
present-le-length (none ∷ fs) = omega (arith, present-le-length fs)
present-le-length (some f ∷ fs) = omega (arith, present-le-length fs)

-- When every fragment is present the frame is joined.
pub joined-payload_of :
    (fs : List (Option (List ℕ))) → present fs ≡ length fs → joined fs ≡ ok (payload_of fs)
unfolding present joined payload_of
joined-payload_of [] h = refl
joined-payload_of (none ∷ fs) h = absurd (omega (arith, h, present-le-length fs))
joined-payload_of (some f ∷ fs) h = rw (joined-payload_of fs (omega (arith, h))) refl

pub no_fragments :
    (G : ℕ → List ℕ → Type 0) (i n : ℕ)
    → (length (replicate {A = Option (List ℕ)} n none) ≡ n)
      × (present (replicate {A = Option (List ℕ)} n none) ≡ 0)
      × (bytes_of (replicate {A = Option (List ℕ)} n none) ≡ 0)
      × Slots G i (replicate {A = Option (List ℕ)} n none)
unfolding present bytes_of
no_fragments G i zero = (refl, refl, refl, tt)
no_fragments G i (suc n) =
    let (a, b, c, d) = no_fragments G (suc i) n in (omega (arith, a), b, c, d)

-- What a fragment in a free place changes.
pub set_fragment_lem :
    (G : ℕ → List ℕ → Type 0) (i : ℕ) (fs : List (Option (List ℕ))) (index : ℕ) (f : List ℕ)
    → get_elem? fs index ≡ some none
    → Slots G i fs
    → G (i + index) f
    → (length (set_fragment fs index f) ≡ length fs)
      × (present (set_fragment fs index f) ≡ present fs + 1)
      × (bytes_of (set_fragment fs index f) ≡ bytes_of fs + length f)
      × Slots G i (set_fragment fs index f)
unfolding set_fragment present bytes_of
set_fragment_lem G i [] index f h s g = cc
set_fragment_lem G i (none ∷ fs) zero f h s g =
    (refl, refl, omega arith, (subst (λ j. G j f) (omega arith) g, s))
set_fragment_lem G i (some x ∷ fs) zero f h s g = cc
set_fragment_lem G i (none ∷ fs) (suc index) f h s g =
    let (a, b, c, d) =
      set_fragment_lem G (suc i) fs index f h s (subst (λ j. G j f) (omega arith) g) in
    (omega (arith, a), b, c, d)
set_fragment_lem G i (some x ∷ fs) (suc index) f h s g =
    let (a, b, c, d) =
      set_fragment_lem G (suc i) fs index f h s.1 (subst (λ j. G j f) (omega arith) g) in
    (omega (arith, a), omega (arith, b), omega (arith, c), (s.0, d))

pub get_elem?-some :
    (fs : List (Option (List ℕ))) (index : ℕ)
    → index < length fs
    → get_elem? fs index ≡ none
    → 1 ≤ 0
get_elem?-some [] index h e = omega (arith, h)
get_elem?-some (f ∷ fs) zero h e = cc
get_elem?-some (f ∷ fs) (suc index) h e = get_elem?-some fs index (omega (arith, h)) e
