-- ===== src/Video/Chunks.antt =====
-- The pieces of a frame.
use hbb_common.Common.{
  ℕ, zero, suc, ◌+◌, ◌-◌, ◌/◌, ◌≤◌, ◌<◌, ◌≡◌, refl, sym, ap, ◌∙◌, arith, Bool, true, false, List,
  [], ◌∷◌, length, drop, take-append-drop, length-drop, leb,
}
use native.Mathlib.Nat.{mul-add-div_right, div-eq_of_lt}
use hbb_common.Video.Fragment.{chunks_from, div_ceil}
use hbb_common.Video.Exact.{join}

-- The pieces join up to the frame.
pub join-chunks_from :
    (fuel size : ℕ) (bytes : List ℕ)
    → 0 < size
    → length bytes ≤ fuel
    → join (chunks_from fuel size bytes) ≡ bytes
unfolding join chunks_from
join-chunks_from zero size [] s h = refl
join-chunks_from zero size (b ∷ bytes) s h = absurd (omega arith)
join-chunks_from (suc fuel) size [] s h = refl
join-chunks_from (suc fuel) size (b ∷ bytes) s h =
    rw
      (join-chunks_from fuel size (drop size (b ∷ bytes)) s
        (omega (arith, length-drop size (b ∷ bytes))))
      (take-append-drop size (b ∷ bytes))

div_ceil_small : (len size : ℕ) → 0 < len → len ≤ size → div_ceil len size ≡ 1
div_ceil_small len size h l =
    let pos : 0 < size = omega arith in
    let small : len - 1 < size = omega arith in
    ap (λ (n : ℕ). n / size) (omega arith)
    ∙ mul-add-div_right pos 1 (len - 1)
    ∙ ap (λ (n : ℕ). 1 + n) (div-eq_of_lt small)

div_ceil_step :
    (len size : ℕ) → 0 < size → size < len → div_ceil len size ≡ suc (div_ceil (len - size) size)
div_ceil_step len size s h =
    let same : len - 1 ≡ len - size + size - 1 = omega arith in
    ap (λ (n : ℕ). n / size) (omega arith)
    ∙ mul-add-div_right s 1 (len - 1)
    ∙ ap (λ (n : ℕ). 1 + n / size) same
    ∙ omega arith

-- There are as many pieces as the rounded up quotient of the lengths.
pub length-chunks_from :
    (fuel size : ℕ) (bytes : List ℕ)
    → 0 < size
    → 0 < length bytes
    → length bytes ≤ fuel
    → length (chunks_from fuel size bytes) ≡ div_ceil (length bytes) size
unfolding chunks_from
length-chunks_from zero size bytes s n h = absurd (omega arith)
length-chunks_from (suc fuel) size [] s n h = absurd (omega arith)
length-chunks_from (suc fuel) size (b ∷ bytes) s n h =
    by_test (leb (length (b ∷ bytes)) size) refl
      (length-chunks_from fuel size (drop size (b ∷ bytes)) s)
  where
    len : ℕ
    len = length (b ∷ bytes)

    by_test :
        (t : Bool)
        → leb (length (b ∷ bytes)) size ≡ t
        → (0 < length (drop size (b ∷ bytes))
            → length (drop size (b ∷ bytes)) ≤ fuel
            → length (chunks_from fuel size (drop size (b ∷ bytes)))
              ≡ div_ceil (length (drop size (b ∷ bytes))) size)
        → suc (length (chunks_from fuel size (drop size (b ∷ bytes)))) ≡ div_ceil len size
    by_test true e rest =
        ap suc (nothing fuel (drop size (b ∷ bytes)) (ground (arith, length-drop size (b ∷ bytes))))
        ∙ sym (div_ceil_small len size (omega arith) (ground arith))
      where
        nothing : (n : ℕ) (xs : List ℕ) → length xs ≡ 0 → length (chunks_from n size xs) ≡ 0
        nothing zero xs h = refl
        nothing (suc n) [] h = refl
        nothing (suc n) (x ∷ xs) h = absurd (omega (arith, h))
    by_test false e rest =
        let more : size < len = ground arith in
        ap suc (
          rest (omega (arith, length-drop size (b ∷ bytes), more))
            (omega (arith, length-drop size (b ∷ bytes), h, s))
          ∙ ap (λ n. div_ceil n size) (length-drop size (b ∷ bytes)))
        ∙ sym (div_ceil_step len size s more)
