-- ===== src/Common/Bytes.antt =====
-- Big-endian integers in byte strings: `to_be_bytes`, `from_be_bytes`, and reads at an offset, which
-- panic out of range.
use Prim.Native.Nat.{ℕ, zero, suc, ◌+◌, ◌*◌, ◌/◌, ◌%◌, ◌^◌, ◌≤◌, ◌<◌}
use mathlib.Core.Path.{◌≡◌, refl, ap, subst, ◌∙◌}
use mathlib.Core.Bool.{Bool, true, ◌&&◌}
use mathlib.Core.Option.{Option, none, some}
use mathlib.Core.List.{List, [], ◌∷◌, ◌++◌}
use native.Mathlib.Omega.{arith}
use native.Mathlib.Nat.{
  pow-suc, mod-eq_of_lt, one-le-pow, mul-add-div_right, div-eq_of_lt, mod-eq-sub-div-mul,
  div-div-eq-div-mul, div-add-mod',
}
use hbb_common.Common.Tests.{leb, ltb, if◌then◌else◌, le→leb}
use hbb_common.Common.Lists.{
  length, get_elem?, take, drop, All, take-append-drop, get_elem?-append, length-take, length-drop,
  All-take, All-drop, drop-drop,
}
use hbb_common.Common.Fallible.{Outcome, ok, panic}

abbrev pub IsByte : ℕ → Type 0
IsByte b = b < 256

-- `v.to_be_bytes()` at a width of k bytes.
unfoldable pub to_be_bytes : ℕ → ℕ → List ℕ
to_be_bytes zero v = []
to_be_bytes (suc k) v = (v / 256 ^ k % 256) ∷ to_be_bytes k v

unfoldable pub from_be_bytes : List ℕ → ℕ
from_be_bytes [] = 0
from_be_bytes (b ∷ bs) = b * 256 ^ length bs + from_be_bytes bs

-- `input[off..off + k]`.
abbrev pub slice : ℕ → ℕ → List ℕ → List ℕ
slice off k xs = take k (drop off xs)

-- The number in the k bytes at an offset.
abbrev pub field : ℕ → ℕ → List ℕ → ℕ
field k off xs = from_be_bytes (slice off k xs)

-- `uN::from_be_bytes(input[off..off + k])`.
unfoldable pub read : {E : Type 0} → ℕ → ℕ → List ℕ → Outcome E ℕ
read k off xs = if leb (off + k) (length xs) then ok (from_be_bytes (slice off k xs)) else panic

-- `input[off]`.
abbrev pub or_panic : {E : Type 0} {A : Type 0} → Option A → Outcome E A
or_panic none = panic
or_panic (some a) = ok a

unfoldable pub index : {E : Type 0} → ℕ → List ℕ → Outcome E ℕ
index off xs = or_panic (get_elem? xs off)

-- `input[off..off + k]` and `input[off..]`.
unfoldable pub read_slice : {E : Type 0} → ℕ → ℕ → List ℕ → Outcome E (List ℕ)
read_slice off k xs = if leb (off + k) (length xs) then ok (slice off k xs) else panic

unfoldable pub read_tail : {E : Type 0} → ℕ → List ℕ → Outcome E (List ℕ)
read_tail off xs = if leb off (length xs) then ok (drop off xs) else panic

get_elem?_in_range :
    (off : ℕ) (xs : List ℕ)
    → off + 1 ≤ length xs
    → get_elem? xs off ≡ some (from_be_bytes (slice off 1 xs))
unfolding from_be_bytes
get_elem?_in_range off [] h = absurd (omega arith)
get_elem?_in_range zero (x ∷ xs) h = ap some (omega arith)
get_elem?_in_range (suc off) (x ∷ xs) h = get_elem?_in_range off xs (omega arith)

module _ {E : Type 0} where
  pub read_in_range :
      (k off : ℕ) (xs : List ℕ)
      → off + k ≤ length xs
      → read {E = E} k off xs ≡ ok (from_be_bytes (slice off k xs))
  unfolding read
  read_in_range k off xs h = rw (le→leb _ _ h)

  pub index_in_range :
      (off : ℕ) (xs : List ℕ)
      → off + 1 ≤ length xs
      → index {E = E} off xs ≡ ok (from_be_bytes (slice off 1 xs))
  unfolding index
  index_in_range off xs h = rw (get_elem?_in_range off xs h)

  pub index-append :
      (off : ℕ) (xs ys : List ℕ) → off < length xs → index {E = E} off (xs ++ ys) ≡ index off xs
  unfolding index
  index-append off xs ys h = rw (get_elem?-append off xs ys h)

  pub read_slice_in_range :
      (off k : ℕ) (xs : List ℕ)
      → off + k ≤ length xs
      → read_slice {E = E} off k xs ≡ ok (slice off k xs)
  unfolding read_slice
  read_slice_in_range off k xs h = rw (le→leb _ _ h)

  pub read_tail_in_range :
      (off : ℕ) (xs : List ℕ) → off ≤ length xs → read_tail {E = E} off xs ≡ ok (drop off xs)
  unfolding read_tail
  read_tail_in_range off xs h = rw (le→leb _ _ h)

pub length-to_be_bytes : (k v : ℕ) → length (to_be_bytes k v) ≡ k
unfolding to_be_bytes
length-to_be_bytes zero v = refl
length-to_be_bytes (suc k) v = ap suc (length-to_be_bytes k v)

pub to_be_bytes-IsByte : (k v : ℕ) → All IsByte (to_be_bytes k v)
unfolding to_be_bytes
to_be_bytes-IsByte zero v = tt
to_be_bytes-IsByte (suc k) v = (omega arith, to_be_bytes-IsByte k v)

pub from_be_bytes-lt : (bs : List ℕ) → All IsByte bs → from_be_bytes bs < 256 ^ length bs
unfolding from_be_bytes
from_be_bytes-lt [] h = omega arith
from_be_bytes-lt (b ∷ bs) h = grind (arith, pow-suc 256 (length bs), from_be_bytes-lt bs h.1)

pow_pos : (k : ℕ) → 0 < 256 ^ k
pow_pos k = one-le-pow k 256 (omega arith)

digit_shift : (e k : ℕ) → e * 256 ^ suc k ≡ e * 256 * 256 ^ k
digit_shift e k = omega (arith, ap (λ (t : ℕ). e * t) (pow-suc 256 k))

-- Only the low k bytes are written.
pub to_be_bytes-add : (k e v : ℕ) → to_be_bytes k (e * 256 ^ k + v) ≡ to_be_bytes k v
unfolding to_be_bytes
to_be_bytes-add zero e v = refl
to_be_bytes-add (suc k) e v =
    rw (digit_shift e k, mul-add-div_right (pow_pos k) (e * 256) v, to_be_bytes-add k (e * 256) v)
      (ap (λ (b : ℕ). b ∷ to_be_bytes k v) (omega arith))

pub to_be_bytes-from_be_bytes :
    (bs : List ℕ) → All IsByte bs → to_be_bytes (length bs) (from_be_bytes bs) ≡ bs
unfolding to_be_bytes from_be_bytes
to_be_bytes-from_be_bytes [] h = refl
to_be_bytes-from_be_bytes (b ∷ bs) h =
    rw
      (
        mul-add-div_right (pow_pos (length bs)) b (from_be_bytes bs),
        div-eq_of_lt (from_be_bytes-lt bs h.1),
        to_be_bytes-add (length bs) b (from_be_bytes bs),
        to_be_bytes-from_be_bytes bs h.1,
      )
      (ap (λ (x : ℕ). x ∷ bs) (omega (arith, h.0)))

pub from_be_bytes-to_be_bytes_mod : (k v : ℕ) → from_be_bytes (to_be_bytes k v) ≡ v % 256 ^ k
unfolding from_be_bytes to_be_bytes
from_be_bytes-to_be_bytes_mod zero v = omega arith
from_be_bytes-to_be_bytes_mod (suc k) v =
    rw (length-to_be_bytes k v, from_be_bytes-to_be_bytes_mod k v, pow-suc 256 k)
      (omega (
        arith,
        mod-eq-sub-div-mul v (256 ^ k * 256),
        div-div-eq-div-mul v (256 ^ k) 256,
        ap (λ (t : ℕ). t * (256 ^ k * 256)) (div-div-eq-div-mul v (256 ^ k) 256),
        div-add-mod' v (256 ^ k),
        ap (λ (t : ℕ). t * 256 ^ k) (div-add-mod' (v / 256 ^ k) 256),
      ))

-- Decoding an encoded value that fits gives it back.
pub from_be_bytes-to_be_bytes : (k v : ℕ) → v < 256 ^ k → from_be_bytes (to_be_bytes k v) ≡ v
from_be_bytes-to_be_bytes k v h = from_be_bytes-to_be_bytes_mod k v ∙ mod-eq_of_lt h

pub length-slice : (off k : ℕ) (xs : List ℕ) → off + k ≤ length xs → length (slice off k xs) ≡ k
length-slice off k xs h = omega (arith, length-take k (drop off xs), length-drop off xs)

pub slice-IsByte : (off k : ℕ) (xs : List ℕ) → All IsByte xs → All IsByte (slice off k xs)
slice-IsByte off k xs h = All-take IsByte k (drop off xs) (All-drop IsByte off xs h)

-- A field that was read, written again, is the bytes that it was read from.
pub to_be_bytes-slice :
    (off k : ℕ) (xs : List ℕ)
    → All IsByte xs
    → off + k ≤ length xs
    → to_be_bytes k (from_be_bytes (slice off k xs)) ≡ slice off k xs
to_be_bytes-slice off k xs b h =
    subst (λ n. to_be_bytes n (from_be_bytes (slice off k xs)) ≡ slice off k xs)
      (length-slice off k xs h)
      (to_be_bytes-from_be_bytes (slice off k xs) (slice-IsByte off k xs b))

-- A field read from k bytes fits k bytes.
pub from_be_bytes-slice-lt :
    (off k : ℕ) (xs : List ℕ)
    → All IsByte xs
    → off + k ≤ length xs
    → from_be_bytes (slice off k xs) < 256 ^ k
from_be_bytes-slice-lt off k xs b h =
    subst (λ n. from_be_bytes (slice off k xs) < 256 ^ n) (length-slice off k xs h)
      (from_be_bytes-lt (slice off k xs) (slice-IsByte off k xs b))

-- Neighbouring fields join up.
pub slice-drop : (off k : ℕ) (xs : List ℕ) → slice off k xs ++ drop (off + k) xs ≡ drop off xs
slice-drop off k xs = rw (← drop-drop off k xs) (take-append-drop k (drop off xs))

-- `payload[off..off + bytes.len()].copy_from_slice(bytes)`, in range.
abbrev pub write : ℕ → List ℕ → List ℕ → List ℕ
write off bytes xs = take off xs ++ (bytes ++ drop (off + length bytes) xs)

-- `v.to_le_bytes()`, as `put_u8`, `put_u16_le` and `put_u32_le` write it.
unfoldable pub to_le_bytes : ℕ → ℕ → List ℕ
to_le_bytes zero v = []
to_le_bytes (suc k) v = (v % 256) ∷ to_le_bytes k (v / 256)

-- A byte string whose elements are tested one by one.
unfoldable pub are_bytes : List ℕ → Bool
are_bytes [] = true
are_bytes (b ∷ bs) = ltb b 256 && are_bytes bs

pub are_bytes→All : (bs : List ℕ) → are_bytes bs ≡ true → All IsByte bs
unfolding are_bytes
are_bytes→All [] h = tt
are_bytes→All (b ∷ bs) h = ground (arith, are_bytes→All bs)
