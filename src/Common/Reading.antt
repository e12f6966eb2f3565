-- ===== src/Common/Reading.antt =====
-- Reading fields back from the bytes that were written one after the other.
use Prim.Native.Nat.{ℕ, zero, suc, ◌+◌, ◌-◌, ◌^◌, ◌≤◌, ◌<◌}
use mathlib.Core.Path.{◌≡◌, refl, ap, ◌∙◌}
use mathlib.Core.List.{List, [], ◌∷◌, ◌++◌}
use native.Mathlib.Omega.{arith}
use hbb_common.Common.Tests.{leb, le→leb}
use hbb_common.Common.Lists.{length, drop, length-append, take-append, drop-append_add}
use hbb_common.Common.Fallible.{ok}
use hbb_common.Common.Bytes.{
  to_be_bytes, read, index, read_tail, length-to_be_bytes, from_be_bytes-to_be_bytes,
}

drop_skip :
    (n off : ℕ) (xs ys : List ℕ) → length xs ≡ n → n ≤ off → drop off (xs ++ ys) ≡ drop (off - n) ys
drop_skip n off xs ys e h =
    ap (λ m. drop m (xs ++ ys)) (omega arith) ∙ drop-append_add n (off - n) xs ys e

module _ {E : Type 0} where
  pub read_skip :
      (n k off : ℕ) (xs ys : List ℕ)
      → length xs ≡ n
      → n ≤ off
      → read {E = E} k off (xs ++ ys) ≡ read k (off - n) ys
  unfolding read
  read_skip n k off xs ys e h = rw (drop_skip n off xs ys e h, same) refl
    where
      same : leb (off + k) (length (xs ++ ys)) ≡ leb (off - n + k) (length ys)
      same = rw (length-append xs ys) (ground arith)

  pub read_cons :
      (k off x : ℕ) (ys : List ℕ) → 1 ≤ off → read {E = E} k off (x ∷ ys) ≡ read k (off - 1) ys
  read_cons k off x ys h = read_skip 1 k off (x ∷ []) ys refl h

  pub read_here :
      (k v : ℕ) (ys : List ℕ) → v < 256 ^ k → read {E = E} k 0 (to_be_bytes k v ++ ys) ≡ ok v
  unfolding read
  read_here k v ys h =
      rw
        (
          take-append k (to_be_bytes k v) ys (length-to_be_bytes k v),
          from_be_bytes-to_be_bytes k v h,
          le→leb (0 + k) (length (to_be_bytes k v ++ ys))
              (omega (arith, length-append (to_be_bytes k v) ys, length-to_be_bytes k v)),
        )
        refl

  pub index_skip :
      (n off : ℕ) (xs ys : List ℕ)
      → length xs ≡ n
      → n ≤ off
      → index {E = E} off (xs ++ ys) ≡ index (off - n) ys
  unfolding index
  index_skip n off [] ys e h = ap (λ m. index m ys) (omega arith)
  index_skip n zero (x ∷ xs) ys e h = absurd (omega arith)
  index_skip n (suc off) (x ∷ xs) ys e h =
      index_skip (length xs) off xs ys refl (omega arith) ∙ ap (λ m. index m ys) (omega arith)

  pub tail_skip :
      (n off : ℕ) (xs ys : List ℕ)
      → length xs ≡ n
      → n ≤ off
      → read_tail {E = E} off (xs ++ ys) ≡ read_tail (off - n) ys
  unfolding read_tail
  tail_skip n off xs ys e h = rw (drop_skip n off xs ys e h, same) refl
    where
      same : leb off (length (xs ++ ys)) ≡ leb (off - n) (length ys)
      same = rw (length-append xs ys) (ground arith)
