-- ===== src/Common/OrderedSet.antt =====
-- `BTreeSet<u32>`: its elements in ascending order.
use Prim.Native.Nat.{ℕ, ◌≤◌, ◌<◌}
use mathlib.Core.Path.{◌≡◌, refl}
use mathlib.Core.Bool.{Bool, false, not, ◌||◌}
use mathlib.Core.List.{List, [], ◌∷◌}
use native.Mathlib.Omega.{arith}
use hbb_common.Common.Tests.{ltb, ◌==◌, if◌then◌else◌}

unfoldable pub contains : ℕ → List ℕ → Bool
contains k [] = false
contains k (x ∷ xs) = x == k || contains k xs

-- `insert` and `remove`, with the flag that they return (`true` if the set changed).
insert_sorted : ℕ → List ℕ → List ℕ
insert_sorted k [] = k ∷ []
insert_sorted k (x ∷ xs) =
    if ltb k x then k ∷ x ∷ xs else if k == x then x ∷ xs else x ∷ insert_sorted k xs

unfoldable pub insert : ℕ → List ℕ → List ℕ × Bool
unfolding insert_sorted contains
insert k xs = (insert_sorted k xs, not (contains k xs))

remove_all : ℕ → List ℕ → List ℕ
remove_all k [] = []
remove_all k (x ∷ xs) = if x == k then remove_all k xs else x ∷ remove_all k xs

unfoldable pub remove : ℕ → List ℕ → List ℕ × Bool
unfolding remove_all contains
remove k xs = (remove_all k xs, contains k xs)

pub contains-insert :
    (j k : ℕ) (xs : List ℕ) → contains j (insert k xs).0 ≡ (k == j || contains j xs)
unfolding insert
contains-insert j k [] = refl
contains-insert j k (x ∷ xs) = ground (arith, contains-insert j k xs)

pub contains-remove :
    (j k : ℕ) (xs : List ℕ) → contains j (remove k xs).0 ≡ (if k == j then false else contains j xs)
unfolding remove
contains-remove j k [] = ground arith
contains-remove j k (x ∷ xs) = ground (arith, contains-remove j k xs)

-- Strictly ascending, with all elements above a bound: the representation invariant.
abbrev pub Above : ℕ → List ℕ → Type 0
Above n [] = Unit {0}
Above n (x ∷ xs) = (n < x) × Above x xs

abbrev pub IsAscending : List ℕ → Type 0
IsAscending [] = Unit {0}
IsAscending (x ∷ xs) = Above x xs

Above-mono : (m n : ℕ) (xs : List ℕ) → m ≤ n → Above n xs → Above m xs
Above-mono m n [] h a = tt
Above-mono m n (x ∷ xs) h a = (omega arith, a.1)

insert-Above : (n k : ℕ) (xs : List ℕ) → n < k → Above n xs → Above n (insert k xs).0
unfolding insert
insert-Above n k [] h a = (h, tt)
insert-Above n k (x ∷ xs) h a = ground (arith, insert-Above x k xs)

remove-Above : (n k : ℕ) (xs : List ℕ) → Above n xs → Above n (remove k xs).0
unfolding remove
remove-Above n k [] a = tt
remove-Above n k (x ∷ xs) a =
    ground (arith, remove-Above x k xs a.1, Above-mono n x (remove k xs).0)

pub insert-IsAscending : (k : ℕ) (xs : List ℕ) → IsAscending xs → IsAscending (insert k xs).0
unfolding insert
insert-IsAscending k [] a = tt
insert-IsAscending k (x ∷ xs) a = ground (arith, insert-Above x k xs)

Above-IsAscending : (n : ℕ) (xs : List ℕ) → Above n xs → IsAscending xs
Above-IsAscending n [] a = tt
Above-IsAscending n (x ∷ xs) a = a.1

pub remove-IsAscending : (k : ℕ) (xs : List ℕ) → IsAscending xs → IsAscending (remove k xs).0
unfolding remove
remove-IsAscending k [] a = tt
remove-IsAscending k (x ∷ xs) a =
    ground
      (arith, remove-Above x k xs a, Above-IsAscending x (remove k xs).0 (remove-Above x k xs a))
