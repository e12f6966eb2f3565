-- ===== src/Common/OrderedMap.antt =====
-- `BTreeMap<u64, V>`: its entries in ascending order of their keys.
use Prim.Native.Nat.{ℕ, suc, ◌+◌, ◌≤◌, ◌<◌}
use mathlib.Core.Path.{◌≡◌, refl, sym, ◌∙◌}
use mathlib.Core.Logic.{inl, inr}
use mathlib.Core.Option.{Option, none, some}
use mathlib.Core.List.{List, [], ◌∷◌}
use native.Mathlib.Omega.{arith}
use hbb_common.Common.Tests.{ltb, ◌==◌, if◌then◌else◌, Bool-cases}
use hbb_common.Common.Lists.{length}

module _ {V : Type 0} where
  unfoldable pub get : ℕ → List (ℕ × V) → Option V
  get k [] = none
  get k (e ∷ es) = if e.0 == k then some e.1 else get k es

  -- `insert`, which replaces the value of a key that is there.
  unfoldable pub put : ℕ → V → List (ℕ × V) → List (ℕ × V)
  put k v [] = (k, v) ∷ []
  put k v (e ∷ es) =
      if ltb k e.0 then (k, v) ∷ e ∷ es else if e.0 == k then (k, v) ∷ es else e ∷ put k v es

  -- `remove`.
  unfoldable pub delete : ℕ → List (ℕ × V) → List (ℕ × V)
  delete k [] = []
  delete k (e ∷ es) = if e.0 == k then delete k es else e ∷ delete k es

  -- `keys().next_back()`.
  unfoldable pub last_key : List (ℕ × V) → Option ℕ
  last_key [] = none
  last_key (e ∷ es) = elim (last_key es) [ none ↦ some e.0 | some k ↦ some k ]

  -- The sum of a measure over the values.
  unfoldable pub total : (V → ℕ) → List (ℕ × V) → ℕ
  total f [] = 0
  total f (e ∷ es) = f e.1 + total f es

  -- Keys that ascend strictly from n on: the representation invariant is `From 0`.
  abbrev pub From : ℕ → List (ℕ × V) → Type 0
  From n [] = Unit {0}
  From n (e ∷ es) = (n ≤ e.0) × From (suc e.0) es

  abbrev pub Every : (ℕ → V → Type 0) → List (ℕ × V) → Type 0
  Every P [] = Unit {0}
  Every P (e ∷ es) = P e.0 e.1 × Every P es

  pub From-mono : (m n : ℕ) (es : List (ℕ × V)) → m ≤ n → From n es → From m es
  From-mono m n [] h a = tt
  From-mono m n (e ∷ es) h a = (omega (arith, a.0), a.1)

  pub get-below : (k n : ℕ) (es : List (ℕ × V)) → k < n → From n es → get k es ≡ none
  unfolding get
  get-below k n [] h a = refl
  get-below k n (e ∷ es) h a =
      ground (arith, a.0, get-below k (suc e.0) es (omega (arith, a.0)) a.1)

  pub delete_absent : (k : ℕ) (es : List (ℕ × V)) → get k es ≡ none → delete k es ≡ es
  unfolding get delete
  delete_absent k [] h = refl
  delete_absent k (e ∷ es) h = ground (arith, delete_absent k es)

  -- The removal of the first key.
  pub delete_first : (e : ℕ × V) (es : List (ℕ × V)) → From (suc e.0) es → delete e.0 (e ∷ es) ≡ es
  unfolding delete
  delete_first e es a =
      ground (arith, delete_absent e.0 es (get-below e.0 (suc e.0) es (omega arith) a))

  pub get-put :
      (j k : ℕ) (v : V) (es : List (ℕ × V))
      → get j (put k v es) ≡ (if k == j then some v else get j es)
  unfolding get put
  get-put j k v [] = refl
  get-put j k v (e ∷ es) = ground (arith, get-put j k v es)

  pub get-delete :
      (j k : ℕ) (es : List (ℕ × V)) → get j (delete k es) ≡ (if k == j then none else get j es)
  unfolding get delete
  get-delete j k [] = ground arith
  get-delete j k (e ∷ es) = ground (arith, get-delete j k es)

  pub put-From : (n k : ℕ) (v : V) (es : List (ℕ × V)) → n ≤ k → From n es → From n (put k v es)
  unfolding put
  put-From n k v [] h a = (h, tt)
  put-From n k v (e ∷ es) h a = ground (arith, put-From (suc e.0) k v es)

  pub delete-From : (n k : ℕ) (es : List (ℕ × V)) → From n es → From n (delete k es)
  unfolding delete
  delete-From n k [] a = tt
  delete-From n k (e ∷ es) a =
      ground (arith, delete-From (suc e.0) k es a.1, From-mono n (suc e.0) (delete k es))

  -- Without its least possible key a map goes on above it.
  pub delete_least : (k : ℕ) (es : List (ℕ × V)) → From k es → From (suc k) (delete k es)
  unfolding delete
  delete_least k [] a = tt
  delete_least k (e ∷ es) a =
      ground (arith, delete-From (suc e.0) k es a.1, From-mono (suc k) (suc e.0) (delete k es))

  pub From-absent : (k : ℕ) (es : List (ℕ × V)) → From k es → get k es ≡ none → From (suc k) es
  unfolding get
  From-absent k [] a h = tt
  From-absent k (e ∷ es) a h = ground arith

  pub Every-get :
      (P : ℕ → V → Type 0) (k : ℕ) (v : V) (es : List (ℕ × V))
      → Every P es
      → get k es ≡ some v
      → P k v
  unfolding get
  Every-get P k v [] p h = cc
  Every-get P k v (e ∷ es) p h = ground (arith, Every-get P k v es p.1)

  pub put-Every :
      (P : ℕ → V → Type 0) (k : ℕ) (v : V) (es : List (ℕ × V))
      → Every P es
      → P k v
      → Every P (put k v es)
  unfolding put
  put-Every P k v [] p q = (q, tt)
  put-Every P k v (e ∷ es) p q = ground (arith, put-Every P k v es p.1 q)

  pub delete-Every :
      (P : ℕ → V → Type 0) (k : ℕ) (es : List (ℕ × V)) → Every P es → Every P (delete k es)
  unfolding delete
  delete-Every P k [] p = tt
  delete-Every P k (e ∷ es) p = ground (arith, delete-Every P k es p.1)

  -- The last key is there, and is the greatest.
  pub last_key-get :
      (l : ℕ) (es : List (ℕ × V)) → last_key es ≡ some l → (q : V) × (get l es ≡ some q)
  unfolding last_key get
  last_key-get l [] h = cc
  last_key-get l (e ∷ es) h = by_rest (last_key es) refl (λ r. last_key-get l es r)
    where
      by_rest :
          (o : Option ℕ)
          → last_key es ≡ o
          → (last_key es ≡ some l → (q : V) × (get l es ≡ some q))
          → (q : V) × (get l (e ∷ es) ≡ some q)
      by_rest none r rest = (e.1, ground arith)
      by_rest (some k) r rest =
          let (q, found) = rest (ground arith) in
          elim (Bool-cases (e.0 == l)) [
            | inl same ↦ (e.1, rw same)
            | inr other ↦ (q, rw other found)
          ]

  last_key-le : (n m : ℕ) (es : List (ℕ × V)) → From n es → last_key es ≡ some m → n ≤ m
  unfolding last_key
  last_key-le n m [] a h = cc
  last_key-le n m (e ∷ es) a h = ground (arith, a.0, last_key-le (suc e.0) m es a.1)

  pub get-le-last_key :
      (n k : ℕ) (q : V) (es : List (ℕ × V))
      → From n es
      → get k es ≡ some q
      → (l : ℕ) × (last_key es ≡ some l) × (k ≤ l)
  unfolding last_key get
  get-le-last_key n k q [] a h = cc
  get-le-last_key n k q (e ∷ es) a h =
      by_rest (last_key es) refl (λ g. get-le-last_key (suc e.0) k q es a.1 g)
        (λ m r. last_key-le (suc e.0) m es a.1 r)
    where
      by_rest :
          (o : Option ℕ)
          → last_key es ≡ o
          → (get k es ≡ some q → (l : ℕ) × (last_key es ≡ some l) × (k ≤ l))
          → ((m : ℕ) → last_key es ≡ some m → suc e.0 ≤ m)
          → (l : ℕ) × (last_key (e ∷ es) ≡ some l) × (k ≤ l)
      by_rest none r rest low = elim (Bool-cases (e.0 == k)) [
        | inl same ↦ (e.0, rw r, ground arith)
        | inr other ↦ let (l, found, le) = rest (ground arith) in absurd (cc (sym r ∙ found))
      ]
      by_rest (some m) r rest low = elim (Bool-cases (e.0 == k)) [
        | inl same ↦ (m, rw r, ground (arith, low m r))
        | inr other ↦ let (l, found, le) = rest (ground arith) in (l, rw found, le)
      ]

  module _ (f : V → ℕ) where
    pub total-put_new :
        (k : ℕ) (v : V) (es : List (ℕ × V))
        → get k es ≡ none
        → (total f (put k v es) ≡ f v + total f es) × (length (put k v es) ≡ length es + 1)
    unfolding total put get
    total-put_new k v [] h = (refl, omega arith)
    total-put_new k v (e ∷ es) h = ground (arith, total-put_new k v es)

    pub total-put_over :
        (n k : ℕ) (v w : V) (es : List (ℕ × V))
        → From n es
        → get k es ≡ some v
        → (total f (put k w es) + f v ≡ total f es + f w) × (length (put k w es) ≡ length es)
    unfolding total put get
    total-put_over n k v w [] a h = cc
    total-put_over n k v w (e ∷ es) a h =
        ground (arith, total-put_over (suc e.0) k v w es a.1, get-below k (suc e.0) es)

    pub total-delete :
        (n k : ℕ) (v : V) (es : List (ℕ × V))
        → From n es
        → get k es ≡ some v
        → (total f (delete k es) + f v ≡ total f es) × (length (delete k es) + 1 ≡ length es)
    unfolding total delete get
    total-delete n k v [] a h = cc
    total-delete n k v (e ∷ es) a h =
        ground
          (arith, total-delete (suc e.0) k v es a.1, get-below k (suc e.0) es, delete_absent k es)
