-- ===== src/Common/Fallible.antt =====
-- What a fallible function of the source does: it returns `Ok` or `Err`, or it panics (an index out
-- of range, an `unwrap` of nothing, an arithmetic overflow).
use mathlib.Core.Path.{◌≡◌, refl, ap}
use mathlib.Core.Bool.{Bool, true, false}
use mathlib.Core.Option.{Option, none, some}
use mathlib.Core.Logic.{◌≢◌}

pub data Outcome {ℓ κ} (E : Type ℓ) (A : Type κ) : Type (ℓ ⊔ κ) where
  ok : A → Outcome E A
  err : E → Outcome E A
  panic : Outcome E A

infixl 5 ◌>>=◌
abbrev pub ◌>>=◌ {ε ℓ κ} :
    {E : Type ε} {A : Type ℓ} {B : Type κ} → Outcome E A → (A → Outcome E B) → Outcome E B
panic >>= next = panic
err x >>= next = err x
ok value >>= next = next value

infixl 5 ◌>>◌
-- `step?;` before the rest.
abbrev pub ◌>>◌ {ε κ} : {E : Type ε} {B : Type κ} → Outcome E (Unit {0}) → Outcome E B → Outcome E B
step >> rest = step >>= λ done. rest

-- `if test { return Err(e) }`.
abbrev pub reject_if {ε} : {E : Type ε} → Bool → E → Outcome E (Unit {0})
reject_if true e = err e
reject_if false e = ok tt

-- `?` through a `From` between two error types, and `map_err`.
abbrev pub map_err {ε δ ℓ} :
    {E : Type ε} {D : Type δ} {A : Type ℓ} → (E → D) → Outcome E A → Outcome D A
map_err f (ok a) = ok a
map_err f (err e) = err (f e)
map_err f panic = panic

-- `ok_or`.
abbrev pub ok_or {ε ℓ} : {E : Type ε} {A : Type ℓ} → Option A → E → Outcome E A
ok_or none e = err e
ok_or (some a) e = ok a

pub map_err-ne-panic {ε δ ℓ} :
    {E : Type ε} {D : Type δ} {A : Type ℓ} (f : E → D) (r : Outcome E A)
    → r ≢ panic
    → map_err f r ≢ panic
map_err-ne-panic f (ok a) h = λ e. cc
map_err-ne-panic f (err e) h = λ e. cc
map_err-ne-panic f panic h = λ e. h refl

-- A bind succeeds only when its first step does.
module _ {ε ℓ κ} {E : Type ε} {A : Type ℓ} {B : Type κ} where
  pub >>=-eq-ok :
      (first : Outcome E A) (next : A → Outcome E B) {result : B}
      → (first >>= next) ≡ ok result
      → (value : A) × ((first ≡ ok value) × (next value ≡ ok result))
  >>=-eq-ok panic next e = cc
  >>=-eq-ok (err x) next e = cc
  >>=-eq-ok (ok value) next e = (value, (refl, e))

value_or {ε ℓ} : {E : Type ε} {A : Type ℓ} → A → Outcome E A → A
value_or d (ok a) = a
value_or d (err e) = d
value_or d panic = d

pub ok-injective {ε ℓ} :
    {E : Type ε} {A : Type ℓ} (a b : A) → ◌≡◌ {A = Outcome E A} (ok a) (ok b) → a ≡ b
unfolding value_or
ok-injective a b h = ap (value_or a) h

pub >>=-assoc {ε α β γ} :
    {E : Type ε} {A : Type α} {B : Type β} {C : Type γ} (m : Outcome E A) (f : A → Outcome E B)
    (g : B → Outcome E C)
    → ((m >>= f) >>= g) ≡ (m >>= λ a. f a >>= g)
>>=-assoc (ok a) f g = refl
>>=-assoc (err e) f g = refl
>>=-assoc panic f g = refl

-- A chain of steps panics only where a step does.
pub >>=-ne-panic {ε ℓ κ} :
    {E : Type ε} {A : Type ℓ} {B : Type κ} (m : Outcome E A) (f : A → Outcome E B)
    → m ≢ panic
    → ((a : A) → f a ≢ panic)
    → (m >>= f) ≢ panic
>>=-ne-panic (ok a) f h g = g a
>>=-ne-panic (err e) f h g = λ p. cc
>>=-ne-panic panic f h g = λ p. h refl

pub reject_if-ne-panic {ε κ} :
    {E : Type ε} {B : Type κ} (t : Bool) (e : E) (m : Outcome E B)
    → (t ≡ false → m ≢ panic)
    → (reject_if t e >> m) ≢ panic
reject_if-ne-panic true e m h = λ p. cc
reject_if-ne-panic false e m h = h refl
