-- ===== src/Input/Buttons.antt =====
-- The button mask: setting and clearing one of the five bits, by evaluation over all masks below 32.
use native.Mathlib.Nat.{pow-suc}
use hbb_common.Common.{
  subst, ◌⊎◌, inl, inr, ◌+◌, ◌*◌, ◌/◌, ℕ, zero, suc, ◌-◌, ◌^◌, ◌<◌, ◌≡◌, refl, ap, arith, bit_and,
  bit_or, Bool, true, false, not, ◌&&◌, ◌||◌, ◌==◌, ltb,
}
use hbb_common.Input.Types.{MouseButton, left, right, middle, back, forward, mask, button_code}

abbrev pub button_eq : MouseButton → MouseButton → Bool
button_eq a b = button_code a == button_code b

-- The bits of the button mask, checked over all 32 masks and all pairs of buttons.
every_button : (MouseButton → Bool) → Bool
every_button p = p left && (p right && (p middle && (p back && p forward)))

every_button_sound : (p : MouseButton → Bool) (b : MouseButton) → every_button p ≡ true → p b ≡ true
unfolding every_button
every_button_sound p left h = ground arith
every_button_sound p right h = ground arith
every_button_sound p middle h = ground arith
every_button_sound p back h = ground arith
every_button_sound p forward h = ground arith

-- A test over all numbers of k binary digits, halving them.
on_all_words : ℕ → (ℕ → Bool) → Bool
on_all_words zero test = test 0
on_all_words (suc k) test =
    on_all_words k (λ x. test (x * 2)) && on_all_words k (λ x. test (x * 2 + 1))

halves : (x : ℕ) → (x / 2 * 2 ≡ x) ⊎ (x / 2 * 2 + 1 ≡ x)
halves x = ground arith

on_all_words_sound :
    (k : ℕ) (test : ℕ → Bool) (x : ℕ) → on_all_words k test ≡ true → x < 2 ^ k → test x ≡ true
unfolding on_all_words
on_all_words_sound zero test x passed small =
    subst (λ (y : ℕ). test y ≡ true) (omega (arith, small)) passed
on_all_words_sound (suc k) test x passed small =
    let bound : x / 2 < 2 ^ k = omega (arith, small, pow-suc 2 k) in
    let (evens, odds) =
      both (on_all_words k (λ y. test (y * 2))) (on_all_words k (λ y. test (y * 2 + 1))) passed in
    elim (halves x) [
      | inl even ↦
          subst (λ (y : ℕ). test y ≡ true) even
            (on_all_words_sound k (λ y. test (y * 2)) (x / 2) evens bound)
      | inr odd ↦
          subst (λ (y : ℕ). test y ≡ true) odd
            (on_all_words_sound k (λ y. test (y * 2 + 1)) (x / 2) odds bound)
    ]
  where
    both : (a b : Bool) → (a && b) ≡ true → (a ≡ true) × (b ≡ true)
    both a b h = ground arith

same : Bool → Bool → Bool
same true b = b
same false b = not b

same_sound : (a b : Bool) → same a b ≡ true → a ≡ b
unfolding same
same_sound true true h = refl
same_sound true false h = cc
same_sound false true h = cc
same_sound false false h = refl

abbrev pub is_set : ℕ → MouseButton → Bool
is_set m b = not (bit_and m (mask b) == 0)

set_test : ℕ → MouseButton → MouseButton → Bool
unfolding same
set_test m b c = same (is_set (bit_or m (mask b)) c) (button_eq b c || is_set m c)

clear_test : ℕ → MouseButton → MouseButton → Bool
unfolding same
clear_test m b c =
    same (is_set (bit_and m (2 ^ 16 - 1 - mask b)) c) (not (button_eq b c) && is_set m c)

range_test : ℕ → MouseButton → Bool
unfolding mask
range_test m b = ltb (bit_or m (mask b)) 32 && ltb (bit_and m (2 ^ 16 - 1 - mask b)) 32

set_table : on_all_words 5 (λ m. every_button (λ b. every_button (λ c. set_test m b c))) ≡ true
unfolding on_all_words every_button set_test mask button_code
set_table = refl

clear_table : on_all_words 5 (λ m. every_button (λ b. every_button (λ c. clear_test m b c))) ≡ true
unfolding on_all_words every_button clear_test mask button_code
clear_table = refl

range_table : on_all_words 5 (λ m. every_button (λ b. range_test m b)) ≡ true
unfolding on_all_words every_button range_test mask button_code
range_table = refl

module _ (m : ℕ) (h : m < 32) (b : MouseButton) where
  pub is_set-bit_or :
      (c : MouseButton) → is_set (bit_or m (mask b)) c ≡ (button_eq b c || is_set m c)
  unfolding set_test
  is_set-bit_or c = same_sound _ _ (
      every_button_sound (λ c. set_test m b c) c
        (every_button_sound (λ b. every_button (λ c. set_test m b c)) b
          (on_all_words_sound 5 (λ m. every_button (λ b. every_button (λ c. set_test m b c))) m
            set_table h)))

  pub is_set-bit_and :
      (c : MouseButton)
      → is_set (bit_and m (2 ^ 16 - 1 - mask b)) c ≡ (not (button_eq b c) && is_set m c)
  unfolding clear_test
  is_set-bit_and c = same_sound _ _ (
      every_button_sound (λ c. clear_test m b c) c
        (every_button_sound (λ b. every_button (λ c. clear_test m b c)) b
          (on_all_words_sound 5 (λ m. every_button (λ b. every_button (λ c. clear_test m b c))) m
            clear_table h)))

  in_range : range_test m b ≡ true
  in_range =
      every_button_sound (λ b. range_test m b) b
        (on_all_words_sound 5 (λ m. every_button (λ b. range_test m b)) m range_table h)

  pub mask_range : (bit_or m (mask b) < 32) × (bit_and m (2 ^ 16 - 1 - mask b) < 32)
  unfolding range_test
  mask_range = ground (arith, in_range)

button_eq→eq : (b c : MouseButton) → button_eq b c ≡ true → b ≡ c
unfolding button_code
button_eq→eq b c h = ground arith

pub is_set-button_eq : (m : ℕ) (b c : MouseButton) → button_eq b c ≡ true → is_set m b ≡ is_set m c
is_set-button_eq m b c h = ap (is_set m) (button_eq→eq b c h)
