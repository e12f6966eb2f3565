-- ===== src/Input/Release.antt =====
-- `release_all`: after it the consumer holds nothing down.
use hbb_common.Common.{
  ℕ, ◌≡◌, refl, ◌∙◌, arith, Bool, true, false, not, ◌&&◌, ◌||◌, List, [], ◌∷◌, ◌++◌, if◌then◌else◌,
}
use hbb_common.Common.Int.{pos}
use hbb_common.Common.OrderedSet.{contains}
use hbb_common.Input.Types.{
  key, mouse_button, MouseButton, left, right, middle, back, forward, button_code, mask,
}
use hbb_common.Input.Buttons.{button_eq, is_set, is_set-button_eq}
use hbb_common.Input.Receiver.{
  ReliableInputReceiver, new, release_all, release_keys, release_buttons, all_buttons,
}
use hbb_common.Input.Pressed.{
  Held, nothing_held, obey, obey_all, recorded, Agree, IsReceiver, Agree-trans, Agree-sym,
  obey_all-Agree, obey_all-append, session, session-Agree,
}

release_keys_lem :
    (h : Held) (ks : List ℕ) (j : ℕ)
    → (obey_all h (release_keys ks)).keys j ≡ (not (contains j ks) && h.keys j)
unfolding obey_all release_keys contains obey
release_keys_lem h [] j = refl
release_keys_lem h (k ∷ ks) j = ground (arith, release_keys_lem (obey h (key k false 0)) ks j)

release_keys-buttons :
    (h : Held) (ks : List ℕ) (c : MouseButton)
    → (obey_all h (release_keys ks)).buttons c ≡ h.buttons c
unfolding obey_all release_keys obey
release_keys-buttons h [] c = refl
release_keys-buttons h (k ∷ ks) c = release_keys-buttons (obey h (key k false 0)) ks c

release_buttons-keys :
    (h : Held) (m : ℕ) (bs : List MouseButton) (j : ℕ)
    → (obey_all h (release_buttons m bs)).keys j ≡ h.keys j
unfolding obey_all release_buttons obey
release_buttons-keys h m [] j = refl
release_buttons-keys h m (b ∷ bs) j = ground (
  arith,
  release_buttons-keys h m bs j,
  release_buttons-keys (obey h (mouse_button b false (pos 0) (pos 0) 0)) m bs j,
)

has_button : List MouseButton → MouseButton → Bool
has_button [] c = false
has_button (b ∷ bs) c = button_eq b c || has_button bs c

has_every_button : (c : MouseButton) → has_button all_buttons c ≡ true
unfolding has_button button_code
has_every_button left = refl
has_every_button right = refl
has_every_button middle = refl
has_every_button back = refl
has_every_button forward = refl

release_buttons_lem :
    (h : Held) (m : ℕ) (bs : List MouseButton) (c : MouseButton)
    → (obey_all h (release_buttons m bs)).buttons c
      ≡ (if has_button bs c && is_set m c then false else h.buttons c)
unfolding obey_all release_buttons obey has_button
release_buttons_lem h m [] c = refl
release_buttons_lem h m (b ∷ bs) c = ground (
  arith,
  is_set-button_eq m b c,
  release_buttons_lem h m bs c,
  release_buttons_lem (obey h (mouse_button b false (pos 0) (pos 0) 0)) m bs c,
)

and-not : (b : Bool) → (not b && b) ≡ false
and-not true = refl
and-not false = refl

module _ (r : ReliableInputReceiver) where
  released_keys : Held
  released_keys = obey_all (recorded r) (release_keys r.pressed_keys)

  release_all-Agree : Agree (obey_all (recorded r) (release_all r).0) nothing_held
  unfolding release_all released_keys
  release_all-Agree =
      rw
        (obey_all-append (recorded r) (release_keys r.pressed_keys)
          (release_buttons r.pressed_buttons all_buttons))
        (record {
          keys_agree = λ j.
              release_buttons-keys released_keys r.pressed_buttons all_buttons j
              ∙ release_keys_lem (recorded r) r.pressed_keys j
              ∙ and-not (contains j r.pressed_keys);
          buttons_agree = λ c. ground (
            arith,
            release_buttons_lem released_keys r.pressed_buttons all_buttons c,
            has_every_button c,
            release_keys-buttons (recorded r) r.pressed_keys c,
          );
        })

new-IsReceiver : IsReceiver new
unfolding new
new-IsReceiver = omega arith

none_set : (b : MouseButton) → false ≡ is_set 0 b
unfolding mask button_code
none_set left = refl
none_set right = refl
none_set middle = refl
none_set back = refl
none_set forward = refl

new-Agree : Agree nothing_held (recorded new)
unfolding new contains
new-Agree = record { keys_agree = λ j. refl; buttons_agree = none_set }

-- No key and no button is left stuck: whatever messages reach a new receiver, good or bad, the consumer
-- who held nothing and obeys every event that `apply` hands out, and then those of `release_all`,
-- holds nothing; and `release_all` leaves the receiver as new.
pub release_all-session :
    (messages : List (ℕ × List ℕ))
    → let s = session new messages in
      Agree (obey_all nothing_held (s.0 ++ (release_all s.1).0)) nothing_held
      × ((release_all s.1).1 ≡ new)
unfolding release_all new
release_all-session messages =
    let s = session new messages in
    let before = obey_all-Agree _ _ s.0 new-Agree in
    let events =
      Agree-trans _ _ _ before (Agree-sym _ _ (session-Agree new messages new-IsReceiver)) in
    (
      rw (obey_all-append nothing_held s.0 (release_all s.1).0) (
          Agree-trans _ _ _ (obey_all-Agree _ _ (release_all s.1).0 events)
            (release_all-Agree s.1)),
      refl,
    )
