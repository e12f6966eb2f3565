-- ===== src/Input/Pressed.antt =====
-- What the consumer of the events holds down, against what the receiver records.
use hbb_common.Common.{
  ℕ, ◌+◌, ◌-◌, ◌^◌, ◌<◌, ◌≡◌, refl, sym, ap, ◌∙◌, arith, min, Bool, true, false, not, Option, none,
  some, List, [], ◌∷◌, ◌++◌, ◌==◌, if◌then◌else◌, Outcome, ok, err, panic, ◌>>=◌, ◌>>◌,
  ok-injective, reject_if,
}
use hbb_common.Common.OrderedSet.{
  contains, insert, remove, contains-insert, contains-remove, IsAscending, insert-IsAscending,
  remove-IsAscending,
}
use hbb_common.Input.Types.{
  ReliableInputEvent, key, mouse_button, wheel, MouseButton, InputError, invalid_sequence,
}
use hbb_common.Input.Buttons.{
  button_eq, is_set, is_set-bit_or, is_set-bit_and, is_set-button_eq, mask_range,
}
use hbb_common.Input.Event.{decode_reliable_input}
use hbb_common.Input.Receiver.{ReliableInputReceiver, track, apply, then_some}

-- What is held down, as the consumer knows it.
pub record Held : Type 0 where
  pub keys : ℕ → Bool
  pub buttons : MouseButton → Bool

abbrev pub nothing_held : Held
nothing_held = record { keys = λ k. false; buttons = λ b. false }

-- The consumer obeys one event.
unfoldable pub obey : Held → ReliableInputEvent → Held
obey h (key k pressed modifiers) = record h { keys = λ j. if k == j then pressed else h.keys j }
obey h (mouse_button b pressed x y display_id) = record h {
  buttons = λ c. if button_eq b c then pressed else h.buttons c;
}
obey h (wheel delta_x delta_y display_id) = h

unfoldable pub obey_all : Held → List ReliableInputEvent → Held
obey_all h [] = h
obey_all h (e ∷ es) = obey_all (obey h e) es

-- What the receiver records.
abbrev pub recorded : ReliableInputReceiver → Held
recorded r = record {
  keys = λ k. contains k r.pressed_keys;
  buttons = λ b. is_set r.pressed_buttons b;
}

pub record Agree (h k : Held) : Type 0 where
  pub keys_agree : (j : ℕ) → h.keys j ≡ k.keys j
  pub buttons_agree : (b : MouseButton) → h.buttons b ≡ k.buttons b

-- Only the five known button bits are set.
abbrev pub IsReceiver : ReliableInputReceiver → Type 0
IsReceiver r = IsAscending r.pressed_keys × (r.pressed_buttons < 32)

-- Those that `apply` hands out: `Ok(Some(event))` is obeyed, `Ok(None)` is not.
abbrev pub obey_some : Held → Option ReliableInputEvent → Held
obey_some h none = h
obey_some h (some e) = obey h e

-- What the consumer holds after the event that was tracked, if it is handed out.
abbrev pub obeyed : ReliableInputReceiver → ReliableInputEvent → Held
obeyed r e = obey_some (recorded r) (then_some (track r e).1 e)

obeyed_keys :
    (h : Held) (flag : Bool) (e : ReliableInputEvent) (j : ℕ)
    → (obey_some h (then_some flag e)).keys j ≡ (if flag then (obey h e).keys j else h.keys j)
obeyed_keys h true e j = refl
obeyed_keys h false e j = refl

obeyed_buttons :
    (h : Held) (flag : Bool) (e : ReliableInputEvent) (c : MouseButton)
    → (obey_some h (then_some flag e)).buttons c
      ≡ (if flag then (obey h e).buttons c else h.buttons c)
obeyed_buttons h true e c = refl
obeyed_buttons h false e c = refl

track_keys :
    (r : ReliableInputReceiver) (e : ReliableInputEvent) (j : ℕ)
    → contains j (track r e).0.pressed_keys
      ≡ (if (track r e).1 then (obey (recorded r) e).keys j else contains j r.pressed_keys)
unfolding track obey insert remove
track_keys r (key k true m) j = ground (arith, contains-insert j k r.pressed_keys)
track_keys r (key k false m) j = ground (arith, contains-remove j k r.pressed_keys)
track_keys r (mouse_button b pressed x y d) j = ground arith
track_keys r (wheel x y d) j = ground arith

track_buttons :
    (r : ReliableInputReceiver) (e : ReliableInputEvent) (c : MouseButton)
    → r.pressed_buttons < 32
    → is_set (track r e).0.pressed_buttons c
      ≡ (if (track r e).1 then (obey (recorded r) e).buttons c else is_set r.pressed_buttons c)
unfolding track obey
track_buttons r (mouse_button b true x y d) c h =
    ground (arith, is_set-bit_or r.pressed_buttons h b c, is_set-button_eq r.pressed_buttons b c)
track_buttons r (mouse_button b false x y d) c h =
    ground (arith, is_set-bit_and r.pressed_buttons h b c, is_set-button_eq r.pressed_buttons b c)
track_buttons r (key k true m) c h = ground arith
track_buttons r (key k false m) c h = ground arith
track_buttons r (wheel x y d) c h = ground arith

track-Agree :
    (r : ReliableInputReceiver) (e : ReliableInputEvent)
    → IsReceiver r
    → Agree (recorded (track r e).0) (obeyed r e)
track-Agree r e v = record {
  keys_agree = λ j. track_keys r e j ∙ sym (obeyed_keys (recorded r) (track r e).1 e j);
  buttons_agree =
      λ b. track_buttons r e b v.1 ∙ sym (obeyed_buttons (recorded r) (track r e).1 e b);
}

track-IsReceiver :
    (r : ReliableInputReceiver) (e : ReliableInputEvent) → IsReceiver r → IsReceiver (track r e).0
unfolding track
track-IsReceiver r (key k true m) v = (insert-IsAscending k r.pressed_keys v.0, v.1)
track-IsReceiver r (key k false m) v = (remove-IsAscending k r.pressed_keys v.0, v.1)
track-IsReceiver r (mouse_button b true x y d) v = (v.0, (mask_range r.pressed_buttons v.1 b).0)
track-IsReceiver r (mouse_button b false x y d) v = (v.0, (mask_range r.pressed_buttons v.1 b).1)
track-IsReceiver r (wheel x y d) v = v

pub obey_some-Agree :
    (h k : Held) (o : Option ReliableInputEvent) → Agree h k → Agree (obey_some h o) (obey_some k o)
unfolding obey
obey_some-Agree h k none a = a
obey_some-Agree h k (some (key c p m)) a = record {
  keys_agree = λ j. ground (arith, a.keys_agree j);
  buttons_agree = a.buttons_agree;
}
obey_some-Agree h k (some (mouse_button b p x y d)) a = record {
  keys_agree = a.keys_agree;
  buttons_agree = λ c. ground (arith, a.buttons_agree c);
}
obey_some-Agree h k (some (wheel x y d)) a = a

pub Agree-trans : (h k l : Held) → Agree h k → Agree k l → Agree h l
Agree-trans h k l a b = record {
  keys_agree = λ j. a.keys_agree j ∙ b.keys_agree j;
  buttons_agree = λ c. a.buttons_agree c ∙ b.buttons_agree c;
}

pub Agree-sym : (h k : Held) → Agree h k → Agree k h
Agree-sym h k a = record {
  keys_agree = λ j. sym (a.keys_agree j);
  buttons_agree = λ c. sym (a.buttons_agree c);
}

pub obey_all-Agree :
    (h k : Held) (es : List ReliableInputEvent) → Agree h k → Agree (obey_all h es) (obey_all k es)
unfolding obey_all
obey_all-Agree h k [] a = a
obey_all-Agree h k (e ∷ es) a =
    obey_all-Agree (obey h e) (obey k e) es (obey_some-Agree h k (some e) a)

pub obey_all-append :
    (h : Held) (es fs : List ReliableInputEvent)
    → obey_all h (es ++ fs) ≡ obey_all (obey_all h es) fs
unfolding obey_all
obey_all-append h [] fs = refl
obey_all-append h (e ∷ es) fs = obey_all-append (obey h e) es fs

-- A session: each message with its sequence number goes to `apply`; one that fails changes nothing.
abbrev cons_some : Option ReliableInputEvent → List ReliableInputEvent → List ReliableInputEvent
cons_some none es = es
cons_some (some e) es = e ∷ es

session_step :
    ReliableInputReceiver
    → Outcome InputError (Option ReliableInputEvent × ReliableInputReceiver)
    → Option ReliableInputEvent × ReliableInputReceiver
session_step r (ok p) = p
session_step r (err e) = (none, r)
session_step r panic = (none, r)

unfoldable pub session :
    ReliableInputReceiver → List (ℕ × List ℕ) → List ReliableInputEvent × ReliableInputReceiver
unfolding session_step
session r [] = ([], r)
session r ((sequence, payload) ∷ rest) =
    let step = session_step r (apply r sequence payload) in
    let later = session step.1 rest in (cons_some step.0 later.0, later.1)

-- What `apply` returns for a decoded event.
abbrev handed :
    ReliableInputReceiver → ReliableInputEvent → Option ReliableInputEvent × ReliableInputReceiver
handed r e = (then_some (track r e).1 e, (track r e).0)

-- An accepted message leads to what the tracked event makes of the receiver.
apply-track :
    (r q : ReliableInputReceiver) (sequence : ℕ) (payload : List ℕ) (o : Option ReliableInputEvent)
    → apply r sequence payload ≡ ok (o, q)
    → (e : ReliableInputEvent) × (q ≡ (track (record r { last_sequence = sequence }) e).0)
      × (o ≡ then_some (track (record r { last_sequence = sequence }) e).1 e)
unfolding apply
apply-track r q sequence payload o h =
    go (not (sequence == min (r.last_sequence + 1) (2 ^ 64 - 1))) (decode_reliable_input payload) h
  where
    r' : ReliableInputReceiver
    r' = record r { last_sequence = sequence }

    go :
        (bad : Bool) (d : Outcome InputError ReliableInputEvent)
        → (reject_if bad (invalid_sequence r.last_sequence sequence)
            >> (d >>= λ e. ok (handed r' e)))
          ≡ ok (o, q)
        → (e : ReliableInputEvent) × (q ≡ (track r' e).0) × (o ≡ then_some (track r' e).1 e)
    go true d h = cc
    go false (ok e) h =
        let same = ok-injective (handed r' e) (o, q) h in
        (e, sym (ap (λ p. p.1) same), sym (ap (λ p. p.0) same))
    go false (err x) h = cc
    go false panic h = cc

step-Agree :
    (r : ReliableInputReceiver) (sequence : ℕ) (payload : List ℕ)
    (result : Outcome InputError (Option ReliableInputEvent × ReliableInputReceiver))
    → apply r sequence payload ≡ result
    → IsReceiver r
    → let step = session_step r result in
      Agree (recorded step.1) (obey_some (recorded r) step.0) × IsReceiver step.1
unfolding session_step
step-Agree r sequence payload (ok (o, q)) h v =
    let (e, eq, eo) = apply-track r q sequence payload o h in
    let r' : ReliableInputReceiver = record r { last_sequence = sequence } in
    rw (eq, eo) (track-Agree r' e v, track-IsReceiver r' e v)
step-Agree r sequence payload (err e) h v =
    (record { keys_agree = λ j. refl; buttons_agree = λ b. refl }, v)
step-Agree r sequence payload panic h v =
    (record { keys_agree = λ j. refl; buttons_agree = λ b. refl }, v)

obey_all-cons_some :
    (h : Held) (o : Option ReliableInputEvent) (es : List ReliableInputEvent)
    → obey_all h (cons_some o es) ≡ obey_all (obey_some h o) es
unfolding obey_all
obey_all-cons_some h none es = refl
obey_all-cons_some h (some e) es = refl

pub session-Agree :
    (r : ReliableInputReceiver) (messages : List (ℕ × List ℕ))
    → IsReceiver r
    → Agree (recorded (session r messages).1) (obey_all (recorded r) (session r messages).0)
unfolding session obey_all
session-Agree r [] v = record { keys_agree = λ j. refl; buttons_agree = λ b. refl }
session-Agree r ((sequence, payload) ∷ rest) v =
    let result = apply r sequence payload in
    let step = session_step r result in
    let (now, keep) = step-Agree r sequence payload result refl v in
    rw (obey_all-cons_some (recorded r) step.0 (session step.1 rest).0) (
      Agree-trans _ _ _ (session-Agree step.1 rest keep) (
        obey_all-Agree (recorded step.1) (obey_some (recorded r) step.0) (session step.1 rest).0
          now))
