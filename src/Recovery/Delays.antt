-- ===== src/Recovery/Delays.antt =====
-- The delays between attempts: how many there are, and how long they are.
use native.Mathlib.Nat.{mul-le-mul_left}
use hbb_common.Common.{
  ℕ, ◌+◌, ◌-◌, ◌*◌, ◌%◌, ◌^◌, ◌<◌, ◌≤◌, ◌≡◌, sym, subst, inl, inr, min, arith, List, [], ◌∷◌,
  length, All, leb, ◌==◌, if◌then◌else◌, Bool-cases, leb→le, Outcome, ok, err, panic,
}
use hbb_common.Recovery.State.{
  ReconnectPolicy, RecoveryError, attempts_exhausted, ReconnectState, as_millis, from_millis,
  new_state, base_millis, jitter_range, jitter_width, jittered_millis, next_delay, on_connected,
}

-- The values of the fields, and what `new_state` checks.
pub record IsState (s : ReconnectState) : Type 0 where
  pub jitter_small : s.policy.jitter_percent ≤ 50
  pub delay_fits : as_millis s.policy.maximum_delay < 2 ^ 63

abbrev pub cap_millis : ReconnectState → ℕ
cap_millis s = as_millis s.policy.maximum_delay

base_millis-le : (s : ReconnectState) → base_millis s ≤ cap_millis s
unfolding base_millis
base_millis-le s = omega arith

module _ (s : ReconnectState) (v : IsState s) where
  percent_le : base_millis s * s.policy.jitter_percent ≤ base_millis s * 50
  percent_le = mul-le-mul_left (base_millis s) v.jitter_small

  jitter_range-le : jitter_range s * 2 ≤ base_millis s
  unfolding jitter_range
  jitter_range-le = omega (arith, percent_le)

  -- Jitter moves a delay by at most its range, either way.
  jittered_millis-bounds :
      (sample : ℕ)
      → (base_millis s ≤ jittered_millis s sample + jitter_range s)
        × (jittered_millis s sample ≤ base_millis s + jitter_range s)
  unfolding jittered_millis
  jittered_millis-bounds sample =
      by_width (base_millis s) (jitter_range s) (jitter_width s) sample
        (omega (arith, jitter_range-le, base_millis-le s, v.delay_fits))
    where
      by_width :
          (b r w j : ℕ)
          → w ≡ r * 2 + 1
          → (b ≤ (if w == 0 then b else b + j % w - r) + r)
            × ((if w == 0 then b else b + j % w - r) ≤ b + r)
      by_width b r w j e = ground arith

-- The delays that a state gives for a sequence of jitter samples, and the state then.
abbrev pub take_in :
    ReconnectState
    → Outcome RecoveryError (ℕ × ReconnectState)
    → (ReconnectState → List ℕ × ReconnectState)
    → List ℕ × ReconnectState
take_in s (ok a) rest = (a.0 ∷ (rest a.1).0, (rest a.1).1)
take_in s (err e) rest = rest s
take_in s panic rest = rest s

unfoldable pub delays : ReconnectState → List ℕ → List ℕ × ReconnectState
delays s [] = ([], s)
delays s (j ∷ js) = take_in s (next_delay s j) (λ q. delays q js)

-- A delay in nanoseconds that is at most half as long again as the longest delay.
abbrev pub IsDelay : ReconnectPolicy → ℕ → Type 0
IsDelay policy d = d * 2 ≤ from_millis (as_millis policy.maximum_delay * 3)

next_delay-left :
    (s : ReconnectState) (j : ℕ)
    → s.attempts < s.policy.maximum_attempts
    → next_delay s j
      ≡ ok (
        from_millis (min (jittered_millis s j) (2 ^ 64 - 1)),
        record s { attempts = s.attempts + 1 },
      )
unfolding next_delay
next_delay-left s j h = ground arith

next_delay-exhausted :
    (s : ReconnectState) (j : ℕ)
    → s.policy.maximum_attempts ≤ s.attempts
    → next_delay s j ≡ err attempts_exhausted
unfolding next_delay
next_delay-exhausted s j h = ground arith

-- The delay before jitter, in milliseconds: the first delay, doubled for every attempt that was made,
-- of which no more than 31 count, and cut off at the longest delay.
abbrev pub backoff : ReconnectPolicy → ℕ → ℕ
backoff policy attempts =
    min (as_millis policy.initial_delay * 2 ^ min attempts 31) (as_millis policy.maximum_delay)

delays-run :
    (s : ReconnectState) (js : List ℕ)
    → IsState s
    → (length (delays s js).0 ≡ min (length js) (s.policy.maximum_attempts - s.attempts))
      × All (IsDelay s.policy) (delays s js).0
unfolding delays
delays-run s [] v = (omega arith, tt)
delays-run s (j ∷ js) v = elim (Bool-cases (leb s.policy.maximum_attempts s.attempts)) [
  | inl none_left ↦
      let used = leb→le _ _ none_left in
      rw (delays, next_delay-exhausted s j used)
        (let (count, bounds) = delays-run s js v in (omega (arith, count, used), bounds))
  | inr left ↦
      let h : s.attempts < s.policy.maximum_attempts = ground arith in
      let high = (jittered_millis-bounds s v j).1 in
      let half = jitter_range-le s v in
      rw (delays, next_delay-left s j h)
        (let (count, bounds) =
            delays-run (record s { attempts = s.attempts + 1 }) js
              (record { jitter_small = v.jitter_small; delay_fits = v.delay_fits }) in
          (omega (arith, count, h), (omega (arith, high, half, base_millis-le s), bounds)))
]

abbrev fresh : ReconnectPolicy → ℕ → ReconnectState
fresh policy generation = record { policy = policy; attempts = 0; generation = generation }

new_state-fresh :
    (policy : ReconnectPolicy) (s : ReconnectState)
    → new_state policy ≡ ok s
    → (fresh policy 1 ≡ s) × (policy.jitter_percent ≤ 50)
unfolding new_state
new_state-fresh policy s n = (ground arith, ground arith)

fresh-run :
    (policy : ReconnectPolicy) (generation : ℕ) (js : List ℕ)
    → IsState (fresh policy generation)
    → (length (delays (fresh policy generation) js).0 ≡ min (length js) policy.maximum_attempts)
      × All (IsDelay policy) (delays (fresh policy generation) js).0
fresh-run policy generation js v =
    let (count, bounds) = delays-run (fresh policy generation) js v in
    (omega (arith, count), bounds)

-- A connection is tried again exactly as often as the policy says: a new state, or any state of a valid
-- policy after `on_connected`, gives for n requests as many delays as the smaller of n and the
-- policy's attempts, each at most one and a half times the longest delay. The longest delay is below
-- 2^63 milliseconds.
pub delays-length :
    (policy : ReconnectPolicy) (s q : ReconnectState) (js : List ℕ)
    → new_state policy ≡ ok s
    → as_millis policy.maximum_delay < 2 ^ 63
    → q.policy ≡ policy
    → (length (delays s js).0 ≡ min (length js) policy.maximum_attempts)
      × All (IsDelay policy) (delays s js).0
      × (length (delays (on_connected q) js).0 ≡ min (length js) policy.maximum_attempts)
      × All (IsDelay policy) (delays (on_connected q) js).0
unfolding on_connected
delays-length policy s q js n fits kept =
    let (e, small) = new_state-fresh policy s n in
    let valid : (g : ℕ) → IsState (fresh policy g) =
      λ g. record { jitter_small = small; delay_fits = fits } in
    let again =
      subst
        (λ (x : ReconnectPolicy).
          (length (delays (fresh x q.generation) js).0 ≡ min (length js) policy.maximum_attempts)
          × All (IsDelay policy) (delays (fresh x q.generation) js).0)
        (sym kept) (fresh-run policy q.generation js (valid q.generation)) in
    let first =
      subst
        (λ (x : ReconnectState).
          (length (delays x js).0 ≡ min (length js) policy.maximum_attempts)
          × All (IsDelay policy) (delays x js).0)
        e (fresh-run policy 1 js (valid 1)) in
    (first.0, first.1, again.0, again.1)
