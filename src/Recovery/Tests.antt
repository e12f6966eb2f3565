-- ===== src/Recovery/Tests.antt =====
-- Runs of the reconnect state, and its theorems at concrete inputs.
use hbb_common.Recovery.State.{
  jitter_range, jittered_millis, ReconnectState, default_policy, new_state, next_delay,
  on_disconnect, on_connected, base_millis, from_millis,
}
use hbb_common.Common.{◌≡◌, refl, arith, [], ◌∷◌, length, All, ok}
use hbb_common.Input.Receiver.{new}
use hbb_common.Recovery.Delays.{IsDelay, delays, delays-length}

abbrev fresh_state : ReconnectState
fresh_state = record { policy = default_policy; attempts = 0; generation = 1 }

new_default : new_state default_policy ≡ ok fresh_state
unfolding new_state
new_default = refl

-- 250 ms, then 500 ms, each with the middle of its jitter.
first_delays : (delays fresh_state (50 ∷ 100 ∷ [])).0 ≡ from_millis 250 ∷ from_millis 500 ∷ []
unfolding delays next_delay jittered_millis jitter_range base_millis
first_delays = refl

disconnect_counts : (on_disconnect fresh_state new).1.generation ≡ 2
unfolding on_disconnect
disconnect_counts = refl

abbrev used_state : ReconnectState
used_state = record fresh_state { attempts = 8 }

delays-length_example :
    (length (delays fresh_state (7 ∷ 8 ∷ [])).0 ≡ 2)
    × All (IsDelay default_policy) (delays fresh_state (7 ∷ 8 ∷ [])).0
    × (length (delays (on_connected used_state) (7 ∷ 8 ∷ [])).0 ≡ 2)
    × All (IsDelay default_policy) (delays (on_connected used_state) (7 ∷ 8 ∷ [])).0
delays-length_example =
    delays-length default_policy fresh_state used_state (7 ∷ 8 ∷ []) new_default (omega arith) refl
