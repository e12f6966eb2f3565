-- ===== src/Recovery/State.antt =====
-- src/transport/recovery.rs: `ReconnectState`. A `Duration` is its number of nanoseconds.
use hbb_common.Common.{
  ℕ, ◌+◌, ◌-◌, ◌*◌, ◌/◌, ◌%◌, ◌^◌, min, Bool, true, ◌||◌, List, ltb, leb, ◌==◌, if◌then◌else◌,
  Outcome, ok, ◌>>◌, reject_if,
}
use hbb_common.Input.Types.{ReliableInputEvent}
use hbb_common.Input.Receiver.{ReliableInputReceiver, release_all}

pub record ReconnectPolicy : Type 0 where
  pub initial_delay : ℕ
  pub maximum_delay : ℕ
  pub maximum_attempts : ℕ
  pub jitter_percent : ℕ

pub data RecoveryError : Type 0 where
  invalid_policy attempts_exhausted : RecoveryError

pub record DisconnectActions : Type 0 where
  pub input_releases : List ReliableInputEvent
  pub discard_video_and_audio : Bool
  pub request_fresh_keyframe : Bool
  pub reauthenticate : Bool
  pub renegotiate_capabilities : Bool
  pub resume_files_after_integrity_check : Bool

pub record ReconnectState : Type 0 where
  pub policy : ReconnectPolicy
  pub attempts : ℕ
  pub generation : ℕ

-- `Duration::from_millis` and `as_millis`.
abbrev pub from_millis : ℕ → ℕ
from_millis n = n * 1_000_000

abbrev pub as_millis : ℕ → ℕ
as_millis d = d / 1_000_000

abbrev pub default_policy : ReconnectPolicy
default_policy = record {
  initial_delay = from_millis 250;
  maximum_delay = from_millis 8000;
  maximum_attempts = 8;
  jitter_percent = 20;
}

unfoldable pub new_state : ReconnectPolicy → Outcome RecoveryError ReconnectState
new_state policy = do
  reject_if
      (policy.initial_delay == 0
        || (ltb policy.maximum_delay policy.initial_delay
            || (policy.maximum_attempts == 0 || ltb 50 policy.jitter_percent)))
      invalid_policy
  ok (record { policy = policy; attempts = 0; generation = 1 })

unfoldable pub on_disconnect :
    ReconnectState
    → ReliableInputReceiver
    → DisconnectActions × ReconnectState × ReliableInputReceiver
on_disconnect s input =
    let released = release_all input in
    (
      record {
        input_releases = released.0;
        discard_video_and_audio = true;
        request_fresh_keyframe = true;
        reauthenticate = true;
        renegotiate_capabilities = true;
        resume_files_after_integrity_check = true;
      },
      record s { generation = min (s.generation + 1) (2 ^ 64 - 1) },
      released.1,
    )

-- `saturating_mul` and `saturating_add` on `u128`.
abbrev pub saturating_mul : ℕ → ℕ → ℕ
saturating_mul a b = min (a * b) (2 ^ 128 - 1)

abbrev pub saturating_add : ℕ → ℕ → ℕ
saturating_add a b = min (a + b) (2 ^ 128 - 1)

-- The delay before jitter, in milliseconds.
unfoldable pub base_millis : ReconnectState → ℕ
base_millis s =
    min (saturating_mul (as_millis s.policy.initial_delay) (2 ^ min s.attempts 31))
      (as_millis s.policy.maximum_delay)

unfoldable pub jitter_range : ReconnectState → ℕ
jitter_range s = saturating_mul (base_millis s) s.policy.jitter_percent / 100

abbrev pub jitter_width : ReconnectState → ℕ
jitter_width s = saturating_add (saturating_mul (jitter_range s) 2) 1

-- The sum of the signed `i128`s, with `max(0)`, is a subtraction that stops at 0: the base is a
-- count of milliseconds, so none of the terms comes near 2^127.
unfoldable pub jittered_millis : ReconnectState → ℕ → ℕ
jittered_millis s jitter_sample =
    if jitter_width s == 0
    then base_millis s
    else base_millis s + jitter_sample % jitter_width s - jitter_range s

unfoldable pub next_delay : ReconnectState → ℕ → Outcome RecoveryError (ℕ × ReconnectState)
next_delay s jitter_sample = do
  reject_if (leb s.policy.maximum_attempts s.attempts) attempts_exhausted
  ok (
    from_millis (min (jittered_millis s jitter_sample) (2 ^ 64 - 1)),
    record s { attempts = s.attempts + 1 },
  )

unfoldable pub on_connected : ReconnectState → ReconnectState
on_connected s = record s { attempts = 0 }
