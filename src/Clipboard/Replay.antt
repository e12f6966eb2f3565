-- ===== src/Clipboard/Replay.antt =====
-- What a receiver of clipboard messages hands out: each message once, in order, from few origins.
use hbb_common.Common.{
  ℕ, ◌<◌, ◌≤◌, ◌≡◌, refl, subst, Bool, true, false, Option, none, some, List, [], ◌∷◌, length, All,
  bytes_eq, bytes_eq→eq, if◌then◌else◌, Outcome, ok, err, panic,
}
use hbb_common.Clipboard.State.{ClipboardText, ClipboardError, ClipboardState, receive}
use hbb_common.Clipboard.Step.{last, Delivered, Step, receive-Step}

-- The messages that a state hands out for a sequence of payloads, good or bad, and its state then.
abbrev handed_out : Option ClipboardText → List ClipboardText → List ClipboardText
handed_out none ts = ts
handed_out (some t) ts = t ∷ ts

abbrev pub take_in :
    ClipboardState
    → Outcome ClipboardError (Option ClipboardText × ClipboardState)
    → (ClipboardState → List ClipboardText × ClipboardState)
    → List ClipboardText × ClipboardState
take_in s (ok a) rest = (handed_out a.0 (rest a.1).0, (rest a.1).1)
take_in s (err e) rest = rest s
take_in s panic rest = rest s

unfoldable pub receive_run : ClipboardState → List (List ℕ) → List ClipboardText × ClipboardState
receive_run s [] = ([], s)
receive_run s (p ∷ ps) = take_in s (receive s p) (λ q. receive_run q ps)

-- Sequence numbers that ascend from above n.
abbrev pub IsAbove : ℕ → List ℕ → Type 0
IsAbove n [] = Unit {0}
IsAbove n (x ∷ xs) = (n < x) × IsAbove x xs

-- The sequence numbers of the messages of one origin.
unfoldable pub sequences_of : List ℕ → List ClipboardText → List ℕ
sequences_of origin [] = []
sequences_of origin (t ∷ ts) =
    if bytes_eq t.origin_id origin
    then t.change_sequence ∷ sequences_of origin ts
    else sequences_of origin ts

-- What holds of a run from one state to another.
pub record Ran (s : ClipboardState) (run : List ClipboardText × ClipboardState) : Type 0 where
  pub in_order :
      (origin : List ℕ) → IsAbove (last origin s.remote_sequences) (sequences_of origin run.0)
  pub no_echo : All (λ (t : ClipboardText). bytes_eq t.origin_id s.local_origin_id ≡ false) run.0
  pub few_origins : length s.remote_sequences ≤ 8 → length run.1.remote_sequences ≤ 8

Ran-take_in :
    (s : ClipboardState) (o : Outcome ClipboardError (Option ClipboardText × ClipboardState))
    (rest : ClipboardState → List ClipboardText × ClipboardState)
    → ((a : Option ClipboardText × ClipboardState) → o ≡ ok a → Step s a.1 a.0)
    → ((u : ClipboardState) → Ran u (rest u))
    → Ran s (take_in s o rest)
unfolding sequences_of
Ran-take_in s (err e) rest step ran = ran s
Ran-take_in s panic rest step ran = ran s
Ran-take_in s (ok (none, u)) rest step ran =
    subst (λ (x : ClipboardState). Ran x (rest u)) (step (none, u) refl) (ran u)
Ran-take_in s (ok (some t, u)) rest step ran =
    let d = step (some t, u) refl in
    record {
      in_order = λ origin. by_origin d origin (bytes_eq t.origin_id origin) refl;
      no_echo = (
        d.remote,
        subst
            (λ (l : List ℕ). All (λ (x : ClipboardText). bytes_eq x.origin_id l ≡ false) (rest u).0)
            d.same_local (ran u).no_echo,
      );
      few_origins = λ l. (ran u).few_origins (d.few l);
    }
  where
    by_origin :
        Delivered s u t
        → (origin : List ℕ) (b : Bool) → bytes_eq t.origin_id origin ≡ b
        → IsAbove (last origin s.remote_sequences) (
            if b
            then t.change_sequence ∷ sequences_of origin (rest u).0
            else sequences_of origin (rest u).0)
    by_origin d origin true e =
        subst
          (λ (o : List ℕ).
            IsAbove (last o s.remote_sequences) (t.change_sequence ∷ sequences_of o (rest u).0))
          (bytes_eq→eq t.origin_id origin e)
          (
            d.newer,
            subst (λ (n : ℕ). IsAbove n (sequences_of t.origin_id (rest u).0)) d.noted
                ((ran u).in_order t.origin_id),
          )
    by_origin d origin false e =
        subst (λ (n : ℕ). IsAbove n (sequences_of origin (rest u).0)) (d.others origin e)
          ((ran u).in_order origin)

-- No clipboard message is replayed: whatever payloads a state receives, good or bad, the sequence
-- numbers of the texts that it hands out for any one origin ascend strictly from above the number it
-- had recorded for that origin, no text of its own origin is handed out, and a state that tracks at
-- most 8 origins still does.
pub receive_run-Ran : (s : ClipboardState) (ps : List (List ℕ)) → Ran s (receive_run s ps)
unfolding receive_run sequences_of
receive_run-Ran s [] = record { in_order = λ origin. tt; no_echo = tt; few_origins = λ l. l }
receive_run-Ran s (p ∷ ps) =
    Ran-take_in s (receive s p) (λ q. receive_run q ps) (receive-Step s p)
      (λ u. receive_run-Ran u ps)
