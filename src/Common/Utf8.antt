-- ===== src/Common/Utf8.antt =====
-- UTF-8: `std::str::from_utf8`, and the characters of a string. A string is the list of its bytes.
use hbb_common.Common.Tests.{◌==◌, leb, ltb, if◌then◌else◌}
use hbb_common.Common.Fallible.{Outcome, ok, err, ◌>>=◌}
use Prim.Native.Nat.{ℕ, ◌+◌, ◌-◌, ◌*◌}
use mathlib.Core.Bool.{Bool, true, false, ◌&&◌}
use mathlib.Core.List.{List, [], ◌∷◌, ◌++◌}

-- How many bytes the character that has begun still needs, the bounds of the next one, and the bits
-- read so far.
pub record Utf8State : Type 0 where
  pub pending : ℕ
  pub low : ℕ
  pub high : ℕ
  pub bits : ℕ

abbrev pub between_characters : Utf8State
between_characters = record { pending = 0; low = 0; high = 0; bits = 0 }

between : ℕ → ℕ → ℕ → Bool
between a b x = leb a x && leb x b

lead : ℕ → ℕ → ℕ → ℕ → Outcome (Unit {0}) (Utf8State × List ℕ)
lead n low high bits = ok (record { pending = n; low = low; high = high; bits = bits }, [])

-- The first byte of a character: overlong forms, surrogates and numbers past U+10FFFF are refused.
utf8_first : ℕ → Outcome (Unit {0}) (Utf8State × List ℕ)
unfolding between lead
utf8_first b =
    if ltb b 0x80
    then ok (between_characters, b ∷ [])
    else if between 0xc2 0xdf b
    then lead 1 0x80 0xbf (b - 0xc0)
    else if b == 0xe0
    then lead 2 0xa0 0xbf 0
    else if b == 0xed
    then lead 2 0x80 0x9f 0xd
    else if between 0xe1 0xef b
    then lead 2 0x80 0xbf (b - 0xe0)
    else if b == 0xf0
    then lead 3 0x90 0xbf 0
    else if between 0xf1 0xf3 b
    then lead 3 0x80 0xbf (b - 0xf0)
    else if b == 0xf4
    then lead 3 0x80 0x8f 4
    else err tt

utf8_next : Utf8State → ℕ → Outcome (Unit {0}) (Utf8State × List ℕ)
unfolding between lead
utf8_next s b =
    if between s.low s.high b
    then (if s.pending == 1
        then ok (between_characters, (s.bits * 64 + (b - 0x80)) ∷ [])
        else lead (s.pending - 1) 0x80 0xbf (s.bits * 64 + (b - 0x80)))
    else err tt

utf8_step : Utf8State → ℕ → Outcome (Unit {0}) (Utf8State × List ℕ)
unfolding utf8_first utf8_next
utf8_step s b = if s.pending == 0 then utf8_first b else utf8_next s b

utf8_from : Utf8State → List ℕ → Outcome (Unit {0}) (List ℕ)
unfolding utf8_step
utf8_from s [] = if s.pending == 0 then ok [] else err tt
utf8_from s (b ∷ bs) = do step ← utf8_step s b; rest ← utf8_from step.0 bs; ok (step.1 ++ rest)

-- The characters of a byte string, when it is UTF-8.
unfoldable pub from_utf8 : List ℕ → Outcome (Unit {0}) (List ℕ)
unfolding utf8_from
from_utf8 bs = utf8_from between_characters bs

-- The characters of a `str`.
unfoldable pub chars : List ℕ → List ℕ
unfolding from_utf8
chars s = elim (from_utf8 s) [ ok cs ↦ cs | _ ↦ [] ]

-- `char::is_control`.
unfoldable pub is_control : ℕ → Bool
unfolding between
is_control c = if ltb c 0x20 then true else between 0x7f 0x9f c

unfoldable pub any : (ℕ → Bool) → List ℕ → Bool
any p [] = false
any p (c ∷ cs) = if p c then true else any p cs
