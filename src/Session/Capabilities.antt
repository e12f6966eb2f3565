-- ===== src/Session/Capabilities.antt =====
-- The capability bits of src/transport/session.rs: `mask & bit != 0`, and what an agreement uses.
use native.Mathlib.Nat.{pow-suc, one-le-pow, div-div-eq-div-mul, mul_comm}
use hbb_common.Common.{
  ℕ, zero, suc, ◌*◌, ◌/◌, ◌%◌, ◌^◌, ◌≤◌, ◌<◌, ◌≡◌, ◌↔◌, refl, sym, ap, ◌∙◌, min, bit_and, arith,
  Bool, true, false, not, ◌&&◌, ◌||◌, ◌==◌,
}
use hbb_common.Common.Bits.{bit_and_halve, bit_and_one}
use hbb_common.Session.Types.{SessionOffer, SessionAgreement, has}
use hbb_common.Session.Agreement.{exceeds_capabilities}

-- The bit of weight 2 ^ k.
abbrev pub Bit : ℕ → ℕ → Type 0
Bit k mask = mask / 2 ^ k % 2 ≡ 1

halve-div : (a k : ℕ) → a / 2 / 2 ^ k ≡ a / 2 ^ suc k
halve-div a k =
    div-div-eq-div-mul a 2 (2 ^ k) ∙ ap (λ (t : ℕ). a / t) (mul_comm 2 (2 ^ k) ∙ sym (pow-suc 2 k))

half_power : (k : ℕ) → 2 ^ suc k / 2 ≡ 2 ^ k
half_power k = omega (arith, pow-suc 2 k)

times_power : (q k : ℕ) → q * 2 ^ suc k ≡ q * 2 ^ k * 2
times_power q k = omega (arith, ap (λ (t : ℕ). q * t) (pow-suc 2 k))

halved : (a b : ℕ) → bit_and a b / 2 ≡ bit_and (a / 2) (b / 2)
halved a b = omega (arith, bit_and_halve a b)

bit_and_power : (k a : ℕ) → bit_and a (2 ^ k) ≡ (a / 2 ^ k % 2) * 2 ^ k
bit_and_power zero a = omega (arith, bit_and_one a)
bit_and_power (suc k) a = omega (
  arith,
  bit_and_halve a (2 ^ suc k),
  ap (λ (t : ℕ). bit_and (a / 2) t) (half_power k),
  bit_and_power k (a / 2),
  ap (λ (t : ℕ). t % 2 * 2 ^ k) (halve-div a k),
  times_power (a / 2 ^ suc k % 2) k,
  pow-suc 2 k,
)

bit_and_both : (k a b : ℕ) → bit_and a b / 2 ^ k % 2 ≡ min (a / 2 ^ k % 2) (b / 2 ^ k % 2)
bit_and_both zero a b = omega (arith, bit_and_halve a b)
bit_and_both (suc k) a b = omega (
  arith,
  bit_and_both k (a / 2) (b / 2),
  halve-div a k,
  halve-div b k,
  halve-div (bit_and a b) k,
  ap (λ (t : ℕ). t / 2 ^ k) (halved a b),
)

pub has_iff : (k mask : ℕ) → (has mask (2 ^ k) ≡ true) ↔ Bit k mask
has_iff k mask =
    by_bit (bit_and mask (2 ^ k)) (mask / 2 ^ k % 2) (2 ^ k) (bit_and_power k mask)
      (one-le-pow k 2 (omega arith)) (omega arith)
  where
    by_bit :
        (both bit p : ℕ) → both ≡ bit * p → 1 ≤ p → bit < 2 → (not (both == 0) ≡ true) ↔ (bit ≡ 1)
    by_bit both zero p e q l = (λ h. ground (arith, h), λ h. ground (arith, h))
    by_bit both (suc zero) p e q l = (λ h. refl, λ h. ground arith)
    by_bit both (suc (suc n)) p e q l = absurd (omega (arith, l))

pub Bit-bit_and : (k a b : ℕ) → Bit k (bit_and a b) → Bit k a × Bit k b
Bit-bit_and k a b h = (omega (arith, h, bit_and_both k a b), omega (arith, h, bit_and_both k a b))

pub bit_and-Bit : (k a b : ℕ) → Bit k a → Bit k b → Bit k (bit_and a b)
bit_and-Bit k a b h g = omega (arith, h, g, bit_and_both k a b)

-- What an agreement uses is among the capabilities of an offer.
pub record Capable (a : SessionAgreement) (capabilities : ℕ) : Type 0 where
  pub hdr : a.hdr ≡ true → Bit 0 capabilities
  pub clipboard_send : a.local_may_send_clipboard ≡ true → Bit 1 capabilities
  pub clipboard_receive : a.remote_may_send_clipboard ≡ true → Bit 2 capabilities
  pub file_transfer : a.file_transfer_enabled ≡ true → Bit 3 capabilities
  pub input_send : a.local_may_send_input ≡ true → Bit 4 capabilities
  pub input_receive : a.remote_may_send_input ≡ true → Bit 5 capabilities
  pub keyframes : a.reliable_keyframes ≡ true → Bit 6 capabilities
  pub barrier : a.reliable_keyframe_barrier ≡ true → Bit 7 capabilities

pub or-eq-false : (a b : Bool) → ((a || b) ≡ false) ↔ ((a ≡ false) × (b ≡ false))
or-eq-false true b = (λ h. cc, λ h. cc)
or-eq-false false b = (λ h. (refl, h), λ h. h.1)

module _ (used : Bool) (k mask : ℕ) where
  unused_or : (used && not (has mask (2 ^ k))) ≡ false → used ≡ true → Bit k mask
  unused_or h u = (has_iff k mask).0 (ground arith)

  or_unused : (used ≡ true → Bit k mask) → (used && not (has mask (2 ^ k))) ≡ false
  or_unused h = by_use used refl
    where
      by_use : (u : Bool) → used ≡ u → (u && not (has mask (2 ^ k))) ≡ false
      by_use true e = ap not ((has_iff k mask).1 (h e))
      by_use false e = refl

pub exceeds_capabilities_iff :
    (a : SessionAgreement) (o : SessionOffer)
    → (exceeds_capabilities a o ≡ false) ↔ Capable a o.capabilities
unfolding exceeds_capabilities
exceeds_capabilities_iff a o = (
  λ h.
      let (b0, r0) = (or-eq-false _ _).0 h in
      let (b1, r1) = (or-eq-false _ _).0 r0 in
      let (b2, r2) = (or-eq-false _ _).0 r1 in
      let (b3, r3) = (or-eq-false _ _).0 r2 in
      let (b4, r4) = (or-eq-false _ _).0 r3 in
      let (b5, r5) = (or-eq-false _ _).0 r4 in
      let (b6, b7) = (or-eq-false _ _).0 r5 in
      record {
        hdr = unused_or a.hdr 0 o.capabilities b0;
        clipboard_send = unused_or a.local_may_send_clipboard 1 o.capabilities b1;
        clipboard_receive = unused_or a.remote_may_send_clipboard 2 o.capabilities b2;
        file_transfer = unused_or a.file_transfer_enabled 3 o.capabilities b3;
        input_send = unused_or a.local_may_send_input 4 o.capabilities b4;
        input_receive = unused_or a.remote_may_send_input 5 o.capabilities b5;
        keyframes = unused_or a.reliable_keyframes 6 o.capabilities b6;
        barrier = unused_or a.reliable_keyframe_barrier 7 o.capabilities b7;
      },
  λ c.
      rw
        (
          or_unused a.hdr 0 o.capabilities c.hdr,
          or_unused a.local_may_send_clipboard 1 o.capabilities c.clipboard_send,
          or_unused a.remote_may_send_clipboard 2 o.capabilities c.clipboard_receive,
          or_unused a.file_transfer_enabled 3 o.capabilities c.file_transfer,
          or_unused a.local_may_send_input 4 o.capabilities c.input_send,
          or_unused a.remote_may_send_input 5 o.capabilities c.input_receive,
          or_unused a.reliable_keyframes 6 o.capabilities c.keyframes,
          or_unused a.reliable_keyframe_barrier 7 o.capabilities c.barrier,
        )
        refl,
)
