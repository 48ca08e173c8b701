-- ===== src/Base/Bits.antt =====
-- `|` on natural numbers: a shifted number and one below the shift add up.
use Prim.Native.Nat.{
  ℕ, zero, suc, ◌+◌, ◌*◌, ◌/◌, ◌^◌, ◌≤◌, ◌<◌, max, bit_or, digits, bit_or-bitwise,
}
use mathlib.Core.Path.{◌≡◌, refl, ◌∙◌}
use native.Mathlib.Nat.{pow-suc}
use native.Mathlib.Omega.{arith}

-- The recursion on binary digits that `|` stands for, with `fuel` for the digits of `x`.
abbrev or_on : ℕ → ℕ → ℕ → ℕ
or_on fuel x y = digits (λ y. y) max fuel x y

or_on-zero : (fuel x : ℕ) → x ≤ fuel → or_on fuel x 0 ≡ x
or_on-zero zero zero h = refl
or_on-zero (suc fuel) zero h = refl
or_on-zero zero (suc x) h = absurd (omega arith)
or_on-zero (suc fuel) (suc x) h = omega (arith, or_on-zero fuel (suc x / 2) (omega arith))

or_on-shifted : (fuel k a x y : ℕ) → x ≡ a * 2 ^ k → x ≤ fuel → y < 2 ^ k → or_on fuel x y ≡ x + y
or_on-shifted fuel zero a x y e h l =
    let nothing : y ≡ 0 = omega arith in rw nothing (omega (arith, or_on-zero fuel x h))
or_on-shifted zero (suc k) a zero y e h l = omega arith
or_on-shifted (suc fuel) (suc k) a zero y e h l = omega arith
or_on-shifted zero (suc k) a (suc x) y e h l = absurd (omega arith)
or_on-shifted (suc fuel) (suc k) a (suc x) y e h l =
    let even : suc x ≡ a * 2 ^ k * 2 = e ∙ rw pow-suc (omega arith) in
    let half : y < 2 ^ k * 2 = rw pow-suc at l in
    omega
      (arith, or_on-shifted fuel k a (suc x / 2) (y / 2) (omega arith) (omega arith) (omega arith))

pub bit_or-shifted : (k a b : ℕ) → b < 2 ^ k → bit_or (a * 2 ^ k) b ≡ a * 2 ^ k + b
bit_or-shifted k a b h =
    bit_or-bitwise (a * 2 ^ k) b ∙ or_on-shifted (a * 2 ^ k) k a (a * 2 ^ k) b refl (omega arith) h
