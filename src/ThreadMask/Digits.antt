-- ===== src/ThreadMask/Digits.antt =====
-- One binary digit of a number, and a digit that is set above all others.
use Prim.Native.Nat.{digits, bit_and, bit_and-bitwise, bit_or, bit_or-bitwise, max}
use latypus.Common.{
  ℕ, zero, suc, ◌+◌, ◌*◌, ◌/◌, ◌%◌, ◌^◌, ◌≤◌, ◌<◌, ◌≡◌, ◌≢◌, ◌⊎◌, inl, inr, refl, sym, ◌∙◌, arith,
  ◌==◌, Bool-cases,
}
use latypus.Bits.And.{pow_pos, two_pow, mod-double, and_upto}

and_upto_zero : (n a : ℕ) → and_upto n a 0 ≡ 0
and_upto_zero zero a = refl
and_upto_zero (suc n) zero = refl
and_upto_zero (suc n) (suc a) = omega (arith, and_upto_zero n (suc a / 2))

halved : (k : ℕ) → 2 ^ suc k / 2 ≡ 2 ^ k
halved k = omega (arith, two_pow k)

even : (k : ℕ) → 2 ^ suc k % 2 ≡ 0
even k = omega (arith, two_pow k)

-- The digit is 0 or the power.
and_upto-cases : (n a k : ℕ) → (and_upto n a (2 ^ k) ≡ 0) ⊎ (and_upto n a (2 ^ k) ≡ 2 ^ k)
and_upto-cases zero a k = inl refl
and_upto-cases (suc n) zero k = inl refl
and_upto-cases (suc n) (suc a) zero =
    let z = and_upto_zero n (suc a / 2) in
    elim (Bool-cases (suc a % 2 == 0)) [
      | inl e ↦ let digit : suc a % 2 ≡ 0 = ground arith in inl (omega (arith, z, digit))
      | inr e ↦ let digit : suc a % 2 ≡ 1 = ground arith in inr (omega (arith, z, digit))
    ]
and_upto-cases (suc n) (suc a) (suc k) = elim (and_upto-cases n (suc a / 2) k) [
  | inl e ↦ inl (rw (halved k, even k) (omega (arith, e)))
  | inr e ↦ inr (rw (halved k, even k) (omega (arith, e, two_pow k)))
]

mod-double_pow : (a k : ℕ) → a % 2 ^ suc k ≡ a / 2 % 2 ^ k * 2 + a % 2
mod-double_pow a k = rw (two_pow k) (mod-double a (2 ^ k) (pow_pos k))

-- A remainder with one more digit.
mod-and_upto : (n a k : ℕ) → a ≤ n → a % 2 ^ suc k ≡ a % 2 ^ k + and_upto n a (2 ^ k)
mod-and_upto zero zero k h = omega (arith, pow_pos k, pow_pos (suc k))
mod-and_upto zero (suc a) k h = absurd (omega arith)
mod-and_upto (suc n) zero k h = omega (arith, pow_pos k, pow_pos (suc k))
mod-and_upto (suc n) (suc a) zero h = omega (arith, and_upto_zero n (suc a / 2))
mod-and_upto (suc n) (suc a) (suc k) h =
    let ih = mod-and_upto n (suc a / 2) k (omega arith) in
    rw (halved k, even k)
      (omega (arith, ih, mod-double_pow (suc a) (suc k), mod-double_pow (suc a) k))

abbrev or_upto : ℕ → ℕ → ℕ → ℕ
or_upto = digits (λ b. b) max

or_upto-pow : (n a k : ℕ) → a ≤ n → a < 2 ^ k → or_upto n a (2 ^ k) ≡ a + 2 ^ k
or_upto-pow zero zero k h lt = omega arith
or_upto-pow zero (suc a) k h lt = absurd (omega arith)
or_upto-pow (suc n) zero k h lt = omega arith
or_upto-pow (suc n) (suc a) zero h lt = absurd (omega arith)
or_upto-pow (suc n) (suc a) (suc k) h lt =
    let ih = or_upto-pow n (suc a / 2) k (omega arith) (omega (arith, two_pow k)) in
    rw (halved k, even k) (omega (arith, ih, two_pow k))

-- If the digit is not set, the remainder is the same with it; if it is, it is more by the power.
pub mod-unset : (a k : ℕ) → bit_and a (2 ^ k) ≡ 0 → a % 2 ^ suc k ≡ a % 2 ^ k
mod-unset a k h =
    omega (arith, mod-and_upto a a k (omega arith), sym (bit_and-bitwise a (2 ^ k)) ∙ h)

pub mod-set : (a k : ℕ) → bit_and a (2 ^ k) ≢ 0 → a % 2 ^ suc k ≡ a % 2 ^ k + 2 ^ k
mod-set a k h = elim (and_upto-cases a a k) [
  | inl e ↦ absurd (h (bit_and-bitwise a (2 ^ k) ∙ e))
  | inr e ↦ omega (arith, mod-and_upto a a k (omega arith), e)
]

pub bit_or-pow : (a k : ℕ) → a < 2 ^ k → bit_or a (2 ^ k) ≡ a + 2 ^ k
bit_or-pow a k h = bit_or-bitwise a (2 ^ k) ∙ or_upto-pow a a k (omega arith) h
