-- ===== src/Bits/And.antt =====
-- The native `bit_and` at the masks that the sources build, and the test for powers of two.
use Prim.Native.Nat.{digits, bit_and, bit_and-bitwise}
use native.Mathlib.Nat.{mod-eq_of_lt, mod_self, pow-suc}
use latypus.Common.{
  ℕ, zero, suc, ◌+◌, ◌-◌, ◌*◌, ◌/◌, ◌%◌, ◌^◌, ◌≤◌, ◌<◌, min, ◌≡◌, refl, sym, ◌∙◌, true, arith,
}
use native.Mathlib.Decide.{ℕ_discrete}
use latypus.Bits.{ispow2}

pub pow_pos : (k : ℕ) → 0 < 2 ^ k
pow_pos zero = omega arith
pow_pos (suc k) = omega (arith, pow-suc 2 k, pow_pos k)

pub two_pow : (k : ℕ) → 2 ^ suc k ≡ 2 * 2 ^ k
two_pow k = omega (arith, pow-suc 2 k)

-- One more binary digit of a remainder.
pub mod-double : (a p : ℕ) → 0 < p → a % (2 * p) ≡ a / 2 % p * 2 + a % 2
mod-double a p h = grind arith

abbrev pub and_upto : ℕ → ℕ → ℕ → ℕ
and_upto = digits (λ b. zero) min

mask-half : (k : ℕ) → (2 ^ suc k - 1) / 2 ≡ 2 ^ k - 1
mask-half k = omega (arith, pow-suc 2 k, pow_pos k)

mask-odd : (k : ℕ) → (2 ^ suc k - 1) % 2 ≡ 1
mask-odd k = omega (arith, pow-suc 2 k, pow_pos k)

and_upto-mask : (n a k : ℕ) → a ≤ n → and_upto n a (2 ^ k - 1) ≡ a % 2 ^ k
and_upto-mask zero zero k h = omega (arith, mod-eq_of_lt (pow_pos k))
and_upto-mask zero (suc a) k h = absurd (omega arith)
and_upto-mask (suc n) zero k h = omega (arith, mod-eq_of_lt (pow_pos k))
and_upto-mask (suc n) (suc a) zero h = omega (arith, and_upto-mask n (suc a / 2) zero (omega arith))
and_upto-mask (suc n) (suc a) (suc k) h =
    rw (mask-half k, mask-odd k, two_pow k)
      (omega (
        arith,
        and_upto-mask n (suc a / 2) k (omega arith),
        mod-double (suc a) (2 ^ k) (pow_pos k),
      ))

-- `a & (2 ^ k - 1)` keeps the low k digits.
pub bit_and-mask : (a k : ℕ) → bit_and a (2 ^ k - 1) ≡ a % 2 ^ k
bit_and-mask a k = bit_and-bitwise a (2 ^ k - 1) ∙ and_upto-mask a a k (omega arith)

and_upto_self : (n a : ℕ) → a ≤ n → and_upto n a a ≡ a
and_upto_self zero zero h = refl
and_upto_self zero (suc a) h = absurd (omega arith)
and_upto_self (suc n) zero h = refl
and_upto_self (suc n) (suc a) h = omega (arith, and_upto_self n (suc a / 2) (omega arith))

-- The digits of `a & (a - 1)`: none only for a power of two.
and_upto_pred : (n a : ℕ) → a ≤ n → 0 < a → and_upto n a (a - 1) ≡ 0 → (k : ℕ) × (a ≡ 2 ^ k)
and_upto_pred n zero h pos e = absurd (omega arith)
and_upto_pred zero (suc a) h pos e = absurd (omega arith)
and_upto_pred (suc n) (suc a) h pos e = elim (ℕ_discrete (suc a % 2) 0) [
  | yes even ↦
      let (k, q) =
        and_upto_pred n (suc a / 2) (omega arith) (omega arith)
          (let e' : suc a / 2 - 1 ≡ (suc a - 1) / 2 = omega arith in rw e' (omega arith)) in
      (suc k, omega (arith, q, pow-suc 2 k))
  | no odd ↦
      let half : (suc a - 1) / 2 ≡ suc a / 2 = omega arith in
      (0, omega (arith, rw half at e, and_upto_self n (suc a / 2) (omega arith)))
]

-- The test holds of the powers of two.
pub ispow2-pow : (k : ℕ) → ispow2 (2 ^ k) ≡ true
unfolding ispow2
ispow2-pow k = ground (arith, pow_pos k, bit_and-mask (2 ^ k) k, mod_self (2 ^ k))

-- The test holds of nothing else.
pub pow_of_ispow2 : (a : ℕ) → ispow2 a ≡ true → (k : ℕ) × (a ≡ 2 ^ k)
unfolding ispow2
pow_of_ispow2 a h =
    and_upto_pred a a (omega arith) (ground arith) (sym (bit_and-bitwise a (a - 1)) ∙ ground arith)
