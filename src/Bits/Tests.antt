-- ===== src/Bits/Tests.antt =====
-- The digit tests at concrete numbers.
use latypus.Bits.{clz, ctz, popcount, roundpow2}
use latypus.Bits.Round.{roundpow2_least}
use latypus.Common.{ℕ, ◌+◌, ◌*◌, ◌^◌, ◌≤◌, ◌<◌, ◌≡◌, refl, some, none, arith}

digit_counts :
    (clz 64 1 ≡ 63) × (clz 64 0 ≡ 64) × (ctz 64 40 ≡ 3) × (popcount 8 255 ≡ 8) × (ctz 16 0 ≡ 16)
unfolding clz ctz popcount
digit_counts = (refl, refl, refl, refl, refl)

-- The shift of an `int` past its value bits.
too_large : roundpow2 64 (2 ^ 31 + 1) ≡ none
unfolding roundpow2
too_large = refl

roundpow2_least_example :
    (b : ℕ) × (roundpow2 64 3000 ≡ some (2 ^ b)) × (3000 ≤ 2 ^ b) × (2 ^ b < 2 * 3000)
roundpow2_least_example = roundpow2_least 64 3000 (omega arith) (omega arith) (omega arith)
