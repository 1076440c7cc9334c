-- ===== src/Bits/Round.antt =====
-- What `clz` counts, and what `roundpow2` makes of a buffer size.
use native.Mathlib.Nat.{pow-le-pow_right}
use native.Mathlib.Decide.{dec_le, dec_lt}
use latypus.Bits.{clz_loop, clz, ispow2, roundpow2}
use latypus.Bits.And.{two_pow, pow_of_ispow2, ispow2-pow}
use latypus.Common.{
  ℕ, zero, suc, ◌+◌, ◌-◌, ◌*◌, ◌/◌, ◌%◌, ◌^◌, ◌≤◌, ◌<◌, ◌≡◌, refl, true, false, some, ◌⊎◌, inl, inr,
  Option, ap, arith, if◌then◌else◌, ltb, Bool-cases, lt→ltb, ◌≢◌, none,
}

-- Once a one has been read, the count stays.
clz_loop-found : (i val count : ℕ) → clz_loop i val true count ≡ count
unfolding clz_loop
clz_loop-found zero val count = refl
clz_loop-found (suc i) val count = omega (arith, clz_loop-found i val (count + 0))

top_digit : (p val : ℕ) → val < 2 * p → p ≤ val → val / p % 2 ≡ 1
top_digit p val h k = grind arith

no_digit : (p val : ℕ) → val < p → val / p % 2 ≡ 0
no_digit p val h = grind arith

-- The position of the leading one: `k` zeros stand before it in `i` digits.
abbrev pub Leading : ℕ → ℕ → ℕ → Type 0
Leading i val zeros =
    ((val ≡ 0) × (zeros ≡ i)) ⊎ ((b : ℕ) × (2 ^ b ≤ val) × (val < 2 ^ suc b) × (zeros + suc b ≡ i))

Leading-suc : (i val z : ℕ) → Leading i val z → Leading (suc i) val (z + 1)
Leading-suc i val z (inl (e, q)) = inl (e, omega arith)
Leading-suc i val z (inr (b, p, q, r)) = inr (b, p, q, omega arith)

clz_loop-Leading :
    (i val count : ℕ)
    → val < 2 ^ i
    → (z : ℕ) × (clz_loop i val false count ≡ count + z) × Leading i val z
unfolding clz_loop
clz_loop-Leading zero val count h = (0, omega arith, inl (omega arith, refl))
clz_loop-Leading (suc i) val count h = elim (dec_le (2 ^ i) val) [
  | yes top ↦ (
    0,
    rw (top_digit (2 ^ i) val (rw (← two_pow i) h) top)
        (omega (arith, clz_loop-found i val (count + 0))),
    inr (i, top, h, omega arith),
  )
  | no below ↦
      let (z, q, l) = clz_loop-Leading i val (count + 1) (omega arith) in
      (z + 1, rw (no_digit (2 ^ i) val (omega arith)) (omega (arith, q)), Leading-suc i val z l)
]

-- `clz` counts the zeros before the leading one, and all digits of zero.
pub clz-Leading : (w val : ℕ) → val < 2 ^ w → Leading w val (clz w val)
unfolding clz
clz-Leading w val h =
    let (z, q, l) = clz_loop-Leading w val 0 h in
    let q' : clz_loop w val false 0 ≡ z = omega (arith, q) in rw q' l

pow_mono : (a b : ℕ) → a ≤ b → 2 ^ a ≤ 2 ^ b
pow_mono a b h = pow-le-pow_right (omega arith) h

not_pow : (val b : ℕ) → ispow2 val ≡ false → val ≢ 2 ^ b
not_pow val b e q = cc (ispow2-pow b, ap ispow2 q)

below_30 : (val b : ℕ) → val ≤ 2 ^ 30 → 2 ^ b ≤ val → val ≢ 2 ^ b → b < 30
below_30 val b small low other = elim (dec_lt b 30) [
  | yes h ↦ h
  | no h ↦ absurd (omega (arith, pow_mono 30 b (omega arith), other))
]

-- The branch of `roundpow2` that shifts.
abbrev shifted : ℕ → ℕ → Option ℕ
shifted w val = let shift = w - clz w val in if ltb shift 31 then some (2 ^ shift) else none

between :
    (w val : ℕ)
    → 30 < w
    → 0 < val
    → val ≤ 2 ^ 30
    → ispow2 val ≡ false
    → Leading w val (clz w val)
    → (b : ℕ) × (shifted w val ≡ some (2 ^ b)) × (val ≤ 2 ^ b) × (2 ^ b < 2 * val)
between w val hw pos small e (inl (z, _)) = absurd (omega arith)
between w val hw pos small e (inr (b, p, q, r)) =
    let low : b < 30 = below_30 val b small p (not_pow val b e) in
    let s : w - clz w val ≡ suc b = omega arith in
    (
      suc b,
      rw (s, lt→ltb (suc b) 31 (omega arith)),
      omega arith,
      omega (arith, two_pow b, not_pow val b e),
    )

-- From 1 up to 2 ^ 30, `roundpow2` gives the least power of two that is no smaller: the number
-- itself if it is one, and else the next one above.
pub roundpow2_least :
    (w val : ℕ)
    → 30 < w
    → 0 < val
    → val ≤ 2 ^ 30
    → (b : ℕ) × (roundpow2 w val ≡ some (2 ^ b)) × (val ≤ 2 ^ b) × (2 ^ b < 2 * val)
unfolding roundpow2
roundpow2_least w val hw pos small = elim (Bool-cases (ispow2 val)) [
  | inl e ↦
      let (b, q) = pow_of_ispow2 val e in (b, rw e (ap some q), omega (arith, q), omega (arith, q))
  | inr e ↦ rw e (
      between w val hw pos small e (clz-Leading w val (omega (arith, pow_mono 31 w (omega arith)))))
]
