-- ===== src/Bits.antt =====
-- src/bits.h: the digit tests of the generic templates, over an unsigned type of w bits.
-- The specialisations for GCC and MSVC call compiler builtins and are not modelled.
pub mod And
pub mod Round
mod Tests
use Prim.Native.Nat.{bit_and}
use latypus.Common.{
  ℕ, zero, suc, ◌+◌, ◌-◌, ◌*◌, ◌/◌, ◌%◌, ◌^◌, Bool, true, false, not, ◌&&◌, ◌||◌, Option, none,
  some, ltb, ◌==◌, if◌then◌else◌,
}

-- `val & T(1) << i`, as the test that it stands in
abbrev pub bit_set : ℕ → ℕ → Bool
bit_set val i = val / 2 ^ i % 2 == 1

-- `!(found |= bit)` as a number
abbrev pub count_unless : Bool → ℕ
count_unless found = if found then 0 else 1

-- The loop of `clz` with `i` rounds to go: the next digit that it reads is `i - 1`.
unfoldable pub clz_loop : ℕ → ℕ → Bool → ℕ → ℕ
clz_loop zero val found count = count
clz_loop (suc i) val found count =
    let found' = found || bit_set val i in clz_loop i val found' (count + count_unless found')

unfoldable pub clz : ℕ → ℕ → ℕ
unfolding clz_loop
clz w val = clz_loop w val false 0

-- The loops of `ctz` and `popcount`, from digit `i` up, with `n` rounds to go.
unfoldable pub ctz_loop : ℕ → ℕ → ℕ → Bool → ℕ → ℕ
ctz_loop zero i val found count = count
ctz_loop (suc n) i val found count =
    let found' = found || bit_set val i in
    ctz_loop n (i + 1) val found' (count + count_unless found')

unfoldable pub ctz : ℕ → ℕ → ℕ
unfolding ctz_loop
ctz w val = ctz_loop w 0 val false 0

unfoldable pub popcount_loop : ℕ → ℕ → ℕ → ℕ → ℕ
popcount_loop zero i val count = count
popcount_loop (suc n) i val count =
    popcount_loop n (i + 1) val (count + (if bit_set val i then 1 else 0))

unfoldable pub popcount : ℕ → ℕ → ℕ
unfolding popcount_loop
popcount w val = popcount_loop w 0 val 0

-- `val - 1` is read only where `val` is not zero.
unfoldable pub ispow2 : ℕ → Bool
ispow2 val = not (val == 0) && bit_and val (val - 1) == 0

-- The shifted `1` is an `int`: a shift that leaves its 31 value bits is undefined, `none`.
unfoldable pub roundpow2 : ℕ → ℕ → Option ℕ
unfolding ispow2 clz
roundpow2 w val =
    if ispow2 val
    then some val
    else (let shift = w - clz w val in if ltb shift 31 then some (2 ^ shift) else none)
