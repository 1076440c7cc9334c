-- ===== src/Config/Numbers.antt =====
-- The numbers of src/config.cc: `atoi` of the C library, whose behaviour is undefined where an `int` does
-- not hold the value. An `int` is its 32 bits, as a number: -1 is 2 ^ 32 - 1.
use latypus.Common.{
  ℕ, ◌+◌, ◌-◌, ◌^◌, Bool, ◌&&◌, ◌||◌, List, [], ◌∷◌, ◌==◌, ltb, leb, if◌then◌else◌,
}
use latypus.Url.{atoi}
use latypus.Config.{Outcome, done, fault}

-- `isspace`
abbrev is_space : ℕ → Bool
is_space c = c == b' ' || (leb 9 c && leb c 13)

abbrev skip_spaces : List ℕ → List ℕ
skip_spaces [] = []
skip_spaces (c ∷ cs) = let rest = skip_spaces cs in if is_space c then rest else c ∷ cs

abbrev positive : ℕ → Outcome ℕ
positive n = if ltb n (2 ^ 31) then done n else fault

abbrev negative : ℕ → Outcome ℕ
negative n = if n == 0 then done 0 else if leb n (2 ^ 31) then done (2 ^ 32 - n) else fault

abbrev signed : List ℕ → Outcome ℕ
signed [] = done 0
signed (c ∷ cs) =
    if c == b'-'
    then negative (atoi 0 cs)
    else if c == b'+'
    then positive (atoi 0 cs)
    else positive (atoi 0 (c ∷ cs))

unfoldable pub number : List ℕ → Outcome ℕ
unfolding atoi
number text = signed (skip_spaces text)

-- An `int` that becomes a `size_t`.
unfoldable pub size_of_int : ℕ → ℕ
size_of_int n = if ltb n (2 ^ 31) then n else n + (2 ^ 64 - 2 ^ 32)
