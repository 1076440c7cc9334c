-- ===== src/Hex.antt =====
-- src/hex.cc. Bytes and characters are numbers below 256.
pub mod Roundtrip
mod Tests
use latypus.Common.{
  ℕ, zero, suc, ◌+◌, ◌-◌, ◌*◌, ◌/◌, ◌%◌, Bool, true, false, ◌&&◌, ◌||◌, Option, none, some, List,
  [], ◌∷◌, ◌==◌, leb, if◌then◌else◌, get_or,
}

abbrev pub hex_digits : List ℕ
hex_digits =
    b'0' ∷ b'1' ∷ b'2' ∷ b'3' ∷ b'4' ∷ b'5' ∷ b'6' ∷ b'7' ∷ b'8' ∷ b'9' ∷ b'A' ∷ b'B' ∷ b'C' ∷ b'D'
    ∷ b'E' ∷ b'F' ∷ []

unfoldable pub encode : List ℕ → List ℕ
encode [] = []
encode (b ∷ buf) = get_or hex_digits (b / 16 % 16) 0 ∷ get_or hex_digits (b % 16) 0 ∷ encode buf

-- The value of a hexadecimal digit, of either case.
abbrev pub digit : ℕ → Option ℕ
digit c =
    if leb b'0' c && leb c b'9'
    then some (c - b'0')
    else if leb b'A' c && leb c b'F'
    then some (c - b'A' + 10)
    else if leb b'a' c && leb c b'f'
    then some (c - b'a' + 10)
    else none

abbrev pub digit_or_zero : ℕ → ℕ
digit_or_zero c = elim (digit c) [ none ↦ 0 | some n ↦ n ]

-- `(unsigned char)strtoul(tmp, NULL, 16)` of two characters: a blank or a sign may come first, and
-- what follows the digits is not read.
abbrev pub strtoul_two : ℕ → ℕ → ℕ
strtoul_two a b = elim (digit a) [
  | some x ↦ elim (digit b) [ some y ↦ x * 16 + y | none ↦ x ]
  | none ↦
      if (a == b' ') || (leb 9 a && leb a 13) || (a == b'+')
      then digit_or_zero b
      else if a == b'-'
      then (256 - digit_or_zero b) % 256
      else 0
]

-- The bytes that are stored at `buf`.
unfoldable pub decode : List ℕ → ℕ → List ℕ
decode hex zero = []
decode [] (suc len) = []
decode (a ∷ []) (suc len) = []
decode (a ∷ b ∷ hex) (suc len) = strtoul_two a b ∷ decode hex len
