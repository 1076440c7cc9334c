-- ===== src/HttpMessage/Decimal.antt =====
-- `sprintf` with `%d`, which `to_buffer` of src/http_response.cc calls on the status code.
use latypus.Common.{
  ℕ, zero, suc, ◌+◌, ◌-◌, ◌*◌, ◌/◌, ◌%◌, ◌^◌, ◌<◌, ◌≡◌, ap, ◌∙◌, true, List, [], ◌∷◌, arith, ltb,
  if◌then◌else◌, Bool-cases, inl, inr,
}

-- `sprintf` with `%d`: the digits of a number, before those in `digits`. A number that is below
-- `10 ^ fuel` is written whole.
unfoldable pub digits : ℕ → ℕ → List ℕ → List ℕ
digits zero n rest = rest
digits (suc fuel) n rest =
    let rest1 = (b'0' + n % 10) ∷ rest in
    let more = digits fuel (n / 10) rest1 in if ltb n 10 then rest1 else more

unfoldable pub decimal : ℕ → List ℕ
unfolding digits
decimal n = digits 10 n []

-- `snprintf` with `%lu`
unfoldable pub decimal_64 : ℕ → List ℕ
unfolding digits
decimal_64 n = digits 20 n []

-- The number that decimal digits stand for, `n` standing before them.
abbrev pub read_decimal : ℕ → List ℕ → ℕ
read_decimal n [] = n
read_decimal n (c ∷ cs) = read_decimal (10 * n + (c - b'0')) cs

read_decimal-digits :
    (fuel n : ℕ) (rest : List ℕ)
    → n < 10 ^ suc fuel
    → read_decimal 0 (digits (suc fuel) n rest) ≡ read_decimal n rest
unfolding digits
read_decimal-digits zero n rest h =
    let g : ltb n 10 ≡ true = ground arith in
    let e : 0 + (b'0' + n % 10 - b'0') ≡ n = ground arith in rw g (ap (λ k. read_decimal k rest) e)
read_decimal-digits (suc fuel) n rest h = elim (Bool-cases (ltb n 10)) [
  | inl g ↦
      let e : 0 + (b'0' + n % 10 - b'0') ≡ n = ground arith in
      rw g (ap (λ k. read_decimal k rest) e)
  | inr g ↦
      let p : 10 ^ suc (suc fuel) ≡ 10 * 10 ^ suc fuel = omega arith in
      let e : 10 * (n / 10) + (b'0' + n % 10 - b'0') ≡ n = omega arith in
      rw g (
        read_decimal-digits fuel (n / 10) ((b'0' + n % 10) ∷ rest) (omega arith)
        ∙ ap (λ k. read_decimal k rest) e)
]

-- Ten digits are enough for every status code: they read back as the number.
pub read_decimal-decimal : (n : ℕ) → n < 2 ^ 31 → read_decimal 0 (decimal n) ≡ n
unfolding decimal
read_decimal-decimal n h = read_decimal-digits 9 n [] (omega arith)
