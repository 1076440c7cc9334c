-- ===== src/Hex/Roundtrip.antt =====
-- Decoding undoes encoding.
use latypus.Common.{
  ℕ, zero, suc, ◌/◌, ◌%◌, ◌<◌, ◌≡◌, refl, ap₂, Bool, true, false, ◌&&◌, List, [], ◌∷◌, arith, ◌==◌,
  get_or, All, ==_iff, subst, sym, Bool-cases, inl, inr, take,
}
use latypus.Hex.{encode, decode, strtoul_two, hex_digits}

abbrev all_below : ℕ → (ℕ → Bool) → Bool
all_below zero test = true
all_below (suc n) test = test n && all_below n test

both : (a b : Bool) → (a && b) ≡ true → (a ≡ true) × (b ≡ true)
both a b h = ground arith

rest : (k n : ℕ) → k < suc n → (k == n) ≡ false → k < n
rest k n l e = ground arith

below : (n k : ℕ) (test : ℕ → Bool) → all_below n test ≡ true → k < n → test k ≡ true
below zero k test h l = absurd (omega arith)
below (suc n) k test h l = elim (Bool-cases (k == n)) [
  | inl e ↦
      subst (λ (m : ℕ). test m ≡ true) (sym ((==_iff k n).0 e))
        (both (test n) (all_below n test) h).0
  | inr e ↦ below n k test (both (test n) (all_below n test) h).1 (rest k n l e)
]

abbrev goes_round : ℕ → Bool
goes_round b = strtoul_two (get_or hex_digits (b / 16 % 16) 0) (get_or hex_digits (b % 16) 0) == b

all_round : all_below 256 goes_round ≡ true
all_round = refl

byte_round :
    (b : ℕ)
    → b < 256
    → strtoul_two (get_or hex_digits (b / 16 % 16) 0) (get_or hex_digits (b % 16) 0) ≡ b
byte_round b h =
    (==_iff (strtoul_two (get_or hex_digits (b / 16 % 16) 0) (get_or hex_digits (b % 16) 0)) b).0
      (below 256 b goes_round all_round h)

-- What `decode` stores for the encoding of some bytes is the first of them, as many as there is room
-- for.
pub decode-encode :
    (bytes : List ℕ) (len : ℕ)
    → All (λ (b : ℕ). b < 256) bytes
    → decode (encode bytes) len ≡ take len bytes
unfolding decode encode
decode-encode bytes zero h = refl
decode-encode [] (suc len) h = refl
decode-encode (b ∷ bytes) (suc len) (h, t) =
    ap₂ (λ (x : ℕ) (l : List ℕ). x ∷ l) (byte_round b h) (decode-encode bytes len t)
