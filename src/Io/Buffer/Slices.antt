-- ===== src/Io/Buffer/Slices.antt =====
-- The first items of a list, and those behind them, as the bytes that are held.
use latypus.Io.Memory.{spliced}
use latypus.Io.Buffer.{lesser}
use latypus.Common.{
  ℕ, zero, suc, ◌+◌, ◌-◌, ◌≤◌, ◌≡◌, refl, sym, ap, ◌∙◌, List, [], ◌∷◌, ◌++◌, arith, length, take,
  drop, min,
}

pub take_all : (xs : List ℕ) → take (length xs) xs ≡ xs
take_all [] = refl
take_all (x ∷ xs) = ap (◌∷◌ x) (take_all xs)

pub min_left : (a b : ℕ) → a ≤ b → min a b ≡ a
min_left a b h = omega arith

pub lesser-min : (a b : ℕ) → lesser a b ≡ min a b
lesser-min a b = ground arith

pub take-take : (n m : ℕ) (xs : List ℕ) → n ≤ m → take n (take m xs) ≡ take n xs
take-take zero m xs h = refl
take-take (suc n) zero xs h = absurd (omega arith)
take-take (suc n) (suc m) [] h = refl
take-take (suc n) (suc m) (x ∷ xs) h = ap (◌∷◌ x) (take-take n m xs (omega arith))

-- The bytes from the read position on, after a store there.
pub drop-spliced :
    (dst : List ℕ) (off : ℕ) (bytes : List ℕ)
    → off ≤ length dst
    → drop off (spliced dst off bytes) ≡ bytes ++ drop (off + length bytes) dst
drop-spliced dst zero bytes h = refl
drop-spliced [] (suc off) bytes h = absurd (omega arith)
drop-spliced (x ∷ xs) (suc off) bytes h =
    let e : suc off + length bytes ≡ suc (off + length bytes) = omega arith in
    rw e (drop-spliced xs off bytes (omega arith))

take_nil : (n : ℕ) → take {A = ℕ} n [] ≡ []
take_nil zero = refl
take_nil (suc n) = refl

drop-take : (n m : ℕ) (xs : List ℕ) → n ≤ m → drop n (take m xs) ≡ take (m - n) (drop n xs)
drop-take zero m xs h = ap (λ k. take k xs) (omega arith)
drop-take (suc n) zero xs h = absurd (omega arith)
drop-take (suc n) (suc m) [] h = sym (take_nil (suc m - suc n))
drop-take (suc n) (suc m) (x ∷ xs) h =
    let e : suc m - suc n ≡ m - n = omega arith in rw e (drop-take n m xs (omega arith))

drop_nil : (n : ℕ) → drop {A = ℕ} n [] ≡ []
drop_nil zero = refl
drop_nil (suc n) = refl

drop-drop : (n off : ℕ) (xs : List ℕ) → drop n (drop off xs) ≡ drop (off + n) xs
drop-drop n zero xs = ap (λ k. drop k xs) (omega arith)
drop-drop n (suc off) [] = drop_nil n ∙ sym (drop_nil (suc off + n))
drop-drop n (suc off) (x ∷ xs) =
    let e : suc off + n ≡ suc (off + n) = omega arith in rw e (drop-drop n off xs)

pub drop-take-drop :
    (n off m : ℕ) (xs : List ℕ)
    → n ≤ m
    → drop n (take m (drop off xs)) ≡ take (m - n) (drop (off + n) xs)
drop-take-drop n off m xs h = drop-take n m (drop off xs) h ∙ ap (take (m - n)) (drop-drop n off xs)
