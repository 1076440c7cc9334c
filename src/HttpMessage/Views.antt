-- ===== src/HttpMessage/Views.antt =====
-- Strings before the offset keep their characters when more is written behind it.
use latypus.Io.Memory.{spliced, length_left}
use mathlib.Core.List.{append_assoc}
use latypus.Common.{
  ℕ, zero, suc, ◌+◌, ◌≤◌, ◌≡◌, refl, ap, sym, ◌∙◌, List, [], ◌∷◌, ◌++◌, arith, length, take, drop,
  length-append, take-append_length, drop-append_length,
}
use latypus.HttpMessage.{HeaderString, text}

module _ {ℓ} {A : Type ℓ} where
  pub take-append_left : (n : ℕ) (xs ys : List A) → n ≤ length xs → take n (xs ++ ys) ≡ take n xs
  take-append_left zero xs ys h = refl
  take-append_left (suc n) [] ys h = absurd (omega arith)
  take-append_left (suc n) (x ∷ xs) ys h = ap (◌∷◌ x) (take-append_left n xs ys (omega arith))

  take-drop-append :
      (n o : ℕ) (xs ys : List A)
      → o + n ≤ length xs
      → take n (drop o (xs ++ ys)) ≡ take n (drop o xs)
  take-drop-append n zero xs ys h = take-append_left n xs ys (omega arith)
  take-drop-append n (suc o) [] ys h = absurd (omega arith)
  take-drop-append n (suc o) (x ∷ xs) ys h = take-drop-append n o xs ys (omega arith)

  pub take-take : (n k : ℕ) (xs : List A) → n ≤ k → take n (take k xs) ≡ take n xs
  take-take zero k xs h = refl
  take-take (suc n) zero xs h = absurd (omega arith)
  take-take (suc n) (suc k) [] h = refl
  take-take (suc n) (suc k) (x ∷ xs) h = ap (◌∷◌ x) (take-take n k xs (omega arith))

  pub take-drop-take :
      (n o k : ℕ) (xs : List A) → o + n ≤ k → take n (drop o (take k xs)) ≡ take n (drop o xs)
  take-drop-take n zero k xs h = take-take n k xs (omega arith)
  take-drop-take n (suc o) zero xs h = absurd (omega arith)
  take-drop-take n (suc o) (suc k) [] h = refl
  take-drop-take n (suc o) (suc k) (x ∷ xs) h = take-drop-take n o k xs (omega arith)

  take-drop-middle :
      (xs bs ys : List A) (o : ℕ)
      → length xs ≡ o
      → take (length bs) (drop o (xs ++ (bs ++ ys))) ≡ bs
  take-drop-middle xs bs ys o h =
      ap (λ (n : ℕ). take (length bs) (drop n (xs ++ (bs ++ ys)))) (sym h)
      ∙ ap (take (length bs)) (drop-append_length xs (bs ++ ys))
      ∙ take-append_length bs ys

module _ (buf : List ℕ) (off : ℕ) (bytes : List ℕ) (fits : off + length bytes ≤ length buf) where
  pub text_kept :
      (s : HeaderString) → s.start + s.count ≤ off → text (spliced buf off bytes) s ≡ text buf s
  text_kept s h =
      take-drop-append s.count s.start (take off buf) (bytes ++ drop (off + length bytes) buf)
        (omega (arith, length_left buf off bytes fits))
      ∙ take-drop-take s.count s.start off buf h

-- The string that has just been written, before its terminating zero.
pub text_written :
    (buf : List ℕ) (off : ℕ) (str : List ℕ)
    → off + (length str + 1) ≤ length buf
    → text (spliced buf off (str ++ (0 ∷ []))) (record { start = off; count = length str }) ≡ str
text_written buf off str h =
    let tail = drop (off + length (str ++ (0 ∷ []))) buf in
    let fits : off + length (str ++ (0 ∷ [])) ≤ length buf =
      omega (arith, length-append str (0 ∷ [])) in
    rw (append_assoc str (0 ∷ []) tail) (
      take-drop-middle (take off buf) str (0 ∷ tail) off
        (length_left buf off (str ++ (0 ∷ [])) fits))
