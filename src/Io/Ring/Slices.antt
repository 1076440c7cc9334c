-- ===== src/Io/Ring/Slices.antt =====
-- The bytes of a buffer that is a circle, from one position of the stream to another.
use native.Mathlib.Nat.{mod-lt, mod-add-mod, mod-eq_of_lt, mod-eq-sub-mod}
use latypus.Io.Ring.Inv.{from_pos}
use latypus.Common.{
  ℕ, zero, suc, ◌+◌, ◌-◌, ◌%◌, ◌≤◌, ◌<◌, ◌≡◌, refl, sym, ap, ap₂, ◌∙◌, List, [], ◌∷◌, arith, length,
  get_or, take, drop,
}

-- Fewer than `s` steps on from an index, and where that comes to lie.
pub step_in : (p i s : ℕ) → p % s + i < s → (p + i) % s ≡ p % s + i
step_in p i s h = sym (mod-add-mod p s i) ∙ mod-eq_of_lt h

pub step_round : (p i s : ℕ) → i < s → s ≤ p % s + i → (p + i) % s + s ≡ p % s + i
step_round p i s h k =
    let small : p % s < s = mod-lt p (omega arith) in
    let q : (p % s + i) % s ≡ p % s + i - s = mod-eq-sub-mod k ∙ mod-eq_of_lt (omega arith) in
    omega (arith, mod-add-mod p s i, q)

from_zero : (pos : ℕ) → pos + 0 ≡ pos
from_zero pos = omega arith

pub from_suc : (pos i : ℕ) → suc pos + i ≡ pos + suc i
from_suc pos i = omega arith

drop-cons : (xs : List ℕ) (i : ℕ) → i < length xs → drop i xs ≡ get_or xs i 0 ∷ drop (suc i) xs
drop-cons [] i h = absurd (omega arith)
drop-cons (x ∷ xs) zero h = refl
drop-cons (x ∷ xs) (suc i) h = drop-cons xs i (omega arith)

-- A run of the buffer along stream positions.
pub take-drop_along :
    (buf : List ℕ) (n pos off : ℕ)
    → off + n ≤ length buf
    → ((i : ℕ) → i < n → (pos + i) % length buf ≡ off + i)
    → take n (drop off buf) ≡ from_pos buf pos n
take-drop_along buf zero pos off h g = refl
take-drop_along buf (suc n) pos off h g = rw (drop-cons buf off (omega arith)) (
    ap₂ ◌∷◌
      (ap (λ j. get_or buf j 0)
        (sym (ap (λ j. j % length buf) (sym (from_zero pos)) ∙ g 0 (omega arith) ∙ from_zero off)))
      (take-drop_along buf n (suc pos) (suc off) (omega arith)
        (λ i lt. rw (from_suc pos i, from_suc off i) (g (suc i) (omega arith)))))

-- A run of the buffer that does not pass its end is a run of the stream.
pub take-drop-from_pos :
    (buf : List ℕ) (n pos off : ℕ)
    → off ≡ pos % length buf
    → off + n ≤ length buf
    → take n (drop off buf) ≡ from_pos buf pos n
take-drop-from_pos buf n pos off e h =
    take-drop_along buf n pos off h
      (λ i lt. step_in pos i (length buf) (omega arith) ∙ ap (λ j. j + i) (sym e))

-- Stream positions whose index lies off a stored run keep their bytes.
pub from_pos-keep :
    (buf buf' : List ℕ) (pos n : ℕ)
    → length buf' ≡ length buf
    → ((i : ℕ)
        → i < n
        → get_or buf' ((pos + i) % length buf) 0 ≡ get_or buf ((pos + i) % length buf) 0)
    → from_pos buf' pos n ≡ from_pos buf pos n
from_pos-keep buf buf' pos zero e h = refl
from_pos-keep buf buf' pos (suc n) e h =
    ap₂ ◌∷◌ (rw (e, ← from_zero pos) (h 0 (omega arith)))
      (from_pos-keep buf buf' (suc pos) n e (λ i lt. rw (from_suc pos i) (h (suc i) (omega arith))))

-- Stream positions that run along a list.
pub from_pos-list :
    (buf : List ℕ) (pos : ℕ) (bytes : List ℕ)
    → ((i : ℕ) → i < length bytes → get_or buf ((pos + i) % length buf) 0 ≡ get_or bytes i 0)
    → from_pos buf pos (length bytes) ≡ bytes
from_pos-list buf pos [] h = refl
from_pos-list buf pos (x ∷ xs) h =
    ap₂ ◌∷◌ (ap (λ j. get_or buf (j % length buf) 0) (sym (from_zero pos)) ∙ h 0 (omega arith))
      (from_pos-list buf (suc pos) xs (λ i lt. rw (from_suc pos i) (h (suc i) (omega arith))))
