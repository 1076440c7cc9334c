-- ===== src/Io/Memory.antt =====
-- What `load` and `store` do to the bytes of an object.
use latypus.Common.{
  ℕ, zero, suc, ◌+◌, ◌-◌, ◌≤◌, ◌<◌, ◌≡◌, refl, ap, ◌∙◌, List, [], ◌∷◌, ◌++◌, none, some, arith,
  length, get_or, take, drop, length-append, length-take, length-drop,
}
use latypus.Io.{load, store}

module _ {ℓ} {A : Type ℓ} where
  pub get_or-append_left :
      (xs ys : List A) (i : ℕ) (d : A) → i < length xs → get_or (xs ++ ys) i d ≡ get_or xs i d
  get_or-append_left [] ys i d h = absurd (omega arith)
  get_or-append_left (x ∷ xs) ys zero d h = refl
  get_or-append_left (x ∷ xs) ys (suc i) d h = get_or-append_left xs ys i d (omega arith)

  pub get_or-append_right :
      (xs ys : List A) (i : ℕ) (d : A) → get_or (xs ++ ys) (length xs + i) d ≡ get_or ys i d
  get_or-append_right [] ys i d = ap (λ j. get_or ys j d) (omega arith)
  get_or-append_right (x ∷ xs) ys i d =
      let e : suc (length xs) + i ≡ suc (length xs + i) = omega arith in
      rw e (get_or-append_right xs ys i d)

  pub get_or-take :
      (n : ℕ) (xs : List A) (i : ℕ) (d : A) → i < n → get_or (take n xs) i d ≡ get_or xs i d
  get_or-take zero xs i d h = absurd (omega arith)
  get_or-take (suc n) [] i d h = refl
  get_or-take (suc n) (x ∷ xs) zero d h = refl
  get_or-take (suc n) (x ∷ xs) (suc i) d h = get_or-take n xs i d (omega arith)

  pub get_or-drop :
      (n : ℕ) (xs : List A) (i : ℕ) (d : A) → get_or (drop n xs) i d ≡ get_or xs (n + i) d
  get_or-drop zero xs i d = ap (λ j. get_or xs j d) (omega arith)
  get_or-drop (suc n) [] i d = refl
  get_or-drop (suc n) (x ∷ xs) i d =
      let e : suc n + i ≡ suc (n + i) = omega arith in rw e (get_or-drop n xs i d)

-- The bytes of an object after a copy of `bytes` to `off`.
abbrev pub spliced : List ℕ → ℕ → List ℕ → List ℕ
spliced dst off bytes = take off dst ++ (bytes ++ drop (off + length bytes) dst)

module _ (dst : List ℕ) (off : ℕ) (bytes : List ℕ) (fits : off + length bytes ≤ length dst) where
  pub store-spliced : store dst off bytes ≡ some (spliced dst off bytes)
  store-spliced = ground arith

  pub length-spliced : length (spliced dst off bytes) ≡ length dst
  length-spliced = omega (
    arith,
    length-append (take off dst) (bytes ++ drop (off + length bytes) dst),
    length-append bytes (drop (off + length bytes) dst),
    length-take off dst,
    length-drop (off + length bytes) dst,
  )

  pub length_left : length (take off dst) ≡ off
  length_left = omega (arith, length-take off dst)

  pub get_or-spliced_before :
      (i : ℕ) → i < off → get_or (spliced dst off bytes) i 0 ≡ get_or dst i 0
  get_or-spliced_before i h =
      rw (get_or-append_left (take off dst) _ i 0 (omega (arith, length_left)))
        (get_or-take off dst i 0 h)

  pub get_or-spliced_in :
      (i : ℕ) → i < length bytes → get_or (spliced dst off bytes) (off + i) 0 ≡ get_or bytes i 0
  get_or-spliced_in i h =
      let e : off + i ≡ length (take off dst) + i = omega (arith, length_left) in
      rw (e, get_or-append_right (take off dst) (bytes ++ drop (off + length bytes) dst) i 0)
        (get_or-append_left bytes _ i 0 h)

  pub get_or-spliced_after :
      (i : ℕ) → off + length bytes ≤ i → get_or (spliced dst off bytes) i 0 ≡ get_or dst i 0
  get_or-spliced_after i h =
      let k = i - (off + length bytes) in
      let e : i ≡ length (take off dst) + (length bytes + k) = omega (arith, length_left) in
      let e' : off + length bytes + k ≡ i = omega arith in
      ap (λ j. get_or (spliced dst off bytes) j 0) e
      ∙ get_or-append_right (take off dst) (bytes ++ drop (off + length bytes) dst)
          (length bytes + k) 0
      ∙ get_or-append_right bytes (drop (off + length bytes) dst) k 0
      ∙ get_or-drop (off + length bytes) dst k 0
      ∙ ap (λ j. get_or dst j 0) e'

pub load-some :
    (src : List ℕ) (off n : ℕ)
    → off + n ≤ length src
    → load src off n ≡ some (take n (drop off src))
load-some src off n h = ground arith

pub load-none : (src : List ℕ) (off n : ℕ) → length src < off + n → load src off n ≡ none
load-none src off n h = ground arith

pub store-none :
    (dst : List ℕ) (off : ℕ) (bytes : List ℕ)
    → length dst < off + length bytes
    → store dst off bytes ≡ none
store-none dst off bytes h = ground arith

pub length-load :
    (src : List ℕ) (off n : ℕ) → off + n ≤ length src → length (take n (drop off src)) ≡ n
length-load src off n h = omega (arith, length-take n (drop off src), length-drop off src)
