-- ===== src/ThreadMask/Names.antt =====
-- The text of a mask is one piece, and is read as its protocol and its name.
use latypus.Common.{
  ℕ, ◌≡◌, refl, ap, Bool, true, false, some, List, [], ◌∷◌, ◌++◌, ◌==◌, arith, if◌then◌else◌,
}
use latypus.ThreadMask.{pieces, split_slash, prepend, put_before}

-- The text does not have the character.
abbrev pub lacks : ℕ → List ℕ → Bool
lacks c [] = true
lacks c (x ∷ xs) = if x == c then false else lacks c xs

lacks_head : (c x : ℕ) (xs : List ℕ) → lacks c (x ∷ xs) ≡ true → (x == c) ≡ false
lacks_head c x xs h = ground arith

lacks_tail : (c x : ℕ) (xs : List ℕ) → lacks c (x ∷ xs) ≡ true → lacks c xs ≡ true
lacks_tail c x xs h = ground arith

pub pieces_one : (text : List ℕ) → lacks b',' text ≡ true → pieces text ≡ text ∷ []
unfolding pieces
pieces_one [] h = refl
pieces_one (c ∷ cs) h =
    rw (lacks_head b',' c cs h) (ap (prepend c) (pieces_one cs (lacks_tail b',' c cs h)))

pub split_slash-mask :
    (proto name : List ℕ)
    → lacks b'/' proto ≡ true
    → split_slash (proto ++ (b'/' ∷ name)) ≡ some (proto, name)
unfolding split_slash
split_slash-mask [] name h = refl
split_slash-mask (c ∷ cs) name h =
    rw (lacks_head b'/' c cs h)
      (ap (put_before c) (split_slash-mask cs name (lacks_tail b'/' c cs h)))
