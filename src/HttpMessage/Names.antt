-- ===== src/HttpMessage/Names.antt =====
-- Two header strings compare equal exactly when they have the same characters.
use latypus.Common.{ℕ, ◌≡◌, refl, true, List, [], ◌∷◌, arith}
use latypus.HttpMessage.{equal, compare_strings, same_string}

compare_strings_refl : (s : List ℕ) → compare_strings s s ≡ equal
unfolding compare_strings
compare_strings_refl [] = refl
compare_strings_refl (c ∷ s) = ground (arith, compare_strings_refl s)

compare_strings-eq : (s o : List ℕ) → compare_strings s o ≡ equal → s ≡ o
unfolding compare_strings
compare_strings-eq [] [] h = refl
compare_strings-eq [] (x ∷ o) h = cc
compare_strings-eq (c ∷ s) [] h = cc
compare_strings-eq (c ∷ s) (x ∷ o) h = ground (arith, compare_strings-eq s o)

pub same_string_refl : (s : List ℕ) → same_string s s ≡ true
unfolding same_string
same_string_refl s = rw (compare_strings_refl s) refl

pub same_string-eq : (s o : List ℕ) → same_string s o ≡ true → s ≡ o
unfolding same_string
same_string-eq s o h = ground (arith, compare_strings-eq s o)
