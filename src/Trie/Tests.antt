-- ===== src/Trie/Tests.antt =====
-- A trie at concrete keys.
use latypus.Common.{ℕ, ◌≡◌, refl, [], ◌∷◌, some}
use latypus.Trie.{Trie, empty, insert, find, find_nearest, null_entry, nearest_from, insert_entry}
use latypus.Trie.Nearest.{find-insert, longest, find_nearest-longest}

-- `/` is location 1, `/ab` is location 2.
abbrev locations : Trie ℕ
locations = insert (insert empty (b'/' ∷ []) (some 1)) (b'/' ∷ b'a' ∷ b'b' ∷ []) (some 2)

find-insert_example : find locations (b'/' ∷ b'a' ∷ b'b' ∷ []) ≡ some 2
find-insert_example =
    find-insert (insert empty (b'/' ∷ []) (some 1)) (b'/' ∷ b'a' ∷ b'b' ∷ [])
      (b'/' ∷ b'a' ∷ b'b' ∷ []) (some 2)

find_nearest-longest_example :
    find_nearest locations (b'/' ∷ b'a' ∷ b'c' ∷ [])
    ≡ longest locations null_entry (b'/' ∷ b'a' ∷ b'c' ∷ []) 3
find_nearest-longest_example = find_nearest-longest locations (b'/' ∷ b'a' ∷ b'c' ∷ [])

-- No location is at `/a`, so the nearest to `/ac` is that of `/`.
nearest_root :
    find_nearest locations (b'/' ∷ b'a' ∷ b'c' ∷ []) ≡ record { first = b'/' ∷ []; second = some 1 }
unfolding find_nearest nearest_from insert insert_entry
nearest_root = refl
