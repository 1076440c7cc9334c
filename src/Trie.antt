-- ===== src/Trie.antt =====
-- src/trie.h: the map from path prefixes to locations that a virtual host keeps.
-- A value is a pointer, so `none` is the null pointer. A key is a C string: the characters before its
-- terminating zero, each the index that the compiler's `char` gives.
pub mod Nearest
pub mod Entries
mod Tests
use latypus.Common.{ℕ, Bool, true, false, Option, none, some, List, [], ◌∷◌, ◌==◌, if◌then◌else◌}

-- `trie_entry`
pub record Entry {ℓ} (A : Type ℓ) : Type ℓ where
  pub first : List ℕ
  pub second : Option A

-- `trie_node` and the pointers in its array.
mutual
  pub data Trie {ℓ} (A : Type ℓ) : Type ℓ where
    node : Entry A → (ℕ → Child A) → Trie A

  pub data Child {ℓ} (A : Type ℓ) : Type ℓ where
    null : Child A
    child : Trie A → Child A

module _ {ℓ} {A : Type ℓ} where
  abbrev pub null_entry : Entry A
  null_entry = record { first = []; second = none }

  -- `new trie_node`
  abbrev pub empty : Trie A
  empty = node null_entry (λ _. null)

  abbrev pub value : Trie A → Entry A
  value (node e chars) = e

  -- The child at an index, made if it is not there.
  abbrev pub made : Child A → Trie A
  made null = empty
  made (child t) = t

  -- `insert(t, value)`, with the rest of the key.
  unfoldable pub insert_entry : Trie A → List ℕ → Entry A → Trie A
  insert_entry (node e chars) [] v = node v chars
  insert_entry (node e chars) (c ∷ key) v =
      node e λ i. if i == c then child (insert_entry (made (chars i)) key v) else chars i

  unfoldable pub insert : Trie A → List ℕ → Option A → Trie A
  insert t key v = insert_entry t key (record { first = key; second = v })

  unfoldable pub find : Trie A → List ℕ → Option A
  find (node e chars) [] = e.second
  find (node e chars) (c ∷ key) = elim (chars c) [ null ↦ none | child t ↦ find t key ]

  abbrev pub is_set : Option A → Bool
  is_set none = false
  is_set (some _) = true

  -- The loop of `find_nearest`, from a node with the nearest entry so far.
  unfoldable pub nearest_from : Trie A → Entry A → List ℕ → Entry A
  nearest_from t nearest [] = nearest
  nearest_from (node e chars) nearest (c ∷ key) = elim (chars c) [
    | null ↦ nearest
    | child t ↦ nearest_from t (if is_set (value t).second then value t else nearest) key
  ]

  unfoldable pub find_nearest : Trie A → List ℕ → Entry A
  find_nearest t key = nearest_from t null_entry key
