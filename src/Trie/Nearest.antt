-- ===== src/Trie/Nearest.antt =====
-- What the trie promises: it is a map, and `find_nearest` is the longest prefix that the map holds.
use latypus.Common.{
  ℕ, zero, suc, ◌≡◌, refl, ap, sym, ◌∙◌, Bool, true, false, ◌&&◌, Option, none, List, [], ◌∷◌, ◌⊎◌,
  ◌==◌, if◌then◌else◌, if_elim, length, take, inl, inr,
}
use latypus.Trie.{
  Entry, Trie, node, Child, null, child, null_entry, empty, value, made, insert_entry, insert, find,
  is_set, nearest_from, find_nearest,
}

abbrev pub same_key : List ℕ → List ℕ → Bool
same_key [] [] = true
same_key [] (d ∷ q) = false
same_key (c ∷ k) [] = false
same_key (c ∷ k) (d ∷ q) = d == c && same_key k q

module _ {ℓ} {A : Type ℓ} where
  find-empty : (q : List ℕ) → find (empty {A = A}) q ≡ none
  unfolding find
  find-empty [] = refl
  find-empty (c ∷ q) = refl

  abbrev find_child : Child A → List ℕ → Option A
  find_child x q = elim x [ null ↦ none | child t ↦ find t q ]

  find-made : (x : Child A) (q : List ℕ) → find (made x) q ≡ find_child x q
  find-made null q = find-empty q
  find-made (child t) q = refl

  find-insert_entry :
      (t : Trie A) (k q : List ℕ) (v : Entry A)
      → find (insert_entry t k v) q ≡ (if same_key k q then v.second else find t q)
  unfolding insert_entry find
  find-insert_entry (node e chars) [] [] v = refl
  find-insert_entry (node e chars) [] (d ∷ q) v = refl
  find-insert_entry (node e chars) (c ∷ k) [] v = refl
  find-insert_entry (node e chars) (c ∷ k) (d ∷ q) v =
      if_elim
        (λ (x : Child A).
          find_child x q ≡ (if d == c && same_key k q then v.second else find_child (chars d) q))
        (d == c)
        (λ h. rw h (
          find-insert_entry (made (chars d)) k q v
          ∙ ap (λ (o : Option A). if same_key k q then v.second else o) (find-made (chars d) q)))
        (λ h. rw h refl)

  -- After an insert `find` returns the value at the key that was inserted, and what it returned
  -- before at every other key.
  pub find-insert :
      (t : Trie A) (k q : List ℕ) (v : Option A)
      → find (insert t k v) q ≡ (if same_key k q then v else find t q)
  unfolding insert
  find-insert t k q v = find-insert_entry t k q (record { first = k; second = v })

  -- The entry at a key, and of the entries at the first `n` characters of a key and fewer, but at
  -- least one, the longest that is set.
  abbrev pub entry_at : Trie A → List ℕ → Entry A
  entry_at t [] = value t
  entry_at (node e chars) (c ∷ q) = elim (chars c) [ null ↦ null_entry | child t ↦ entry_at t q ]

  abbrev pub longest : Trie A → Entry A → List ℕ → ℕ → Entry A
  longest t other key zero = other
  longest t other key (suc n) =
      let shorter = longest t other key n in
      if is_set (entry_at t (take (suc n) key)).second
      then entry_at t (take (suc n) key)
      else shorter

  longest-null :
      (e : Entry A) (chars : ℕ → Child A) (other : Entry A) (c : ℕ) (key : List ℕ) (n : ℕ)
      → chars c ≡ null
      → longest (node e chars) other (c ∷ key) n ≡ other
  longest-null e chars other c key zero h = refl
  longest-null e chars other c key (suc n) h = rw h (longest-null e chars other c key n h)

  longest-child :
      (e : Entry A) (chars : ℕ → Child A) (other : Entry A) (c : ℕ) (key : List ℕ) (t : Trie A)
      (n : ℕ)
      → chars c ≡ child t
      → longest (node e chars) other (c ∷ key) (suc n)
        ≡ longest t (if is_set (value t).second then value t else other) key n
  longest-child e chars other c key t zero h = rw h refl
  longest-child e chars other c key t (suc n) h =
      rw (longest-child e chars other c key t n h) (rw h refl)

  nearest_from-null :
      (e : Entry A) (chars : ℕ → Child A) (other : Entry A) (c : ℕ) (key : List ℕ)
      → chars c ≡ null
      → nearest_from (node e chars) other (c ∷ key) ≡ other
  unfolding nearest_from
  nearest_from-null e chars other c key h = rw h refl

  nearest_from-child :
      (e : Entry A) (chars : ℕ → Child A) (other : Entry A) (c : ℕ) (key : List ℕ) (t : Trie A)
      → chars c ≡ child t
      → nearest_from (node e chars) other (c ∷ key)
        ≡ nearest_from t (if is_set (value t).second then value t else other) key
  unfolding nearest_from
  nearest_from-child e chars other c key t h = rw h refl

  Child-cases : (x : Child A) → (x ≡ null) ⊎ ((t : Trie A) × (x ≡ child t))
  Child-cases null = inl refl
  Child-cases (child t) = inr (t, refl)

  nearest_from-longest :
      (t : Trie A) (other : Entry A) (key : List ℕ)
      → nearest_from t other key ≡ longest t other key (length key)
  unfolding nearest_from
  nearest_from-longest t other [] = refl
  nearest_from-longest (node e chars) other (c ∷ key) = elim (Child-cases (chars c)) [
    | inl h ↦
        nearest_from-null e chars other c key h
        ∙ sym (longest-null e chars other c key (suc (length key)) h)
    | inr (t, h) ↦
        nearest_from-child e chars other c key t h
        ∙ nearest_from-longest t (if is_set (value t).second then value t else other) key
        ∙ sym (longest-child e chars other c key t (length key) h)
  ]

  -- `find_nearest` is the entry of the longest prefix of the key, of at least one character, at which
  -- the trie has a value; the null entry if there is none.
  pub find_nearest-longest :
      (t : Trie A) (key : List ℕ) → find_nearest t key ≡ longest t null_entry key (length key)
  unfolding find_nearest
  find_nearest-longest t key = nearest_from-longest t null_entry key
