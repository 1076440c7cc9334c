-- ===== src/Trie/Entries.antt =====
-- The entries that a trie has at its keys, and the nearest of them.
use latypus.Common.{
  ℕ, zero, suc, ◌≤◌, ◌<◌, ◌≡◌, refl, ap, sym, subst, ◌∙◌, true, false, ◌&&◌, Option, List, [], ◌∷◌,
  ◌==◌, arith, if◌then◌else◌, if_elim, take, Bool-cases, inl, inr,
}
use latypus.Trie.{
  Entry, Trie, node, Child, null, child, null_entry, empty, made, insert_entry, insert, is_set,
}
use latypus.Trie.Nearest.{same_key, entry_at, longest}

module _ {ℓ} {A : Type ℓ} where
  pub entry_at-empty : (q : List ℕ) → entry_at (empty {A = A}) q ≡ null_entry
  entry_at-empty [] = refl
  entry_at-empty (c ∷ q) = refl

  abbrev child_entry : Child A → List ℕ → Entry A
  child_entry x q = elim x [ null ↦ null_entry | child t ↦ entry_at t q ]

  entry_at-made : (x : Child A) (q : List ℕ) → entry_at (made x) q ≡ child_entry x q
  entry_at-made null q = entry_at-empty q
  entry_at-made (child t) q = refl

  entry_at-insert_entry :
      (t : Trie A) (k q : List ℕ) (v : Entry A)
      → entry_at (insert_entry t k v) q ≡ (if same_key k q then v else entry_at t q)
  unfolding insert_entry
  entry_at-insert_entry (node e chars) [] [] v = refl
  entry_at-insert_entry (node e chars) [] (d ∷ q) v = refl
  entry_at-insert_entry (node e chars) (c ∷ k) [] v = refl
  entry_at-insert_entry (node e chars) (c ∷ k) (d ∷ q) v =
      if_elim
        (λ (x : Child A).
          child_entry x q ≡ (if d == c && same_key k q then v else child_entry (chars d) q))
        (d == c)
        (λ h. rw h (
          entry_at-insert_entry (made (chars d)) k q v
          ∙ ap (λ (o : Entry A). if same_key k q then v else o) (entry_at-made (chars d) q)))
        (λ h. rw h refl)

  -- The entry that was inserted, and those that were there at every other key.
  pub entry_at-insert :
      (t : Trie A) (k q : List ℕ) (v : Option A)
      → entry_at (insert t k v) q
        ≡ (if same_key k q then record { first = k; second = v } else entry_at t q)
  unfolding insert
  entry_at-insert t k q v = entry_at-insert_entry t k q (record { first = k; second = v })

  -- If there is an entry at the first `k` characters, the longest is one that is set, and no shorter.
  pub longest_at_least :
      (t : Trie A) (key : List ℕ) (n k : ℕ)
      → 0 < k
      → k ≤ n
      → is_set (entry_at t (take k key)).second ≡ true
      → (m : ℕ) × (k ≤ m)
        × (longest t null_entry key n ≡ entry_at t (take m key))
        × (is_set (entry_at t (take m key)).second ≡ true)
  longest_at_least t key zero k pos le h = absurd (omega arith)
  longest_at_least t key (suc n) k pos le h =
      elim (Bool-cases (is_set (entry_at t (take (suc n) key)).second)) [
        | inl e ↦ (suc n, le, rw e refl, e)
        | inr e ↦ elim (Bool-cases (k == suc n)) [
          | inl f ↦
              let same : k ≡ suc n = ground arith in
              let set : is_set (entry_at t (take (suc n) key)).second ≡ true =
                subst (λ i. is_set (entry_at t (take i key)).second ≡ true) same h in
              let clash : true ≡ false = sym set ∙ e in cc
          | inr f ↦ rw e (longest_at_least t key n k pos (ground arith) h)
        ]
      ]
