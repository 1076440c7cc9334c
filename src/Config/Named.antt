-- ===== src/Config/Named.antt =====
-- The entries of a virtual host's trie are its locations.
use latypus.Common.{
  ℕ, zero, suc, ◌+◌, ◌≡◌, refl, sym, ap, ap₂, subst, ◌∙◌, true, Option, none, some, List, [], ◌∷◌,
  ◌++◌, arith, if◌then◌else◌, if_elim, length, get_elem?, take, drop,
}
use latypus.Trie
use latypus.Trie.{Entry, empty, null_entry, is_set, insert, find_nearest}
use latypus.Trie.Nearest.{same_key, entry_at}
use latypus.Trie.Entries.{entry_at-insert}
use latypus.Config.{Location}
use latypus.Config.Paths.{location_trie}

pub same_key-eq : (k q : List ℕ) → same_key k q ≡ true → k ≡ q
same_key-eq [] [] h = refl
same_key-eq [] (d ∷ q) h = cc
same_key-eq (c ∷ k) [] h = cc
same_key-eq (c ∷ k) (d ∷ q) h =
    let same : d ≡ c = ground arith in
    let rest : same_key k q ≡ true = ground arith in
    ap₂ (λ x xs. x ∷ xs) (sym same) (same_key-eq k q rest)

pub same_key_refl : (k : List ℕ) → same_key k k ≡ true
same_key_refl [] = refl
same_key_refl (c ∷ k) = rw (same_key_refl k) (ground arith)

-- An entry of a key is null, or names a location of that uri.
abbrev pub NamedBy : List Location → List ℕ → List ℕ → Option ℕ → Type 0
NamedBy locations q first none = Unit
NamedBy locations q first (some j) =
    (l : Location) × (get_elem? locations j ≡ some l) × (first ≡ q) × (l.uri ≡ q)

abbrev pub Named : List Location → List ℕ → Entry ℕ → Type 0
Named locations q e = NamedBy locations q e.first e.second

pub take-append-drop-length : (m : ℕ) (xs : List ℕ) → take m xs ++ drop (length (take m xs)) xs ≡ xs
take-append-drop-length zero xs = refl
take-append-drop-length (suc m) [] = refl
take-append-drop-length (suc m) (x ∷ xs) = ap (λ ys. x ∷ ys) (take-append-drop-length m xs)

module _ (locations : List Location) where
  pub trie-Named :
      (t : Trie.Trie ℕ) (rest : List Location) (j : ℕ)
      → ((i : ℕ) → get_elem? rest i ≡ get_elem? locations (j + i))
      → ((q : List ℕ) → Named locations q (entry_at t q))
      → (q : List ℕ) → Named locations q (entry_at (location_trie t rest j) q)
  unfolding location_trie
  trie-Named t [] j same h q = h q
  trie-Named t (l ∷ rest) j same h q =
      trie-Named (insert t l.uri (some j)) rest (j + 1)
        (λ i. same (suc i) ∙ ap (get_elem? locations) (omega arith))
        (λ p. rw (entry_at-insert t l.uri p (some j)) (
          if_elim (Named locations p) (same_key l.uri p)
            (λ e. (
              l,
              sym (same 0 ∙ ap (get_elem? locations) (omega arith)),
              same_key-eq l.uri p e,
              same_key-eq l.uri p e,
            ))
            λ _. h p))
        q

  -- An entry that is set stays set.
  pub trie-set :
      (t : Trie.Trie ℕ) (rest : List Location) (j : ℕ) (q : List ℕ)
      → is_set (entry_at t q).second ≡ true
      → is_set (entry_at (location_trie t rest j) q).second ≡ true
  unfolding location_trie
  trie-set t [] j q h = h
  trie-set t (l ∷ rest) j q h = trie-set (insert t l.uri (some j)) rest (j + 1) q (
      rw (entry_at-insert t l.uri q (some j))
        (if_elim (λ (e : Entry ℕ). is_set e.second ≡ true) (same_key l.uri q) (λ _. refl) λ _. h))

  pub trie-has :
      (t : Trie.Trie ℕ) (rest : List Location) (j i : ℕ) (l : Location)
      → get_elem? rest i ≡ some l
      → is_set (entry_at (location_trie t rest j) l.uri).second ≡ true
  unfolding location_trie
  trie-has t [] j i l h = cc
  trie-has t (x ∷ rest) j zero l h =
      let found : some x ≡ some l = h in
      let same : x ≡ l = cc in
      trie-set (insert t x.uri (some j)) rest (j + 1) l.uri (
        rw (entry_at-insert t x.uri l.uri (some j)) (
          subst
            (λ (y : Location).
              is_set
                (if same_key x.uri y.uri
                  then record { first = x.uri; second = some j }
                  else entry_at t y.uri).second
              ≡ true)
            same (rw (same_key_refl x.uri) refl)))
  trie-has t (x ∷ rest) j (suc i) l h = trie-has (insert t x.uri (some j)) rest (j + 1) i l h
