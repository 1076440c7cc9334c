-- ===== src/HttpConstants/Lookup.antt =====
-- The maps from the numbers to the texts and back are inverse to each other.
use latypus.Common.{
  ℕ, ◌≡◌, ◌≢◌, ◌↔◌, ◌⊎◌, refl, sym, ap, subst, Bool, true, false, ◌&&◌, Option, none, some, List,
  [], ◌∷◌, ◌==◌, ==_refl, arith, Bool-cases, Option-cases, inl, inr,
}
use latypus.HttpMessage.{same_string}
use latypus.HttpMessage.Names.{same_string_refl, same_string-eq}
use latypus.Common.Maps.{find, insert_all}
use latypus.HttpConstants.{
  swap, init, or_zero, get_method_type, get_method_text, get_version_type, get_version_text,
}
use latypus.HttpConstants.Methods.{method_table, version_table}

abbrev is_none {ℓ} : {A : Type ℓ} → Option A → Bool
is_none none = true
is_none (some a) = false

-- No key is there twice.
abbrev distinct {ℓ κ} : {K : Type ℓ} {V : Type κ} (same : K → K → Bool) → List (K × V) → Bool
distinct same [] = true
distinct same ((k, v) ∷ table) = is_none (find same table k) && distinct same table

and_left : (a b : Bool) → (a && b) ≡ true → a ≡ true
and_left a b h = ground arith

and_right : (a b : Bool) → (a && b) ≡ true → b ≡ true
and_right a b h = ground arith

-- The test decides equality.
record IsTest {ℓ} {A : Type ℓ} (same : A → A → Bool) : Type ℓ where
  same_refl : (x : A) → same x x ≡ true
  same_eq : (x y : A) → same x y ≡ true → x ≡ y

find-swap {ℓ κ} :
    {A : Type ℓ} {B : Type κ} (same_a : A → A → Bool) (same_b : B → B → Bool)
    → IsTest same_a
    → IsTest same_b
    → (table : List (A × B)) (a : A) (b : B) → distinct same_b (swap table) ≡ true
    → find same_a table a ≡ some b
    → find same_b (swap table) b ≡ some a
unfolding find
find-swap same_a same_b p q [] a b d h = cc
find-swap {A} {B} same_a same_b p q ((x, y) ∷ table) a b d h = elim (Bool-cases (same_a x a)) [
  | inl e ↦
      let same : x ≡ a = p.same_eq x a e in
      let first : some y ≡ some b = rw e at h in
      let value : y ≡ b = cc in
      let here : same_b y b ≡ true = subst (λ (z : B). same_b y z ≡ true) value (q.same_refl y) in
      rw here (ap some same)
  | inr e ↦
      let later : find same_b (swap table) b ≡ some a =
        find-swap same_a same_b p q table a b (and_right _ _ d) (rw e at h) in
      elim (Bool-cases (same_b y b)) [
        | inl f ↦
            let value : y ≡ b = q.same_eq y b f in
            let there : find same_b (swap table) y ≡ some a =
              subst (λ (z : B). find same_b (swap table) z ≡ some a) (sym value) later in
            let fresh : is_none (find same_b (swap table) y) ≡ true = and_left _ _ d in
            let clash : false ≡ true = rw there at fresh in cc
        | inr f ↦ rw f later
      ]
]

==_IsTest : IsTest ◌==◌
==_IsTest = record { same_refl = ==_refl; same_eq = λ x y h. ground arith }

same_string-IsTest : IsTest same_string
same_string-IsTest = record { same_refl = same_string_refl; same_eq = same_string-eq }

swap-swap {ℓ κ} : {A : Type ℓ} {B : Type κ} (table : List (A × B)) → swap (swap table) ≡ table
swap-swap [] = refl
swap-swap ((a, b) ∷ table) = ap (◌∷◌ (a, b)) (swap-swap table)

-- For a table that gives neither a number nor a text twice, and a number that is not 0.
module _ (table : List (ℕ × List ℕ)) (numbers : distinct ◌==◌ table ≡ true)
    (texts : distinct same_string (swap table) ≡ true) where
  tables_inverse :
      (number : ℕ) (text : List ℕ)
      → number ≢ 0
      → (or_zero (find same_string (swap table) text) ≡ number)
        ↔ (find ◌==◌ table number ≡ some text)
  tables_inverse number text pos = (
    there (Option-cases (find same_string (swap table) text)),
    λ h.
        rw (find-swap ◌==◌ same_string ==_IsTest same_string-IsTest table number text texts h) refl,
  )
    where
      there :
          (find same_string (swap table) text ≡ none)
            ⊎ ((n : ℕ) × (find same_string (swap table) text ≡ some n))
          → or_zero (find same_string (swap table) text) ≡ number
          → find ◌==◌ table number ≡ some text
      there (inl e) h = absurd (pos (sym (rw e at h)))
      there (inr (n, e)) h =
          let same : n ≡ number = rw e at h in
          let back = swap-swap table in
          let found =
            find-swap same_string ◌==◌ same_string-IsTest ==_IsTest (swap table) text n
              (rw back numbers) e in
          subst (λ (k : ℕ). find ◌==◌ table k ≡ some text) same (rw back at found)

-- The same of maps that have the entries of the table.
maps_inverse :
    (table : List (ℕ × List ℕ)) (by_number : List (ℕ × List ℕ)) (by_text : List (List ℕ × ℕ))
    → (distinct ◌==◌ table ≡ true) × (distinct same_string (swap table) ≡ true)
    → by_number ≡ table
    → by_text ≡ swap table
    → (number : ℕ) (text : List ℕ) → number ≢ 0
    → (or_zero (find same_string by_text text) ≡ number) ↔ (find ◌==◌ by_number number ≡ some text)
maps_inverse table by_number by_text (numbers, texts) e f number text pos =
    rw (e, f) (tables_inverse table numbers texts number text pos)

-- `init` finds no entry of a table there already.
init_maps :
    (init.method_code_text ≡ method_table)
    × (init.method_text_code ≡ swap method_table)
    × (init.version_code_text ≡ version_table)
    × (init.version_text_code ≡ swap version_table)
unfolding init insert_all method_table version_table same_string
init_maps = (refl, refl, refl, refl)

methods_distinct :
    (distinct ◌==◌ method_table ≡ true) × (distinct same_string (swap method_table) ≡ true)
unfolding method_table find same_string
methods_distinct = (refl, refl)

versions_distinct :
    (distinct ◌==◌ version_table ≡ true) × (distinct same_string (swap version_table) ≡ true)
unfolding version_table find same_string
versions_distinct = (refl, refl)

-- A text is looked up as a method, other than the one of number 0, exactly if the text of that
-- method is this one. The case of the letters counts.
pub method-text :
    (method : ℕ) (text : List ℕ)
    → method ≢ 0
    → (get_method_type text ≡ method) ↔ (get_method_text method ≡ some text)
unfolding get_method_type get_method_text
method-text method text pos =
    maps_inverse method_table init.method_code_text init.method_text_code methods_distinct
      init_maps.0 init_maps.1 method text pos

-- And so for the versions.
pub version-text :
    (version : ℕ) (text : List ℕ)
    → version ≢ 0
    → (get_version_type text ≡ version) ↔ (get_version_text version ≡ some text)
unfolding get_version_type get_version_text
version-text version text pos =
    maps_inverse version_table init.version_code_text init.version_text_code versions_distinct
      init_maps.2 init_maps.3 version text pos
