-- ===== src/HttpMessage/Entries.antt =====
-- The entry that `header_map.find` and `std::find` meet, and the value that it gets.
use latypus.Io.Memory.{spliced}
use latypus.Common.{
  ℕ, ◌+◌, ◌≤◌, ◌≡◌, refl, ap, ap₂, sym, ◌∙◌, Bool, true, false, Option, some, List, [], ◌∷◌,
  if◌then◌else◌, if_elim, length,
}
use latypus.HttpMessage.{
  HeaderString, HeaderList, text, find_field, replace_value, replace_entry, joined, same_string,
}
use latypus.HttpMessage.Names.{same_string_refl}
use latypus.HttpMessage.Views.{text_kept}
use latypus.HttpMessage.Fields.{texts, put_text, Before, Within}

-- `std::find` stops at the entry that the map found.
pub replace_entry-value :
    (buf : List ℕ) (l : HeaderList) (name : List ℕ) (key value new : HeaderString)
    → find_field buf l name ≡ some (key, value)
    → text buf key ≡ name
    → replace_entry buf l (key, value) new ≡ some (replace_value buf l name new)
unfolding find_field replace_entry replace_value
replace_entry-value buf [] name key value new h e = cc
replace_entry-value buf ((x, y) ∷ l) name key value new h e =
    split (same_string (text buf x) name) refl h
      (λ g. replace_entry-value buf l name key value new g e)
  where
    found : (x key : HeaderString) → x ≡ key → same_string (text buf x) (text buf key) ≡ true
    found x key q =
        ap (λ (s : HeaderString). same_string (text buf x) (text buf s)) (sym q)
        ∙ same_string_refl (text buf x)

    split :
        (b : Bool)
        → same_string (text buf x) name ≡ b
        → (if b then some (x, y) else find_field buf l name) ≡ some (key, value)
        → (find_field buf l name ≡ some (key, value)
            → replace_entry buf l (key, value) new ≡ some (replace_value buf l name new))
        → replace_entry buf ((x, y) ∷ l) (key, value) new
          ≡ some (if b then (x, new) ∷ l else (x, y) ∷ replace_value buf l name new)
    split true q g ih = rw (found x key (cc), found y value (cc)) refl
    split false q g ih =
        let differ : same_string (text buf x) (text buf key) ≡ false =
          ap (same_string (text buf x)) e ∙ q in
        rw (differ, ih g) refl

pub texts-replace_value :
    (buf : List ℕ) (l : HeaderList) (name value : List ℕ) (key old new : HeaderString)
    → find_field buf l name ≡ some (key, old)
    → text buf new ≡ joined (text buf old) value
    → texts buf (replace_value buf l name new) ≡ put_text (texts buf l) name value
unfolding find_field replace_value
texts-replace_value buf [] name value key old new h e = cc
texts-replace_value buf ((x, y) ∷ l) name value key old new h e =
    split (same_string (text buf x) name) h
      (λ g. texts-replace_value buf l name value key old new g e)
  where
    split :
        (b : Bool)
        → (if b then some (x, y) else find_field buf l name) ≡ some (key, old)
        → (find_field buf l name ≡ some (key, old)
            → texts buf (replace_value buf l name new) ≡ put_text (texts buf l) name value)
        → texts buf (if b then (x, new) ∷ l else (x, y) ∷ replace_value buf l name new) ≡ (
            if b
            then (text buf x, joined (text buf y) value) ∷ texts buf l
            else (text buf x, text buf y) ∷ put_text (texts buf l) name value)
    split true g ih =
        let same : old ≡ y = cc in
        ap (λ (t : List ℕ). (text buf x, t) ∷ texts buf l)
          (e ∙ ap (λ (s : HeaderString). joined (text buf s) value) same)
    split false g ih = ap (◌∷◌ (text buf x, text buf y)) (ih g)

pub Within-replace_value :
    (buf : List ℕ) (off : ℕ) (l : HeaderList) (name : List ℕ) (new : HeaderString)
    → Within off l
    → Before off new
    → Within off (replace_value buf l name new)
unfolding replace_value
Within-replace_value buf off [] name new w b = tt
Within-replace_value buf off ((x, y) ∷ l) name new (k, v, w) b =
    if_elim (Within off) (same_string (text buf x) name) (λ _. (k, b, w))
      λ _. (k, v, Within-replace_value buf off l name new w b)

module _ (buf : List ℕ) (off : ℕ) (bytes : List ℕ) (fits : off + length bytes ≤ length buf) where
  pub find_field_kept :
      (l : HeaderList) (name : List ℕ)
      → Within off l
      → find_field (spliced buf off bytes) l name ≡ find_field buf l name
  unfolding find_field
  find_field_kept [] name w = refl
  find_field_kept ((x, y) ∷ l) name (k, v, w) =
      ap₂
        (λ (t : List ℕ) (o : Option (HeaderString × HeaderString)).
          if same_string t name then some (x, y) else o)
        (text_kept buf off bytes fits x k) (find_field_kept l name w)
