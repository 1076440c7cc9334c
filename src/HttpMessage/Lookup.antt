-- ===== src/HttpMessage/Lookup.antt =====
-- What `get_header_string` finds in a message, and what it finds after `set_header_field`.
use latypus.Common.{
  ℕ, ◌≡◌, refl, ap, ap₂, sym, ◌∙◌, Bool, true, false, Option, none, some, List, [], ◌∷◌,
  if◌then◌else◌, Bool-cases, inl, inr,
}
use latypus.HttpMessage.{
  HeaderString, HeaderList, Message, text, find_field, joined, set_header_field, get_header_string,
  same_string,
}
use latypus.HttpMessage.Names.{same_string_refl, same_string-eq}
use latypus.HttpMessage.Fields.{Texts, texts, headers, lookup_text, put_text, IsMessage}
use latypus.HttpMessage.Update.{Updated, set_header_field-Updated}

abbrev text_of : List ℕ → Option (HeaderString × HeaderString) → Option (List ℕ)
text_of buffer none = none
text_of buffer (some (key, value)) = some (text buffer value)

abbrev string_text : List ℕ → Option HeaderString → Option (List ℕ)
string_text buffer none = none
string_text buffer (some s) = some (text buffer s)

-- The text that `get_header_string` hands out.
abbrev pub shown : Message → List ℕ → Option (List ℕ)
shown m name = string_text m.buffer (get_header_string m name)

find_field-lookup_text :
    (buf : List ℕ) (l : HeaderList) (name : List ℕ)
    → text_of buf (find_field buf l name) ≡ lookup_text (texts buf l) name
unfolding find_field
find_field-lookup_text buf [] name = refl
find_field-lookup_text buf ((key, value) ∷ l) name =
    elim (Bool-cases (same_string (text buf key) name)) [
      | inl e ↦ rw e refl
      | inr e ↦ rw e (find_field-lookup_text buf l name)
    ]

shown-lookup_text :
    (m : Message) (name : List ℕ) → IsMessage m → shown m name ≡ lookup_text (headers m) name
unfolding get_header_string
shown-lookup_text m name v =
    by_entry (find_field m.buffer m.header_map name)
    ∙ ap (λ (l : HeaderList). text_of m.buffer (find_field m.buffer l name)) v.same_fields
    ∙ find_field-lookup_text m.buffer m.header_list name
  where
    by_entry :
        (o : Option (HeaderString × HeaderString))
        → string_text m.buffer (elim o [ none ↦ none | some (key, value) ↦ some value ])
          ≡ text_of m.buffer o
    by_entry none = refl
    by_entry (some (key, value)) = refl

-- The value of a name after one more value.
abbrev pub with_value : Option (List ℕ) → List ℕ → List ℕ
with_value none value = value
with_value (some old) value = joined old value

other_name :
    (key name other : List ℕ)
    → same_string key name ≡ false
    → same_string key other ≡ true
    → same_string name other ≡ false
other_name key name other e h = elim (Bool-cases (same_string name other)) [
  | inl g ↦
      let same : key ≡ name = same_string-eq key other h ∙ sym (same_string-eq name other g) in
      let clash : true ≡ false = sym (same_string_refl key) ∙ ap (same_string key) same ∙ e in cc
  | inr g ↦ g
]

lookup_text-put_text :
    (t : Texts) (name value other : List ℕ)
    → lookup_text (put_text t name value) other ≡ (
        if same_string name other
        then some (with_value (lookup_text t name) value)
        else lookup_text t other)
lookup_text-put_text [] name value other = refl
lookup_text-put_text ((key, old) ∷ t) name value other = elim (Bool-cases (same_string key name)) [
  | inl e ↦
      let q : same_string name other ≡ same_string key other =
        ap (λ (x : List ℕ). same_string x other) (sym (same_string-eq key name e)) in
      elim (Bool-cases (same_string key other)) [
        | inl h ↦ rw (e, h, q ∙ h) refl
        | inr h ↦ rw (e, h, q ∙ h) refl
      ]
  | inr e ↦ elim (Bool-cases (same_string key other)) [
    | inl h ↦ rw (e, h, other_name key name other e h) refl
    | inr h ↦ rw (e, h) (lookup_text-put_text t name value other)
  ]
]

abbrev pub Shown : Message → List ℕ → List ℕ → List ℕ → Option (Message × Bool) → Type 0
Shown m name value other none = ⊥
Shown m name value other (some (m1, done)) = shown m1 other ≡ (
    if done
    then if same_string name other then some (with_value (shown m name) value) else shown m other
    else shown m other)

-- `get_header_string` after `set_header_field`, for every message whose strings lie before the
-- offset and any name: when the call reported success, the name that was set has the new value, or
-- its old value joined with it; every other name, and every name after a refusal, has what it had.
pub set_header_field-Shown :
    (m : Message) (name value other : List ℕ)
    → IsMessage m
    → Shown m name value other (set_header_field m name value)
set_header_field-Shown m name value other v =
    split (set_header_field m name value) (set_header_field-Updated m name value v)
  where
    split : (o : Option (Message × Bool)) → Updated m name value o → Shown m name value other o
    split none u = elim u [ ]
    split (some (m1, true)) (d, i, h, f, k) =
        shown-lookup_text m1 other i
        ∙ ap (λ (t : Texts). lookup_text t other) h
        ∙ lookup_text-put_text (headers m) name value other
        ∙ ap₂
            (λ (a b : Option (List ℕ)).
              if same_string name other then some (with_value a value) else b)
            (sym (shown-lookup_text m name v)) (sym (shown-lookup_text m other v))
    split (some (m1, false)) (d, i, h, f, k) =
        shown-lookup_text m1 other i
        ∙ ap (λ (t : Texts). lookup_text t other) h
        ∙ sym (shown-lookup_text m other v)
