-- ===== src/HttpMessage/Fields.antt =====
-- What a message's headers are, whatever their place in the buffer, and what `set_header_field` does
-- to them.
use latypus.Io.Memory.{spliced, store-spliced}
use latypus.Common.{
  ℕ, ◌+◌, ◌-◌, ◌^◌, ◌≤◌, ◌<◌, ◌≡◌, refl, ap, ap₂, sym, ◌∙◌, Bool, true, false, Option, none, some,
  List, [], ◌∷◌, ◌++◌, arith, if◌then◌else◌, length, take, drop, length-append,
}
use latypus.HttpMessage.{
  HeaderString, HeaderList, Message, text, bytes_writable, append_text, find_field, joined,
  same_string,
}
use latypus.HttpMessage.Names.{same_string-eq}
use latypus.HttpMessage.Views.{take-take, take-drop-take, text_kept}

abbrev pub Texts : Type 0
Texts = List (List ℕ × List ℕ)

abbrev pub texts : List ℕ → HeaderList → Texts
texts buffer [] = []
texts buffer ((key, value) ∷ fields) = (text buffer key, text buffer value) ∷ texts buffer fields

-- The headers in their order.
abbrev pub headers : Message → Texts
headers m = texts m.buffer m.header_list

abbrev pub lookup_text : Texts → List ℕ → Option (List ℕ)
lookup_text [] name = none
lookup_text ((key, value) ∷ fields) name =
    if same_string key name then some value else lookup_text fields name

-- A header is added at the end, or its values are joined.
abbrev pub put_text : Texts → List ℕ → List ℕ → Texts
put_text [] name value = (name, value) ∷ []
put_text ((key, old) ∷ fields) name value =
    if same_string key name
    then (key, joined old value) ∷ fields
    else (key, old) ∷ put_text fields name value

abbrev pub Before : ℕ → HeaderString → Type 0
Before off s = s.start + s.count ≤ off

abbrev pub Within : ℕ → HeaderList → Type 0
Within off [] = Unit
Within off ((key, value) ∷ fields) = Before off key × Before off value × Within off fields

-- Every string lies before the offset, and the list and the map hold the same.
pub record IsMessage (m : Message) : Type 0 where
  pub small : length m.buffer < 2 ^ 62
  pub offset_in : m.buffer_offset ≤ length m.buffer
  pub within : Within m.buffer_offset m.header_list
  pub same_fields : m.header_map ≡ m.header_list

pub Within-le : (a b : ℕ) (l : HeaderList) → a ≤ b → Within a l → Within b l
Within-le a b [] h w = tt
Within-le a b ((key, value) ∷ l) h (k, v, w) = (omega arith, omega arith, Within-le a b l h w)

pub Within-append :
    (a : ℕ) (l : HeaderList) (key value : HeaderString)
    → Within a l
    → Before a key
    → Before a value
    → Within a (l ++ ((key, value) ∷ []))
Within-append a [] key value w k v = (k, v, tt)
Within-append a ((x, y) ∷ l) key value (kx, ky, w) k v = (kx, ky, Within-append a l key value w k v)

pub texts-append :
    (buf : List ℕ) (a b : HeaderList) → texts buf (a ++ b) ≡ texts buf a ++ texts buf b
texts-append buf [] b = refl
texts-append buf ((x, y) ∷ a) b = ap (◌∷◌ (text buf x, text buf y)) (texts-append buf a b)

module _ (buf : List ℕ) (off : ℕ) (bytes : List ℕ) (fits : off + length bytes ≤ length buf) where
  pub texts_kept : (l : HeaderList) → Within off l → texts (spliced buf off bytes) l ≡ texts buf l
  texts_kept [] w = refl
  texts_kept ((key, value) ∷ l) (k, v, w) =
      ap₂ (λ (t : List ℕ × List ℕ) (r : Texts). t ∷ r)
        (ap₂ (λ (x y : List ℕ). (x, y)) (text_kept buf off bytes fits key k)
          (text_kept buf off bytes fits value v))
        (texts_kept l w)

-- The message after a text has been appended.
abbrev pub appended : Message → List ℕ → Message
appended m str = record m {
  buffer = spliced m.buffer m.buffer_offset (str ++ (0 ∷ []));
  buffer_offset = m.buffer_offset + (length str + 1);
}

abbrev pub here : Message → List ℕ → HeaderString
here m str = record { start = m.buffer_offset; count = length str }

pub room : (m : Message) → IsMessage m → bytes_writable m ≡ length m.buffer - m.buffer_offset
unfolding bytes_writable
room m v = let a = v.small in let b = v.offset_in in omega arith

pub length-zero : (str : List ℕ) → length (str ++ (0 ∷ [])) ≡ length str + 1
length-zero str = length-append str (0 ∷ [])

pub append_text-appended :
    (m : Message) (str : List ℕ)
    → m.buffer_offset + (length str + 1) ≤ length m.buffer
    → append_text m str ≡ some (appended m str, here m str)
unfolding append_text
append_text-appended m str h =
    rw (store-spliced m.buffer m.buffer_offset (str ++ (0 ∷ [])) (omega (arith, length-zero str)))
      refl

-- What is written before the offset is never written again.
abbrev pub Kept : Message → Message → Type 0
Kept m m1 =
    (take m.buffer_offset m1.buffer ≡ take m.buffer_offset m.buffer)
    × (m.buffer_offset ≤ m1.buffer_offset)
    × (length m1.buffer ≡ length m.buffer)

pub Kept-trans : (a b c : Message) → Kept a b → Kept b c → Kept a c
Kept-trans a b c (p, q, r) (p1, q1, r1) = (
  sym (take-take a.buffer_offset b.buffer_offset c.buffer q)
      ∙ ap (take a.buffer_offset) p1
      ∙ take-take a.buffer_offset b.buffer_offset b.buffer q
      ∙ p,
  omega arith,
  r1 ∙ r,
)

pub Kept-text :
    (a b : Message) (s : HeaderString)
    → Kept a b
    → Before a.buffer_offset s
    → text b.buffer s ≡ text a.buffer s
Kept-text a b s (p, q, r) h =
    sym (take-drop-take s.count s.start a.buffer_offset b.buffer h)
    ∙ ap (λ (buf : List ℕ). take s.count (drop s.start buf)) p
    ∙ take-drop-take s.count s.start a.buffer_offset a.buffer h

-- The search finds what the texts say.
abbrev pub Found : List ℕ → ℕ → HeaderList → List ℕ → Option (HeaderString × HeaderString) → Type 0
Found buf off l name none =
    (lookup_text (texts buf l) name ≡ none)
    × ((value : List ℕ) → put_text (texts buf l) name value ≡ texts buf l ++ ((name, value) ∷ []))
Found buf off l name (some (key, value)) =
    (text buf key ≡ name)
    × Before off key
    × Before off value
    × (lookup_text (texts buf l) name ≡ some (text buf value))

pub find_field-Found :
    (buf : List ℕ) (off : ℕ) (l : HeaderList) (name : List ℕ)
    → Within off l
    → Found buf off l name (find_field buf l name)
unfolding find_field
find_field-Found buf off [] name w = (refl, λ value. refl)
find_field-Found buf off ((key, value) ∷ l) name (k, v, w) =
    split (same_string (text buf key) name) refl (find_field buf l name)
      (find_field-Found buf off l name w)
  where
    split :
        (b : Bool)
        → same_string (text buf key) name ≡ b
        → (o : Option (HeaderString × HeaderString)) → Found buf off l name o
        → Found buf off ((key, value) ∷ l) name (if b then some (key, value) else o)
    split true e o f = (same_string-eq (text buf key) name e, k, v, rw e refl)
    split false e none (f, g) = (rw e f, λ x. rw e (ap (◌∷◌ (text buf key, text buf value)) (g x)))
    split false e (some (key1, value1)) (f, a, b, g) = (f, a, b, rw e g)
