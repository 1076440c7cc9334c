-- ===== src/HttpMessage.antt =====
-- The header storage that http_request and http_response have in common: src/http_request.cc,
-- src/http_response.cc, and `http_header_string` of src/http_common.h.
-- Texts are copied one after the other into the message's own buffer; a string is a pointer into
-- it. The sizes of objects are far below 2 ^ 64, so only the subtraction of sizes can wrap.
pub mod Names
pub mod Views
pub mod Fields
pub mod Entries
pub mod Append
pub mod Extend
pub mod Update
pub mod Lookup
pub mod Output
pub mod Decimal
pub mod Strings
mod Tests
use latypus.Common.{
  ℕ, suc, ◌+◌, Bool, true, false, ◌&&◌, Option, none, some, List, [], ◌∷◌, ◌++◌, ◌==◌, ltb,
  if◌then◌else◌, length, take, drop,
}
use latypus.Io.{sub64, load, store, ◌>>=◌}
use latypus.Io.Ring.{resize_vector}

-- `http_header_string`, where it is not null
pub record HeaderString : Type 0 where
  pub start : ℕ
  pub count : ℕ

pub data Compared : Type 0 where
  less equal greater : Compared

-- `http_header_string::compare`, of the characters at the two pointers, which are below 128.
unfoldable pub compare_strings : List ℕ → List ℕ → Compared
compare_strings [] [] = equal
compare_strings [] (oc ∷ o) = less
compare_strings (c ∷ s) [] = greater
compare_strings (c ∷ s) (oc ∷ o) =
    if ltb c oc then less else if ltb oc c then greater else compare_strings s o

abbrev is_equal : Compared → Bool
is_equal less = false
is_equal equal = true
is_equal greater = false

unfoldable pub same_string : List ℕ → List ℕ → Bool
unfolding compare_strings
same_string s o = is_equal (compare_strings s o)

abbrev pub HeaderList : Type 0
HeaderList = List (HeaderString × HeaderString)

-- The entries of `header_map` are in the order in which they were inserted: only `find`, `insert` and
-- the replacement of a value are called.
pub record Message : Type 0 where
  pub buffer : List ℕ
  pub buffer_offset : ℕ
  pub max_headers : ℕ
  pub header_list : HeaderList
  pub header_map : HeaderList
  pub overflow : Bool

-- The characters of a string.
abbrev pub text : List ℕ → HeaderString → List ℕ
text buffer s = take s.count (drop s.start buffer)

unfoldable pub resize : ℕ → ℕ → Message → Message
resize buffer_size max_headers m = record m {
  buffer = resize_vector m.buffer buffer_size;
  max_headers = max_headers;
}

unfoldable pub reset : Message → Message
reset m = record m { buffer_offset = 0; header_list = []; header_map = []; overflow = false }

unfoldable pub bytes_writable : Message → ℕ
bytes_writable m = sub64 (length m.buffer) m.buffer_offset

abbrev fails : Message → Message
fails m = record m { overflow = true }

-- A copy and its terminating zero behind what is there. `none`: past the end of the buffer.
unfoldable pub append_text : Message → List ℕ → Option (Message × HeaderString)
append_text m str = do
  buffer ← store m.buffer m.buffer_offset (str ++ (0 ∷ []))
  some (
    record m { buffer = buffer; buffer_offset = m.buffer_offset + (length str + 1) },
    record { start = m.buffer_offset; count = length str },
  )

-- `alloc_string`: the string is null where there is no space.
unfoldable pub alloc_string : Message → List ℕ → Option (Message × Option HeaderString)
alloc_string m str =
    if ltb (bytes_writable m) (length str + 1)
    then some (fails m, none)
    else do (m1, s) ← append_text m str; some (m1, some s)

-- `header_map.find`
unfoldable pub find_field : List ℕ → HeaderList → List ℕ → Option (HeaderString × HeaderString)
find_field buffer [] name = none
find_field buffer ((key, value) ∷ fields) name =
    if same_string (text buffer key) name then some (key, value) else find_field buffer fields name

-- The value of the entry that was found.
unfoldable pub replace_value : List ℕ → HeaderList → List ℕ → HeaderString → HeaderList
replace_value buffer [] name new = []
replace_value buffer ((key, value) ∷ fields) name new =
    if same_string (text buffer key) name
    then (key, new) ∷ fields
    else (key, value) ∷ replace_value buffer fields name new

-- `std::find` for an entry with the same texts, and its new value. `none`: it is not there.
unfoldable pub replace_entry :
    List ℕ → HeaderList → HeaderString × HeaderString → HeaderString → Option HeaderList
replace_entry buffer [] entry new = none
replace_entry buffer ((key, value) ∷ fields) entry new =
    let rest = replace_entry buffer fields entry new in
    if same_string (text buffer key) (text buffer entry.0)
      && same_string (text buffer value) (text buffer entry.1)
    then some ((key, new) ∷ fields)
    else do fields1 ← rest; some ((key, value) ∷ fields1)

-- A header that is not there yet.
unfoldable pub add_field : Message → List ℕ → List ℕ → Option (Message × Bool)
add_field m name value =
    if ltb (bytes_writable m) (length name + length value + 2) then some (fails m, false) else do
      (m1, key) ← append_text m name
      (m2, val) ← append_text m1 value
      some (
        record m2 {
          header_list = m2.header_list ++ ((key, val) ∷ []);
          header_map = m2.header_map ++ ((key, val) ∷ []);
        },
        true,
      )

-- The list of values that a repeated header gets.
abbrev pub joined : List ℕ → List ℕ → List ℕ
joined old value = old ++ (b',' ∷ b' ' ∷ value)

-- A header that is there.
unfoldable pub extend_field :
    Message → List ℕ → HeaderString × HeaderString → List ℕ → Option (Message × Bool)
extend_field m name (key, orig) value =
    if ltb (bytes_writable m) (orig.count + length value + 2 + 1) then some (fails m, false) else do
      old ← load m.buffer orig.start orig.count
      (m1, val) ← append_text m (joined old value)
      header_list ← replace_entry m1.buffer m1.header_list (key, orig) val
      some (
        record m1 {
          header_list = header_list;
          header_map = replace_value m1.buffer m1.header_map name val;
        },
        true,
      )

unfoldable pub set_header_field : Message → List ℕ → List ℕ → Option (Message × Bool)
set_header_field m name value =
    if length m.header_map == m.max_headers
    then some (fails m, false)
    else elim (find_field m.buffer m.header_map name) [
      | none ↦ add_field m name value
      | some entry ↦ extend_field m name entry value
    ]

-- The string whose `data` the caller gets, or null.
unfoldable pub get_header_string : Message → List ℕ → Option HeaderString
get_header_string m name = elim (find_field m.buffer m.header_map name) [
  | none ↦ none
  | some (key, value) ↦ some value
]
