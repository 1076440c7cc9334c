-- ===== src/ThreadMask.antt =====
-- src/protocol_thread.cc and src/protocol.cc: the table of masks, and the masks of a thread as text and
-- as the protocols that it serves. A protocol is its name, by which it is found.
pub mod Names
pub mod Digits
pub mod Roundtrip
mod Tests
use Prim.Native.Nat.{bit_and, bit_or}
use latypus.Common.{
  ℕ, ◌^◌, Bool, true, false, ◌&&◌, ◌||◌, Option, none, some, List, [], ◌∷◌, ◌++◌, ◌==◌, ltb,
  if◌then◌else◌, length,
}
use latypus.HttpMessage.{same_string}
use latypus.Config.Directives.{contains}

-- `protocol_mask`
pub record Mask : Type 0 where
  pub proto : List ℕ
  pub name : List ℕ
  pub mask : ℕ

-- The constructor puts itself into the table, and takes the next digit.
unfoldable pub protocol_mask : List Mask → List ℕ → List ℕ → List Mask
protocol_mask table proto name =
    table ++ (record { proto = proto; name = name; mask = 2 ^ length table } ∷ [])

-- `find_first_of(",", current)`, up to the end: there is always a first piece.
abbrev pub prepend : ℕ → List (List ℕ) → List (List ℕ)
prepend c [] = (c ∷ []) ∷ []
prepend c (p ∷ ps) = (c ∷ p) ∷ ps

unfoldable pub pieces : List ℕ → List (List ℕ)
pieces [] = [] ∷ []
pieces (c ∷ cs) = let rest = pieces cs in if c == b',' then [] ∷ rest else prepend c rest

abbrev pub put_before : ℕ → Option (List ℕ × List ℕ) → Option (List ℕ × List ℕ)
put_before c none = none
put_before c (some (a, b)) = some (c ∷ a, b)

-- What is before the first slash, and what is behind it.
unfoldable pub split_slash : List ℕ → Option (List ℕ × List ℕ)
split_slash [] = none
split_slash (c ∷ cs) =
    let rest = split_slash cs in if c == b'/' then some ([], cs) else put_before c rest

-- The loop over the table; 0 if there is no such mask.
unfoldable pub find_mask : List Mask → List ℕ → List ℕ → ℕ
find_mask [] proto name = 0
find_mask (e ∷ table) proto name =
    let rest = find_mask table proto name in
    if same_string e.name name && same_string proto e.proto then e.mask else rest

-- One `<protocol/mask>`. The process ends, `none`, if it has no slash, or names what is not known.
abbrev pub found_mask : List (List ℕ) → List Mask → Option (List ℕ × List ℕ) → Option ℕ
found_mask protocols table none = none
found_mask protocols table (some (proto, name)) =
    if contains protocols proto
    then (if find_mask table proto name == 0 then none else some (find_mask table proto name))
    else none

unfoldable pub piece_mask : List (List ℕ) → List Mask → List ℕ → Option ℕ
piece_mask protocols table text = found_mask protocols table (split_slash text)

unfoldable pub or_masks : List (List ℕ) → List Mask → ℕ → List (List ℕ) → Option ℕ
or_masks protocols table thread_mask [] = some thread_mask
or_masks protocols table thread_mask (text ∷ rest) = elim (piece_mask protocols table text) [
  | none ↦ none
  | some found ↦ or_masks protocols table (bit_or thread_mask found) rest
]

unfoldable pub string_to_thread_mask : List (List ℕ) → List Mask → List ℕ → Option ℕ
string_to_thread_mask protocols table str = or_masks protocols table 0 (pieces str)

abbrev pub mask_text : Mask → List ℕ
mask_text e = e.proto ++ (b'/' ∷ e.name)

-- The loop, with the text so far.
unfoldable pub write_masks : List ℕ → ℕ → List Mask → List ℕ
write_masks text thread_mask [] = text
write_masks text thread_mask (e ∷ table) =
    write_masks
      (if bit_and thread_mask e.mask == 0
        then text
        else (if ltb 0 (length text) then text ++ (b',' ∷ []) else text) ++ mask_text e)
      thread_mask table

unfoldable pub thread_mask_to_string : List Mask → ℕ → List ℕ
unfolding write_masks
thread_mask_to_string table thread_mask = write_masks [] thread_mask table

-- The protocols of the masks that are set, each once.
unfoldable pub add_protocols : List (List ℕ) → ℕ → List Mask → List (List ℕ)
add_protocols protocols thread_mask [] = protocols
add_protocols protocols thread_mask (e ∷ table) =
    add_protocols
      (if bit_and thread_mask e.mask == 0
        then protocols
        else if contains protocols e.proto
        then protocols
        else protocols ++ (e.proto ∷ []))
      thread_mask table

unfoldable pub thread_mask_to_protocols : List Mask → ℕ → List (List ℕ)
unfolding add_protocols
thread_mask_to_protocols table thread_mask = add_protocols [] thread_mask table
