-- ===== src/HttpMessage/Strings.antt =====
-- `alloc_string`, and the strings that a message's owner keeps.
use latypus.Common.{
  ℕ, ◌+◌, ◌-◌, ◌≤◌, ◌≡◌, refl, ap, Bool, true, false, Option, none, some, List, arith, ltb, leb,
  if◌then◌else◌, if_elim, length,
}
use latypus.HttpMessage.{HeaderString, Message, text, bytes_writable, alloc_string}
use latypus.HttpMessage.Fields.{
  headers, Before, IsMessage, room, append_text-appended, Kept, Kept-text,
}
use latypus.HttpMessage.Append.{appended-IsMessage, appended-Kept, appended-headers, appended-here}

-- A string that is null, or lies before the offset.
abbrev pub IsKept : Message → Option HeaderString → Type 0
IsKept m none = Unit
IsKept m (some s) = Before m.buffer_offset s

abbrev pub string_text : Message → Option HeaderString → Option (List ℕ)
string_text m none = none
string_text m (some s) = some (text m.buffer s)

pub IsKept-Kept : (a b : Message) (s : Option HeaderString) → Kept a b → IsKept a s → IsKept b s
IsKept-Kept a b none k h = tt
IsKept-Kept a b (some s) (p, q, r) h = omega arith

pub string_text-Kept :
    (a b : Message) (s : Option HeaderString)
    → Kept a b
    → IsKept a s
    → string_text b s ≡ string_text a s
string_text-Kept a b none k h = refl
string_text-Kept a b (some s) k h = ap some (Kept-text a b s k h)

-- There is space for a string and its terminating zero.
abbrev pub fits_string : Message → List ℕ → Bool
fits_string m str = leb (length str + 1) (length m.buffer - m.buffer_offset)

abbrev pub Allocated : Message → List ℕ → Option (Message × Option HeaderString) → Type 0
Allocated m str none = ⊥
Allocated m str (some (m1, s)) =
    IsMessage m1
    × Kept m m1
    × (headers m1 ≡ headers m)
    × IsKept m1 s
    × (string_text m1 s ≡ (if fits_string m str then some str else none))
    × (m1.overflow ≡ (if fits_string m str then m.overflow else true))

pub alloc_string-Allocated :
    (m : Message) (str : List ℕ) → IsMessage m → Allocated m str (alloc_string m str)
unfolding alloc_string
alloc_string-Allocated m str v =
    let r = room m v in
    let o = v.offset_in in
    if_elim (Allocated m str) (ltb (bytes_writable m) (length str + 1))
      (λ h.
        let no : fits_string m str ≡ false = ground arith in
        rw no (
          record {
            small = v.small;
            offset_in = v.offset_in;
            within = v.within;
            same_fields = v.same_fields;
          },
          (refl, omega arith, refl),
          refl,
          tt,
          refl,
          refl,
        ))
      λ h.
        let yes : fits_string m str ≡ true = ground arith in
        let fits : m.buffer_offset + (length str + 1) ≤ length m.buffer = ground arith in
        rw (append_text-appended m str fits, yes)
          (
            appended-IsMessage v str fits,
            appended-Kept v str fits,
            appended-headers v str fits,
            omega arith,
            ap some (appended-here v str fits),
            refl,
          )
