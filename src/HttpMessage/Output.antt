-- ===== src/HttpMessage/Output.antt =====
-- The header lines that `to_buffer` of src/http_request.cc and src/http_response.cc write to the
-- caller's buffer, each behind a test that it fits.
use mathlib.Core.List.{append_assoc}
use latypus.Common.{
  ℕ, ◌+◌, ◌-◌, ◌^◌, ◌<◌, ◌≤◌, ◌≡◌, refl, subst, true, false, Option, none, some, List, [], ◌∷◌,
  ◌++◌, arith, ltb, if◌then◌else◌, length, drop, length-append, length-take, length-drop,
  Bool-cases, inl, inr,
}
use latypus.Io.{sub64, ◌>>=◌}
use latypus.HttpMessage.{HeaderString, HeaderList, text}
use latypus.HttpMessage.Fields.{Texts, texts, Before, Within}

-- The bytes written to the caller's buffer, from its start on, and `length`.
pub record Output : Type 0 where
  pub bytes : List ℕ
  pub total : ℕ

-- What `to_buffer` comes to: its length is returned, or -1, which leaves in the buffer what was written
-- before.
pub data Writing : Type 0 where
  sent refused : Output → Writing

infixl 20 ◌then_write◌
abbrev pub ◌then_write◌ : Writing → (Output → Writing) → Writing
sent out then_write f = f out
refused out then_write f = refused out

-- `none` for the -1 of the source.
abbrev pub result : Writing → Option Output
result (sent out) = some out
result (refused out) = none

-- All that was written, also before a -1.
abbrev pub written : Writing → List ℕ
written (sent out) = out.bytes
written (refused out) = out.bytes

abbrev pub line_end : List ℕ
line_end = b'\r' ∷ b'\n' ∷ []

-- Nothing is written where a string is null.
abbrev pub given {ℓ} : {A : Type ℓ} → Option A → (A → Writing) → Writing
given none f = refused (record { bytes = []; total = 0 })
given (some a) f = f a

-- A line of `count` bytes, where it fits.
unfoldable pub put_line : ℕ → ℕ → List ℕ → Output → Writing
put_line buffer_size count line out =
    if ltb count (sub64 buffer_size out.total)
    then sent (record { bytes = out.bytes ++ line; total = out.total + count })
    else refused out

abbrev pub field_line : List ℕ → List ℕ → List ℕ
field_line name value = name ++ (b':' ∷ b' ' ∷ (value ++ line_end))

unfoldable pub put_fields : List ℕ → ℕ → HeaderList → Output → Writing
put_fields buffer buffer_size [] out = sent out
put_fields buffer buffer_size ((name, value) ∷ fields) out =
    put_line buffer_size (name.count + value.count + 4)
      (field_line (text buffer name) (text buffer value)) out
    then_write λ out1. put_fields buffer buffer_size fields out1

unfoldable pub put_end : ℕ → Output → Writing
put_end buffer_size out = put_line buffer_size 2 line_end out

-- What the header lines and the empty line are.
abbrev pub rendered_fields : Texts → List ℕ
rendered_fields [] = line_end
rendered_fields ((name, value) ∷ fields) = field_line name value ++ rendered_fields fields

-- The whole of a text, with its length, where a byte more would fit.
abbrev pub fitting : ℕ → List ℕ → Option Output
fitting buffer_size whole =
    if ltb (length whole) buffer_size
    then some (record { bytes = whole; total = length whole })
    else none

abbrev pub exact : List ℕ → Output
exact bytes = record { bytes = bytes; total = length bytes }

-- The same of a text that there may not be.
abbrev pub Writes : ℕ → Option (List ℕ) → Writing → Type 0
Writes buffer_size whole x =
    (result x ≡ (whole >>= fitting buffer_size)) × (length (written x) ≤ buffer_size)

-- A line behind what was written, where a byte more would fit.
abbrev offered : ℕ → List ℕ → List ℕ → Writing
offered buffer_size bytes line =
    if ltb (length (bytes ++ line)) buffer_size
    then sent (exact (bytes ++ line))
    else refused (exact bytes)

-- The text as `fitting` has it, and nothing past the end of the buffer.
abbrev pub Fitted : ℕ → List ℕ → Writing → Type 0
Fitted buffer_size whole x =
    (result x ≡ fitting buffer_size whole) × (length (written x) ≤ buffer_size)

pub length-text_in :
    (buf : List ℕ) (off : ℕ) (s : HeaderString)
    → off ≤ length buf
    → Before off s
    → length (text buf s) ≡ s.count
length-text_in buf off s o h =
    omega (arith, length-take s.count (drop s.start buf), length-drop s.start buf)

length-field_line :
    (name value : List ℕ) → length (field_line name value) ≡ length name + length value + 4
length-field_line name value =
    omega
      (arith, length-append name (b':' ∷ b' ' ∷ (value ++ line_end)), length-append value line_end)

then_write_assoc :
    (x : Writing) (f g : Output → Writing)
    → (x then_write λ out. f out then_write g) ≡ (x then_write f then_write g)
then_write_assoc (sent out) f g = refl
then_write_assoc (refused out) f g = refl

module _ (buffer_size : ℕ) (small : buffer_size < 2 ^ 62) where
  put_line-offered :
      (count : ℕ) (line bytes : List ℕ)
      → length line ≡ count
      → length bytes ≤ buffer_size
      → put_line buffer_size count line (exact bytes) ≡ offered buffer_size bytes line
  unfolding put_line
  put_line-offered count line bytes c h =
      let e = length-append bytes line in
      let r : sub64 buffer_size (length bytes) ≡ buffer_size - length bytes = omega arith in
      elim (Bool-cases (ltb count (buffer_size - length bytes))) [
        | inl g ↦
            let q : ltb (length (bytes ++ line)) buffer_size ≡ true = ground arith in
            let t : length bytes + count ≡ length (bytes ++ line) = omega arith in
            rw (r, g, q, t) refl
        | inr g ↦
            let q : ltb (length (bytes ++ line)) buffer_size ≡ false = ground arith in
            rw (r, g, q) refl
      ]

  too_long :
      (a b : List ℕ) → ltb (length a) buffer_size ≡ false → none ≡ fitting buffer_size (a ++ b)
  too_long a b h =
      let e = length-append a b in
      let q : ltb (length (a ++ b)) buffer_size ≡ false = ground arith in rw q refl

  -- What follows a line is written behind it, or it is the end.
  line_then :
      (count : ℕ) (line bytes rest : List ℕ) (f : Output → Writing)
      → length line ≡ count
      → length bytes ≤ buffer_size
      → (length (bytes ++ line) ≤ buffer_size
          → Fitted buffer_size ((bytes ++ line) ++ rest) (f (exact (bytes ++ line))))
      → Fitted buffer_size
          (bytes ++ (line ++ rest))
          (put_line buffer_size count line (exact bytes) then_write f)
  line_then count line bytes rest f c h k =
      subst
        (λ (l : List ℕ).
          Fitted buffer_size l (put_line buffer_size count line (exact bytes) then_write f))
        (append_assoc bytes line rest)
        (elim (Bool-cases (ltb (length (bytes ++ line)) buffer_size)) [
          | inl g ↦
              let room : length (bytes ++ line) ≤ buffer_size = ground arith in
              rw (put_line-offered count line bytes c h, g) (k room)
          | inr g ↦
              rw (put_line-offered count line bytes c h, g) (too_long (bytes ++ line) rest g, h)
        ])

  put_end-Fitted :
      (bytes : List ℕ)
      → length bytes ≤ buffer_size
      → Fitted buffer_size (bytes ++ line_end) (put_end buffer_size (exact bytes))
  unfolding put_end
  put_end-Fitted bytes h = elim (Bool-cases (ltb (length (bytes ++ line_end)) buffer_size)) [
    | inl g ↦ rw (put_line-offered 2 line_end bytes refl h, g) (refl, ground arith)
    | inr g ↦ rw (put_line-offered 2 line_end bytes refl h, g) (refl, h)
  ]

  put_fields-Fitted :
      (buf : List ℕ) (off : ℕ) (fields : HeaderList) (bytes : List ℕ)
      → off ≤ length buf
      → Within off fields
      → length bytes ≤ buffer_size
      → Fitted buffer_size
          (bytes ++ rendered_fields (texts buf fields))
          (put_fields buf buffer_size fields (exact bytes) then_write put_end buffer_size)
  unfolding put_fields
  put_fields-Fitted buf off [] bytes o w h = put_end-Fitted bytes h
  put_fields-Fitted buf off ((name, value) ∷ fields) bytes o (n, v, w) h =
      let line : List ℕ = field_line (text buf name) (text buf value) in
      let count : length line ≡ name.count + value.count + 4 = omega (
        arith,
        length-field_line (text buf name) (text buf value),
        length-text_in buf off name o n,
        length-text_in buf off value o v,
      ) in
      subst (Fitted buffer_size (bytes ++ (line ++ rendered_fields (texts buf fields))))
        (then_write_assoc (put_line buffer_size (name.count + value.count + 4) line (exact bytes)) _
          _)
        (line_then (name.count + value.count + 4) line bytes (rendered_fields (texts buf fields))
          (λ out. put_fields buf buffer_size fields out then_write put_end buffer_size) count h
          (λ room. put_fields-Fitted buf off fields (bytes ++ line) o w room))

  -- A first line, then the fields and the empty line.
  pub put_lines-Fitted :
      (buf : List ℕ) (off count : ℕ) (line : List ℕ) (fields : HeaderList)
      → length line ≡ count
      → off ≤ length buf
      → Within off fields
      → Fitted buffer_size (line ++ rendered_fields (texts buf fields)) (
          put_line buffer_size count line (exact []) then_write λ out.
          put_fields buf buffer_size fields out then_write put_end buffer_size)
  put_lines-Fitted buf off count line fields c o w =
      line_then count line [] (rendered_fields (texts buf fields))
        (λ out. put_fields buf buffer_size fields out then_write put_end buffer_size) c
        (omega arith) (λ room. put_fields-Fitted buf off fields line o w room)
