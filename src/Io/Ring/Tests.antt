-- ===== src/Io/Ring/Tests.antt =====
-- The ring at a buffer of four bytes: runs of the operations, and the theorems at concrete inputs.
use latypus.Io.{Reader, IsReader, Writer, IsWriter, of_size}
use latypus.Bits.{roundpow2}
use latypus.Io.Ring.{Ring, resize, write, buffer_read, buffer_write, bytes_writable, write_offset}
use latypus.Io.Ring.Inv.{IsRing, contents}
use latypus.Io.Ring.Transfer.{buffer_write_drains, buffer_read_appends}
use latypus.Io.Ring.Drain.{Progresses, Emptied, write_events, write_events-Emptied}
use latypus.Common.{ℕ, min, ◌≡◌, refl, List, [], ◌∷◌, some, arith, length, take, length-take}

-- Positions 4 and 5 of the stream are held, at indices 0 and 1.
abbrev holding : Ring
holding = record { buffer = 7 ∷ 8 ∷ 0 ∷ 0 ∷ []; back = 2; front = 4; mask = 3 }

abbrev text : List ℕ
text = 1 ∷ 2 ∷ 3 ∷ 4 ∷ 5 ∷ 6 ∷ []

-- A reader over a text, and a writer that takes one byte.
abbrev text_reader : ℕ → Reader
text_reader k n = (take (min n k) text, of_size (length (take (min n k) text)))

abbrev one_byte : Writer
one_byte bytes = of_size (min 1 (length bytes))

text_reader-IsReader : (k : ℕ) → IsReader (text_reader k)
text_reader-IsReader k = record {
  fits = λ n. omega (arith, length-take (min n k) text);
  counted = λ n. refl;
}

one_byte-IsWriter : IsWriter one_byte
one_byte-IsWriter bytes = omega arith

holding-IsRing : IsRing holding
holding-IsRing = record {
  log = 2;
  is_pow = refl;
  masks = refl;
  held = omega arith;
  fits = omega arith;
  small = omega arith;
}

contents-holding : contents holding ≡ 7 ∷ 8 ∷ []
contents-holding = refl

-- A resized ring has all of its room; a second resize rounds up.
resized :
    resize (record { buffer = []; back = 0; front = 0; mask = 0 }) 3
    ≡ some (record { buffer = 0 ∷ 0 ∷ 0 ∷ 0 ∷ []; back = 0; front = 4; mask = 3 })
unfolding resize roundpow2
resized = refl

-- Four bytes written at once, and read back.
whole_buffer :
    write (record holding { back = 0 }) (1 ∷ 2 ∷ 3 ∷ 4 ∷ []) 4
    ≡ some (record { buffer = 1 ∷ 2 ∷ 3 ∷ 4 ∷ []; back = 4; front = 4; mask = 3 }, of_size 4)
unfolding write bytes_writable write_offset
whole_buffer = refl

buffer_write_drains_example :
    (r' : Ring) × (buffer_write holding one_byte ≡ some (r', of_size 1))
    × (contents r' ≡ 8 ∷ [])
    × IsRing r'
buffer_write_drains_example =
    buffer_write_drains one_byte holding-IsRing one_byte-IsWriter (omega arith)

one_byte-Progresses : Progresses one_byte
one_byte-Progresses bytes h = omega arith

write_events-Emptied_example : Emptied (write_events 2 (λ _. one_byte) holding)
write_events-Emptied_example =
    write_events-Emptied 2 (λ _. one_byte) holding-IsRing (λ _. one_byte-IsWriter)
      (λ _. one_byte-Progresses) (omega arith)

buffer_read_appends_example :
    (r' : Ring) × (buffer_read holding (text_reader 2) ≡ some (r', of_size 2))
    × (contents r' ≡ 7 ∷ 8 ∷ 1 ∷ 2 ∷ [])
    × IsRing r'
unfolding bytes_writable
buffer_read_appends_example =
    buffer_read_appends (text_reader 2) holding-IsRing (text_reader-IsReader 2) (omega arith)
      (omega arith) (omega arith)
