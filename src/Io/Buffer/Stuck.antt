-- ===== src/Io/Buffer/Stuck.antt =====
-- Where the buffered reader and writer stop: nothing resets a buffer that has been used up.
use latypus.Io.{of_size, Reader, Writer, store}
use latypus.Io.Memory.{load-some, store-spliced, spliced}
use latypus.Io.Ring.Transfer.{ne_zero}
use latypus.Io.Buffer.{
  Buffer, size, read, write, buffer_read, buffered_read, buffered_write, write_through,
  bytes_readable, bytes_writable, lesser,
}
use latypus.Common.{
  ℕ, zero, suc, ◌+◌, ◌≤◌, ◌<◌, ◌≡◌, ap, ◌∙◌, List, [], ◌++◌, some, arith, length, take, drop, ◌==◌,
  false, take-append-drop,
}

zero_ne : (n : ℕ) → 0 < n → (0 == n) ≡ false
zero_ne n h = ground arith

-- Everything that fits has been stored, and has been read again.
pub record IsSpent (b : Buffer) : Type 0 where
  pub all_stored : b.buffer_length ≡ size b
  pub all_read : b.buffer_offset ≡ b.buffer_length

nothing_left : (b : Buffer) → IsSpent b → bytes_readable b ≡ some zero
unfolding bytes_readable
nothing_left b v = ground arith

no_room : (b : Buffer) → IsSpent b → bytes_writable b ≡ some zero
unfolding bytes_writable
no_room b v = ground arith

buffer_read_spent :
    (b : Buffer) (reader : Reader) → IsSpent b → buffer_read b reader ≡ some (b, of_size 0)
unfolding buffer_read
buffer_read_spent b reader v = rw (no_room b v, buffer_read)

add_zero : (n : ℕ) → n + 0 ≡ n
add_zero n = omega arith

lesser_zero : (n : ℕ) → lesser n 0 ≡ 0
lesser_zero n = ground arith

spliced_nil : (dst : List ℕ) (off : ℕ) → spliced dst off [] ≡ dst
spliced_nil dst off = ap (λ k. take off dst ++ drop k dst) (add_zero off) ∙ take-append-drop off dst

store_nil : (dst : List ℕ) (off : ℕ) → off ≤ length dst → store dst off [] ≡ some dst
store_nil dst off h = store-spliced dst off [] (omega arith) ∙ ap some (spliced_nil dst off)

at_end : (b : Buffer) → IsSpent b → b.buffer_offset ≤ size b
at_end b v = omega arith

read_spent :
    (b : Buffer) (buf : List ℕ) (len : ℕ) → IsSpent b → read b buf len ≡ some (buf, b, of_size 0)
unfolding read
read_spent b buf zero v = rw (nothing_left b v, read)
read_spent b buf (suc n) v =
    rw (nothing_left b v, read)
      (rw (
        ne_zero (suc n) (omega arith),
        lesser_zero (suc n),
        load-some b.buffer b.buffer_offset 0 (omega (arith, at_end b v)),
        store_nil buf 0 (omega arith),
        add_zero b.buffer_offset,
      ))

write_spent :
    (b : Buffer) (buf : List ℕ) (len : ℕ) → IsSpent b → write b buf len ≡ some (b, of_size 0)
unfolding write
write_spent b buf zero v = rw (no_room b v, write)
write_spent b buf (suc n) v =
    rw (no_room b v, write)
      (rw (
        ne_zero (suc n) (omega arith),
        lesser_zero (suc n),
        load-some buf 0 0 (omega arith),
        store_nil b.buffer b.buffer_offset (at_end b v),
        add_zero b.buffer_length,
      ))

-- A buffered reader whose buffer is spent, that is filled to its end and read to its end, returns 0
-- bytes, whatever its reader would still give, and is left as it was.
pub buffered_read_spent :
    (b : Buffer) (reader : Reader) (buf : List ℕ) (len : ℕ)
    → IsSpent b
    → buffered_read b reader buf len ≡ some (buf, b, of_size 0)
unfolding buffered_read
buffered_read_spent b reader buf len v =
    rw (nothing_left b v, buffered_read)
      (rw (buffer_read_spent b reader v) (read_spent b buf len v))

-- A buffered writer whose buffer is spent and not of size 0 takes 0 bytes of whatever it is given, and
-- is left as it was.
pub buffered_write_spent :
    (b : Buffer) (writer : Writer) (buf : List ℕ) (len : ℕ)
    → IsSpent b
    → 0 < size b
    → buffered_write b writer buf len ≡ some (b, of_size 0)
unfolding buffered_write write_through
buffered_write_spent b writer buf len v pos =
    rw (write_spent b buf len v, nothing_left b v, zero_ne (size b) pos)
