-- ===== src/Io/Buffer.antt =====
-- `io_buffer`, `io_buffered_reader` and `io_buffered_writer` of src/io.h and src/io.cc.
mod Slices
pub mod Laws
pub mod Stuck
use latypus.Bits.{roundpow2}
use latypus.Common.{
  ℕ, zero, suc, ◌+◌, ◌-◌, Bool, false, Option, none, some, List, ◌++◌, ltb, ◌==◌, if◌then◌else◌,
  length, take, drop, replicate,
}
use latypus.Io.{IoResult, of_size, has_error, Reader, Writer, load, store, ◌>>=◌}

pub record Buffer : Type 0 where
  pub buffer : List ℕ
  pub buffer_length : ℕ
  pub buffer_offset : ℕ

abbrev pub size : Buffer → ℕ
size b = length b.buffer

unfoldable pub resize : Buffer → ℕ → Option Buffer
resize b n = do
  buffer_size ← roundpow2 64 n
  some (record b { buffer = take buffer_size b.buffer ++ replicate (buffer_size - size b) 0 })

unfoldable pub clear : Buffer → Buffer
clear b = record { buffer = replicate (size b) 0; buffer_length = 0; buffer_offset = 0 }

unfoldable pub reset : Buffer → Buffer
reset b = record b { buffer_length = 0; buffer_offset = 0 }

-- The argument is the bytes at `src`, also where they overlap the buffer. `none`: the assertion.
unfoldable pub set : Buffer → List ℕ → Option Buffer
set b src = do
  buffer ← store b.buffer 0 src
  some (record { buffer = buffer; buffer_length = length src; buffer_offset = 0 })

-- `bytes_readable` and `bytes_writable` as the `ssize_t` that the callers keep: none if negative.
unfoldable pub bytes_readable : Buffer → Option ℕ
bytes_readable b =
    if ltb b.buffer_length b.buffer_offset then none else some (b.buffer_length - b.buffer_offset)

unfoldable pub bytes_writable : Buffer → Option ℕ
bytes_writable b = if ltb (size b) b.buffer_length then none else some (size b - b.buffer_length)

abbrev pub lesser : ℕ → ℕ → ℕ
lesser len max = if ltb len max then len else max

-- The object `buf` after the read, the buffer, and the result.
unfoldable pub read : Buffer → List ℕ → ℕ → Option (List ℕ × Buffer × IoResult)
read b buf len = elim (bytes_readable b) [
  | none ↦ some (buf, b, of_size 0)
  | some read_max ↦
      let n = lesser len read_max in
      if len == 0 then some (buf, b, of_size 0) else do
        bytes ← load b.buffer b.buffer_offset n
        buf' ← store buf 0 bytes
        some (buf', record b { buffer_offset = b.buffer_offset + n }, of_size n)
]

-- The bytes go to the read position, `buffer_offset`.
unfoldable pub write : Buffer → List ℕ → ℕ → Option (Buffer × IoResult)
write b buf len = elim (bytes_writable b) [
  | none ↦ some (b, of_size 0)
  | some write_max ↦
      let n = lesser len write_max in
      if len == 0 then some (b, of_size 0) else do
        bytes ← load buf 0 n
        buffer ← store b.buffer b.buffer_offset bytes
        some (record b { buffer = buffer; buffer_length = b.buffer_length + n }, of_size n)
]

buffer_read_some : Buffer → Reader → ℕ → Option (Buffer × IoResult)
buffer_read_some b reader n =
    let (bytes, result) = reader n in
    do
      buffer ← store b.buffer b.buffer_offset bytes
      some (record b { buffer = buffer; buffer_length = b.buffer_length + result.size }, result)

unfoldable pub buffer_read : Buffer → Reader → Option (Buffer × IoResult)
unfolding buffer_read_some
buffer_read b reader = elim (bytes_writable b) [
  | none ↦ some (b, of_size 0)
  | some n ↦ if n == 0 then some (b, of_size 0) else buffer_read_some b reader n
]

unfoldable pub buffer_write : Buffer → Writer → Option (Buffer × IoResult)
buffer_write b writer = elim (bytes_readable b) [
  | none ↦ some (b, of_size 0)
  | some n ↦ if n == 0 then some (b, of_size 0) else do
    bytes ← load b.buffer b.buffer_offset n
    let result = writer bytes
    some (record b { buffer_offset = b.buffer_offset + result.size }, result)
]

-- `io_buffered_reader::read`
unfoldable pub buffered_read : Buffer → Reader → List ℕ → ℕ → Option (List ℕ × Buffer × IoResult)
buffered_read b reader buf len = elim (bytes_readable b) [
  | some zero ↦ do
    filled ← buffer_read b reader
    if has_error filled.1 then some (buf, filled.0, filled.1) else read filled.0 buf len
  | _ ↦ read b buf len
]

abbrev is_full : Buffer → Option ℕ → Bool
is_full b none = false
is_full b (some n) = n == size b

-- The second half of `io_buffered_writer::write`: a full buffer goes to the writer.
unfoldable pub write_through : Buffer → IoResult → Writer → Option (Buffer × IoResult)
write_through b result writer =
    if is_full b (bytes_readable b)
    then (do
      sent ← buffer_write b writer
      if has_error sent.1 then some sent else some (sent.0, result))
    else some (b, result)

-- `io_buffered_writer::write`
unfoldable pub buffered_write : Buffer → Writer → List ℕ → ℕ → Option (Buffer × IoResult)
buffered_write b writer buf len = do
  put ← write b buf len
  if has_error put.1 then some put else write_through put.0 put.1 writer

-- `io_buffered_writer::flush`
unfoldable pub flush : Buffer → Writer → Option (Buffer × IoResult)
flush b writer = elim (bytes_readable b) [
  | some zero ↦ some (b, of_size 0)
  | _ ↦ do
    sent ← buffer_write b writer
    if has_error sent.1 then some sent else some (sent.0, of_size 0)
]
