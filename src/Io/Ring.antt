-- ===== src/Io/Ring.antt =====
-- `io_ring_buffer` of src/io.h and src/io.cc. The counters are `ssize_t`: the model takes them as
-- natural numbers, which holds as long as fewer than 2 ^ 63 bytes pass through a buffer between
-- resets.
pub mod Inv
mod Slices
pub mod Transfer
pub mod Drain
pub mod Faults
mod Tests
use Prim.Native.Nat.{bit_and}
use latypus.Bits.{roundpow2}
use latypus.Common.{
  ℕ, ◌+◌, ◌-◌, ◌%◌, ◌^◌, min, Option, none, some, List, [], ◌++◌, ltb, leb, ◌==◌, if◌then◌else◌,
  length, take, drop, replicate,
}
use latypus.Io.{IoResult, of_size, Reader, Writer, sub64, load, store, ◌>>=◌}

pub record Ring : Type 0 where
  pub buffer : List ℕ
  pub back : ℕ
  pub front : ℕ
  pub mask : ℕ

abbrev pub size : Ring → ℕ
size r = length r.buffer

-- `std::vector::resize`
abbrev pub resize_vector : List ℕ → ℕ → List ℕ
resize_vector xs n = take n xs ++ replicate (n - length xs) 0

unfoldable pub resize : Ring → ℕ → Option Ring
resize r n = do
  buffer_size ← roundpow2 64 n
  some (record {
    buffer = resize_vector r.buffer buffer_size;
    back = 0;
    front = buffer_size;
    mask = buffer_size - 1;
  })

unfoldable pub clear : Ring → Ring
clear r = record r { buffer = replicate (size r) 0; back = 0; front = size r }

unfoldable pub reset : Ring → Ring
reset r = record r { back = 0; front = size r }

-- The argument is the bytes at `src`, also where they overlap the buffer. `none`: the assertion.
unfoldable pub set : Ring → List ℕ → Option Ring
set r src = do
  buffer ← store r.buffer 0 src
  some (record r { buffer = buffer; back = length src; front = size r })

unfoldable pub bytes_readable : Ring → ℕ
bytes_readable r =
    if ltb r.front r.back then r.back - r.front else (sub64 (size r) r.front + r.back) % 2 ^ 64

unfoldable pub bytes_writable : Ring → ℕ
bytes_writable r =
    if ltb r.front r.back then sub64 (sub64 (size r) r.back) r.front else r.front + r.back

unfoldable pub read_offset : Ring → ℕ
read_offset r = bit_and r.front r.mask

unfoldable pub write_offset : Ring → ℕ
write_offset r = bit_and r.back r.mask

-- `read(buf, len)`, with the object `buf` that it fills: the object, the ring, the result.
unfoldable pub read : Ring → List ℕ → ℕ → Option (List ℕ × Ring × IoResult)
read r buf len =
    let off = read_offset r in
    let bytes_to_read = min len (bytes_readable r) in
    let len1 = size r - off in
    if bytes_to_read == 0 then some (buf, r, of_size 0) else do
      run ← load r.buffer off len1
      buf1 ← store buf 0 run
      rest ← load r.buffer 0 (bytes_to_read - len1)
      buf2 ← (if ltb len1 bytes_to_read then store buf1 len1 rest else some buf1)
      some (buf2, record r { front = r.front + bytes_to_read }, of_size bytes_to_read)

-- `write(buf, len)`, with the object `buf` that it reads from.
unfoldable pub write : Ring → List ℕ → ℕ → Option (Ring × IoResult)
write r buf len =
    let off = write_offset r in
    let bytes_to_write = min len (bytes_writable r) in
    let len1 = size r - off in
    if bytes_to_write == 0 then some (r, of_size 0) else do
      run ← load buf 0 len1
      buffer1 ← store r.buffer off run
      rest ← (if ltb len1 bytes_to_write then load buf len1 (bytes_to_write - len1) else some [])
      buffer2 ← store buffer1 0 rest
      some (record r { buffer = buffer2; back = r.back + bytes_to_write }, of_size bytes_to_write)

-- What the reader stores lands at the write offset. `none`: past the end of the buffer.
unfoldable pub buffer_read : Ring → Reader → Option (Ring × IoResult)
buffer_read r reader =
    let off = write_offset r in
    let bytes_to_read = min (sub64 (size r) off) (bytes_writable r) in
    if bytes_to_read == 0
    then some (r, of_size 0)
    else (let (bytes, result) = reader bytes_to_read in
        do
          buffer ← store r.buffer off bytes
          some (record r { buffer = buffer; back = r.back + result.size }, result))

-- The writer is given the bytes at the read offset. `none`: past the end of the buffer.
unfoldable pub buffer_write : Ring → Writer → Option (Ring × IoResult)
buffer_write r writer =
    let off = read_offset r in
    let bytes_to_write = min (sub64 (size r) off) (bytes_readable r) in
    if bytes_to_write == 0 then some (r, of_size 0) else do
      bytes ← load r.buffer off bytes_to_write
      let result = writer bytes
      some (record r { front = r.front + result.size }, result)
