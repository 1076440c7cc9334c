-- ===== src/Io/Buffer/Laws.antt =====
-- What the buffer holds after each transfer.
use latypus.Io.{of_size, Reader, IsReader}
use latypus.Io.Memory.{spliced, store-spliced, length-spliced, load-some, length-load}
use latypus.Io.Buffer.{
  Buffer, size, read, write, buffer_read, buffered_read, bytes_readable, bytes_writable,
}
use latypus.Io.Ring.Transfer.{ne_zero}
use latypus.Common.{
  ℕ, zero, ◌+◌, ◌-◌, ◌≤◌, ◌<◌, ◌≡◌, sym, ap, ap₂, ◌∙◌, List, some, arith, length, take, drop, min,
  take-append_length,
}
use latypus.Io.Buffer.Slices.{
  take_all, min_left, lesser-min, take-take, drop-spliced, drop-take-drop,
}

-- No more is held than fits, and no more has been read than is held.
pub record IsBuffer (b : Buffer) : Type 0 where
  pub within : b.buffer_length ≤ size b
  pub read_within : b.buffer_offset ≤ b.buffer_length

abbrev pub held : Buffer → List ℕ
held b = take (b.buffer_length - b.buffer_offset) (drop b.buffer_offset b.buffer)

pub bytes_readable_lem :
    {b : Buffer} → IsBuffer b → bytes_readable b ≡ some (b.buffer_length - b.buffer_offset)
unfolding bytes_readable
bytes_readable_lem v = ground arith

pub bytes_writable_lem :
    {b : Buffer} → IsBuffer b → bytes_writable b ≡ some (size b - b.buffer_length)
unfolding bytes_writable
bytes_writable_lem v = ground arith

-- The buffer with `bytes` stored at the read position and counted as held.
abbrev pub put : Buffer → List ℕ → Buffer
put b bytes = record b {
  buffer = spliced b.buffer b.buffer_offset bytes;
  buffer_length = b.buffer_length + length bytes;
}

-- `write` puts a source that fits at the read position, and counts it as held.
pub write-some :
    {b : Buffer} (bytes : List ℕ)
    → IsBuffer b
    → 0 < length bytes
    → length bytes ≤ size b - b.buffer_length
    → write b bytes (length bytes) ≡ some (put b bytes, of_size (length bytes))
unfolding write
write-some {b} bytes v pos fit =
    rw (bytes_writable_lem v, write)
      (rw (
        lesser-min (length bytes) (size b - b.buffer_length),
        min_left (length bytes) (size b - b.buffer_length) fit,
        ne_zero (length bytes) pos,
        load-some bytes 0 (length bytes) (omega arith),
        take_all bytes,
        store-spliced b.buffer b.buffer_offset bytes (omega (arith, v.within, v.read_within)),
      ))

write-IsBuffer :
    {b : Buffer} (bytes : List ℕ)
    → IsBuffer b
    → length bytes ≤ size b - b.buffer_length
    → IsBuffer (put b bytes)
write-IsBuffer {b} bytes v fit =
    let e =
      length-spliced b.buffer b.buffer_offset bytes (omega (arith, v.within, v.read_within)) in
    record { within = omega (arith, e, v.within); read_within = omega (arith, v.read_within) }

-- The same for `read`: the object is filled from its start, and the read position moves on.
pub read-some :
    {b : Buffer} (buf : List ℕ) (len : ℕ)
    → IsBuffer b
    → 0 < len
    → let n = min len (b.buffer_length - b.buffer_offset) in
      n ≤ length buf
      → read b buf len
        ≡ some (
          spliced buf 0 (take n (held b)),
          record b { buffer_offset = b.buffer_offset + n },
          of_size n,
        )
unfolding read
read-some {b} buf len v pos fit =
    let n = min len (b.buffer_length - b.buffer_offset) in
    rw (bytes_readable_lem v, read)
      (rw (
        lesser-min len (b.buffer_length - b.buffer_offset),
        ne_zero len pos,
        load-some b.buffer b.buffer_offset n (omega (arith, v.within, v.read_within)),
        take-take n (b.buffer_length - b.buffer_offset) (drop b.buffer_offset b.buffer)
            (omega arith),
        store-spliced buf 0 (take n (drop b.buffer_offset b.buffer)) (
            omega (
              arith,
              length-load b.buffer b.buffer_offset n (omega (arith, v.within, v.read_within)),
            )),
      ))

pub size-put :
    {b : Buffer} (bytes : List ℕ)
    → IsBuffer b
    → length bytes ≤ size b - b.buffer_length
    → size (put b bytes) ≡ size b
size-put {b} bytes v fit =
    length-spliced b.buffer b.buffer_offset bytes (omega (arith, v.within, v.read_within))

pub length-held : {b : Buffer} → IsBuffer b → length (held b) ≡ b.buffer_length - b.buffer_offset
length-held {b} v =
    length-load b.buffer b.buffer_offset (b.buffer_length - b.buffer_offset)
      (omega (arith, v.within, v.read_within))

-- What was put last comes out first.
take-held-put :
    {b : Buffer} (bytes : List ℕ) → IsBuffer b → take (length bytes) (held (put b bytes)) ≡ bytes
take-held-put {b} bytes v =
    take-take (length bytes) (b.buffer_length + length bytes - b.buffer_offset)
      (drop b.buffer_offset (spliced b.buffer b.buffer_offset bytes)) (omega (arith, v.read_within))
    ∙ ap (take (length bytes))
        (drop-spliced b.buffer b.buffer_offset bytes (omega (arith, v.within, v.read_within)))
    ∙ take-append_length bytes (drop (b.buffer_offset + length bytes) b.buffer)

-- An empty buffer holds what is put, and no more.
held-put :
    {b : Buffer} (bytes : List ℕ)
    → IsBuffer b
    → b.buffer_offset ≡ b.buffer_length
    → held (put b bytes) ≡ bytes
held-put {b} bytes v empty =
    ap (λ k. take k (drop b.buffer_offset (put b bytes).buffer)) (omega arith)
    ∙ ap (take (length bytes))
        (drop-spliced b.buffer b.buffer_offset bytes (omega (arith, v.within, v.read_within)))
    ∙ take-append_length bytes (drop (b.buffer_offset + length bytes) b.buffer)

-- Reading on drops from what is held.
held_after :
    (b : Buffer) (n : ℕ)
    → n ≤ b.buffer_length - b.buffer_offset
    → held (record b { buffer_offset = b.buffer_offset + n }) ≡ drop n (held b)
held_after b n h =
    ap₂ (λ k m. take k (drop m b.buffer)) (omega arith) (omega arith)
    ∙ sym (drop-take-drop n b.buffer_offset (b.buffer_length - b.buffer_offset) b.buffer h)

-- A refill of an empty buffer.
pub buffer_read-put :
    {b : Buffer} (reader : Reader)
    → IsBuffer b
    → b.buffer_length < size b
    → IsReader reader
    → let (bytes, result) = reader (size b - b.buffer_length) in
      buffer_read b reader ≡ some (put b bytes, result)
unfolding buffer_read
buffer_read-put {b} reader v space honest =
    let n = size b - b.buffer_length in
    rw (bytes_writable_lem v, buffer_read)
      (rw (
        ne_zero n (omega arith),
        store-spliced b.buffer b.buffer_offset (reader n).0
            (omega (arith, honest.fits n, v.within, v.read_within)),
        honest.counted n,
      ))

-- Two writes to an empty buffer that has room for both, none of no bytes, with no read between them:
-- the second is stored over the first, so the bytes held are as many as were written, but they begin
-- with those written last.
pub write_overwrites :
    {b : Buffer} (xs ys : List ℕ)
    → IsBuffer b
    → b.buffer_offset ≡ b.buffer_length
    → 0 < length xs
    → 0 < length ys
    → length xs + length ys ≤ size b - b.buffer_length
    → (b1 b2 : Buffer) × (write b xs (length xs) ≡ some (b1, of_size (length xs)))
      × (write b1 ys (length ys) ≡ some (b2, of_size (length ys)))
      × (length (held b2) ≡ length xs + length ys)
      × (take (length ys) (held b2) ≡ ys)
write_overwrites {b} xs ys v empty px py fit =
    let v1 = write-IsBuffer xs v (omega arith) in
    let same : size (put b xs) ≡ size b = size-put xs v (omega arith) in
    let fit1 : length ys ≤ size (put b xs) - (put b xs).buffer_length = omega (arith, same) in
    let v2 = write-IsBuffer ys v1 fit1 in
    let count : (put (put b xs) ys).buffer_length - b.buffer_offset ≡ length xs + length ys =
      omega arith in
    (
      put b xs,
      put (put b xs) ys,
      write-some xs v px (omega arith),
      write-some ys v1 py fit1,
      length-held v2 ∙ count,
      take-held-put ys v1,
    )

-- The refilling branch of `io_buffered_reader::read`.
buffered_read_refill :
    {b : Buffer} (reader : Reader) (buf : List ℕ) (len : ℕ)
    → IsBuffer b
    → b.buffer_offset ≡ b.buffer_length
    → b.buffer_length < size b
    → IsReader reader
    → (reader (size b - b.buffer_length)).1.errcode ≡ 0
    → buffered_read b reader buf len ≡ read (put b (reader (size b - b.buffer_length)).0) buf len
unfolding buffered_read
buffered_read_refill {b} reader buf len v empty space honest fine =
    let nothing : b.buffer_length - b.buffer_offset ≡ zero = omega arith in
    rw (bytes_readable_lem v ∙ ap some nothing, buffered_read)
      (rw (buffer_read-put reader v space honest, fine))

-- A buffered reader that finds its buffer empty, with room left, refills it from a reader that keeps
-- its contract and reports no error, and delivers the first bytes of what came to an object with
-- space for them; the rest stays held.
pub buffered_read_delivers :
    {b : Buffer} (reader : Reader) (buf : List ℕ) (len : ℕ)
    → IsBuffer b
    → b.buffer_offset ≡ b.buffer_length
    → b.buffer_length < size b
    → IsReader reader
    → (reader (size b - b.buffer_length)).1.errcode ≡ 0
    → 0 < len
    → min len (length (reader (size b - b.buffer_length)).0) ≤ length buf
    → let bytes = (reader (size b - b.buffer_length)).0 in
      let n = min len (length bytes) in
      (b' : Buffer) × (buffered_read b reader buf len
        ≡ some (spliced buf 0 (take n bytes), b', of_size n))
      × (held b' ≡ drop n bytes)
buffered_read_delivers {b} reader buf len v empty space honest fine pos fit =
    let bytes = (reader (size b - b.buffer_length)).0 in
    let n = min len (length bytes) in
    let room : length bytes ≤ size b - b.buffer_length = honest.fits (size b - b.buffer_length) in
    let v1 = write-IsBuffer bytes v room in
    let all : b.buffer_length + length bytes - b.buffer_offset ≡ length bytes = omega arith in
    (
      record (put b bytes) { buffer_offset = b.buffer_offset + n },
      rw (buffered_read_refill reader buf len v empty space honest fine) (
          read-some buf len v1 pos (rw all fit)
          ∙ ap₂
              (λ k (xs : List ℕ). some (
                spliced buf 0 (take k xs),
                record (put b bytes) { buffer_offset = b.buffer_offset + k },
                of_size k,
              ))
              (ap (min len) all) (held-put bytes v empty)),
      held_after (put b bytes) n (omega arith) ∙ ap (drop n) (held-put bytes v empty),
    )
