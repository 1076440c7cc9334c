-- ===== src/Io/Ring/Faults.antt =====
-- Where `io_ring_buffer` leaves its buffers: short reads and writes, and a ring that is full.
use latypus.Io.{Reader, IsReader}
use latypus.Io.Memory.{load-some, load-none, store-none, length-load}
use latypus.Io.Ring.{Ring, size, read, write, buffer_read, bytes_writable}
use latypus.Io.Ring.Inv.{IsRing, used, read_offset_lem, write_offset_lem, bytes_readable-used}
use latypus.Io.Ring.Transfer.{run_in, offset_out, ne_zero, buffer_read_some, stored}
use latypus.Common.{
  ℕ, ◌+◌, ◌-◌, ◌%◌, ◌≤◌, ◌<◌, min, ◌≡◌, List, none, some, arith, length, take, drop,
}

module _ {r : Ring} (v : IsRing r) (buf : List ℕ) (len : ℕ) (asked : 0 < len) where
  -- A `write` of at least one byte to a valid ring that counts room for it, from an object that is
  -- shorter than the way from the write offset to the end of the buffer, reads past the end of that
  -- object, whatever the length asked for.
  pub write_overreads :
      0 < bytes_writable r → length buf < size r - r.back % size r → write r buf len ≡ none
  unfolding write
  write_overreads space short = rw (
    write_offset_lem v,
    ne_zero (min len (bytes_writable r)) (omega arith),
    load-none buf 0 (size r - r.back % size r) (omega arith),
  )

  -- A `read` of at least one byte from a valid ring that holds bytes, into an object that is shorter
  -- than the way from the read offset to the end of the buffer, writes past the end of that object,
  -- whatever the length asked for.
  pub read_overruns : 0 < used r → length buf < size r - r.front % size r → read r buf len ≡ none
  unfolding read
  read_overruns some_held short = rw (
    read_offset_lem v,
    bytes_readable-used v,
    ne_zero (min len (used r)) (omega arith),
    load-some r.buffer (r.front % size r) (size r - r.front % size r) (omega (arith, offset_out v)),
    store-none buf 0 (take (size r - r.front % size r) (drop (r.front % size r) r.buffer)) (
        omega (
          arith,
          length-load r.buffer (r.front % size r) (size r - r.front % size r)
              (omega (arith, offset_out v)),
        )),
  )

-- When a full valid ring reads, and its reader, which keeps its contract, gives any bytes, `back`
-- passes `front` and the ring is not valid any more.
pub buffer_read_overflows :
    {r : Ring} (reader : Reader)
    → IsRing r
    → IsReader reader
    → r.front ≡ r.back
    → 0 < length (reader (run_in r)).0
    → (r' : Ring) × (buffer_read r reader ≡ some (r', (reader (run_in r)).1))
      × (r'.front < r'.back)
      × (¬ IsRing r')
buffer_read_overflows {r} reader v honest full more =
    let asked : 0 < run_in r = omega (arith, honest.fits (run_in r)) in
    let run : length (reader (run_in r)).0 ≤ size r - r.back % size r =
      omega (arith, honest.fits (run_in r)) in
    let count : (reader (run_in r)).1.size ≡ length (reader (run_in r)).0 =
      honest.counted (run_in r) in
    (
      record r {
        buffer = stored v (reader (run_in r)).0;
        back = r.back + (reader (run_in r)).1.size;
      },
      buffer_read_some v reader asked run,
      omega arith,
      λ w. omega (arith, w.held),
    )
