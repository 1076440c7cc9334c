-- ===== src/Io/Ring/Transfer.antt =====
-- `buffer_read` and `buffer_write` against the queue of the bytes held.
use native.Mathlib.Nat.{mod-lt, add-mod_right}
use native.Mathlib.Decide.{dec_lt}
use latypus.Io.{Reader, IsReader, Writer, IsWriter, sub64}
use latypus.Io.Memory.{
  spliced, store-spliced, length-spliced, get_or-spliced_before, get_or-spliced_in,
  get_or-spliced_after, load-some,
}
use latypus.Io.Ring.{Ring, size, buffer_read, buffer_write, bytes_writable}
use latypus.Io.Ring.Inv.{
  IsRing, used, room, from_pos, contents, drop-from_pos, append-from_pos, take-from_pos, size_pos,
  read_offset_lem, write_offset_lem, bytes_readable-used,
}
use latypus.Common.{
  ℕ, ◌+◌, ◌-◌, ◌%◌, ◌^◌, ◌≤◌, ◌<◌, min, ◌≡◌, refl, sym, ap, ap₂, ◌∙◌, List, ◌++◌, some, arith, ◌==◌,
  false, length, get_or, take, drop, length-take,
}
use latypus.Io.Ring.Slices.{step_in, step_round, take-drop-from_pos, from_pos-keep, from_pos-list}

-- How many bytes one call moves: no further than the end of the buffer.
abbrev pub run_out : Ring → ℕ
run_out r = min (size r - r.front % size r) (used r)

abbrev pub run_in : Ring → ℕ
run_in r = min (size r - r.back % size r) (bytes_writable r)

sub64-le : (a b : ℕ) → b ≤ a → a < 2 ^ 62 → sub64 a b ≡ a - b
sub64-le a b h k = omega arith

pub ne_zero : (n : ℕ) → 0 < n → (n == 0) ≡ false
ne_zero n h = ground arith

module _ {r : Ring} (v : IsRing r) where
  pub offset_out : r.front % size r < size r
  offset_out = mod-lt r.front (size_pos v)

  pub offset_in : r.back % size r < size r
  offset_in = mod-lt r.back (size_pos v)

  -- What `buffer_write` does, its counts written out.
  pub buffer_write-some :
      (w : Writer)
      → 0 < used r
      → let result = w (take (run_out r) (contents r)) in
        buffer_write r w ≡ some (record r { front = r.front + result.size }, result)
  unfolding buffer_write
  buffer_write-some w pos = rw (
    read_offset_lem v,
    bytes_readable-used v,
    sub64-le (size r) (r.front % size r) (omega (arith, offset_out)) (omega (arith, v.small)),
    ne_zero (run_out r) (omega (arith, offset_out)),
    load-some r.buffer (r.front % size r) (run_out r) (omega (arith, offset_out)),
    take-drop-from_pos r.buffer (run_out r) r.front (r.front % size r) refl
        (omega (arith, offset_out)),
    take-from_pos r.buffer (run_out r) r.front (used r) (omega arith),
  )

  pub drain-IsRing : (k : ℕ) → k ≤ used r → IsRing (record r { front = r.front + k })
  drain-IsRing k h = record {
    log = v.log;
    is_pow = v.is_pow;
    masks = v.masks;
    held = omega (arith, v.held);
    fits = omega (arith, v.fits);
    small = v.small;
  }

  contents-drain :
      (k : ℕ) → k ≤ used r → contents (record r { front = r.front + k }) ≡ drop k (contents r)
  contents-drain k h =
      ap (from_pos r.buffer (r.front + k)) (omega (arith, v.fits))
      ∙ sym (drop-from_pos r.buffer k r.front (used r) h)

  -- The bytes of the buffer once `bytes` have been stored at the write offset.
  abbrev pub stored : List ℕ → List ℕ
  stored bytes = spliced r.buffer (r.back % size r) bytes

  module _ (bytes : List ℕ) (room_in : length bytes ≤ room r)
      (run : length bytes ≤ size r - r.back % size r) where
    fits_in : r.back % size r + length bytes ≤ size r
    fits_in = omega (arith, offset_in)

    -- An index reached by `d` steps from the write offset, past the stored run, is untouched.
    stored_keep :
        (d : ℕ)
        → length bytes ≤ d
        → d < size r
        → get_or (stored bytes) ((r.back + d) % size r) 0
          ≡ get_or r.buffer ((r.back + d) % size r) 0
    stored_keep d low high = elim (dec_lt (r.back % size r + d) (size r)) [
      | yes h ↦ rw (step_in r.back d (size r) h) (
          get_or-spliced_after r.buffer (r.back % size r) bytes fits_in (r.back % size r + d)
            (omega arith))
      | no h ↦
          get_or-spliced_before r.buffer (r.back % size r) bytes fits_in ((r.back + d) % size r)
            (omega (arith, step_round r.back d (size r) high (omega arith)))
    ]

    length-stored : length (stored bytes) ≡ size r
    length-stored = length-spliced r.buffer (r.back % size r) bytes fits_in

    kept : from_pos (stored bytes) r.front (used r) ≡ contents r
    kept = from_pos-keep r.buffer (stored bytes) r.front (used r) length-stored λ i lt.
        let e : r.front + i ≡ r.back + (room r + i) = omega (arith, v.held) in
        rw e (stored_keep (room r + i) (omega arith) (omega (arith, v.held, v.fits)))

    added : from_pos (stored bytes) (r.front + used r) (length bytes) ≡ bytes
    added = from_pos-list (stored bytes) (r.front + used r) bytes λ i lt.
        let e : r.front + used r + i ≡ r.back + i + size r = omega (arith, v.fits) in
        rw
          (
            length-stored,
            e,
            add-mod_right (r.back + i) (size r),
            step_in r.back i (size r) (omega arith),
          )
          (get_or-spliced_in r.buffer (r.back % size r) bytes fits_in i lt)

    contents-store : from_pos (stored bytes) r.front (used r + length bytes) ≡ contents r ++ bytes
    contents-store =
        append-from_pos (stored bytes) r.front (used r) (length bytes) ∙ ap₂ ◌++◌ kept added

  -- What `buffer_read` does, its counts written out.
  pub buffer_read_some :
      (reader : Reader)
      → 0 < run_in r
      → length (reader (run_in r)).0 ≤ size r - r.back % size r
      → let (bytes, result) = reader (run_in r) in
        buffer_read r reader
        ≡ some (record r { buffer = stored bytes; back = r.back + result.size }, result)
  unfolding buffer_read
  buffer_read_some reader pos fit = rw (
    write_offset_lem v,
    sub64-le (size r) (r.back % size r) (omega (arith, offset_in)) (omega (arith, v.small)),
    ne_zero (run_in r) pos,
    store-spliced r.buffer (r.back % size r) (reader (run_in r)).0 (omega (arith, offset_in)),
  )

-- `buffer_write` on a valid ring that holds bytes gives the writer the oldest of them, as far as the
-- end of the buffer, and drops from the ring what the writer took, for a writer that takes no more
-- than it is given; the ring stays valid.
pub buffer_write_drains :
    {r : Ring} (w : Writer)
    → IsRing r
    → IsWriter w
    → 0 < used r
    → let result = w (take (run_out r) (contents r)) in
      (r' : Ring) × (buffer_write r w ≡ some (r', result))
      × (contents r' ≡ drop result.size (contents r))
      × IsRing r'
buffer_write_drains {r} w v honest pos =
    let taken : (w (take (run_out r) (contents r))).size ≤ used r =
      omega (arith, honest (take (run_out r) (contents r)), length-take (run_out r) (contents r)) in
    (
      record r { front = r.front + (w (take (run_out r) (contents r))).size },
      buffer_write-some v w pos,
      contents-drain v _ taken,
      drain-IsRing v _ taken,
    )

-- `buffer_read` on a valid ring whose reader is asked for at least one byte appends what the reader
-- stored to the bytes held, and the ring stays valid, as long as the reader keeps its contract and
-- stored no more than the room left, and the counters stay below 2 ^ 62.
pub buffer_read_appends :
    {r : Ring} (reader : Reader)
    → IsRing r
    → IsReader reader
    → 0 < run_in r
    → length (reader (run_in r)).0 ≤ room r
    → r.back + size r + size r < 2 ^ 62
    → (r' : Ring) × (buffer_read r reader ≡ some (r', (reader (run_in r)).1))
      × (contents r' ≡ contents r ++ (reader (run_in r)).0)
      × IsRing r'
buffer_read_appends {r} reader v honest pos room_in small =
    let bytes = (reader (run_in r)).0 in
    let run : length bytes ≤ size r - r.back % size r = omega (arith, honest.fits (run_in r)) in
    let count : (reader (run_in r)).1.size ≡ length bytes = honest.counted (run_in r) in
    let size_kept : length (stored v bytes) ≡ size r = length-stored v bytes room_in run in
    (
      record r { buffer = stored v bytes; back = r.back + (reader (run_in r)).1.size },
      buffer_read_some v reader pos run,
      ap (from_pos (stored v bytes) r.front) (omega (arith, v.fits))
          ∙ contents-store v bytes room_in run,
      record {
        log = v.log;
        is_pow = size_kept ∙ v.is_pow;
        masks = v.masks;
        held = omega (arith, v.held);
        fits = omega (arith, v.fits);
        small = omega (arith, v.small);
      },
    )
