-- ===== src/Io/Ring/Drain.antt =====
-- A ring buffer is emptied by writes that make progress, as a connection is polled until its response
-- is sent.
use latypus.Common.{
  ℕ, zero, suc, ◌≤◌, ◌<◌, ◌≡◌, refl, ◌∙◌, Option, none, some, List, arith, length, take,
  length-take, Bool-cases, true, inl, inr, ◌==◌, min,
}
use latypus.Io.{of_size, Writer, IsWriter, ◌>>=◌, sub64}
use latypus.Io.Ring.{Ring, size, buffer_write, bytes_readable, read_offset}
use latypus.Io.Ring.Inv.{IsRing, used, contents, length-from_pos, bytes_readable-used}
use latypus.Io.Ring.Transfer.{run_out, buffer_write-some, drain-IsRing, offset_out}

-- A writer takes something of what it is given.
abbrev pub Progresses : Writer → Type 0
Progresses writer = (bytes : List ℕ) → 0 < length bytes → 0 < (writer bytes).size

-- So many writes, the last one first in the count.
abbrev pub write_events : ℕ → (ℕ → Writer) → Ring → Option Ring
write_events zero writers r = some r
write_events (suc n) writers r = do
  (r1, result) ← buffer_write r (writers n)
  write_events n writers r1

abbrev pub Emptied : Option Ring → Type 0
Emptied none = ⊥
Emptied (some r) = IsRing r × (bytes_readable r ≡ 0)

buffer_write_empty :
    {r : Ring} (w : Writer) → IsRing r → used r ≡ 0 → buffer_write r w ≡ some (r, of_size 0)
unfolding buffer_write
buffer_write_empty {r} w v e =
    let z : (min (sub64 (size r) (read_offset r)) (bytes_readable r) == 0) ≡ true =
      ground (arith, bytes_readable-used v) in
    rw z refl

-- As many writes as a valid ring holds bytes, or more, empty it, whatever part of what it is given
-- each writer takes, if it takes at least one byte and no more than it is given: the ring stays valid
-- and nothing is readable any more, and no write reads outside of the buffer.
pub write_events-Emptied :
    (n : ℕ) (writers : ℕ → Writer) {r : Ring}
    → IsRing r
    → ((k : ℕ) → IsWriter (writers k))
    → ((k : ℕ) → Progresses (writers k))
    → used r ≤ n
    → Emptied (write_events n writers r)
write_events-Emptied zero writers v honest some_more h = (v, bytes_readable-used v ∙ omega arith)
write_events-Emptied (suc n) writers {r} v honest some_more h = elim (Bool-cases (used r == 0)) [
  | inl e ↦
      let z : used r ≡ 0 = ground arith in
      rw (buffer_write_empty (writers n) v z)
        (write_events-Emptied n writers v honest some_more (omega arith))
  | inr e ↦
      let pos : 0 < used r = ground arith in
      let given : List ℕ = take (run_out r) (contents r) in
      let k : ℕ = (writers n given).size in
      let count : length given ≡ run_out r =
        omega (
          arith,
          length-take (run_out r) (contents r),
          length-from_pos r.buffer r.front (used r),
        ) in
      let some_given : 0 < length given = omega (arith, offset_out v) in
      let taken : k ≤ used r = omega (arith, honest n given) in
      let progress : 0 < k = some_more n given some_given in
      rw (buffer_write-some v (writers n) pos)
        (write_events-Emptied n writers (drain-IsRing v k taken) honest some_more (omega arith))
]
