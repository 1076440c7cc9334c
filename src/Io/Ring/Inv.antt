-- ===== src/Io/Ring/Inv.antt =====
-- The representation invariant of the ring, the bytes that it holds, and its counts.
use Prim.Native.Nat.{bit_and}
use latypus.Bits.And.{bit_and-mask, pow_pos}
use latypus.Io.Ring.{Ring, size, reset, bytes_readable, bytes_writable, read_offset, write_offset}
use latypus.Common.{
  ℕ, zero, suc, ◌+◌, ◌-◌, ◌%◌, ◌^◌, ◌≤◌, ◌<◌, ◌≡◌, refl, sym, ap, ap₂, ◌∙◌, ◌↔◌, List, [], ◌∷◌,
  ◌++◌, arith, length, get_or, take, drop,
}

-- The size is a power of two with its mask; no more bytes are held than fit, and the counters do
-- not wrap.
pub record IsRing (r : Ring) : Type 0 where
  pub log : ℕ
  pub is_pow : size r ≡ 2 ^ log
  pub masks : r.mask ≡ 2 ^ log - 1
  pub held : r.back ≤ r.front
  pub fits : r.front ≤ r.back + size r
  pub small : r.back + size r < 2 ^ 62

-- The bytes held, and the room left.
abbrev pub used : Ring → ℕ
used r = r.back + size r - r.front

abbrev pub room : Ring → ℕ
room r = r.front - r.back

-- `n` bytes from position `pos` of the stream on, each at its index in the buffer.
abbrev pub from_pos : List ℕ → ℕ → ℕ → List ℕ
from_pos buf pos zero = []
from_pos buf pos (suc n) = get_or buf (pos % length buf) 0 ∷ from_pos buf (suc pos) n

-- Oldest first.
abbrev pub contents : Ring → List ℕ
contents r = from_pos r.buffer r.front (used r)

module _ (buf : List ℕ) where
  pub length-from_pos : (pos n : ℕ) → length (from_pos buf pos n) ≡ n
  length-from_pos pos zero = refl
  length-from_pos pos (suc n) = ap suc (length-from_pos (suc pos) n)

  pub drop-from_pos :
      (k pos n : ℕ) → k ≤ n → drop k (from_pos buf pos n) ≡ from_pos buf (pos + k) (n - k)
  drop-from_pos zero pos n h = ap₂ (from_pos buf) (omega arith) (omega arith)
  drop-from_pos (suc k) pos zero h = absurd (omega arith)
  drop-from_pos (suc k) pos (suc n) h =
      drop-from_pos k (suc pos) n (omega arith) ∙ ap₂ (from_pos buf) (omega arith) (omega arith)

  pub take-from_pos : (k pos n : ℕ) → k ≤ n → take k (from_pos buf pos n) ≡ from_pos buf pos k
  take-from_pos zero pos n h = refl
  take-from_pos (suc k) pos zero h = absurd (omega arith)
  take-from_pos (suc k) pos (suc n) h =
      ap (◌∷◌ (get_or buf (pos % length buf) 0)) (take-from_pos k (suc pos) n (omega arith))

  pub append-from_pos :
      (pos m n : ℕ) → from_pos buf pos (m + n) ≡ from_pos buf pos m ++ from_pos buf (pos + m) n
  append-from_pos pos zero n = ap₂ (from_pos buf) (omega arith) (omega arith)
  append-from_pos pos (suc m) n =
      let e : suc m + n ≡ suc (m + n) = omega arith in
      let e' : pos + suc m ≡ suc pos + m = omega arith in
      rw (e, e') (ap (◌∷◌ (get_or buf (pos % length buf) 0)) (append-from_pos (suc pos) m n))

module _ {r : Ring} (v : IsRing r) where
  pub size_pos : 0 < size r
  size_pos = omega (arith, v.is_pow, pow_pos v.log)

  pub read_offset_lem : read_offset r ≡ r.front % size r
  unfolding read_offset
  read_offset_lem =
      ap (bit_and r.front) v.masks
      ∙ bit_and-mask r.front v.log
      ∙ ap (λ n. r.front % n) (sym v.is_pow)

  pub write_offset_lem : write_offset r ≡ r.back % size r
  unfolding write_offset
  write_offset_lem =
      ap (bit_and r.back) v.masks ∙ bit_and-mask r.back v.log ∙ ap (λ n. r.back % n) (sym v.is_pow)

  -- `bytes_readable` counts the bytes held.
  pub bytes_readable-used : bytes_readable r ≡ used r
  unfolding bytes_readable
  bytes_readable-used = ground (arith, v)

  -- In a valid ring `bytes_writable` is the room left exactly when `back` is 0: when nothing has been
  -- written since the reset.
  pub bytes_writable-room_iff : (bytes_writable r ≡ room r) ↔ (r.back ≡ 0)
  unfolding bytes_writable
  bytes_writable-room_iff = ground (arith, v)

-- A reset leaves a valid ring valid and empty, with all of its room.
pub reset-IsRing :
    {r : Ring} → IsRing r → IsRing (reset r) × (contents (reset r) ≡ []) × (room (reset r) ≡ size r)
unfolding reset
reset-IsRing {r} v =
    let none_used : 0 + size r - size r ≡ 0 = omega arith in
    (
      record {
        log = v.log;
        is_pow = v.is_pow;
        masks = v.masks;
        held = omega arith;
        fits = omega arith;
        small = omega arith;
      },
      ap (from_pos r.buffer (size r)) none_used,
      omega arith,
    )
