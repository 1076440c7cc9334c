-- ===== src/Queue/Start.antt =====
-- The constructor of the queue.
use latypus.Common.{
  ℕ, ◌+◌, ◌*◌, ◌%◌, ◌^◌, ◌-◌, ◌≤◌, ◌≡◌, refl, ap, some, [], arith, length-replicate,
}
use latypus.Io.Ring.Inv.{from_pos}
use latypus.Queue.{pack_offset, unpack_offsets, queue_atomic, offset_limit}
use latypus.Queue.Fifo.{IsQueue, contents}

unpack-start :
    (o : ℕ)
    → o ≤ 2 ^ 47
    → unpack_offsets 0 (0 * offset_limit + o) ≡ some ((0 * offset_limit + o) % offset_limit)
unfolding unpack_offsets
unpack-start o h = ground arith

-- A new queue, whose size is a power of two within the limit that the constructor asserts, is in
-- order and empty.
pub queue_atomic-IsQueue :
    (k : ℕ)
    → 2 ^ k ≤ 2 ^ 47
    → IsQueue (queue_atomic (2 ^ k)) × (contents (queue_atomic (2 ^ k)) ≡ [])
unfolding queue_atomic pack_offset
queue_atomic-IsQueue k h = (
  record {
    log = k;
    is_pow = refl;
    storage = length-replicate (2 ^ k) 0;
    size_max = h;
    back_version = unpack-start 0 (omega arith);
    front_version = unpack-start (2 ^ k) h;
    ordered = omega (arith, h);
    bounded = omega (arith, h);
  },
  ap (from_pos (queue_atomic (2 ^ k)).vec ((0 * offset_limit + 2 ^ k) % offset_limit))
      (none_used (2 ^ k) h),
)
  where
    none_used :
        (n : ℕ)
        → n ≤ 2 ^ 47
        → (0 * offset_limit + 0) % offset_limit + n - (0 * offset_limit + n) % offset_limit ≡ 0
    none_used n h = omega (arith, h)
