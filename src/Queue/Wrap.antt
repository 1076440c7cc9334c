-- ===== src/Queue/Wrap.antt =====
-- What becomes of the queue when an offset passes 2 ^ 48.
use Prim.Native.Nat.{bit_and}
use latypus.Common.{ℕ, ◌+◌, ◌-◌, ◌≤◌, ◌<◌, ◌≡◌, ◌^◌, refl, false, some, arith, get_or, ◌==◌}
use latypus.Io.{sub64}
use latypus.Queue.{Queue, offset_limit, unpack_offsets, back, front, pop_front, enter_front, empty}

apart : (b f s : ℕ) → f + offset_limit ≡ b + s → b < 2 ^ 48 → s ≤ 2 ^ 47 → (sub64 f b == s) ≡ false
apart b f s h k l = ground arith

-- When the offset of the front has passed 2 ^ 48 and that of the back has not, an empty queue, whose
-- front is a full size ahead of its back, is not seen as empty, and a pop takes what the front's slot
-- has kept from an earlier item.
pub pop_front_takes_stale :
    (q : Queue)
    → unpack_offsets q.counter_front q.version_front ≡ some (front q)
    → q.size_limit ≤ 2 ^ 47
    → front q + offset_limit ≡ back q + q.size_limit
    → (empty q ≡ false)
      × (pop_front q
          ≡ (enter_front q (front q), get_or q.vec (bit_and (front q) (q.size_limit - 1)) 0))
unfolding empty pop_front
pop_front_takes_stale q v small wrapped =
    let e : (sub64 (front q) (back q) == q.size_limit) ≡ false =
      apart (back q) (front q) q.size_limit wrapped (omega arith) small in
    (e, rw (v, pop_front) (rw e refl))
