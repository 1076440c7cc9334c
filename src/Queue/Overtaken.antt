-- ===== src/Queue/Overtaken.antt =====
-- `push_back` reads the front once, and `pop_front` the back: what comes of it when another thread
-- that pushes, or one that pops, is faster.
use Prim.Native.Nat.{bit_and}
use latypus.Common.{
  ℕ, ◌+◌, ◌-◌, ◌%◌, ◌<◌, ◌≡◌, ◌≢◌, refl, ap, ◌∙◌, subst, true, false, arith, ◌==◌, length, get_or,
  get_or-set_self,
}
use latypus.Io.{sub64}
use latypus.Queue.{
  Queue, offset_limit, version_limit, unpack_offsets, back, front, full, empty, enter_back,
  enter_front,
}
use latypus.Queue.Lap.{in_lap, masked, size_pos, pack-offset}
use latypus.Queue.Fifo.{IsQueue}
use latypus.Queue.Threads.{PushPc, PopPc, PushMove, PopMove, push_checked, pop_checked}

-- Steps of one thread, while no other thread does any.
pub data PushRun (m : Queue) (p : PushPc) : Queue → PushPc → Type 0 where
  stay : PushRun m p m p
  more :
      {m' m'' : Queue} {p' p'' : PushPc}
      → PushRun m p m' p'
      → PushMove m' p' m'' p''
      → PushRun m p m'' p''

pub data PopRun (m : Queue) (p : PopPc) : Queue → PopPc → Type 0 where
  stay : PopRun m p m p
  more :
      {m' m'' : Queue} {p' p'' : PopPc}
      → PopRun m p m' p'
      → PopMove m' p' m'' p''
      → PopRun m p m'' p''

apart_front : (f b : ℕ) → f ≢ b → (f == b) ≡ false
apart_front f b h = ground arith

-- A queue in order that is full, and a thread inside of `push_back` that has read an earlier front,
-- which is not where the back is now: done alone, the rest of its call returns true, writes the
-- item over the oldest one that is held, and leaves the back past the front, as long as the offset
-- of the back does not wrap.
pub push_back_overwrites :
    {q : Queue}
    → IsQueue q
    → full q ≡ true
    → back q + 1 < offset_limit
    → (elem old_front spin_count : ℕ) → old_front ≢ back q
    → PushRun q
        (PushPc.looping elem old_front spin_count)
        (enter_back q elem (back q))
        (PushPc.returned true)
      × (get_or (enter_back q elem (back q)).vec (bit_and (front q) (q.size_limit - 1)) 0 ≡ elem)
      × (front (enter_back q elem (back q)) < back (enter_back q elem (back q)))
unfolding full enter_back
push_back_overwrites {q} v is_full wraps elem f n old =
    let at : front q ≡ back q = ground arith in
    let checked : push_checked elem f n q.counter_back
          (unpack_offsets q.counter_back q.version_back)
        ≡ PushPc.trying elem f n q.counter_back (back q) =
      rw v.back_version (rw (apart_front f (back q) old) refl) in
    let slot = masked v.log v.is_pow (back q) in
    let inside : bit_and (back q) (q.size_limit - 1) < length q.vec =
      rw (slot, v.storage) (in_lap (back q) q.size_limit (size_pos v.log v.is_pow)) in
    (
      PushRun.more
          (PushRun.more
            (PushRun.more
              (subst (PushRun q (PushPc.looping elem f n) q) checked (
                PushRun.more (PushRun.more PushRun.stay PushMove.load_counter)
                  PushMove.load_version))
              (PushMove.cas_win refl))
            PushMove.store)
          PushMove.store_version,
      ap (λ (o : ℕ). get_or (enter_back q elem (back q)).vec (bit_and o (q.size_limit - 1)) 0) at
          ∙ get_or-set_self q.vec (bit_and (back q) (q.size_limit - 1)) elem 0 inside,
      omega (arith, at, pack-offset ((q.counter_back + 1) % version_limit) (back q) wraps),
    )

-- A queue in order that is empty, and a thread inside of `pop_front` that has read an earlier back,
-- from which the front is not a full size ahead: done alone, the rest of its call returns what the
-- front's slot has kept from an earlier item, and leaves the front more than a full size ahead of
-- the back, as long as the offset of the front does not wrap.
pub pop_front_takes_again :
    {q : Queue}
    → IsQueue q
    → empty q ≡ true
    → front q + 1 < offset_limit
    → (old_back spin_count : ℕ) → sub64 (front q) old_back ≢ q.size_limit
    → PopRun q
        (PopPc.looping old_back spin_count)
        (enter_front q (front q))
        (PopPc.returned (get_or q.vec (bit_and (front q) (q.size_limit - 1)) 0))
      × (back (enter_front q (front q)) + q.size_limit < front (enter_front q (front q)))
unfolding empty enter_front
pop_front_takes_again {q} v is_empty wraps b n old =
    let checked : pop_checked q.size_limit b n q.counter_front
          (unpack_offsets q.counter_front q.version_front)
        ≡ PopPc.trying b n q.counter_front (front q) =
      rw v.front_version (rw (apart_front (sub64 (front q) b) q.size_limit old) refl) in
    let apart : front q ≡ back q + q.size_limit = ground (arith, v.ordered, v.bounded) in
    (
      PopRun.more
          (PopRun.more
            (PopRun.more
              (subst (PopRun q (PopPc.looping b n) q) checked
                (PopRun.more (PopRun.more PopRun.stay PopMove.load_counter) PopMove.load_version))
              (PopMove.cas_win refl))
            PopMove.load)
          PopMove.store_version,
      omega (arith, apart, pack-offset ((q.counter_front + 1) % version_limit) (front q) wraps),
    )
