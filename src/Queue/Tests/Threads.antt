-- ===== src/Queue/Tests/Threads.antt =====
-- A queue of one slot, with threads inside of its operations.
use Prim.Native.Nat.{bit_and}
use latypus.Common.{ℕ, ◌+◌, ◌≤◌, ◌<◌, ◌≡◌, refl, true, ◌++◌, arith, length, get_or}
use latypus.Queue.{
  queue_atomic, pack_offset, unpack_offsets, back, front, full, empty, enter_back, enter_front,
}
use latypus.Queue.Fifo.{IsQueue, contents}
use latypus.Queue.Threads.{
  PushPc, PopPc, PushMove, PopMove, System, pushes, pops, Reach, here, next,
}
use latypus.Queue.Single.Order.{pushed-popped, PushUnopposed, PopUnopposed, lockless}
use latypus.Queue.Overtaken.{PushRun, PopRun, push_back_overwrites, pop_front_takes_again}

abbrev Reached : ℕ → ℕ → Type 0
Reached producers consumers = (s : System) × Reach producers consumers 1 s

only : 0 < 1
only = omega arith

first : 0 < 2
first = omega arith

second : 1 < 2
second = omega arith

-- 8 was pushed and popped, and 9 is about to be pushed.
abbrev passed : Reached 1 1
unfolding queue_atomic pack_offset unpack_offsets
passed = (
  _,
  next
      (next
        (next
          (next
            (next
              (next
                (next
                  (next
                    (next
                      (next
                        (next
                          (next
                            (next
                              (next
                                (next
                                  (next
                                    (next (next here (pushes 0 only (PushMove.call 8)))
                                      (pushes 0 only PushMove.load_front))
                                    (pushes 0 only PushMove.load_counter))
                                  (pushes 0 only PushMove.load_version))
                                (pushes 0 only (PushMove.cas_win refl)))
                              (pushes 0 only PushMove.store))
                            (pushes 0 only PushMove.store_version))
                          (pops 0 only PopMove.call))
                        (pops 0 only PopMove.load_back))
                      (pops 0 only PopMove.load_counter))
                    (pops 0 only PopMove.load_version))
                  (pops 0 only (PopMove.cas_win refl)))
                (pops 0 only PopMove.load))
              (pops 0 only PopMove.store_version))
            (pushes 0 only PushMove.end))
          (pushes 0 only (PushMove.call 9)))
        (pushes 0 only PushMove.load_front))
      (pushes 0 only PushMove.load_counter),
)

pushed-popped_example :
    (passed.0.pushed ≡ passed.0.popped ++ contents passed.0.mem)
    × (length (contents passed.0.mem) ≤ 1)
unfolding queue_atomic pack_offset unpack_offsets
pushed-popped_example = pushed-popped 0 (omega arith) passed.1 (omega arith)

lockless_example :
    PushUnopposed passed.0.mem (passed.0.push 0) × PopUnopposed passed.0.mem (passed.0.pop 0)
unfolding queue_atomic pack_offset unpack_offsets
lockless_example = lockless 0 (omega arith) passed.1 (omega arith)

-- A thread has called `push_back` with 7 and read the front, and one has called `pop_front` and read
-- the back; then others have pushed 8 and popped it.
abbrev emptied : Reached 2 2
unfolding queue_atomic pack_offset unpack_offsets
emptied = (
  _,
  next
      (next
        (next
          (next
            (next
              (next
                (next
                  (next
                    (next
                      (next
                        (next
                          (next
                            (next
                              (next
                                (next
                                  (next
                                    (next (next here (pushes 0 first (PushMove.call 7)))
                                      (pushes 0 first PushMove.load_front))
                                    (pops 0 first PopMove.call))
                                  (pops 0 first PopMove.load_back))
                                (pushes 1 second (PushMove.call 8)))
                              (pushes 1 second PushMove.load_front))
                            (pushes 1 second PushMove.load_counter))
                          (pushes 1 second PushMove.load_version))
                        (pushes 1 second (PushMove.cas_win refl)))
                      (pushes 1 second PushMove.store))
                    (pushes 1 second PushMove.store_version))
                  (pops 1 second PopMove.call))
                (pops 1 second PopMove.load_back))
              (pops 1 second PopMove.load_counter))
            (pops 1 second PopMove.load_version))
          (pops 1 second (PopMove.cas_win refl)))
        (pops 1 second PopMove.load))
      (pops 1 second PopMove.store_version),
)

emptied-IsQueue : IsQueue emptied.0.mem
unfolding queue_atomic pack_offset unpack_offsets
emptied-IsQueue = record {
  log = 0;
  is_pow = refl;
  storage = refl;
  size_max = omega arith;
  back_version = refl;
  front_version = refl;
  ordered = omega arith;
  bounded = omega arith;
}

-- The thread that has read the back.
emptied_stale : emptied.0.pop 0 ≡ PopPc.looping 0 0
unfolding queue_atomic pack_offset unpack_offsets
emptied_stale = refl

-- 8 is popped a second time.
pop_front_takes_again_example :
    PopRun emptied.0.mem
      (PopPc.looping 0 0)
      (enter_front emptied.0.mem (front emptied.0.mem))
      (PopPc.returned 8)
    × (back (enter_front emptied.0.mem (front emptied.0.mem)) + emptied.0.mem.size_limit
        < front (enter_front emptied.0.mem (front emptied.0.mem)))
unfolding queue_atomic pack_offset unpack_offsets empty
pop_front_takes_again_example =
    pop_front_takes_again emptied-IsQueue refl (omega arith) 0 0 (omega arith)

-- And 9 has been pushed.
abbrev refilled : Reached 2 2
unfolding queue_atomic pack_offset unpack_offsets
refilled = (
  _,
  next
      (next
        (next
          (next
            (next
              (next
                (next (next emptied.1 (pushes 1 second PushMove.end))
                  (pushes 1 second (PushMove.call 9)))
                (pushes 1 second PushMove.load_front))
              (pushes 1 second PushMove.load_counter))
            (pushes 1 second PushMove.load_version))
          (pushes 1 second (PushMove.cas_win refl)))
        (pushes 1 second PushMove.store))
      (pushes 1 second PushMove.store_version),
)

refilled-IsQueue : IsQueue refilled.0.mem
unfolding queue_atomic pack_offset unpack_offsets
refilled-IsQueue = record {
  log = 0;
  is_pow = refl;
  storage = refl;
  size_max = omega arith;
  back_version = refl;
  front_version = refl;
  ordered = omega arith;
  bounded = omega arith;
}

refilled_stale : refilled.0.push 0 ≡ PushPc.looping 7 1 0
unfolding queue_atomic pack_offset unpack_offsets
refilled_stale = refl

-- 7 is written over 9.
push_back_overwrites_example :
    PushRun refilled.0.mem
      (PushPc.looping 7 1 0)
      (enter_back refilled.0.mem 7 2)
      (PushPc.returned true)
    × (get_or (enter_back refilled.0.mem 7 2).vec (bit_and 2 0) 0 ≡ 7)
    × (front (enter_back refilled.0.mem 7 2) < back (enter_back refilled.0.mem 7 2))
unfolding queue_atomic pack_offset unpack_offsets full
push_back_overwrites_example =
    push_back_overwrites refilled-IsQueue refl (omega arith) 7 1 0 (omega arith)
