-- ===== src/Queue/Tests.antt =====
-- A queue of four slots.
mod Threads
use latypus.Common.{◌+◌, ◌-◌, ◌*◌, ◌≡◌, refl, some, [], ◌∷◌, arith}
use latypus.Queue.{Queue, offset_limit, unpack_offsets, front, push_back, pop_front}
use latypus.Queue.Fifo.{IsQueue, Pushed, Popped, push_back_enqueues, pop_front_dequeues}

-- The items 5 and 6 after three pushes and one pop.
abbrev two_items : Queue
two_items = record {
  vec = 4 ∷ 5 ∷ 6 ∷ 0 ∷ [];
  size_limit = 4;
  counter_back = 3;
  version_back = 3 * offset_limit + 3;
  counter_front = 1;
  version_front = 1 * offset_limit + 5;
}

two_items-IsQueue : IsQueue two_items
unfolding unpack_offsets
two_items-IsQueue = record {
  log = 2;
  is_pow = refl;
  storage = refl;
  size_max = omega arith;
  back_version = refl;
  front_version = refl;
  ordered = omega arith;
  bounded = omega arith;
}

push_back_enqueues_example : Pushed two_items 7 (push_back two_items 7)
push_back_enqueues_example = push_back_enqueues two_items-IsQueue 7 (omega arith)

pop_front_dequeues_example : Popped two_items (pop_front two_items)
pop_front_dequeues_example = pop_front_dequeues two_items-IsQueue (omega arith)
