-- ===== src/Queue.antt =====
-- src/queue_atomic.h, with `uint64_t` and its 48 bits of offset and 16 of version, one operation at
-- a time: no other thread is inside of one, so `compare_exchange_weak` meets the value that it
-- expects, up to spurious failures that are retried, and what does not match at first never does,
-- until the spin limit is reached. An item is a number, and `T(0)` is 0.
pub mod Lap
pub mod Fifo
pub mod Wrap
pub mod Start
pub mod Threads
pub mod Single
pub mod Overtaken
mod Tests
use Prim.Native.Nat.{bit_and}
use latypus.Common.{
  ℕ, ◌+◌, ◌-◌, ◌*◌, ◌/◌, ◌%◌, ◌^◌, Bool, true, false, Option, none, some, List, ltb, ◌==◌,
  if◌then◌else◌, set, get_or, replicate,
}
use latypus.Io.{sub64}

abbrev pub offset_limit : ℕ
offset_limit = 2 ^ 48

abbrev pub version_limit : ℕ
version_limit = 2 ^ 16

pub record Queue : Type 0 where
  pub vec : List ℕ
  pub size_limit : ℕ
  pub counter_back : ℕ
  pub version_back : ℕ
  pub counter_front : ℕ
  pub version_front : ℕ

-- The version is below its limit, and so is the offset.
unfoldable pub pack_offset : ℕ → ℕ → ℕ
pack_offset version offset = version * offset_limit + offset

-- The offset, where the versions match.
unfoldable pub unpack_offsets : ℕ → ℕ → Option ℕ
unpack_offsets counter pack =
    if (pack / offset_limit) % version_limit == counter % version_limit
    then some (pack % offset_limit)
    else none

abbrev pub back : Queue → ℕ
back q = q.version_back % offset_limit

abbrev pub front : Queue → ℕ
front q = q.version_front % offset_limit

-- The constructor, for a size that is a power of two.
unfoldable pub queue_atomic : ℕ → Queue
unfolding pack_offset
queue_atomic size_limit = record {
  vec = replicate size_limit 0;
  size_limit = size_limit;
  counter_back = 0;
  version_back = pack_offset 0 0;
  counter_front = 0;
  version_front = pack_offset 0 size_limit;
}

unfoldable pub empty : Queue → Bool
empty q = sub64 (front q) (back q) == q.size_limit

unfoldable pub full : Queue → Bool
full q = front q == back q

unfoldable pub size : Queue → ℕ
size q =
    if ltb (front q) (back q)
    then back q - front q
    else (sub64 q.size_limit (front q) + back q) % 2 ^ 64

-- What a push writes, once it holds the back of the queue.
unfoldable pub enter_back : Queue → ℕ → ℕ → Queue
unfolding pack_offset
enter_back q elem back =
    let new_back_version = (q.counter_back + 1) % version_limit in
    record q {
      vec = set q.vec (bit_and back (q.size_limit - 1)) elem;
      counter_back = new_back_version;
      version_back = pack_offset new_back_version ((back + 1) % offset_limit);
    }

unfoldable pub push_back : Queue → ℕ → Queue × Bool
push_back q elem = elim (unpack_offsets q.counter_back q.version_back) [
  | none ↦ (q, false)
  | some back ↦ if front q == back then (q, false) else (enter_back q elem back, true)
]

unfoldable pub enter_front : Queue → ℕ → Queue
unfolding pack_offset
enter_front q front =
    let new_front_version = (q.counter_front + 1) % version_limit in
    record q {
      counter_front = new_front_version;
      version_front = pack_offset new_front_version ((front + 1) % offset_limit);
    }

unfoldable pub pop_front : Queue → Queue × ℕ
pop_front q = elim (unpack_offsets q.counter_front q.version_front) [
  | none ↦ (q, 0)
  | some front ↦
      if sub64 front (back q) == q.size_limit
      then (q, 0)
      else (enter_front q front, get_or q.vec (bit_and front (q.size_limit - 1)) 0)
]
