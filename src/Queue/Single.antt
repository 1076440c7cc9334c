-- ===== src/Queue/Single.antt =====
-- The queue with one thread that pushes and one that pops, interleaved at each access: what each of
-- them has read stays true of the queue until it uses it.
mod Pushes
mod Pops
pub mod Order
use Prim.Native.Nat.{bit_and}
use latypus.Common.{ℕ, ◌+◌, ◌-◌, ◌%◌, ◌^◌, ◌≤◌, ◌<◌, ◌≡◌, some, List, ◌++◌, length, get_or}
use latypus.Queue.{Queue, offset_limit, version_limit, pack_offset, unpack_offsets, back, front}
use latypus.Queue.Lap.{masked, size_pos}
use latypus.Queue.Fifo.{contents}
use latypus.Queue.Threads.{PushPc, PopPc}

-- The offsets count the items that were pushed and popped, and the items held are those between.
pub record IsFifo (m : Queue) (pushed popped : List ℕ) : Type 0 where
  pub log : ℕ
  pub is_pow : m.size_limit ≡ 2 ^ log
  pub storage : length m.vec ≡ m.size_limit
  pub size_max : m.size_limit ≤ 2 ^ 47
  pub pushed_count : back m ≡ length pushed
  pub popped_count : front m ≡ length popped + m.size_limit
  pub ordered : back m ≤ front m
  pub bounded : front m ≤ back m + m.size_limit
  pub order : pushed ≡ popped ++ contents m

-- The version of the back matches its counter.
abbrev pub BackMatches : Queue → Type 0
BackMatches m = unpack_offsets m.counter_back m.version_back ≡ some (back m)

-- What the thread will write, and the room for it.
abbrev pub PushesTo : Queue → ℕ → Type 0
PushesTo m pack =
    (back m < front m)
    × (m.counter_back < version_limit)
    × (pack ≡ pack_offset m.counter_back ((back m + 1) % offset_limit))

abbrev pub Pushing : Queue → PushPc → Type 0
Pushing m (PushPc.looping elem f n) = BackMatches m × (back m ≤ f) × (f ≤ front m)
Pushing m (PushPc.counted elem f n c) =
    BackMatches m × (back m ≤ f) × (f ≤ front m) × (c ≡ m.counter_back)
Pushing m (PushPc.trying elem f n c b) =
    BackMatches m × (back m < f) × (f ≤ front m) × (c ≡ m.counter_back) × (b ≡ back m)
Pushing m (PushPc.storing elem offset pack) =
    PushesTo m pack × (offset ≡ bit_and (back m) (m.size_limit - 1))
Pushing m (PushPc.leaving elem pack) =
    PushesTo m pack × (get_or m.vec (bit_and (back m) (m.size_limit - 1)) 0 ≡ elem)
Pushing m _ = BackMatches m

abbrev pub FrontMatches : Queue → Type 0
FrontMatches m = unpack_offsets m.counter_front m.version_front ≡ some (front m)

abbrev pub PopsTo : Queue → ℕ → Type 0
PopsTo m pack =
    (front m < back m + m.size_limit)
    × (m.counter_front < version_limit)
    × (pack ≡ pack_offset m.counter_front ((front m + 1) % offset_limit))

abbrev pub Popping : Queue → PopPc → Type 0
Popping m (PopPc.looping b n) = FrontMatches m × (b ≤ back m) × (front m ≤ b + m.size_limit)
Popping m (PopPc.counted b n c) =
    FrontMatches m × (b ≤ back m) × (front m ≤ b + m.size_limit) × (c ≡ m.counter_front)
Popping m (PopPc.trying b n c f) =
    FrontMatches m
    × (b ≤ back m)
    × (front m < b + m.size_limit)
    × (c ≡ m.counter_front)
    × (f ≡ front m)
Popping m (PopPc.loading offset pack) =
    PopsTo m pack × (offset ≡ bit_and (front m) (m.size_limit - 1))
Popping m (PopPc.leaving val pack) =
    PopsTo m pack × (get_or m.vec (bit_and (front m) (m.size_limit - 1)) 0 ≡ val)
Popping m _ = FrontMatches m

pub record IsSingle (m : Queue) (push : PushPc) (pop : PopPc) (pushed popped : List ℕ)
    : Type 0 where
  pub fifo : IsFifo m pushed popped
  pub pushing : Pushing m push
  pub popping : Popping m pop

module _ {m : Queue} {pushed popped : List ℕ} where
  pub counters-IsFifo :
      (counter_back counter_front : ℕ)
      → IsFifo m pushed popped
      → IsFifo
          (record m { counter_back = counter_back; counter_front = counter_front })
          pushed
          popped
  counters-IsFifo b f v = record {
    log = v.log;
    is_pow = v.is_pow;
    storage = v.storage;
    size_max = v.size_max;
    pushed_count = v.pushed_count;
    popped_count = v.popped_count;
    ordered = v.ordered;
    bounded = v.bounded;
    order = v.order;
  }

  pub slot : IsFifo m pushed popped → (a : ℕ) → bit_and a (m.size_limit - 1) ≡ a % m.size_limit
  slot v = masked v.log v.is_pow

  pub positive : IsFifo m pushed popped → 0 < m.size_limit
  positive v = size_pos v.log v.is_pow
