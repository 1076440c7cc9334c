-- ===== src/Queue/Single/Order.antt =====
-- What one thread that pushes and one that pops get from the queue, in any interleaving.
use latypus.Common.{
  ℕ, zero, suc, ◌+◌, ◌-◌, ◌^◌, ◌≤◌, ◌<◌, ◌≡◌, refl, sym, ◌∙◌, some, List, [], ◌∷◌, ◌++◌, arith,
  length, length-append,
}
use latypus.Io.Ring.Inv.{length-from_pos}
use latypus.Queue.{Queue, unpack_offsets, back, front, offset_limit, pack_offset, queue_atomic}
use latypus.Queue.Fifo.{contents}
use latypus.Queue.Start.{queue_atomic-IsQueue}
use latypus.Queue.Threads.{
  PushPc, PopPc, PushMove, PopMove, System, add_pushed, Step, Reach, here, next,
}
use latypus.Queue.Single.{Pushing, Popping, IsSingle}
use latypus.Queue.Single.Pushes.{PushMove-IsSingle}
use latypus.Queue.Single.Pops.{PopMove-IsSingle}

start-IsSingle :
    (k : ℕ) → 2 ^ k ≤ 2 ^ 47 → IsSingle (queue_atomic (2 ^ k)) PushPc.idle PopPc.idle [] []
unfolding queue_atomic pack_offset
start-IsSingle k h =
    let (v, none_held) = queue_atomic-IsQueue k h in
    record {
      fifo = record {
        log = v.log;
        is_pow = v.is_pow;
        storage = v.storage;
        size_max = v.size_max;
        pushed_count = omega arith;
        popped_count = omega (arith, h);
        ordered = v.ordered;
        bounded = v.bounded;
        order = sym none_held;
      };
      pushing = v.back_version;
      popping = v.front_version;
    }

PushMove-size : {m m' : Queue} {p p' : PushPc} → PushMove m p m' p' → m'.size_limit ≡ m.size_limit
PushMove-size (PushMove.call _) = refl
PushMove-size _ = refl

PopMove-size : {m m' : Queue} {p p' : PopPc} → PopMove m p m' p' → m'.size_limit ≡ m.size_limit
PopMove-size PopMove.call = refl
PopMove-size _ = refl

length-add_pushed : (p : PushPc) (pushed : List ℕ) → length pushed ≤ length (add_pushed p pushed)
length-add_pushed (PushPc.leaving elem pack) pushed =
    omega (arith, length-append {0} pushed (elem ∷ []))
length-add_pushed _ pushed = omega arith

Step-pushed : {s t : System} → Step 1 1 s t → length s.pushed ≤ length t.pushed
Step-pushed {s} (Step.pushes i lt move) = length-add_pushed (s.push i) s.pushed
Step-pushed (Step.pops i lt move) = omega arith

abbrev Kept : System → Type 0
Kept s = IsSingle s.mem (s.push 0) (s.pop 0) s.pushed s.popped

module _ {size_limit : ℕ} where
  Reach-size : {s : System} → Reach 1 1 size_limit s → s.mem.size_limit ≡ size_limit
  unfolding queue_atomic
  Reach-size here = refl
  Reach-size (next r (Step.pushes i lt move)) = PushMove-size move ∙ Reach-size r
  Reach-size (next r (Step.pops i lt move)) = PopMove-size move ∙ Reach-size r

  Step-IsSingle :
      {s t : System}
      → s.mem.size_limit ≡ size_limit
      → length t.pushed + size_limit < offset_limit
      → Kept s
      → Step 1 1 s t
      → Kept t
  Step-IsSingle size small v (Step.pushes zero lt move) =
      PushMove-IsSingle (omega (arith, small)) v move
  Step-IsSingle size small v (Step.pushes (suc i) lt move) = absurd (omega (arith, lt))
  Step-IsSingle size small v (Step.pops zero lt move) =
      PopMove-IsSingle (omega (arith, size, small)) v move
  Step-IsSingle size small v (Step.pops (suc i) lt move) = absurd (omega (arith, lt))

Reach-IsSingle :
    (k : ℕ) {s : System}
    → 2 ^ k ≤ 2 ^ 47
    → Reach 1 1 (2 ^ k) s
    → length s.pushed + 2 ^ k < offset_limit
    → Kept s
Reach-IsSingle k h here small = start-IsSingle k h
Reach-IsSingle k h (next r step) small =
    Step-IsSingle (Reach-size r) small
      (Reach-IsSingle k h r (omega (arith, small, Step-pushed step))) step

-- In every state that one thread which pushes and one which pops reach, in any interleaving of their
-- accesses, on a queue whose size is a power of two up to 2 ^ 47: the items popped and then those
-- that the queue holds are the items pushed, in this order, and no more are held than the size. It
-- is assumed that fewer items are pushed than 2 ^ 48 less the size.
pub pushed-popped :
    (k : ℕ) {s : System}
    → 2 ^ k ≤ 2 ^ 47
    → Reach 1 1 (2 ^ k) s
    → length s.pushed + 2 ^ k < offset_limit
    → (s.pushed ≡ s.popped ++ contents s.mem) × (length (contents s.mem) ≤ 2 ^ k)
pushed-popped k {s} h r small =
    let v = (Reach-IsSingle k h r small).fifo in
    let held =
      length-from_pos s.mem.vec (front s.mem) (back s.mem + s.mem.size_limit - front s.mem) in
    (v.order, omega (arith, held, v.ordered, Reach-size r))

abbrev pub PushUnopposed : Queue → PushPc → Type 0
PushUnopposed m (PushPc.counted elem f n c) = unpack_offsets c m.version_back ≡ some (back m)
PushUnopposed m (PushPc.trying elem f n c b) = m.counter_back ≡ c
PushUnopposed m _ = Unit

abbrev pub PopUnopposed : Queue → PopPc → Type 0
PopUnopposed m (PopPc.counted b n c) = unpack_offsets c m.version_front ≡ some (front m)
PopUnopposed m (PopPc.trying b n c f) = m.counter_front ≡ c
PopUnopposed m _ = Unit

Pushing-Unopposed : (m : Queue) (p : PushPc) → Pushing m p → PushUnopposed m p
Pushing-Unopposed m (PushPc.counted elem f n c) (matches, l, h, e) = rw e matches
Pushing-Unopposed m (PushPc.trying elem f n c b) (matches, l, h, e, at) = sym e
Pushing-Unopposed m PushPc.idle h = tt
Pushing-Unopposed m _ h = tt

Popping-Unopposed : (m : Queue) (p : PopPc) → Popping m p → PopUnopposed m p
Popping-Unopposed m (PopPc.counted b n c) (matches, l, h, e) = rw e matches
Popping-Unopposed m (PopPc.trying b n c f) (matches, l, h, e, at) = sym e
Popping-Unopposed m PopPc.idle h = tt
Popping-Unopposed m _ h = tt

-- In every state that one thread which pushes and one which pops reach, in any interleaving of their
-- accesses, on a queue whose size is a power of two up to 2 ^ 47, fewer items being pushed than
-- 2 ^ 48 less the size: a thread that has read the counter of its end finds that the version of that
-- end matches it, and one about to compare the counter finds the value that it expects. So no round
-- is in vain, but for a spurious failure.
pub lockless :
    (k : ℕ) {s : System}
    → 2 ^ k ≤ 2 ^ 47
    → Reach 1 1 (2 ^ k) s
    → length s.pushed + 2 ^ k < offset_limit
    → PushUnopposed s.mem (s.push 0) × PopUnopposed s.mem (s.pop 0)
lockless k {s} h r small =
    let v = Reach-IsSingle k h r small in
    (Pushing-Unopposed s.mem (s.push 0) v.pushing, Popping-Unopposed s.mem (s.pop 0) v.popping)
