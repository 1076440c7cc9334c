-- ===== src/Queue/Fifo.antt =====
-- The queue is a bounded first-in first-out list of items.
use Prim.Native.Nat.{bit_and}
use latypus.Io.{sub64}
use latypus.Io.Ring.Inv.{from_pos, length-from_pos}
use latypus.Queue.{
  Queue, offset_limit, version_limit, unpack_offsets, back, front, empty, full, size, enter_back,
  enter_front, push_back, pop_front,
}
use latypus.Common.{
  ℕ, suc, ◌+◌, ◌-◌, ◌%◌, ◌^◌, ◌≤◌, ◌<◌, ◌≡◌, refl, sym, ap, ap₂, ◌∙◌, subst, Bool, true, false,
  some, List, [], ◌∷◌, ◌++◌, arith, ◌==◌, ltb, if◌then◌else◌, length, length-set, get_or, set,
  get_or-set_self, drop, Bool-cases, inl, inr,
}
use latypus.Queue.Lap.{
  size_lem, empty_lem, full_lem, offset_small, unpack-pack, pack-offset, in_lap, from_pos-store,
  from_pos-reveal, from_pos-take, masked, size_pos, full_ltb, room_lt, room_ltb, none_left,
  some_left,
}

-- The size is a power of two, each end's version matches its counter, the ends are no further apart
-- than the size, and the offsets have not wrapped.
pub record IsQueue (q : Queue) : Type 0 where
  pub log : ℕ
  pub is_pow : q.size_limit ≡ 2 ^ log
  pub storage : length q.vec ≡ q.size_limit
  pub size_max : q.size_limit ≤ 2 ^ 47
  pub back_version : unpack_offsets q.counter_back q.version_back ≡ some (back q)
  pub front_version : unpack_offsets q.counter_front q.version_front ≡ some (front q)
  pub ordered : back q ≤ front q
  pub bounded : front q ≤ back q + q.size_limit

abbrev pub used : Queue → ℕ
used q = back q + q.size_limit - front q

-- Oldest first.
abbrev pub contents : Queue → List ℕ
contents q = from_pos q.vec (front q) (used q)

-- For a queue in order `size`, `empty` and `full` say how many items it holds.
pub counts-contents :
    {q : Queue}
    → IsQueue q
    → (size q ≡ length (contents q))
      × (empty q ≡ (length (contents q) == 0))
      × (full q ≡ (length (contents q) == q.size_limit))
unfolding size empty full
counts-contents {q} v = rw (length-from_pos q.vec (front q) (used q)) (
  size_lem (back q) (front q) q.size_limit v.ordered v.bounded v.size_max
      (offset_small q.version_front),
  empty_lem (back q) (front q) q.size_limit v.ordered v.bounded (offset_small q.version_front),
  full_lem (back q) (front q) q.size_limit v.ordered v.bounded,
)

module _ {q : Queue} (v : IsQueue q) where
  slot : (a : ℕ) → bit_and a (q.size_limit - 1) ≡ a % q.size_limit
  slot = masked v.log v.is_pow

  positive : 0 < q.size_limit
  positive = size_pos v.log v.is_pow

  back-enter :
      (elem : ℕ) → back q + 1 < offset_limit → back (enter_back q elem (back q)) ≡ back q + 1
  unfolding enter_back
  back-enter elem wraps = pack-offset ((q.counter_back + 1) % version_limit) (back q) wraps

  -- A push to a queue with room, whose back does not wrap.
  enter_back-IsQueue :
      (elem : ℕ)
      → back q + 1 < offset_limit
      → back q < front q
      → IsQueue (enter_back q elem (back q))
  unfolding enter_back
  enter_back-IsQueue elem wraps room = record {
    log = v.log;
    is_pow = v.is_pow;
    storage = length-set q.vec (bit_and (back q) (q.size_limit - 1)) elem ∙ v.storage;
    size_max = v.size_max;
    back_version =
        unpack-pack ((q.counter_back + 1) % version_limit) ((back q + 1) % offset_limit)
          (omega arith) (omega arith);
    front_version = v.front_version;
    ordered = omega (arith, back-enter elem wraps, room);
    bounded = omega (arith, back-enter elem wraps, v.bounded);
  }

  enter_back-contents :
      (elem : ℕ)
      → back q + 1 < offset_limit
      → back q < front q
      → contents (enter_back q elem (back q)) ≡ contents q ++ (elem ∷ [])
  unfolding enter_back
  enter_back-contents elem wraps room =
      let vec = set q.vec (back q % q.size_limit) elem in
      let storage = length-set q.vec (back q % q.size_limit) elem ∙ v.storage in
      let inside : back q % q.size_limit < length q.vec =
        rw v.storage (in_lap (back q) q.size_limit positive) in
      ap₂ (λ (i n : ℕ). from_pos (set q.vec i elem) (front q) (n + q.size_limit - front q))
        (slot (back q)) (back-enter elem wraps ∙ omega arith)
      ∙ from_pos-reveal vec (back q) (front q) q.size_limit storage positive room v.bounded
          (get_or-set_self q.vec (back q % q.size_limit) elem 0 inside)
      ∙ ap (λ (l : List ℕ). l ++ (elem ∷ []))
          (from_pos-store q.vec (back q) (front q) q.size_limit v.storage positive elem room)

  front-enter : front q + 1 < offset_limit → front (enter_front q (front q)) ≡ front q + 1
  unfolding enter_front
  front-enter wraps = pack-offset ((q.counter_front + 1) % version_limit) (front q) wraps

  enter_front-IsQueue :
      front q + 1 < offset_limit
      → front q < back q + q.size_limit
      → IsQueue (enter_front q (front q))
  unfolding enter_front
  enter_front-IsQueue wraps some_left = record {
    log = v.log;
    is_pow = v.is_pow;
    storage = v.storage;
    size_max = v.size_max;
    back_version = v.back_version;
    front_version =
        unpack-pack ((q.counter_front + 1) % version_limit) ((front q + 1) % offset_limit)
          (omega arith) (omega arith);
    ordered = omega (arith, front-enter wraps, v.ordered);
    bounded = omega (arith, front-enter wraps, some_left);
  }

  enter_front-contents :
      front q + 1 < offset_limit
      → front q < back q + q.size_limit
      → contents q
        ≡ get_or q.vec (bit_and (front q) (q.size_limit - 1)) 0 ∷ contents (enter_front q (front q))
  unfolding enter_front
  enter_front-contents wraps some_left =
      let next : suc (front q) ≡ front (enter_front q (front q)) =
        omega (arith, front-enter wraps) in
      from_pos-take q.vec (back q) (front q) q.size_limit v.storage positive some_left
      ∙ ap₂ (λ (i p : ℕ). get_or q.vec i 0 ∷ from_pos q.vec p (back q + q.size_limit - p))
          (sym (slot (front q))) next

  push_back-room :
      (elem : ℕ)
      → (front q == back q) ≡ false
      → push_back q elem ≡ (enter_back q elem (back q), true)
  unfolding push_back
  push_back-room elem h = rw (v.back_version, push_back) (rw h refl)

  push_back-full : (elem : ℕ) → (front q == back q) ≡ true → push_back q elem ≡ (q, false)
  unfolding push_back
  push_back-full elem h = rw (v.back_version, push_back) (rw h refl)

  pop_front-some :
      (sub64 (front q) (back q) == q.size_limit) ≡ false
      → pop_front q
        ≡ (enter_front q (front q), get_or q.vec (bit_and (front q) (q.size_limit - 1)) 0)
  unfolding pop_front
  pop_front-some h = rw (v.front_version, pop_front) (rw h refl)

  pop_front-empty : (sub64 (front q) (back q) == q.size_limit) ≡ true → pop_front q ≡ (q, 0)
  unfolding pop_front
  pop_front-empty h = rw (v.front_version, pop_front) (rw h refl)

abbrev pub Pushed : Queue → ℕ → Queue × Bool → Type 0
Pushed q elem (q1, pushed) =
    (pushed ≡ ltb (length (contents q)) q.size_limit)
    × IsQueue q1
    × (contents q1 ≡ (
        if ltb (length (contents q)) q.size_limit then contents q ++ (elem ∷ []) else contents q))

abbrev pub head_or : List ℕ → ℕ
head_or [] = 0
head_or (x ∷ xs) = x

abbrev pub Popped : Queue → Queue × ℕ → Type 0
Popped q (q1, elem) =
    (elem ≡ head_or (contents q)) × IsQueue q1 × (contents q1 ≡ drop 1 (contents q))

-- A push to a queue in order adds the item behind the others, unless the queue is full, and says
-- which, as long as the offset of the back does not wrap; the queue is in order again.
pub push_back_enqueues :
    {q : Queue}
    → IsQueue q
    → (elem : ℕ) → back q + 1 < offset_limit
    → Pushed q elem (push_back q elem)
push_back_enqueues {q} v elem wraps = elim (Bool-cases (front q == back q)) [
  | inl h ↦ subst (Pushed q elem) (sym (push_back-full v elem h)) (
      let no : ltb (length (contents q)) q.size_limit ≡ false =
        ap (λ (n : ℕ). ltb n q.size_limit) (length-from_pos q.vec (front q) (used q))
        ∙ full_ltb (back q) (front q) q.size_limit h in
      rw no (refl, v, refl))
  | inr h ↦ subst (Pushed q elem) (sym (push_back-room v elem h)) (
      let room = room_lt (back q) (front q) v.ordered h in
      let yes_room : ltb (length (contents q)) q.size_limit ≡ true =
        ap (λ (n : ℕ). ltb n q.size_limit) (length-from_pos q.vec (front q) (used q))
        ∙ room_ltb (back q) (front q) q.size_limit room v.bounded in
      rw yes_room
        (refl, enter_back-IsQueue v elem wraps room, enter_back-contents v elem wraps room))
]

-- A pop from a queue in order takes the oldest item and returns it, and returns 0 on an empty queue,
-- as long as the offset of the front does not wrap; the queue is in order again.
pub pop_front_dequeues :
    {q : Queue} → IsQueue q → front q + 1 < offset_limit → Popped q (pop_front q)
pop_front_dequeues {q} v wraps = elim (Bool-cases (sub64 (front q) (back q) == q.size_limit)) [
  | inl h ↦ subst (Popped q) (sym (pop_front-empty v h)) (
      let nothing : contents q ≡ [] =
        ap (from_pos q.vec (front q))
          (none_left (back q) (front q) q.size_limit v.ordered (offset_small q.version_front) h) in
      rw nothing (refl, v, refl))
  | inr h ↦ subst (Popped q) (sym (pop_front-some v h)) (
      let left =
        some_left (back q) (front q) q.size_limit v.ordered v.bounded (offset_small q.version_front)
          h in
      let e = enter_front-contents v wraps left in
      (ap head_or (sym e), enter_front-IsQueue v wraps left, ap (drop 1) (sym e)))
]
