-- ===== src/Queue/Single/Pops.antt =====
-- A step of the thread that pops.
use Prim.Native.Nat.{bit_and}
use mathlib.Core.List.{append_assoc}
use latypus.Common.{
  ℕ, ◌+◌, ◌-◌, ◌%◌, ◌≤◌, ◌<◌, ◌≡◌, refl, sym, ap, ap₂, ◌∙◌, some, List, [], ◌∷◌, ◌++◌, arith, ◌==◌,
  ltb, length, length-append, get_or, Bool-cases, inl, inr,
}
use latypus.Io.{sub64}
use latypus.Io.Ring.Inv.{from_pos}
use latypus.Queue.{Queue, offset_limit, version_limit, pack_offset, unpack_offsets, back, front}
use latypus.Queue.Lap.{unpack-pack, pack-offset, some_left, offset_small, from_pos-take}
use latypus.Queue.Fifo.{contents}
use latypus.Queue.Threads.{PushPc, PopPc, PopMove, pop_again, pop_checked, add_popped, spin_limit}
use latypus.Queue.Single.{
  IsFifo, FrontMatches, PopsTo, Pushing, Popping, IsSingle, counters-IsFifo, slot, positive,
}

pop_again-Popping :
    (m : Queue) (b n : ℕ)
    → FrontMatches m
    → b ≤ back m
    → front m ≤ b + m.size_limit
    → Popping m (pop_again b n)
pop_again-Popping m b n matches l h = elim (Bool-cases (ltb (n + 1) spin_limit)) [
  | inl e ↦ rw e (matches, l, h)
  | inr e ↦ rw e matches
]

pop_checked-Popping :
    (m : Queue) (b n c : ℕ)
    → FrontMatches m
    → back m ≤ front m
    → b ≤ back m
    → front m ≤ b + m.size_limit
    → c ≡ m.counter_front
    → Popping m (pop_checked m.size_limit b n c (some (front m)))
pop_checked-Popping m b n c matches ordered l h e =
    elim (Bool-cases (sub64 (front m) b == m.size_limit)) [
      | inl none_left ↦ rw none_left matches
      | inr left ↦ rw left (
        matches,
        l,
        some_left b (front m) m.size_limit (omega arith) h (offset_small m.version_front) left,
        e,
        refl,
      )
    ]

-- What the other thread has read stays true as the front moves on.
Pushing-later :
    (m : Queue) (counter_front version_front : ℕ)
    → front m ≤ version_front % offset_limit
    → (p : PushPc) → Pushing m p
    → Pushing (record m { counter_front = counter_front; version_front = version_front }) p
Pushing-later m cf vf grows PushPc.idle h = h
Pushing-later m cf vf grows (PushPc.called elem) h = h
Pushing-later m cf vf grows (PushPc.looping elem f n) (a, l, k) = (a, l, omega arith)
Pushing-later m cf vf grows (PushPc.counted elem f n c) (a, l, k, e) = (a, l, omega arith, e)
Pushing-later m cf vf grows (PushPc.trying elem f n c b) (a, l, k, e, g) = (a, l, omega arith, e, g)
Pushing-later m cf vf grows (PushPc.storing elem o pack) ((l, k, e), g) = ((omega arith, k, e), g)
Pushing-later m cf vf grows (PushPc.leaving elem pack) ((l, k, e), g) = ((omega arith, k, e), g)
Pushing-later m cf vf grows (PushPc.returned done) h = h

module _ {m : Queue} {pushed popped : List ℕ} (v : IsFifo m pushed popped) where
  -- The new version takes the item away.
  module _ {pack : ℕ} (to : PopsTo m pack)
      (small : length pushed + m.size_limit < offset_limit) where
    grown : pack % offset_limit ≡ front m + 1
    grown =
        ap (λ (n : ℕ). n % offset_limit) to.2
        ∙ pack-offset m.counter_front (front m) (omega (arith, v.pushed_count))

    version-FrontMatches : unpack_offsets m.counter_front pack ≡ some (pack % offset_limit)
    version-FrontMatches =
        rw to.2 (unpack-pack m.counter_front ((front m + 1) % offset_limit) to.1 (omega arith))

    version-IsFifo :
        {val : ℕ}
        → get_or m.vec (bit_and (front m) (m.size_limit - 1)) 0 ≡ val
        → IsFifo (record m { version_front = pack }) pushed (popped ++ (val ∷ []))
    version-IsFifo {val} item =
        let left : contents m
            ≡ val
              ∷ from_pos m.vec (pack % offset_limit) (back m + m.size_limit - pack % offset_limit) =
          from_pos-take m.vec (back m) (front m) m.size_limit v.storage (positive v) to.0
          ∙ ap₂ (λ (x p : ℕ). x ∷ from_pos m.vec p (back m + m.size_limit - p))
              (ap (λ (i : ℕ). get_or m.vec i 0) (sym (slot v (front m))) ∙ item)
              (omega (arith, grown)) in
        record {
          log = v.log;
          is_pow = v.is_pow;
          storage = v.storage;
          size_max = v.size_max;
          pushed_count = v.pushed_count;
          popped_count = omega (arith, grown, v.popped_count, length-append {0} popped (val ∷ []));
          ordered = omega (arith, grown, v.ordered);
          bounded = omega (arith, grown);
          order =
              v.order
              ∙ ap (λ (l : List ℕ). popped ++ l) left
              ∙ sym (append_assoc popped (val ∷ []) _);
        }

-- The queue stays as it is.
still :
    {m : Queue} {push : PushPc} {p p' : PopPc} {pushed popped : List ℕ}
    → IsSingle m push p pushed popped
    → Popping m p'
    → IsSingle m push p' pushed popped
still s popping = record { fifo = s.fifo; pushing = s.pushing; popping = popping }

pub PopMove-IsSingle :
    {m m' : Queue} {push : PushPc} {p p' : PopPc} {pushed popped : List ℕ}
    → length pushed + m.size_limit < offset_limit
    → IsSingle m push p pushed popped
    → PopMove m p m' p'
    → IsSingle m' push p' pushed (add_popped p popped)
PopMove-IsSingle small s PopMove.call = still s s.popping
PopMove-IsSingle small s PopMove.load_back = still s (s.popping, omega arith, s.fifo.bounded)
PopMove-IsSingle small s PopMove.load_counter =
    let (matches, l, h) = s.popping in still s (matches, l, h, refl)
PopMove-IsSingle {m} small s (PopMove.load_version {back = b} {n} {counter}) =
    let (matches, l, h, e) = s.popping in
    still s
      (rw (e, matches) (pop_checked-Popping m b n m.counter_front matches s.fifo.ordered l h refl))
PopMove-IsSingle {m} small s (PopMove.cas_win {counter} {front = f} won) =
    let (matches, l, h, e, at) = s.popping in
    record {
      fifo = counters-IsFifo m.counter_back ((counter + 1) % version_limit) s.fifo;
      pushing =
          Pushing-later m ((counter + 1) % version_limit) m.version_front (omega arith) _ s.pushing;
      popping = (
        (
          omega arith,
          omega arith,
          ap (λ (f : ℕ). pack_offset ((counter + 1) % version_limit) ((f + 1) % offset_limit)) at,
        ),
        ap (λ (f : ℕ). bit_and f (m.size_limit - 1)) at,
      );
    }
PopMove-IsSingle {m} small s (PopMove.cas_lose {back = b} {n}) =
    let (matches, l, h, e, at) = s.popping in
    still s (pop_again-Popping m b n matches l (omega (arith, h)))
PopMove-IsSingle {m} small s PopMove.load =
    let (to, at) = s.popping in still s (to, ap (λ (i : ℕ). get_or m.vec i 0) (sym at))
PopMove-IsSingle {m} small s (PopMove.store_version {val} {pack}) =
    let (to, item) = s.popping in
    record {
      fifo = version-IsFifo s.fifo to small item;
      pushing =
          Pushing-later m m.counter_front pack (omega (arith, grown s.fifo to small)) _ s.pushing;
      popping = version-FrontMatches s.fifo to small;
    }
PopMove-IsSingle small s (PopMove.end {val}) = still s s.popping
