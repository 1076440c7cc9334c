-- ===== src/Queue/Single/Pushes.antt =====
-- A step of the thread that pushes.
use Prim.Native.Nat.{bit_and}
use latypus.Common.{
  ℕ, ◌+◌, ◌-◌, ◌%◌, ◌≤◌, ◌<◌, ◌≡◌, refl, sym, ap, ◌∙◌, some, List, [], ◌∷◌, ◌++◌, arith, ◌==◌, ltb,
  length, length-append, length-set, set, get_or, get_or-set_self, get_or-set_ne, Bool-cases, inl,
  inr,
}
use mathlib.Core.List.{append_assoc}
use latypus.Io.Ring.Inv.{from_pos}
use latypus.Queue.{Queue, offset_limit, version_limit, pack_offset, unpack_offsets, back, front}
use latypus.Queue.Lap.{unpack-pack, pack-offset, in_lap, lap_fresh, from_pos-store, from_pos-reveal}
use latypus.Queue.Fifo.{contents}
use latypus.Queue.Threads.{
  PushPc, PopPc, PushMove, push_again, push_checked, add_pushed, spin_limit,
}
use latypus.Queue.Single.{
  IsFifo, BackMatches, PushesTo, Pushing, Popping, IsSingle, counters-IsFifo, slot, positive,
}

push_again-Pushing :
    (m : Queue) (elem f n : ℕ)
    → BackMatches m
    → back m ≤ f
    → f ≤ front m
    → Pushing m (push_again elem f n)
push_again-Pushing m elem f n matches l h = elim (Bool-cases (ltb (n + 1) spin_limit)) [
  | inl e ↦ rw e (matches, l, h)
  | inr e ↦ rw e matches
]

push_checked-Pushing :
    (m : Queue) (elem f n c : ℕ)
    → BackMatches m
    → back m ≤ f
    → f ≤ front m
    → c ≡ m.counter_back
    → Pushing m (push_checked elem f n c (some (back m)))
push_checked-Pushing m elem f n c matches l h e = elim (Bool-cases (f == back m)) [
  | inl full ↦ rw full matches
  | inr room ↦ rw room (matches, ground arith, h, e, refl)
]

-- What the other thread has read stays true while the slot of the front keeps its item.
Popping-later :
    (m : Queue) (vec : List ℕ) (counter_back version_back : ℕ)
    → back m ≤ version_back % offset_limit
    → (front m < back m + m.size_limit
        → get_or vec (bit_and (front m) (m.size_limit - 1)) 0
          ≡ get_or m.vec (bit_and (front m) (m.size_limit - 1)) 0)
    → (p : PopPc) → Popping m p
    → Popping (record m { vec = vec; counter_back = counter_back; version_back = version_back }) p
Popping-later m vec cb vb grows keeps PopPc.idle h = h
Popping-later m vec cb vb grows keeps PopPc.called h = h
Popping-later m vec cb vb grows keeps (PopPc.looping b n) (a, l, k) = (a, omega arith, k)
Popping-later m vec cb vb grows keeps (PopPc.counted b n c) (a, l, k, e) = (a, omega arith, k, e)
Popping-later m vec cb vb grows keeps (PopPc.trying b n c f) (a, l, k, e, g) =
    (a, omega arith, k, e, g)
Popping-later m vec cb vb grows keeps (PopPc.loading o pack) ((l, k, e), g) =
    ((omega arith, k, e), g)
Popping-later m vec cb vb grows keeps (PopPc.leaving v pack) ((l, k, e), g) =
    ((omega arith, k, e), keeps l ∙ g)
Popping-later m vec cb vb grows keeps (PopPc.returned v) h = h

module _ {m : Queue} {pushed popped : List ℕ} (v : IsFifo m pushed popped) where
  -- The item goes to a slot of which the other thread has no use.
  store-IsFifo :
      (elem offset : ℕ)
      → offset ≡ back m % m.size_limit
      → back m < front m
      → IsFifo (record m { vec = set m.vec offset elem }) pushed popped
  store-IsFifo elem offset at room = record {
    log = v.log;
    is_pow = v.is_pow;
    storage = length-set m.vec offset elem ∙ v.storage;
    size_max = v.size_max;
    pushed_count = v.pushed_count;
    popped_count = v.popped_count;
    ordered = v.ordered;
    bounded = v.bounded;
    order =
        v.order
        ∙ ap (λ (l : List ℕ). popped ++ l)
            (sym (
              ap
                (λ (i : ℕ). from_pos (set m.vec i elem) (front m) (back m + m.size_limit - front m))
                at
              ∙ from_pos-store m.vec (back m) (front m) m.size_limit v.storage (positive v) elem
                  room));
  }

  store-keeps :
      (elem offset : ℕ)
      → offset ≡ back m % m.size_limit
      → back m < front m
      → front m < back m + m.size_limit
      → get_or (set m.vec offset elem) (bit_and (front m) (m.size_limit - 1)) 0
        ≡ get_or m.vec (bit_and (front m) (m.size_limit - 1)) 0
  store-keeps elem offset at room some_left = get_or-set_ne m.vec elem 0 (λ e.
      lap_fresh (back m) (front m) m.size_limit 0 (positive v) room (omega (arith, some_left))
        (sym at ∙ e ∙ slot v (front m) ∙ ap (λ (n : ℕ). n % m.size_limit) (omega arith)))

  stored :
      (elem offset : ℕ)
      → offset ≡ bit_and (back m) (m.size_limit - 1)
      → get_or (set m.vec offset elem) (bit_and (back m) (m.size_limit - 1)) 0 ≡ elem
  stored elem offset at =
      ap (λ (i : ℕ). get_or (set m.vec offset elem) i 0) (sym at)
      ∙ get_or-set_self m.vec offset elem 0
          (rw (at, slot v (back m), v.storage) (in_lap (back m) m.size_limit (positive v)))

  -- The new version shows it.
  module _ {pack : ℕ} (to : PushesTo m pack) (small : length pushed + 1 < offset_limit) where
    grown : pack % offset_limit ≡ back m + 1
    grown =
        ap (λ (n : ℕ). n % offset_limit) to.2
        ∙ pack-offset m.counter_back (back m) (omega (arith, v.pushed_count))

    version-BackMatches : unpack_offsets m.counter_back pack ≡ some (pack % offset_limit)
    version-BackMatches =
        rw to.2 (unpack-pack m.counter_back ((back m + 1) % offset_limit) to.1 (omega arith))

    version-IsFifo :
        {elem : ℕ}
        → get_or m.vec (bit_and (back m) (m.size_limit - 1)) 0 ≡ elem
        → IsFifo (record m { version_back = pack }) (pushed ++ (elem ∷ [])) popped
    version-IsFifo {elem} item = record {
      log = v.log;
      is_pow = v.is_pow;
      storage = v.storage;
      size_max = v.size_max;
      pushed_count = omega (arith, grown, v.pushed_count, length-append {0} pushed (elem ∷ []));
      popped_count = v.popped_count;
      ordered = omega (arith, grown);
      bounded = omega (arith, grown, v.bounded);
      order =
          ap (λ (l : List ℕ). l ++ (elem ∷ [])) v.order
          ∙ append_assoc popped (contents m) (elem ∷ [])
          ∙ ap (λ (l : List ℕ). popped ++ l)
              (sym (
                ap (λ (n : ℕ). from_pos m.vec (front m) (n + m.size_limit - front m))
                  (grown ∙ omega arith)
                ∙ from_pos-reveal m.vec (back m) (front m) m.size_limit v.storage (positive v) to.0
                    v.bounded (ap (λ (i : ℕ). get_or m.vec i 0) (sym (slot v (back m))) ∙ item)));
    }

-- The queue stays as it is.
still :
    {m : Queue} {p p' : PushPc} {pop : PopPc} {pushed popped : List ℕ}
    → IsSingle m p pop pushed popped
    → Pushing m p'
    → IsSingle m p' pop pushed popped
still s pushing = record { fifo = s.fifo; pushing = pushing; popping = s.popping }

pub PushMove-IsSingle :
    {m m' : Queue} {p p' : PushPc} {pop : PopPc} {pushed popped : List ℕ}
    → length (add_pushed p pushed) < offset_limit
    → IsSingle m p pop pushed popped
    → PushMove m p m' p'
    → IsSingle m' p' pop (add_pushed p pushed) popped
PushMove-IsSingle small s (PushMove.call elem) = still s s.pushing
PushMove-IsSingle small s PushMove.load_front = still s (s.pushing, s.fifo.ordered, omega arith)
PushMove-IsSingle small s PushMove.load_counter =
    let (matches, l, h) = s.pushing in still s (matches, l, h, refl)
PushMove-IsSingle {m} small s (PushMove.load_version {elem} {front = f} {n} {counter}) =
    let (matches, l, h, e) = s.pushing in
    still s (rw (e, matches) (push_checked-Pushing m elem f n m.counter_back matches l h refl))
PushMove-IsSingle {m} small s (PushMove.cas_win {counter} {back = b} won) =
    let (matches, l, h, e, at) = s.pushing in
    record {
      fifo = counters-IsFifo ((counter + 1) % version_limit) m.counter_front s.fifo;
      pushing = (
        (
          omega arith,
          omega arith,
          ap (λ (b : ℕ). pack_offset ((counter + 1) % version_limit) ((b + 1) % offset_limit)) at,
        ),
        ap (λ (b : ℕ). bit_and b (m.size_limit - 1)) at,
      );
      popping =
          Popping-later m m.vec ((counter + 1) % version_limit) m.version_back (omega arith)
            (λ _. refl) _ s.popping;
    }
PushMove-IsSingle {m} small s (PushMove.cas_lose {elem} {front = f} {n}) =
    let (matches, l, h, e, at) = s.pushing in
    still s (push_again-Pushing m elem f n matches (omega arith) h)
PushMove-IsSingle {m} small s (PushMove.store {elem} {offset}) =
    let (to, at) = s.pushing in
    let here = at ∙ slot s.fifo (back m) in
    record {
      fifo = store-IsFifo s.fifo elem offset here to.0;
      pushing = (to, stored s.fifo elem offset at);
      popping =
          Popping-later m (set m.vec offset elem) m.counter_back m.version_back (omega arith)
            (store-keeps s.fifo elem offset here to.0) _ s.popping;
    }
PushMove-IsSingle {m} {pushed} small s (PushMove.store_version {elem} {pack}) =
    let (to, item) = s.pushing in
    let below : length pushed + 1 < offset_limit =
      omega (arith, small, length-append {0} pushed (elem ∷ [])) in
    record {
      fifo = version-IsFifo s.fifo to below item;
      pushing = version-BackMatches s.fifo to below;
      popping =
          Popping-later m m.vec m.counter_back pack (omega (arith, grown s.fifo to below))
            (λ _. refl) _ s.popping;
    }
PushMove-IsSingle small s (PushMove.end {done}) = still s s.pushing
