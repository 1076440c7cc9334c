-- ===== src/Queue/Threads.antt =====
-- src/queue_atomic.h with any number of threads inside of `push_back` and `pop_front`, interleaved at
-- each access of an atomic variable. The accesses are taken in one order, whatever order of memory
-- they ask for.
use Prim.Native.Nat.{bit_and}
use latypus.Common.{
  ℕ, ◌+◌, ◌-◌, ◌%◌, ◌^◌, ◌<◌, ◌≡◌, Bool, true, false, Option, none, some, List, [], ◌∷◌, ◌++◌, ltb,
  ◌==◌, if◌then◌else◌, set, get_or,
}
use latypus.Io.{sub64}
use latypus.Queue.{
  Queue, offset_limit, version_limit, pack_offset, unpack_offsets, back, front, queue_atomic,
}

abbrev pub spin_limit : ℕ
spin_limit = 2 ^ 24

-- Where a thread stands in `push_back`, with the variables that it still reads.
pub data PushPc : Type 0 where
  idle : PushPc
  called : (elem : ℕ) → PushPc
  looping : (elem front spin_count : ℕ) → PushPc
  counted : (elem front spin_count counter_back : ℕ) → PushPc
  trying : (elem front spin_count counter_back back : ℕ) → PushPc
  storing : (elem offset pack : ℕ) → PushPc
  leaving : (elem pack : ℕ) → PushPc
  returned : (done : Bool) → PushPc

-- The end of a round that has not got in.
abbrev pub push_again : ℕ → ℕ → ℕ → PushPc
push_again elem front spin_count =
    if ltb (spin_count + 1) spin_limit
    then PushPc.looping elem front (spin_count + 1)
    else PushPc.returned false

-- What follows from the offset that was unpacked, if the versions matched.
abbrev pub push_checked : ℕ → ℕ → ℕ → ℕ → Option ℕ → PushPc
push_checked elem front spin_count counter none = push_again elem front spin_count
push_checked elem front spin_count counter (some back) =
    if front == back
    then PushPc.returned false
    else PushPc.trying elem front spin_count counter back

pub data PushMove (m : Queue) : PushPc → Queue → PushPc → Type 0 where
  call : (elem : ℕ) → PushMove m PushPc.idle m (PushPc.called elem)
  load_front : {elem : ℕ} → PushMove m (PushPc.called elem) m (PushPc.looping elem (front m) 0)
  load_counter :
      {elem front n : ℕ}
      → PushMove m (PushPc.looping elem front n) m (PushPc.counted elem front n m.counter_back)
  load_version :
      {elem front n counter : ℕ}
      → PushMove m
          (PushPc.counted elem front n counter)
          m
          (push_checked elem front n counter (unpack_offsets counter m.version_back))
  cas_win :
      {elem front n counter back : ℕ}
      → m.counter_back ≡ counter
      → PushMove m
          (PushPc.trying elem front n counter back)
          (record m { counter_back = (counter + 1) % version_limit })
          (PushPc.storing elem
            (bit_and back (m.size_limit - 1))
            (pack_offset ((counter + 1) % version_limit) ((back + 1) % offset_limit)))
  -- Another thread was faster, or for no reason.
  cas_lose :
      {elem front n counter back : ℕ}
      → PushMove m (PushPc.trying elem front n counter back) m (push_again elem front n)
  store :
      {elem offset pack : ℕ}
      → PushMove m
          (PushPc.storing elem offset pack)
          (record m { vec = set m.vec offset elem })
          (PushPc.leaving elem pack)
  store_version :
      {elem pack : ℕ}
      → PushMove m
          (PushPc.leaving elem pack)
          (record m { version_back = pack })
          (PushPc.returned true)
  end : {done : Bool} → PushMove m (PushPc.returned done) m PushPc.idle

-- Where a thread stands in `pop_front`.
pub data PopPc : Type 0 where
  idle called : PopPc
  looping : (back spin_count : ℕ) → PopPc
  counted : (back spin_count counter_front : ℕ) → PopPc
  trying : (back spin_count counter_front front : ℕ) → PopPc
  loading : (offset pack : ℕ) → PopPc
  leaving : (val pack : ℕ) → PopPc
  returned : (val : ℕ) → PopPc

abbrev pub pop_again : ℕ → ℕ → PopPc
pop_again back spin_count =
    if ltb (spin_count + 1) spin_limit
    then PopPc.looping back (spin_count + 1)
    else PopPc.returned 0

abbrev pub pop_checked : ℕ → ℕ → ℕ → ℕ → Option ℕ → PopPc
pop_checked size_limit back spin_count counter none = pop_again back spin_count
pop_checked size_limit back spin_count counter (some front) =
    if sub64 front back == size_limit
    then PopPc.returned 0
    else PopPc.trying back spin_count counter front

pub data PopMove (m : Queue) : PopPc → Queue → PopPc → Type 0 where
  call : PopMove m PopPc.idle m PopPc.called
  load_back : PopMove m PopPc.called m (PopPc.looping (back m) 0)
  load_counter :
      {back n : ℕ} → PopMove m (PopPc.looping back n) m (PopPc.counted back n m.counter_front)
  load_version :
      {back n counter : ℕ}
      → PopMove m
          (PopPc.counted back n counter)
          m
          (pop_checked m.size_limit back n counter (unpack_offsets counter m.version_front))
  cas_win :
      {back n counter front : ℕ}
      → m.counter_front ≡ counter
      → PopMove m
          (PopPc.trying back n counter front)
          (record m { counter_front = (counter + 1) % version_limit })
          (PopPc.loading
            (bit_and front (m.size_limit - 1))
            (pack_offset ((counter + 1) % version_limit) ((front + 1) % offset_limit)))
  cas_lose :
      {back n counter front : ℕ}
      → PopMove m (PopPc.trying back n counter front) m (pop_again back n)
  load :
      {offset pack : ℕ}
      → PopMove m (PopPc.loading offset pack) m (PopPc.leaving (get_or m.vec offset 0) pack)
  store_version :
      {val pack : ℕ}
      → PopMove m (PopPc.leaving val pack) (record m { version_front = pack }) (PopPc.returned val)
  end : {val : ℕ} → PopMove m (PopPc.returned val) m PopPc.idle

-- The code has neither `pushed` nor `popped`: the items in the order in which the new version was
-- stored.
pub record System : Type 0 where
  pub mem : Queue
  pub push : ℕ → PushPc
  pub pop : ℕ → PopPc
  pub pushed : List ℕ
  pub popped : List ℕ

abbrev pub add_pushed : PushPc → List ℕ → List ℕ
add_pushed (PushPc.leaving elem pack) pushed = pushed ++ (elem ∷ [])
add_pushed _ pushed = pushed

abbrev pub add_popped : PopPc → List ℕ → List ℕ
add_popped (PopPc.leaving val pack) popped = popped ++ (val ∷ [])
add_popped _ popped = popped

abbrev pub update {ℓ} : {A : Type ℓ} → (ℕ → A) → ℕ → A → ℕ → A
update f i v j = if i == j then v else f j

-- One of the threads that push, or of those that pop, does the next step.
pub data Step (producers consumers : ℕ) (s : System) : System → Type 0 where
  pushes :
      (i : ℕ) {m : Queue} {p : PushPc}
      → i < producers
      → PushMove s.mem (s.push i) m p
      → Step producers consumers s
          (record s { mem = m; push = update s.push i p; pushed = add_pushed (s.push i) s.pushed })
  pops :
      (i : ℕ) {m : Queue} {p : PopPc}
      → i < consumers
      → PopMove s.mem (s.pop i) m p
      → Step producers consumers s
          (record s { mem = m; pop = update s.pop i p; popped = add_popped (s.pop i) s.popped })

abbrev pub start : ℕ → System
start size_limit = record {
  mem = queue_atomic size_limit;
  push = λ _. PushPc.idle;
  pop = λ _. PopPc.idle;
  pushed = [];
  popped = [];
}

pub data Reach (producers consumers size_limit : ℕ) : System → Type 0 where
  here : Reach producers consumers size_limit (start size_limit)
  next :
      {s t : System}
      → Reach producers consumers size_limit s
      → Step producers consumers s t
      → Reach producers consumers size_limit t
