-- ===== src/LogThread.antt =====
-- src/log_thread.cc: one thread that logs and the one that writes, interleaved at each access of what
-- they share: a call on a queue, on the mutex, on a condition or on an atomic flag. A call on a queue
-- is one step on a bounded list: each queue has one thread that pushes and one that pops, and for
-- these Queue.Single shows that the atomic accesses keep such a list. Where more threads log, calls
-- on one queue overlap, and Queue.Overtaken shows what may then happen; that is not modelled here. A
-- buffer is named by the turn in which it was made. A wait that is timed may end at any time, and
-- the other one without a notification.
pub mod Buffers
pub mod Exclusive
pub mod Order
pub mod Wakeup
mod Tests
use latypus.Common.{
  ℕ, zero, suc, ◌+◌, ◌-◌, ◌<◌, ◌≡◌, Bool, true, false, Option, none, some, List, [], ◌∷◌, ◌++◌,
  ◌==◌, if◌then◌else◌, length, take,
}

abbrev pub log_buffer_size : ℕ
log_buffer_size = 1024

-- `num_buffers` is the size of both queues. The call as one step: see above.
unfoldable pub push_back : ℕ → List ℕ → ℕ → Option (List ℕ)
push_back num_buffers queue buffer =
    if length queue == num_buffers then none else some (queue ++ (buffer ∷ []))

abbrev or_full : List ℕ → Option (List ℕ) → List ℕ
or_full queue none = queue
or_full queue (some q) = q

-- The loop of `create_buffers`, up to the buffer `n`.
unfoldable pub create_buffers : ℕ → ℕ → List ℕ
unfolding push_back
create_buffers num_buffers zero = []
create_buffers num_buffers (suc n) =
    or_full (create_buffers num_buffers n) (push_back num_buffers (create_buffers num_buffers n) n)

-- The loop of `delete_buffers`: how often the queue of free buffers is found empty.
unfoldable pub delete_buffers : ℕ → List ℕ → ℕ
delete_buffers zero free = 0
delete_buffers (suc n) [] = suc (delete_buffers n [])
delete_buffers (suc n) (b ∷ free) = delete_buffers n free

-- What the threads share. `text` is what a buffer has before its zero, `calls` are the texts given
-- to `fwrite`, and `pushed`, which the code does not have, those of the buffers in the order in
-- which they got into `log_buffers_inuse`.
pub record Shared : Type 0 where
  pub log_buffers_free : List ℕ
  pub log_buffers_inuse : List ℕ
  pub last_time : ℕ
  pub running : Bool
  pub writer_waiting : Bool
  pub log_mutex : Bool
  pub text : ℕ → List ℕ
  pub calls : List (List ℕ)
  pub pushed : List (List ℕ)

-- Where a thread stands in `log`, with its arguments.
pub data Pc : Type 0 where
  idle : Pc
  retry no_buffer locked flagged waiting woken : (current_time : ℕ) (message : List ℕ) → Pc
  holding : (buffer current_time : ℕ) (message : List ℕ) → Pc
  filled : (buffer current_time : ℕ) → Pc
  notifying : (current_time : ℕ) → Pc

abbrev pub update {ℓ} : {A : Type ℓ} → (ℕ → A) → ℕ → A → ℕ → A
update f i v j = if i == j then v else f j

-- One step of `log`. A message has no zero in it.
pub data Move (num_buffers : ℕ) (m : Shared) : Pc → Shared → Pc → Type 0 where
  call : (time : ℕ) (message : List ℕ) → Move num_buffers m idle m (retry time message)
  pop :
      {buffer time : ℕ} {rest : List ℕ} {message : List ℕ}
      → m.log_buffers_free ≡ buffer ∷ rest
      → Move num_buffers m
          (retry time message)
          (record m { log_buffers_free = rest })
          (holding buffer time message)
  pop_null :
      {time : ℕ} {message : List ℕ}
      → m.log_buffers_free ≡ []
      → Move num_buffers m (retry time message) m (no_buffer time message)
  lock :
      {time : ℕ} {message : List ℕ}
      → m.log_mutex ≡ false
      → Move num_buffers m
          (no_buffer time message)
          (record m { log_mutex = true })
          (locked time message)
  store :
      {time : ℕ} {message : List ℕ}
      → Move num_buffers m
          (locked time message)
          (record m { writer_waiting = true })
          (flagged time message)
  wait :
      {time : ℕ} {message : List ℕ}
      → Move num_buffers m
          (flagged time message)
          (record m { log_mutex = false })
          (waiting time message)
  wake_spuriously :
      {time : ℕ} {message : List ℕ}
      → Move num_buffers m (waiting time message) m (woken time message)
  relock :
      {time : ℕ} {message : List ℕ}
      → m.log_mutex ≡ false
      → Move num_buffers m (woken time message) m (retry time message)
  copy :
      {buffer time : ℕ} {message : List ℕ}
      → Move num_buffers m
          (holding buffer time message)
          (record m { text = update m.text buffer (take (log_buffer_size - 1) message) })
          (filled buffer time)
  push :
      {buffer time : ℕ} {queue : List ℕ}
      → push_back num_buffers m.log_buffers_inuse buffer ≡ some queue
      → Move num_buffers m
          (filled buffer time)
          (record m { log_buffers_inuse = queue; pushed = m.pushed ++ (m.text buffer ∷ []) })
          (notifying time)
  push_full :
      {buffer time : ℕ}
      → push_back num_buffers m.log_buffers_inuse buffer ≡ none
      → Move num_buffers m (filled buffer time) m idle
  notify : {time : ℕ} → Move num_buffers m (notifying time) (record m { last_time = time }) idle

-- Where the writing thread stands in `mainloop` and `write_logs`. The flag is up when it is the
-- destructor that writes, after the thread has ended.
pub data LogPc : Type 0 where
  head asleep comparing waking finished deleting : LogPc
  flushing : (closing : Bool) → LogPc
  writing returning : (closing : Bool) (buffer : ℕ) → LogPc

pub record System : Type 0 where
  pub mem : Shared
  pub pc : ℕ → Pc
  pub log : LogPc

-- `notify_all`
abbrev pub wake : Pc → Pc
wake (waiting time message) = woken time message
wake p = p

-- One step of `mainloop`, or of the destructor. From `asleep` it has the mutex back.
pub data Flush (num_buffers : ℕ) (s : System) : LogPc → System → Type 0 where
  sleep :
      s.mem.running ≡ true
      → s.mem.log_mutex ≡ false
      → Flush num_buffers s head (record s { log = asleep })
  exit : s.mem.running ≡ false → Flush num_buffers s head (record s { log = finished })
  wake_up :
      s.mem.log_mutex ≡ false
      → Flush num_buffers s asleep
          (record s { mem = record s.mem { log_mutex = true }; log = flushing false })
  pop :
      {closing : Bool} {buffer : ℕ} {rest : List ℕ}
      → s.mem.log_buffers_inuse ≡ buffer ∷ rest
      → Flush num_buffers s (flushing closing) (record s {
        mem = record s.mem { log_buffers_inuse = rest };
        log = writing closing buffer;
      })
  write :
      {closing : Bool} {buffer : ℕ}
      → Flush num_buffers s (writing closing buffer) (record s {
        mem = record s.mem { calls = s.mem.calls ++ (s.mem.text buffer ∷ []) };
        log = returning closing buffer;
      })
  push :
      {closing : Bool} {buffer : ℕ} {queue : List ℕ}
      → push_back num_buffers s.mem.log_buffers_free buffer ≡ some queue
      → Flush num_buffers s
          (returning closing buffer)
          (record s { mem = record s.mem { log_buffers_free = queue }; log = flushing closing })
  push_full :
      {closing : Bool} {buffer : ℕ}
      → push_back num_buffers s.mem.log_buffers_free buffer ≡ none
      → Flush num_buffers s (returning closing buffer) (record s { log = flushing closing })
  unlock :
      s.mem.log_buffers_inuse ≡ []
      → Flush num_buffers s
          (flushing false)
          (record s { mem = record s.mem { log_mutex = false }; log = comparing })
  cas_win :
      s.mem.writer_waiting ≡ true
      → Flush num_buffers s comparing
          (record s { mem = record s.mem { writer_waiting = false }; log = waking })
  cas_lose : s.mem.writer_waiting ≡ false → Flush num_buffers s comparing (record s { log = head })
  notify_all : Flush num_buffers s waking (record s { pc = λ j. wake (s.pc j); log = head })
  destroy : Flush num_buffers s finished (record s { log = flushing true })
  written :
      s.mem.log_buffers_inuse ≡ []
      → Flush num_buffers s (flushing true) (record s { log = deleting })

-- The thread that logs, thread 0, or the writing one does the next step, and `shutdown` may come at any
-- time.
pub data Step (num_buffers : ℕ) (s : System) : System → Type 0 where
  logs :
      {m : Shared} {p : Pc}
      → Move num_buffers s.mem (s.pc 0) m p
      → Step num_buffers s (record s { mem = m; pc = update s.pc 0 p })
  flushes : {t : System} → Flush num_buffers s s.log t → Step num_buffers s t
  shutdown : Step num_buffers s (record s { mem = record s.mem { running = false } })

-- After the constructor.
unfoldable pub init : ℕ → System
unfolding create_buffers
init num_buffers = record {
  mem = record {
    log_buffers_free = create_buffers num_buffers num_buffers;
    log_buffers_inuse = [];
    last_time = 0;
    running = true;
    writer_waiting = false;
    log_mutex = false;
    text = λ _. [];
    calls = [];
    pushed = [];
  };
  pc = λ _. idle;
  log = head;
}

pub data Reach (num_buffers : ℕ) : System → Type 0 where
  start : Reach num_buffers (init num_buffers)
  later : {s t : System} → Reach num_buffers s → Step num_buffers s t → Reach num_buffers t
