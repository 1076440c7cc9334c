-- ===== src/LogThread/Tests.antt =====
-- One buffer and one thread that logs `A`, and then waits for the buffer to log `B`.
use latypus.Common.{ℕ, ◌≡◌, refl, [], ◌∷◌}
use latypus.LogThread.{
  Move, Flush, System, logs, flushes, Reach, start, later, init, create_buffers, push_back,
}
use latypus.LogThread.Wakeup.{LogRun, stay, more, IsForgotten, waits_for_good}

abbrev Reached : ℕ → Type 0
Reached num_buffers = (s : System) × Reach num_buffers s

-- The thread has copied its first entry.
abbrev one_filled : Reached 1
unfolding init create_buffers push_back
one_filled = (
  _,
  later (later (later start (logs (Move.call 7 (b'A' ∷ [])))) (logs (Move.pop refl)))
      (logs Move.copy),
)

-- It has pushed the entry, called again, found no buffer and not locked the mutex yet; the thread
-- that writes is about to write.
abbrev none_free : Reached 1
unfolding init create_buffers push_back
none_free = (
  _,
  later
      (later
        (later
          (later
            (later (later (later one_filled.1 (logs (Move.push refl))) (logs Move.notify))
              (logs (Move.call 8 (b'B' ∷ []))))
            (logs (Move.pop_null refl)))
          (flushes (Flush.sleep refl refl)))
        (flushes (Flush.wake_up refl)))
      (flushes (Flush.pop refl)),
)

-- It raises the flag after that thread has let go of the mutex, which then finds the flag and
-- notifies before it waits.
abbrev stranded : Reached 1
unfolding init create_buffers push_back
stranded = (
  _,
  later
      (later
        (later
          (later
            (later
              (later (later (later none_free.1 (flushes Flush.write)) (flushes (Flush.push refl)))
                (flushes (Flush.unlock refl)))
              (logs (Move.lock refl)))
            (logs Move.store))
          (flushes (Flush.cas_win refl)))
        (flushes Flush.notify_all))
      (logs Move.wait),
)

stranded-IsForgotten : IsForgotten 0 8 (b'B' ∷ []) stranded.0
unfolding init create_buffers push_back
stranded-IsForgotten = (refl, refl, refl)

-- The buffer is free.
stranded_free : stranded.0.mem.log_buffers_free ≡ 0 ∷ []
unfolding init create_buffers push_back
stranded_free = refl

-- One more round.
abbrev round : (s : System) × LogRun 1 stranded.0 s
unfolding init create_buffers push_back
round = (
  _,
  more (more (more (more stay (Flush.sleep refl refl)) (Flush.wake_up refl)) (Flush.unlock refl))
      (Flush.cas_lose refl),
)

waits_for_good_example : IsForgotten 0 8 (b'B' ∷ []) round.0
waits_for_good_example =
    waits_for_good 1 0 8 (b'B' ∷ []) stranded.0 round.0 stranded-IsForgotten round.1
