-- ===== src/LogThread/Wakeup.antt =====
-- What a thread that waits for a buffer depends on.
use latypus.Common.{ℕ, ◌≡◌, refl, Bool, true, false, List}
use latypus.LogThread.{waiting, LogPc, waking, System, Flush}

-- Steps of the writing thread alone.
pub data LogRun (num_buffers : ℕ) (s : System) : System → Type 0 where
  stay : LogRun num_buffers s s
  more :
      {t u : System} → LogRun num_buffers s t → Flush num_buffers t t.log u → LogRun num_buffers s u

abbrev pub is_waking : LogPc → Bool
is_waking waking = true
is_waking _ = false

-- The thread waits, the flag that says so is down, and no notification is on its way.
abbrev pub IsForgotten : ℕ → ℕ → List ℕ → System → Type 0
IsForgotten i time message s =
    (s.pc i ≡ waiting time message) × (s.mem.writer_waiting ≡ false) × (is_waking s.log ≡ false)

Flush-IsForgotten :
    (num_buffers i time : ℕ) (message : List ℕ) {s t : System} {l : LogPc}
    → s.log ≡ l
    → IsForgotten i time message s
    → Flush num_buffers s l t
    → IsForgotten i time message t
Flush-IsForgotten n i time msg q (p, f, w) (Flush.cas_win e) = cc
Flush-IsForgotten n i time msg q (p, f, w) Flush.notify_all = cc
Flush-IsForgotten n i time msg q (p, f, w) (Flush.sleep e g) = (p, f, refl)
Flush-IsForgotten n i time msg q (p, f, w) (Flush.exit e) = (p, f, refl)
Flush-IsForgotten n i time msg q (p, f, w) (Flush.wake_up e) = (p, f, refl)
Flush-IsForgotten n i time msg q (p, f, w) (Flush.pop e) = (p, f, refl)
Flush-IsForgotten n i time msg q (p, f, w) Flush.write = (p, f, refl)
Flush-IsForgotten n i time msg q (p, f, w) (Flush.push e) = (p, f, refl)
Flush-IsForgotten n i time msg q (p, f, w) (Flush.push_full e) = (p, f, refl)
Flush-IsForgotten n i time msg q (p, f, w) (Flush.unlock e) = (p, f, refl)
Flush-IsForgotten n i time msg q (p, f, w) (Flush.cas_lose e) = (p, f, refl)
Flush-IsForgotten n i time msg q (p, f, w) Flush.destroy = (p, f, refl)
Flush-IsForgotten n i time msg q (p, f, w) (Flush.written e) = (p, f, refl)

-- A thread that waits for a buffer while `writer_waiting` is down and no notification is on its way
-- keeps waiting, however many rounds the writing thread does alone, and whatever buffers come free.
pub waits_for_good :
    (num_buffers i time : ℕ) (message : List ℕ) (s t : System)
    → IsForgotten i time message s
    → LogRun num_buffers s t
    → IsForgotten i time message t
waits_for_good num_buffers i time message s t f stay = f
waits_for_good num_buffers i time message s t f (more {t = u} r step) =
    Flush-IsForgotten num_buffers i time message refl
      (waits_for_good num_buffers i time message s u f r) step
