-- ===== src/LogThread/Order.antt =====
-- What is written comes out in the order in which it was logged.
use latypus.Common.{ℕ, List, [], ◌∷◌, ◌++◌, map}
use latypus.LogThread.{Shared, LogPc, writing}

-- The text that was taken from the queue and is not written yet.
abbrev pub taken : (ℕ → List ℕ) → LogPc → List (List ℕ)
taken text (writing closing buffer) = text buffer ∷ []
taken text _ = []

-- What is written, and what is on its way.
abbrev pub outgoing : Shared → LogPc → List (List ℕ)
outgoing m log = m.calls ++ (taken m.text log ++ map m.text m.log_buffers_inuse)
