-- ===== src/LogThread/Buffers.antt =====
-- Where the buffers are: in one of the queues, or with one of the threads. Each buffer is given a
-- weight, and no step changes what they weigh together, unless a queue is full.
use latypus.Common.{
  ℕ, zero, suc, ◌+◌, ◌≤◌, ◌<◌, ◌≡◌, refl, false, some, none, List, [], ◌∷◌, ◌++◌, arith, ◌==◌,
  length, Bool-cases, inl, inr,
}
use latypus.LogThread.{
  Shared, Pc, idle, retry, no_buffer, locked, flagged, waiting, woken, holding, filled, notifying,
  update, Move, LogPc, writing, returning, System, wake, Flush, Step, push_back,
}

pub push_back-some :
    (num_buffers : ℕ) (queue q : List ℕ) (buffer : ℕ)
    → push_back num_buffers queue buffer ≡ some q
    → q ≡ queue ++ (buffer ∷ [])
unfolding push_back
push_back-some num_buffers queue q buffer h = ground arith

-- A queue is full when it has as many buffers as there are.
pub push_back-none :
    (num_buffers : ℕ) (queue : List ℕ) (buffer : ℕ)
    → push_back num_buffers queue buffer ≡ none
    → length queue ≡ num_buffers
unfolding push_back
push_back-none num_buffers queue buffer h = ground arith

module _ (w : ℕ → ℕ) where
  abbrev pub weight : List ℕ → ℕ
  weight [] = 0
  weight (b ∷ bs) = w b + weight bs

  pub weight-append : (xs ys : List ℕ) → weight (xs ++ ys) ≡ weight xs + weight ys
  weight-append [] ys = omega arith
  weight-append (x ∷ xs) ys = omega (arith, weight-append xs ys)

  pub weight-push :
      (num_buffers : ℕ) (queue q : List ℕ) (buffer : ℕ)
      → push_back num_buffers queue buffer ≡ some q
      → weight q ≡ weight queue + w buffer
  weight-push num_buffers queue q buffer h =
      rw (push_back-some num_buffers queue q buffer h)
        (omega (arith, weight-append queue (buffer ∷ [])))

  -- What a thread holds.
  abbrev pub held : Pc → ℕ
  held (holding buffer time message) = w buffer
  held (filled buffer time) = w buffer
  held _ = 0

  abbrev pub log_held : LogPc → ℕ
  log_held (writing closing buffer) = w buffer
  log_held (returning closing buffer) = w buffer
  log_held _ = 0

  abbrev pub sum_held : ℕ → (ℕ → Pc) → ℕ
  sum_held zero pc = 0
  sum_held (suc n) pc = held (pc n) + sum_held n pc

  abbrev pub total : ℕ → System → ℕ
  total n s =
      weight s.mem.log_buffers_free
      + weight s.mem.log_buffers_inuse
      + (sum_held n s.pc + log_held s.log)

  sum_held-update_out :
      (n i : ℕ) (pc : ℕ → Pc) (p : Pc) → n ≤ i → sum_held n (update pc i p) ≡ sum_held n pc
  sum_held-update_out zero i pc p h = refl
  sum_held-update_out (suc n) i pc p h =
      let ne : (i == n) ≡ false = ground arith in
      rw ne (omega (arith, sum_held-update_out n i pc p (omega arith)))

  pub sum_held-update :
      (n i : ℕ) (pc : ℕ → Pc) (p : Pc)
      → i < n
      → sum_held n (update pc i p) + held (pc i) ≡ sum_held n pc + held p
  sum_held-update zero i pc p h = absurd (omega arith)
  sum_held-update (suc n) i pc p h = elim (Bool-cases (i == n)) [
    | inl e ↦
        let same : i ≡ n = ground arith in
        rw (e, same) (omega (arith, sum_held-update_out n n pc p (omega arith)))
    | inr e ↦ rw e (omega (arith, sum_held-update n i pc p (ground arith)))
  ]

  -- One thread's own buffer is among those of all.
  pub held-sum : (n i : ℕ) (pc : ℕ → Pc) → i < n → held (pc i) ≤ sum_held n pc
  held-sum zero i pc h = absurd (omega arith)
  held-sum (suc n) i pc h = elim (Bool-cases (i == n)) [
    | inl e ↦ let same : i ≡ n = ground arith in rw same (omega arith)
    | inr e ↦ omega (arith, held-sum n i pc (ground arith))
  ]

  held-wake : (p : Pc) → held (wake p) ≡ held p
  held-wake idle = refl
  held-wake (retry t m) = refl
  held-wake (no_buffer t m) = refl
  held-wake (locked t m) = refl
  held-wake (flagged t m) = refl
  held-wake (waiting t m) = refl
  held-wake (woken t m) = refl
  held-wake (holding b t m) = refl
  held-wake (filled b t) = refl
  held-wake (notifying t) = refl

  sum_held-wake : (n : ℕ) (pc : ℕ → Pc) → sum_held n (λ j. wake (pc j)) ≡ sum_held n pc
  sum_held-wake zero pc = refl
  sum_held-wake (suc n) pc = omega (arith, held-wake (pc n), sum_held-wake n pc)

-- With the weight of one, the buffers are counted.
abbrev pub one : ℕ → ℕ
one b = 1

pub weight-one : (xs : List ℕ) → weight one xs ≡ length xs
weight-one [] = refl
weight-one (x ∷ xs) = omega (arith, weight-one xs)

module _ (w : ℕ → ℕ) (num_buffers : ℕ) where
  -- One step of a thread that logs, if the buffers in use and its own are no more than there are.
  Move-weights :
      {m m' : Shared} {p p' : Pc}
      → length m.log_buffers_inuse + held one p ≤ num_buffers
      → Move num_buffers m p m' p'
      → weight w m'.log_buffers_free + weight w m'.log_buffers_inuse + held w p'
        ≡ weight w m.log_buffers_free + weight w m.log_buffers_inuse + held w p
  Move-weights h (Move.call t msg) = refl
  Move-weights h (Move.pop e) = rw e (omega arith)
  Move-weights h (Move.pop_null e) = refl
  Move-weights h (Move.lock e) = refl
  Move-weights h Move.store = refl
  Move-weights h Move.wait = refl
  Move-weights h Move.wake_spuriously = refl
  Move-weights h (Move.relock e) = refl
  Move-weights h Move.copy = refl
  Move-weights {m} h (Move.push {buffer = b} {queue = q} e) =
      omega (arith, weight-push w num_buffers m.log_buffers_inuse q b e)
  Move-weights {m} h (Move.push_full {buffer = b} e) =
      absurd (omega (arith, push_back-none num_buffers m.log_buffers_inuse b e))
  Move-weights h Move.notify = refl

  Flush-weights :
      (n : ℕ) {s t : System} {l : LogPc}
      → s.log ≡ l
      → length s.mem.log_buffers_free + log_held one l ≤ num_buffers
      → Flush num_buffers s l t
      → total w n t ≡ total w n s
  Flush-weights n q h (Flush.sleep e f) = rw q refl
  Flush-weights n q h (Flush.exit e) = rw q refl
  Flush-weights n q h (Flush.wake_up e) = rw q refl
  Flush-weights n q h (Flush.pop e) = rw (q, e) (omega arith)
  Flush-weights n q h Flush.write = rw q refl
  Flush-weights n {s} q h (Flush.push {buffer = b} {queue = r} e) =
      rw q (omega (arith, weight-push w num_buffers s.mem.log_buffers_free r b e))
  Flush-weights n {s} q h (Flush.push_full {buffer = b} e) =
      absurd (omega (arith, push_back-none num_buffers s.mem.log_buffers_free b e))
  Flush-weights n q h (Flush.unlock e) = rw q refl
  Flush-weights n q h (Flush.cas_win e) = rw q refl
  Flush-weights n q h (Flush.cas_lose e) = rw q refl
  Flush-weights n {s} q h Flush.notify_all = rw q (omega (arith, sum_held-wake w n s.pc))
  Flush-weights n q h Flush.destroy = rw q refl
  Flush-weights n q h (Flush.written e) = rw q refl

  -- A step, if there are no more buffers than there should be.
  pub Step-total :
      {s t : System}
      → total one 1 s ≤ num_buffers
      → Step num_buffers s t
      → total w 1 t ≡ total w 1 s
  Step-total {s} h (Step.logs {m} {p} move) = omega (
    arith,
    sum_held-update w 1 0 s.pc p (omega arith),
    Move-weights
        (omega (arith, held-sum one 1 0 s.pc (omega arith), weight-one s.mem.log_buffers_inuse))
        move,
  )
  Step-total {s} h (Step.flushes move) =
      Flush-weights 1 refl (omega (arith, weight-one s.mem.log_buffers_free)) move
  Step-total h Step.shutdown = refl
