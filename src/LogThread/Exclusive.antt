-- ===== src/LogThread/Exclusive.antt =====
-- No buffer is lost or shared, in any interleaving, so no queue is ever full when it is pushed to.
use latypus.Common.{
  ℕ, zero, suc, ◌+◌, ◌≤◌, ◌≡◌, ◌≢◌, refl, ◌∙◌, Bool, some, List, [], ◌∷◌, arith, ◌==◌,
  if◌then◌else◌, length, Option-cases, inl, inr,
}
use latypus.LogThread.{
  idle, returning, deleting, System, Reach, start, later, init, push_back, create_buffers,
  delete_buffers,
}
use latypus.LogThread.Buffers.{
  weight, log_held, sum_held, total, one, weight-one, weight-push, push_back-none, Step-total,
}

module _ (w : ℕ → ℕ) where
  abbrev sum_below : ℕ → ℕ
  sum_below zero = 0
  sum_below (suc n) = w n + sum_below n

  sum_held_idle : (n : ℕ) → sum_held w n (λ _. idle) ≡ 0
  sum_held_idle zero = refl
  sum_held_idle (suc n) = omega (arith, sum_held_idle n)

sum_below-one : (n : ℕ) → sum_below one n ≡ n
sum_below-one zero = refl
sum_below-one (suc n) = omega (arith, sum_below-one n)

-- Each buffer is made, and pushed, once.
create_buffers-weight :
    (w : ℕ → ℕ) (num_buffers n : ℕ)
    → n ≤ num_buffers
    → (weight w (create_buffers num_buffers n) ≡ sum_below w n)
      × (length (create_buffers num_buffers n) ≡ n)
unfolding create_buffers
create_buffers-weight w num_buffers zero h = (refl, refl)
create_buffers-weight w num_buffers (suc n) h =
    let made = create_buffers num_buffers n in
    let (k, l) = create_buffers-weight w num_buffers n (omega arith) in
    elim (Option-cases (push_back num_buffers made n)) [
      | inl e ↦ absurd (omega (arith, push_back-none num_buffers made n e))
      | inr (q, e) ↦ rw e (
        omega (arith, weight-push w num_buffers made q n e),
        omega (arith, weight-push one num_buffers made q n e, weight-one q, weight-one made),
      )
    ]

init-total :
    (w : ℕ → ℕ) (n num_buffers : ℕ) → total w n (init num_buffers) ≡ sum_below w num_buffers
unfolding init
init-total w n num_buffers =
    omega
      (arith, sum_held_idle w n, (create_buffers-weight w num_buffers num_buffers (omega arith)).0)

module _ {num_buffers : ℕ} where
  count_reached : {s : System} → Reach num_buffers s → total one 1 s ≡ num_buffers
  count_reached start = init-total one 1 num_buffers ∙ sum_below-one num_buffers
  count_reached (later r step) =
      Step-total one num_buffers (omega (arith, count_reached r)) step ∙ count_reached r

abbrev pub is_buffer : ℕ → ℕ → ℕ
is_buffer b c = if b == c then 1 else 0

some_of_room :
    (num_buffers : ℕ) (queue : List ℕ) (buffer : ℕ)
    → length queue ≢ num_buffers
    → (q : List ℕ) × (push_back num_buffers queue buffer ≡ some q)
some_of_room num_buffers queue buffer room =
    elim (Option-cases (push_back num_buffers queue buffer)) [
      | inl e ↦ absurd (room (push_back-none num_buffers queue buffer e))
      | inr found ↦ found
    ]

-- Nor is a buffer that was written dropped.
pub write_logs_finds_room :
    {num_buffers : ℕ} {s : System}
    → Reach num_buffers s
    → (closing : Bool) (buffer : ℕ) → s.log ≡ returning closing buffer
    → (q : List ℕ) × (push_back num_buffers s.mem.log_buffers_free buffer ≡ some q)
write_logs_finds_room {num_buffers} {s} r closing buffer at =
    let has : log_held one s.log ≡ 1 = rw at refl in
    let free = weight-one s.mem.log_buffers_free in
    some_of_room num_buffers s.mem.log_buffers_free buffer
      λ full. omega (arith, has, free, count_reached r)

delete_buffers_enough : (n : ℕ) (free : List ℕ) → length free ≡ n → delete_buffers n free ≡ 0
unfolding delete_buffers
delete_buffers_enough zero free h = refl
delete_buffers_enough (suc n) [] h = absurd (omega arith)
delete_buffers_enough (suc n) (b ∷ free) h = delete_buffers_enough n free (omega arith)

-- The destructor finds every buffer, if the other thread is not logging and all was written.
pub delete_buffers_finds_all :
    {num_buffers : ℕ} {s : System}
    → Reach num_buffers s
    → s.log ≡ deleting
    → s.mem.log_buffers_inuse ≡ []
    → sum_held one 1 s.pc ≡ 0
    → delete_buffers num_buffers s.mem.log_buffers_free ≡ 0
delete_buffers_finds_all {num_buffers} {s} r at none_used none_held =
    let has : log_held one s.log ≡ 0 = rw at refl in
    let used : weight one s.mem.log_buffers_inuse ≡ 0 = rw none_used refl in
    delete_buffers_enough num_buffers s.mem.log_buffers_free
      (omega (arith, has, used, none_held, weight-one s.mem.log_buffers_free, count_reached r))
