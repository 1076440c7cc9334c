-- ===== src/Engine/Turns.antt =====
-- Threads take turns: the turn is always in range, and goes round.
use latypus.Common.{
  ℕ, zero, suc, ◌+◌, ◌≤◌, ◌<◌, ◌≡◌, ◌≢◌, refl, sym, ap, ◌∙◌, subst, Bool, true, false, Option, none,
  some, List, [], ◌∷◌, arith, ◌==◌, if◌then◌else◌, ==_refl, length, get_elem?, take, drop, map,
}
use latypus.Engine.{Threads, put, Chosen, out_of_range, thread, take_turn, choose_thread}
use latypus.Engine.Registered.{Slot, IsThreads}

get-within :
    (l : List ℕ) (n : ℕ)
    → n < length l
    → (t : ℕ) × (rest : List ℕ) × (get_elem? l n ≡ some t)
      × (drop n l ≡ t ∷ rest)
      × (drop (suc n) l ≡ rest)
get-within [] n h = absurd (omega arith)
get-within (x ∷ l) zero h = (x, l, refl, refl, refl)
get-within (x ∷ l) (suc n) h = get-within l n (omega arith)

abbrev after : ℕ → List ℕ → ℕ
after n l = if n + 1 == length l then 0 else n + 1

choose_thread-take_turn :
    (s : Threads) (mask : ℕ) (l : List ℕ) (n : ℕ)
    → s.threads_map mask ≡ some l
    → s.threads_next mask ≡ some n
    → choose_thread s mask ≡ take_turn s mask l n
unfolding choose_thread
choose_thread-take_turn s mask l n e f = rw (e, choose_thread) (rw (f, choose_thread) refl)

abbrev pub moved : Threads → ℕ → ℕ → List ℕ → Threads
moved s mask n l = record s { threads_next = put s.threads_next mask (after n l) }

take_turn-thread :
    (s : Threads) (mask : ℕ) (l : List ℕ) (n t : ℕ)
    → get_elem? l n ≡ some t
    → take_turn s mask l n ≡ (moved s mask n l, thread t)
unfolding take_turn
take_turn-thread s mask l n t g = rw (g, take_turn) refl

choose_thread-turn :
    (s : Threads) (mask : ℕ) (l : List ℕ) (n t : ℕ)
    → s.threads_map mask ≡ some l
    → s.threads_next mask ≡ some n
    → get_elem? l n ≡ some t
    → choose_thread s mask ≡ (moved s mask n l, thread t)
choose_thread-turn s mask l n t e f g =
    choose_thread-take_turn s mask l n e f ∙ take_turn-thread s mask l n t g

-- What so many calls of `choose_thread` return, and the threads after them.
abbrev pub choose_times : ℕ → Threads → ℕ → List Chosen × Threads
choose_times zero s mask = ([], s)
choose_times (suc k) s mask =
    let (s1, chosen) = choose_thread s mask in
    let (rest, s2) = choose_times k s1 mask in (chosen ∷ rest, s2)

abbrev pub Turns : ℕ → List ℕ → ℕ → ℕ → List Chosen × Threads → Type 0
Turns mask l n k (chosen, s) =
    (chosen ≡ map thread (take k (drop n l)))
    × (s.threads_map mask ≡ some l)
    × (s.threads_next mask ≡ some (if n + k == length l then 0 else n + k))

abbrev then_times : ℕ → ℕ → Threads × Chosen → List Chosen × Threads
then_times k mask (s, chosen) = (chosen ∷ (choose_times k s mask).0, (choose_times k s mask).1)

put_here :
    (s : Threads) (mask n : ℕ) (l : List ℕ)
    → (moved s mask n l).threads_next mask ≡ some (after n l)
put_here s mask n l = rw (==_refl mask) refl

not_last : (n k : ℕ) (l : List ℕ) → n + suc (suc k) ≤ length l → after n l ≡ n + 1
not_last n k l h = ground arith

take-drop-suc :
    (k n t : ℕ) (l rest : List ℕ)
    → drop n l ≡ t ∷ rest
    → drop (suc n) l ≡ rest
    → take (suc k) (drop n l) ≡ t ∷ take k (drop (n + 1) l)
take-drop-suc k n t l rest p q =
    let e : suc n ≡ n + 1 = omega arith in
    ap (take (suc k)) p ∙ ap (λ (r : List ℕ). t ∷ take k r) (sym q ∙ ap (λ (m : ℕ). drop m l) e)

-- From a turn `n` that is in range, `k` calls that do not reach past the last thread return the
-- threads of the mask in order from the `n`th on, and leave the turn at the one after, which comes
-- round to the first.
pub choose_thread_cycles :
    (k : ℕ) (s : Threads) (mask : ℕ) (l : List ℕ) (n : ℕ)
    → n < length l
    → n + k ≤ length l
    → s.threads_map mask ≡ some l
    → s.threads_next mask ≡ some n
    → Turns mask l n k (choose_times k s mask)
choose_thread_cycles zero s mask l n lt le e f = (
  refl,
  e,
  f ∙ ap some (let h : n ≡ (if n + 0 == length l then 0 else n + 0) = ground arith in h),
)
choose_thread_cycles (suc zero) s mask l n lt le e f =
    let (t, rest, g, p, q) = get-within l n lt in
    subst (λ (r : Threads × Chosen). Turns mask l n 1 (then_times 0 mask r))
      (sym (choose_thread-turn s mask l n t e f g))
      (sym (ap (map thread) (take-drop-suc 0 n t l rest p q)), e, put_here s mask n l)
choose_thread_cycles (suc (suc k)) s mask l n lt le e f =
    let (t, rest, g, p, q) = get-within l n lt in
    let s1 = moved s mask n l in
    let step = not_last n k l le in
    let (chosen, same, next) =
      choose_thread_cycles (suc k) s1 mask l (n + 1) (omega arith) (omega arith) e
        (put_here s mask n l ∙ ap some step) in
    subst (λ (r : Threads × Chosen). Turns mask l n (suc (suc k)) (then_times (suc k) mask r))
      (sym (choose_thread-turn s mask l n t e f g))
      (
        ap (λ (c : List Chosen). thread t ∷ c) chosen
            ∙ sym (ap (map thread) (take-drop-suc (suc k) n t l rest p q)),
        same,
        (let m : n + 1 + suc k ≡ n + suc (suc k) = omega arith in
            next ∙ ap (λ (m : ℕ). some (if m == length l then 0 else m)) m),
      )

abbrev pub Chose : Threads × Chosen → Type 0
Chose (s, chosen) = IsThreads s × (chosen ≢ out_of_range)

after-range : (n : ℕ) (l : List ℕ) → n < length l → after n l < length l
after-range n l h = ground arith

moved-Slot :
    (b : Bool) (o : Option (List ℕ)) (next : Option ℕ) (l : List ℕ) (n : ℕ)
    → (b ≡ true → o ≡ some l)
    → n < length l
    → Slot o next
    → Slot o (if b then some n else next)
moved-Slot true o next l n e h k = subst (λ (x : Option (List ℕ)). Slot x (some n)) (sym (e refl)) h
moved-Slot false o next l n e h k = k

moved-IsThreads :
    (s : Threads) (mask : ℕ) (l : List ℕ) (n : ℕ)
    → IsThreads s
    → s.threads_map mask ≡ some l
    → n < length l
    → IsThreads (moved s mask n l)
moved-IsThreads s mask l n v e h j =
    moved-Slot (mask == j) (s.threads_map j) (s.threads_next j) l (after n l)
      (λ b. ap s.threads_map (sym (ground (arith, b))) ∙ e) (after-range n l h) (v j)

take_turn-Chose :
    (s : Threads) (mask : ℕ) (l : List ℕ) (n : ℕ)
    → IsThreads s
    → s.threads_map mask ≡ some l
    → n < length l
    → Chose (take_turn s mask l n)
take_turn-Chose s mask l n v e h =
    let (t, rest, g, p, q) = get-within l n h in
    subst Chose (sym (take_turn-thread s mask l n t g)) (moved-IsThreads s mask l n v e h, λ q. cc)

-- Choosing a thread keeps the turns in range, and never reads outside of a list of threads.
pub choose_thread-IsThreads : (s : Threads) (mask : ℕ) → IsThreads s → Chose (choose_thread s mask)
unfolding choose_thread
choose_thread-IsThreads s mask v =
    split (s.threads_map mask) (s.threads_next mask) (v mask) refl refl
  where
    split :
        (l : Option (List ℕ)) (n : Option ℕ)
        → Slot l n
        → s.threads_map mask ≡ l
        → s.threads_next mask ≡ n
        → Chose (choose_thread s mask)
    split none none h e f = rw (e, choose_thread) (v, λ q. cc)
    split none (some n) h e f = absurd h
    split (some l) none h e f = absurd h
    split (some l) (some n) h e f =
        subst Chose (sym (choose_thread-take_turn s mask l n e f))
          (take_turn-Chose s mask l n v e h)
