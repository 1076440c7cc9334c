-- ===== src/Engine/Registered.antt =====
-- Which threads are registered for a mask, and whose turn it is.
use Prim.Native.Nat.{bit_and}
use latypus.Common.{
  ℕ, ◌<◌, Bool, true, false, Option, none, some, List, [], ◌∷◌, ◌++◌, arith, ◌==◌, if◌then◌else◌,
  if_elim, length, length-append,
}
use latypus.Engine.{Threads, put, listed, turn, add_mask, add_masks, add_thread}

-- A mask has a list of threads and a turn in it, or neither.
abbrev pub Slot : Option (List ℕ) → Option ℕ → Type 0
Slot none none = Unit
Slot (some threads) (some n) = n < length threads
Slot none (some n) = ⊥
Slot (some threads) none = ⊥

abbrev pub IsThreads : Threads → Type 0
IsThreads s = (mask : ℕ) → Slot (s.threads_map mask) (s.threads_next mask)

Slot-add :
    (l : Option (List ℕ)) (n : Option ℕ) (t : ℕ) → Slot l n → turn n < length (listed l ++ (t ∷ []))
Slot-add none none t h = omega arith
Slot-add (some l) (some n) t h = omega (arith, length-append l (t ∷ []))
Slot-add none (some n) t h = absurd h
Slot-add (some l) none t h = absurd h

pub Slot-if :
    (b : Bool) (o : Option (List ℕ)) (m : Option ℕ) (l : List ℕ) (n : ℕ)
    → n < length l
    → Slot o m
    → Slot (if b then some l else o) (if b then some n else m)
Slot-if true o m l n h k = h
Slot-if false o m l n h k = k

put_both :
    (s : Threads) (mask j n : ℕ) (l : List ℕ)
    → IsThreads s
    → n < length l
    → Slot (put s.threads_map mask l j) (put s.threads_next mask n j)
put_both s mask j n l v h = Slot-if (mask == j) (s.threads_map j) (s.threads_next j) l n h (v j)

add_mask-IsThreads : (t : ℕ) (s : Threads) (mask : ℕ) → IsThreads s → IsThreads (add_mask t s mask)
unfolding add_mask
add_mask-IsThreads t s mask v j =
    put_both s mask j (turn (s.threads_next mask)) (listed (s.threads_map mask) ++ (t ∷ [])) v
      (Slot-add (s.threads_map mask) (s.threads_next mask) t (v mask))

add_masks-IsThreads :
    (t thread_mask : ℕ) (table : List ℕ) (s : Threads)
    → IsThreads s
    → IsThreads (add_masks t thread_mask table s)
unfolding add_masks
add_masks-IsThreads t thread_mask [] s v = v
add_masks-IsThreads t thread_mask (mask ∷ table) s v =
    add_masks-IsThreads t thread_mask table
      (if bit_and thread_mask mask == 0 then s else add_mask t s mask)
      (if_elim IsThreads (bit_and thread_mask mask == 0) (λ _. v)
        (λ _. add_mask-IsThreads t s mask v))

-- Adding a thread keeps every mask's turn in the range of its list of threads.
pub add_thread-IsThreads :
    (t thread_mask : ℕ) (table : List ℕ) (s : Threads)
    → IsThreads s
    → IsThreads (add_thread t thread_mask table s)
unfolding add_thread
add_thread-IsThreads t thread_mask table s v =
    add_masks-IsThreads t thread_mask table (record s { threads_all = s.threads_all ++ (t ∷ []) }) v
