-- ===== src/Engine/Tests.antt =====
-- Three threads, two of them routers.
use latypus.Common.{ℕ, ◌≡◌, refl, List, [], ◌∷◌, none, some, arith}
use latypus.Engine.{Threads, add_thread, add_masks, add_mask}
use latypus.Engine.Registered.{IsThreads}
use latypus.Engine.Turns.{Turns, choose_times, choose_thread_cycles}

-- The masks of the table.
abbrev masks : List ℕ
masks = 1 ∷ 2 ∷ 4 ∷ []

abbrev no_threads : Threads
no_threads = record { threads_all = []; threads_map = λ _. none; threads_next = λ _. none }

no_threads-IsThreads : IsThreads no_threads
no_threads-IsThreads mask = tt

abbrev three : Threads
three = add_thread 9 6 masks (add_thread 8 2 masks (add_thread 7 5 masks no_threads))

three-map : three.threads_map 2 ≡ some (8 ∷ 9 ∷ [])
unfolding add_thread add_masks add_mask
three-map = refl

three-next : three.threads_next 2 ≡ some 0
unfolding add_thread add_masks add_mask
three-next = refl

choose_thread_cycles_example : Turns 2 (8 ∷ 9 ∷ []) 0 2 (choose_times 2 three 2)
choose_thread_cycles_example =
    choose_thread_cycles 2 three 2 (8 ∷ 9 ∷ []) 0 (omega arith) (omega arith) three-map three-next
