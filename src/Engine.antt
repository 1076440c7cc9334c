-- ===== src/Engine.antt =====
-- src/protocol_engine.cc: the engine's threads by mask, and the turn of each. The locks make each
-- operation one step.
mod Registered
pub mod Turns
mod Tests
use Prim.Native.Nat.{bit_and}
use latypus.Common.{
  ℕ, ◌+◌, Option, none, some, List, [], ◌∷◌, ◌++◌, ◌==◌, if◌then◌else◌, length, get_elem?,
}

pub record Threads : Type 0 where
  pub threads_all : List ℕ
  pub threads_map : ℕ → Option (List ℕ)
  pub threads_next : ℕ → Option ℕ

abbrev pub put {ℓ} : {A : Type ℓ} → (ℕ → Option A) → ℕ → A → ℕ → Option A
put f mask a j = if mask == j then some a else f j

-- The entry of the map that is found or made.
abbrev pub listed : Option (List ℕ) → List ℕ
listed none = []
listed (some threads) = threads

abbrev pub turn : Option ℕ → ℕ
turn none = 0
turn (some n) = n

-- The body of the loop of `add_thread`, for a mask that the thread has.
unfoldable pub add_mask : ℕ → Threads → ℕ → Threads
add_mask thread s mask = record s {
  threads_map = put s.threads_map mask (listed (s.threads_map mask) ++ (thread ∷ []));
  threads_next = put s.threads_next mask (turn (s.threads_next mask));
}

-- The loop over the table of masks.
unfoldable pub add_masks : ℕ → ℕ → List ℕ → Threads → Threads
add_masks thread thread_mask [] s = s
add_masks thread thread_mask (mask ∷ table) s =
    add_masks thread thread_mask table
      (if bit_and thread_mask mask == 0 then s else add_mask thread s mask)

unfoldable pub add_thread : ℕ → ℕ → List ℕ → Threads → Threads
add_thread thread thread_mask table s =
    add_masks thread thread_mask table (record s { threads_all = s.threads_all ++ (thread ∷ []) })

-- `out_of_range` is the exception of `vector::at`.
pub data Chosen : Type 0 where
  null_thread out_of_range : Chosen
  thread : ℕ → Chosen

unfoldable pub take_turn : Threads → ℕ → List ℕ → ℕ → Threads × Chosen
take_turn s mask thread_list n = elim (get_elem? thread_list n) [
  | none ↦ (s, out_of_range)
  | some t ↦ (
    record s {
      threads_next = put s.threads_next mask (if n + 1 == length thread_list then 0 else n + 1);
    },
    thread t,
  )
]

unfoldable pub choose_thread : Threads → ℕ → Threads × Chosen
choose_thread s mask = elim (s.threads_map mask) [
  | none ↦ (s, null_thread)
  | some thread_list ↦ elim (s.threads_next mask) [
    | none ↦ (s, null_thread)
    | some n ↦ take_turn s mask thread_list n
  ]
]
