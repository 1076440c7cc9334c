-- ===== src/Queue/Lap.antt =====
-- Arithmetic of the laps of a queue's offsets.
use Prim.Native.Nat.{bit_and}
use latypus.Bits.And.{bit_and-mask, pow_pos}
use latypus.Io.{sub64}
use latypus.Io.Ring.Inv.{from_pos, append-from_pos}
use latypus.Queue.{offset_limit, version_limit, pack_offset, unpack_offsets}
use latypus.Common.{
  ℕ, zero, suc, ◌+◌, ◌-◌, ◌%◌, ◌^◌, ◌≤◌, ◌<◌, ◌≡◌, ◌≢◌, refl, sym, ap, ap₂, ◌∙◌, true, false, some,
  List, [], ◌∷◌, ◌++◌, arith, ◌==◌, ltb, if◌then◌else◌, length, length-set, get_or, set,
  get_or-set_ne,
}

pub size_lem :
    (b f s : ℕ)
    → b ≤ f
    → f ≤ b + s
    → s ≤ 2 ^ 47
    → f < 2 ^ 48
    → (if ltb f b then b - f else (sub64 s f + b) % 2 ^ 64) ≡ b + s - f
size_lem b f s h k l m = ground arith

pub empty_lem : (b f s : ℕ) → b ≤ f → f ≤ b + s → f < 2 ^ 48 → (sub64 f b == s) ≡ ((b + s - f) == 0)
empty_lem b f s h k l = ground arith

pub full_lem : (b f s : ℕ) → b ≤ f → f ≤ b + s → (f == b) ≡ ((b + s - f) == s)
full_lem b f s h k = ground arith

pub offset_small : (n : ℕ) → n % offset_limit < offset_limit
offset_small n = omega arith

pub unpack-pack :
    (c o : ℕ)
    → c < version_limit
    → o < offset_limit
    → unpack_offsets c (pack_offset c o) ≡ some (pack_offset c o % offset_limit)
unfolding unpack_offsets pack_offset
unpack-pack c o k h = ground arith

pub pack-offset :
    (c o : ℕ) → o + 1 < offset_limit → pack_offset c ((o + 1) % offset_limit) % offset_limit ≡ o + 1
unfolding pack_offset
pack-offset c o h = ground arith

pub mod_apart : (a d s : ℕ) → 0 < d → d < s → (a + d) % s ≢ a % s
mod_apart a d s p h = λ e. grind (arith, e)

-- The remainder of a count of the lap.
pub in_lap : (a s : ℕ) → 0 < s → a % s < s
in_lap a s h = grind arith

pub lap : (b s : ℕ) → 0 < s → (b + s) % s ≡ b % s
lap b s p = grind arith

pub lap_end : (b f s : ℕ) → 0 < s → f ≤ b + s → (f + (b + s - f)) % s ≡ b % s
lap_end b f s p h = let e : f + (b + s - f) ≡ b + s = omega arith in rw e (lap b s p)

pub lap_fresh : (b f s k : ℕ) → 0 < s → b < f → k < b + s - f → b % s ≢ (f + k) % s
lap_fresh b f s k p h l e =
    let d : (f + k) + (b + s - (f + k)) ≡ b + s = omega arith in
    mod_apart (f + k) (b + s - (f + k)) s (omega arith) (omega arith) (rw d (lap b s p ∙ e))

pub from_pos-set :
    (buf : List ℕ) (i v pos n : ℕ)
    → ((k : ℕ) → k < n → i ≢ (pos + k) % length buf)
    → from_pos (set buf i v) pos n ≡ from_pos buf pos n
from_pos-set buf i v pos zero h = refl
from_pos-set buf i v pos (suc n) h =
    let here : pos + 0 ≡ pos = omega arith in
    let first : i ≢ pos % length buf = rw here at (h 0 (omega arith)) in
    let rest : (k : ℕ) → k < n → i ≢ (suc pos + k) % length buf = λ k l.
      (let e : pos + suc k ≡ suc pos + k = omega arith in rw e at (h (suc k) (omega arith))) in
    rw (length-set buf i v) (
      ap₂ (λ (x : ℕ) (l : List ℕ). x ∷ l) (get_or-set_ne buf v 0 first)
        (from_pos-set buf i v (suc pos) n rest))

pub from_pos-snoc :
    (buf : List ℕ) (pos n : ℕ)
    → from_pos buf pos (suc n) ≡ from_pos buf pos n ++ (get_or buf ((pos + n) % length buf) 0 ∷ [])
from_pos-snoc buf pos n =
    (let e : suc n ≡ n + 1 = omega arith in ap (from_pos buf pos) e) ∙ append-from_pos buf pos n 1

pub full_ltb : (b f s : ℕ) → (f == b) ≡ true → ltb (b + s - f) s ≡ false
full_ltb b f s h = ground arith

pub room_lt : (b f : ℕ) → b ≤ f → (f == b) ≡ false → b < f
room_lt b f k h = ground arith

pub room_ltb : (b f s : ℕ) → b < f → f ≤ b + s → ltb (b + s - f) s ≡ true
room_ltb b f s k l = ground arith

pub none_left : (b f s : ℕ) → b ≤ f → f < 2 ^ 48 → (sub64 f b == s) ≡ true → b + s - f ≡ 0
none_left b f s k l h = ground arith

pub some_left : (b f s : ℕ) → b ≤ f → f ≤ b + s → f < 2 ^ 48 → (sub64 f b == s) ≡ false → f < b + s
some_left b f s k l m h = ground arith

-- The items of a storage of `s` slots, from the one at the front `f` to the one before the back `b`.
module _ (vec : List ℕ) (b f s : ℕ) (storage : length vec ≡ s) (positive : 0 < s) where
  -- The slot of the back is not among them while there is room.
  pub from_pos-store :
      (elem : ℕ)
      → b < f
      → from_pos (set vec (b % s) elem) f (b + s - f) ≡ from_pos vec f (b + s - f)
  from_pos-store elem room =
      from_pos-set vec (b % s) elem f (b + s - f)
        λ k l. rw storage (lap_fresh b f s k positive room l)

  pub from_pos-reveal :
      {elem : ℕ}
      → b < f
      → f ≤ b + s
      → get_or vec (b % s) 0 ≡ elem
      → from_pos vec f (suc b + s - f) ≡ from_pos vec f (b + s - f) ++ (elem ∷ [])
  from_pos-reveal room bounded stored =
      let grows : suc b + s - f ≡ suc (b + s - f) = omega (arith, bounded) in
      let last : (f + (b + s - f)) % length vec ≡ b % s =
        rw storage (lap_end b f s positive bounded) in
      ap (from_pos vec f) grows
      ∙ from_pos-snoc vec f (b + s - f)
      ∙ ap (λ (x : ℕ). from_pos vec f (b + s - f) ++ (x ∷ []))
          (ap (λ (i : ℕ). get_or vec i 0) last ∙ stored)

  pub from_pos-take :
      f < b + s
      → from_pos vec f (b + s - f) ≡ get_or vec (f % s) 0 ∷ from_pos vec (suc f) (b + s - suc f)
  from_pos-take left =
      let more : b + s - f ≡ suc (b + s - suc f) = omega (arith, left) in
      ap (from_pos vec f) more
      ∙ ap (λ (i : ℕ). get_or vec i 0 ∷ from_pos vec (suc f) (b + s - suc f))
          (ap (λ (n : ℕ). f % n) storage)

pub masked :
    {size_limit : ℕ} (log : ℕ)
    → size_limit ≡ 2 ^ log
    → (a : ℕ) → bit_and a (size_limit - 1) ≡ a % size_limit
masked log is_pow a =
    ap (λ (n : ℕ). bit_and a (n - 1)) is_pow
    ∙ bit_and-mask a log
    ∙ ap (λ (n : ℕ). a % n) (sym is_pow)

pub size_pos : {size_limit : ℕ} (log : ℕ) → size_limit ≡ 2 ^ log → 0 < size_limit
size_pos log is_pow = omega (arith, is_pow, pow_pos log)
