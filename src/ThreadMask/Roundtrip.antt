-- ===== src/ThreadMask/Roundtrip.antt =====
-- The text of a thread's mask is read as that mask.
use Prim.Native.Nat.{bit_and, bit_or}
use native.Mathlib.Nat.{mod-eq_of_lt}
use mathlib.Core.List.{append_assoc}
use latypus.Common.{
  ℕ, suc, ◌+◌, ◌%◌, ◌^◌, ◌<◌, ◌≡◌, ◌≢◌, ◌⊎◌, inl, inr, refl, sym, ap, subst, ◌∙◌, true, false, none,
  some, List, [], ◌∷◌, ◌++◌, arith, ◌==◌, ltb, if◌then◌else◌, length, length-append, All,
  Bool-cases, Option-cases,
}
use latypus.Bits.And.{pow_pos}
use latypus.Config.Directives.{contains}
use latypus.ThreadMask.{
  Mask, mask_text, pieces, find_mask, found_mask, piece_mask, or_masks, string_to_thread_mask,
  write_masks, thread_mask_to_string,
}
use latypus.ThreadMask.Digits.{mod-unset, mod-set, bit_or-pow}
use latypus.ThreadMask.Names.{lacks, pieces_one, split_slash-mask}

some_piece : (text : List ℕ) → (p : List ℕ) × (ps : List (List ℕ)) × (pieces text ≡ p ∷ ps)
unfolding pieces
some_piece [] = ([], [], refl)
some_piece (c ∷ cs) =
    let (p, ps, e) = some_piece cs in
    elim (Bool-cases (c == b',')) [
      | inl h ↦ ([], pieces cs, rw h refl)
      | inr h ↦ (c ∷ p, ps, rw (h, e) refl)
    ]

-- One more piece at the end.
pieces-snoc :
    (text p : List ℕ) → lacks b',' p ≡ true → pieces (text ++ (b',' ∷ p)) ≡ pieces text ++ (p ∷ [])
unfolding pieces
pieces-snoc [] p h = ap (λ (ps : List (List ℕ)). [] ∷ ps) (pieces_one p h)
pieces-snoc (c ∷ cs) p h =
    let (q, qs, e) = some_piece cs in
    elim (Bool-cases (c == b',')) [
      | inl f ↦ rw f (ap (λ (ps : List (List ℕ)). [] ∷ ps) (pieces-snoc cs p h))
      | inr f ↦ rw f (rw (pieces-snoc cs p h, e) refl)
    ]

abbrev Numbered : ℕ → List Mask → Type 0
Numbered k [] = Unit
Numbered k (e ∷ table) = (e.mask ≡ 2 ^ k) × Numbered (suc k) table

-- The names have no comma, and that of the protocol, which is known, no slash; and no entry before
-- this one has its names.
abbrev IsEntry : List (List ℕ) → List Mask → Mask → Type 0
IsEntry protocols table e =
    (lacks b',' (mask_text e) ≡ true)
    × (lacks b'/' e.proto ≡ true)
    × (contains protocols e.proto ≡ true)
    × (find_mask table e.proto e.name ≡ e.mask)

-- The masks are the powers of two in their order.
abbrev pub IsTable : List (List ℕ) → List Mask → Type 0
IsTable protocols table = Numbered 0 table × All (IsEntry protocols table) table

module _ (protocols : List (List ℕ)) (whole : List Mask) (m : ℕ) where
  piece-found :
      (e : Mask) (k : ℕ)
      → e.mask ≡ 2 ^ k
      → IsEntry protocols whole e
      → piece_mask protocols whole (mask_text e) ≡ some (2 ^ k)
  unfolding piece_mask
  piece-found e k power (commas, slashes, known, found) =
      let there : find_mask whole e.proto e.name ≡ 2 ^ k = found ∙ power in
      let positive : (2 ^ k == 0) ≡ false = ground (arith, pow_pos k) in
      ap (found_mask protocols whole) (split_slash-mask e.proto e.name slashes)
      ∙ rw (known, there, positive) refl

  or_masks-snoc :
      (ps : List (List ℕ)) (p : List ℕ) (acc sum found : ℕ)
      → or_masks protocols whole acc ps ≡ some sum
      → piece_mask protocols whole p ≡ some found
      → or_masks protocols whole acc (ps ++ (p ∷ [])) ≡ some (bit_or sum found)
  unfolding or_masks
  or_masks-snoc [] p acc sum found h e =
      let same : acc ≡ sum = cc in rw (e, or_masks) (ap some (ap (λ a. bit_or a found) same))
  or_masks-snoc (x ∷ ps) p acc sum found h e = elim (Option-cases (piece_mask protocols whole x)) [
    | inl q ↦ let clash : none ≡ some sum = rw (q, or_masks) at h in cc
    | inr (f, q) ↦
        rw (q, or_masks) (or_masks-snoc ps p (bit_or acc f) sum found (rw (q, or_masks) at h) e)
  ]

  -- The text so far is read as the first `k` digits of the mask.
  abbrev Written : List ℕ → ℕ → Type 0
  Written text k =
      ((text ≡ []) × (m % 2 ^ k ≡ 0))
      ⊎ ((0 < length text) × (or_masks protocols whole 0 (pieces text) ≡ some (m % 2 ^ k)))

  abbrev appended : List ℕ → Mask → List ℕ
  appended text e = (if ltb 0 (length text) then text ++ (b',' ∷ []) else text) ++ mask_text e

  appended_some :
      (text : List ℕ) (e : Mask) → 0 < length text → appended text e ≡ text ++ (b',' ∷ mask_text e)
  appended_some text e h =
      let comma : ltb 0 (length text) ≡ true = ground arith in
      rw comma (append_assoc text (b',' ∷ []) (mask_text e))

  kept-Written :
      (text : List ℕ) (k : ℕ) → bit_and m (2 ^ k) ≡ 0 → Written text k → Written text (suc k)
  kept-Written text k unset (inl (e, low)) = inl (e, mod-unset m k unset ∙ low)
  kept-Written text k unset (inr (l, reads)) = inr (l, reads ∙ ap some (sym (mod-unset m k unset)))

  appended-Written :
      (text : List ℕ) (e : Mask) (k : ℕ)
      → e.mask ≡ 2 ^ k
      → IsEntry protocols whole e
      → bit_and m (2 ^ k) ≢ 0
      → Written text k
      → Written (appended text e) (suc k)
  unfolding or_masks
  appended-Written text e k power entry set (inl (none_yet, low)) =
      let text_pos = length-append e.proto (b'/' ∷ e.name) in
      let reads =
        ap (or_masks protocols whole 0) (pieces_one (mask_text e) entry.0)
        ∙ or_masks-snoc [] (mask_text e) 0 0 (2 ^ k) refl (piece-found e k power entry)
        ∙ ap some (omega (arith, bit_or-pow 0 k (pow_pos k), mod-set m k set, low)) in
      subst (λ t. Written (appended t e) (suc k)) (sym none_yet)
        (inr (omega (arith, text_pos), reads))
  appended-Written text e k power entry set (inr (some_text, reads)) =
      let more = length-append text (b',' ∷ mask_text e) in
      let digit = mod-set m k set in
      let low : m % 2 ^ k < 2 ^ k = omega (arith, pow_pos k) in
      let now =
        ap (or_masks protocols whole 0) (pieces-snoc text (mask_text e) entry.0)
        ∙ or_masks-snoc (pieces text) (mask_text e) 0 (m % 2 ^ k) (2 ^ k) reads
            (piece-found e k power entry)
        ∙ ap some (omega (arith, bit_or-pow (m % 2 ^ k) k low, digit)) in
      subst (λ t. Written t (suc k)) (sym (appended_some text e some_text))
        (inr (omega (arith, more), now))

  write_masks-Written :
      (table : List Mask) (text : List ℕ) (k : ℕ)
      → Numbered k table
      → All (IsEntry protocols whole) table
      → Written text k
      → Written (write_masks text m table) (k + length table)
  unfolding write_masks
  write_masks-Written [] text k n a h =
      let same : k ≡ k + 0 = omega arith in subst (λ i. Written text i) same h
  write_masks-Written (e ∷ table) text k (power, n) (entry, a) h =
      let size : suc k + length table ≡ k + suc (length table) = omega arith in
      let same : bit_and m e.mask ≡ bit_and m (2 ^ k) = ap (bit_and m) power in
      elim (Bool-cases (bit_and m e.mask == 0)) [
        | inl z ↦
            let unset : bit_and m (2 ^ k) ≡ 0 = ground arith in
            rw z (
              subst (λ i. Written (write_masks text m table) i) size
                (write_masks-Written table text (suc k) n a (kept-Written text k unset h)))
        | inr z ↦
            let set : bit_and m (2 ^ k) ≢ 0 = λ q. ground arith in
            rw z (
              subst (λ i. Written (write_masks (appended text e) m table) i) size
                (write_masks-Written table (appended text e) (suc k) n a
                  (appended-Written text e k power entry set h)))
      ]

-- For a table in order, a mask that is not 0 and has no digit past the table's is written as a text
-- that is read as that mask.
pub string_to_thread_mask-thread_mask_to_string :
    (protocols : List (List ℕ)) (table : List Mask) (thread_mask : ℕ)
    → IsTable protocols table
    → 0 < thread_mask
    → thread_mask < 2 ^ length table
    → string_to_thread_mask protocols table (thread_mask_to_string table thread_mask)
      ≡ some thread_mask
unfolding string_to_thread_mask thread_mask_to_string
string_to_thread_mask-thread_mask_to_string protocols table m (numbered, entries) pos below =
    let whole : m % 2 ^ (0 + length table) ≡ m =
      let same : length table ≡ 0 + length table = omega arith in
      subst (λ i. m % 2 ^ i ≡ m) same (mod-eq_of_lt below) in
    let first : m % 2 ^ 0 ≡ 0 = omega arith in
    elim (write_masks-Written protocols table m table [] 0 numbered entries (inl (refl, first))) [
      | inl (_, none_set) ↦ absurd (omega (arith, none_set, whole))
      | inr (_, reads) ↦ reads ∙ ap some whole
    ]
