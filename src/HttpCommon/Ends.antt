-- ===== src/HttpCommon/Ends.antt =====
-- `sanitize_path` ends: every round makes the characters to read, counted twice, and those written
-- fewer.
use latypus.Common.{
  ℕ, zero, suc, ◌+◌, ◌*◌, ◌≤◌, ◌<◌, ◌≡◌, ◌≢◌, ◌⊎◌, inl, inr, refl, Bool, true, false, ◌&&◌, Option,
  none, some, List, [], ◌∷◌, arith, ◌==◌, if_elim, length, length-drop, get_or, drop,
}
use latypus.HttpCommon.Sanitize.{sanitize_path_stays_inside}
use latypus.HttpCommon.{
  Sanitized, clean, bad_request, fault, out_of_fuel, Step, done, go, back_to_slash, past_dots,
  step_back, step, run, sanitize_path,
}

-- The list found is no longer.
abbrev Kept : ℕ → Option (List ℕ) → Type 0
Kept n none = Unit
Kept n (some out) = length out ≤ n

-- The number of rounds left is less than this.
abbrev work_left : List ℕ → List ℕ → ℕ
work_left r out = 2 * length r + length out

abbrev Shrinks : ℕ → Step → Type 0
Shrinks n (done out_of_fuel) = ⊥
Shrinks n (done (clean t)) = Unit
Shrinks n (done bad_request) = Unit
Shrinks n (done fault) = Unit
Shrinks n (go r out last) = work_left r out < n

back-length : (out : List ℕ) → Kept (length out) (back_to_slash out)
unfolding back_to_slash
back-length [] = tt
back-length (c ∷ out) =
    if_elim (Kept (suc (length out))) (c == b'/') (λ _. omega arith)
      λ _. weaken (back_to_slash out) (back-length out)
  where
    weaken : (o : Option (List ℕ)) → Kept (length out) o → Kept (suc (length out)) o
    weaken none k = tt
    weaken (some x) k = omega arith

past_dots-length : (c : ℕ) (rest : List ℕ) → length (past_dots c rest) ≤ suc (length rest)
unfolding past_dots
past_dots-length c rest =
    if_elim Fits (get_or rest 1 0 == b'/') (λ _. drop_fits 2)
      λ _. if_elim Fits (get_or rest 1 0 == 0) (λ _. drop_fits 1) λ _. omega arith
  where
    Fits : List ℕ → Type 0
    Fits l = length l ≤ suc (length rest)

    drop_fits : (n : ℕ) → length (drop n rest) ≤ suc (length rest)
    drop_fits n = omega (arith, length-drop n rest)

step-Shrinks : (r out : List ℕ) (last : Bool) → Shrinks (work_left r out) (step r out last)
unfolding step step_back
step-Shrinks [] out last = tt
step-Shrinks (c ∷ rest) out last =
    let n = work_left (c ∷ rest) out in
    if_elim (Shrinks n) (c == b'/' && last) (λ _. omega arith)
      λ _.
        if_elim (Shrinks n) (last && c == b'.' && get_or rest 0 0 == b'.') (λ _. back out)
          λ _.
            if_elim (Shrinks n) (last && c == b'.' && get_or rest 0 0 == b'/')
              (λ _. omega (arith, length-drop 1 rest)) λ _. omega arith
  where
    back : (out : List ℕ) → Shrinks (work_left (c ∷ rest) out) (step_back (past_dots c rest) out)
    back [] = tt
    back (o ∷ []) = tt
    back (o ∷ p ∷ out) = found (back_to_slash (p ∷ out)) (back-length (p ∷ out))
      where
        found :
            (x : Option (List ℕ))
            → Kept (suc (length out)) x
            → Shrinks
                (work_left (c ∷ rest) (o ∷ p ∷ out))
                (elim x [ none ↦ done fault | some out' ↦ go (past_dots c rest) out' true ])
        found none k = tt
        found (some out1) k = omega (arith, past_dots-length c rest)

next_round :
    (fuel n : ℕ) (k : List ℕ → List ℕ → Bool → Sanitized)
    → ((r out : List ℕ) (last : Bool) → work_left r out < fuel → k r out last ≢ out_of_fuel)
    → n ≤ fuel
    → (x : Step) → Shrinks n x
    → (elim x [ done result ↦ result | go r out last ↦ k r out last ]) ≢ out_of_fuel
next_round fuel n k f h (done out_of_fuel) s = absurd s
next_round fuel n k f h (done (clean t)) s = λ e. cc
next_round fuel n k f h (done bad_request) s = λ e. cc
next_round fuel n k f h (done fault) s = λ e. cc
next_round fuel n k f h (go r out last) s = f r out last (omega arith)

run_ends :
    (fuel : ℕ) (r out : List ℕ) (last : Bool)
    → work_left r out < fuel
    → run fuel r out last ≢ out_of_fuel
unfolding run
run_ends zero r out last h = absurd (omega arith)
run_ends (suc fuel) r out last h =
    next_round fuel (work_left r out) (λ r out last. run fuel r out last) (run_ends fuel)
      (omega arith) (step r out last) (step-Shrinks r out last)

enough_fuel : (s : List ℕ) → sanitize_path s ≢ out_of_fuel
unfolding sanitize_path
enough_fuel s = run_ends (2 * length s + 1) s [] false (omega arith)

-- On every path that starts with a slash `sanitize_path` returns: it leaves a path, or refuses the
-- request. Neither loop runs on, the inner one finds a slash, and nothing is read before the start
-- of the string.
pub sanitize_path_ends :
    (s : List ℕ)
    → ((t : List ℕ) × (sanitize_path (b'/' ∷ s) ≡ clean t))
      ⊎ (sanitize_path (b'/' ∷ s) ≡ bad_request)
sanitize_path_ends s =
    by_result (sanitize_path (b'/' ∷ s)) (enough_fuel (b'/' ∷ s)) (sanitize_path_stays_inside s)
  where
    by_result :
        (x : Sanitized)
        → x ≢ out_of_fuel
        → x ≢ fault
        → ((t : List ℕ) × (x ≡ clean t)) ⊎ (x ≡ bad_request)
    by_result (clean t) h k = inl (t, refl)
    by_result bad_request h k = inr refl
    by_result fault h k = absurd (k refl)
    by_result out_of_fuel h k = absurd (h refl)
