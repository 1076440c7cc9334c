-- ===== src/HttpCommon/Sanitize.antt =====
-- `sanitize_path`: it ends, and on an absolute path it reads inside of the string and removes the
-- dot segments.
use mathlib.Core.List.{reverse, reverse-append, reverse-reverse, append_assoc}
use latypus.Common.{
  ℕ, zero, suc, ◌+◌, ◌*◌, ◌≡◌, ◌≢◌, refl, sym, ap, subst, ◌∙◌, Bool, true, false, not, ◌&&◌, ◌||◌,
  Option, none, some, List, [], ◌∷◌, ◌++◌, arith, ◌==◌, if_elim, length, get_or, drop,
}
use latypus.HttpCommon.{
  Sanitized, clean, bad_request, fault, out_of_fuel, Step, done, go, back_to_slash, past_dots,
  step_back, step, run, sanitize_path,
}

-- What is written, last character first, is headed by `//`, `/./` or `/..`.
abbrev bad_head : List ℕ → Bool
bad_head out =
    (get_or out 0 0 == b'/' && get_or out 1 0 == b'/')
    || (get_or out 1 0 == b'.'
        && get_or out 2 0 == b'/'
        && (get_or out 0 0 == b'.' || get_or out 0 0 == b'/'))

abbrev safe : List ℕ → Bool
safe [] = true
safe (c ∷ out) = not (bad_head (c ∷ out)) && safe out

-- The first character written is a slash.
abbrev rooted : List ℕ → Bool
rooted [] = false
rooted (c ∷ []) = c == b'/'
rooted (c ∷ d ∷ out) = rooted (d ∷ out)

-- A dot that follows a slash was written only where no dot and no slash comes next.
abbrev goes_on : List ℕ → List ℕ → Bool
goes_on out r = not (
    get_or out 0 0 == b'.'
    && get_or out 1 0 == b'/'
    && (get_or r 0 0 == b'.' || get_or r 0 0 == b'/'))

record IsSafe (r out : List ℕ) (last : Bool) : Type 0 where
  pub safe_out : safe out ≡ true
  pub root : rooted out ≡ true
  pub slash : (get_or out 0 0 == b'/') ≡ last
  pub next : goes_on out r ≡ true

abbrev Result : Sanitized → Type 0
Result (clean t) = (out : List ℕ) × (t ≡ reverse out) × (safe out ≡ true) × (rooted out ≡ true)
Result bad_request = Unit
Result fault = ⊥
Result out_of_fuel = Unit

abbrev After : Step → Type 0
After (done result) = Result result
After (go r out last) = IsSafe r out last

-- The write pointer finds a slash behind it.
abbrev Back : Option (List ℕ) → Type 0
Back none = ⊥
Back (some out) = (safe out ≡ true) × (rooted out ≡ true) × ((get_or out 0 0 == b'/') ≡ true)

safe-tail : (c : ℕ) (out : List ℕ) → safe (c ∷ out) ≡ true → safe out ≡ true
safe-tail c out h = both (not (bad_head (c ∷ out))) (safe out) h
  where
    both : (a b : Bool) → (a && b) ≡ true → b ≡ true
    both a b h = ground arith

Back-back_to_slash : (out : List ℕ) → safe out ≡ true → rooted out ≡ true → Back (back_to_slash out)
unfolding back_to_slash
Back-back_to_slash [] s r = ground arith
Back-back_to_slash (c ∷ []) s r = if_elim Back (c == b'/') (λ e. (s, r, e)) λ e. ground arith
Back-back_to_slash (c ∷ d ∷ out) s r =
    if_elim Back (c == b'/') (λ e. (s, r, e))
      λ e. Back-back_to_slash (d ∷ out) (safe-tail c (d ∷ out) s) r

resume-IsSafe : (r out : List ℕ) → Back (some out) → IsSafe r out true
resume-IsSafe r out (s, h, e) = record { safe_out = s; root = h; slash = e; next = ground arith }

step_back-After : (r out : List ℕ) → safe out ≡ true → rooted out ≡ true → After (step_back r out)
unfolding step_back
step_back-After r [] s h = ground arith
step_back-After r (c ∷ []) s h = tt
step_back-After r (c ∷ d ∷ out) s h =
    split (back_to_slash (d ∷ out)) (Back-back_to_slash (d ∷ out) (safe-tail c (d ∷ out) s) h)
  where
    split :
        (o : Option (List ℕ))
        → Back o
        → After (elim o [ none ↦ done fault | some out' ↦ go r out' true ])
    split none b = b
    split (some out1) b = resume-IsSafe r out1 b

and_true : {a b : Bool} → a ≡ true → b ≡ true → (a && b) ≡ true
and_true p q = ground arith

not_bad :
    (c o p : ℕ) (last : Bool)
    → (o == b'/') ≡ last
    → (c == b'/' && last) ≡ false
    → not (o == b'.' && p == b'/' && (c == b'.' || c == b'/')) ≡ true
    → not ((c == b'/' && o == b'/') || (o == b'.' && p == b'/' && (c == b'.' || c == b'/'))) ≡ true
not_bad c o p last e1 e2 e3 = ground arith

dot_next :
    (c o r : ℕ) (last : Bool)
    → (o == b'/') ≡ last
    → (last && c == b'.' && r == b'.') ≡ false
    → (last && c == b'.' && r == b'/') ≡ false
    → not (c == b'.' && o == b'/' && (r == b'.' || r == b'/')) ≡ true
dot_next c o r last e1 e2 e3 = ground arith

put-IsSafe :
    (c : ℕ) (rest out : List ℕ) (last : Bool)
    → IsSafe (c ∷ rest) out last
    → (c == b'/' && last) ≡ false
    → (last && c == b'.' && get_or rest 0 0 == b'.') ≡ false
    → (last && c == b'.' && get_or rest 0 0 == b'/') ≡ false
    → IsSafe rest (c ∷ out) (c == b'/')
put-IsSafe c rest [] last h e1 e2 e3 = let r = h.root in ground arith
put-IsSafe c rest (o ∷ out) last h e1 e2 e3 = record {
  safe_out = and_true (not_bad c o (get_or out 0 0) last h.slash e1 h.next) h.safe_out;
  root = h.root;
  slash = refl;
  next = dot_next c o (get_or rest 0 0) last h.slash e2 e3;
}

step-After : (r out : List ℕ) (last : Bool) → IsSafe r out last → After (step r out last)
unfolding step
step-After [] out last h = (out, refl, h.safe_out, h.root)
step-After (c ∷ rest) out last h =
    if_elim After (c == b'/' && last) (λ e. resume last rest (ground arith) h)
      λ e1.
        if_elim After (last && c == b'.' && get_or rest 0 0 == b'.')
          (λ _. step_back-After (past_dots c rest) out h.safe_out h.root)
          λ e2.
            if_elim After (last && c == b'.' && get_or rest 0 0 == b'/')
              (λ e. resume last (drop 1 rest) (ground arith) h)
              λ e3. put-IsSafe c rest out last h e1 e2 e3
  where
    resume :
        (last : Bool) (r : List ℕ) → last ≡ true → IsSafe (c ∷ rest) out last → IsSafe r out last
    resume true r e h = resume-IsSafe r out (h.safe_out, h.root, h.slash)
    resume false r e h = ground arith

After-step :
    (k : List ℕ → List ℕ → Bool → Sanitized)
    → ((r out : List ℕ) (last : Bool) → IsSafe r out last → Result (k r out last))
    → (x : Step) → After x
    → Result (elim x [ done result ↦ result | go r out last ↦ k r out last ])
After-step k f (done result) a = a
After-step k f (go r out last) a = f r out last a

run-Result :
    (fuel : ℕ) (r out : List ℕ) (last : Bool) → IsSafe r out last → Result (run fuel r out last)
unfolding run
run-Result zero r out last h = tt
run-Result (suc fuel) r out last h =
    After-step (λ r out last. run fuel r out last) (run-Result fuel) (step r out last)
      (step-After r out last h)

absolute : (s : List ℕ) → sanitize_path (b'/' ∷ s) ≡ run (2 * length s + 2) s (b'/' ∷ []) true
unfolding sanitize_path run step
absolute s = ap (λ (n : ℕ). run n (b'/' ∷ s) [] false) fuel
  where
    fuel : 2 * length (b'/' ∷ s) + 1 ≡ suc (2 * length s + 2)
    fuel = omega arith

absolute-Result : (s : List ℕ) → Result (sanitize_path (b'/' ∷ s))
absolute-Result s = subst Result (sym (absolute s)) (
    run-Result (2 * length s + 2) s (b'/' ∷ []) true
      (resume-IsSafe s (b'/' ∷ []) (refl, refl, refl)))

-- On a path that starts with a slash nothing is read before the start of the string.
pub sanitize_path_stays_inside : (s : List ℕ) → sanitize_path (b'/' ∷ s) ≢ fault
sanitize_path_stays_inside s e = subst Result e (absolute-Result s)

-- The cleaned path holds no empty segment, no `.` segment that something follows, and no `..`.
no_bad : (out a b : List ℕ) → safe (a ++ b) ≡ true → safe b ≡ true
no_bad out [] b h = h
no_bad out (c ∷ a) b h = no_bad out a b (safe-tail c (a ++ b) h)

reversed : (a m b : List ℕ) → reverse (a ++ (m ++ b)) ≡ reverse b ++ (reverse m ++ reverse a)
reversed a m b =
    reverse-append a (m ++ b)
    ∙ ap (λ (l : List ℕ). l ++ reverse a) (reverse-append m b)
    ∙ append_assoc (reverse b) (reverse m) (reverse a)

clean-safe :
    (s t a m b : List ℕ)
    → sanitize_path (b'/' ∷ s) ≡ clean t
    → t ≡ a ++ (m ++ b)
    → safe (reverse m ++ reverse a) ≡ true
clean-safe s t a m b e q =
    let (out, p, h, _) = subst Result e (absolute-Result s) in
    let back : out ≡ reverse b ++ (reverse m ++ reverse a) =
      sym (reverse-reverse out) ∙ ap reverse (sym p ∙ q) ∙ reversed a m b in
    no_bad out (reverse b) (reverse m ++ reverse a) (subst (λ (l : List ℕ). safe l ≡ true) back h)

-- Where `sanitize_path` accepts a path that starts with a slash, the path it leaves holds no `//`,
-- no `/./` and no `/..`, wherever one looks.
pub sanitize_path-IsClean :
    (s t a b : List ℕ)
    → sanitize_path (b'/' ∷ s) ≡ clean t
    → (t ≢ a ++ ((b'/' ∷ b'/' ∷ []) ++ b))
      × (t ≢ a ++ ((b'/' ∷ b'.' ∷ b'/' ∷ []) ++ b))
      × (t ≢ a ++ ((b'/' ∷ b'.' ∷ b'.' ∷ []) ++ b))
sanitize_path-IsClean s t a b e = (
  λ q. true_ne_false (clean-safe s t a (b'/' ∷ b'/' ∷ []) b e q),
  λ q. true_ne_false (clean-safe s t a (b'/' ∷ b'.' ∷ b'/' ∷ []) b e q),
  λ q. true_ne_false (clean-safe s t a (b'/' ∷ b'.' ∷ b'.' ∷ []) b e q),
)
  where
    true_ne_false : false ≡ true → ⊥
    true_ne_false h = ground arith
