-- ===== src/HttpCommon/Relative.antt =====
-- `sanitize_path` on paths that do not start with a slash.
use latypus.Common.{
  ℕ, zero, suc, ◌+◌, ◌*◌, ◌≤◌, ◌≡◌, refl, ap, ◌∙◌, false, none, List, [], ◌∷◌, ◌++◌, arith, ◌==◌,
  length, length-append,
}
use latypus.HttpCommon.{fault, go, back_to_slash, past_dots, step_back, step, run, sanitize_path}

abbrev pub IsName : List ℕ → Type 0
IsName [] = Unit
IsName (c ∷ name) = ((c == b'/') ≡ false) × IsName name

step_name :
    (c : ℕ) (r out : List ℕ) → (c == b'/') ≡ false → step (c ∷ r) out false ≡ go r (c ∷ out) false
unfolding step
step_name c r out h = rw h refl

back_off : (out : List ℕ) → IsName out → back_to_slash out ≡ none
unfolding back_to_slash
back_off [] h = refl
back_off (c ∷ out) (h, t) = rw (h, back_to_slash) (back_off out t)

-- After a name, `/..` steps back past the start.
at_dots :
    (k : ℕ) (c : ℕ) (out : List ℕ)
    → IsName (c ∷ out)
    → run (suc (suc k)) (b'/' ∷ b'.' ∷ b'.' ∷ []) (c ∷ out) false ≡ fault
unfolding run step past_dots step_back
at_dots k c out h = rw (back_off (c ∷ out) h, run, step, step_back) refl

run_name :
    (n : ℕ) (name : List ℕ) (c : ℕ) (out : List ℕ)
    → length name + 2 ≤ n
    → IsName name
    → IsName (c ∷ out)
    → run n (name ++ (b'/' ∷ b'.' ∷ b'.' ∷ [])) (c ∷ out) false ≡ fault
unfolding run
run_name zero name c out e h g = absurd (omega arith)
run_name (suc zero) name c out e h g = absurd (omega arith)
run_name (suc (suc n)) [] c out e h g = at_dots n c out g
run_name (suc (suc n)) (x ∷ name) c out e (h, t) g =
    rw (step_name x (name ++ (b'/' ∷ b'.' ∷ b'.' ∷ [])) (c ∷ out) h, run)
      (run_name (suc n) name x (c ∷ out) (omega arith) t (h, g))

-- A path that is a name, without a slash and not empty, with `/..` after it makes `sanitize_path`
-- read before the start of the string.
pub sanitize_path_underruns :
    (c : ℕ) (name : List ℕ)
    → IsName (c ∷ name)
    → sanitize_path ((c ∷ name) ++ (b'/' ∷ b'.' ∷ b'.' ∷ [])) ≡ fault
unfolding sanitize_path run
sanitize_path_underruns c name (h, t) = ap (λ (n : ℕ). run n (c ∷ all) [] false) fuel ∙ first
  where
    all : List ℕ
    all = name ++ (b'/' ∷ b'.' ∷ b'.' ∷ [])

    fuel : 2 * length (c ∷ all) + 1 ≡ suc (2 * length all + 2)
    fuel = omega arith

    first : run (suc (2 * length all + 2)) (c ∷ all) [] false ≡ fault
    first =
        rw (step_name c all [] h, run)
          (run_name (2 * length all + 2) name c []
            (omega (arith, length-append name (b'/' ∷ b'.' ∷ b'.' ∷ []))) t (h, tt))
