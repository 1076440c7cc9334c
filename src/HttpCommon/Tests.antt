-- ===== src/HttpCommon/Tests.antt =====
-- Paths through `sanitize_path`.
use latypus.Common.{ℕ, ◌≡◌, ◌≢◌, ◌⊎◌, refl, List, [], ◌∷◌, ◌++◌}
use latypus.HttpCommon.{
  clean, fault, bad_request, sanitize_path, run, step, step_back, past_dots, back_to_slash,
}
use latypus.HttpCommon.Sanitize.{sanitize_path-IsClean}
use latypus.HttpCommon.Ends.{sanitize_path_ends}
use latypus.HttpCommon.Relative.{sanitize_path_underruns}

-- `/a/./b/../c`, and what is left of it, `/a/c`.
abbrev dotted : List ℕ
dotted = b'/' ∷ b'a' ∷ b'/' ∷ b'.' ∷ b'/' ∷ b'b' ∷ b'/' ∷ b'.' ∷ b'.' ∷ b'/' ∷ b'c' ∷ []

abbrev short : List ℕ
short = b'/' ∷ b'a' ∷ b'/' ∷ b'c' ∷ []

dotted-clean : sanitize_path dotted ≡ clean short
unfolding sanitize_path run step step_back past_dots back_to_slash
dotted-clean = refl

sanitize_path-IsClean_example :
    (short ≢ (b'/' ∷ []) ++ ((b'/' ∷ b'/' ∷ []) ++ (b'c' ∷ [])))
    × (short ≢ (b'/' ∷ []) ++ ((b'/' ∷ b'.' ∷ b'/' ∷ []) ++ (b'c' ∷ [])))
    × (short ≢ (b'/' ∷ []) ++ ((b'/' ∷ b'.' ∷ b'.' ∷ []) ++ (b'c' ∷ [])))
sanitize_path-IsClean_example =
    sanitize_path-IsClean (b'a' ∷ b'/' ∷ b'.' ∷ b'/' ∷ b'b' ∷ b'/' ∷ b'.' ∷ b'.' ∷ b'/' ∷ b'c' ∷ [])
      short (b'/' ∷ []) (b'c' ∷ []) dotted-clean

sanitize_path_ends_example :
    ((t : List ℕ) × (sanitize_path dotted ≡ clean t)) ⊎ (sanitize_path dotted ≡ bad_request)
sanitize_path_ends_example =
    sanitize_path_ends (b'a' ∷ b'/' ∷ b'.' ∷ b'/' ∷ b'b' ∷ b'/' ∷ b'.' ∷ b'.' ∷ b'/' ∷ b'c' ∷ [])

sanitize_path_underruns_example : sanitize_path (b'a' ∷ b'/' ∷ b'.' ∷ b'.' ∷ []) ≡ fault
sanitize_path_underruns_example = sanitize_path_underruns b'a' [] (refl, tt)
