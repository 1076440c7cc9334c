-- ===== src/HttpCommon.antt =====
-- src/http_common.cc: `sanitize_path`, which rewrites a request path in place.
-- The read pointer never falls behind the write pointer, so the model has the characters from the
-- read pointer up to the terminating zero, and those before the write pointer, last one first.
pub mod Sanitize
pub mod Ends
pub mod Relative
mod Tests
use latypus.Common.{
  ℕ, zero, suc, ◌+◌, ◌*◌, Bool, true, false, ◌&&◌, List, [], ◌∷◌, Option, none, some, ◌==◌,
  if◌then◌else◌, length, get_or, drop,
}
use mathlib.Core.List.{reverse}

-- `bad_request` is the return of -1, `fault` a read before the start of the string.
pub data Sanitized : Type 0 where
  clean : List ℕ → Sanitized
  bad_request fault out_of_fuel : Sanitized

-- The loop's variables: the characters to read, those written, and `last_was_slash`.
pub data Step : Type 0 where
  done : Sanitized → Step
  go : List ℕ → List ℕ → Bool → Step

-- `while(*(w-1) != '/') { w--; }`
unfoldable pub back_to_slash : List ℕ → Option (List ℕ)
back_to_slash [] = none
back_to_slash (c ∷ out) = if c == b'/' then some (c ∷ out) else back_to_slash out

-- Where the read pointer goes after `..` has been seen at it; `rest` follows the first dot.
unfoldable pub past_dots : ℕ → List ℕ → List ℕ
past_dots c rest =
    if get_or rest 1 0 == b'/'
    then drop 2 rest
    else if get_or rest 1 0 == 0
    then drop 1 rest
    else c ∷ rest

-- Back to the last slash but one, if the write pointer is past the first character.
unfoldable pub step_back : List ℕ → List ℕ → Step
unfolding back_to_slash
step_back r [] = done bad_request
step_back r (c ∷ []) = done bad_request
step_back r (c ∷ d ∷ out) = elim (back_to_slash (d ∷ out)) [
  | none ↦ done fault
  | some out' ↦ go r out' true
]

-- One round of the loop.
unfoldable pub step : List ℕ → List ℕ → Bool → Step
unfolding past_dots step_back
step [] out last = done (clean (reverse out))
step (c ∷ rest) out last =
    if c == b'/' && last
    then go rest out last
    else if last && c == b'.' && get_or rest 0 0 == b'.'
    then step_back (past_dots c rest) out
    else if last && c == b'.' && get_or rest 0 0 == b'/'
    then go (drop 1 rest) out last
    else go rest (c ∷ out) (c == b'/')

unfoldable pub run : ℕ → List ℕ → List ℕ → Bool → Sanitized
unfolding step
run zero r out last = out_of_fuel
run (suc fuel) r out last = elim (step r out last) [
  | done result ↦ result
  | go r' out' last' ↦ run fuel r' out' last'
]

unfoldable pub sanitize_path : List ℕ → Sanitized
unfolding run
sanitize_path s = run (2 * length s + 1) s [] false
