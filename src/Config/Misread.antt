-- ===== src/Config/Misread.antt =====
-- Which directives do what is undefined: those that read a number, where an `int` does not hold it.
use latypus.Common.{ℕ, ◌≡◌, ◌⊎◌, true, List, [], ◌∷◌, length}
use latypus.Config.{Outcome, done, fatal, fault, Config, ConfigRecord}
use latypus.Config.Numbers.{number}
use latypus.Config.Directives.{argument, contains}
use latypus.Config.Nesting.{IsNested}

-- The directives that read a number: a value, and threads.
unfoldable pub number_names : List (List ℕ)
number_names =
    (b't' ∷ b'l' ∷ b's' ∷ b'_' ∷ b's' ∷ b'e' ∷ b's' ∷ b's' ∷ b'i' ∷ b'o' ∷ b'n' ∷ b'_' ∷ b't' ∷ b'i'
      ∷ b'm' ∷ b'e' ∷ b'o' ∷ b'u' ∷ b't' ∷ [])
    ∷ (b't' ∷ b'l' ∷ b's' ∷ b'_' ∷ b's' ∷ b'e' ∷ b's' ∷ b's' ∷ b'i' ∷ b'o' ∷ b'n' ∷ b'_' ∷ b'c'
        ∷ b'o' ∷ b'u' ∷ b'n' ∷ b't' ∷ [])
    ∷ (b'c' ∷ b'l' ∷ b'i' ∷ b'e' ∷ b'n' ∷ b't' ∷ b'_' ∷ b'c' ∷ b'o' ∷ b'n' ∷ b'n' ∷ b'e' ∷ b'c'
        ∷ b't' ∷ b'i' ∷ b'o' ∷ b'n' ∷ b's' ∷ [])
    ∷ (b's' ∷ b'e' ∷ b'r' ∷ b'v' ∷ b'e' ∷ b'r' ∷ b'_' ∷ b'c' ∷ b'o' ∷ b'n' ∷ b'n' ∷ b'e' ∷ b'c'
        ∷ b't' ∷ b'i' ∷ b'o' ∷ b'n' ∷ b's' ∷ [])
    ∷ (b'l' ∷ b'i' ∷ b's' ∷ b't' ∷ b'e' ∷ b'n' ∷ b'_' ∷ b'b' ∷ b'a' ∷ b'c' ∷ b'k' ∷ b'l' ∷ b'o'
        ∷ b'g' ∷ [])
    ∷ (b'm' ∷ b'a' ∷ b'x' ∷ b'_' ∷ b'h' ∷ b'e' ∷ b'a' ∷ b'd' ∷ b'e' ∷ b'r' ∷ b's' ∷ [])
    ∷ (b'h' ∷ b'e' ∷ b'a' ∷ b'd' ∷ b'e' ∷ b'r' ∷ b'_' ∷ b'b' ∷ b'u' ∷ b'f' ∷ b'f' ∷ b'e' ∷ b'r'
        ∷ b'_' ∷ b's' ∷ b'i' ∷ b'z' ∷ b'e' ∷ [])
    ∷ (b'i' ∷ b'o' ∷ b'_' ∷ b'b' ∷ b'u' ∷ b'f' ∷ b'f' ∷ b'e' ∷ b'r' ∷ b'_' ∷ b's' ∷ b'i' ∷ b'z'
        ∷ b'e' ∷ [])
    ∷ (b'i' ∷ b'p' ∷ b'c' ∷ b'_' ∷ b'b' ∷ b'u' ∷ b'f' ∷ b'f' ∷ b'e' ∷ b'r' ∷ b'_' ∷ b's' ∷ b'i'
        ∷ b'z' ∷ b'e' ∷ [])
    ∷ (b'l' ∷ b'o' ∷ b'g' ∷ b'_' ∷ b'b' ∷ b'u' ∷ b'f' ∷ b'f' ∷ b'e' ∷ b'r' ∷ b's' ∷ [])
    ∷ (b'k' ∷ b'e' ∷ b'e' ∷ b'p' ∷ b'a' ∷ b'l' ∷ b'i' ∷ b'v' ∷ b'e' ∷ b'_' ∷ b't' ∷ b'i' ∷ b'm'
        ∷ b'e' ∷ b'o' ∷ b'u' ∷ b't' ∷ [])
    ∷ (b'c' ∷ b'o' ∷ b'n' ∷ b'n' ∷ b'e' ∷ b'c' ∷ b't' ∷ b'i' ∷ b'o' ∷ b'n' ∷ b'_' ∷ b't' ∷ b'i'
        ∷ b'm' ∷ b'e' ∷ b'o' ∷ b'u' ∷ b't' ∷ [])
    ∷ []

unfoldable pub thread_names : List (List ℕ)
thread_names =
    (b'c' ∷ b'l' ∷ b'i' ∷ b'e' ∷ b'n' ∷ b't' ∷ b'_' ∷ b't' ∷ b'h' ∷ b'r' ∷ b'e' ∷ b'a' ∷ b'd' ∷ b's'
      ∷ [])
    ∷ (b's' ∷ b'e' ∷ b'r' ∷ b'v' ∷ b'e' ∷ b'r' ∷ b'_' ∷ b't' ∷ b'h' ∷ b'r' ∷ b'e' ∷ b'a' ∷ b'd'
        ∷ b's' ∷ [])
    ∷ (b'p' ∷ b'r' ∷ b'o' ∷ b't' ∷ b'o' ∷ b'_' ∷ b't' ∷ b'h' ∷ b'r' ∷ b'e' ∷ b'a' ∷ b'd' ∷ b's'
        ∷ [])
    ∷ []

-- One of these statements, with a number that an `int` does not hold.
abbrev pub BadNumber : List (List ℕ) → Type 0
BadNumber [] = ⊥
BadNumber (name ∷ values) =
    ((contains number_names name ≡ true)
      × (length (name ∷ values) ≡ 2)
      × (number (argument (name ∷ values) 1) ≡ fault))
    ⊎ ((contains thread_names name ≡ true)
        × (length (name ∷ values) ≡ 3)
        × (number (argument (name ∷ values) 2) ≡ fault))

-- What a directive's function that does what is undefined has read.
abbrev pub Misreads : List ℕ → ConfigRecord → List (List ℕ) → Type 0
Misreads name rec line =
    ((contains number_names name ≡ true)
      × (rec.minargs ≡ 2)
      × (rec.maxargs ≡ 2)
      × (number (argument line 1) ≡ fault))
    ⊎ ((contains thread_names name ≡ true)
        × (rec.minargs ≡ 3)
        × (rec.maxargs ≡ 3)
        × (number (argument line 2) ≡ fault))

-- The outcome of a directive is nested, if it is defined.
abbrev pub Read : List ℕ → ConfigRecord → List (List ℕ) → Outcome Config → Type 0
Read name rec line (done c) = IsNested c
Read name rec line fatal = Unit
Read name rec line fault = Misreads name rec line

unfoldable pub Reads : List ℕ → ConfigRecord → Type 0
Reads name rec =
    (c : Config) (line : List (List ℕ)) → IsNested c → Read name rec line (rec.fn c line)
