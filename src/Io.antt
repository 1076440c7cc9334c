-- ===== src/Io.antt =====
-- src/io.h, src/io.cc: results of input and output, raw memory, and files.
-- Bytes are only moved, so a byte is any number. A system call is a parameter.
pub mod Buffer
pub mod Ring
pub mod File
pub mod Memory
use latypus.Common.{
  ℕ, ◌+◌, ◌-◌, ◌%◌, ◌^◌, ◌≤◌, ◌≡◌, Bool, not, Option, none, some, List, ◌++◌, ltb, ◌==◌,
  if◌then◌else◌, length, take, drop,
}

-- `io_result`: a size and an error code, of which one is zero.
pub record IoResult : Type 0 where
  pub size : ℕ
  pub errcode : ℕ

-- The two constructors of `io_result`.
abbrev pub of_size : ℕ → IoResult
of_size n = record { size = n; errcode = 0 }

abbrev pub of_error : ℕ → IoResult
of_error e = record { size = 0; errcode = e }

abbrev pub has_error : IoResult → Bool
has_error r = not (r.errcode == 0)

-- An `io_reader`: asked for so many bytes, what it stores and what it returns.
abbrev pub Reader : Type 0
Reader = ℕ → List ℕ × IoResult

-- What `io_reader::read` promises: it stores no more than was asked for, and returns the number
-- that it stored.
pub record IsReader (reader : Reader) : Type 0 where
  pub fits : (n : ℕ) → length (reader n).0 ≤ n
  pub counted : (n : ℕ) → (reader n).1.size ≡ length (reader n).0

-- An `io_writer`: how it answers the bytes that it is given.
abbrev pub Writer : Type 0
Writer = List ℕ → IoResult

-- What `io_writer::write` promises: it takes no more than it was given.
abbrev pub IsWriter : Writer → Type 0
IsWriter writer = (bytes : List ℕ) → (writer bytes).size ≤ length bytes

-- `size_t` subtraction
abbrev pub sub64 : ℕ → ℕ → ℕ
sub64 a b = (a + 2 ^ 64 - b) % 2 ^ 64

-- The `n` bytes at an offset; `none` for a read past the end of the object.
abbrev pub load : List ℕ → ℕ → ℕ → Option (List ℕ)
load src off n = if ltb (length src) (off + n) then none else some (take n (drop off src))

-- The bytes of an object after a copy to an offset; `none` for a write past its end.
abbrev pub store : List ℕ → ℕ → List ℕ → Option (List ℕ)
store dst off bytes =
    if ltb (length dst) (off + length bytes)
    then none
    else some (take off dst ++ (bytes ++ drop (off + length bytes) dst))

infixl 5 ◌>>=◌
abbrev pub ◌>>=◌ {ℓ κ} : {A : Type ℓ} {B : Type κ} → Option A → (A → Option B) → Option B
none >>= f = none
some a >>= f = f a
