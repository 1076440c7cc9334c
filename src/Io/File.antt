-- ===== src/Io/File.antt =====
-- `io_file` of src/io.cc, in the build without USE_PREAD_PWRITE. The system calls are parameters.
use latypus.Common.{ℕ, ◌≡◌, refl, Option, none, some, List, ◌∷◌, false, arith}
use latypus.Io.{IoResult, of_size, has_error}

-- A system call's return: a count, or a negative one with its `errno`.
pub data Sys : Type 0 where
  ret : ℕ → Sys
  failed : ℕ → Sys

-- `fd`, and the descriptors that have been given to `::close`, latest first.
pub record File : Type 0 where
  pub fd : Option ℕ
  pub closed : List ℕ

unfoldable pub close : File → File
close f = elim f.fd [ some n ↦ record { fd = none; closed = n ∷ f.closed } | none ↦ f ]

-- The returned code is zero on success. The argument is what `::open` returns.
unfoldable pub open_file : File → Sys → File × ℕ
unfolding close
open_file f (ret n) = (record (close f) { fd = some n }, 0)
open_file f (failed errno) = (record (close f) { fd = none }, errno)

unfoldable pub set_fd : File → ℕ → File
unfolding close
set_fd f new_fd = record (close f) { fd = some new_fd }

unfoldable pub release_fd : File → File × Option ℕ
unfolding close
release_fd f = let old_fd = f.fd in (close f, old_fd)

-- `read` and `write`: `io_result(errno)` takes an `int`, for which the constructor from `ssize_t` is
-- the better match.
unfoldable pub file_result : Sys → IoResult
file_result (ret n) = of_size n
file_result (failed errno) = of_size errno

-- The result of `read` or `write` never has an error: a failed call with code `e` is told apart in
-- no way from a call that moved `e` bytes.
pub file_result_never_fails :
    (s : Sys)
    → (has_error (file_result s) ≡ false) × ((e : ℕ) → file_result (failed e) ≡ file_result (ret e))
unfolding file_result
file_result_never_fails (ret n) = (refl, λ e. refl)
file_result_never_fails (failed n) = (refl, λ e. refl)

-- The descriptor that `release_fd` of an open file hands to its caller has just been closed, and the
-- file has none any more.
pub release_fd-closed :
    (f : File) (n : ℕ)
    → f.fd ≡ some n
    → ((release_fd f).1 ≡ some n)
      × ((release_fd f).0.closed ≡ n ∷ f.closed)
      × ((release_fd f).0.fd ≡ none)
unfolding release_fd
release_fd-closed f n e = ground arith
