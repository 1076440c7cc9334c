-- ===== src/Client/Body.antt =====
-- src/http_client_handler_file.cc: the handler of a request whose response is stored in a file. What is
-- written to the file is left out: neither a failure nor a short write changes what happens next.
use latypus.Io.{IoResult, of_size, of_error, has_error, Reader, ◌>>=◌}
use latypus.Io.Ring.{Ring, reset, buffer_read, bytes_readable}
use latypus.HandlerFile.{Version, http_10, http_11, other_version, is_token}
use latypus.HandlerFile.Tokens.{keepalive_token, close_token}
use latypus.Common.{
  ℕ, ◌+◌, Bool, true, false, not, Option, none, some, List, ◌==◌, ltb, if◌then◌else◌,
}

-- `content_length` is none where the source has a number below 0.
pub record FileBody : Type 0 where
  pub content_length : Option ℕ
  pub total_read : ℕ

-- A result of size 0, of another size (what is left, or -1), or made of `errno`.
pub data BodyAnswer : Type 0 where
  at_end more : BodyAnswer
  failed : (errno : ℕ) → BodyAnswer

-- `total_read == content_length`
abbrev pub is_complete : FileBody → Bool
is_complete h = elim h.content_length [ none ↦ false | some n ↦ h.total_read == n ]

unfoldable pub count_body : FileBody → ℕ → FileBody × BodyAnswer
count_body h n =
    let h1 : FileBody = record h { total_read = h.total_read + n } in
    (h1, if is_complete h1 then at_end else more)

-- After the socket has been read. On an error the answer is made of `errno` and not of the result; it
-- can be 0, as TLS reports its errors otherwise, and is then no error.
unfoldable pub count_read : FileBody → ℕ → Ring → IoResult → Option (Ring × (FileBody × BodyAnswer))
unfolding count_body
count_read h errno r result =
    if has_error result
    then some (r, (h, failed errno))
    else some (if ltb 0 (bytes_readable r) then reset r else r, count_body h (bytes_readable r))

-- `read_response_body`. `none`: outside of the buffer.
unfoldable pub read_response_body :
    FileBody → ℕ → Reader → Ring → Option (Ring × (FileBody × BodyAnswer))
unfolding count_body count_read
read_response_body h errno reader r =
    if ltb 0 (bytes_readable r)
    then some (reset r, count_body h (bytes_readable r))
    else if is_complete h
    then some (r, (h, at_end))
    else do (r1, result) ← buffer_read r reader; count_read h errno r1 result

-- The result as `http_client` looks at it: its size is compared with 0.
abbrev pub body_result : BodyAnswer → IoResult
body_result at_end = of_size 0
body_result more = of_size 1
body_result (failed errno) = of_error errno

-- `handle_response`: whether the connection is closed after the response.
unfoldable pub closes_after : Version → Option (List ℕ) → Bool
closes_after http_10 connection = not (is_token keepalive_token connection)
closes_after http_11 connection = is_token close_token connection
closes_after other_version connection = true

-- The state of the handler and what it answers to an event; a fault is an error to its caller.
abbrev pub body_reader : FileBody → ℕ → Reader → Ring → Ring × IoResult
body_reader h errno reader r = elim (read_response_body h errno reader r) [
  | none ↦ (r, of_error 5)
  | some (r1, (h1, answer)) ↦ (r1, body_result answer)
]
