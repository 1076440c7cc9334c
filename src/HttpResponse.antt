-- ===== src/HttpResponse.antt =====
-- src/http_response.cc: a response's strings and headers, and the bytes that it is sent as. The state
-- of the generated parser (`http_parser::has_error`, `is_finished`) is handed in.
pub mod Calls
pub mod Sent
mod Tests
use latypus.Common.{
  ℕ, ◌+◌, Bool, true, false, not, ◌||◌, ◌&&◌, Option, none, some, List, [], ◌∷◌, ◌++◌, length,
}
use latypus.Io.{◌>>=◌}
use latypus.HttpMessage.{HeaderString, Message, text, resize, reset, alloc_string, set_header_field}
use latypus.HttpMessage.Output.{
  Writing, ◌then_write◌, given, exact, line_end, put_line, put_fields, put_end,
}
use latypus.HttpMessage.Decimal.{decimal}

-- `http_parse_type`
pub data ParseType : Type 0 where
  parse_none parse_request parse_response : ParseType

pub record Response : Type 0 where
  pub message : Message
  pub parse_type : ParseType
  pub http_version : Option HeaderString
  pub reason_phrase : Option HeaderString
  pub status_code : ℕ

unfoldable pub reset_response : Response → Response
reset_response r = record r {
  message = reset r.message;
  parse_type = parse_none;
  http_version = none;
  reason_phrase = none;
  status_code = 0;
}

unfoldable pub resize_response : ℕ → ℕ → Response → Response
resize_response buffer_size max_headers r = record r {
  message = resize buffer_size max_headers r.message;
}

unfoldable pub set_parse_type : ParseType → Response → Response
set_parse_type t r = record r { parse_type = t }

-- `none`: a write past the end of the buffer.
unfoldable pub set_http_version : List ℕ → Response → Option Response
set_http_version str r = do
  (m, s) ← alloc_string r.message str
  some (record r { message = m; http_version = s })

unfoldable pub set_reason_phrase : List ℕ → Response → Option Response
set_reason_phrase str r = do
  (m, s) ← alloc_string r.message str
  some (record r { message = m; reason_phrase = s })

unfoldable pub set_status_code : ℕ → Response → Response
set_status_code code r = record r { status_code = code }

unfoldable pub set_field : List ℕ → List ℕ → Response → Option (Response × Bool)
set_field name value r = do
  (m, done) ← set_header_field r.message name value
  some (record r { message = m }, done)

unfoldable pub has_overflow : Response → Bool
has_overflow r = r.message.overflow

abbrev is_response : ParseType → Bool
is_response parse_none = false
is_response parse_request = false
is_response parse_response = true

unfoldable pub has_error : Bool → Bool → Response → Bool
unfolding has_overflow
has_error parser_error finished r =
    parser_error || has_overflow r || (finished && not (is_response r.parse_type))

abbrev pub status_line : List ℕ → ℕ → List ℕ → List ℕ
status_line version code phrase =
    version ++ (b' ' ∷ (decimal code ++ (b' ' ∷ (phrase ++ line_end))))

-- The bytes written to the caller's buffer, and their number or -1.
unfoldable pub to_buffer : Response → ℕ → Writing
to_buffer r buffer_size = given r.http_version λ version. given r.reason_phrase λ phrase.
    put_line buffer_size (version.count + length (decimal r.status_code) + phrase.count + 4)
      (status_line (text r.message.buffer version) r.status_code (text r.message.buffer phrase))
      (exact [])
    then_write λ out.
        put_fields r.message.buffer buffer_size r.message.header_list out
        then_write put_end buffer_size
