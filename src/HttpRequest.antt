-- ===== src/HttpRequest.antt =====
-- src/http_request.cc: a request's strings and headers, and the bytes that it is sent as. The state
-- of the generated parser (`http_parser::has_error`, `is_finished`) is handed in.
pub mod Calls
pub mod Sent
mod Tests
use latypus.Common.{
  ℕ, ◌+◌, Bool, true, false, not, ◌||◌, ◌&&◌, Option, none, some, List, [], ◌∷◌, ◌++◌, length,
}
use latypus.Io.{◌>>=◌}
use latypus.HttpMessage.{HeaderString, Message, text, resize, reset, alloc_string, set_header_field}
use latypus.HttpMessage.Output.{
  Writing, ◌then_write◌, given, exact, line_end, put_line, put_fields, put_end,
}
use latypus.HttpMessage.Strings.{string_text}
use latypus.HttpResponse.{ParseType, parse_none, parse_request, parse_response}

pub record Request : Type 0 where
  pub message : Message
  pub parse_type : ParseType
  pub request_method : Option HeaderString
  pub request_uri : Option HeaderString
  pub fragment : Option HeaderString
  pub request_path : Option HeaderString
  pub query_string : Option HeaderString
  pub http_version : Option HeaderString

unfoldable pub reset_request : Request → Request
reset_request r = record r {
  message = reset r.message;
  parse_type = parse_none;
  request_method = none;
  request_uri = none;
  fragment = none;
  request_path = none;
  query_string = none;
  http_version = none;
}

unfoldable pub resize_request : ℕ → ℕ → Request → Request
resize_request buffer_size max_headers r = record r {
  message = resize buffer_size max_headers r.message;
}

-- The strings that a request keeps in its buffer.
pub data Part : Type 0 where
  method_part uri_part fragment_part path_part query_part version_part : Part

abbrev pub part : Part → Request → Option HeaderString
part method_part r = r.request_method
part uri_part r = r.request_uri
part fragment_part r = r.fragment
part path_part r = r.request_path
part query_part r = r.query_string
part version_part r = r.http_version

abbrev pub store_part : Part → Request → Message → Option HeaderString → Request
store_part method_part r m s = record r { message = m; request_method = s }
store_part uri_part r m s = record r { message = m; request_uri = s }
store_part fragment_part r m s = record r { message = m; fragment = s }
store_part path_part r m s = record r { message = m; request_path = s }
store_part query_part r m s = record r { message = m; query_string = s }
store_part version_part r m s = record r { message = m; http_version = s }

-- `set_request_method`, `set_request_uri`, `set_fragment`, `set_request_path`, `set_query_string` and
-- `set_http_version`. `none`: a write past the end of the buffer.
unfoldable pub set_part : Part → List ℕ → Request → Option Request
set_part p str r = do (m, s) ← alloc_string r.message str; some (store_part p r m s)

unfoldable pub set_field : List ℕ → List ℕ → Request → Option (Request × Bool)
set_field name value r = do
  (m, done) ← set_header_field r.message name value
  some (record r { message = m }, done)

unfoldable pub has_overflow : Request → Bool
has_overflow r = r.message.overflow

abbrev is_request : ParseType → Bool
is_request parse_none = false
is_request parse_request = true
is_request parse_response = false

unfoldable pub has_error : Bool → Bool → Request → Bool
unfolding has_overflow
has_error parser_error finished r =
    parser_error || has_overflow r || (finished && not (is_request r.parse_type))

-- `query_string.data ? query_string.length + 1 : 0`
abbrev pub query_count : Option HeaderString → ℕ
query_count none = 0
query_count (some s) = s.count + 1

abbrev pub query_text : Option (List ℕ) → List ℕ
query_text none = []
query_text (some query) = b'?' ∷ query

abbrev pub request_line : List ℕ → List ℕ → Option (List ℕ) → List ℕ → List ℕ
request_line method uri query version =
    method ++ (b' ' ∷ (uri ++ (query_text query ++ (b' ' ∷ (version ++ line_end)))))

-- The bytes written to the caller's buffer, and their number or -1.
unfoldable pub to_buffer : Request → ℕ → Writing
to_buffer r buffer_size =
    let buffer = r.message.buffer in
    given r.request_method λ method. given r.request_uri λ uri. given r.http_version λ version.
      put_line buffer_size
        (method.count + uri.count + query_count r.query_string + version.count + 4)
        (request_line (text buffer method) (text buffer uri) (string_text r.message r.query_string)
          (text buffer version))
        (exact [])
      then_write λ out.
          put_fields buffer buffer_size r.message.header_list out then_write put_end buffer_size
