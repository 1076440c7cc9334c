-- ===== src/HandlerFunc.antt =====
-- src/http_server_handler_func.cc: the handler that answers a request with the text of a function. The
-- function's text is an argument.
pub mod Answer
use latypus.Common.{
  ℕ, Bool, false, Option, none, some, List, [], ◌∷◌, ◌==◌, ltb, if◌then◌else◌, length,
}
use latypus.Io.{IoResult, of_size, Reader, ◌>>=◌}
use latypus.Io.Buffer.{Buffer, size, resize, set}
use latypus.Io.Ring.{Ring, buffer_read}
use latypus.HttpMessage.Decimal.{decimal_64}
use latypus.HttpResponse.{Response, set_status_code, set_reason_phrase}
use latypus.Server.Forward.{Flags}
use latypus.HandlerFile.{
  Asked, Method, get, head, other_method, put_field, put_optional, connection_value, has_body,
  closes_connection,
}
use latypus.HandlerFile.Tokens.{content_type_name, content_length_name, connection_name}

abbrev pub text_plain : List ℕ
text_plain = b't' ∷ b'e' ∷ b'x' ∷ b't' ∷ b'/' ∷ b'p' ∷ b'l' ∷ b'a' ∷ b'i' ∷ b'n' ∷ []

-- After `handle_request`, when `reader` is the response's buffer.
pub record FuncHandler : Type 0 where
  pub status_code : ℕ
  pub status_text : List ℕ
  pub mime_type : List ℕ
  pub content_length : ℕ
  pub response_buffer : Buffer

abbrev pub method_status : Method → ℕ
method_status get = 200
method_status head = 200
method_status other_method = 405

-- `none`: the assertion of `io_buffer::set`, or a size that has no power of two.
unfoldable pub handle_request : (ℕ → List ℕ) → Asked → List ℕ → Buffer → Option FuncHandler
handle_request get_status_text asked fn_result b = do
  b1 ← if ltb (size b) (length fn_result) then resize b (length fn_result) else some b
  b2 ← set b1 fn_result
  some (record {
    status_code = method_status asked.method;
    status_text = get_status_text (method_status asked.method);
    mime_type = text_plain;
    content_length = length fn_result;
    response_buffer = b2;
  })

-- It always returns true: the flags of the connection and the response.
unfoldable pub populate_response : Asked → FuncHandler → Response → Option (Flags × Response)
populate_response asked h r = do
  r1 ← set_reason_phrase h.status_text (set_status_code h.status_code r)
  r2 ← if h.status_code == 304 then some r1 else put_field content_type_name h.mime_type r1
  r3 ←
      if h.status_code == 304
      then some r2
      else put_field content_length_name (decimal_64 h.content_length) r2
  r4 ← put_optional connection_name (connection_value asked) r3
  some (
    record {
      request_has_body = false;
      response_has_body = has_body asked.method h.status_code;
      connection_close = closes_connection asked;
    },
    r4,
  )

-- Whether there is a reader, and what it gives.
unfoldable pub write_response_body : Bool → Reader → Ring → Option (Ring × IoResult)
write_response_body has_reader body r =
    if has_reader then buffer_read r body else some (r, of_size 0)
