-- ===== src/HttpRequest/Sent.antt =====
-- What a request is sent as.
use latypus.Common.{
  ℕ, ◌+◌, ◌^◌, ◌<◌, ◌≤◌, ◌≡◌, refl, Option, none, some, List, ◌∷◌, ◌++◌, arith, length,
  length-append,
}
use latypus.Io.{◌>>=◌}
use latypus.HttpMessage.{HeaderString, Message, text}
use latypus.HttpMessage.Fields.{headers}
use latypus.HttpMessage.Output.{line_end, rendered_fields, Writes, put_lines-Fitted, length-text_in}
use latypus.HttpMessage.Strings.{IsKept, string_text}
use latypus.HttpRequest.{
  Request, method_part, uri_part, query_part, version_part, query_count, query_text, request_line,
  to_buffer,
}
use latypus.HttpRequest.Calls.{IsRequest, part_text}

-- The bytes of a request, where it has a method, a uri and a version.
abbrev pub rendered : Request → Option (List ℕ)
rendered r = do
  method ← part_text method_part r
  uri ← part_text uri_part r
  version ← part_text version_part r
  some (
      request_line method uri (part_text query_part r) version
      ++ rendered_fields (headers r.message))

abbrev with_strings :
    Request → Option HeaderString → Option HeaderString → Option HeaderString → Request
with_strings r method uri version = record r {
  request_method = method;
  request_uri = uri;
  http_version = version;
}

length-request_line :
    (method uri : List ℕ) (query : Option (List ℕ)) (version : List ℕ)
    → length (request_line method uri query version)
      ≡ length method + length uri + length (query_text query) + length version + 4
length-request_line method uri query version =
    let rest = version ++ line_end in
    omega (
      arith,
      length-append method (b' ' ∷ (uri ++ (query_text query ++ (b' ' ∷ rest)))),
      length-append uri (query_text query ++ (b' ' ∷ rest)),
      length-append (query_text query) (b' ' ∷ rest),
      length-append version line_end,
    )

length-query_text :
    (m : Message) (s : Option HeaderString)
    → m.buffer_offset ≤ length m.buffer
    → IsKept m s
    → length (query_text (string_text m s)) ≡ query_count s
length-query_text m none o k = refl
length-query_text m (some s) o k = omega (arith, length-text_in m.buffer m.buffer_offset s o k)

-- `to_buffer`, for every request whose strings lie before the offset and every buffer below 2 ^ 62
-- bytes: it writes the request line with the query where there is one, the fields in their order and
-- the empty line, and returns their length, exactly where the method, the uri and the version are not
-- null and the whole is shorter than the buffer; elsewhere it returns -1. What it writes, also
-- before a -1, ends within the buffer.
pub request_to_buffer-rendered :
    (r : Request) (buffer_size : ℕ)
    → IsRequest r
    → buffer_size < 2 ^ 62
    → Writes buffer_size (rendered r) (to_buffer r buffer_size)
unfolding to_buffer
request_to_buffer-rendered r buffer_size v small =
    by_strings r.request_method r.request_uri r.http_version (v.parts_kept method_part)
      (v.parts_kept uri_part) (v.parts_kept version_part)
  where
    by_strings :
        (method uri version : Option HeaderString)
        → IsKept r.message method
        → IsKept r.message uri
        → IsKept r.message version
        → Writes buffer_size
            (rendered (with_strings r method uri version))
            (to_buffer (with_strings r method uri version) buffer_size)
    by_strings none uri version j k l = (refl, omega arith)
    by_strings (some method) none version j k l = (refl, omega arith)
    by_strings (some method) (some uri) none j k l = (refl, omega arith)
    by_strings (some method) (some uri) (some version) j k l =
        let o = v.is_message.offset_in in
        let buf = r.message.buffer in
        put_lines-Fitted buffer_size small buf r.message.buffer_offset
          (method.count + uri.count + query_count r.query_string + version.count + 4)
          (request_line (text buf method) (text buf uri) (string_text r.message r.query_string)
            (text buf version))
          r.message.header_list
          (omega (
            arith,
            length-request_line (text buf method) (text buf uri)
                (string_text r.message r.query_string) (text buf version),
            length-query_text r.message r.query_string o (v.parts_kept query_part),
            length-text_in buf r.message.buffer_offset method o j,
            length-text_in buf r.message.buffer_offset uri o k,
            length-text_in buf r.message.buffer_offset version o l,
          ))
          o v.is_message.within
