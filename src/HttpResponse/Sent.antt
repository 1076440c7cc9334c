-- ===== src/HttpResponse/Sent.antt =====
-- What a response is sent as.
use latypus.Common.{
  ℕ, ◌+◌, ◌^◌, ◌<◌, ◌≡◌, refl, Option, none, some, List, ◌∷◌, ◌++◌, arith, length, length-append,
}
use latypus.Io.{◌>>=◌}
use latypus.HttpMessage.{HeaderString, text}
use latypus.HttpMessage.Decimal.{decimal}
use latypus.HttpMessage.Output.{line_end, rendered_fields, Writes, put_lines-Fitted, length-text_in}
use latypus.HttpMessage.Strings.{IsKept}
use latypus.HttpResponse.{Response, status_line, to_buffer}
use latypus.HttpResponse.Calls.{IsResponse, ResponseTexts, response_texts}

-- The bytes of a response, where it has a version and a reason phrase.
abbrev pub rendered : ResponseTexts → Option (List ℕ)
rendered t = do
  version ← t.version
  phrase ← t.phrase
  some (status_line version t.code phrase ++ rendered_fields t.fields)

abbrev with_strings : Response → Option HeaderString → Option HeaderString → Response
with_strings r version phrase = record r { http_version = version; reason_phrase = phrase }

length-status_line :
    (version : List ℕ) (code : ℕ) (phrase : List ℕ)
    → length (status_line version code phrase)
      ≡ length version + length (decimal code) + length phrase + 4
length-status_line version code phrase = omega (
  arith,
  length-append version (b' ' ∷ (decimal code ++ (b' ' ∷ (phrase ++ line_end)))),
  length-append (decimal code) (b' ' ∷ (phrase ++ line_end)),
  length-append phrase line_end,
)

-- `to_buffer`, for every response whose strings lie before the offset and every buffer below 2 ^ 62
-- bytes: it writes the status line, the fields in their order and the empty line, and returns their
-- length, exactly where the version and the reason phrase are not null and the whole is shorter than
-- the buffer; elsewhere it returns -1. What it writes, also before a -1, ends within the buffer.
pub to_buffer-rendered :
    (r : Response) (buffer_size : ℕ)
    → IsResponse r
    → buffer_size < 2 ^ 62
    → Writes buffer_size (rendered (response_texts r)) (to_buffer r buffer_size)
unfolding to_buffer
to_buffer-rendered r buffer_size v small =
    by_strings r.http_version r.reason_phrase v.version_kept v.phrase_kept
  where
    by_strings :
        (version phrase : Option HeaderString)
        → IsKept r.message version
        → IsKept r.message phrase
        → Writes buffer_size
            (rendered (response_texts (with_strings r version phrase)))
            (to_buffer (with_strings r version phrase) buffer_size)
    by_strings none phrase k l = (refl, omega arith)
    by_strings (some version) none k l = (refl, omega arith)
    by_strings (some version) (some phrase) k l =
        put_lines-Fitted buffer_size small r.message.buffer r.message.buffer_offset
          (version.count + length (decimal r.status_code) + phrase.count + 4)
          (status_line (text r.message.buffer version) r.status_code (text r.message.buffer phrase))
          r.message.header_list
          (omega (
            arith,
            length-status_line (text r.message.buffer version) r.status_code
                (text r.message.buffer phrase),
            length-text_in r.message.buffer r.message.buffer_offset version v.is_message.offset_in
                k,
            length-text_in r.message.buffer r.message.buffer_offset phrase v.is_message.offset_in l,
          ))
          v.is_message.offset_in v.is_message.within
