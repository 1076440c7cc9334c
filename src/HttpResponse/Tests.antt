-- ===== src/HttpResponse/Tests.antt =====
-- A response `V 204 P` with no fields.
use latypus.Common.{◌≡◌, refl, [], ◌∷◌, some, false, replicate, arith}
use latypus.HttpMessage.Decimal.{digits, decimal}
use latypus.HttpMessage.Output.{Writes}
use latypus.HttpResponse.{Response, parse_none, to_buffer}
use latypus.HttpResponse.Calls.{IsResponse, response_texts}
use latypus.HttpResponse.Sent.{rendered, to_buffer-rendered}

abbrev no_content : Response
no_content = record {
  message = record {
    buffer = b'V' ∷ 0 ∷ b'P' ∷ 0 ∷ replicate 12 0;
    buffer_offset = 4;
    max_headers = 2;
    header_list = [];
    header_map = [];
    overflow = false;
  };
  parse_type = parse_none;
  http_version = some (record { start = 0; count = 1 });
  reason_phrase = some (record { start = 2; count = 1 });
  status_code = 204;
}

no_content-IsResponse : IsResponse no_content
no_content-IsResponse = record {
  is_message = record {
    small = omega arith;
    offset_in = omega arith;
    within = tt;
    same_fields = refl;
  };
  version_kept = omega arith;
  phrase_kept = omega arith;
}

-- The number 204 in digits.
decimal_204 : decimal 204 ≡ b'2' ∷ b'0' ∷ b'4' ∷ []
unfolding decimal digits
decimal_204 = refl

to_buffer-rendered_example :
    Writes 12 (rendered (response_texts no_content)) (to_buffer no_content 12)
to_buffer-rendered_example = to_buffer-rendered no_content 12 no_content-IsResponse (omega arith)
