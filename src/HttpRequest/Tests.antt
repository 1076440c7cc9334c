-- ===== src/HttpRequest/Tests.antt =====
-- A request `G u V` with no fields.
use latypus.Common.{refl, [], ◌∷◌, none, some, false, replicate, arith}
use latypus.HttpMessage.Strings.{IsKept}
use latypus.HttpResponse.{parse_none}
use latypus.HttpRequest.{
  Request, Part, method_part, uri_part, fragment_part, path_part, query_part, version_part, part,
}
use latypus.HttpRequest.Calls.{IsRequest, Refines, call, call_part, request_call-Refines}

abbrev get_u : Request
get_u = record {
  message = record {
    buffer = b'G' ∷ 0 ∷ b'u' ∷ 0 ∷ b'V' ∷ 0 ∷ replicate 10 0;
    buffer_offset = 6;
    max_headers = 2;
    header_list = [];
    header_map = [];
    overflow = false;
  };
  parse_type = parse_none;
  request_method = some (record { start = 0; count = 1 });
  request_uri = some (record { start = 2; count = 1 });
  fragment = none;
  request_path = none;
  query_string = none;
  http_version = some (record { start = 4; count = 1 });
}

get_u-IsKept : (p : Part) → IsKept get_u.message (part p get_u)
get_u-IsKept method_part = omega arith
get_u-IsKept uri_part = omega arith
get_u-IsKept fragment_part = tt
get_u-IsKept path_part = tt
get_u-IsKept query_part = tt
get_u-IsKept version_part = omega arith

get_u-IsRequest : IsRequest get_u
get_u-IsRequest = record {
  is_message = record {
    small = omega arith;
    offset_in = omega arith;
    within = tt;
    same_fields = refl;
  };
  parts_kept = get_u-IsKept;
}

request_call-Refines_example :
    Refines get_u (call_part query_part (b'q' ∷ [])) (call (call_part query_part (b'q' ∷ [])) get_u)
request_call-Refines_example =
    request_call-Refines get_u (call_part query_part (b'q' ∷ [])) get_u-IsRequest
