-- ===== src/HandlerFile/Tests.antt =====
-- A site with one file, which is asked for by HTTP/1.1.
use latypus.Common.{refl, [], ◌∷◌, none, false, replicate, arith}
use latypus.HttpResponse.{Response, parse_none}
use latypus.HttpResponse.Calls.{IsResponse}
use latypus.HandlerFile.{Site, Asked, get, http_11, handle_request, populate_response}
use latypus.HandlerFile.Answer.{IsAnswer, handle_request-IsAnswer}
use latypus.HandlerFile.Populate.{Populated, populate_response-Populated}

-- Every path is a regular file of ten bytes.
abbrev site : Site
site = record {
  stat = λ _. record { errcode = 0; st_mode = 33188; st_size = 10; st_mtime = 7 };
  open_file = λ _. 0;
  mime_type = λ _. b't' ∷ [];
  status_text = λ _. b'O' ∷ b'K' ∷ [];
  header_date = λ _. b'd' ∷ [];
  index_files = [];
}

abbrev asked : Asked
asked = record {
  method = get;
  version = http_11;
  path_translated = b'/' ∷ b'a' ∷ [];
  location_index = [];
  if_modified_since = none;
  connection = none;
}

abbrev empty_response : Response
empty_response = record {
  message = record {
    buffer = replicate 64 0;
    buffer_offset = 0;
    max_headers = 4;
    header_list = [];
    header_map = [];
    overflow = false;
  };
  parse_type = parse_none;
  http_version = none;
  reason_phrase = none;
  status_code = 0;
}

empty_response-IsResponse : IsResponse empty_response
empty_response-IsResponse = record {
  is_message = record {
    small = omega arith;
    offset_in = omega arith;
    within = tt;
    same_fields = refl;
  };
  version_kept = tt;
  phrase_kept = tt;
}

handle_request-IsAnswer_example :
    IsAnswer site (handle_request site asked) (handle_request site asked).reader
handle_request-IsAnswer_example = handle_request-IsAnswer site asked

populate_response-Populated_example :
    Populated site asked (populate_response site asked (handle_request site asked) empty_response)
populate_response-Populated_example =
    populate_response-Populated site asked empty_response empty_response-IsResponse
