-- ===== src/HandlerFile/Tokens.antt =====
-- The texts that src/http_server_handler_file.cc writes, from there and from src/http_constants.cc.
use latypus.Common.{ℕ, List, [], ◌∷◌}

abbrev pub page_head : List ℕ
page_head =
    b'<' ∷ b'h' ∷ b't' ∷ b'm' ∷ b'l' ∷ b'>' ∷ b'\r' ∷ b'\n' ∷ b'<' ∷ b'h' ∷ b'e' ∷ b'a' ∷ b'd'
    ∷ b'>' ∷ b'<' ∷ b't' ∷ b'i' ∷ b't' ∷ b'l' ∷ b'e' ∷ b'>' ∷ []

abbrev pub page_title_end : List ℕ
page_title_end =
    b'<' ∷ b'/' ∷ b't' ∷ b'i' ∷ b't' ∷ b'l' ∷ b'e' ∷ b'>' ∷ b'<' ∷ b'/' ∷ b'h' ∷ b'e' ∷ b'a' ∷ b'd'
    ∷ b'>' ∷ b'\r' ∷ b'\n' ∷ b'<' ∷ b'b' ∷ b'o' ∷ b'd' ∷ b'y' ∷ b'>' ∷ b'\r' ∷ b'\n' ∷ b'<' ∷ b'h'
    ∷ b'1' ∷ b'>' ∷ []

abbrev pub page_foot : List ℕ
page_foot =
    b'<' ∷ b'/' ∷ b'h' ∷ b'1' ∷ b'>' ∷ b'\r' ∷ b'\n' ∷ b'<' ∷ b'/' ∷ b'b' ∷ b'o' ∷ b'd' ∷ b'y'
    ∷ b'>' ∷ b'\r' ∷ b'\n' ∷ b'<' ∷ b'/' ∷ b'h' ∷ b't' ∷ b'm' ∷ b'l' ∷ b'>' ∷ b'\r' ∷ b'\n' ∷ []

abbrev pub text_html : List ℕ
text_html = b't' ∷ b'e' ∷ b'x' ∷ b't' ∷ b'/' ∷ b'h' ∷ b't' ∷ b'm' ∷ b'l' ∷ []

abbrev pub keepalive_token : List ℕ
keepalive_token = b'k' ∷ b'e' ∷ b'e' ∷ b'p' ∷ b'-' ∷ b'a' ∷ b'l' ∷ b'i' ∷ b'v' ∷ b'e' ∷ []

abbrev pub close_token : List ℕ
close_token = b'c' ∷ b'l' ∷ b'o' ∷ b's' ∷ b'e' ∷ []

abbrev pub content_type_name : List ℕ
content_type_name =
    b'C' ∷ b'o' ∷ b'n' ∷ b't' ∷ b'e' ∷ b'n' ∷ b't' ∷ b'-' ∷ b'T' ∷ b'y' ∷ b'p' ∷ b'e' ∷ []

abbrev pub content_length_name : List ℕ
content_length_name =
    b'C' ∷ b'o' ∷ b'n' ∷ b't' ∷ b'e' ∷ b'n' ∷ b't' ∷ b'-' ∷ b'L' ∷ b'e' ∷ b'n' ∷ b'g' ∷ b't' ∷ b'h'
    ∷ []

abbrev pub last_modified_name : List ℕ
last_modified_name =
    b'L' ∷ b'a' ∷ b's' ∷ b't' ∷ b'-' ∷ b'M' ∷ b'o' ∷ b'd' ∷ b'i' ∷ b'f' ∷ b'i' ∷ b'e' ∷ b'd' ∷ []

abbrev pub connection_name : List ℕ
connection_name = b'C' ∷ b'o' ∷ b'n' ∷ b'n' ∷ b'e' ∷ b'c' ∷ b't' ∷ b'i' ∷ b'o' ∷ b'n' ∷ []
