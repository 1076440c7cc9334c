-- ===== src/HandlerFile.antt =====
-- src/http_server_handler_file.cc: the handler that answers a request with a file. The system's files,
-- the tables of http_constants and of the configuration, and the dates of http_date are arguments.
pub mod Tokens
pub mod Open
pub mod Answer
pub mod Populate
mod Tests
use latypus.Common.{
  ℕ, zero, suc, ◌+◌, ◌/◌, ◌%◌, ◌^◌, Bool, true, false, not, ◌&&◌, ◌||◌, Option, none, some, List,
  [], ◌∷◌, ◌++◌, ◌==◌, ltb, leb, length, if◌then◌else◌,
}
use latypus.Io.{IoResult, of_size, Reader, ◌>>=◌}
use latypus.Io.Ring.{Ring, buffer_read}
use latypus.HttpMessage.{same_string}
use latypus.HttpMessage.Decimal.{decimal, decimal_64}
use latypus.HttpResponse.{Response, set_status_code, set_reason_phrase, set_field}
use latypus.Server.Forward.{Flags}
use latypus.HandlerFile.Tokens.{
  page_head, page_title_end, page_foot, text_html, keepalive_token, close_token, content_type_name,
  content_length_name, last_modified_name, connection_name,
}

-- What `io_file::stat` answers: an error code, or 0 and the fields of `struct stat`.
pub record FileStat : Type 0 where
  pub errcode : ℕ
  pub st_mode : ℕ
  pub st_size : ℕ
  pub st_mtime : ℕ

-- The files and the tables. `open_file` answers an error code, or 0.
pub record Site : Type 0 where
  pub stat : List ℕ → FileStat
  pub open_file : List ℕ → ℕ
  pub mime_type : List ℕ → List ℕ
  pub status_text : ℕ → List ℕ
  pub header_date : ℕ → List ℕ
  pub index_files : List (List ℕ)

-- What the handler reads from the request. `location_index` has the index files of its location;
-- `if_modified_since` is the date of that header.
pub data Method : Type 0 where
  get head other_method : Method

pub data Version : Type 0 where
  http_10 http_11 other_version : Version

pub record Asked : Type 0 where
  pub method : Method
  pub version : Version
  pub path_translated : List ℕ
  pub location_index : List (List ℕ)
  pub if_modified_since : Option ℕ
  pub connection : Option (List ℕ)

-- `reader`: null, the file, or the error page.
pub data Source : Type 0 where
  no_source from_file error_page : Source

pub record FileHandler : Type 0 where
  pub open_path : List ℕ
  pub status_code : ℕ
  pub status_text : List ℕ
  pub mime_type : List ℕ
  pub content_length : ℕ
  pub last_modified : ℕ
  pub reader : Source
  pub error_buffer : List ℕ

-- The status for an `errno`: EACCES, ENOENT or another. None where there is no error.
unfoldable pub error_status : ℕ → Option ℕ
error_status errcode =
    if errcode == 13
    then some 403
    else if errcode == 2
    then some 404
    else if errcode == 0
    then none
    else some 500

-- `st_mode & S_IFDIR` and `st_mode & S_IFREG`: the bits 14 and 15.
unfoldable pub has_directory_bit : ℕ → Bool
has_directory_bit mode = mode / 2 ^ 14 % 2 == 1

unfoldable pub has_regular_bit : ℕ → Bool
has_regular_bit mode = mode / 2 ^ 15 % 2 == 1

abbrev pub ends_with_slash : List ℕ → Bool
ends_with_slash [] = false
ends_with_slash (c ∷ []) = c == b'/'
ends_with_slash (c ∷ (d ∷ cs)) = ends_with_slash (d ∷ cs)

abbrev pub index_path : List ℕ → List ℕ → List ℕ
index_path path index = if ends_with_slash path then path ++ index else path ++ (b'/' ∷ index)

-- The first index file that there is, with its state.
unfoldable pub find_index : Site → List ℕ → List (List ℕ) → Option (List ℕ × FileStat)
find_index site path [] = none
find_index site path (index ∷ rest) =
    let found = site.stat (index_path path index) in
    if found.errcode == 0 then some (index_path path index, found) else find_index site path rest

-- What `open_resource` comes to: a failure, or a file that is open.
pub data Opened : Type 0 where
  failed : List ℕ → ℕ → Opened
  opened : List ℕ → FileStat → Opened

-- The call of `open`, once it is known what to open.
unfoldable pub open_path_at : Site → List ℕ → FileStat → Opened
unfolding error_status
open_path_at site path st = elim (error_status (site.open_file path)) [
  | some status ↦ failed path status
  | none ↦ opened path st
]

unfoldable pub open_resource : Site → List (List ℕ) → List ℕ → Opened
unfolding error_status find_index open_path_at has_directory_bit has_regular_bit
open_resource site location_index path =
    let st = site.stat path in
    elim (error_status st.errcode) [
      | some status ↦ failed path status
      | none ↦
          if has_directory_bit st.st_mode
          then (elim (find_index site path
              (if ltb 0 (length location_index) then location_index else site.index_files)) [
                | none ↦ failed path 403
                | some (index, found) ↦ open_path_at site index found
              ])
          else if not (has_regular_bit st.st_mode)
          then failed path 403
          else open_path_at site path st
    ]

-- `create_error_response`, for a text that fits the 1024 bytes of `error_buffer`. `snprintf` would cut
-- a longer one, of which `set_length` would assert that it fits; the texts of `http_constants` are far
-- shorter.
unfoldable pub create_error_response : ℕ → List ℕ → List ℕ
create_error_response status_code status_text =
    let title = decimal status_code ++ (b' ' ∷ status_text) in
    page_head ++ (title ++ (page_title_end ++ (title ++ page_foot)))

unfoldable pub error_answer : Site → List ℕ → ℕ → FileHandler
unfolding create_error_response
error_answer site path status = record {
  open_path = path;
  status_code = status;
  status_text = site.status_text status;
  mime_type = text_html;
  content_length = length (create_error_response status (site.status_text status));
  last_modified = 0;
  reader = error_page;
  error_buffer = create_error_response status (site.status_text status);
}

-- Whether the file is as old as the date that the client has.
abbrev pub not_modified : Option ℕ → ℕ → Bool
not_modified none last_modified = false
not_modified (some since) last_modified = leb last_modified since

unfoldable pub file_answer : Site → Option ℕ → List ℕ → FileStat → FileHandler
file_answer site since path st =
    if not_modified since st.st_mtime
    then record {
      open_path = path;
      status_code = 304;
      status_text = site.status_text 304;
      mime_type = [];
      content_length = 0;
      last_modified = st.st_mtime;
      reader = no_source;
      error_buffer = [];
    }
    else record {
      open_path = path;
      status_code = 200;
      status_text = site.status_text 200;
      mime_type = site.mime_type path;
      content_length = st.st_size;
      last_modified = st.st_mtime;
      reader = from_file;
      error_buffer = [];
    }

unfoldable pub answer_opened : Site → Option ℕ → Opened → FileHandler
unfolding error_answer file_answer
answer_opened site since (failed path status) = error_answer site path status
answer_opened site since (opened path st) = file_answer site since path st

-- `handle_request`, after `init`; it always returns true.
unfoldable pub handle_request : Site → Asked → FileHandler
unfolding open_resource answer_opened error_answer
handle_request site asked = elim asked.method [
  | other_method ↦ error_answer site [] 405
  | get ↦
      answer_opened site asked.if_modified_since
        (open_resource site asked.location_index asked.path_translated)
  | head ↦
      answer_opened site asked.if_modified_since
        (open_resource site asked.location_index asked.path_translated)
]

-- `strcasecmp` with a token of small letters.
abbrev lower : ℕ → ℕ
lower c = if leb b'A' c && leb c b'Z' then c + 32 else c

abbrev pub same_nocase : List ℕ → List ℕ → Bool
same_nocase [] [] = true
same_nocase [] (d ∷ ds) = false
same_nocase (c ∷ cs) [] = false
same_nocase (c ∷ cs) (d ∷ ds) = (lower c == d) && same_nocase cs ds

abbrev pub is_token : List ℕ → Option (List ℕ) → Bool
is_token token none = false
is_token token (some text) = same_nocase text token

abbrev pub closes_connection : Asked → Bool
closes_connection asked = elim asked.version [
  | http_10 ↦ not (is_token keepalive_token asked.connection)
  | http_11 ↦ is_token close_token asked.connection
  | other_version ↦ true
]

abbrev pub has_body : Method → ℕ → Bool
has_body get status_code = not (status_code == 304)
has_body head status_code = false
has_body other_method status_code = true

abbrev pub put_field : List ℕ → List ℕ → Response → Option Response
put_field name value r = do (r1, done) ← set_field name value r; some r1

-- The value of the Connection header, where one is sent.
abbrev pub connection_value : Asked → Option (List ℕ)
connection_value asked = elim asked.version [
  | http_10 ↦ if is_token keepalive_token asked.connection then some keepalive_token else none
  | http_11 ↦ some (if closes_connection asked then close_token else keepalive_token)
  | other_version ↦ none
]

abbrev pub put_optional : List ℕ → Option (List ℕ) → Response → Option Response
put_optional name none r = some r
put_optional name (some value) r = put_field name value r

-- `populate_response`, which always returns true: the flags of the connection and the response. `none`:
-- a write past the end of the response's buffer.
unfoldable pub populate_response : Site → Asked → FileHandler → Response → Option (Flags × Response)
populate_response site asked h r = do
  r1 ← set_reason_phrase h.status_text (set_status_code h.status_code r)
  r2 ← if h.status_code == 304 then some r1 else put_field content_type_name h.mime_type r1
  r3 ←
      if h.status_code == 304
      then some r2
      else put_field content_length_name (decimal_64 h.content_length) r2
  r4 ←
      if (h.status_code == 200) || (h.status_code == 304)
      then put_field last_modified_name (site.header_date h.last_modified) r3
      else some r3
  r5 ← put_optional connection_name (connection_value asked) r4
  some (
    record {
      request_has_body = false;
      response_has_body = has_body asked.method h.status_code;
      connection_close = closes_connection asked;
    },
    r5,
  )

-- `write_response_body`: the reader is null, the file's or the error buffer's.
unfoldable pub write_response_body : Source → Reader → Reader → Ring → Option (Ring × IoResult)
write_response_body no_source file page r = some (r, of_size 0)
write_response_body from_file file page r = buffer_read r file
write_response_body error_page file page r = buffer_read r page
