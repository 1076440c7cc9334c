-- ===== src/HandlerFile/Answer.antt =====
-- What the file handler answers a request with.
use latypus.Common.{
  ℕ, ◌≡◌, refl, ap, sym, ◌∙◌, inl, inr, Bool, true, false, not, Option, List, [], ◌==◌, length,
  if_elim,
}
use latypus.HandlerFile.{
  FileStat, Site, Asked, Method, get, head, other_method, Source, no_source, from_file, error_page,
  FileHandler, Opened, failed, opened, open_resource, create_error_response, error_answer,
  not_modified, file_answer, answer_opened, handle_request, has_body,
}
use latypus.HandlerFile.Open.{IsRefusal, IsOpened, open_resource-IsOpened}

-- What an answer is, by what its body is read from.
abbrev pub IsAnswer : Site → FileHandler → Source → Type 0
IsAnswer site h from_file =
    (h.status_code ≡ 200)
    × (site.open_file h.open_path ≡ 0)
    × ((site.stat h.open_path).errcode ≡ 0)
    × (h.content_length ≡ (site.stat h.open_path).st_size)
IsAnswer site h no_source = (h.status_code ≡ 304) × (h.content_length ≡ 0)
IsAnswer site h error_page =
    IsRefusal h.status_code
    × (h.error_buffer ≡ create_error_response h.status_code (site.status_text h.status_code))
    × (h.content_length ≡ length h.error_buffer)

error_answer-IsAnswer :
    (site : Site) (path : List ℕ) (status : ℕ)
    → IsRefusal status
    → IsAnswer site (error_answer site path status) (error_answer site path status).reader
unfolding error_answer
error_answer-IsAnswer site path status h = (h, refl, refl)

file_answer-IsAnswer :
    (site : Site) (since : Option ℕ) (path : List ℕ) (st : FileStat)
    → IsOpened site (opened path st)
    → IsAnswer site (file_answer site since path st) (file_answer site since path st).reader
unfolding file_answer
file_answer-IsAnswer site since path st (o, e, z) =
    if_elim (λ (h : FileHandler). IsAnswer site h h.reader) (not_modified since st.st_mtime)
      (λ _. (refl, refl))
      λ _.
        (refl, o, ap (λ (x : FileStat). x.errcode) e ∙ z, ap (λ (x : FileStat). x.st_size) (sym e))

answer_opened-IsAnswer :
    (site : Site) (since : Option ℕ) (o : Opened)
    → IsOpened site o
    → IsAnswer site (answer_opened site since o) (answer_opened site since o).reader
unfolding answer_opened
answer_opened-IsAnswer site since (failed path status) h = error_answer-IsAnswer site path status h
answer_opened-IsAnswer site since (opened path st) h = file_answer-IsAnswer site since path st h

answers :
    (site : Site) (asked : Asked) (method : Method)
    → IsAnswer site
        (handle_request site (record asked { method = method }))
        (handle_request site (record asked { method = method })).reader
unfolding handle_request
answers site asked get =
    answer_opened-IsAnswer site asked.if_modified_since
      (open_resource site asked.location_index asked.path_translated)
      (open_resource-IsOpened site asked.location_index asked.path_translated)
answers site asked head =
    answer_opened-IsAnswer site asked.if_modified_since
      (open_resource site asked.location_index asked.path_translated)
      (open_resource-IsOpened site asked.location_index asked.path_translated)
answers site asked other_method = error_answer-IsAnswer site [] 405 (inr (inr (inl refl)))

-- `handle_request`, whatever the files, the tables and the request are: a body is read from the file
-- only with status 200, when the path that was opened exists and could be opened, and the content
-- length is its size; there is no reader only with status 304 and length 0; in every other case the
-- status is 403, 404, 405 or 500, and the body is the error page of that status with its length.
pub handle_request-IsAnswer :
    (site : Site) (asked : Asked)
    → IsAnswer site (handle_request site asked) (handle_request site asked).reader
handle_request-IsAnswer site asked = answers site asked asked.method

abbrev pub reads : Source → Bool
reads no_source = false
reads from_file = true
reads error_page = true

not_304 : (status : ℕ) → IsRefusal status → (status == 304) ≡ false
not_304 status (inl e) = rw e refl
not_304 status (inr (inl e)) = rw e refl
not_304 status (inr (inr (inl e))) = rw e refl
not_304 status (inr (inr (inr e))) = rw e refl

get_body :
    (site : Site) (h : FileHandler) (source : Source)
    → IsAnswer site h source
    → not (h.status_code == 304) ≡ reads source
get_body site h no_source (e, _) = rw e refl
get_body site h from_file (e, _, _, _) = rw e refl
get_body site h error_page (e, _, _) = ap not (not_304 h.status_code e)

-- A body is sent for every method but HEAD, where there is something to read it from.
abbrev pub sends_body : Method → Source → Bool
sends_body get reader = reads reader
sends_body head reader = false
sends_body other_method reader = reads reader

pub answer-sends_body :
    (site : Site) (asked : Asked) (method : Method)
    → has_body method (handle_request site (record asked { method = method })).status_code
      ≡ sends_body method (handle_request site (record asked { method = method })).reader
unfolding handle_request error_answer
answer-sends_body site asked get =
    let h = handle_request site (record asked { method = get }) in
    get_body site h h.reader (answers site asked get)
answer-sends_body site asked head = refl
answer-sends_body site asked other_method = refl
