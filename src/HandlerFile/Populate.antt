-- ===== src/HandlerFile/Populate.antt =====
-- The response that the file handler fills.
use latypus.Common.{ℕ, ◌≡◌, refl, ap, ◌∙◌, ◌||◌, Option, none, some, List, ◌==◌, if_elim}
use latypus.Io.{◌>>=◌}
use latypus.HttpMessage.Decimal.{decimal_64}
use latypus.HttpResponse.{Response, set_status_code, set_reason_phrase}
use latypus.HttpResponse.Calls.{
  IsResponse, call_field, call_reason_phrase, call, Refines, call-Refines,
}
use latypus.Server.Forward.{Flags}
use latypus.HandlerFile.{
  Site, Asked, handle_request, put_field, put_optional, populate_response, connection_value,
}
use latypus.HandlerFile.Tokens.{
  content_type_name, content_length_name, last_modified_name, connection_name,
}
use latypus.HandlerFile.Answer.{sends_body, answer-sends_body}

-- A response that has been filled further.
abbrev pub Fills : Response → Option Response → Type 0
Fills r none = ⊥
Fills r (some r1) = IsResponse r1 × (r1.status_code ≡ r.status_code)

pub bind-Fills :
    {B : Type 0} (P : Option B → Type 0) (r : Response) (o : Option Response)
    (f : Response → Option B)
    → Fills r o
    → ((r1 : Response) → IsResponse r1 → r1.status_code ≡ r.status_code → P (f r1))
    → P (o >>= f)
bind-Fills P r none f h k = elim h [ ]
bind-Fills P r (some r1) f (v, e) k = k r1 v e

pub field-Fills :
    (name value : List ℕ) (r : Response) → IsResponse r → Fills r (put_field name value r)
field-Fills name value r v =
    by_call (call (call_field name value) r) (call-Refines r (call_field name value) v)
  where
    by_call : (o : Option Response) → Refines r (call_field name value) o → Fills r o
    by_call none h = elim h [ ]
    by_call (some r1) (i, e, _) = (i, ap (λ t. t.code) e)

pub phrase-Fills :
    (phrase : List ℕ) (code : ℕ) (r : Response)
    → IsResponse r
    → Fills (set_status_code code r) (set_reason_phrase phrase (set_status_code code r))
unfolding set_status_code
phrase-Fills phrase code r v =
    by_call (set_reason_phrase phrase r1) (call-Refines r1 (call_reason_phrase phrase) w)
  where
    r1 : Response
    r1 = record r { status_code = code }

    w : IsResponse r1
    w = record {
      is_message = v.is_message;
      version_kept = v.version_kept;
      phrase_kept = v.phrase_kept;
    }

    by_call : (o : Option Response) → Refines r1 (call_reason_phrase phrase) o → Fills r1 o
    by_call none h = elim h [ ]
    by_call (some r2) (i, e, _) = (i, ap (λ t. t.code) e)

pub optional-Fills :
    (name : List ℕ) (value : Option (List ℕ)) (r : Response)
    → IsResponse r
    → Fills r (put_optional name value r)
optional-Fills name none r v = (v, refl)
optional-Fills name (some value) r v = field-Fills name value r v

abbrev pub Populated : Site → Asked → Option (Flags × Response) → Type 0
Populated site asked none = ⊥
Populated site asked (some (flags, r)) =
    IsResponse r
    × (r.status_code ≡ (handle_request site asked).status_code)
    × (flags.response_has_body ≡ sends_body asked.method (handle_request site asked).reader)

-- `populate_response` after `handle_request`, on every response whose strings lie before the offset of
-- its buffer: it never writes past that buffer and the strings of the response it leaves lie before
-- the new offset, whether the fields fit or not; the status code of the response is the one of the
-- answer; and the connection is told that there is a body exactly where the method is not HEAD and
-- there is something to read the body from.
pub populate_response-Populated :
    (site : Site) (asked : Asked) (r : Response)
    → IsResponse r
    → Populated site asked (populate_response site asked (handle_request site asked) r)
unfolding populate_response set_status_code
populate_response-Populated site asked r v =
    let h = handle_request site asked in
    let P = Populated site asked in
    bind-Fills P (set_status_code h.status_code r)
      (set_reason_phrase h.status_text (set_status_code h.status_code r)) _
      (phrase-Fills h.status_text h.status_code r v)
      λ r1 v1 e1.
        bind-Fills P r1 _ _
          (if_elim (Fills r1) (h.status_code == 304) (λ _. (v1, refl))
            λ _. field-Fills content_type_name h.mime_type r1 v1)
          λ r2 v2 e2.
            bind-Fills P r2 _ _
              (if_elim (Fills r2) (h.status_code == 304) (λ _. (v2, refl))
                λ _. field-Fills content_length_name (decimal_64 h.content_length) r2 v2)
              λ r3 v3 e3.
                bind-Fills P r3 _ _
                  (if_elim (Fills r3) ((h.status_code == 200) || (h.status_code == 304))
                    (λ _. field-Fills last_modified_name (site.header_date h.last_modified) r3 v3)
                    λ _. (v3, refl))
                  λ r4 v4 e4.
                    bind-Fills P r4 _ _
                      (optional-Fills connection_name (connection_value asked) r4 v4)
                      λ r5 v5 e5.
                        (v5, e5 ∙ e4 ∙ e3 ∙ e2 ∙ e1, answer-sends_body site asked asked.method)
