-- ===== src/HttpResponse/Calls.antt =====
-- What the setters do to a response, seen as its texts.
use latypus.Common.{ℕ, ◌≡◌, refl, ap, ◌∙◌, Bool, true, Option, none, some, List, if◌then◌else◌}
use latypus.Io.{◌>>=◌}
use latypus.HttpMessage.{HeaderString, Message, alloc_string, set_header_field}
use latypus.HttpMessage.Fields.{Texts, headers, put_text, IsMessage}
use latypus.HttpMessage.Update.{accepts, Updated, set_header_field-Updated}
use latypus.HttpMessage.Strings.{
  IsKept, string_text, IsKept-Kept, string_text-Kept, fits_string, Allocated,
  alloc_string-Allocated,
}
use latypus.HttpResponse.{
  Response, set_http_version, set_reason_phrase, set_status_code, set_field, has_overflow,
}

-- The strings lie before the offset.
pub record IsResponse (r : Response) : Type 0 where
  pub is_message : IsMessage r.message
  pub version_kept : IsKept r.message r.http_version
  pub phrase_kept : IsKept r.message r.reason_phrase

-- A response as its texts.
pub record ResponseTexts : Type 0 where
  pub version : Option (List ℕ)
  pub code : ℕ
  pub phrase : Option (List ℕ)
  pub fields : Texts

abbrev pub response_texts : Response → ResponseTexts
response_texts r = record {
  version = string_text r.message r.http_version;
  code = r.status_code;
  phrase = string_text r.message r.reason_phrase;
  fields = headers r.message;
}

-- The calls by which a response is filled.
pub data Call : Type 0 where
  call_http_version : List ℕ → Call
  call_status_code : ℕ → Call
  call_reason_phrase : List ℕ → Call
  call_field : List ℕ → List ℕ → Call

abbrev pub call : Call → Response → Option Response
call (call_http_version str) r = set_http_version str r
call (call_status_code code) r = some (set_status_code code r)
call (call_reason_phrase str) r = set_reason_phrase str r
call (call_field name value) r = do (r1, done) ← set_field name value r; some r1

-- There is space for what the call stores.
abbrev pub has_space : Call → Response → Bool
has_space (call_http_version str) r = fits_string r.message str
has_space (call_status_code code) r = true
has_space (call_reason_phrase str) r = fits_string r.message str
has_space (call_field name value) r = accepts r.message name value

-- The call on the texts.
abbrev pub call_texts : Call → Bool → ResponseTexts → ResponseTexts
call_texts (call_http_version str) space t = record t { version = if space then some str else none }
call_texts (call_status_code code) space t = record t { code = code }
call_texts (call_reason_phrase str) space t = record t { phrase = if space then some str else none }
call_texts (call_field name value) space t = record t {
  fields = if space then put_text t.fields name value else t.fields;
}

abbrev pub Refines : Response → Call → Option Response → Type 0
Refines r c none = ⊥
Refines r c (some r1) =
    IsResponse r1
    × (response_texts r1 ≡ call_texts c (has_space c r) (response_texts r))
    × (has_overflow r1 ≡ (if has_space c r then has_overflow r else true))

same_texts :
    {v v1 p p1 : Option (List ℕ)} {c : ℕ} {f f1 : Texts}
    → v ≡ v1
    → p ≡ p1
    → f ≡ f1
    → ◌≡◌ {A = ResponseTexts}
        (record { version = v; code = c; phrase = p; fields = f })
        (record { version = v1; code = c; phrase = p1; fields = f1 })
same_texts a b d = cc

set_http_version-Refines :
    (r : Response) (str : List ℕ)
    → IsResponse r
    → Refines r (call_http_version str) (set_http_version str r)
unfolding set_http_version has_overflow
set_http_version-Refines r str v =
    split (alloc_string r.message str) (alloc_string-Allocated r.message str v.is_message)
  where
    split :
        (o : Option (Message × Option HeaderString))
        → Allocated r.message str o
        → Refines r
            (call_http_version str)
            (o >>= λ (m, s). some (record r { message = m; http_version = s }))
    split none a = elim a [ ]
    split (some (m, s)) (i, k, f, b, t, o) = (
      record {
        is_message = i;
        version_kept = b;
        phrase_kept = IsKept-Kept r.message m r.reason_phrase k v.phrase_kept;
      },
      same_texts t (string_text-Kept r.message m r.reason_phrase k v.phrase_kept) f,
      o,
    )

set_reason_phrase-Refines :
    (r : Response) (str : List ℕ)
    → IsResponse r
    → Refines r (call_reason_phrase str) (set_reason_phrase str r)
unfolding set_reason_phrase has_overflow
set_reason_phrase-Refines r str v =
    split (alloc_string r.message str) (alloc_string-Allocated r.message str v.is_message)
  where
    split :
        (o : Option (Message × Option HeaderString))
        → Allocated r.message str o
        → Refines r
            (call_reason_phrase str)
            (o >>= λ (m, s). some (record r { message = m; reason_phrase = s }))
    split none a = elim a [ ]
    split (some (m, s)) (i, k, f, b, t, o) = (
      record {
        is_message = i;
        version_kept = IsKept-Kept r.message m r.http_version k v.version_kept;
        phrase_kept = b;
      },
      same_texts (string_text-Kept r.message m r.http_version k v.version_kept) t f,
      o,
    )

set_field-Refines :
    (r : Response) (name value : List ℕ)
    → IsResponse r
    → Refines r (call_field name value) (call (call_field name value) r)
unfolding set_field has_overflow
set_field-Refines r name value v =
    split (set_header_field r.message name value)
      (set_header_field-Updated r.message name value v.is_message)
  where
    split :
        (o : Option (Message × Bool))
        → Updated r.message name value o
        → Refines r (call_field name value) (
            (o >>= λ (m : Message × Bool). some (record r { message = m.0 }, m.1))
            >>= λ (r1 : Response × Bool). some r1.0)
    split none a = elim a [ ]
    split (some (m, done)) (d, i, h, o, k) = (
      record {
        is_message = i;
        version_kept = IsKept-Kept r.message m r.http_version k v.version_kept;
        phrase_kept = IsKept-Kept r.message m r.reason_phrase k v.phrase_kept;
      },
      same_texts (string_text-Kept r.message m r.http_version k v.version_kept)
          (string_text-Kept r.message m r.reason_phrase k v.phrase_kept)
          (h
            ∙ ap (λ b. if b then put_text (headers r.message) name value else headers r.message) d),
      o ∙ ap (λ b. if b then r.message.overflow else true) d,
    )

-- Every call that fills a response, for every response whose strings lie before the offset of its
-- buffer: the call never writes past the buffer, the strings of the response it leaves lie before the
-- new offset, and the texts are those of the call on texts. That is, where there is space the string
-- has the new text or the field is added or joined, where there is none the string is null or the
-- fields are unchanged and the overflow is recorded, and nothing else changes.
pub call-Refines : (r : Response) (c : Call) → IsResponse r → Refines r c (call c r)
unfolding set_status_code has_overflow
call-Refines r (call_http_version str) v = set_http_version-Refines r str v
call-Refines r (call_status_code code) v = (
  record { is_message = v.is_message; version_kept = v.version_kept; phrase_kept = v.phrase_kept },
  refl,
  refl,
)
call-Refines r (call_reason_phrase str) v = set_reason_phrase-Refines r str v
call-Refines r (call_field name value) v = set_field-Refines r name value v
