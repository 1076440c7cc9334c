-- ===== src/HttpRequest/Calls.antt =====
-- What the setters do to a request, seen as its texts.
use latypus.Common.{
  ℕ, ◌≡◌, refl, ap, sym, subst, if_elim, ◌∙◌, Bool, true, false, Option, none, some, List,
  if◌then◌else◌,
}
use latypus.Io.{◌>>=◌}
use latypus.HttpMessage.{HeaderString, Message, alloc_string, set_header_field}
use latypus.HttpMessage.Fields.{Texts, headers, put_text, IsMessage}
use latypus.HttpMessage.Update.{accepts, Updated, set_header_field-Updated}
use latypus.HttpMessage.Strings.{
  IsKept, string_text, IsKept-Kept, string_text-Kept, fits_string, Allocated,
  alloc_string-Allocated,
}
use latypus.HttpRequest.{
  Request, Part, method_part, uri_part, fragment_part, path_part, query_part, version_part, part,
  store_part, set_part, set_field, has_overflow,
}

-- The strings lie before the offset.
pub record IsRequest (r : Request) : Type 0 where
  pub is_message : IsMessage r.message
  pub parts_kept : (p : Part) → IsKept r.message (part p r)

abbrev pub part_text : Part → Request → Option (List ℕ)
part_text p r = string_text r.message (part p r)

abbrev pub same_part : Part → Part → Bool
same_part method_part method_part = true
same_part uri_part uri_part = true
same_part fragment_part fragment_part = true
same_part path_part path_part = true
same_part query_part query_part = true
same_part version_part version_part = true
same_part _ _ = false

part-store_part :
    (p q : Part) (r : Request) (m : Message) (s : Option HeaderString)
    → part q (store_part p r m s) ≡ (if same_part p q then s else part q r)
part-store_part method_part method_part r m s = refl
part-store_part method_part _ r m s = refl
part-store_part uri_part uri_part r m s = refl
part-store_part uri_part _ r m s = refl
part-store_part fragment_part fragment_part r m s = refl
part-store_part fragment_part _ r m s = refl
part-store_part path_part path_part r m s = refl
part-store_part path_part _ r m s = refl
part-store_part query_part query_part r m s = refl
part-store_part query_part _ r m s = refl
part-store_part version_part version_part r m s = refl
part-store_part version_part _ r m s = refl

store_part-message :
    (p : Part) (r : Request) (m : Message) (s : Option HeaderString)
    → (store_part p r m s).message ≡ m
store_part-message method_part r m s = refl
store_part-message uri_part r m s = refl
store_part-message fragment_part r m s = refl
store_part-message path_part r m s = refl
store_part-message query_part r m s = refl
store_part-message version_part r m s = refl

-- The calls by which a request is filled.
pub data Call : Type 0 where
  call_part : Part → List ℕ → Call
  call_field : List ℕ → List ℕ → Call

abbrev pub call : Call → Request → Option Request
call (call_part p str) r = set_part p str r
call (call_field name value) r = do (r1, done) ← set_field name value r; some r1

-- There is space for what the call stores.
abbrev pub has_space : Call → Request → Bool
has_space (call_part p str) r = fits_string r.message str
has_space (call_field name value) r = accepts r.message name value

-- The texts after the call.
abbrev pub text_after : Call → Bool → Request → Part → Option (List ℕ)
text_after (call_part p str) space r q =
    if same_part p q then if space then some str else none else part_text q r
text_after (call_field name value) space r q = part_text q r

abbrev pub fields_after : Call → Bool → Request → Texts
fields_after (call_part p str) space r = headers r.message
fields_after (call_field name value) space r =
    if space then put_text (headers r.message) name value else headers r.message

abbrev pub Refines : Request → Call → Option Request → Type 0
Refines r c none = ⊥
Refines r c (some r1) =
    IsRequest r1
    × ((q : Part) → part_text q r1 ≡ text_after c (has_space c r) r q)
    × (headers r1.message ≡ fields_after c (has_space c r) r)
    × (has_overflow r1 ≡ (if has_space c r then has_overflow r else true))

module _ (r : Request) (p : Part) (str : List ℕ) (v : IsRequest r) (m : Message)
    (s : Option HeaderString) (a : Allocated r.message str (some (m, s))) where
  others : (q : Part) → IsKept m (part q r)
  others q = IsKept-Kept r.message m (part q r) a.1 (v.parts_kept q)

  stored-IsRequest : IsRequest (store_part p r m s)
  stored-IsRequest = record {
    is_message = subst IsMessage (sym (store_part-message p r m s)) a.0;
    parts_kept = λ q.
        subst (λ (x : Message). IsKept x (part q (store_part p r m s)))
          (sym (store_part-message p r m s))
          (subst (IsKept m) (sym (part-store_part p q r m s))
            (if_elim (IsKept m) (same_part p q) (λ _. a.3) λ _. others q));
  }

  stored_text :
      (q : Part)
      → part_text q (store_part p r m s)
        ≡ text_after (call_part p str) (fits_string r.message str) r q
  stored_text q =
      ap (λ (x : Message). string_text x (part q (store_part p r m s))) (store_part-message p r m s)
      ∙ ap (string_text m) (part-store_part p q r m s)
      ∙ by_part (same_part p q)
    where
      by_part :
          (b : Bool)
          → string_text m (if b then s else part q r)
            ≡ (if b then if fits_string r.message str then some str else none else part_text q r)
      by_part true = a.4
      by_part false = string_text-Kept r.message m (part q r) a.1 (v.parts_kept q)

  stored-Refines : Refines r (call_part p str) (some (store_part p r m s))
  unfolding has_overflow
  stored-Refines = (
    stored-IsRequest,
    stored_text,
    ap headers (store_part-message p r m s) ∙ a.2,
    ap (λ (x : Message). x.overflow) (store_part-message p r m s) ∙ a.5,
  )

set_part-Refines :
    (r : Request) (p : Part) (str : List ℕ)
    → IsRequest r
    → Refines r (call_part p str) (set_part p str r)
unfolding set_part
set_part-Refines r p str v =
    split (alloc_string r.message str) (alloc_string-Allocated r.message str v.is_message)
  where
    split :
        (o : Option (Message × Option HeaderString))
        → Allocated r.message str o
        → Refines r
            (call_part p str)
            (o >>= λ (x : Message × Option HeaderString). some (store_part p r x.0 x.1))
    split none a = elim a [ ]
    split (some (m, s)) a = stored-Refines r p str v m s a

set_field-Refines :
    (r : Request) (name value : List ℕ)
    → IsRequest r
    → Refines r (call_field name value) (call (call_field name value) r)
unfolding set_field has_overflow
set_field-Refines r name value v =
    split (set_header_field r.message name value)
      (set_header_field-Updated r.message name value v.is_message)
  where
    with_message : (m : Message) (q : Part) → part q (record r { message = m }) ≡ part q r
    with_message m method_part = refl
    with_message m uri_part = refl
    with_message m fragment_part = refl
    with_message m path_part = refl
    with_message m query_part = refl
    with_message m version_part = refl

    split :
        (o : Option (Message × Bool))
        → Updated r.message name value o
        → Refines r (call_field name value) (
            (o >>= λ (m : Message × Bool). some (record r { message = m.0 }, m.1))
            >>= λ (r1 : Request × Bool). some r1.0)
    split none a = elim a [ ]
    split (some (m, done)) (d, i, h, o, k) = (
      record {
        is_message = i;
        parts_kept = λ q.
            subst (IsKept m) (sym (with_message m q))
              (IsKept-Kept r.message m (part q r) k (v.parts_kept q));
      },
      λ q.
          ap (string_text m) (with_message m q)
          ∙ string_text-Kept r.message m (part q r) k (v.parts_kept q),
      h ∙ ap (λ b. if b then put_text (headers r.message) name value else headers r.message) d,
      o ∙ ap (λ b. if b then r.message.overflow else true) d,
    )

-- Every call that fills a request, for every request whose strings lie before the offset of its
-- buffer: the call never writes past the buffer, the strings of the request it leaves lie before the
-- new offset, and the texts are those of the call on texts. That is, where there is space the string
-- has the new text or the field is added or joined, where there is none the string is null or the
-- fields are unchanged and the overflow is recorded, and no other text changes.
pub request_call-Refines : (r : Request) (c : Call) → IsRequest r → Refines r c (call c r)
request_call-Refines r (call_part p str) v = set_part-Refines r p str v
request_call-Refines r (call_field name value) v = set_field-Refines r name value v
