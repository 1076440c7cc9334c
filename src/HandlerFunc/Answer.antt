-- ===== src/HandlerFunc/Answer.antt =====
-- The body and the response of the function handler.
use latypus.Common.{
  ℕ, ◌-◌, ◌^◌, ◌≤◌, ◌<◌, ◌≡◌, refl, ◌∙◌, Option, none, some, List, arith, ◌==◌, ltb, if◌then◌else◌,
  if_elim, length, length-append, length-take, length-replicate, take, replicate,
  take-append_length,
}
use latypus.Bits.Round.{roundpow2_least}
use latypus.Io.{◌>>=◌}
use latypus.Io.Memory.{store-spliced}
use latypus.Io.Buffer.{Buffer, size, resize, set}
use latypus.HttpMessage.Decimal.{decimal_64}
use latypus.HttpResponse.{Response, set_status_code, set_reason_phrase}
use latypus.HttpResponse.Calls.{IsResponse}
use latypus.Server.Forward.{Flags}
use latypus.HandlerFile.{Asked, connection_value, has_body}
use latypus.HandlerFile.Tokens.{content_type_name, content_length_name, connection_name}
use latypus.HandlerFile.Populate.{Fills, bind-Fills, field-Fills, phrase-Fills, optional-Fills}
use latypus.HandlerFunc.{FuncHandler, text_plain, method_status, handle_request, populate_response}

-- The buffer has the text, and Content-Length is its length.
abbrev pub Answered : Asked → List ℕ → Option FuncHandler → Type 0
Answered asked fn_result none = ⊥
Answered asked fn_result (some h) =
    (h.status_code ≡ method_status asked.method)
    × (h.content_length ≡ length fn_result)
    × (h.response_buffer.buffer_offset ≡ 0)
    × (h.response_buffer.buffer_length ≡ length fn_result)
    × (take (length fn_result) h.response_buffer.buffer ≡ fn_result)

-- A buffer with space for the text.
abbrev HasRoom : List ℕ → Option Buffer → Type 0
HasRoom text none = ⊥
HasRoom text (some b) = length text ≤ size b

room-resize :
    (b : Buffer) (text : List ℕ)
    → size b < length text
    → length text ≤ 2 ^ 30
    → HasRoom text (resize b (length text))
unfolding resize
room-resize b text small large =
    let (k, e, enough, least) =
      roundpow2_least 64 (length text) (omega arith) (omega arith) large in
    let zeros : List ℕ = replicate (2 ^ k - size b) 0 in
    let rest = length-replicate {A = ℕ} (2 ^ k - size b) 0 in
    rw e (
      omega (
        arith,
        enough,
        rest,
        length-append (take (2 ^ k) b.buffer) zeros,
        length-take (2 ^ k) b.buffer,
      ))

-- For a text of up to 2 ^ 30 bytes the handler always answers: its buffer is made large enough and has
-- the text from its start on, and the length that the response will announce is that of the text.
pub handle_request-Answered :
    (get_status_text : ℕ → List ℕ) (asked : Asked) (fn_result : List ℕ) (b : Buffer)
    → length fn_result ≤ 2 ^ 30
    → Answered asked fn_result (handle_request get_status_text asked fn_result b)
unfolding handle_request set
handle_request-Answered get_status_text asked fn_result b large =
    by_room (if ltb (size b) (length fn_result) then resize b (length fn_result) else some b) (
      if_elim (HasRoom fn_result) (ltb (size b) (length fn_result))
        (λ h. room-resize b fn_result (ground arith) large) λ h. ground arith)
  where
    handled : Buffer → Option FuncHandler
    handled b1 = do
      b2 ← set b1 fn_result
      some (record {
        status_code = method_status asked.method;
        status_text = get_status_text (method_status asked.method);
        mime_type = text_plain;
        content_length = length fn_result;
        response_buffer = b2;
      })

    by_room : (o : Option Buffer) → HasRoom fn_result o → Answered asked fn_result (o >>= handled)
    by_room none h = absurd h
    by_room (some b1) h =
        rw (store-spliced b1.buffer 0 fn_result (omega arith))
          (refl, refl, refl, refl, take-append_length fn_result _)

-- The response is filled without a write past its buffer, and a body is announced unless the method
-- is HEAD.
abbrev pub Populated : Asked → FuncHandler → Option (Flags × Response) → Type 0
Populated asked h none = ⊥
Populated asked h (some (flags, r)) =
    IsResponse r
    × (r.status_code ≡ h.status_code)
    × (flags.response_has_body ≡ has_body asked.method h.status_code)

pub populate_response-filled :
    (asked : Asked) (h : FuncHandler) (r : Response)
    → IsResponse r
    → Populated asked h (populate_response asked h r)
unfolding populate_response set_status_code
populate_response-filled asked h r v =
    let P = Populated asked h in
    bind-Fills P (set_status_code h.status_code r)
      (set_reason_phrase h.status_text (set_status_code h.status_code r)) _
      (phrase-Fills h.status_text h.status_code r v)
      λ r1 v1 e1.
        bind-Fills P r1 _ _
          (if_elim (Fills r1) (h.status_code == 304) (λ _. (v1, refl))
            λ _. field-Fills content_type_name h.mime_type r1 v1)
          λ r2 v2 e2.
            bind-Fills P r2 _ _
              (if_elim (Fills r2) (h.status_code == 304) (λ _. (v2, refl))
                λ _. field-Fills content_length_name (decimal_64 h.content_length) r2 v2)
              λ r3 v3 e3.
                bind-Fills P r3 _ _ (optional-Fills connection_name (connection_value asked) r3 v3)
                  λ r4 v4 e4. (v4, e4 ∙ e3 ∙ e2 ∙ e1, refl)
