-- ===== src/Server/Ownership/Overflow.antt =====
-- What happens to a connection whose response headers do not fit its buffer: `to_buffer` returns -1
-- to `populate_response_headers` of src/http_server.cc, which its two callers do not notice.
use latypus.Io.{has_error}
use latypus.Io.Ring.{reset}
use latypus.Common.{
  ℕ, ◌≡◌, refl, Bool, true, false, not, none, List, ◌∷◌, arith, ◌==◌, if_true, if_elim, option_none,
  ==_refl, subst, ap, sym, ◌∙◌,
}
use latypus.Server.State.{Engine, Delegate, poll_out}
use latypus.Server.Table.{update, abort_connection}
use latypus.Server.Forward.{
  Work, set_flags, add_events, remove_events, Populated, crashed, overflowed, written, copy_headers,
  populate_response_headers, respond, process_request, start_response,
}
use latypus.Server.Handlers.{Answers, resume, handle_state_client_body}
use latypus.Server.Ownership.{polled, polled-add}

module _ (d : Delegate) (w : Work) (none_fits : w.to_buffer ≡ none) (i : ℕ) where
  -- The headers' copy frees the connection and returns -1.
  abbrev Freed : Engine → Engine × Populated → Type 0
  Freed s r = (r.0.connections_free ≡ i ∷ s.connections_free) × (r.1 ≡ overflowed)

  free-abort : (s : Engine) → (abort_connection s i).connections_free ≡ i ∷ s.connections_free
  unfolding abort_connection
  free-abort s = refl

  free-remove : (s : Engine) → (remove_events d s i).connections_free ≡ s.connections_free
  unfolding remove_events
  free-remove s = refl

  Freed-copy_headers :
      (s : Engine) → (s.connections_all i).handler ≡ true → Freed s (copy_headers d w s i)
  unfolding copy_headers
  Freed-copy_headers s h =
      let s1 = remove_events d (update s i (λ c. record c { buffer = reset c.buffer })) i in
      if_elim (Freed s) (not (s.connections_all i).handler) (λ e. absurd (ground arith))
        λ _.
          option_none (Freed s) (w.to_buffer) (abort_connection s1 i, overflowed) _ none_fits
            (free-abort s1 ∙ ap (λ (l : List ℕ). i ∷ l) (free-remove _), refl)

  Freed-populate :
      (s : Engine)
      → (s.connections_all i).handler ≡ true
      → w.populate_response ≡ true
      → Freed s (populate_response_headers d w s i)
  unfolding populate_response_headers
  Freed-populate s h p =
      let s1 = set_flags s i w.populated in
      let handler : (s1.connections_all i).handler ≡ true = rw (==_refl i) h in
      if_elim (Freed s) (not (s.connections_all i).handler) (λ e. absurd (ground arith))
        λ _.
          subst (λ (s2 : Engine). Freed s (copy_headers d w s2 i))
            (sym (if_true s1 (abort_connection s1 i) p)) (Freed-copy_headers s1 handler)

  Freed-respond :
      (s : Engine) (r : Engine × Populated)
      → Freed s r
      → (respond d i r).connections_free ≡ i ∷ i ∷ s.connections_free
  unfolding respond abort_connection
  Freed-respond s (s1, crashed) h = cc
  Freed-respond s (s1, overflowed) h = ap (λ (l : List ℕ). i ∷ l) h.0
  Freed-respond s (s1, written n) h = cc

  Polled-resume :
      (s : Engine) (r : Engine × Populated)
      → Freed s r
      → ((resume d i r).connections_free ≡ i ∷ s.connections_free)
        × (polled d.thread i (resume d i r).polls ≡ true)
  unfolding resume start_response add_events
  Polled-resume s (s1, crashed) h = cc
  Polled-resume s (s1, overflowed) h = (h.0, polled-add d.thread i poll_out s1.polls)
  Polled-resume s (s1, written n) h = cc

-- A worker that processes a request without a body, and whose handler accepts the request and
-- populates a response whose headers do not fit the buffer, puts the connection on the free list
-- twice.
pub process_request_frees_twice :
    (d : Delegate) (w : Work) (s : Engine) (i : ℕ)
    → (s.connections_all i).handler ≡ true
    → w.handle_request ≡ true
    → w.handled.request_has_body ≡ false
    → w.populate_response ≡ true
    → w.to_buffer ≡ none
    → (process_request d w s i).connections_free ≡ i ∷ i ∷ s.connections_free
unfolding process_request
process_request_frees_twice d w s i h q b p none_fits =
    let s1 = set_flags s i w.handled in
    let handler : (s1.connections_all i).handler ≡ true = rw (==_refl i) h in
    let P : Engine → Type 0 = λ r. r.connections_free ≡ i ∷ i ∷ s.connections_free in
    if_elim P (not (s.connections_all i).handler) (λ e. absurd (ground arith))
      λ _.
        if_elim P (not w.handle_request) (λ e. absurd (ground arith))
          λ _.
            if_elim P w.handled.request_has_body (λ e. absurd (ground arith))
              λ _.
                Freed-respond d w none_fits i s1 (populate_response_headers d w s1 i)
                  (Freed-populate d w none_fits i s1 handler p)

clash : (b : Bool) → b ≡ false → b ≡ true → ⊥
clash b e q = ground arith

clash_not : (b : Bool) → b ≡ true → not b ≡ true → ⊥
clash_not b e q = ground arith

-- A connection at the end of a request's body, whose response headers do not fit the buffer, is put
-- on the free list, and the thread polls it on all the same.
pub client_body_frees_polled :
    (d : Delegate) (a : Answers) (s : Engine) (i : ℕ)
    → (s.connections_all i).handler ≡ true
    → has_error a.read_request_body ≡ false
    → a.read_request_body.size ≡ 0
    → a.work.populate_response ≡ true
    → a.work.to_buffer ≡ none
    → ((handle_state_client_body d a s i).connections_free ≡ i ∷ s.connections_free)
      × (polled d.thread i (handle_state_client_body d a s i).polls ≡ true)
unfolding handle_state_client_body
client_body_frees_polled d a s i h e z p none_fits =
    let P : Engine → Type 0 =
      λ r. (r.connections_free ≡ i ∷ s.connections_free) × (polled d.thread i r.polls ≡ true) in
    if_elim P (not (s.connections_all i).handler)
      (λ q. absurd (clash_not (s.connections_all i).handler h q))
      λ _.
        if_elim P (has_error a.read_request_body)
          (λ q. absurd (clash (has_error a.read_request_body) e q))
          λ _.
            if_elim P (a.read_request_body.size == 0)
              (λ _.
                Polled-resume d a.work none_fits i s (populate_response_headers d a.work s i)
                  (Freed-populate d a.work none_fits i s h p))
              (λ q. absurd (clash (a.read_request_body.size == 0) q (rw z refl)))
