-- ===== src/Server/Ownership/Requests.antt =====
-- The handlers of a polled connection up to its response.
use latypus.Io.{has_error, IoResult}
use latypus.Io.Ring.{Ring, buffer_read, bytes_writable}
use latypus.Common.{
  ℕ, ◌+◌, ◌≡◌, Bool, true, not, ◌&&◌, arith, ◌==◌, if◌then◌else◌, if_elim, option_elim,
}
use latypus.Server.State.{
  Engine, Delegate, poll_in, poll_out, Message, router, worker, worker_process_request,
}
use latypus.Server.Table.{update, abort_connection, close_connection}
use latypus.Server.Forward.{
  Populated, crashed, overflowed, written, crash, add_events, remove_events,
  populate_response_headers, forward_connection, dispatch_connection, work_connection,
}
use latypus.Server.Handlers.{
  Answers, finished, want_write, want_read, other, handle_state_tls_handshake, accepts_path,
  process_request_headers, finish_headers, parse_headers, handle_state_client_request, resume,
  handle_state_client_body,
}
use latypus.Server.Ownership.Actions.{IsFitting, Keeps, Copied, populated}
use latypus.Server.Ownership.Held.{
  Held, keep_forward, keep_crash, keep_same, keep_aborted, keep_closed, keep_polling,
  keep_start_response, keep_redispatch,
}

module _ (d : Delegate) (i j : ℕ) (a : Answers) (fits : IsFitting a.work)
    (sent : (m : Message) → d.sends m ≡ true) where
  pub keep_tls_handshake :
      (s : Engine)
      → Held d i s
      → d.serves router ≡ true
      → Keeps j s (handle_state_tls_handshake d a s i)
  unfolding handle_state_tls_handshake
  keep_tls_handshake s h serves =
      elim a.handshake
        as (λ x. Keeps j s (elim x [
          | finished ↦ dispatch_connection d a.work s i
          | want_write ↦ add_events d s i poll_out
          | want_read ↦ add_events d s i poll_in
          | other ↦ close_connection (remove_events d s i) i
        ])) [
          | finished ↦ keep_redispatch d i j a.work s h serves
          | want_write ↦ keep_polling d i j s poll_out h
          | want_read ↦ keep_polling d i j s poll_in h
          | other ↦ keep_closed d i j s h
        ]

  keep_finish_headers : (s : Engine) → Held d i s → Keeps j s (finish_headers d a s i)
  unfolding finish_headers process_request_headers work_connection
  keep_finish_headers s h =
      let (accepted, faulted) = accepts_path a.path in
      let P : Engine × Bool → Type 0 = λ r. Keeps j s (
        if r.1
        then forward_connection d a.work (remove_events d r.0 i) i worker worker_process_request
        else abort_connection (remove_events d r.0 i) i) in
      if_elim P faulted (λ _. keep_aborted d i j (crash s) h)
        λ _.
          if_elim P accepted
            (λ _.
              keep_forward d i j a fits sent (update s i (λ c. record c { handler = true })) worker
                worker_process_request h)
            (λ _. keep_aborted d i j s h)

  keep_parse_headers :
      (s : Engine) (result : IoResult) → Held d i s → Keeps j s (parse_headers d a s i result)
  unfolding parse_headers
  keep_parse_headers s result h =
      let r = (s.connections_all i).buffer in
      let s1 = update s i (λ c. record c { buffer = record r { front = r.front + result.size } }) in
      if_elim (Keeps j s) a.parsed (λ _. keep_finish_headers s1 h)
        λ _. if_elim (Keeps j s) a.parse_error (λ _. keep_aborted d i j s1 h) λ _. keep_same d i j s

  pub keep_client_request :
      (s : Engine) → Held d i s → Keeps j s (handle_state_client_request d a s i)
  unfolding handle_state_client_request
  keep_client_request s h =
      let b = (s.connections_all i).buffer in
      let put : Ring → Engine = λ r. update s i (λ c. record c { buffer = r }) in
      if_elim (Keeps j s) (bytes_writable b == 0) (λ _. keep_aborted d i j s h)
        λ _. option_elim (Keeps j s) (buffer_read b a.reader) (crash s) _ (keep_crash d i j s) λ p.
          if_elim (Keeps j s) (has_error p.1) (λ _. keep_aborted d i j (put p.0) h)
            λ _.
              if_elim (Keeps j s) (p.1.size == 0 && p.0.back == 0)
                (λ _. keep_closed d i j (put p.0) h) λ _. keep_parse_headers (put p.0) p.1 h

  keep_resume :
      (s s1 : Engine) (p : Populated)
      → Held d i s
      → Copied d a.work fits i s (s1, p)
      → Keeps j s (resume d i (s1, p))
  unfolding resume
  keep_resume s s1 crashed h (places, e) = ground arith
  keep_resume s s1 overflowed h c = absurd c
  keep_resume s s1 (written n) h (places, pos) =
      let held : Held d i s1 = (ground arith, ground arith) in
      let k = keep_start_response d i j s1 held in ground arith

  pub keep_client_body : (s : Engine) → Held d i s → Keeps j s (handle_state_client_body d a s i)
  unfolding handle_state_client_body
  keep_client_body s h =
      let r = populate_response_headers d a.work s i in
      if_elim (Keeps j s) (not (s.connections_all i).handler) (λ _. keep_crash d i j s)
        λ _.
          if_elim (Keeps j s) (has_error a.read_request_body) (λ _. keep_aborted d i j s h)
            λ _.
              if_elim (Keeps j s) (a.read_request_body.size == 0)
                (λ _. keep_resume s r.0 r.1 h (populated d a.work fits i s)) λ _. keep_same d i j s
