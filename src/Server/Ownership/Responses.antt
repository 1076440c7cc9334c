-- ===== src/Server/Ownership/Responses.antt =====
-- The handlers of a polled connection from its response on.
use latypus.Io.{has_error}
use latypus.Io.Ring.{Ring, reset, buffer_read, buffer_write, bytes_readable}
use latypus.Common.{ℕ, ◌+◌, ◌≡◌, true, not, ◌==◌, ltb, if_elim, option_elim}
use latypus.Server.State.{Engine, Delegate, Message, router, router_process_headers}
use latypus.Server.Table.{update}
use latypus.Server.Forward.{crash, remove_events, dispatch_connection, keepalive_connection}
use latypus.Server.Handlers.{
  Answers, end_response, handle_state_server_response, handle_state_server_body,
  handle_state_waiting, handle_state_lingering_close,
}
use latypus.Server.Ownership.Actions.{IsFitting, Keeps, gain_keepalive}
use latypus.Server.Ownership.Held.{
  Held, keep_forward, let_go, keep_drop, keep_crash, keep_same, keep_aborted, keep_closed,
}

abbrev counted : Engine → Engine
counted s = record s {
  stats = record s.stats { requests_processed = s.stats.requests_processed + 1 };
}

module _ (d : Delegate) (i j : ℕ) (a : Answers) (fits : IsFitting a.work)
    (sent : (m : Message) → d.sends m ≡ true) where
  keep_end_response : (s : Engine) → Held d i s → Keeps j s (end_response d a s i)
  unfolding end_response
  keep_end_response s h =
      if_elim (Keeps j s) (not (s.connections_all i).handler) (λ _. keep_crash d i j s)
        λ _.
          if_elim (Keeps j s) (not a.end_request) (λ _. keep_aborted d i j s h)
            λ _.
              if_elim (Keeps j s) (s.connections_all i).connection_close
                (λ _. keep_closed d i j (counted s) h)
                λ _.
                  keep_drop d i j (counted s)
                    (keepalive_connection a.use_nodelay d a.work (remove_events d (counted s) i) i)
                    h
                    (gain_keepalive d a.work fits i j sent a.use_nodelay
                      (remove_events d (counted s) i) (let_go d i j (counted s) h))

  pub keep_server_response :
      (s : Engine) → Held d i s → Keeps j s (handle_state_server_response d a s i)
  unfolding handle_state_server_response
  keep_server_response s h =
      let b = (s.connections_all i).buffer in
      let put : Ring → Engine = λ r. update s i (λ c. record c { buffer = r }) in
      if_elim (Keeps j s) (ltb 0 (bytes_readable b))
        (λ _.
          option_elim (Keeps j s) (buffer_write b a.writer) (crash s) _ (keep_crash d i j s) λ p.
            if_elim (Keeps j s) (has_error p.1) (λ _. keep_aborted d i j (put p.0) h)
              λ _.
                if_elim (Keeps j s) (p.1.size == 0) (λ _. keep_end_response (put p.0) h)
                  λ _. keep_same d i j s)
        (λ _. keep_end_response s h)

  pub keep_server_body : (s : Engine) → Held d i s → Keeps j s (handle_state_server_body d a s i)
  unfolding handle_state_server_body
  keep_server_body s h =
      let c = s.connections_all i in
      let r = a.write_response_body c.buffer in
      let s1 = update s i (λ c. record c { buffer = r.0 }) in
      if_elim (Keeps j s) c.response_has_body
        (λ _.
          if_elim (Keeps j s) (not c.handler) (λ _. keep_crash d i j s)
            λ _.
              if_elim (Keeps j s) (has_error r.1) (λ _. keep_aborted d i j s1 h)
                λ _. keep_server_response s1 h)
        (λ _. keep_server_response s h)

  pub keep_waiting : (s : Engine) → Held d i s → Keeps j s (handle_state_waiting d a s i)
  unfolding handle_state_waiting dispatch_connection
  keep_waiting s h = keep_forward d i j a fits sent s router router_process_headers h

  pub keep_lingering_close :
      (s : Engine) → Held d i s → Keeps j s (handle_state_lingering_close d a s i)
  unfolding handle_state_lingering_close
  keep_lingering_close s h =
      let put : Ring → Engine = λ r. update s i (λ c. record c { buffer = r }) in
      option_elim (Keeps j s) (buffer_read (reset (s.connections_all i).buffer) a.reader) (crash s)
        _ (keep_crash d i j s)
        λ p.
          if_elim (Keeps j s) (has_error p.1) (λ _. keep_closed d i j (put p.0) h)
            λ _. keep_same d i j s
