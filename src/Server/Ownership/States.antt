-- ===== src/Server/Ownership/States.antt =====
-- The handlers of a polled connection: each leaves every connection with as many holders as before.
use latypus.Common.{ℕ, ◌≡◌, refl, ◌∙◌, Bool, true, false, ◌||◌, if◌then◌else◌, if_elim, ==_refl}
use latypus.Server.State.{
  Engine, Delegate, Message, ConnState, free, client_request, client_body, server_response,
  server_body, waiting, lingering_close, tls_handshake, router,
}
use latypus.Server.Table.{update}
use latypus.Server.Forward.{remove_events, linger_connection}
use latypus.Server.Handlers.{
  Answers, Revents, run_state, handle_connection, timeout_after, timeout_state, timeout_connection,
}
use latypus.Server.Ownership.{tokens}
use latypus.Server.Ownership.Actions.{IsFitting, Keeps, gain_linger}
use latypus.Server.Ownership.Held.{Held, let_go, keep_drop, keep_same, keep_aborted, keep_closed}
use latypus.Server.Ownership.Requests.{keep_tls_handshake, keep_client_request, keep_client_body}
use latypus.Server.Ownership.Responses.{
  keep_server_response, keep_server_body, keep_waiting, keep_lingering_close,
}

module _ (d : Delegate) (i j : ℕ) (a : Answers) (fits : IsFitting a.work)
    (sent : (m : Message) → d.sends m ≡ true) where
  keep_run_state :
      (s : Engine) (state : ConnState)
      → Held d i s
      → (state ≡ tls_handshake → d.serves router ≡ true)
      → Keeps j s (run_state d a s i state)
  unfolding run_state
  keep_run_state s free h serves = keep_aborted d i j s h
  keep_run_state s tls_handshake h serves = keep_tls_handshake d i j a fits sent s h (serves refl)
  keep_run_state s client_request h serves = keep_client_request d i j a fits sent s h
  keep_run_state s client_body h serves = keep_client_body d i j a fits sent s h
  keep_run_state s server_response h serves = keep_server_response d i j a fits sent s h
  keep_run_state s server_body h serves = keep_server_body d i j a fits sent s h
  keep_run_state s waiting h serves = keep_waiting d i j a fits sent s h
  keep_run_state s lingering_close h serves = keep_lingering_close d i j a fits sent s h

  keep_idle_linger :
      (s : Engine) → Held d i s → Keeps j s (linger_connection d a.work (remove_events d s i) i)
  keep_idle_linger s h =
      keep_drop d i j s (linger_connection d a.work (remove_events d s i) i) h
        (gain_linger d a.work fits i j sent (remove_events d s i) (let_go d i j s h))

  keep_late :
      (s : Engine) (late : Bool) (s' : Engine) → Keeps j s s' → Keeps j s (if late then s' else s)
  keep_late s late s' k = if_elim (Keeps j s) late (λ _. k) λ _. keep_same d i j s

  keep_timeout_state :
      (s : Engine) (state : ConnState) → Held d i s → Keeps j s (timeout_state d a.work s i state)
  unfolding timeout_state
  keep_timeout_state s free h = keep_same d i j s
  keep_timeout_state s tls_handshake h = keep_same d i j s
  keep_timeout_state s client_request h =
      keep_late s (timeout_after d.connection_timeout d s i) _ (keep_idle_linger s h)
  keep_timeout_state s client_body h =
      keep_late s (timeout_after d.connection_timeout d s i) _ (keep_idle_linger s h)
  keep_timeout_state s server_response h =
      keep_late s (timeout_after d.connection_timeout d s i) _ (keep_idle_linger s h)
  keep_timeout_state s server_body h =
      keep_late s (timeout_after d.connection_timeout d s i) _ (keep_idle_linger s h)
  keep_timeout_state s waiting h =
      keep_late s (timeout_after d.keepalive_timeout d s i) _ (keep_closed d i j s h)
  keep_timeout_state s lingering_close h =
      keep_late s (timeout_after d.connection_timeout d s i) _ (keep_aborted d i j s h)

pub handle_connection-Keeps :
    (d : Delegate) (i j : ℕ) (a : Answers) (s : Engine) (e : Revents)
    → IsFitting a.work
    → ((m : Message) → d.sends m ≡ true)
    → Held d i s
    → ((s.connections_all i).state ≡ tls_handshake → d.serves router ≡ true)
    → Keeps j s (handle_connection d a s i e)
unfolding handle_connection
handle_connection-Keeps d i j a s e fits sent h serves =
    let s1 = update s i (λ c. record c { last_activity = d.current_time }) in
    if_elim (Keeps j s) (e.hup || e.err || e.invalid) (λ _. keep_closed d i j s h)
      λ _.
        keep_run_state d i j a fits sent s1 (s1.connections_all i).state h
          (λ q. serves (same_state s ∙ q))
  where
    same_state :
        (s : Engine)
        → (s.connections_all i).state
          ≡ ((update s i (λ c. record c { last_activity = d.current_time })).connections_all
              i).state
    same_state s = rw (==_refl i)

pub timeout_connection-Keeps :
    (d : Delegate) (i j : ℕ) (a : Answers) (s : Engine)
    → IsFitting a.work
    → ((m : Message) → d.sends m ≡ true)
    → Held d i s
    → Keeps j s (timeout_connection d a.work s i)
unfolding timeout_connection
timeout_connection-Keeps d i j a s fits sent h =
    keep_timeout_state d i j a fits sent s (s.connections_all i).state h

-- An event on a connection that this thread alone holds, in any state and with any answers of the
-- socket, the parser and the handler, leaves every connection with as many holders as before where
-- the handler ends without a fault: no connection is lost and none gets a second holder. It is
-- assumed that response headers fit, that the handler populates the response, that messages
-- arrive, and that a thread that ends a TLS handshake routes requests.
pub handle_connection_conserves :
    (d : Delegate) (i j : ℕ) (a : Answers) (s : Engine) (e : Revents)
    → IsFitting a.work
    → ((m : Message) → d.sends m ≡ true)
    → Held d i s
    → ((s.connections_all i).state ≡ tls_handshake → d.serves router ≡ true)
    → (handle_connection d a s i e).fault ≡ false
    → tokens j (handle_connection d a s i e) ≡ tokens j s
handle_connection_conserves d i j a s e fits sent h serves ok =
    (handle_connection-Keeps d i j a s e fits sent h serves).1 ok

-- A check for timeouts of a connection that this thread alone holds leaves every connection with as
-- many holders as before where it ends without a fault. It is assumed that response headers fit,
-- that the handler populates the response, and that messages arrive.
pub timeout_connection_conserves :
    (d : Delegate) (i j : ℕ) (a : Answers) (s : Engine)
    → IsFitting a.work
    → ((m : Message) → d.sends m ≡ true)
    → Held d i s
    → (timeout_connection d a.work s i).fault ≡ false
    → tokens j (timeout_connection d a.work s i) ≡ tokens j s
timeout_connection_conserves d i j a s fits sent h ok =
    (timeout_connection-Keeps d i j a s fits sent h).1 ok
