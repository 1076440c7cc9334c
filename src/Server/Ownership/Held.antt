-- ===== src/Server/Ownership/Held.antt =====
-- A connection that one thread polls and nothing else holds, and what a handler may do with it.
use latypus.Common.{ℕ, ◌≡◌, true, some, arith, if◌then◌else◌, ==_refl}
use latypus.Server.State.{
  Engine, Delegate, Events, poll_in, poll_out, Message, Mask, client_request, server_response,
  server_body, router, Action,
}
use latypus.Server.Table.{update, abort_connection, close_connection}
use latypus.Server.Forward.{
  Work, crash, set_state, add_events, remove_events, start_response, forward_connection,
  send_message, handle_message, run_action, choose_thread, dispatch_connection,
}
use latypus.Server.Handlers.{Answers}
use latypus.Server.Ownership.{
  same, tokens, polled, tokens-abort, tokens-close, tokens-add_events, tokens-remove_events,
}
use latypus.Server.Ownership.Actions.{IsFitting, Gains, Keeps, gain_forward}

module _ (d : Delegate) (i : ℕ) where
  -- The thread polls the connection, and nothing else holds it.
  abbrev pub Held : Engine → Type 0
  Held s = (polled d.thread i s.polls ≡ true) × (tokens i s ≡ 1)

  module _ (j : ℕ) where
    same_self : same i i ≡ 1
    same_self = ground arith

    pub let_go : (s : Engine) → Held s → tokens i (remove_events d s i) ≡ 0
    let_go s (p, q) = let c = tokens-remove_events i d s i in let m = same_self in ground arith

    -- The token that `remove_events` takes away is the one that is then passed on.
    pub keep_drop : (s s' : Engine) → Held s → Gains j i (remove_events d s i) s' → Keeps j s s'
    keep_drop s s' (p, q) g = let c = tokens-remove_events j d s i in ground arith

    pub keep_crash : (s : Engine) → Keeps j s (crash s)
    keep_crash s = ground arith

    pub keep_same : (s : Engine) → Keeps j s s
    keep_same s = ground arith

    pub keep_aborted : (s : Engine) → Held s → Keeps j s (abort_connection (remove_events d s i) i)
    keep_aborted s h =
        keep_drop s (abort_connection (remove_events d s i) i) h
          (let c = tokens-abort j (remove_events d s i) i in ground arith)

    pub keep_closed : (s : Engine) → Held s → Keeps j s (close_connection (remove_events d s i) i)
    keep_closed s h =
        keep_drop s (close_connection (remove_events d s i) i) h
          (let c = tokens-close j (remove_events d s i) i in ground arith)

    pub keep_polling : (s : Engine) (e : Events) → Held s → Keeps j s (add_events d s i e)
    keep_polling s e (p, q) = let c = tokens-add_events j d s i e in ground arith

    pub keep_start_response : (s : Engine) → Held s → Keeps j s (start_response d s i)
    unfolding start_response
    keep_start_response s h =
        keep_polling
          (set_state s i
            (if (s.connections_all i).response_has_body then server_body else server_response))
          poll_out h

    choose_self : (mask : Mask) → d.serves mask ≡ true → choose_thread d mask ≡ some d.thread
    unfolding choose_thread
    choose_self mask serves = rw serves

    -- An end of TLS handshake: the thread routes the request itself, and the entry stays in place.
    pub keep_redispatch :
        (w : Work) (s : Engine)
        → Held s
        → d.serves router ≡ true
        → Keeps j s (dispatch_connection d w s i)
    unfolding dispatch_connection forward_connection send_message handle_message run_action
    keep_redispatch w s h serves =
        rw (choose_self router serves, forward_connection)
          (rw (==_refl d.thread) (
            keep_polling
              (set_state (update s i (λ c. record c { last_activity = d.current_time })) i
                client_request)
              poll_in h))

    module _ (a : Answers) (fits : IsFitting a.work) (sent : (m : Message) → d.sends m ≡ true) where
      pub keep_forward :
          (s : Engine) (mask : Mask) (action : Action)
          → Held s
          → Keeps j s (forward_connection d a.work (remove_events d s i) i mask action)
      keep_forward s mask action h =
          keep_drop s (forward_connection d a.work (remove_events d s i) i mask action) h
            (gain_forward d a.work fits i j sent (remove_events d s i) mask action (let_go s h))
