-- ===== src/Server/Ownership/Actions.antt =====
-- The message callbacks and the forwarding functions each hand the connection to one holder.
use latypus.Io.Ring.{set}
use latypus.Common.{
  ℕ, ◌+◌, ◌≤◌, ◌<◌, ◌≡◌, refl, inl, inr, Bool, true, false, Option, none, some, List, arith, ◌==◌,
  if◌then◌else◌, length, not, sym, subst, if_elim, if_true, Bool-cases, Option-cases,
}
use latypus.Server.State.{
  Engine, Delegate, Events, Action, router_tls_handshake, router_process_headers,
  worker_process_request, keepalive_wait_connection, linger_read_connection, Message, Mask,
  keepalive, server_body, server_response, client_body, tls_handshake, client_request, waiting,
  lingering_close, poll_in, poll_out,
}
use latypus.Server.Table.{abort_connection, update}
use latypus.Server.Forward.{
  Work, Populated, crashed, overflowed, written, crash, set_state, set_flags, add_events,
  copy_headers, populate_response_headers, start_response, start_body, respond, process_request,
  run_action, handle_message, choose_thread, send_message, forward_connection, keepalive_connection,
  linger_connection,
}
use latypus.Server.Ownership.{
  same, tokens, polled, not_polled, count-append, tokens-abort, tokens-add_events,
}

-- The response's headers are not empty and fit into the buffer, and the handler supplies them.
abbrev pub IsText : Option (List ℕ) → Type 0
IsText none = ⊥
IsText (some text) = 0 < length text

pub record IsFitting (w : Work) : Type 0 where
  pub populates : w.populate_response ≡ true
  pub fits : IsText w.to_buffer

-- One more holder of `i`, and of no other; none only where a fault stopped the handler or the
-- message did not arrive.
abbrev pub Gains : ℕ → ℕ → Engine → Engine → Type 0
Gains j i s s' =
    (tokens j s' ≤ tokens j s + same i j) × (s'.fault ≡ false → tokens j s' ≡ tokens j s + same i j)

-- The same without a new holder.
abbrev pub Keeps : ℕ → Engine → Engine → Type 0
Keeps j s s' = (tokens j s' ≤ tokens j s) × (s'.fault ≡ false → tokens j s' ≡ tokens j s)

-- The holders are the same, place by place.
pub record SamePlaces (s s' : Engine) : Type 0 where
  pub free : s'.connections_free ≡ s.connections_free
  pub polls : s'.polls ≡ s.polls
  pub messages : s'.messages ≡ s.messages

module _ (d : Delegate) (w : Work) (fits : IsFitting w) (i : ℕ) where
  -- The header copy: a null handler or a memory fault, or headers in the buffer.
  abbrev pub Copied : Engine → Engine × Populated → Type 0
  Copied s (s', crashed) = SamePlaces s s' × (s'.fault ≡ true)
  Copied s (s', overflowed) = ⊥
  Copied s (s', written n) = SamePlaces s s' × (0 < n)

  crash-SamePlaces : (s : Engine) → SamePlaces s (crash s)
  crash-SamePlaces s = record { free = refl; polls = refl; messages = refl }

  copy_text :
      (s0 s : Engine) (text : List ℕ)
      → SamePlaces s0 s
      → w.to_buffer ≡ some text
      → Copied s0 (copy_headers d w s i)
  unfolding copy_headers
  copy_text s0 s text places e = ground (arith, fits.fits)

  copied : (s0 s : Engine) → SamePlaces s0 s → Copied s0 (copy_headers d w s i)
  copied s0 s places = elim (Option-cases (w.to_buffer)) [
    | inl e ↦ absurd (rw e at (fits.fits))
    | inr (text, e) ↦ copy_text s0 s text places e
  ]

  pub populated : (s : Engine) → Copied s (populate_response_headers d w s i)
  unfolding populate_response_headers
  populated s =
      let s1 = set_flags s i w.populated in
      if_elim (Copied s) (not (s.connections_all i).handler) (λ _. (crash-SamePlaces s, refl))
        λ _.
          subst (λ (s2 : Engine). Copied s (copy_headers d w s2 i))
            (sym (if_true s1 (abort_connection s1 i) fits.populates))
            (copied s s1 (record { free = refl; polls = refl; messages = refl }))

  module _ (j : ℕ) where
    gain_abort : (s : Engine) → Gains j i s (abort_connection s i)
    gain_abort s = (omega (arith, tokens-abort j s i), λ _. tokens-abort j s i)

    -- A wait for events, by a connection that nobody holds.
    gain_add_events : (s : Engine) (e : Events) → tokens i s ≡ 0 → Gains j i s (add_events d s i e)
    gain_add_events s e none_held =
        let off : polled d.thread i s.polls ≡ false = not_polled d.thread i s.polls (omega arith) in
        let count = tokens-add_events j d s i e in (ground arith, λ _. ground arith)

    gain_crash : (s : Engine) → Gains j i s (crash s)
    gain_crash s = ground arith

    pub gain_start_response : (s : Engine) → tokens i s ≡ 0 → Gains j i s (start_response d s i)
    unfolding start_response
    gain_start_response s none_held =
        gain_add_events
          (set_state s i
            (if (s.connections_all i).response_has_body then server_body else server_response))
          poll_out none_held

    gain_start_body : (s : Engine) → tokens i s ≡ 0 → Gains j i s (start_body d w s i)
    unfolding start_body
    gain_start_body s none_held =
        elim (Option-cases (set (s.connections_all i).buffer w.body_start)) [
          | inl e ↦ rw (e, start_body) (gain_crash s)
          | inr (r, e) ↦
              rw (e, start_body)
                (gain_add_events
                  (set_state (update s i (λ c. record c { buffer = r })) i client_body) poll_in
                  none_held)
        ]

    gain_respond :
        (s s2 : Engine) (p : Populated)
        → tokens i s ≡ 0
        → Copied s (s2, p)
        → Gains j i s (respond d i (s2, p))
    unfolding respond
    gain_respond s s2 crashed none_held c = ground arith
    gain_respond s s2 overflowed none_held c = absurd c
    gain_respond s s2 (written n) none_held (places, pos) =
        let empty : tokens i s2 ≡ 0 = ground arith in
        let go = gain_start_response s2 empty in ground arith

    gain_process_request : (s : Engine) → tokens i s ≡ 0 → Gains j i s (process_request d w s i)
    unfolding process_request
    gain_process_request s none_held =
        let s1 = set_flags s i w.handled in
        let r = populate_response_headers d w s1 i in
        if_elim (Gains j i s) (not (s.connections_all i).handler) (λ _. gain_crash s)
          λ _.
            if_elim (Gains j i s) (not w.handle_request) (λ _. gain_abort s1)
              λ _.
                if_elim (Gains j i s) w.handled.request_has_body (λ _. gain_start_body s1 none_held)
                  λ _. gain_respond s1 r.0 r.1 none_held (populated s1)

    -- Each message callback leaves the connection with one holder.
    pub gain_run_action :
        (s : Engine) (a : Action) → tokens i s ≡ 0 → Gains j i s (run_action d w s i a)
    unfolding run_action
    gain_run_action s router_tls_handshake h =
        gain_add_events (set_state s i tls_handshake) poll_in h
    gain_run_action s router_process_headers h =
        gain_add_events (set_state s i client_request) poll_in h
    gain_run_action s keepalive_wait_connection h =
        gain_add_events (set_state s i waiting) poll_in h
    gain_run_action s worker_process_request h = gain_process_request s h
    gain_run_action s linger_read_connection h =
        gain_add_events (set_state s i lingering_close) poll_in h

    module _ (sent : (m : Message) → d.sends m ≡ true) where
      gain_send :
          (s : Engine) (to : ℕ) (a : Action)
          → tokens i s ≡ 0
          → Gains j i s
              (send_message d w s to (record { to_thread = to; action = a; connection_num = i }))
      unfolding send_message handle_message
      gain_send s to a h =
          let m : Message = record { to_thread = to; action = a; connection_num = i } in
          elim (Bool-cases (d.thread == to)) [
            | inl e ↦ rw e (
                gain_run_action (update s i (λ c. record c { last_activity = d.current_time })) a h)
            | inr e ↦ rw (e, sent m) (ground (arith, count-append j s.messages m))
          ]

      -- Forwarding gives the connection to this thread, to a message, or to the free list.
      pub gain_forward :
          (s : Engine) (mask : Mask) (a : Action)
          → tokens i s ≡ 0
          → Gains j i s (forward_connection d w s i mask a)
      unfolding forward_connection
      gain_forward s mask a h = elim (Option-cases (choose_thread d mask)) [
        | inl e ↦ rw (e, forward_connection) (gain_abort s)
        | inr (to, e) ↦ rw (e, forward_connection) (gain_send s to a h)
      ]

      pub gain_keepalive :
          (use_nodelay : Bool) (s : Engine)
          → tokens i s ≡ 0
          → Gains j i s (keepalive_connection use_nodelay d w s i)
      unfolding keepalive_connection
      gain_keepalive use_nodelay s h = gain_forward _ keepalive keepalive_wait_connection h

      pub gain_linger : (s : Engine) → tokens i s ≡ 0 → Gains j i s (linger_connection d w s i)
      unfolding linger_connection
      gain_linger s h = gain_forward _ keepalive linger_read_connection h
