-- ===== src/Server/Ownership/Threads.antt =====
-- What a thread does that does not start from a polled connection: it accepts and gets messages.
use latypus.Common.{
  ℕ, ◌+◌, ◌≤◌, ◌<◌, ◌≡◌, refl, sym, ap, subst, ◌∙◌, true, false, Option, none, some, List, [], ◌∷◌,
  ◌++◌, arith, if◌then◌else◌,
}
use latypus.Server.State.{
  Engine, Delegate, Message, Poll, SocketMode, plain, tls, router, router_process_headers,
  router_tls_handshake,
}
use latypus.Server.Table.{update, init, new_connection, abort_connection}
use latypus.Server.Forward.{
  Work, forward_connection, send_message, run_action, add_events, handle_message,
  dispatch_connection, dispatch_connection_tls,
}
use latypus.Server.Accept.{accept, dispatch, accept_one, handle_accept}
use latypus.Server.Ownership.{
  same, count_free, count_polls, count_messages, tokens, polled, count-middle,
}
use latypus.Server.Ownership.Actions.{IsFitting, Gains, Keeps, gain_run_action, gain_forward}
use latypus.Server.Ownership.Held.{Held}

-- What is assumed of the thread that runs a handler, and of the answers to it.
pub record IsGood (d : Delegate) (w : Work) : Type 0 where
  pub fitting : IsFitting w
  pub sent : (m : Message) → d.sends m ≡ true

-- Nothing is held twice.
abbrev pub Single : Engine → Type 0
Single s = (i : ℕ) → tokens i s ≤ 1

polled-count : (t i : ℕ) (ps : List Poll) → polled t i ps ≡ true → 0 < count_polls i ps
polled-count t i [] h = cc
polled-count t i (p ∷ ps) h = ground (arith, polled-count t i ps)

pub polled-Held :
    (d : Delegate) (i : ℕ) (s : Engine) → Single s → polled d.thread i s.polls ≡ true → Held d i s
polled-Held d i s single h = (h, omega (arith, polled-count d.thread i s.polls h, single i))

module _ (d : Delegate) (w : Work) (good : IsGood d w) where
  gain_dispatch :
      (mode : SocketMode) (s : Engine) (i j : ℕ)
      → tokens i s ≡ 0
      → Gains j i s (dispatch mode d w s i)
  unfolding dispatch_connection dispatch_connection_tls
  gain_dispatch plain s i j h =
      gain_forward d w good.fitting i j good.sent s router router_process_headers h
  gain_dispatch tls s i j h =
      gain_forward d w good.fitting i j good.sent s router router_tls_handshake h

  -- The engine once the head of the free list holds the descriptor.
  abbrev taken : SocketMode → Engine → ℕ → ℕ → List ℕ → Engine
  taken mode s fd i rest = record s {
    connections_all =
        (update (update s i (λ c. (init d.io_buffer_size c).0)) i (accept fd mode)).connections_all;
    connections_free = rest;
    stats = record s.stats { connections_accepted = s.stats.connections_accepted + 1 };
    fault = if (init d.io_buffer_size (s.connections_all i)).1 then s.fault else true;
  }

  accept_head :
      (mode : SocketMode) (s : Engine) (fd i : ℕ) (rest : List ℕ)
      → s.connections_free ≡ i ∷ rest
      → accept_one d w mode s fd ≡ dispatch mode d w (taken mode s fd i rest) i
  unfolding accept_one new_connection
  accept_head mode s fd i rest e =
      ap
        (λ (l : List ℕ).
          let r : Option ℕ × Engine = elim l [
            | [] ↦ (none, s)
            | k ∷ ks ↦ (
              some k,
              record (update s k (λ c. (init d.io_buffer_size c).0)) {
                connections_free = ks;
                fault = if (init d.io_buffer_size (s.connections_all k)).1 then s.fault else true;
              },
            )
          ] in
          elim r.0 [
            | none ↦ r.1
            | some k ↦
                dispatch mode d w
                  (record (update r.1 k (accept fd mode)) {
                    stats = record s.stats {
                      connections_accepted = s.stats.connections_accepted + 1;
                    };
                  })
                  k
          ])
        e

  accept_none :
      (mode : SocketMode) (s : Engine) (fd : ℕ)
      → s.connections_free ≡ []
      → accept_one d w mode s fd ≡ s
  unfolding accept_one new_connection
  accept_none mode s fd e = rw e refl

  taken-tokens :
      (mode : SocketMode) (s : Engine) (fd i j : ℕ) (rest : List ℕ)
      → s.connections_free ≡ i ∷ rest
      → tokens j (taken mode s fd i rest) + same i j ≡ tokens j s
  taken-tokens mode s fd i j rest e =
      let f : count_free j s.connections_free ≡ same i j + count_free j rest =
        ap (count_free j) e in
      ground arith

  -- A descriptor is taken by the connection at the head of the free list, and its token moves on.
  accept_one-Keeps :
      (mode : SocketMode) (s : Engine) (fd j : ℕ) → Single s → Keeps j s (accept_one d w mode s fd)
  accept_one-Keeps mode s fd j single = split s.connections_free refl
    where
      split : (l : List ℕ) → s.connections_free ≡ l → Keeps j s (accept_one d w mode s fd)
      split [] e = subst (Keeps j s) (sym (accept_none mode s fd e)) (ground arith)
      split (i ∷ rest) e =
          let one = taken-tokens mode s fd i i rest e in
          let all = taken-tokens mode s fd i j rest e in
          let r = single i in
          let go = gain_dispatch mode (taken mode s fd i rest) i j (ground arith) in
          subst (Keeps j s) (sym (accept_head mode s fd i rest e)) (ground arith)

  dispatch-fault :
      (mode : SocketMode) (s : Engine) (i : ℕ) → (dispatch mode d w s i).fault ≡ s.fault
  unfolding dispatch_connection dispatch_connection_tls forward_connection send_message
      handle_message run_action abort_connection add_events
  dispatch-fault plain s i = ground arith
  dispatch-fault tls s i = ground arith

  accept_one-fault :
      (mode : SocketMode) (s : Engine) (fd : ℕ)
      → (accept_one d w mode s fd).fault ≡ false
      → s.fault ≡ false
  accept_one-fault mode s fd = split s.connections_free refl
    where
      split :
          (l : List ℕ)
          → s.connections_free ≡ l
          → (accept_one d w mode s fd).fault ≡ false
          → s.fault ≡ false
      split [] e =
          subst (λ (x : Engine). x.fault ≡ false → s.fault ≡ false) (sym (accept_none mode s fd e))
            (λ h. h)
      split (i ∷ rest) e =
          subst (λ (x : Engine). x.fault ≡ false → s.fault ≡ false)
            (sym (accept_head mode s fd i rest e))
            (let k = dispatch-fault mode (taken mode s fd i rest) i in ground arith)

  handle_accept-fault :
      (mode : SocketMode) (s : Engine) (fds : List ℕ)
      → (handle_accept d w mode s fds).fault ≡ false
      → s.fault ≡ false
  unfolding handle_accept
  handle_accept-fault mode s [] h = h
  handle_accept-fault mode s (fd ∷ fds) h =
      accept_one-fault mode s fd (handle_accept-fault mode (accept_one d w mode s fd) fds h)

  pub Keeps-Single : (s s1 : Engine) → Single s → ((j : ℕ) → Keeps j s s1) → Single s1
  Keeps-Single s s1 single k i = omega (arith, single i, (k i).0)

  pub handle_accept-Keeps :
      (mode : SocketMode) (s : Engine) (fds : List ℕ) (j : ℕ)
      → Single s
      → Keeps j s (handle_accept d w mode s fds)
  unfolding handle_accept
  handle_accept-Keeps mode s [] j single = ground arith
  handle_accept-Keeps mode s (fd ∷ fds) j single =
      let s1 = accept_one d w mode s fd in
      let k = accept_one-Keeps mode s fd j single in
      let rest =
        handle_accept-Keeps mode s1 fds j
          (Keeps-Single s s1 single (λ i. accept_one-Keeps mode s fd i single)) in
      (omega (arith, k.0, rest.0), λ h. rest.1 h ∙ k.1 (handle_accept-fault mode s1 fds h))

  removed-tokens :
      (s : Engine) (before after : List Message) (m : Message) (j : ℕ)
      → s.messages ≡ before ++ (m ∷ after)
      → tokens j (record s { messages = before ++ after }) + same m.connection_num j ≡ tokens j s
  removed-tokens s before after m j e =
      let f : count_messages j s.messages ≡ count_messages j (before ++ (m ∷ after)) =
        ap (count_messages j) e in
      omega (arith, count-middle j before after m)

  -- A message that arrives hands its connection on.
  pub deliver-Keeps :
      (s : Engine) (before after : List Message) (m : Message) (j : ℕ)
      → Single s
      → s.messages ≡ before ++ (m ∷ after)
      → Keeps j s (handle_message d w (record s { messages = before ++ after }) m)
  unfolding handle_message
  deliver-Keeps s before after m j single e =
      let i = m.connection_num in
      let s1 = record s { messages = before ++ after } in
      let s2 = update s1 i (λ c. record c { last_activity = d.current_time }) in
      let one = removed-tokens s before after m i e in
      let all = removed-tokens s before after m j e in
      let r = single i in
      let go = gain_run_action d w good.fitting i j s2 m.action (ground arith) in ground arith
