-- ===== src/Server/Ownership/Reach.antt =====
-- All threads of the engine together: what they do, in any order, from the engine's start.
use latypus.Common.{
  ℕ, zero, suc, ◌≤◌, ◌≡◌, ap, ◌∙◌, true, false, List, [], ◌∷◌, ◌++◌, arith, ltb, if◌then◌else◌,
}
use latypus.Server.State.{Engine, Delegate, Message, SocketMode, tls_handshake, router}
use latypus.Server.Table.{indices_below}
use latypus.Server.Forward.{Work, handle_message}
use latypus.Server.Handlers.{Answers, Revents, handle_connection, timeout_connection}
use latypus.Server.Accept.{handle_accept}
use latypus.Server.Ownership.{count_free, count_polls, count_messages, tokens, polled}
use latypus.Server.Ownership.Actions.{Keeps}
use latypus.Server.Ownership.States.{handle_connection-Keeps, timeout_connection-Keeps}
use latypus.Server.Ownership.Threads.{
  IsGood, Single, polled-Held, handle_accept-Keeps, deliver-Keeps,
}

-- One callback of one thread, run to its end: a listener accepts, a polled connection has an event
-- or is checked for a timeout, a message arrives.
pub data Step : Engine → Engine → Type 0 where
  accepts :
      (d : Delegate) (w : Work) (mode : SocketMode) (s : Engine) (fds : List ℕ)
      → IsGood d w
      → Step s (handle_accept d w mode s fds)
  event :
      (d : Delegate) (a : Answers) (s : Engine) (i : ℕ) (e : Revents)
      → IsGood d a.work
      → polled d.thread i s.polls ≡ true
      → ((s.connections_all i).state ≡ tls_handshake → d.serves router ≡ true)
      → Step s (handle_connection d a s i e)
  idle :
      (d : Delegate) (a : Answers) (s : Engine) (i : ℕ)
      → IsGood d a.work
      → polled d.thread i s.polls ≡ true
      → Step s (timeout_connection d a.work s i)
  message :
      (d : Delegate) (w : Work) (s : Engine) (before after : List Message) (m : Message)
      → IsGood d w
      → m.to_thread ≡ d.thread
      → s.messages ≡ before ++ (m ∷ after)
      → Step s (handle_message d w (record s { messages = before ++ after }) m)

-- The engine with `n` connections after `protocol_connection_state::init`, and what it comes to
-- while no fault is recorded.
pub data Reach (n : ℕ) : Engine → Type 0 where
  starts :
      (s : Engine)
      → s.connections_free ≡ indices_below n
      → s.polls ≡ []
      → s.messages ≡ []
      → Reach n s
  steps : (s s1 : Engine) → Reach n s → s.fault ≡ false → Step s s1 → Reach n s1

step-Keeps : (j : ℕ) (s s1 : Engine) → Single s → Step s s1 → Keeps j s s1
step-Keeps j s s1 single (accepts d w mode _ fds good) =
    handle_accept-Keeps d w good mode s fds j single
step-Keeps j s s1 single (event d a _ i e good on serves) =
    handle_connection-Keeps d i j a s e good.fitting good.sent (polled-Held d i s single on) serves
step-Keeps j s s1 single (idle d a _ i good on) =
    timeout_connection-Keeps d i j a s good.fitting good.sent (polled-Held d i s single on)
step-Keeps j s s1 single (message d w _ before after m good to e) =
    deliver-Keeps d w good s before after m j single e

abbrev held : ℕ → ℕ → ℕ
held n j = if ltb j n then 1 else 0

abbrev Balanced : ℕ → ℕ → Engine → Type 0
Balanced n j s = (tokens j s ≤ held n j) × (s.fault ≡ false → tokens j s ≡ held n j)

count-indices : (j n : ℕ) → count_free j (indices_below n) ≡ held n j
unfolding indices_below
count-indices j zero = ground arith
count-indices j (suc n) = ground (arith, count-indices j n)

balanced : (n : ℕ) (s : Engine) (j : ℕ) → Reach n s → Balanced n j s
balanced n s j (starts _ f p m) =
    let cf : count_free j s.connections_free ≡ held n j = ap (count_free j) f ∙ count-indices j n in
    let cp : count_polls j s.polls ≡ 0 = ap (count_polls j) p in
    let cm : count_messages j s.messages ≡ 0 = ap (count_messages j) m in ground arith
balanced n s j (steps s0 _ r ok step) =
    let single : Single s0 = λ i. ground (arith, balanced n s0 i r) in
    let k = step-Keeps j s0 s single step in let b = balanced n s0 j r in ground arith

-- In every state that the engine reaches with `n` connections and that has no fault recorded, the
-- number of places that hold connection `j` (the free list, the pollsets, the messages under way)
-- is exactly one for `j` below `n`, and none for any other: no connection is lost, and none is held
-- twice. A step is one callback of one thread: it accepts, it handles an event or a timeout of a
-- connection that it polls, or it gets a message. It is assumed of each step that response headers
-- fit the buffer, that handlers populate the response, that messages arrive, and that a thread that
-- polls a connection during its TLS handshake routes requests.
pub Reach-tokens :
    (n : ℕ) (s : Engine) (j : ℕ)
    → Reach n s
    → s.fault ≡ false
    → tokens j s ≡ (if ltb j n then 1 else 0)
Reach-tokens n s j r ok = (balanced n s j r).1 ok
