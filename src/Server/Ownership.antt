-- ===== src/Server/Ownership.antt =====
-- Who holds a connection: the free list, a pollset, or a message under way. Each such place is a
-- token, and the handlers of src/http_server.cc pass tokens on.
pub mod Actions
mod Held
mod Requests
mod Responses
pub mod States
pub mod Overflow
pub mod Threads
pub mod Reach
use latypus.Common.{
  ℕ, zero, suc, ◌+◌, ◌≤◌, ◌≡◌, refl, Bool, true, false, ◌&&◌, Option, none, some, List, [], ◌∷◌,
  ◌++◌, arith, ◌==◌, if◌then◌else◌,
}
use latypus.Server.State.{Engine, Delegate, Events, Poll, Message}
use latypus.Server.Table.{abort_connection, close_connection}
use latypus.Server.Forward.{add_poll, remove_poll, add_events, remove_events}

abbrev pub same : ℕ → ℕ → ℕ
same i j = if i == j then 1 else 0

abbrev pub count_free : ℕ → List ℕ → ℕ
count_free j [] = 0
count_free j (i ∷ is) = same i j + count_free j is

abbrev pub count_polls : ℕ → List Poll → ℕ
count_polls j [] = 0
count_polls j (p ∷ ps) = same p.conn j + count_polls j ps

abbrev pub count_messages : ℕ → List Message → ℕ
count_messages j [] = 0
count_messages j (m ∷ ms) = same m.connection_num j + count_messages j ms

-- The places that hold connection `j`.
abbrev pub tokens : ℕ → Engine → ℕ
tokens j s = count_free j s.connections_free + count_polls j s.polls + count_messages j s.messages

-- The thread polls the connection.
abbrev pub polled : ℕ → ℕ → List Poll → Bool
polled t i [] = false
polled t i (p ∷ ps) = if p.thread == t && p.conn == i then true else polled t i ps

pub not_polled : (t i : ℕ) (ps : List Poll) → count_polls i ps ≡ 0 → polled t i ps ≡ false
not_polled t i [] h = refl
not_polled t i (p ∷ ps) h = ground (arith, not_polled t i ps)

pub count-add_poll :
    (j t i : ℕ) (e : Events) (ps : List Poll)
    → count_polls j (add_poll t i e ps) ≡ count_polls j ps + (if polled t i ps then 0 else same i j)
unfolding add_poll
count-add_poll j t i e [] = ground arith
count-add_poll j t i e (p ∷ ps) = ground (arith, count-add_poll j t i e ps)

pub count-remove_poll :
    (j t i : ℕ) (ps : List Poll)
    → count_polls j (remove_poll t i ps) + (if polled t i ps then same i j else 0)
      ≡ count_polls j ps
unfolding remove_poll
count-remove_poll j t i [] = ground arith
count-remove_poll j t i (p ∷ ps) = ground (arith, count-remove_poll j t i ps)

pub count-append :
    (j : ℕ) (ms : List Message) (m : Message)
    → count_messages j (ms ++ (m ∷ [])) ≡ count_messages j ms + same m.connection_num j
count-append j [] m = ground arith
count-append j (x ∷ ms) m = omega (arith, count-append j ms m)

pub tokens-abort :
    (j : ℕ) (s : Engine) (i : ℕ) → tokens j (abort_connection s i) ≡ tokens j s + same i j
unfolding abort_connection
tokens-abort j s i = ground arith

pub tokens-close :
    (j : ℕ) (s : Engine) (i : ℕ) → tokens j (close_connection s i) ≡ tokens j s + same i j
unfolding close_connection
tokens-close j s i = ground arith

pub tokens-add_events :
    (j : ℕ) (d : Delegate) (s : Engine) (i : ℕ) (e : Events)
    → tokens j (add_events d s i e)
      ≡ tokens j s + (if polled d.thread i s.polls then 0 else same i j)
unfolding add_events
tokens-add_events j d s i e = omega (arith, count-add_poll j d.thread i e s.polls)

pub tokens-remove_events :
    (j : ℕ) (d : Delegate) (s : Engine) (i : ℕ)
    → tokens j (remove_events d s i) + (if polled d.thread i s.polls then same i j else 0)
      ≡ tokens j s
unfolding remove_events
tokens-remove_events j d s i = omega (arith, count-remove_poll j d.thread i s.polls)

pub count-middle :
    (j : ℕ) (before after : List Message) (m : Message)
    → count_messages j (before ++ (m ∷ after))
      ≡ count_messages j (before ++ after) + same m.connection_num j
count-middle j [] after m = ground arith
count-middle j (x ∷ before) after m = omega (arith, count-middle j before after m)

pub polled-add : (t i : ℕ) (e : Events) (ps : List Poll) → polled t i (add_poll t i e ps) ≡ true
unfolding add_poll
polled-add t i e [] = ground arith
polled-add t i e (p ∷ ps) = ground (arith, polled-add t i e ps)
