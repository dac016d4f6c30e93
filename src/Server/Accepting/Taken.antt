-- ===== src/Server/Accepting/Taken.antt =====
-- savate/server.py: connections that are accepted, and their timeouts.
use savate.Server.Accepting.{
  Accepted, Acceptor, accept_once, connection, handle_event, handled, take_in,
}
use savate.Prelude.{arith, false, if◌then◌else◌, none, refl, some, true, ℕ, ◌+◌, ◌==◌, ◌≡◌}
use savate.Dict.{has, lookup, put}
use savate.Dict.Laws.{lookup-put}
use savate.Looping
use savate.Timeouts.{bucket}
use savate.Timeouts.Activity.{inactivity_timeout}
use savate.Timeouts.Activity.Latest.{reset_inactivity_timeout-due}
use savate.Timeouts.Consistency.{IsConsistent}
use savate.Relay.{has_pollin, pollin}
use savate.Prelude.{nat_eq}

module _ {Queue : Type 0} (accept : Queue → Accepted × Queue) (relisten : Queue → Queue)
    (sock fired : ℕ → ℕ) where
  -- What taking in a connection does, of which no other descriptor has anything.
  pub record Takes (now h : ℕ) (s s' : Acceptor Queue) : Type 0 where
    pub handlers :
        (fd : ℕ)
        → lookup fd s'.loop.handlers ≡ (if sock h == fd then some h else lookup fd s.loop.handlers)
    pub watched :
        (fd : ℕ)
        → lookup fd s'.loop.poller ≡ (if sock h == fd then some pollin else lookup fd s.loop.poller)
    pub due :
        (fd x : ℕ)
        → lookup fd (bucket x s'.timeouts) ≡ (
            if sock h == fd
            then (if now + inactivity_timeout == x then some (fired h) else none)
            else lookup fd (bucket x s.timeouts))
    pub consistent : IsConsistent s'.timeouts

  register-new :
      (fd h : ℕ) (l : Looping.IoLoop)
      → has fd l.handlers ≡ false
      → has fd l.poller ≡ false
      → Looping.register fd h pollin l
        ≡ some (record l { poller = put fd pollin l.poller; handlers = put fd h l.handlers })
  unfolding Looping.register Looping.poller_register
  register-new fd h l a b = ground (arith, a, b)

  -- A connection whose descriptor the loop does not have is taken in, on consistent timeouts.
  take_in-Takes :
      (now h : ℕ) (s : Acceptor Queue)
      → IsConsistent s.timeouts
      → has (sock h) s.loop.handlers ≡ false
      → has (sock h) s.loop.poller ≡ false
      → (s' : Acceptor Queue) × (take_in accept relisten sock fired now h s ≡ handled s')
        × Takes now h s s'
        × (s'.queue ≡ s.queue)
  unfolding take_in
  take_in-Takes now h s v a b =
      let (ts, e, due, w) = reset_inactivity_timeout-due sock fired now h s.timeouts v in
      let loop : Looping.IoLoop = record (s.loop) {
        poller = put (sock h) pollin s.loop.poller;
        handlers = put (sock h) h s.loop.handlers;
      } in
      (
        record s { loop = loop; timeouts = ts },
        rw (take_in, e, register-new (sock h) h s.loop a b) refl,
        record {
          handlers = λ fd. lookup-put (sock h) fd h s.loop.handlers;
          watched = λ fd. lookup-put (sock h) fd pollin s.loop.poller;
          due = due;
          consistent = w;
        },
        refl,
      )

  -- A ready server whose queue gives a connection takes in that one, and no other that may wait: its handler
  -- is watched for input and has a timeout ten seconds later, and every other descriptor has what it had.
  pub handle_event-Takes :
      (now eventmask h : ℕ) (queue : Queue) (s : Acceptor Queue)
      → has_pollin eventmask ≡ true
      → accept s.queue ≡ (connection h, queue)
      → IsConsistent s.timeouts
      → has (sock h) s.loop.handlers ≡ false
      → has (sock h) s.loop.poller ≡ false
      → (s' : Acceptor Queue) × (handle_event accept relisten sock fired now eventmask s
          ≡ handled s')
        × Takes now h s s'
        × (s'.queue ≡ queue)
  unfolding handle_event accept_once
  handle_event-Takes now eventmask h queue s m e v a b =
      let (s', t, x, q) = take_in-Takes now h (record s { queue = queue }) v a b in
      (
        s',
        rw (handle_event, m, e, accept_once) t,
        record {
          handlers = x.handlers;
          watched = x.watched;
          due = x.due;
          consistent = x.consistent;
        },
        q,
      )
