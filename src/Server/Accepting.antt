-- ===== src/Server/Accepting.antt =====
-- savate/server.py: TCPServer.handle_event and handle_new_incoming, with loop_for_eagain of
-- savate/helpers.py. Handlers are numbers; `sock` gives a handler's descriptor and `fired` the callback that
-- closes it.
pub mod Taken
mod Examples
use savate.Prelude.{if◌then◌else◌, none, some, ℕ}
use savate.Looping
use savate.Looping.{IoLoop}
use savate.Timeouts.{Timeouts}
use savate.Timeouts.Activity.{reset_inactivity_timeout}
use savate.Relay.{has_pollin, pollin}
use savate.Prelude.{nat_eq}

-- What accept() gives: a connection, with the handler that is made for it, EAGAIN, EMFILE or ENFILE, or
-- another error.
pub data Accepted : Type 0 where
  connection : ℕ → Accepted
  again : Accepted
  too_many : Accepted
  io_error : ℕ → Accepted

-- The server as a handler of events. `Queue` is what the kernel has for its socket.
pub record Acceptor (Queue : Type 0) : Type 0 where
  pub loop : IoLoop
  pub timeouts : Timeouts ℕ ℕ
  pub queue : Queue

pub data Outcome (Queue : Type 0) : Type 0 where
  handled : Acceptor Queue → Outcome Queue
  raised : Outcome Queue

module _ {Queue : Type 0} (accept : Queue → Accepted × Queue) (relisten : Queue → Queue)
    (sock fired : ℕ → ℕ) where
  -- `handle_new_incoming` after accept().
  pub take_in : ℕ → ℕ → Acceptor Queue → Outcome Queue
  take_in now new_handler s =
      elim (reset_inactivity_timeout sock fired now new_handler s.timeouts) [
        | none ↦ raised
        | some timeouts ↦ elim (Looping.register (sock new_handler) new_handler pollin s.loop) [
          | none ↦ raised
          | some loop ↦ handled (record s { loop = loop; timeouts = timeouts })
        ]
      ]

  -- One call under loop_for_eagain, which returns in its first round. `relisten` is the shutdown and the
  -- listen() that clear the backlog.
  pub accept_once : ℕ → Accepted × Queue → Acceptor Queue → Outcome Queue
  accept_once now (connection h, queue) s = take_in now h (record s { queue = queue })
  accept_once now (again, queue) s = handled (record s { queue = queue })
  accept_once now (too_many, queue) s = handled (record s { queue = relisten queue })
  accept_once now (io_error e, queue) s = raised

  pub handle_event : ℕ → ℕ → Acceptor Queue → Outcome Queue
  handle_event now eventmask s =
      if has_pollin eventmask then accept_once now (accept s.queue) s else handled s
