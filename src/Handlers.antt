-- ===== src/Handlers.antt =====
-- savate/helpers.py, HTTPEventHandler, and savate/clients.py, StreamClient: a connection that is written
-- to. Of the server, this is what concerns the connection: its inactivity timeout and what the event loop
-- watches it for. Statistics and logs are left out.
pub mod Awake
pub mod Runs
mod Examples
use savate.Prelude.{
  Bool, Bytes, Option, [], false, if◌then◌else◌, none, not, some, true, ℕ, ◌%◌, ◌+◌, ◌/◌, ◌==◌,
  ◌||◌, ◌∷◌,
}
use savate.BufferEvent
use savate.BufferEvent.{
  BufferOutputHandler, Flushed, Socket, add_buffer, empty, flush, flushed, io_error,
  queue_size_exceeded,
}

abbrev pub pollout : ℕ
pollout = 4

-- eventmask & POLLOUT, and eventmask & (POLLERR | POLLHUP)
pub has_pollout : ℕ → Bool
has_pollout eventmask = eventmask / 4 % 2 == 1

pub has_error : ℕ → Bool
has_error eventmask = not (eventmask / 8 % 4 == 0)

-- EPIPE and ECONNRESET
pub is_disconnect : ℕ → Bool
is_disconnect e = e == 32 || e == 104

module _ (sock : Socket) where
  pub record Handler : Type 0 where
    pub output_buffer : BufferOutputHandler
    pub socket : sock.State
    pub bytes_sent : ℕ
    -- whether an inactivity timeout is armed
    pub inactivity : Bool
    -- the mask that the loop has for it, if it is registered
    pub watched : Option ℕ
    pub closed : Bool
    pub timeout_state : Bool

  -- A method's end: normal, or with an IOError.
  pub data Ended : Type 0 where
    done : Handler → Ended
    raised : ℕ → Handler → Ended

  -- `close`; that of StreamClient also takes the client out of the server's tables first.
  pub close : Handler → Handler
  close h = record h { inactivity = false; watched = none; closed = true }

  -- What a flush has left, and HTTPEventHandler.flush.
  after_flush : Flushed → Handler → Ended
  after_flush (flushed n) h =
      if n == 0
      then done h
      else done (record h { inactivity = true; bytes_sent = h.bytes_sent + n })
  after_flush (queue_size_exceeded n) h = done (close h)
  after_flush (io_error e) h = raised e h

  pub flush_output : Handler → Ended
  flush_output h =
      let r = flush sock h.output_buffer h.socket in
      after_flush r.result (record h { output_buffer = r.handler; socket = r.socket })

  -- HTTPEventHandler.finish
  pub finish : Handler → Handler
  finish h = if empty h.output_buffer then close h else h

  -- StreamClient.flush, after the inherited one
  pub deactivate : Handler → Handler
  deactivate h =
      if h.output_buffer.ready
      then record h { watched = some 0; inactivity = false; timeout_state = false }
      else h

  -- The two classes' `flush` followed by `finish`.
  pub data Class : Type 0 where
    http_event_handler stream_client : Class

  flush_finish : Class → Ended → Ended
  flush_finish c (raised e h) = raised e h
  flush_finish http_event_handler (done h) = done (finish h)
  flush_finish stream_client (done h) = done (deactivate h)

  caught : Ended → Ended
  caught (done h) = done h
  caught (raised e h) = if is_disconnect e then done (close h) else raised e h

  pub handle_event : Class → ℕ → Handler → Ended
  handle_event c eventmask h =
      if has_pollout eventmask
      then caught (flush_finish c (flush_output h))
      else if has_error eventmask
      then done (close h)
      else done h

  -- StreamClient.activate_timeout
  pub activate_timeout : Handler → Handler
  activate_timeout h =
      if h.timeout_state then h else record h { timeout_state = true; inactivity = true }

  -- StreamClient.add_packet
  pub add_packet : Bytes → Handler → Handler
  add_packet packet h =
      record (activate_timeout (record h { output_buffer = add_buffer h.output_buffer packet })) {
        watched = some pollout;
      }

  -- The client as `__init__` leaves it and transform_request registers it, with its response to send.
  pub init : Bytes → sock.State → Handler
  init response s = record {
    output_buffer = BufferEvent.init (response ∷ []);
    socket = s;
    bytes_sent = 0;
    inactivity = false;
    watched = some pollout;
    closed = false;
    timeout_state = false;
  }
