-- ===== src/BufferEvent.antt =====
-- savate/buffer_event.py: the output queue of a connection and its flush to a non-blocking socket.
pub mod Delivery
mod Examples
use savate.Prelude.{
  Bool, Bytes, List, [], drop, false, if◌then◌else◌, is_empty, length, ltb, take, total_length,
  true, ℕ, ◌*◌, ◌++◌, ◌+◌, ◌==◌, ◌^◌, ◌∷◌, ◌≡◌, ◌≤◌,
}

-- What `sock.send` does: it takes a number of bytes, or raises IOError with an errno.
pub data Reply : Type 0 where
  sent : ℕ → Reply
  failed : ℕ → Reply

abbrev pub accepted : Reply → ℕ
accepted (sent n) = n
accepted (failed e) = 0

-- The operating system's socket, as send(2) documents it: what has been handed over grows by the
-- bytes that a call accepts, the first ones of the buffer, and by nothing if the call fails.
pub record Socket : Type 1 where
  pub State : Type 0
  pub send : State → Bytes → Reply × State
  pub wire : State → Bytes
  pub send_bound : (s : State) (b : Bytes) → accepted (send s b).0 ≤ length b
  pub send_wire :
      (s : State) (b : Bytes) → wire (send s b).1 ≡ wire s ++ take (accepted (send s b).0) b

abbrev pub max_queue_size : ℕ
max_queue_size = 24 * 2 ^ 20

abbrev pub eagain : ℕ
eagain = 11

pub record BufferOutputHandler : Type 0 where
  pub ready : Bool
  pub buffer_queue : List Bytes

-- `__init__`
unfoldable pub init : List Bytes → BufferOutputHandler
init initial_buffer_queue = record { ready = true; buffer_queue = initial_buffer_queue }

unfoldable pub add_buffer : BufferOutputHandler → Bytes → BufferOutputHandler
add_buffer h buff = record h { buffer_queue = h.buffer_queue ++ buff ∷ [] }

unfoldable pub empty : BufferOutputHandler → Bool
empty h = is_empty h.buffer_queue

pub queue_size : BufferOutputHandler → ℕ
queue_size h = total_length h.buffer_queue

-- How a flush ends: with a number of bytes, with QueueSizeExceeded, or with an IOError.
pub data Flushed : Type 0 where
  flushed : ℕ → Flushed
  queue_size_exceeded : ℕ → Flushed
  io_error : ℕ → Flushed

module _ (sock : Socket) where
  open sock use {State, send}

  -- What the loop leaves: the bytes sent and whether an IOError other than EAGAIN came out of it.
  pub record Round : Type 0 where
    pub result : Flushed
    pub handler : BufferOutputHandler
    pub socket : State

  -- One round of the `while` loop, with its `except` clause: `r` is what `send` answered for the
  -- first buffer `b`, and `rest` what the later rounds do once `b` has left the queue.
  pub after_send : Bytes → List Bytes → ℕ → Reply → State → Round → Round
  after_send b bs total (sent n) s' rest =
      if ltb n (length b)
      then record {
        result = flushed (total + n);
        handler = record { ready = false; buffer_queue = drop n b ∷ bs };
        socket = s';
      }
      else rest
  after_send b bs total (failed e) s' rest = record {
    result = if e == eagain then flushed total else io_error e;
    handler = record { ready = if e == eagain then false else true; buffer_queue = b ∷ bs };
    socket = s';
  }

  pub send_all : List Bytes → ℕ → State → Round
  unfolding after_send
  send_all [] total s = record {
    result = flushed total;
    handler = record { ready = true; buffer_queue = [] };
    socket = s;
  }
  send_all (b ∷ bs) total s =
      let (r, s') = send s b in after_send b bs total r s' (send_all bs (total + accepted r) s')

  -- The size test after the loop.
  check_size : Flushed → ℕ → Flushed
  check_size (flushed total) size =
      if ltb max_queue_size size then queue_size_exceeded size else flushed total
  check_size other size = other

  pub flush : BufferOutputHandler → State → Round
  unfolding check_size queue_size
  flush h s =
      let r = send_all h.buffer_queue 0 s in
      record r { result = check_size r.result (queue_size r.handler) }
