-- ===== src/BufferEvent/Examples.antt =====
-- A socket with a schedule of how much each `send` takes, and the theorems at concrete queues.
use savate.Prelude.{
  Bytes, List, [], append-nil, arith, false, join, length, min, refl, sym, take, true, ℕ, ◌++◌, ◌∷◌,
  ◌≡◌, ◌≤◌,
}
use savate.BufferEvent.{
  BufferOutputHandler, Reply, Socket, accepted, eagain, failed, flush, flushed, send_all, sent,
}
use savate.BufferEvent.Delivery.{flush-stream}

-- Each entry is the room in the kernel's buffer at one call; with none left `send` raises EAGAIN.
abbrev Schedule : Type 0
Schedule = List ℕ × Bytes

abbrev scheduled_send : Schedule → Bytes → Reply × Schedule
scheduled_send ([], w) b = (failed eagain, ([], w))
scheduled_send (c ∷ cs, w) b = (sent (min c (length b)), (cs, w ++ take (min c (length b)) b))

scheduled_bound : (s : Schedule) (b : Bytes) → accepted (scheduled_send s b).0 ≤ length b
scheduled_bound ([], w) b = omega arith
scheduled_bound (c ∷ cs, w) b = omega arith

scheduled_wire :
    (s : Schedule) (b : Bytes)
    → (scheduled_send s b).1.1 ≡ s.1 ++ take (accepted (scheduled_send s b).0) b
scheduled_wire ([], w) b = sym (append-nil w)
scheduled_wire (c ∷ cs, w) b = refl

abbrev scheduled : Socket
scheduled = record {
  State = Schedule;
  send = scheduled_send;
  wire = λ s. s.1;
  send_bound = scheduled_bound;
  send_wire = scheduled_wire;
}

abbrev two_buffers : BufferOutputHandler
two_buffers = record { ready = true; buffer_queue = (1 ∷ 2 ∷ []) ∷ (3 ∷ 4 ∷ 5 ∷ []) ∷ [] }

-- The first buffer goes whole, the second by one byte.
short_write : Schedule
short_write = (4 ∷ 1 ∷ 9 ∷ [], [])

flush-short_write : flush scheduled two_buffers short_write ≡ record {
  result = flushed 3;
  handler = record { ready = false; buffer_queue = (4 ∷ 5 ∷ []) ∷ [] };
  socket = (9 ∷ [], 1 ∷ 2 ∷ 3 ∷ []);
}
unfolding flush send_all short_write
flush-short_write = refl

flush-stream_example :
    (flush scheduled two_buffers short_write).socket.1
      ++ join (flush scheduled two_buffers short_write).handler.buffer_queue
    ≡ short_write.1 ++ 1 ∷ 2 ∷ 3 ∷ 4 ∷ 5 ∷ []
flush-stream_example = flush-stream scheduled two_buffers short_write
