-- ===== src/BufferEvent/Delivery.antt =====
-- savate/buffer_event.py: the outcomes of a flush.
use savate.Prelude.{
  Bytes, List, [], append-nil, append_assoc, arith, drop, false, is_empty, join, length,
  length-append, length-take, refl, take, take-append-drop, take_all, true, ℕ, ◌++◌, ◌+◌, ◌<◌, ◌∷◌,
  ◌≡◌, ◌≢◌, ◌≤◌,
}
use savate.BufferEvent.{
  BufferOutputHandler, Flushed, Reply, Round, Socket, accepted, after_send, eagain, failed, flush,
  flushed, io_error, max_queue_size, queue_size, queue_size_exceeded, send_all, sent,
}

module _ (sock : Socket) where
  open sock use {State, send, wire, send_bound, send_wire}

  -- What has reached the socket, then what is still queued.
  abbrev stream : Round sock → Bytes
  stream r = wire r.socket ++ join r.handler.buffer_queue

  after_send-stream :
      (b : Bytes) (bs : List Bytes) (total : ℕ) (r : Reply) (w : Bytes) (s' : State)
      (rest : Round sock)
      → accepted r ≤ length b
      → wire s' ≡ w ++ take (accepted r) b
      → stream rest ≡ wire s' ++ join bs
      → stream (after_send sock b bs total r s' rest) ≡ w ++ join (b ∷ bs)
  unfolding after_send
  after_send-stream b bs total (sent n) w s' rest h e k = ground (
    arith,
    append_assoc w (take n b) (drop n b ++ join bs),
    append_assoc w b (join bs),
    append_assoc (take n b) (drop n b) (join bs),
    take-append-drop n b,
    take_all n b,
  )
  after_send-stream b bs total (failed n) w s' rest h e k = rw (e, append-nil)

  send_all-stream :
      (q : List Bytes) (total : ℕ) (s : State) → stream (send_all sock q total s) ≡ wire s ++ join q
  unfolding send_all
  send_all-stream [] total s = refl
  send_all-stream (b ∷ bs) total s =
      let (r, s') = send s b in
      after_send-stream b bs total r (wire s) s' (send_all sock bs (total + accepted r) s')
        (send_bound s b) (send_wire s b) (send_all-stream bs (total + accepted r) s')

  -- Whatever the socket answers, short writes and errors included, the bytes that it has taken
  -- followed by those still queued are the bytes it had taken before followed by the queue as it
  -- was: none is lost, sent twice or reordered.
  pub flush-stream :
      (h : BufferOutputHandler) (s : State)
      → wire (flush sock h s).socket ++ join (flush sock h s).handler.buffer_queue
        ≡ wire s ++ join h.buffer_queue
  unfolding flush
  flush-stream h s = send_all-stream h.buffer_queue 0 s

  -- What a normal end of the loop says: the bytes counted are those that the socket has taken.
  abbrev Counted : Bytes → ℕ → Round sock → Type 0
  Counted w total r =
      (t : ℕ)
      → r.result ≡ flushed t
      → (length (wire r.socket) + total ≡ length w + t)
        × (r.handler.ready ≡ is_empty r.handler.buffer_queue)

  after_send-Counted :
      (b : Bytes) (bs : List Bytes) (total : ℕ) (r : Reply) (w : Bytes) (s' : State)
      (rest : Round sock)
      → accepted r ≤ length b
      → wire s' ≡ w ++ take (accepted r) b
      → Counted (wire s') (total + accepted r) rest
      → Counted w total (after_send sock b bs total r s' rest)
  unfolding after_send
  after_send-Counted b bs total (sent n) w s' rest h e k t p =
      ground (arith, k t, length-append w (take n b), length-take n b)
  after_send-Counted b bs total (failed n) w s' rest h e k t p = ground (arith, append-nil w)

  send_all-Counted :
      (q : List Bytes) (total : ℕ) (s : State) → Counted (wire s) total (send_all sock q total s)
  unfolding send_all
  send_all-Counted [] total s t p = ground arith
  send_all-Counted (b ∷ bs) total s t p =
      let (r, s') = send s b in
      after_send-Counted b bs total r (wire s) s' (send_all sock bs (total + accepted r) s')
        (send_bound s b) (send_wire s b) (send_all-Counted bs (total + accepted r) s') t p

  -- A flush that returns `t` has had exactly `t` bytes accepted by the socket, marks the
  -- connection ready exactly if nothing is left to send, and leaves at most `MAX_QUEUE_SIZE` bytes.
  pub flush-flushed :
      (h : BufferOutputHandler) (s : State) (t : ℕ)
      → (flush sock h s).result ≡ flushed t
      → (length (wire (flush sock h s).socket) ≡ length (wire s) + t)
        × ((flush sock h s).handler.ready ≡ is_empty (flush sock h s).handler.buffer_queue)
        × (queue_size (flush sock h s).handler ≤ max_queue_size)
  unfolding flush queue_size
  flush-flushed h s t p = ground (arith, send_all-Counted h.buffer_queue 0 s t)

  after_send-eagain :
      (b : Bytes) (bs : List Bytes) (total : ℕ) (r : Reply) (s' : State) (rest : Round sock)
      → rest.result ≢ io_error eagain
      → (after_send sock b bs total r s' rest).result ≢ io_error eagain
  unfolding after_send
  after_send-eagain b bs total (sent n) s' rest h = ground arith
  after_send-eagain b bs total (failed n) s' rest h = ground arith

  send_all-eagain :
      (q : List Bytes) (total : ℕ) (s : State) → (send_all sock q total s).result ≢ io_error eagain
  unfolding send_all
  send_all-eagain [] total s = ground arith
  send_all-eagain (b ∷ bs) total s =
      let (r, s') = send s b in
      after_send-eagain b bs total r s' _ (send_all-eagain bs (total + accepted r) s')

  after_send-exceeded :
      (b : Bytes) (bs : List Bytes) (total : ℕ) (r : Reply) (s' : State) (rest : Round sock) (n : ℕ)
      → rest.result ≢ queue_size_exceeded n
      → (after_send sock b bs total r s' rest).result ≢ queue_size_exceeded n
  unfolding after_send
  after_send-exceeded b bs total (sent m) s' rest n h = ground arith
  after_send-exceeded b bs total (failed m) s' rest n h = ground arith

  send_all-exceeded :
      (q : List Bytes) (total : ℕ) (s : State) (n : ℕ)
      → (send_all sock q total s).result ≢ queue_size_exceeded n
  unfolding send_all
  send_all-exceeded [] total s n = ground arith
  send_all-exceeded (b ∷ bs) total s n =
      let (r, s') = send s b in
      after_send-exceeded b bs total r s' _ n (send_all-exceeded bs (total + accepted r) s' n)

  -- EAGAIN never leaves a flush as an error, and QueueSizeExceeded leaves it only with the size of
  -- the queue that is left, which is then above `MAX_QUEUE_SIZE`.
  pub flush_errors :
      (h : BufferOutputHandler) (s : State)
      → ((flush sock h s).result ≢ io_error eagain)
        × ((n : ℕ)
            → (flush sock h s).result ≡ queue_size_exceeded n
            → (n ≡ queue_size (flush sock h s).handler) × (max_queue_size < n))
  unfolding flush queue_size
  flush_errors h s = (
    ground (arith, send_all-eagain h.buffer_queue 0 s),
    λ n p. ground (arith, send_all-exceeded h.buffer_queue 0 s n),
  )

  -- A queue that is too large is not ready.
  pub flush-exceeded :
      (h : BufferOutputHandler) (s : State) (n : ℕ)
      → (flush sock h s).result ≡ queue_size_exceeded n
      → (flush sock h s).handler.ready ≡ false
  unfolding flush queue_size
  flush-exceeded h s n p = go (send_all sock h.buffer_queue 0 s).result refl
    where
      go :
          (o : Flushed)
          → (send_all sock h.buffer_queue 0 s).result ≡ o
          → (send_all sock h.buffer_queue 0 s).handler.ready ≡ false
      go (flushed t) e = filled (send_all sock h.buffer_queue 0 s).handler.buffer_queue refl
        where
          filled :
              (q : List Bytes)
              → (send_all sock h.buffer_queue 0 s).handler.buffer_queue ≡ q
              → (send_all sock h.buffer_queue 0 s).handler.ready ≡ false
          filled [] w = absurd (ground (arith, p, e, w))
          filled (b ∷ bs) w = ground (arith, w, send_all-Counted h.buffer_queue 0 s t e)
      go (queue_size_exceeded m) e =
          absurd (ground (arith, e, send_all-exceeded h.buffer_queue 0 s m))
      go (io_error m) e = absurd (ground (arith, p, e))

  -- An empty queue stays empty.
  pub flush-empty :
      (h : BufferOutputHandler) (s : State)
      → is_empty h.buffer_queue ≡ true
      → is_empty (flush sock h s).handler.buffer_queue ≡ true
  unfolding flush send_all
  flush-empty h s e = go h.buffer_queue e
    where
      go :
          (q : List Bytes)
          → is_empty q ≡ true
          → is_empty (send_all sock q 0 s).handler.buffer_queue ≡ true
      go [] e = refl
      go (b ∷ q) e = absurd (ground (arith, e))
