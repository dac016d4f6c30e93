-- ===== src/Handlers/Awake.antt =====
-- savate/helpers.py and savate/clients.py: what a client is watched for, and the bytes it has to send.
use savate.Prelude.{
  Bool-cases, Bytes, List, [], append-nil, append_assoc, arith, false, inl, inr, is_empty, join,
  join-append, none, refl, some, true, ℕ, ◌++◌, ◌+◌, ◌==◌, ◌∷◌, ◌≡◌,
}
use savate.BufferEvent.{Flushed, Socket, add_buffer, flush, flushed, io_error, queue_size_exceeded}
use savate.BufferEvent.Delivery.{flush-empty, flush-exceeded, flush-flushed, flush-stream}
use mathlib.Core.Path.{subst}
use savate.Handlers.{
  Ended, Handler, activate_timeout, add_packet, after_flush, caught, close, deactivate, done,
  flush_finish, flush_output, handle_event, has_error, has_pollout, is_disconnect, pollout, raised,
  stream_client,
}

is_empty-append : (q : List Bytes) (b : Bytes) → is_empty (q ++ b ∷ []) ≡ false
is_empty-append [] b = refl
is_empty-append (x ∷ q) b = refl

module _ (sock : Socket) where
  -- Data to send: watched for room in the socket. None: watched for nothing, and no timeout. Closed: not
  -- watched at all.
  pub record IsAwake (h : Handler sock) : Type 0 where
    pub waiting :
        h.closed ≡ false → is_empty h.output_buffer.buffer_queue ≡ false → h.watched ≡ some pollout
    pub idle :
        h.closed ≡ false
        → is_empty h.output_buffer.buffer_queue ≡ true
        → (h.watched ≡ some 0) × (h.inactivity ≡ false)
    pub timed : h.closed ≡ false → h.timeout_state ≡ true → h.inactivity ≡ true
    pub gone : h.closed ≡ true → (h.watched ≡ none) × (h.inactivity ≡ false)

  pub add_packet-IsAwake :
      (b : Bytes) (h : Handler sock) → h.closed ≡ false → IsAwake h → IsAwake (add_packet sock b h)
  unfolding add_packet activate_timeout add_buffer
  add_packet-IsAwake b h o v = record {
    waiting = λ c e. refl;
    idle = λ c e. absurd (ground (arith, e, is_empty-append h.output_buffer.buffer_queue b));
    timed = λ c t. ground (arith, v.timed o);
    gone = λ c. absurd (ground (arith, o, c));
  }

  close-IsAwake : (h : Handler sock) → IsAwake (close sock h)
  unfolding close
  close-IsAwake h = record {
    waiting = λ c e. absurd (ground (arith, c));
    idle = λ c e. absurd (ground (arith, c));
    timed = λ c t. absurd (ground (arith, c));
    gone = λ c. (refl, refl);
  }

  -- A flush that ends normally, and StreamClient's steps after it.
  deactivate-IsAwake :
      (h : Handler sock)
      → h.closed ≡ false
      → h.output_buffer.ready ≡ is_empty h.output_buffer.buffer_queue
      → (is_empty h.output_buffer.buffer_queue ≡ false → h.watched ≡ some pollout)
      → (h.timeout_state ≡ true → h.inactivity ≡ true)
      → IsAwake (deactivate sock h)
  unfolding deactivate
  deactivate-IsAwake h o r w t = elim (Bool-cases h.output_buffer.ready) [
    | inl e ↦
        let h' : Handler sock = record h {
          watched = some 0;
          inactivity = false;
          timeout_state = false;
        } in
        let same : h' ≡ deactivate sock h = ground (arith, e) in
        subst (λ x. IsAwake x) same
          (record {
            waiting = λ c q. absurd (ground (arith, e, q, r));
            idle = λ c q. (refl, refl);
            timed = λ c q. absurd (ground (arith, q));
            gone = λ c. absurd (ground (arith, o, c));
          })
    | inr e ↦
        let same : h ≡ deactivate sock h = ground (arith, e) in
        subst (λ x. IsAwake x) same
          (record {
            waiting = λ c q. w q;
            idle = λ c q. absurd (ground (arith, e, q, r));
            timed = λ c q. t q;
            gone = λ c. absurd (ground (arith, o, c));
          })
  ]

  -- What is on the wire and what is queued.
  abbrev pub stream : Handler sock → Bytes
  stream h = sock.wire h.socket ++ join h.output_buffer.buffer_queue

  -- An end of a step: in order, with the bytes that there were.
  abbrev pub IsKept : Bytes → Ended sock → Type 0
  IsKept before (done h) = IsAwake h × (stream h ≡ before)
  IsKept before (raised e h) = stream h ≡ before

  deactivate-stream : (h : Handler sock) → stream (deactivate sock h) ≡ stream h
  unfolding deactivate
  deactivate-stream h = ground arith

  close-stream : (h : Handler sock) → stream (close sock h) ≡ stream h
  unfolding close
  close-stream h = refl

  -- What follows a flush that ended in `o` and left the handler `h`.
  after_flush-IsKept :
      (o : Flushed) (h : Handler sock)
      → h.closed ≡ false
      → (is_empty h.output_buffer.buffer_queue ≡ false → h.watched ≡ some pollout)
      → (h.timeout_state ≡ true → h.inactivity ≡ true)
      → ((n : ℕ) → o ≡ flushed n → h.output_buffer.ready ≡ is_empty h.output_buffer.buffer_queue)
      → ((n : ℕ) → o ≡ queue_size_exceeded n → h.output_buffer.ready ≡ false)
      → IsKept (stream h) (caught sock (flush_finish sock stream_client (after_flush sock o h)))
  unfolding after_flush flush_finish caught
  after_flush-IsKept (flushed n) h c w t r x = elim (Bool-cases (n == 0)) [
    | inl e ↦ rw e (deactivate-IsAwake h c (r n refl) w t, deactivate-stream h)
    | inr e ↦
        let h' = record h { inactivity = true; bytes_sent = h.bytes_sent + n } in
        rw e (deactivate-IsAwake h' c (r n refl) w (λ q. refl), deactivate-stream h')
  ]
  after_flush-IsKept (queue_size_exceeded n) h c w t r x =
      let same : close sock h ≡ deactivate sock (close sock h) =
        unfold deactivate in unfold close in ground (arith, x n refl) in
      subst (λ y. IsAwake y × (stream y ≡ stream h)) same (close-IsAwake h, close-stream h)
  after_flush-IsKept (io_error e) h c w t r x = elim (Bool-cases (is_disconnect e)) [
    | inl d ↦ rw d (close-IsAwake h, close-stream h)
    | inr d ↦ rw d refl
  ]

  -- Data left by a flush was there before it.
  flushed-waiting :
      (h : Handler sock)
      → IsAwake h
      → h.closed ≡ false
      → is_empty (flush sock h.output_buffer h.socket).handler.buffer_queue ≡ false
      → h.watched ≡ some pollout
  flushed-waiting h v o e = elim (Bool-cases (is_empty h.output_buffer.buffer_queue)) [
    | inl q ↦ absurd (ground (arith, e, flush-empty sock h.output_buffer h.socket q))
    | inr q ↦ v.waiting o q
  ]

  pub handle_event-IsKept :
      (eventmask : ℕ) (h : Handler sock)
      → h.closed ≡ false
      → IsAwake h
      → IsKept (stream h) (handle_event sock stream_client eventmask h)
  unfolding handle_event flush_output
  handle_event-IsKept eventmask h o v = elim (Bool-cases (has_pollout eventmask)) [
    | inl e ↦
        let r = flush sock h.output_buffer h.socket in
        let h0 : Handler sock = record h { output_buffer = r.handler; socket = r.socket } in
        rw e (
          subst
            (λ b.
              IsKept b
                (caught sock (flush_finish sock stream_client (after_flush sock r.result h0))))
            (flush-stream sock h.output_buffer h.socket)
            (after_flush-IsKept r.result h0 o (flushed-waiting h v o) (v.timed o)
              (λ n p. (flush-flushed sock h.output_buffer h.socket n p).1)
              (λ n p. flush-exceeded sock h.output_buffer h.socket n p)))
    | inr e ↦ elim (Bool-cases (has_error eventmask)) [
      | inl g ↦ rw (e, g) (close-IsAwake h, close-stream h)
      | inr g ↦ rw (e, g) (v, refl)
    ]
  ]

  pub add_packet-stream :
      (b : Bytes) (h : Handler sock) → stream (add_packet sock b h) ≡ stream h ++ b
  unfolding add_packet activate_timeout add_buffer
  add_packet-stream b h = ground (
    arith,
    join-append h.output_buffer.buffer_queue (b ∷ []),
    append_assoc (sock.wire h.socket) (join h.output_buffer.buffer_queue) b,
    append-nil b,
  )
