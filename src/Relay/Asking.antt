-- ===== src/Relay/Asking.antt =====
-- savate/relay.py, HTTPRelay: the request, its response and the source, event by event.
use mathlib.Core.Path.{subst}
use savate.BufferEvent
use savate.Server.Request
use savate.Relay.{
  Ended, Handling, HttpRelay, after_flush, after_read, close, closed, connect, handle_connect,
  handle_connect_next, handle_event, handle_request, handle_request_next, handle_response,
  handle_response_next, has_pollin, init, new_source, no_end, pollin, raised, reconnected, run,
  stays, transform_response,
}
use savate.Prelude.{
  Bool, Bool-cases, Bytes, List, [], ap, append-nil, arith, false, inl, inr, is_empty, join, none,
  refl, some, sym, true, ℕ, ◌&&◌, ◌++◌, ◌==◌, ◌∙◌, ◌∷◌, ◌≡◌, ◌≢◌,
}
use savate.BufferEvent.{Flushed, Socket, empty, flush, flushed, io_error, queue_size_exceeded}
use savate.BufferEvent.Delivery.{flush-stream}
use savate.Handlers.{has_pollout, pollout}
use savate.Server.Request.{
  Outcome, Parser, Peer, finished, handle_read, invalid, out_of_fuel, oversized, unexpected_end,
  waiting,
}
use savate.Server.Request.Reading.{IsOutcome, IsWaiting, handle_read-Read}

module _ (sock : Socket) (peer : Peer) (http : Parser) (status_code : http.State → ℕ)
    (undecodable : http.State → Bool) (new_parser : http.State) (request : Bytes) where
  abbrev R : Type 0
  R = HttpRelay sock peer http status_code undecodable new_parser request

  abbrev E : Type 0
  E = Ended sock peer http status_code undecodable new_parser request

  -- What has been sent and what is queued.
  abbrev stream : R → Bytes
  stream r = sock.wire r.socket ++ join r.output_buffer.buffer_queue

  -- `before` is what the socket had sent when it was made. The request is to come, or on its way with the
  -- relay watched for room, or sent with the relay watched for the response.
  abbrev Asks : Bytes → Handling → R → Type 0
  Asks before handle_connect_next r = (sock.wire r.socket ≡ before) × (r.watched ≡ some pollout)
  Asks before handle_request_next r = (stream r ≡ before ++ request) × (r.watched ≡ some pollout)
  Asks before handle_response_next r =
      (sock.wire r.socket ≡ before ++ request)
      × (r.watched ≡ some pollin)
      × IsWaiting peer http r.response

  abbrev pub IsAsking : Bytes → R → Type 0
  IsAsking before r = Asks before r.handling r

  -- The response is there, with its status.
  abbrev IsAnswered : Bytes → R → Type 0
  IsAnswered before r =
      (sock.wire r.socket ≡ before ++ request)
      × (http.is_finished r.response.request_parser ≡ true)
      × (http.has_error r.response.request_parser ≡ false)
      × (r.handling ≡ handle_response_next)
      × (r.watched ≡ none)

  abbrev pub IsEnd : Bytes → E → Type 0
  IsEnd before (stays r) = IsAsking before r
  IsEnd before (new_source r) =
      IsAnswered before r
      × (status_code r.response.request_parser ≡ 200)
      × (r.od_source ≡ r.on_demand)
  IsEnd before (reconnected r) =
      IsAnswered before r
      × (status_code r.response.request_parser ≡ 200)
      × (r.on_demand ≡ true)
      × (r.od_source ≡ true)
  IsEnd before (closed r) = IsAnswered before r × (status_code r.response.request_parser ≢ 200)
  IsEnd before (raised r) = (unsent : Bytes) × (sock.wire r.socket ++ unsent ≡ before ++ request)
  IsEnd before (no_end r) = ⊥

  asks :
      (before : Bytes) (r : R) (h : Handling) → r.handling ≡ h → Asks before h r → IsAsking before r
  asks before r h e k = subst (λ x. Asks before x r) (sym e) k

  after_flush-IsEnd :
      (before : Bytes) (o : Flushed) (r : R)
      → stream r ≡ before ++ request
      → r.watched ≡ some pollout
      → r.handling ≡ handle_request_next
      → IsEnd before (after_flush sock peer http status_code undecodable new_parser request o r)
  unfolding after_flush empty
  after_flush-IsEnd before (queue_size_exceeded n) r e w h = (join r.output_buffer.buffer_queue, e)
  after_flush-IsEnd before (io_error n) r e w h = (join r.output_buffer.buffer_queue, e)
  after_flush-IsEnd before (flushed n) r e w h =
      elim (Bool-cases (is_empty r.output_buffer.buffer_queue)) [
        | inl q ↦
            rw q (ground (arith, e, q, append-nil (sock.wire r.socket)), refl, (refl, omega arith))
        | inr q ↦ rw q (asks before r handle_request_next h (e, w))
      ]

  handle_request-IsEnd :
      (before : Bytes) (m : ℕ) (r : R)
      → stream r ≡ before ++ request
      → r.watched ≡ some pollout
      → r.handling ≡ handle_request_next
      → IsEnd before (handle_request sock peer http status_code undecodable new_parser request m r)
  unfolding handle_request
  handle_request-IsEnd before m r e w h = elim (Bool-cases (has_pollout m)) [
    | inl q ↦
        let f = flush sock r.output_buffer r.socket in
        rw q (
          after_flush-IsEnd before f.result
            (record r { output_buffer = f.handler; socket = f.socket })
            (flush-stream sock r.output_buffer r.socket ∙ e) w h)
    | inr q ↦ rw q (asks before r handle_request_next h (e, w))
  ]

  handle_connect-IsEnd :
      (before : Bytes) (m so_error : ℕ) (r : R)
      → sock.wire r.socket ≡ before
      → r.watched ≡ some pollout
      → r.handling ≡ handle_connect_next
      → IsEnd before
          (handle_connect sock peer http status_code undecodable new_parser request m so_error r)
  unfolding handle_connect BufferEvent.init
  handle_connect-IsEnd before m so_error r e w h = elim (Bool-cases (has_pollout m)) [
    | inr q ↦ rw q (asks before r handle_connect_next h (e, w))
    | inl q ↦ elim (Bool-cases (so_error == 0)) [
      | inr z ↦ rw (q, z) (request, ap (λ b. b ++ request) e)
      | inl z ↦
          rw (q, z)
            (handle_request-IsEnd before m
              (record r {
                output_buffer = record { ready = true; buffer_queue = request ∷ [] };
                handling = handle_request_next;
              })
              (ground (arith, e, append-nil request)) w refl)
    ]
  ]

  transform_response-IsEnd :
      (before : Bytes) (r : R) (inp : peer.State)
      → sock.wire r.socket ≡ before ++ request
      → r.handling ≡ handle_response_next
      → IsOutcome peer http finished r.response inp
      → IsEnd before
          (transform_response sock peer http status_code undecodable new_parser request r)
  unfolding transform_response close
  transform_response-IsEnd before r inp e h (f, g, _) =
      elim (Bool-cases (status_code r.response.request_parser == 200)) [
        | inr q ↦ rw q ((e, f, g, h, refl), ground (arith, q))
        | inl q ↦ elim (Bool-cases (r.on_demand && r.od_source)) [
          | inr d ↦ elim (Bool-cases (undecodable r.response.request_parser)) [
            | inl u ↦ rw (q, d, u) ([], append-nil (sock.wire r.socket) ∙ e)
            | inr u ↦ rw (q, d, u) ((e, f, g, h, refl), ground (arith, q), refl)
          ]
          | inl d ↦
              rw (q, d)
                ((e, f, g, h, refl), ground (arith, q), ground (arith, d), ground (arith, d))
        ]
      ]

  after_read-IsEnd :
      (before : Bytes) (o : Outcome) (r : R) (inp : peer.State)
      → sock.wire r.socket ≡ before ++ request
      → r.watched ≡ some pollin
      → r.handling ≡ handle_response_next
      → IsOutcome peer http o r.response inp
      → IsEnd before (after_read sock peer http status_code undecodable new_parser request o r)
  unfolding after_read
  after_read-IsEnd before waiting r inp e w h k = asks before r handle_response_next h (e, w, k.0)
  after_read-IsEnd before finished r inp e w h k = transform_response-IsEnd before r inp e h k
  after_read-IsEnd before unexpected_end r inp e w h k = ([], append-nil (sock.wire r.socket) ∙ e)
  after_read-IsEnd before invalid r inp e w h k = ([], append-nil (sock.wire r.socket) ∙ e)
  after_read-IsEnd before oversized r inp e w h k = ([], append-nil (sock.wire r.socket) ∙ e)
  after_read-IsEnd before (Request.io_error n) r inp e w h k =
      ([], append-nil (sock.wire r.socket) ∙ e)
  after_read-IsEnd before out_of_fuel r inp e w h k = k

  handle_response-IsEnd :
      (before : Bytes) (m : ℕ) (r : R)
      → sock.wire r.socket ≡ before ++ request
      → r.watched ≡ some pollin
      → r.handling ≡ handle_response_next
      → IsWaiting peer http r.response
      → IsEnd before (handle_response sock peer http status_code undecodable new_parser request m r)
  unfolding handle_response
  handle_response-IsEnd before m r e w h k = elim (Bool-cases (has_pollin m)) [
    | inr q ↦ rw q (asks before r handle_response_next h (e, w, k))
    | inl q ↦
        let o = handle_read peer http r.response in
        let (b, inp, calls, i, g, n, size) = handle_read-Read peer http r.response k in
        rw q (after_read-IsEnd before o.0 (record r { response = o.1 }) inp e w h i)
  ]

  handle_event-IsEnd :
      (before : Bytes) (m so_error : ℕ) (r : R)
      → IsAsking before r
      → IsEnd before
          (handle_event sock peer http status_code undecodable new_parser request m so_error r)
  unfolding handle_event
  handle_event-IsEnd before m so_error r a = go r.handling refl a
    where
      go :
          (h : Handling)
          → r.handling ≡ h
          → Asks before h r
          → IsEnd before
              (handle_event sock peer http status_code undecodable new_parser request m so_error r)
      go handle_connect_next h (e, w) =
          let same : handle_connect sock peer http status_code undecodable new_parser request m
                so_error r
              ≡ handle_event sock peer http status_code undecodable new_parser request m so_error
                  r =
            ground (arith, h) in
          subst (λ q. IsEnd before q) same (handle_connect-IsEnd before m so_error r e w h)
      go handle_request_next h (e, w) =
          let same : handle_request sock peer http status_code undecodable new_parser request m r
              ≡ handle_event sock peer http status_code undecodable new_parser request m so_error
                  r =
            ground (arith, h) in
          subst (λ q. IsEnd before q) same (handle_request-IsEnd before m r e w h)
      go handle_response_next h (e, w, k) =
          let same : handle_response sock peer http status_code undecodable new_parser request m r
              ≡ handle_event sock peer http status_code undecodable new_parser request m so_error
                  r =
            ground (arith, h) in
          subst (λ q. IsEnd before q) same (handle_response-IsEnd before m r e w h k)

  -- Whatever its events, a relay that asks goes on to, or ends.
  run-IsEnd :
      (before : Bytes) (events : List (ℕ × ℕ)) (r : R)
      → IsAsking before r
      → IsEnd before (run sock peer http status_code undecodable new_parser request events r)
  unfolding run
  run-IsEnd before [] r a = a
  run-IsEnd before ((m, so_error) ∷ events) r a =
      go (handle_event sock peer http status_code undecodable new_parser request m so_error r) refl
        (handle_event-IsEnd before m so_error r a) (run-IsEnd before events)
    where
      go :
          (q : E)
          → handle_event sock peer http status_code undecodable new_parser request m so_error r ≡ q
          → IsEnd before q
          → ((r1 : R)
              → IsAsking before r1
              → IsEnd before
                  (run sock peer http status_code undecodable new_parser request events r1))
          → IsEnd before (
              run sock peer http status_code undecodable new_parser request
                ((m, so_error) ∷ events)
                r)
      go (stays r1) e k ih = rw (e, run) (ih r1 k)
      go (new_source r1) e k ih = rw (e, run) k
      go (reconnected r1) e k ih = rw (e, run) k
      go (closed r1) e k ih = rw (e, run) k
      go (raised r1) e k ih = rw (e, run) k
      go (no_end r1) e k ih = absurd k

  connect-IsAsking :
      (on_demand : Bool) (error : ℕ) (out₀ out : sock.State) (inp₀ inp : peer.State) (r : R)
      → connect sock peer http status_code undecodable new_parser request error out inp
          (init sock peer http status_code undecodable new_parser request on_demand out₀ inp₀)
        ≡ stays r
      → IsAsking (sock.wire out) r
  unfolding connect init
  connect-IsAsking on_demand error out₀ out inp₀ inp r e =
      asks (sock.wire out) r handle_connect_next (ground (arith, e))
        (ap (λ o. sock.wire o) (ground (arith, e)), ground (arith, e))

  -- A new relay whose connect succeeds, whatever its events: while it waits, the request is still to come,
  -- or on its way with the relay watched for room, or sent, once and whole, with the relay watched for the
  -- response. It becomes a source, or gives its connection back to one, after a response with status 200 that
  -- was parsed without an error, and is closed after one with another status. Where an exception ends it,
  -- part of the request has been sent, and nothing else.
  pub run-connected :
      (events : List (ℕ × ℕ)) (on_demand : Bool) (error : ℕ) (out₀ out : sock.State)
      (inp₀ inp : peer.State) (r : R)
      → connect sock peer http status_code undecodable new_parser request error out inp
          (init sock peer http status_code undecodable new_parser request on_demand out₀ inp₀)
        ≡ stays r
      → IsEnd
          (sock.wire out)
          (run sock peer http status_code undecodable new_parser request events r)
  run-connected events on_demand error out₀ out inp₀ inp r e =
      run-IsEnd (sock.wire out) events r (connect-IsAsking on_demand error out₀ out inp₀ inp r e)
